-- ===== src/SsTable/Footers.antt =====
-- The footer of an SSTable is read back from the end of its file.
use graphite_tsdb.Prelude.{
  ℕ, ◌+◌, ◌-◌, ◌%◌, ◌^◌, ◌<◌, ◌≡◌, refl, sym, ap, ◌∙◌, arith, List, [], ◌∷◌, ◌++◌, append-nil,
  length, length-append, All,
}
use graphite_tsdb.Prelude.Bytes.{IsU64, to_be_bytes}
use graphite_tsdb.SsTable.{Footer, ok}
use graphite_tsdb.SsTable.Read.{read_at, read_footer}
use graphite_tsdb.SsTable.Write.{write_footer}
use graphite_tsdb.SsTable.Sections.{read_at_section}
use graphite_tsdb.SsTable.Words.{words, length-words, number_of_word}

abbrev pub fields : Footer → List ℕ
fields f =
    f.data_offset ∷ f.data_size ∷ f.index_offset ∷ f.index_size ∷ f.bloom_offset ∷ f.bloom_size
    ∷ f.meta_offset ∷ f.meta_size ∷ []

write_footer-words : (f : Footer) → write_footer f ≡ words (fields f)
unfolding write_footer words
write_footer-words f =
    ap
      (λ (t : List ℕ).
        to_be_bytes 8 f.data_offset
        ++ (to_be_bytes 8 f.data_size
            ++ (to_be_bytes 8 f.index_offset
                ++ (to_be_bytes 8 f.index_size
                    ++ (to_be_bytes 8 f.bloom_offset
                        ++ (to_be_bytes 8 f.bloom_size ++ (to_be_bytes 8 f.meta_offset ++ t)))))))
      (sym (append-nil (to_be_bytes 8 f.meta_size)))

pub length-write_footer : (f : Footer) → length (write_footer f) ≡ 64
length-write_footer f = ap length (write_footer-words f) ∙ length-words (fields f)

-- A footer whose fields fit 64 bits is read back from the end of a file.
pub read_footer-write_footer :
    (body : List ℕ) (f : Footer)
    → All IsU64 (fields f)
    → length (body ++ write_footer f) < 2 ^ 63
    → read_footer (body ++ write_footer f) (length (body ++ write_footer f)) ≡ ok f
unfolding read_footer
read_footer-write_footer body f fit short =
    let n = length (body ++ write_footer f) in
    let total : n ≡ length body + 64 =
      omega (arith, length-append body (write_footer f), length-write_footer f) in
    let start : (n + 2 ^ 64 - 64) % 2 ^ 64 ≡ length body = omega arith in
    let whole : body ++ write_footer f ≡ body ++ (write_footer f ++ []) =
      ap (λ (t : List ℕ). body ++ t) (sym (append-nil (write_footer f))) in
    let section : read_at (body ++ write_footer f) (length body) 64 ≡ ok (write_footer f) =
      ap (λ (t : List ℕ). read_at t (length body) 64) whole
      ∙ read_at_section body (write_footer f) [] (length body) 64 (omega (arith, ap length whole))
          (omega arith) refl (length-write_footer f) in
    rw
      (
        start,
        section,
        write_footer-words f,
        number_of_word 0 (fields f) (omega arith) fit,
        number_of_word 1 (fields f) (omega arith) fit,
        number_of_word 2 (fields f) (omega arith) fit,
        number_of_word 3 (fields f) (omega arith) fit,
        number_of_word 4 (fields f) (omega arith) fit,
        number_of_word 5 (fields f) (omega arith) fit,
        number_of_word 6 (fields f) (omega arith) fit,
        number_of_word 7 (fields f) (omega arith) fit,
      )
      refl
