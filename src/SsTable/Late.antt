-- ===== src/SsTable/Late.antt =====
-- Where the sections of a written SSTable are looked for: the data offset of 8 counts two bytes more
-- than the header has, so all sections are read two bytes late.
use graphite_tsdb.Prelude.{
  ℕ, zero, suc, ◌+◌, ◌-◌, ◌*◌, ◌%◌, ◌^◌, ◌≤◌, ◌<◌, ◌≡◌, refl, ap, false, ◌∙◌, arith, List, [], ◌∷◌,
  ◌++◌, append_assoc, ltb, length, length-append, slice, take, drop, drop-append_le, take-append,
}
use graphite_tsdb.Prelude.Bytes.{
  to_be_bytes, from_be_bytes, be_from, u64_of, length-to_be_bytes, drop-to_be_bytes,
}
use graphite_tsdb.Types.{encode}
use graphite_tsdb.SsTable.{IndexEntry, Footer, ok, panics}
use graphite_tsdb.SsTable.Read.{read_at, read_index}
use graphite_tsdb.SsTable.Write.{index_entries, index_block}
use graphite_tsdb.SsTable.Sections.{read_at-slice, length-slice}
use graphite_tsdb.SsTable.Words.{drop-skip}
use graphite_tsdb.SsTable.Index.{length-index_entries, read_entries_panics}

take-take_le : {A : Type 0} (m n : ℕ) (xs : List A) → m ≤ n → take m (take n xs) ≡ take m xs
take-take_le zero n xs h = refl
take-take_le (suc m) zero xs h = absurd (omega arith)
take-take_le (suc m) (suc n) [] h = refl
take-take_le (suc m) (suc n) (x ∷ xs) h =
    ap (λ (t : List _). x ∷ t) (take-take_le m n xs (omega arith))

-- The four bytes that stand two bytes after the start of an index block.
late_bytes : ℕ → ℕ → List ℕ
late_bytes n s = to_be_bytes 2 n ++ to_be_bytes 2 s

-- They are a number far above the count of the entries.
late_count : (n s : ℕ) → 0 < n → n < 2 ^ 16 → n < from_be_bytes (late_bytes n s)
unfolding late_bytes to_be_bytes from_be_bytes be_from
late_count n s h k = omega arith

late_slice :
    (before rest : List ℕ) (e : IndexEntry) (es : List IndexEntry) (a m : ℕ)
    → a ≡ length before + 2
    → 4 ≤ m
    → take 4 (take m (drop a (before ++ (index_block (e ∷ es) ++ rest))))
      ≡ late_bytes (suc (length es) % 2 ^ 32) e.key.symbol_id
unfolding late_bytes index_block index_entries encode
late_slice before rest e es a m ha hm =
    let n = suc (length es) % 2 ^ 32 in
    let c = to_be_bytes 4 n in
    let n2 = to_be_bytes 2 n in
    let sy = to_be_bytes 2 e.key.symbol_id in
    let t8 = to_be_bytes 8 (u64_of e.key.timestamp) in
    let more = to_be_bytes 8 e.block_offset ++ (to_be_bytes 4 e.block_size ++ index_entries es) in
    let entries = (sy ++ t8) ++ more in
    let all = before ++ ((c ++ entries) ++ rest) in
    let skipped : drop a all ≡ drop 2 ((c ++ entries) ++ rest) =
      ap (λ (t : ℕ). drop t all) ha
      ∙ drop-skip (length before) 2 before ((c ++ entries) ++ rest) refl in
    let halved : drop 2 ((c ++ entries) ++ rest) ≡ n2 ++ (entries ++ rest) =
      ap (drop 2) (append_assoc c entries rest)
      ∙ drop-append_le 2 c (entries ++ rest) (omega (arith, length-to_be_bytes 4 n))
      ∙ ap (λ (t : List ℕ). t ++ (entries ++ rest)) (drop-to_be_bytes 2 2 4 n refl) in
    let regrouped : n2 ++ (entries ++ rest) ≡ (n2 ++ sy) ++ (t8 ++ (more ++ rest)) =
      rw
        (
          append_assoc n2 sy (t8 ++ (more ++ rest)),
          append_assoc (sy ++ t8) more rest,
          append_assoc sy t8 (more ++ rest),
        )
        refl in
    take-take_le 4 m (drop a all) hm
    ∙ ap (take 4) (skipped ∙ halved ∙ regrouped)
    ∙ take-append 4 (n2 ++ sy) (t8 ++ (more ++ rest)) (
        omega (
          arith,
          length-append n2 sy,
          length-to_be_bytes 2 n,
          length-to_be_bytes 2 e.key.symbol_id,
        ))

length-index_block : (index : List IndexEntry) → length (index_block index) ≡ 4 + 22 * length index
unfolding index_block
length-index_block index = omega (
  arith,
  length-append (to_be_bytes 4 (length index % 2 ^ 32)) (index_entries index),
  length-to_be_bytes 4 (length index % 2 ^ 32),
  length-index_entries index,
)

-- The index block is read two bytes late, so its first four bytes are a count that is far too large.
pub read_index_late :
    (before rest : List ℕ) (index : List IndexEntry) (footer : Footer)
    → 0 < length index
    → length index < 2 ^ 16
    → footer.index_offset ≡ length before + 2
    → footer.index_size ≡ length (index_block index)
    → 2 ≤ length rest
    → length (before ++ (index_block index ++ rest)) < 2 ^ 63
    → read_index (before ++ (index_block index ++ rest)) footer ≡ panics
unfolding read_index
read_index_late before rest [] footer some_entry few late size more short = absurd (omega arith)
read_index_late before rest (e ∷ es) footer some_entry few late size more short =
    let index = e ∷ es in
    let file = before ++ (index_block index ++ rest) in
    let long : length file ≡ length before + (4 + 22 * length index) + length rest = omega (
      arith,
      length-append before (index_block index ++ rest),
      length-append (index_block index) rest,
      length-index_block index,
    ) in
    let m = footer.index_size in
    let m_is : m ≡ 4 + 22 * length index = size ∙ length-index_block index in
    let a = footer.index_offset in
    let buf = slice a (a + m) file in
    let e0 : read_at file a m ≡ ok buf = read_at-slice file a m short (omega arith) (omega arith) in
    let len : length buf ≡ 4 + 22 * length index =
      length-slice a (a + m) file (omega arith) (omega arith) ∙ omega arith in
    let whole : ltb (length buf) 4 ≡ false = ground arith in
    let bytes : slice 0 4 buf ≡ late_bytes (suc (length es) % 2 ^ 32) e.key.symbol_id =
      late_slice before rest e es a (a + m - a) late (omega arith) in
    let count : length index < from_be_bytes (slice 0 4 buf) = rw (bytes) (
      omega (
        arith,
        late_count (suc (length es) % 2 ^ 32) e.key.symbol_id (omega arith) (omega arith),
      )) in
    rw (e0, whole)
      (read_entries_panics (from_be_bytes (slice 0 4 buf)) 4 buf (omega arith) (omega arith))
