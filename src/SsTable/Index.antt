-- ===== src/SsTable/Index.antt =====
-- The index block of an SSTable, and its sizes.
use mathlib.Core.Path.{ap₂}
use graphite_tsdb.Prelude.{
  ℕ, zero, suc, ◌+◌, ◌*◌, ◌%◌, ◌^◌, ◌≤◌, ◌<◌, ◌≡◌, refl, sym, ap, ◌∙◌, arith, true, false, some,
  List, [], ◌∷◌, ◌++◌, append_assoc, append-nil, ltb, length, length-append, slice, slice-append,
  All, dec_lt,
}
use graphite_tsdb.Prelude.Bytes.{
  number_section, IsU32, IsU64, to_be_bytes, from_be_bytes, u64_of, i64_of, length-to_be_bytes,
}
use graphite_tsdb.Types.{Key, IsKey, encode, decode}
use graphite_tsdb.Types.KeyOrder.{decode-encode_key}
use graphite_tsdb.SsTable.{IndexEntry, Footer, ok, panics}
use graphite_tsdb.SsTable.Read.{read_at, entry_at, read_entries, read_index}
use graphite_tsdb.SsTable.Write.{index_entries, index_block}
use graphite_tsdb.SsTable.Sections.{length-slice, read_at_section}

pub length-encode : (k : Key) → length (encode k) ≡ 10
unfolding encode
length-encode k =
    length-append (to_be_bytes 2 k.symbol_id) (to_be_bytes 8 (u64_of k.timestamp))
    ∙ omega (arith, length-to_be_bytes 2 k.symbol_id, length-to_be_bytes 8 (u64_of k.timestamp))

length-entry :
    (e : IndexEntry) (rest : List ℕ)
    → length
        (encode e.key ++ (to_be_bytes 8 e.block_offset ++ (to_be_bytes 4 e.block_size ++ rest)))
      ≡ 22 + length rest
length-entry e rest =
    let a = to_be_bytes 8 e.block_offset in
    let b = to_be_bytes 4 e.block_size in
    omega (
      arith,
      length-append (encode e.key) (a ++ (b ++ rest)),
      length-append a (b ++ rest),
      length-append b rest,
      length-encode e.key,
      length-to_be_bytes 8 e.block_offset,
      length-to_be_bytes 4 e.block_size,
    )

pub length-index_entries :
    (index : List IndexEntry) → length (index_entries index) ≡ 22 * length index
unfolding index_entries
length-index_entries [] = refl
length-index_entries (e ∷ es) =
    length-entry e (index_entries es) ∙ omega (arith, length-index_entries es)

decode_long : (buf : List ℕ) → length buf ≡ 10 → (k : Key) × (decode buf ≡ some k)
unfolding decode
decode_long buf h =
    let long : ltb (length buf) 10 ≡ false = ground arith in
    (
      record {
        symbol_id = from_be_bytes (slice 0 2 buf);
        timestamp = i64_of (from_be_bytes (slice 2 10 buf));
      },
      rw long refl,
    )

abbrev entry_with : Key → ℕ → List ℕ → IndexEntry
entry_with k offset buf = record {
  key = k;
  block_offset = from_be_bytes (slice (offset + 10) (offset + 18) buf);
  block_size = from_be_bytes (slice (offset + 18) (offset + 22) buf);
}

entry_at_key :
    (offset : ℕ) (buf : List ℕ) (k : Key)
    → offset + 22 ≤ length buf
    → decode (slice offset (offset + 10) buf) ≡ some k
    → entry_at offset buf ≡ ok (entry_with k offset buf)
unfolding entry_at
entry_at_key offset buf k h e =
    let a : ltb (length buf) (offset + 22) ≡ false = ground arith in rw (a, e) refl

entry_at_inside :
    (offset : ℕ) (buf : List ℕ)
    → offset + 22 ≤ length buf
    → (entry : IndexEntry) × (entry_at offset buf ≡ ok entry)
entry_at_inside offset buf h =
    let long : length (slice offset (offset + 10) buf) ≡ 10 =
      length-slice offset (offset + 10) buf (omega arith) (omega arith) ∙ omega arith in
    let (k, e) = decode_long (slice offset (offset + 10) buf) long in
    (entry_with k offset buf, entry_at_key offset buf k h e)

entry_at_outside :
    (offset : ℕ) (buf : List ℕ) → length buf < offset + 22 → entry_at offset buf ≡ panics
unfolding entry_at
entry_at_outside offset buf h =
    let a : ltb (length buf) (offset + 22) ≡ true = ground arith in rw a refl

-- The loop panics if there are not enough bytes for all rounds.
pub read_entries_panics :
    (n offset : ℕ) (buf : List ℕ)
    → offset ≤ length buf
    → length buf < offset + 22 * n
    → read_entries n offset buf ≡ panics
unfolding read_entries
read_entries_panics zero offset buf k h = absurd (omega arith)
read_entries_panics (suc n) offset buf k h = elim (dec_lt (length buf) (offset + 22)) [
  | yes less ↦ rw (entry_at_outside offset buf less) refl
  | no more ↦
      let (entry, e) = entry_at_inside offset buf (omega arith) in
      rw (e, read_entries_panics n (offset + 22) buf (omega arith) (omega arith)) refl
]

-- The fields of an entry are in the ranges of their types.
pub record IsIndexEntry (e : IndexEntry) : Type 0 where
  pub key_range : IsKey e.key
  pub offset_range : IsU64 e.block_offset
  pub size_range : IsU32 e.block_size

entry_at_written :
    (before rest : List ℕ) (e : IndexEntry)
    → IsIndexEntry e
    → entry_at (length before) (
        before
        ++ (encode e.key ++ (to_be_bytes 8 e.block_offset ++ (to_be_bytes 4 e.block_size ++ rest))))
      ≡ ok e
entry_at_written before rest e h =
    let k = encode e.key in
    let o = to_be_bytes 8 e.block_offset in
    let z = to_be_bytes 4 e.block_size in
    let n = length before in
    let buf = before ++ (k ++ (o ++ (z ++ rest))) in
    let key_bytes : slice n (n + 10) buf ≡ k =
      slice-append 10 n before k (o ++ (z ++ rest)) refl (length-encode e.key) in
    let decoded : decode (slice n (n + 10) buf) ≡ some e.key =
      rw (key_bytes, sym (append-nil k)) (decode-encode_key e.key [] h.key_range) in
    let long : n + 22 ≤ length buf =
      omega (arith, length-append before (k ++ (o ++ (z ++ rest))), length-entry e rest) in
    let e1 : buf ≡ (before ++ k) ++ (o ++ (z ++ rest)) = sym (append_assoc before k _) in
    let e2 : buf ≡ ((before ++ k) ++ o) ++ (z ++ rest) =
      e1 ∙ sym (append_assoc (before ++ k) o _) in
    let to_offset : length (before ++ k) ≡ n + 10 =
      omega (arith, length-append before k, length-encode e.key) in
    let to_size : length ((before ++ k) ++ o) ≡ n + 18 =
      omega
        (arith, length-append (before ++ k) o, to_offset, length-to_be_bytes 8 e.block_offset) in
    let f1 : from_be_bytes (slice (n + 10) (n + 18) buf) ≡ e.block_offset =
      ap (λ (x : List ℕ). from_be_bytes (slice (n + 10) (n + 18) x)) e1
      ∙ number_section (before ++ k) (z ++ rest) 8 e.block_offset (n + 10) (n + 18) to_offset
          (omega arith) h.offset_range in
    let f2 : from_be_bytes (slice (n + 18) (n + 22) buf) ≡ e.block_size =
      ap (λ (x : List ℕ). from_be_bytes (slice (n + 18) (n + 22) x)) e2
      ∙ number_section ((before ++ k) ++ o) rest 4 e.block_size (n + 18) (n + 22) to_size
          (omega arith) h.size_range in
    entry_at_key n buf e.key long decoded
    ∙ ap₂ (λ (a b : ℕ). ok (record { key = e.key; block_offset = a; block_size = b })) f1 f2

read_entries_written :
    (before : List ℕ) (index : List IndexEntry)
    → All IsIndexEntry index
    → read_entries (length index) (length before) (before ++ index_entries index) ≡ ok index
unfolding read_entries index_entries
read_entries_written before [] h = refl
read_entries_written before (e ∷ es) (h, hs) =
    let k = encode e.key in
    let o = to_be_bytes 8 e.block_offset in
    let z = to_be_bytes 4 e.block_size in
    let entry = k ++ (o ++ z) in
    let longer : length (before ++ entry) ≡ length before + 22 = omega (
      arith,
      length-append before entry,
      length-append k (o ++ z),
      length-append o z,
      length-encode e.key,
      length-to_be_bytes 8 e.block_offset,
      length-to_be_bytes 4 e.block_size,
    ) in
    let regrouped : (before ++ entry) ++ index_entries es
        ≡ before ++ (k ++ (o ++ (z ++ index_entries es))) =
      rw
        (
          append_assoc before entry (index_entries es),
          append_assoc k (o ++ z) (index_entries es),
          append_assoc o z (index_entries es),
        )
        refl in
    let more : read_entries (length es) (length before + 22)
          (before ++ (k ++ (o ++ (z ++ index_entries es))))
        ≡ ok es =
      ap₂ (λ (n : ℕ) (b : List ℕ). read_entries (length es) n b) (sym longer) (sym regrouped)
      ∙ read_entries_written (before ++ entry) es hs in
    rw (entry_at_written before (index_entries es) e h, more) refl

-- An index block is read back from where it stands in a file.
pub read_index-index_block :
    (before rest : List ℕ) (index : List IndexEntry) (footer : Footer)
    → All IsIndexEntry index
    → length index < 2 ^ 32
    → footer.index_offset ≡ length before
    → footer.index_size ≡ length (index_block index)
    → length (before ++ (index_block index ++ rest)) < 2 ^ 63
    → read_index (before ++ (index_block index ++ rest)) footer ≡ ok index
unfolding read_index index_block
read_index-index_block before rest index footer h small at_offset of_size short =
    let count = to_be_bytes 4 (length index % 2 ^ 32) in
    let part = count ++ index_entries index in
    let four : length count ≡ 4 = length-to_be_bytes 4 (length index % 2 ^ 32) in
    let size : length part ≡ 4 + length (index_entries index) =
      omega (arith, length-append count (index_entries index), four) in
    let e0 : read_at (before ++ (part ++ rest)) footer.index_offset footer.index_size ≡ ok part =
      read_at_section before part rest footer.index_offset footer.index_size short (omega arith)
        (sym at_offset) (sym of_size) in
    let long : ltb (length part) 4 ≡ false = ground arith in
    let n : from_be_bytes (slice 0 4 part) ≡ length index =
      number_section [] (index_entries index) 4 (length index % 2 ^ 32) 0 4 refl refl (omega arith)
      ∙ omega arith in
    rw (e0, long, n)
      (ap (λ (t : ℕ). read_entries (length index) t part) (sym four)
        ∙ read_entries_written count index h)
