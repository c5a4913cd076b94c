-- ===== src/Compression/Dictionary/Columns.antt =====
-- The column of symbol identifiers is read back.
use graphite_tsdb.Prelude.{ℕ, ◌+◌, ◌*◌, ◌%◌, ◌^◌, ◌≤◌, ◌<◌, ◌≡◌, refl, ap, ◌∙◌, arith}
use graphite_tsdb.Prelude.{List, [], ◌∷◌, ◌++◌, append_assoc}
use graphite_tsdb.Prelude.{length, length-append, slice, take-append, slice-append, All}
use graphite_tsdb.Prelude.Bytes.{
  IsU16, to_be_bytes, from_be_bytes, length-to_be_bytes, from_be_bytes-to_be_bytes,
}
use native.Mathlib.Nat.{mod-eq_of_lt}
use graphite_tsdb.Compression.Dictionary.{ids_to_bytes, encode_ids, decode_ids_loop, decode_ids}

decode_ids_loop-ids_to_bytes :
    (ids pre : List ℕ) (i : ℕ)
    → length pre ≡ 4 + i * 2
    → All IsU16 ids
    → decode_ids_loop (pre ++ ids_to_bytes ids) (length ids) i ≡ ids
unfolding decode_ids_loop ids_to_bytes
decode_ids_loop-ids_to_bytes [] pre i hp h = refl
decode_ids_loop-ids_to_bytes (id ∷ ids) pre i hp h =
    let bs = to_be_bytes 2 id in
    let rest = ids_to_bytes ids in
    let room : 4 + i * 2 + 2 ≤ length (pre ++ (bs ++ rest)) =
      omega
        (arith, length-append pre (bs ++ rest), length-append bs rest, length-to_be_bytes 2 id) in
    let first : from_be_bytes (slice (4 + i * 2) (4 + i * 2 + 2) (pre ++ (bs ++ rest))) ≡ id =
      ap from_be_bytes (slice-append 2 (4 + i * 2) pre bs rest hp (length-to_be_bytes 2 id))
      ∙ from_be_bytes-to_be_bytes 2 id h.0 in
    let later : decode_ids_loop (pre ++ (bs ++ rest)) (length ids) (i + 1) ≡ ids =
      rw (← append_assoc pre bs rest) (
        decode_ids_loop-ids_to_bytes ids (pre ++ bs) (i + 1)
          (omega (arith, length-append pre bs, length-to_be_bytes 2 id)) h.1) in
    ground (arith, room, first, later)

-- `decode_ids` reads back every list of fewer than 2 ^ 32 16-bit identifiers that `encode_ids`
-- wrote.
pub decode_ids-encode_ids :
    (ids : List ℕ) → All IsU16 ids → length ids < 2 ^ 32 → decode_ids (encode_ids ids) ≡ ids
unfolding decode_ids encode_ids
decode_ids-encode_ids ids h small =
    let head = to_be_bytes 4 (length ids % 2 ^ 32) in
    let count : from_be_bytes head ≡ length ids =
      from_be_bytes-to_be_bytes 4 (length ids % 2 ^ 32) (omega arith) ∙ mod-eq_of_lt small in
    let first : slice 0 4 (head ++ ids_to_bytes ids) ≡ head =
      take-append 4 head (ids_to_bytes ids) (length-to_be_bytes 4 _) in
    let body : decode_ids_loop (head ++ ids_to_bytes ids) (length ids) 0 ≡ ids =
      decode_ids_loop-ids_to_bytes ids head 0 (length-to_be_bytes 4 _) h in
    rw (first, count, body)
      (ground
        (arith, length-append head (ids_to_bytes ids), length-to_be_bytes 4 (length ids % 2 ^ 32)))
