-- ===== src/Bloom/Encoding.antt =====
-- A filter that is written to bytes is read back.
use graphite_tsdb.Prelude.{ℕ, ◌+◌, ◌*◌, ◌%◌, ◌^◌, ◌≤◌, ◌≡◌, refl, ap, ◌∙◌, arith}
use graphite_tsdb.Prelude.{some, List, [], ◌∷◌, ◌++◌, append_assoc}
use graphite_tsdb.Prelude.{
  length, length-append, slice, drop, take-append, drop-append, slice-append, All,
}
use graphite_tsdb.Prelude.Bytes.{
  IsU64, to_be_bytes, from_be_bytes, length-to_be_bytes, from_be_bytes-to_be_bytes,
}
use native.Mathlib.Nat.{mod-eq_of_lt}
use graphite_tsdb.Bloom.{
  BloomFilter, IsBloom, words_to_bytes, to_bytes, read_words, from_bytes, from_encoded,
}

length-words_to_bytes : (ws : List ℕ) → length (words_to_bytes ws) ≡ length ws * 8
unfolding words_to_bytes
length-words_to_bytes [] = refl
length-words_to_bytes (w ∷ ws) =
    length-append (to_be_bytes 8 w) (words_to_bytes ws)
    ∙ omega (arith, length-to_be_bytes 8 w, length-words_to_bytes ws)

-- The words from `i` on, where the bytes before them take `8 * i` places.
read_words-words_to_bytes :
    (ws pre : List ℕ) (i : ℕ)
    → length pre ≡ i * 8
    → All IsU64 ws
    → read_words (pre ++ words_to_bytes ws) (length ws) i ≡ ws
unfolding read_words words_to_bytes
read_words-words_to_bytes [] pre i hp h = refl
read_words-words_to_bytes (w ∷ ws) pre i hp h =
    let bs = to_be_bytes 8 w in
    let rest = words_to_bytes ws in
    let room : i * 8 + 8 ≤ length (pre ++ (bs ++ rest)) =
      omega
        (arith, length-append pre (bs ++ rest), length-append bs rest, length-to_be_bytes 8 w) in
    let first : from_be_bytes (slice (i * 8) (i * 8 + 8) (pre ++ (bs ++ rest))) ≡ w =
      ap from_be_bytes (slice-append 8 (i * 8) pre bs rest hp (length-to_be_bytes 8 w))
      ∙ from_be_bytes-to_be_bytes 8 w h.0 in
    let later : read_words (pre ++ (bs ++ rest)) (length ws) (i + 1) ≡ ws =
      rw (← append_assoc pre bs rest) (
        read_words-words_to_bytes ws (pre ++ bs) (i + 1)
          (omega (arith, length-append pre bs, length-to_be_bytes 8 w)) h.1) in
    ground (arith, room, first, later)

from_encoded_fields :
    (xs ys ws : List ℕ)
    → length xs ≡ 4
    → length ys ≡ 4
    → 4 ≤ length ws
    → from_encoded (xs ++ (ys ++ ws)) ≡ some (from_bytes ws (from_be_bytes xs) (from_be_bytes ys))
unfolding from_encoded
from_encoded_fields xs ys ws hx hy hw =
    let whole : drop 8 (xs ++ (ys ++ ws)) ≡ ws =
      rw (← append_assoc xs ys ws)
        (drop-append 8 (xs ++ ys) ws (omega (arith, length-append xs ys))) in
    rw
      (
        whole,
        take-append 4 xs (ys ++ ws) hx,
        drop-append 4 xs (ys ++ ws) hx,
        take-append 4 ys ws hy,
      )
      (ground (arith, length-append xs (ys ++ ws), length-append ys ws))

-- `from_encoded` reads back every well-formed filter from the bytes that `to_bytes` writes.
pub from_encoded-to_bytes : (f : BloomFilter) → IsBloom f → from_encoded (to_bytes f) ≡ some f
unfolding to_bytes from_bytes
from_encoded-to_bytes f v =
    from_encoded_fields (to_be_bytes 4 (f.num_bits % 2 ^ 32)) (to_be_bytes 4 f.num_hashes)
      (words_to_bytes f.bits) (length-to_be_bytes 4 _) (length-to_be_bytes 4 _)
      (omega (arith, length-words_to_bytes f.bits, v.words, v.has_bits))
    ∙ rw
        (
          mod-eq_of_lt v.bits_range,
          from_be_bytes-to_be_bytes 4 f.num_bits v.bits_range,
          from_be_bytes-to_be_bytes 4 f.num_hashes v.hashes_range,
          ← v.words,
          read_words-words_to_bytes f.bits [] 0 refl v.word_range,
        )
        refl
