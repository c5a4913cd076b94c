-- ===== src/Compression/Rle/Levels.antt =====
-- The compressed volume column, for both compressors and when one fails.
use graphite_tsdb.Prelude.{ℕ, ◌^◌, ◌≤◌, ◌<◌, ◌≡◌, refl, arith, none, some, inl, inr}
use graphite_tsdb.Prelude.{List, [], ◌∷◌, leb, length, All, Bool-cases, true}
use graphite_tsdb.Prelude.Bytes.{IsU64}
use graphite_tsdb.Compression.Rle.{
  rle_encode, rle_decode, Compressors, compress_zstd, encode_for_level, decode,
}
use graphite_tsdb.Compression.Rle.Runs.{rle_decode-rle_encode}

-- What the compressors document: each reads back what it wrote, ZSTD does not fail on bytes in
-- memory, and LZ4 refuses a block that is too short for its size header.
pub record AreCompressors (c : Compressors) : Type 0 where
  pub lz4_inverse : (bytes : List ℕ) → c.lz4_decompress (c.lz4_compress bytes) ≡ some bytes
  pub lz4_short : c.lz4_decompress (0 ∷ 0 ∷ 0 ∷ []) ≡ none
  pub zstd_inverse :
      (bytes : List ℕ)
      → (out : List ℕ) × (c.zstd_encode bytes ≡ some out) × (c.zstd_decode out ≡ some bytes)

rle_decode_nothing : rle_decode [] ≡ []
unfolding rle_decode
rle_decode_nothing = refl

module _ (c : Compressors) (good : AreCompressors c) where
  -- With compressors that do what they document, a column of fewer than 2 ^ 32 64-bit volumes is
  -- read back from what was written for it at any level.
  pub decode-encode_for_level :
      (vs : List ℕ) (level : ℕ)
      → All IsU64 vs
      → length vs < 2 ^ 32
      → decode c (encode_for_level c vs level) ≡ vs
  unfolding decode encode_for_level
  decode-encode_for_level [] level h small = rw good.lz4_short rle_decode_nothing
  decode-encode_for_level (v ∷ vs) level h small = elim (Bool-cases (leb 1 level)) [
    | inl deep ↦
        let (out, e, d) = good.zstd_inverse (rle_encode (v ∷ vs)) in
        rw (deep, e, compress_zstd, d) (rle_decode-rle_encode (v ∷ vs) h small)
    | inr top ↦
        rw (top, good.lz4_inverse (rle_encode (v ∷ vs))) (rle_decode-rle_encode (v ∷ vs) h small)
  ]

-- Where ZSTD fails to encode, the column is written by LZ4 under the code of ZSTD: if ZSTD does
-- not read the LZ4 block either, a non-empty column of a level from 1 on is read back as empty.
pub decode_after_fallback :
    (c : Compressors) (v : ℕ) (vs : List ℕ) (level : ℕ)
    → 1 ≤ level
    → c.zstd_encode (rle_encode (v ∷ vs)) ≡ none
    → c.zstd_decode (c.lz4_compress (rle_encode (v ∷ vs))) ≡ none
    → decode c (encode_for_level c (v ∷ vs) level) ≡ []
unfolding decode encode_for_level
decode_after_fallback c v vs level h fails refuses =
    let deep : leb 1 level ≡ true = ground arith in
    rw (deep, fails, compress_zstd, refuses) rle_decode_nothing
