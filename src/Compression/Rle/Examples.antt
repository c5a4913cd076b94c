-- ===== src/Compression/Rle/Examples.antt =====
-- The volume column on concrete volumes, and the theorems at concrete inputs.
use graphite_tsdb.Prelude.{
  ℕ, zero, suc, ◌≡◌, refl, Option, none, some, List, [], ◌∷◌, arith, length,
}
use graphite_tsdb.Prelude.Bytes.{to_be_bytes}
use graphite_tsdb.Compression.Rle.{rle_encode, Compressors, encode_for_level, decode}
use graphite_tsdb.Compression.Rle.Levels.{AreCompressors, decode-encode_for_level}

abbrev volumes : List ℕ
volumes = 100 ∷ 100 ∷ 100 ∷ 200 ∷ 200 ∷ 300 ∷ []

three_runs : length (rle_encode volumes) ≡ 40
unfolding rle_encode to_be_bytes
three_runs = refl

-- Compressors that put a mark in front.
unmark : List ℕ → Option (List ℕ)
unmark [] = none
unmark (b ∷ bs) = keep b bs
  where
    keep : ℕ → List ℕ → Option (List ℕ)
    keep zero bs = none
    keep (suc n) bs = some bs

abbrev marking : Compressors
unfolding unmark
marking = record {
  lz4_compress = λ bytes. 1 ∷ bytes;
  lz4_decompress = unmark;
  zstd_encode = λ bytes. some (2 ∷ bytes);
  zstd_decode = unmark;
}

marking-AreCompressors : AreCompressors marking
unfolding unmark
marking-AreCompressors = record {
  lz4_inverse = λ bytes. refl;
  lz4_short = refl;
  zstd_inverse = λ bytes. (2 ∷ bytes, refl, refl);
}

decode-encode_for_level_example : decode marking (encode_for_level marking volumes 2) ≡ volumes
decode-encode_for_level_example =
    decode-encode_for_level marking marking-AreCompressors volumes 2 (omega arith) (omega arith)

-- A ZSTD that always fails.
abbrev no_zstd : Compressors
no_zstd = record {
  lz4_compress = λ bytes. 1 ∷ bytes;
  lz4_decompress = unmark;
  zstd_encode = λ bytes. none;
  zstd_decode = λ bytes. none;
}
