-- ===== src/Compression/Rle.antt =====
-- graphite-core/src/compression/rle_lz4.rs: run-length coding of the volume column, and the
-- wrapper that compresses it by LZ4 or ZSTD. The two compressors are external; their functions
-- are parameters, an error of theirs is `none`.
pub mod Runs
pub mod Levels
mod Examples
use graphite_tsdb.Prelude.{
  ℕ, zero, suc, ◌+◌, ◌*◌, ◌%◌, ◌^◌, ◌≡◌, Bool, true, false, Option, none, some, ◌||◌,
}
use graphite_tsdb.Prelude.{
  List, [], ◌∷◌, ◌++◌, ltb, leb, ◌==◌, if◌then◌else◌, length, slice, drop, replicate,
}
use graphite_tsdb.Prelude.Bytes.{to_be_bytes, from_be_bytes}

abbrev pub code_lz4 : ℕ
code_lz4 = 0

abbrev pub code_zstd : ℕ
code_zstd = 1

-- How often `val` is repeated at the front: the inner loop of `rle_encode`, less its first round.
unfoldable pub run_length : ℕ → List ℕ → ℕ
run_length val [] = 0
run_length val (v ∷ vs) = let more = run_length val vs in if v == val then suc more else 0

-- The outer loop of `rle_encode` on the volumes from `i` on, with fuel.
unfoldable pub rle_encode_loop : ℕ → List ℕ → List ℕ
rle_encode_loop zero vs = []
rle_encode_loop (suc fuel) [] = []
rle_encode_loop (suc fuel) (val ∷ rest) =
    let repeats = run_length val rest in
    to_be_bytes 4 ((repeats + 1) % 2 ^ 32)
    ++ (to_be_bytes 8 val ++ rle_encode_loop fuel (drop repeats rest))

-- Each round takes a volume at least, so as many rounds as there are volumes are enough.
unfoldable pub rle_encode : List ℕ → List ℕ
unfolding rle_encode_loop run_length
rle_encode volumes =
    to_be_bytes 4 (length volumes % 2 ^ 32) ++ rle_encode_loop (length volumes) volumes

-- The loop of `rle_decode`; `rest` is the input from `offset` on.
rle_decode_loop : ℕ → List ℕ → List ℕ → ℕ → List ℕ
rle_decode_loop zero rest result total = result
rle_decode_loop (suc fuel) rest result total =
    let run_len = from_be_bytes (slice 0 4 rest) in
    let val = from_be_bytes (slice 4 12 rest) in
    let more = rle_decode_loop fuel (drop 12 rest) (result ++ replicate run_len val) total in
    if (length rest == 0) || leb total (length result)
    then result
    else if ltb (length rest) 12
    then result
    else more

-- Each round takes 12 bytes, so as many rounds as there are bytes are enough.
pub rle_decode : List ℕ → List ℕ
unfolding rle_decode_loop
rle_decode rle =
    if ltb (length rle) 4
    then []
    else rle_decode_loop (length rle) (drop 4 rle) [] (from_be_bytes (slice 0 4 rle))

-- The functions of `lz4_flex` and `zstd` that the wrapper calls.
pub record Compressors : Type 0 where
  pub lz4_compress : List ℕ → List ℕ
  pub lz4_decompress : List ℕ → Option (List ℕ)
  pub zstd_encode : List ℕ → Option (List ℕ)
  pub zstd_decode : List ℕ → Option (List ℕ)

-- `unwrap_or_default()` on bytes
abbrev pub or_empty : Option (List ℕ) → List ℕ
or_empty none = []
or_empty (some bytes) = bytes

module _ (c : Compressors) where
  open c use {lz4_compress, lz4_decompress, zstd_encode, zstd_decode}

  unfoldable pub compress_zstd : List ℕ → List ℕ
  compress_zstd rle = elim (zstd_encode rle) [ some bytes ↦ bytes | none ↦ lz4_compress rle ]

  unfoldable pub encode_for_level : List ℕ → ℕ → List ℕ
  unfolding compress_zstd
  encode_for_level [] level = 0 ∷ 0 ∷ 0 ∷ 0 ∷ []
  encode_for_level (v ∷ vs) level =
      let rle = rle_encode (v ∷ vs) in
      if leb 1 level then code_zstd ∷ compress_zstd rle else code_lz4 ∷ lz4_compress rle

  pub encode : List ℕ → List ℕ
  unfolding encode_for_level
  encode volumes = encode_for_level volumes 0

  pub decode : List ℕ → List ℕ
  decode [] = []
  decode (code ∷ payload) = rle_decode (
      if code == code_lz4
      then or_empty (lz4_decompress payload)
      else if code == code_zstd
      then or_empty (zstd_decode payload)
      else or_empty (lz4_decompress (code ∷ payload)))
