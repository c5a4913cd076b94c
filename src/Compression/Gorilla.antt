-- ===== src/Compression/Gorilla.antt =====
-- graphite-core/src/compression/gorilla.rs: XOR coding of the price columns. An `f64` is its bit
-- pattern, so `to_bits` and `from_bits` are the identity; subtraction and addition of floats, which
-- only the double deltas use, are parameters.
pub mod Zeros
pub mod RoundTrip
pub mod DoubleDelta
mod Examples
use Prim.Native.Nat.{bit_or, bit_xor}
use graphite_tsdb.Prelude.{
  ℕ, zero, suc, ◌+◌, ◌-◌, ◌*◌, ◌/◌, ◌%◌, ◌^◌, ◌≡◌, Bool, Option, none, some,
}
use graphite_tsdb.Prelude.{
  List, [], ◌∷◌, ◌++◌, ltb, leb, ◌==◌, if◌then◌else◌, length, slice, take, drop,
}
use graphite_tsdb.Prelude.Bytes.{to_be_bytes, from_be_bytes}

-- `leading_zeros()` of an integer of `w` bits
unfoldable pub leading_zeros : ℕ → ℕ → ℕ
leading_zeros zero x = 0
leading_zeros (suc w) x = let more = leading_zeros w x in if ltb x (2 ^ w) then suc more else 0

-- `trailing_zeros()` of an integer of `w` bits
unfoldable pub trailing_zeros : ℕ → ℕ → ℕ
trailing_zeros zero x = 0
trailing_zeros (suc w) x =
    let more = trailing_zeros w (x / 2) in if (x % 2) == 0 then suc more else 0

-- The branch of `encode` for a value that differs from the one before.
unfoldable pub encode_xor : ℕ → List ℕ
encode_xor xor =
    let leading = leading_zeros 64 xor in
    let trailing = trailing_zeros 64 xor in
    let sig_bits = 64 - leading - trailing in
    let shifted = if ltb trailing 64 then xor / 2 ^ trailing else 0 in
    let nbytes = (sig_bits + 7) / 8 in
    if leb sig_bits 48
    then 1 ∷ leading ∷ trailing ∷ drop (8 - nbytes) (to_be_bytes 8 shifted)
    else 2 ∷ to_be_bytes 8 xor

unfoldable pub encode_value : ℕ → ℕ → List ℕ
encode_value prev cur = let xor = bit_xor cur prev in if xor == 0 then 0 ∷ [] else encode_xor xor

unfoldable pub encode_loop : ℕ → List ℕ → List ℕ
encode_loop prev [] = []
encode_loop prev (cur ∷ values) = encode_value prev cur ++ encode_loop cur values

unfoldable pub encode : List ℕ → List ℕ
encode [] = 0 ∷ 0 ∷ 0 ∷ 0 ∷ []
encode (first ∷ values) =
    to_be_bytes 4 ((length values + 1) % 2 ^ 32)
    ++ (to_be_bytes 8 first ++ encode_loop first values)

-- `shifted = (shifted << 8) | byte` over the bytes
read_shifted : ℕ → List ℕ → ℕ
read_shifted shifted [] = shifted
read_shifted shifted (byte ∷ bytes) = read_shifted (bit_or (shifted * 2 ^ 8 % 2 ^ 64) byte) bytes

-- The arms of `decode` on a control byte, the input from `offset` on. They give the value and the
-- input that is left; `none` is a `break`. `64 - leading - trailing` wraps at 32 bits.
decode_significant : ℕ → List ℕ → Option (ℕ × List ℕ)
decode_significant prev (leading ∷ trailing ∷ body) =
    let sig_bits = (64 + 2 ^ 32 - leading - trailing) % 2 ^ 32 in
    let nbytes = (sig_bits + 7) / 8 in
    let shifted = read_shifted 0 (take nbytes body) in
    let xor = if ltb trailing 64 then shifted * 2 ^ trailing % 2 ^ 64 else 0 in
    if ltb (length body) nbytes then none else some (bit_xor prev xor, drop nbytes body)
decode_significant prev _ = none

decode_whole : ℕ → List ℕ → Option (ℕ × List ℕ)
decode_whole prev rest =
    if ltb (length rest) 8
    then none
    else some (bit_xor prev (from_be_bytes (slice 0 8 rest)), drop 8 rest)

decode_value : ℕ → List ℕ → Option (ℕ × List ℕ)
decode_value prev [] = none
decode_value prev (control ∷ rest) =
    if control == 0
    then some (prev, rest)
    else if control == 1
    then decode_significant prev rest
    else if control == 2
    then decode_whole prev rest
    else none

decode_loop : ℕ → ℕ → List ℕ → List ℕ
decode_loop zero prev rest = []
decode_loop (suc n) prev rest = elim (decode_value prev rest) [
  | none ↦ []
  | some (cur, rest') ↦ cur ∷ decode_loop n cur rest'
]

pub decode : List ℕ → List ℕ
decode bytes =
    let count = from_be_bytes (slice 0 4 bytes) in
    let first = from_be_bytes (slice 4 12 bytes) in
    if ltb (length bytes) 12
    then []
    else if count == 0
    then []
    else first ∷ decode_loop (count - 1) first (drop 12 bytes)

module _ (sub add : ℕ → ℕ → ℕ) where
  -- `values[i] - values[i - 1]` from the second value on
  unfoldable pub differences : ℕ → List ℕ → List ℕ
  differences prev [] = []
  differences prev (v ∷ values) = sub v prev ∷ differences v values

  unfoldable pub deltas : List ℕ → List ℕ
  unfolding differences
  deltas [] = []
  deltas (v ∷ values) = v ∷ differences v values

  -- The two passes of `compute_double_deltas`.
  unfoldable pub compute_double_deltas : List ℕ → List ℕ
  unfolding deltas
  compute_double_deltas values = deltas (deltas values)

  running_sums : ℕ → List ℕ → List ℕ
  running_sums sum [] = []
  running_sums sum (d ∷ ds) = add sum d ∷ running_sums (add sum d) ds

  sums : List ℕ → List ℕ
  unfolding running_sums
  sums [] = []
  sums (d ∷ ds) = d ∷ running_sums d ds

  -- The two passes of `reconstruct_from_double_deltas`.
  pub reconstruct_from_double_deltas : List ℕ → List ℕ
  unfolding sums
  reconstruct_from_double_deltas double_deltas = sums (sums double_deltas)

  unfoldable pub encode_double_delta : List ℕ → List ℕ
  encode_double_delta values = encode (compute_double_deltas values)

  pub decode_double_delta : List ℕ → List ℕ
  decode_double_delta bytes = reconstruct_from_double_deltas (decode bytes)
