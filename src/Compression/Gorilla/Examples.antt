-- ===== src/Compression/Gorilla/Examples.antt =====
-- Price columns on concrete bit patterns, and the theorems at concrete inputs.
use graphite_tsdb.Prelude.{ℕ, ◌+◌, ◌-◌, ◌/◌, ◌*◌, ◌≡◌, refl, List, [], ◌∷◌, arith}
use graphite_tsdb.Prelude.Bytes.{to_be_bytes}
use graphite_tsdb.Compression.Gorilla.{
  leading_zeros, trailing_zeros, encode_xor, encode_value, encode_loop, encode, decode, deltas,
  differences, compute_double_deltas, encode_double_delta, decode_double_delta,
}
use graphite_tsdb.Compression.Gorilla.RoundTrip.{decode-encode_prices}
use graphite_tsdb.Compression.Gorilla.DoubleDelta.{decode_double_delta-encode_double_delta}

-- 150.25, 150.25 and 151.25
abbrev prices : List ℕ
prices = 0x4062c80000000000 ∷ 0x4062c80000000000 ∷ 0x4062e80000000000 ∷ []

-- The repeated price takes one byte, the next one four.
encoded :
    encode (0 ∷ 0 ∷ 0x0000000000010000 ∷ [])
    ≡ 0 ∷ 0 ∷ 0 ∷ 3 ∷ 0 ∷ 0 ∷ 0 ∷ 0 ∷ 0 ∷ 0 ∷ 0 ∷ 0 ∷ 0 ∷ 1 ∷ 47 ∷ 16 ∷ 1 ∷ []
unfolding encode encode_loop encode_value encode_xor leading_zeros trailing_zeros to_be_bytes
encoded = refl

decode-encode_prices_example : decode (encode prices) ≡ prices
decode-encode_prices_example = decode-encode_prices prices (omega arith) (omega arith)

-- Exact operations on small whole numbers.
decode_double_delta_example :
    decode_double_delta ◌-◌ ◌+◌ (encode_double_delta ◌-◌ ◌+◌ (3 ∷ 7 ∷ 15 ∷ [])) ≡ 3 ∷ 7 ∷ 15 ∷ []
unfolding compute_double_deltas deltas differences
decode_double_delta_example =
    decode_double_delta-encode_double_delta ◌-◌ ◌+◌ (3 ∷ 7 ∷ 15 ∷ []) (refl, (refl, tt))
      (refl, (refl, tt)) (omega arith) (omega arith)

-- A subtraction that rounds to even numbers.
even_sub : ℕ → ℕ → ℕ
even_sub a b = (a - b) / 2 * 2
