-- ===== src/Compression/Delta/Examples.antt =====
-- Timestamp columns on concrete timestamps, and the theorems at concrete inputs.
use graphite_tsdb.Prelude.{◌+◌, ◌≡◌, refl, arith, some, List, [], ◌∷◌, length, replicate}
use graphite_tsdb.Prelude.Int.{pos, ◌+ℤ◌, ◌-ℤ◌}
use graphite_tsdb.Prelude.Bytes.{u64_of, i64_of}
use graphite_tsdb.Types.{TimestampNs}
use graphite_tsdb.Compression.Gorilla.{leading_zeros}
use graphite_tsdb.Compression.Delta.{
  wrap, time_deltas, min_delta, max_delta, bits_needed, encode, decode,
}
use graphite_tsdb.Compression.Delta.RoundTrip.{
  least, width, decode-encode_timestamps, decode_equal_deltas,
}

abbrev later : List TimestampNs
later = pos 1010 ∷ pos 1025 ∷ []

ten_bits : width (pos 1000) later ≡ 10
unfolding width least time_deltas wrap min_delta max_delta bits_needed leading_zeros u64_of i64_of
    ◌-ℤ◌
ten_bits = refl

decode-encode_timestamps_example : decode (encode (pos 1000 ∷ later)) ≡ some (pos 1000 ∷ later)
decode-encode_timestamps_example =
    decode-encode_timestamps (pos 1000) later (omega arith, omega arith)
      ((omega arith, omega arith), ((omega arith, omega arith), tt)) (omega arith)
      (omega (arith, ten_bits)) (omega (arith, ten_bits))

decode_equal_deltas_example :
    decode (encode (pos 5 ∷ pos 10 ∷ pos 15 ∷ []))
    ≡ some (replicate (length (pos 10 ∷ pos 15 ∷ []) + 1) (pos 5))
unfolding ◌+ℤ◌
decode_equal_deltas_example =
    decode_equal_deltas (pos 5) (pos 10 ∷ pos 15 ∷ []) (omega arith, omega arith) (omega arith)
      (refl, (refl, tt))
