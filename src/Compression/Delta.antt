-- ===== src/Compression/Delta.antt =====
-- graphite-core/src/compression/delta.rs: the timestamp column. Arithmetic of `i64`, `u64` and `u8`
-- wraps, and the amount of a shift is taken modulo 64, as in a release build; a slice out of bounds
-- is `none`.
pub mod Stream
pub mod Values
pub mod Packing
pub mod RoundTrip
mod Examples
use Prim.Native.Nat.{bit_and, bit_or}
use graphite_tsdb.Prelude.{
  ℕ, zero, suc, ◌+◌, ◌-◌, ◌*◌, ◌/◌, ◌%◌, ◌^◌, Option, none, some, List, [], ◌∷◌, ◌++◌, ltb, leb,
  ◌==◌, if◌then◌else◌, length, slice, drop, replicate,
}
use graphite_tsdb.Prelude.Int.{ℤ, ◌+ℤ◌, ◌-ℤ◌, ltb_ℤ}
use graphite_tsdb.Prelude.Bytes.{to_be_bytes, from_be_bytes, u64_of, i64_of}
use graphite_tsdb.Types.{TimestampNs}
use graphite_tsdb.Compression.Gorilla.{leading_zeros}

-- The result of an operation of `i64`, wrapped.
unfoldable pub wrap : ℤ → ℤ
wrap t = i64_of (u64_of t)

-- The deltas from the second one on.
unfoldable pub time_deltas : TimestampNs → List TimestampNs → List ℤ
time_deltas prev [] = []
time_deltas prev (t ∷ ts) = wrap (t -ℤ prev) ∷ time_deltas t ts

unfoldable pub min_delta : ℤ → List ℤ → ℤ
min_delta d [] = d
min_delta d (e ∷ ds) = min_delta (if ltb_ℤ e d then e else d) ds

unfoldable pub max_delta : ℤ → List ℤ → ℤ
max_delta d [] = d
max_delta d (e ∷ ds) = max_delta (if ltb_ℤ d e then e else d) ds

-- The bits of the range, which is an `i64` seen as a pattern of 64 bits.
unfoldable pub bits_needed : ℤ → ℤ → ℕ
bits_needed low high =
    let range = u64_of (high -ℤ low) in if range == 0 then 0 else 64 - leading_zeros 64 range

-- The inner loop of `encode`, with fuel: the bytes it pushes and the bits it keeps.
unfoldable pub flush : ℕ → ℕ → ℕ → List ℕ × ℕ × ℕ
flush zero bit_buffer bit_count = ([], bit_buffer, bit_count)
flush (suc fuel) bit_buffer bit_count =
    let (bytes, kept, left) = flush fuel (bit_buffer / 2 ^ 8) (bit_count - 8) in
    if leb 8 bit_count
    then (bit_buffer % 2 ^ 8 ∷ bytes, kept, left)
    else ([], bit_buffer, bit_count)

-- The loop of `encode` over the deltas, with the byte after it. Each round of the inner loop takes
-- 8 bits, so as many rounds as there are bits are enough.
unfoldable pub pack : ℕ → ℤ → List ℤ → ℕ → ℕ → List ℕ
unfolding flush
pack bits low [] bit_buffer bit_count = if ltb 0 bit_count then bit_buffer % 2 ^ 8 ∷ [] else []
pack bits low (d ∷ ds) bit_buffer bit_count =
    let normalized = u64_of (d -ℤ low) in
    let filled = bit_or bit_buffer (normalized * 2 ^ bit_count % 2 ^ 64) in
    let (bytes, bit_buffer', bit_count') = flush (bit_count + bits) filled (bit_count + bits) in
    bytes ++ pack bits low ds bit_buffer' bit_count'

unfoldable pub encode : List TimestampNs → List ℕ
unfolding time_deltas min_delta max_delta bits_needed pack
encode [] = 0 ∷ 0 ∷ 0 ∷ 0 ∷ []
encode (first ∷ rest) =
    let ds = time_deltas first rest in
    let low = min_delta first ds in
    let bits = bits_needed low (max_delta first ds) in
    to_be_bytes 4 ((length rest + 1) % 2 ^ 32)
    ++ (to_be_bytes 8 (u64_of first)
        ++ (bits ∷ (if bits == 0 then [] else pack bits low ds 0 0 ++ to_be_bytes 8 (u64_of low))))

-- The inner loop of `decode`: the bytes that are left, and the bits read.
unfoldable pub refill : ℕ → List ℕ → ℕ → ℕ → List ℕ × ℕ × ℕ
refill bits [] bit_buffer bit_count = ([], bit_buffer, bit_count)
refill bits (byte ∷ packed) bit_buffer bit_count =
    let more =
      refill bits packed (bit_or bit_buffer (byte * 2 ^ (bit_count % 64) % 2 ^ 64))
        ((bit_count + 8) % 2 ^ 8) in
    if ltb bit_count bits then more else (byte ∷ packed, bit_buffer, bit_count)

-- `n` rounds of the loop of `decode`, after the timestamp `prev`.
unfoldable pub unpack : ℕ → ℕ → ℤ → TimestampNs → List ℕ → ℕ → ℕ → List TimestampNs
unfolding refill
unpack zero bits low prev packed bit_buffer bit_count = []
unpack (suc n) bits low prev packed bit_buffer bit_count =
    let (packed', filled, bit_count') = refill bits packed bit_buffer bit_count in
    let mask = if bits == 64 then 2 ^ 64 - 1 else 2 ^ (bits % 64) - 1 in
    let normalized = i64_of (bit_and filled mask) in
    let delta = wrap (normalized +ℤ low) in
    let next = wrap (prev +ℤ delta) in
    next
    ∷ unpack n bits low next packed' (filled / 2 ^ (bits % 64))
        ((bit_count' + 2 ^ 8 - bits) % 2 ^ 8)

unfoldable pub decode : List ℕ → Option (List TimestampNs)
unfolding unpack
decode bytes =
    let count = from_be_bytes (slice 0 4 bytes) in
    let first = i64_of (from_be_bytes (slice 4 12 bytes)) in
    let bits = from_be_bytes (slice 12 13 bytes) in
    let offset = length bytes - 8 in
    let low = i64_of (from_be_bytes (drop offset bytes)) in
    if ltb (length bytes) 13
    then some []
    else if count == 0
    then some []
    else if count == 1
    then some (first ∷ [])
    else if bits == 0
    then some (replicate count first)
    else if ltb offset 13
    then none
    else some (first ∷ unpack (count - 1) bits low first (slice 13 offset bytes) 0 0)
