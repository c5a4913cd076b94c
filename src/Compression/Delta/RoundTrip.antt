-- ===== src/Compression/Delta/RoundTrip.antt =====
-- A timestamp column is read back from its bytes.
use graphite_tsdb.Prelude.{
  ℕ, zero, suc, ◌+◌, ◌-◌, ◌*◌, ◌%◌, ◌^◌, ◌≤◌, ◌<◌, ◌≡◌, refl, sym, ap, ◌∙◌, arith, Bool, true,
  false, if◌then◌else◌, some, List, [], ◌∷◌, ◌++◌, append_assoc, ltb, ◌==◌, length, length-append,
  slice, slice-append, drop, drop-append, All, replicate, Bool-cases, inl, inr,
}
use graphite_tsdb.Prelude.Bytes.{
  IsI64, to_be_bytes, from_be_bytes, be_from, u64_of, i64_of, i64_of-u64_of, u64_of-lt,
  length-to_be_bytes, from_be_bytes-to_be_bytes, number_section,
}
use graphite_tsdb.Prelude.Int.{ℤ, pos, ◌+ℤ◌, ◌-ℤ◌, ◌≤ℤ◌, ltb_ℤ, int_laws}
use graphite_tsdb.Types.{TimestampNs}
use graphite_tsdb.Compression.Delta.{
  wrap, time_deltas, min_delta, max_delta, bits_needed, pack, unpack, encode, decode,
}
use graphite_tsdb.Compression.Delta.Values.{
  Between, deltas-Between, min_delta-IsI64, max_delta-IsI64, time_deltas-IsI64, range_fits,
  distance_mono,
}
use graphite_tsdb.Compression.Delta.Packing.{Fits, pack_lem, unpack_lem}

-- The least delta, the first timestamp among them.
unfoldable pub least : TimestampNs → List TimestampNs → ℤ
least first rest = min_delta first (time_deltas first rest)

-- The width of the column.
unfoldable pub width : TimestampNs → List TimestampNs → ℕ
unfolding least
width first rest = bits_needed (least first rest) (max_delta first (time_deltas first rest))

Fits-all :
    (low high : ℤ) (ds : List ℤ)
    → IsI64 low
    → IsI64 high
    → 0 < bits_needed low high
    → All (Between low high) ds
    → All (Fits (bits_needed low high) low) ds
Fits-all low high [] hl hh some_bits between = tt
Fits-all low high (d ∷ ds) hl hh some_bits ((above, below), between) = (
  omega (arith, distance_mono low d high hl hh above below, range_fits low high some_bits),
  Fits-all low high ds hl hh some_bits between,
)

above_all : (low high : ℤ) (ds : List ℤ) → All (Between low high) ds → All (λ (d : ℤ). low ≤ℤ d) ds
above_all low high [] between = tt
above_all low high (d ∷ ds) ((above, below), between) = (above, above_all low high ds between)

one_byte : (b : ℕ) → from_be_bytes (b ∷ []) ≡ b
unfolding from_be_bytes be_from
one_byte b = omega arith

-- Reading the parts of the format.
module _ (count : ℕ) (first low : ℤ) (bits : ℕ) (packed : List ℕ) where
  abbrev head : List ℕ
  head = to_be_bytes 4 count

  abbrev start : List ℕ
  start = to_be_bytes 8 (u64_of first)

  abbrev tail : List ℕ
  tail = to_be_bytes 8 (u64_of low)

  abbrev column : List ℕ
  column = head ++ (start ++ (bits ∷ (packed ++ tail)))

  decode_parts :
      1 < count
      → count < 2 ^ 32
      → IsI64 first
      → IsI64 low
      → 0 < bits
      → decode column ≡ some (first ∷ unpack (count - 1) bits low first packed 0 0)
  unfolding decode
  decode_parts many small hf hl some_bits =
      let h4 = length-to_be_bytes 4 count in
      let h8 = length-to_be_bytes 8 (u64_of first) in
      let l8 = length-to_be_bytes 8 (u64_of low) in
      let len : length column ≡ 21 + length packed = omega (
        arith,
        length-append head (start ++ (bits ∷ (packed ++ tail))),
        length-append start (bits ∷ (packed ++ tail)),
        length-append packed tail,
        h4,
        h8,
        l8,
      ) in
      let e_count : from_be_bytes (slice 0 4 column) ≡ count =
        number_section [] (start ++ (bits ∷ (packed ++ tail))) 4 count 0 4 refl refl small in
      let e_first : i64_of (from_be_bytes (slice 4 12 column)) ≡ first =
        ap i64_of (
          number_section head (bits ∷ (packed ++ tail)) 8 (u64_of first) 4 12 h4 refl
            (u64_of-lt first))
        ∙ i64_of-u64_of first hf in
      let front : length (head ++ start) ≡ 12 = omega (arith, length-append head start, h4, h8) in
      let to_bits : column ≡ (head ++ start) ++ ((bits ∷ []) ++ (packed ++ tail)) =
        sym (append_assoc head start (bits ∷ (packed ++ tail))) in
      let e_bits : slice 12 13 column ≡ bits ∷ [] =
        ap (slice 12 13) to_bits
        ∙ slice-append 1 12 (head ++ start) (bits ∷ []) (packed ++ tail) front refl in
      let front' : length ((head ++ start) ++ (bits ∷ [])) ≡ 13 =
        omega (arith, length-append (head ++ start) (bits ∷ []), front) in
      let to_packed : column ≡ ((head ++ start) ++ (bits ∷ [])) ++ (packed ++ tail) =
        to_bits ∙ sym (append_assoc (head ++ start) (bits ∷ []) (packed ++ tail)) in
      let off : length column - 8 ≡ 13 + length packed = omega (arith, len) in
      let e_packed : slice 13 (13 + length packed) column ≡ packed =
        ap (slice 13 (13 + length packed)) to_packed
        ∙ slice-append (length packed) 13 ((head ++ start) ++ (bits ∷ [])) packed tail front'
            refl in
      let to_tail : column ≡ (((head ++ start) ++ (bits ∷ [])) ++ packed) ++ tail =
        to_packed ∙ sym (append_assoc ((head ++ start) ++ (bits ∷ [])) packed tail) in
      let e_low : i64_of (from_be_bytes (drop (13 + length packed) column)) ≡ low =
        ap (λ (x : List ℕ). i64_of (from_be_bytes (drop (13 + length packed) x))) to_tail
        ∙ ap (λ (x : List ℕ). i64_of (from_be_bytes x))
            (drop-append (13 + length packed) (((head ++ start) ++ (bits ∷ [])) ++ packed) tail
              (omega (arith, length-append ((head ++ start) ++ (bits ∷ [])) packed, front')))
        ∙ ap i64_of (from_be_bytes-to_be_bytes 8 (u64_of low) (u64_of-lt low))
        ∙ i64_of-u64_of low hl in
      let c1 : ltb (length column) 13 ≡ false = ground (arith, len) in
      let c2 : (count == 0) ≡ false = ground arith in
      let c3 : (count == 1) ≡ false = ground arith in
      let c4 : (bits == 0) ≡ false = ground arith in
      let c5 : ltb (13 + length packed) 13 ≡ false = ground arith in
      let e_byte : from_be_bytes (bits ∷ []) ≡ bits = one_byte bits in
      rw (c1, e_count, c2, c3, e_bits, e_byte, c4, off, c5, e_first, e_packed, e_low) refl

-- A column without packed bits.
decode_flat :
    (count : ℕ) (first : ℤ)
    → 0 < count
    → count < 2 ^ 32
    → IsI64 first
    → decode (to_be_bytes 4 count ++ (to_be_bytes 8 (u64_of first) ++ (0 ∷ [])))
      ≡ some (replicate count first)
unfolding decode
decode_flat count first some_count small hf =
    let head = to_be_bytes 4 count in
    let start = to_be_bytes 8 (u64_of first) in
    let column = head ++ (start ++ (0 ∷ [])) in
    let h4 = length-to_be_bytes 4 count in
    let h8 = length-to_be_bytes 8 (u64_of first) in
    let len : length column ≡ 13 =
      omega (arith, length-append head (start ++ (0 ∷ [])), length-append start (0 ∷ []), h4, h8) in
    let e_count : from_be_bytes (slice 0 4 column) ≡ count =
      number_section [] (start ++ (0 ∷ [])) 4 count 0 4 refl refl small in
    let e_first : i64_of (from_be_bytes (slice 4 12 column)) ≡ first =
      ap i64_of (number_section head (0 ∷ []) 8 (u64_of first) 4 12 h4 refl (u64_of-lt first))
      ∙ i64_of-u64_of first hf in
    let front : length (head ++ start) ≡ 12 = omega (arith, length-append head start, h4, h8) in
    let e_bits : slice 12 13 column ≡ 0 ∷ [] =
      ap (slice 12 13) (sym (append_assoc head start (0 ∷ [])))
      ∙ slice-append 1 12 (head ++ start) (0 ∷ []) [] front refl in
    let c1 : ltb (length column) 13 ≡ false = ground (arith, len) in
    let c2 : (count == 0) ≡ false = ground arith in
    elim (Bool-cases (count == 1)) [
      | inl single ↦
          let one : count ≡ 1 = ground arith in
          rw (c1, e_count, c2, single, e_first) (ap (λ (k : ℕ). some (replicate k first)) (sym one))
      | inr several ↦ rw (c1, e_count, c2, several, e_bits, one_byte 0, e_first) refl
    ]

length-time_deltas :
    (prev : TimestampNs) (ts : List TimestampNs) → length (time_deltas prev ts) ≡ length ts
unfolding time_deltas
length-time_deltas prev [] = refl
length-time_deltas prev (t ∷ ts) = ap suc (length-time_deltas t ts)

u64_zero : u64_of (pos 0) ≡ 0
unfolding u64_of
u64_zero = refl

-- A single timestamp takes no bits.
longer :
    (first : TimestampNs) (rest : List TimestampNs) → 0 < width first rest → 1 < length rest + 1
unfolding width least time_deltas min_delta max_delta bits_needed
longer first [] some_bits =
    let none : first -ℤ first ≡ pos 0 = omega int_laws in
    absurd (omega (arith, (rw (none, u64_zero) at some_bits)))
longer first (t ∷ ts) some_bits = omega arith

-- Each timestamp is the one in front of it and `step` more.
abbrev pub Steps : ℤ → TimestampNs → List TimestampNs → Type 0
Steps step prev [] = Unit
Steps step prev (t ∷ ts) = (t ≡ prev +ℤ step) × Steps step t ts

step_delta : (step prev t : ℤ) → IsI64 step → t ≡ prev +ℤ step → wrap (t -ℤ prev) ≡ step
unfolding wrap
step_delta step prev t h at =
    let back : prev +ℤ step -ℤ prev ≡ step = omega int_laws in
    ap (λ x. i64_of (u64_of (x -ℤ prev))) at
    ∙ ap (λ x. i64_of (u64_of x)) back
    ∙ i64_of-u64_of step h

time_deltas-replicate :
    (step prev : ℤ) (ts : List TimestampNs)
    → IsI64 step
    → Steps step prev ts
    → time_deltas prev ts ≡ replicate (length ts) step
unfolding time_deltas
time_deltas-replicate step prev [] h steps = refl
time_deltas-replicate step prev (t ∷ ts) h steps =
    rw (step_delta step prev t h steps.0)
      (ap (λ ds. step ∷ ds) (time_deltas-replicate step t ts h steps.1))

if_same : (b : Bool) (d : ℤ) → (if b then d else d) ≡ d
if_same true d = refl
if_same false d = refl

min_delta-replicate : (n : ℕ) (d : ℤ) → min_delta d (replicate n d) ≡ d
unfolding min_delta
min_delta-replicate zero d = refl
min_delta-replicate (suc n) d =
    ap (λ x. min_delta x (replicate n d)) (if_same (ltb_ℤ d d) d) ∙ min_delta-replicate n d

max_delta-replicate : (n : ℕ) (d : ℤ) → max_delta d (replicate n d) ≡ d
unfolding max_delta
max_delta-replicate zero d = refl
max_delta-replicate (suc n) d =
    ap (λ x. max_delta x (replicate n d)) (if_same (ltb_ℤ d d) d) ∙ max_delta-replicate n d

-- When each timestamp is the one in front of it and as much more as the first one is, the deltas are
-- all equal with the first timestamp counted as one, no bits are written, and the first timestamp is
-- read back in the place of every other one.
pub decode_equal_deltas :
    (first : TimestampNs) (rest : List TimestampNs)
    → IsI64 first
    → length rest < 2 ^ 32 - 1
    → Steps first first rest
    → decode (encode (first ∷ rest)) ≡ some (replicate (length rest + 1) first)
unfolding encode width least bits_needed
decode_equal_deltas first rest hf few steps =
    let n : (length rest + 1) % 2 ^ 32 ≡ length rest + 1 = omega arith in
    let none : first -ℤ first ≡ pos 0 = omega int_laws in
    let no_bits : width first rest ≡ 0 =
      rw
        (
          time_deltas-replicate first first rest hf steps,
          min_delta-replicate (length rest) first,
          max_delta-replicate (length rest) first,
          none,
          u64_zero,
        )
        refl in
    rw (n, no_bits) (decode_flat (length rest + 1) first (omega arith) (omega arith) hf)

-- A timestamp column is read back, if there are fewer than 2 ^ 32 timestamps and they fit 64 bits,
-- and if the distances of the deltas, the first timestamp counted as one, to the least of them take
-- at least one bit and at most 57 bits.
pub decode-encode_timestamps :
    (first : TimestampNs) (rest : List TimestampNs)
    → IsI64 first
    → All IsI64 rest
    → length rest < 2 ^ 32 - 1
    → 0 < width first rest
    → width first rest ≤ 57
    → decode (encode (first ∷ rest)) ≡ some (first ∷ rest)
unfolding encode width least
decode-encode_timestamps first rest hf hs few some_bits narrow =
    let ds = time_deltas first rest in
    let low = min_delta first ds in
    let high = max_delta first ds in
    let bits = bits_needed low high in
    let hd = time_deltas-IsI64 first rest in
    let hl = min_delta-IsI64 first ds hf hd in
    let hh = max_delta-IsI64 first ds hf hd in
    let between = deltas-Between first first ds in
    let fit = Fits-all low high ds hl hh some_bits between in
    let packed = pack bits low ds 0 0 in
    let p = pack_lem bits low ds 0 0 narrow (omega arith) (omega arith) fit in
    let same : length ds ≡ length rest = length-time_deltas first rest in
    let n : (length rest + 1) % 2 ^ 32 ≡ length rest + 1 = omega arith in
    let nonempty : 1 < length rest + 1 = longer first rest some_bits in
    let wide : (bits == 0) ≡ false = ground arith in
    let one_less : length rest + 1 - 1 ≡ length rest = omega arith in
    let unpacked : unpack (length rest) bits low first packed 0 0 ≡ rest =
      unpack_lem bits low first rest packed 0 0 some_bits narrow hl hf hs fit
        (above_all low high ds between) (omega arith) (omega arith) p.are_bytes
        (omega (arith, p.room, ap (λ (t : ℕ). bits * t) same)) (omega (arith, p.value)) in
    rw (n, wide)
      (decode_parts (length rest + 1) first low bits packed nonempty (omega arith) hf hl some_bits
        ∙ rw (one_less, unpacked) refl)
