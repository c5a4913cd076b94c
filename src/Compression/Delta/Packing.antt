-- ===== src/Compression/Delta/Packing.antt =====
-- The packed deltas of a timestamp column: what `pack` writes, and what `unpack` reads from it.
use native.Mathlib.Nat.{
  lt_of_mul-lt-mul_left, mul-add-div, div-eq_of_lt, one-le-pow, pow-le-pow_right,
}
use Prim.Native.Nat.{bit_and}
use graphite_tsdb.Prelude.{
  ℕ, suc, ◌+◌, ◌-◌, ◌*◌, ◌/◌, ◌%◌, ◌^◌, ◌≤◌, ◌<◌, ◌≡◌, refl, sym, ap, ◌∙◌, arith, Bool-cases, false,
  inl, inr, List, [], ◌∷◌, ◌++◌, ltb, ◌==◌, length, length-append, map, All, All-append,
}
use graphite_tsdb.Prelude.Bits.{two-pow-add, bit_and_mask}
use graphite_tsdb.Prelude.Bytes.{IsByte, IsI64, u64_of, i64_of}
use graphite_tsdb.Prelude.Int.{ℤ, ◌+ℤ◌, ◌-ℤ◌, ◌≤ℤ◌}
use graphite_tsdb.Types.{TimestampNs}
use graphite_tsdb.Compression.Delta.{wrap, flush, pack, refill, unpack, time_deltas}
use graphite_tsdb.Compression.Delta.Stream.{stream, fill, flush_lem, refill_lem}
use graphite_tsdb.Compression.Delta.Values.{undo, shifted_back, time_deltas-IsI64}

-- The distances of the deltas to the least one.
abbrev pub distances : ℤ → List ℤ → List ℕ
distances low ds = map (λ (d : ℤ). u64_of (d -ℤ low)) ds

abbrev pub Fits : ℕ → ℤ → ℤ → Type 0
Fits bits low d = u64_of (d -ℤ low) < 2 ^ bits

stream-append :
    (xs ys : List ℕ) → stream 8 (xs ++ ys) ≡ stream 8 xs + 2 ^ (8 * length xs) * stream 8 ys
unfolding stream
stream-append [] ys = omega arith
stream-append (x ∷ xs) ys =
    let more : 2 ^ (8 * suc (length xs)) ≡ 256 * 2 ^ (8 * length xs) =
      ap (λ (t : ℕ). 2 ^ t) {x = 8 * suc (length xs)} {y = 8 + 8 * length xs} (omega arith)
      ∙ two-pow-add 8 (8 * length xs) in
    omega (arith, stream-append xs ys, ap (λ (t : ℕ). t * stream 8 ys) more)

-- The bytes of the packed deltas are the buffer and the distances after it, as one number.
pub record Packed (bits : ℕ) (low : ℤ) (ds : List ℤ) (buffer count : ℕ) (bytes : List ℕ)
    : Type 0 where
  pub value : stream 8 bytes ≡ buffer + 2 ^ count * stream bits (distances low ds)
  pub are_bytes : All IsByte bytes
  pub room : count + bits * length ds ≤ 8 * length bytes

pub pack_lem :
    (bits : ℕ) (low : ℤ) (ds : List ℤ) (buffer count : ℕ)
    → bits ≤ 57
    → count < 8
    → buffer < 2 ^ count
    → All (Fits bits low) ds
    → Packed bits low ds buffer count (pack bits low ds buffer count)
unfolding pack stream
pack_lem bits low [] buffer count width few bound fit = elim (Bool-cases (ltb 0 count)) [
  | inl some_bits ↦
      let eight : count ≤ 8 = omega arith in
      let small : 2 ^ count ≤ 2 ^ 8 = pow-le-pow_right (omega arith) eight in
      rw some_bits
        (record { value = omega (arith, small); are_bytes = (omega arith, tt); room = omega arith })
  | inr no_bits ↦
      let none : count ≡ 0 = ground arith in
      let one : 2 ^ count ≡ 1 = ap (λ (t : ℕ). 2 ^ t) none in
      rw no_bits (record { value = omega (arith, one); are_bytes = tt; room = omega arith })
]
pack_lem bits low (d ∷ ds) buffer count width few bound (fits, fit) =
    let n = u64_of (d -ℤ low) in
    let (filled, kept) = fill buffer n count bits bound fits (omega arith) in
    let value = buffer + 2 ^ count * n in
    let out = flush (count + bits) value (count + bits) in
    let flushed = flush_lem (count + bits) value (count + bits) (omega arith) kept in
    let rest = pack_lem bits low ds out.1 out.2 width flushed.short flushed.bound fit in
    let bytes = pack bits low ds out.1 out.2 in
    let s = stream bits (distances low ds) in
    rw filled (record {
      value = omega (
        arith,
        stream-append out.0 bytes,
        ap (λ (t : ℕ). 2 ^ (8 * length out.0) * t) rest.value,
        flushed.value s,
        ap (λ (t : ℕ). t * s) (two-pow-add count bits),
      );
      are_bytes = All-append IsByte out.0 bytes flushed.are_bytes rest.are_bytes;
      room = omega (arith, length-append out.0 bytes, rest.room, flushed.counted);
    })

-- A buffer whose low bits are a number below `2 ^ b`, the rest being the number `m`.
split_buffer :
    (b n m filled x : ℕ)
    → n < 2 ^ b
    → filled + 2 ^ b * x ≡ n + 2 ^ b * m
    → (m' : ℕ) × ((filled ≡ n + 2 ^ b * m') × (m ≡ m' + x))
split_buffer b n m filled x small e =
    let below : x < m + 1 = lt_of_mul-lt-mul_left (2 ^ b) (omega arith) in
    let is : m ≡ (m - x) + x = omega arith in
    (m - x, (omega (arith, ap (λ (t : ℕ). 2 ^ b * t) is), is))

shift_right : (b n m : ℕ) → n < 2 ^ b → (n + 2 ^ b * m) / 2 ^ b ≡ m
shift_right b n m small =
    ap (λ (t : ℕ). t / 2 ^ b) {x = n + 2 ^ b * m} {y = 2 ^ b * m + n} (omega arith)
    ∙ mul-add-div (one-le-pow b 2 (omega arith)) m n
    ∙ omega (arith, div-eq_of_lt small)

-- The deltas that `unpack` reads from such bytes give the timestamps.
pub unpack_lem :
    (bits : ℕ) (low : ℤ) (prev : TimestampNs) (ts : List TimestampNs) (packed : List ℕ)
    (buffer count : ℕ)
    → 0 < bits
    → bits ≤ 57
    → IsI64 low
    → IsI64 prev
    → All IsI64 ts
    → All (Fits bits low) (time_deltas prev ts)
    → All (λ (d : ℤ). low ≤ℤ d) (time_deltas prev ts)
    → count < 8
    → buffer < 2 ^ count
    → All IsByte packed
    → bits * length ts ≤ count + 8 * length packed
    → buffer + 2 ^ count * stream 8 packed ≡ stream bits (distances low (time_deltas prev ts))
    → unpack (length ts) bits low prev packed buffer count ≡ ts
unfolding unpack stream time_deltas
unpack_lem bits low prev [] packed buffer count some_bits width hl hp hs fit above few bound bytes
      there e =
    refl
unpack_lem bits low prev (t ∷ ts) packed buffer count some_bits width hl hp (ht, hs) (fits, fit)
      (least, above) few bound bytes there e =
    let d = wrap (t -ℤ prev) in
    let n = u64_of (d -ℤ low) in
    let out = refill bits packed buffer count in
    let r = refill_lem bits packed buffer count width (omega arith) bound bytes (omega arith) in
    let m = stream bits (distances low (time_deltas t ts)) in
    let k = out.2 - bits in
    let wide : 2 ^ out.2 ≡ 2 ^ bits * 2 ^ k =
      ap (λ (z : ℕ). 2 ^ z) {x = out.2} {y = bits + k} (omega (arith, r.enough))
      ∙ two-pow-add bits k in
    let s = stream 8 out.0 in
    let whole : out.1 + 2 ^ bits * (2 ^ k * s) ≡ n + 2 ^ bits * m =
      omega (arith, r.value, e, ap (λ (z : ℕ). z * s) wide) in
    let (m', (low_part, rest)) = split_buffer bits n m out.1 (2 ^ k * s) fits whole in
    let narrow : (bits == 64) ≡ false = ground arith in
    let amount : bits % 64 ≡ bits = omega arith in
    let masked : bit_and out.1 (2 ^ bits - 1) ≡ n =
      ap (λ (z : ℕ). bit_and z (2 ^ bits - 1)) low_part ∙ bit_and_mask bits n m' fits in
    let shifted : out.1 / 2 ^ bits ≡ m' =
      ap (λ (z : ℕ). z / 2 ^ bits) low_part ∙ shift_right bits n m' fits in
    let left : (out.2 + 2 ^ 8 - bits) % 2 ^ 8 ≡ k = omega (arith, r.enough, r.few) in
    let bounded : 2 ^ bits ≤ 2 ^ 57 = pow-le-pow_right (omega arith) width in
    let small : n < 2 ^ 57 = omega (arith, bounded) in
    let value : wrap (prev +ℤ wrap (i64_of n +ℤ low)) ≡ t =
      ap (λ (z : ℤ). wrap (prev +ℤ z))
        (shifted_back d low (time_deltas-IsI64 prev (t ∷ ts)).0 hl least small)
      ∙ undo t prev ht hp in
    let kept : m' < 2 ^ k =
      lt_of_mul-lt-mul_left (2 ^ bits) (omega (arith, low_part, r.bound, wide)) in
    let more : unpack (length ts) bits low t out.0 m' k ≡ ts =
      unpack_lem bits low t ts out.0 m' k some_bits width hl ht hs fit above (omega (arith, r.few))
        kept r.are_bytes (omega (arith, r.counted, r.enough)) (sym rest) in
    rw (narrow, amount, masked, shifted, left, value, more) refl
