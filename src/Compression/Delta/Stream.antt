-- ===== src/Compression/Delta/Stream.antt =====
-- The bits of the timestamp column as one number: what the byte loops of `encode` and `decode` write
-- and read, for widths of at most 57 bits, where no bit is shifted out of the buffer.
use native.Mathlib.Nat.{pow-le-pow_right, mul-le-mul_left}
use Prim.Native.Nat.{bit_or}
use graphite_tsdb.Prelude.{
  ℕ, zero, suc, ◌+◌, ◌-◌, ◌*◌, ◌/◌, ◌%◌, ◌^◌, ◌≤◌, ◌<◌, ◌≡◌, refl, ap, ◌∙◌, arith, true, false,
  List, [], ◌∷◌, ltb, leb, length, All, dec_lt,
}
use graphite_tsdb.Prelude.Bits.{two-pow-add, bit_or_shift, bit_or_comm}
use graphite_tsdb.Prelude.Bytes.{IsByte}
use graphite_tsdb.Compression.Delta.{flush, refill}

-- The numbers of `b` bits in a row, the first one lowest.
unfoldable pub stream : ℕ → List ℕ → ℕ
stream b [] = 0
stream b (n ∷ ns) = n + 2 ^ b * stream b ns

-- Filling the buffer above its bits adds the value there.
pub fill :
    (buffer n count width : ℕ)
    → buffer < 2 ^ count
    → n < 2 ^ width
    → count + width ≤ 64
    → (bit_or buffer (n * 2 ^ count % 2 ^ 64) ≡ buffer + 2 ^ count * n)
      × (buffer + 2 ^ count * n < 2 ^ (count + width))
fill buffer n count width hb hn room =
    let whole : 2 ^ count * n + 2 ^ count ≤ 2 ^ (count + width) = omega (
      arith,
      two-pow-add count width,
      mul-le-mul_left {m = n + 1} {n = 2 ^ width} (2 ^ count) (omega arith),
    ) in
    let fits : 2 ^ (count + width) ≤ 2 ^ 64 = pow-le-pow_right (omega arith) room in
    let comm : n * 2 ^ count ≡ 2 ^ count * n = omega arith in
    let kept : n * 2 ^ count % 2 ^ 64 ≡ n * 2 ^ count = omega (arith, whole, fits, comm) in
    (
      rw kept (
          bit_or_comm buffer (n * 2 ^ count)
          ∙ bit_or_shift count n buffer hb
          ∙ omega (arith, comm)),
      omega (arith, whole),
    )

-- What the inner loop of `encode` leaves: whole bytes, and fewer than 8 bits.
pub record Flushed (buffer count : ℕ) (bytes : List ℕ) (buffer' count' : ℕ) : Type 0 where
  pub short : count' < 8
  pub bound : buffer' < 2 ^ count'
  pub are_bytes : All IsByte bytes
  pub counted : count ≡ 8 * length bytes + count'
  pub value :
      (v : ℕ)
      → buffer + 2 ^ count * v
        ≡ stream 8 bytes + 2 ^ (8 * length bytes) * (buffer' + 2 ^ count' * v)

pub flush_lem :
    (fuel buffer count : ℕ)
    → count ≤ fuel
    → buffer < 2 ^ count
    → Flushed buffer count
        (flush fuel buffer count).0
        (flush fuel buffer count).1
        (flush fuel buffer count).2
unfolding flush stream
flush_lem zero buffer count enough bound = record {
  short = omega arith;
  bound = bound;
  are_bytes = tt;
  counted = omega arith;
  value = λ v. omega arith;
}
flush_lem (suc fuel) buffer count enough bound = elim (dec_lt count 8) [
  | yes few ↦
      let test : leb 8 count ≡ false = ground arith in
      rw test (record {
        short = omega arith;
        bound = bound;
        are_bytes = tt;
        counted = omega arith;
        value = λ v. omega arith;
      })
  | no many ↦
      let test : leb 8 count ≡ true = ground arith in
      let split : 2 ^ count ≡ 256 * 2 ^ (count - 8) =
        ap (λ (t : ℕ). 2 ^ t) {x = count} {y = 8 + (count - 8)} (omega arith)
        ∙ two-pow-add 8 (count - 8) in
      let rest = flush_lem fuel (buffer / 2 ^ 8) (count - 8) (omega arith) (omega (arith, split)) in
      let n = length (flush fuel (buffer / 2 ^ 8) (count - 8)).0 in
      let more : 2 ^ (8 * suc n) ≡ 256 * 2 ^ (8 * n) =
        ap (λ (t : ℕ). 2 ^ t) {x = 8 * suc n} {y = 8 + 8 * n} (omega arith)
        ∙ two-pow-add 8 (8 * n) in
      rw test (record {
        short = rest.short;
        bound = rest.bound;
        are_bytes = (omega arith, rest.are_bytes);
        counted = omega (arith, rest.counted);
        value = λ v. omega (
          arith,
          rest.value v,
          ap (λ (t : ℕ). t * v) split,
          ap
              (λ (t : ℕ).
                t
                * ((flush fuel (buffer / 2 ^ 8) (count - 8)).1
                    + 2 ^ (flush fuel (buffer / 2 ^ 8) (count - 8)).2 * v))
              more,
        );
      })
]

-- What the inner loop of `decode` leaves: at least `bits` bits in the buffer.
pub record Refilled (bits : ℕ) (packed : List ℕ) (buffer count : ℕ) (packed' : List ℕ)
    (buffer' count' : ℕ) : Type 0 where
  pub enough : bits ≤ count'
  pub few : count' < bits + 8
  pub bound : buffer' < 2 ^ count'
  pub are_bytes : All IsByte packed'
  pub counted : count' + 8 * length packed' ≡ count + 8 * length packed
  pub value : buffer' + 2 ^ count' * stream 8 packed' ≡ buffer + 2 ^ count * stream 8 packed

pub refill_lem :
    (bits : ℕ) (packed : List ℕ) (buffer count : ℕ)
    → bits ≤ 57
    → count < bits + 8
    → buffer < 2 ^ count
    → All IsByte packed
    → bits ≤ count + 8 * length packed
    → Refilled bits packed buffer count
        (refill bits packed buffer count).0
        (refill bits packed buffer count).1
        (refill bits packed buffer count).2
unfolding refill stream
refill_lem bits [] buffer count width few bound bytes there = record {
  enough = omega arith;
  few = few;
  bound = bound;
  are_bytes = tt;
  counted = refl;
  value = refl;
}
refill_lem bits (byte ∷ packed) buffer count width few bound (first, bytes) there =
    elim (dec_lt count bits) [
      | yes less ↦
          let test : ltb count bits ≡ true = ground arith in
          let (filled, kept) = fill buffer byte count 8 bound (omega arith) (omega arith) in
          let shift : count % 64 ≡ count = omega arith in
          let wide : (count + 8) % 2 ^ 8 ≡ count + 8 = omega arith in
          let rest =
            refill_lem bits packed (buffer + 2 ^ count * byte) (count + 8) width (omega arith) kept
              bytes (omega arith) in
          rw (test, shift, filled, wide)
            (record {
              enough = rest.enough;
              few = rest.few;
              bound = rest.bound;
              are_bytes = rest.are_bytes;
              counted = omega (arith, rest.counted);
              value =
                  omega
                    (arith, rest.value, ap (λ (t : ℕ). t * stream 8 packed) (two-pow-add count 8));
            })
      | no full ↦
          let test : ltb count bits ≡ false = ground arith in
          rw test (record {
            enough = omega arith;
            few = few;
            bound = bound;
            are_bytes = (first, bytes);
            counted = refl;
            value = refl;
          })
    ]
