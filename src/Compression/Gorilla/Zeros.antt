-- ===== src/Compression/Gorilla/Zeros.antt =====
-- The counts of leading and trailing zeros, as bounds and as a factor.
use native.Mathlib.Nat.{
  pow-suc, pow-le-pow_right, mul-div_cancel, one-le-pow, lt_of_mul-lt-mul_right,
}
use graphite_tsdb.Prelude.{
  ℕ, zero, suc, ◌+◌, ◌-◌, ◌*◌, ◌/◌, ◌%◌, ◌^◌, ◌≤◌, ◌<◌, ◌≡◌, ap, ◌∙◌, arith, inl, inr,
}
use graphite_tsdb.Prelude.{ltb, ◌==◌, Bool-cases, true}
use graphite_tsdb.Prelude.Bits.{two-pow-add}
use graphite_tsdb.Prelude.{dec_lt}
use graphite_tsdb.Compression.Gorilla.{leading_zeros, trailing_zeros}

pub leading_zeros-bound :
    (w x : ℕ) → 0 < x → x < 2 ^ w → (leading_zeros w x < w) × (x < 2 ^ (w - leading_zeros w x))
unfolding leading_zeros
leading_zeros-bound zero x p h = absurd (omega arith)
leading_zeros-bound (suc w) x p h = elim (Bool-cases (ltb x (2 ^ w))) [
  | inl small ↦
      let (a, b) = leading_zeros-bound w x p (ground arith) in
      let e : suc w - suc (leading_zeros w x) ≡ w - leading_zeros w x = omega arith in
      rw (small, e) (omega (arith, a), b)
  | inr large ↦ let e : suc w - 0 ≡ suc w = omega arith in rw (large, e) (omega arith, h)
]

trailing_zeros-factor : (w x : ℕ) → (q : ℕ) × (x ≡ q * 2 ^ trailing_zeros w x)
unfolding trailing_zeros
trailing_zeros-factor zero x = (x, omega arith)
trailing_zeros-factor (suc w) x = elim (Bool-cases ((x % 2) == 0)) [
  | inl even ↦
      let (q, e) = trailing_zeros-factor w (x / 2) in
      (
        q,
        rw even (
            omega (
              arith,
              e,
              ap (λ (t : ℕ). q * t) (pow-suc 2 (trailing_zeros w (x / 2))),
              evenness x even,
            )),
      )
  | inr odd ↦ (x, rw odd (omega arith))
]
  where
    evenness : (y : ℕ) → ((y % 2) == 0) ≡ true → y % 2 ≡ 0
    evenness y h = ground arith

-- What is left of a non-zero word without its trailing zeros: it fits the bits between the two
-- runs of zeros, and the shift back restores the word.
pub record Significant (x q : ℕ) : Type 0 where
  pub shifted : x / 2 ^ trailing_zeros 64 x ≡ q
  pub restored : x ≡ q * 2 ^ trailing_zeros 64 x
  pub room : leading_zeros 64 x + trailing_zeros 64 x < 64
  pub fits : q < 2 ^ (64 - leading_zeros 64 x - trailing_zeros 64 x)

zeros_apart : (l t x q : ℕ) → 0 < x → x ≡ q * 2 ^ t → x < 2 ^ (64 - l) → l < 64 → l + t < 64
zeros_apart l t x zero p e b h = absurd (omega arith)
zeros_apart l t x (suc q) p e b h = elim (dec_lt (l + t) 64) [
  | yes k ↦ k
  | no k ↦
      let room : 64 - l ≤ t = omega arith in
      let wide : 2 ^ (64 - l) ≤ 2 ^ t = pow-le-pow_right (omega arith) room in
      absurd (omega (arith, e, b, wide))
]

pub significant : (x : ℕ) → 0 < x → x < 2 ^ 64 → (q : ℕ) × Significant x q
significant x p h =
    let l = leading_zeros 64 x in
    let t = trailing_zeros 64 x in
    let (lt, bound) = leading_zeros-bound 64 x p h in
    let (q, e) = trailing_zeros-factor 64 x in
    let pos_t : 1 ≤ 2 ^ t = one-le-pow t 2 (omega arith) in
    let room : l + t < 64 = zeros_apart l t x q p e bound lt in
    let split : 2 ^ (64 - l) ≡ 2 ^ (64 - l - t) * 2 ^ t =
      ap (λ (k : ℕ). 2 ^ k) {x = 64 - l} {y = 64 - l - t + t} (omega arith)
      ∙ two-pow-add (64 - l - t) t in
    (
      q,
      record {
        shifted = ap (λ (n : ℕ). n / 2 ^ t) e ∙ mul-div_cancel q pos_t;
        restored = e;
        room = room;
        fits = lt_of_mul-lt-mul_right (2 ^ t) (omega (arith, e, split, bound));
      },
    )
