-- ===== src/Prelude/Bits.antt =====
-- Laws of `|`, `&` and `^` at every width, from the digit recursions that the native operations
-- stand for.
use Prim.Native.Nat.{
  ℕ, zero, suc, ◌+◌, ◌-◌, ◌*◌, ◌/◌, ◌%◌, ◌^◌, ◌≤◌, ◌<◌, min, max, bit_and, bit_or, bit_xor, digits,
  differ, bit_and-bitwise, bit_or-bitwise, bit_xor-bitwise,
}
use mathlib.Core.Path.{◌≡◌, refl, sym, ap, ◌∙◌}
use native.Mathlib.Omega.{arith}
use native.Mathlib.Nat.{pow-suc, one-le-pow}

-- A digit recursion with `z` for an exhausted first number and `f` on two digits.
module _ (z : ℕ → ℕ) (f : ℕ → ℕ → ℕ) where
  -- The count of digits does not matter once it reaches the first number.
  digits_count : (a b : ℕ) (k l : ℕ) → a ≤ k → a ≤ l → digits z f k a b ≡ digits z f l a b
  digits_count zero b zero zero hk hl = refl
  digits_count zero b zero (suc l) hk hl = refl
  digits_count zero b (suc k) zero hk hl = refl
  digits_count zero b (suc k) (suc l) hk hl = refl
  digits_count (suc a) b zero l hk hl = absurd (omega arith)
  digits_count (suc a) b (suc k) zero hk hl = absurd (omega arith)
  digits_count (suc a) b (suc k) (suc l) hk hl =
      ap (λ (t : ℕ). t * 2 + f (suc a % 2) (b % 2))
        (digits_count (suc a / 2) (b / 2) k l (omega arith) (omega arith))

  -- The lowest digit and the rest, where the recursion's end agrees with it.
  digits_step :
      ((b : ℕ) → z b ≡ z (b / 2) * 2 + f 0 (b % 2))
      → (a b : ℕ) → digits z f a a b ≡ digits z f (a / 2) (a / 2) (b / 2) * 2 + f (a % 2) (b % 2)
  digits_step ends zero b = ends b
  digits_step ends (suc a) b =
      ap (λ (t : ℕ). t * 2 + f (suc a % 2) (b % 2))
        (digits_count (suc a / 2) (b / 2) a (suc a / 2) (omega arith) (omega arith))

bit_and_digit : (x y : ℕ) → bit_and x y ≡ bit_and (x / 2) (y / 2) * 2 + min (x % 2) (y % 2)
bit_and_digit x y =
    let step = digits_step (λ n. 0) min (λ n. omega arith) x y in
    omega (arith, step, bit_and-bitwise x y, bit_and-bitwise (x / 2) (y / 2))

bit_or_digit : (x y : ℕ) → bit_or x y ≡ bit_or (x / 2) (y / 2) * 2 + max (x % 2) (y % 2)
bit_or_digit x y =
    let step = digits_step (λ n. n) max (λ n. omega arith) x y in
    omega (arith, step, bit_or-bitwise x y, bit_or-bitwise (x / 2) (y / 2))

differ_sum : (x y : ℕ) → x < 2 → y < 2 → differ x y ≡ (x + y) % 2
differ_sum zero zero p q = refl
differ_sum zero (suc y) p q = omega arith
differ_sum (suc zero) zero p q = refl
differ_sum (suc zero) (suc zero) p q = refl
differ_sum (suc zero) (suc (suc y)) p q = absurd (omega arith)
differ_sum (suc (suc x)) y p q = absurd (omega arith)

differ_ends : (b : ℕ) → b ≡ b / 2 * 2 + differ 0 (b % 2)
differ_ends b = omega (arith, differ_sum 0 (b % 2) (omega arith) (omega arith))

bit_xor_digit : (x y : ℕ) → bit_xor x y ≡ bit_xor (x / 2) (y / 2) * 2 + (x % 2 + y % 2) % 2
bit_xor_digit x y =
    let step = digits_step (λ n. n) differ differ_ends x y in
    let digit = differ_sum (x % 2) (y % 2) (omega arith) (omega arith) in
    omega (arith, step, digit, bit_xor-bitwise x y, bit_xor-bitwise (x / 2) (y / 2))

zero-bit_or : (b : ℕ) → bit_or 0 b ≡ b
zero-bit_or b = bit_or-bitwise 0 b

zero-bit_xor : (b : ℕ) → bit_xor 0 b ≡ b
zero-bit_xor b = bit_xor-bitwise 0 b

-- The bit of weight `2 ^ k`.
abbrev pub nth_bit : ℕ → ℕ → ℕ
nth_bit zero a = a % 2
nth_bit (suc k) a = nth_bit k (a / 2)

pub nth_bit-lt : (k a : ℕ) → nth_bit k a < 2
nth_bit-lt zero a = omega arith
nth_bit-lt (suc k) a = nth_bit-lt k (a / 2)

pub nth_bit-bit_or : (k a b : ℕ) → nth_bit k (bit_or a b) ≡ max (nth_bit k a) (nth_bit k b)
nth_bit-bit_or zero a b = omega (arith, bit_or_digit a b)
nth_bit-bit_or (suc k) a b =
    ap (nth_bit k) {x = bit_or a b / 2} {y = bit_or (a / 2) (b / 2)}
      (omega (arith, bit_or_digit a b))
    ∙ nth_bit-bit_or k (a / 2) (b / 2)

nth_bit-zero : (k : ℕ) → nth_bit k 0 ≡ 0
nth_bit-zero zero = refl
nth_bit-zero (suc k) = nth_bit-zero k

pub nth_bit-pow : (k : ℕ) → nth_bit k (2 ^ k) ≡ 1
nth_bit-pow zero = refl
nth_bit-pow (suc k) =
    ap (nth_bit k) {x = 2 ^ suc k / 2} {y = 2 ^ k} (omega (arith, pow-suc 2 k)) ∙ nth_bit-pow k

-- A mask keeps no more than itself.
bit_and-le : (n x y : ℕ) → x < n → bit_and x y ≤ y
bit_and-le zero x y h = absurd (omega arith)
bit_and-le (suc n) zero y h = omega (arith, bit_and-bitwise 0 y)
bit_and-le (suc n) (suc x) y h =
    omega (arith, bit_and_digit (suc x) y, bit_and-le n (suc x / 2) (y / 2) (omega arith))

-- Testing one bit by a mask.
pub bit_and-pow : (k a : ℕ) → bit_and a (2 ^ k) ≡ nth_bit k a * 2 ^ k
bit_and-pow zero a =
    omega (arith, bit_and_digit a 1, bit_and-le (a / 2 + 1) (a / 2) 0 (omega arith))
bit_and-pow (suc k) a = omega (
  arith,
  bit_and_digit a (2 ^ suc k),
  pow-suc 2 k,
  bit_and-pow k (a / 2),
  ap (bit_and (a / 2)) {x = 2 ^ suc k / 2} {y = 2 ^ k} (omega (arith, pow-suc 2 k)),
  ap (λ (t : ℕ). nth_bit k (a / 2) * t) (pow-suc 2 k),
)

xor_cancel_fuel : (n a b : ℕ) → a + b ≤ n → bit_xor a (bit_xor b a) ≡ b
xor_cancel_fuel zero zero zero h = refl
xor_cancel_fuel zero zero (suc b) h = absurd (omega arith)
xor_cancel_fuel zero (suc a) b h = absurd (omega arith)
xor_cancel_fuel (suc n) zero zero h = refl
xor_cancel_fuel (suc n) zero (suc b) h = omega (
  arith,
  bit_xor_digit 0 (bit_xor (suc b) 0),
  bit_xor_digit (suc b) 0,
  xor_cancel_fuel n 0 (suc b / 2) (omega arith),
  ap (bit_xor 0) {x = bit_xor (suc b) 0 / 2} {y = bit_xor (suc b / 2) 0}
      (omega (arith, bit_xor_digit (suc b) 0)),
)
xor_cancel_fuel (suc n) (suc a) b h = omega (
  arith,
  bit_xor_digit (suc a) (bit_xor b (suc a)),
  bit_xor_digit b (suc a),
  xor_cancel_fuel n (suc a / 2) (b / 2) (omega arith),
  ap (bit_xor (suc a / 2)) {x = bit_xor b (suc a) / 2} {y = bit_xor (b / 2) (suc a / 2)}
      (omega (arith, bit_xor_digit b (suc a))),
)

-- `prev ^ (cur ^ prev)` is `cur`.
pub bit_xor_cancel : (a b : ℕ) → bit_xor a (bit_xor b a) ≡ b
bit_xor_cancel a b = xor_cancel_fuel (a + b) a b (omega arith)

pub bit_xor_zero : (a : ℕ) → bit_xor a 0 ≡ a
bit_xor_zero a = sym (zero-bit_xor (bit_xor a 0)) ∙ bit_xor_cancel 0 a

pub bit_xor-lt : (k a b : ℕ) → a < 2 ^ k → b < 2 ^ k → bit_xor a b < 2 ^ k
bit_xor-lt zero zero zero p q = omega (arith, zero-bit_xor 0)
bit_xor-lt zero zero (suc b) p q = absurd (omega arith)
bit_xor-lt zero (suc a) b p q = absurd (omega arith)
bit_xor-lt (suc k) a b p q = omega (
  arith,
  bit_xor_digit a b,
  pow-suc 2 k,
  bit_xor-lt k (a / 2) (b / 2) (omega (arith, pow-suc 2 k)) (omega (arith, pow-suc 2 k)),
)

pub bit_or-lt : (k a b : ℕ) → a < 2 ^ k → b < 2 ^ k → bit_or a b < 2 ^ k
bit_or-lt zero zero zero p q = omega (arith, zero-bit_or 0)
bit_or-lt zero zero (suc b) p q = absurd (omega arith)
bit_or-lt zero (suc a) b p q = absurd (omega arith)
bit_or-lt (suc k) a b p q = omega (
  arith,
  bit_or_digit a b,
  pow-suc 2 k,
  bit_or-lt k (a / 2) (b / 2) (omega (arith, pow-suc 2 k)) (omega (arith, pow-suc 2 k)),
)

pub two-pow-add : (a b : ℕ) → 2 ^ (a + b) ≡ 2 ^ a * 2 ^ b
two-pow-add a zero = ap (λ (t : ℕ). 2 ^ t) {x = a + 0} {y = a} (omega arith) ∙ omega arith
two-pow-add a (suc b) =
    ap (λ (t : ℕ). 2 ^ t) {x = a + suc b} {y = suc (a + b)} (omega arith)
    ∙ omega (
      arith,
      pow-suc 2 (a + b),
      pow-suc 2 b,
      two-pow-add a b,
      ap (λ (t : ℕ). 2 ^ a * t) (pow-suc 2 b),
    )

bit_or_zero : (n x : ℕ) → x < n → bit_or x 0 ≡ x
bit_or_zero zero x h = absurd (omega arith)
bit_or_zero (suc n) zero h = refl
bit_or_zero (suc n) (suc x) h =
    omega (arith, bit_or_digit (suc x) 0, bit_or_zero n (suc x / 2) (omega arith))

-- `(a << k) | b`, where `b` fits the `k` bits that the shift left free.
pub bit_or_shift : (k a b : ℕ) → b < 2 ^ k → bit_or (a * 2 ^ k) b ≡ a * 2 ^ k + b
bit_or_shift zero a zero h =
    ap (λ (t : ℕ). bit_or t 0) {x = a * 2 ^ 0} {y = a} (omega arith)
    ∙ bit_or_zero (a + 1) a (omega arith)
    ∙ omega arith
bit_or_shift zero a (suc b) h = absurd (omega arith)
bit_or_shift (suc k) a b h =
    let twice : a * 2 ^ suc k ≡ 2 * (a * 2 ^ k) =
      omega (arith, ap (λ (t : ℕ). a * t) (pow-suc 2 k)) in
    let half : bit_or (a * 2 ^ suc k / 2) (b / 2) ≡ a * 2 ^ k + b / 2 =
      ap (λ (t : ℕ). bit_or t (b / 2)) {x = a * 2 ^ suc k / 2} {y = a * 2 ^ k}
        (omega (arith, twice))
      ∙ bit_or_shift k a (b / 2) (omega (arith, pow-suc 2 k)) in
    omega (arith, bit_or_digit (a * 2 ^ suc k) b, twice, half)

pub bit_or_comm : (a b : ℕ) → bit_or a b ≡ bit_or b a
bit_or_comm a b = comm_fuel (a + b) a b (omega arith)
  where
    comm_fuel : (n a b : ℕ) → a + b ≤ n → bit_or a b ≡ bit_or b a
    comm_fuel zero zero zero h = refl
    comm_fuel zero zero (suc b) h = absurd (omega arith)
    comm_fuel zero (suc a) b h = absurd (omega arith)
    comm_fuel (suc n) zero zero h = refl
    comm_fuel (suc n) zero (suc b) h = omega (
      arith,
      bit_or_digit 0 (suc b),
      bit_or_digit (suc b) 0,
      comm_fuel n 0 (suc b / 2) (omega arith),
    )
    comm_fuel (suc n) (suc a) b h = omega (
      arith,
      bit_or_digit (suc a) b,
      bit_or_digit b (suc a),
      comm_fuel n (suc a / 2) (b / 2) (omega arith),
    )

-- A mask of the `k` lowest bits keeps what is below `2 ^ k`.
pub bit_and_mask : (k n m : ℕ) → n < 2 ^ k → bit_and (n + 2 ^ k * m) (2 ^ k - 1) ≡ n
bit_and_mask zero n m h =
    let a = n + 2 ^ 0 * m in
    omega (arith, bit_and_digit a 0, bit_and-le (a / 2 + 1) (a / 2) 0 (omega arith))
bit_and_mask (suc k) n m h =
    let a = n + 2 ^ suc k * m in
    let twice : 2 ^ suc k * m ≡ 2 * (2 ^ k * m) =
      omega (arith, ap (λ (t : ℕ). t * m) (pow-suc 2 k)) in
    let half : a / 2 ≡ n / 2 + 2 ^ k * m = omega (arith, twice) in
    let mask : (2 ^ suc k - 1) / 2 ≡ 2 ^ k - 1 = omega (arith, pow-suc 2 k) in
    let more : bit_and (a / 2) ((2 ^ suc k - 1) / 2) ≡ n / 2 =
      rw (half, mask) (bit_and_mask k (n / 2) m (omega (arith, pow-suc 2 k))) in
    omega (
      arith,
      bit_and_digit a (2 ^ suc k - 1),
      more,
      twice,
      pow-suc 2 k,
      one-le-pow k 2 (omega arith),
    )
