-- ===== src/Prelude/Bytes.antt =====
-- Big-endian bytes: `to_be_bytes` and `from_be_bytes` of the unsigned integers, and the two's
-- complement pattern of an `i64`. A byte is a number below 256.
use Prim.Native.Nat.{ℕ, zero, suc, ◌+◌, ◌-◌, ◌*◌, ◌/◌, ◌%◌, ◌^◌, ◌≤◌, ◌<◌}
use mathlib.Core.Path.{◌≡◌, refl, ap, ◌∙◌}
use mathlib.Core.List.{List, [], ◌∷◌, ◌++◌}
use mathlib.Core.Bool.{Bool, true, false, ◌&&◌}
use mathlib.Core.Logic.{◌↔◌}
use native.Mathlib.Omega.{arith}
use native.Mathlib.Nat.{pow-suc}
use graphite_tsdb.Prelude.Tests.{ltb, ◌==◌, if◌then◌else◌}
use graphite_tsdb.Prelude.Lists.{length, length-append, drop}
use graphite_tsdb.Prelude.Slices.{slice, slice-append, drop_all, drop-append_le, All, All-append}
use graphite_tsdb.Prelude.Int.{ℤ, pos, negsuc, ◌≤ℤ◌}

abbrev pub IsByte : ℕ → Type 0
IsByte b = b < 256

abbrev pub IsU16 : ℕ → Type 0
IsU16 x = x < 2 ^ 16

abbrev pub IsU32 : ℕ → Type 0
IsU32 x = x < 2 ^ 32

abbrev pub IsU64 : ℕ → Type 0
IsU64 x = x < 2 ^ 64

-- `x.to_be_bytes()` of an integer of `w` bytes
unfoldable pub to_be_bytes : ℕ → ℕ → List ℕ
to_be_bytes zero x = []
to_be_bytes (suc w) x = to_be_bytes w (x / 256) ++ (x % 256 ∷ [])

unfoldable pub be_from : ℕ → List ℕ → ℕ
be_from acc [] = acc
be_from acc (b ∷ bs) = be_from (acc * 256 + b) bs

-- `uN::from_be_bytes(bs)`
unfoldable pub from_be_bytes : List ℕ → ℕ
unfolding be_from
from_be_bytes bs = be_from 0 bs

be_from-append :
    (acc : ℕ) (xs : List ℕ) (b : ℕ) → be_from acc (xs ++ (b ∷ [])) ≡ be_from acc xs * 256 + b
unfolding be_from
be_from-append acc [] b = refl
be_from-append acc (x ∷ xs) b = be_from-append (acc * 256 + x) xs b

pub length-to_be_bytes : (w x : ℕ) → length (to_be_bytes w x) ≡ w
unfolding to_be_bytes
length-to_be_bytes zero x = refl
length-to_be_bytes (suc w) x =
    length-append (to_be_bytes w (x / 256)) (x % 256 ∷ [])
    ∙ omega (arith, length-to_be_bytes w (x / 256))

pub to_be_bytes-IsByte : (w x : ℕ) → All IsByte (to_be_bytes w x)
unfolding to_be_bytes
to_be_bytes-IsByte zero x = tt
to_be_bytes-IsByte (suc w) x =
    All-append IsByte (to_be_bytes w (x / 256)) (x % 256 ∷ []) (to_be_bytes-IsByte w (x / 256))
      (omega arith)

pub from_be_bytes-to_be_bytes : (w x : ℕ) → x < 256 ^ w → from_be_bytes (to_be_bytes w x) ≡ x
unfolding from_be_bytes to_be_bytes
from_be_bytes-to_be_bytes zero x h = omega arith
from_be_bytes-to_be_bytes (suc w) x h =
    be_from-append 0 (to_be_bytes w (x / 256)) (x % 256)
    ∙ omega (arith, from_be_bytes-to_be_bytes w (x / 256) (omega (arith, pow-suc 256 w)))

-- A number of `w` bytes between two known parts is read back.
pub number_section :
    (before rest : List ℕ) (w x a b : ℕ)
    → length before ≡ a
    → b ≡ a + w
    → x < 256 ^ w
    → from_be_bytes (slice a b (before ++ (to_be_bytes w x ++ rest))) ≡ x
number_section before rest w x a b h e k =
    ap (λ (t : ℕ). from_be_bytes (slice a t (before ++ (to_be_bytes w x ++ rest)))) e
    ∙ ap from_be_bytes (slice-append w a before (to_be_bytes w x) rest h (length-to_be_bytes w x))
    ∙ from_be_bytes-to_be_bytes w x k

-- The low bytes of a wide integer are the bytes of the narrow one.
pub drop-to_be_bytes : (a w v x : ℕ) → v ≡ a + w → drop a (to_be_bytes v x) ≡ to_be_bytes w x
unfolding to_be_bytes
drop-to_be_bytes a zero v x h =
    drop_all a (to_be_bytes v x) (length-to_be_bytes v x ∙ omega (arith, h))
drop-to_be_bytes a (suc w) zero x h = absurd (omega arith)
drop-to_be_bytes a (suc w) (suc v) x h =
    drop-append_le a (to_be_bytes v (x / 256)) (x % 256 ∷ [])
      (omega (arith, length-to_be_bytes v (x / 256)))
    ∙ ap (λ (t : List ℕ). t ++ (x % 256 ∷ [])) (drop-to_be_bytes a w v (x / 256) (omega arith))

pub be_from-ge : (acc : ℕ) (bs : List ℕ) → acc ≤ be_from acc bs
unfolding be_from
be_from-ge acc [] = omega arith
be_from-ge acc (b ∷ bs) = omega (arith, be_from-ge (acc * 256 + b) bs)

-- `t as u64` and `u as i64`
unfoldable pub u64_of : ℤ → ℕ
u64_of (pos n) = n % 2 ^ 64
u64_of (negsuc n) = 2 ^ 64 - 1 - n % 2 ^ 64

unfoldable pub i64_of : ℕ → ℤ
i64_of u = if ltb u (2 ^ 63) then pos u else negsuc (2 ^ 64 - 1 - u)

abbrev pub IsI64 : ℤ → Type 0
IsI64 t = (negsuc (2 ^ 63 - 1) ≤ℤ t) × (t ≤ℤ pos (2 ^ 63 - 1))

pub u64_of-lt : (t : ℤ) → u64_of t < 2 ^ 64
unfolding u64_of
u64_of-lt (pos n) = omega arith
u64_of-lt (negsuc n) = omega arith

pub i64_of-u64_of : (t : ℤ) → IsI64 t → i64_of (u64_of t) ≡ t
unfolding u64_of i64_of
i64_of-u64_of (pos n) h = ground arith
i64_of-u64_of (negsuc n) h = ground arith

-- Equality of byte strings, as `==` decides it.
unfoldable pub bytes_eq : List ℕ → List ℕ → Bool
bytes_eq [] [] = true
bytes_eq [] (y ∷ ys) = false
bytes_eq (x ∷ xs) [] = false
bytes_eq (x ∷ xs) (y ∷ ys) = (x == y) && bytes_eq xs ys

pub bytes_eq_refl : (xs : List ℕ) → bytes_eq xs xs ≡ true
unfolding bytes_eq
bytes_eq_refl [] = refl
bytes_eq_refl (x ∷ xs) = ground (arith, bytes_eq_refl xs)

bytes_eq→eq : (xs ys : List ℕ) → bytes_eq xs ys ≡ true → xs ≡ ys
unfolding bytes_eq
bytes_eq→eq [] [] h = refl
bytes_eq→eq [] (y ∷ ys) h = cc
bytes_eq→eq (x ∷ xs) [] h = cc
bytes_eq→eq (x ∷ xs) (y ∷ ys) h = ground (arith, bytes_eq→eq xs ys)

pub bytes_eq_iff : (xs ys : List ℕ) → (bytes_eq xs ys ≡ true) ↔ (xs ≡ ys)
bytes_eq_iff xs ys = (bytes_eq→eq xs ys, λ e. rw e (bytes_eq_refl ys))
