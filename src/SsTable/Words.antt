-- ===== src/SsTable/Words.antt =====
-- Numbers of eight bytes in a row, as the footer of an SSTable has them.
use graphite_tsdb.Prelude.{
  ℕ, zero, suc, ◌+◌, ◌-◌, ◌*◌, ◌<◌, ◌≡◌, refl, ap, ◌∙◌, arith, List, [], ◌∷◌, ◌++◌, length,
  length-append, slice, take, drop, take-append, get_or, All,
}
use graphite_tsdb.Prelude.Bytes.{
  IsU64, to_be_bytes, from_be_bytes, length-to_be_bytes, from_be_bytes-to_be_bytes,
}

unfoldable pub words : List ℕ → List ℕ
words [] = []
words (x ∷ xs) = to_be_bytes 8 x ++ words xs

pub length-words : (xs : List ℕ) → length (words xs) ≡ 8 * length xs
unfolding words
length-words [] = refl
length-words (x ∷ xs) =
    omega
      (arith, length-append (to_be_bytes 8 x) (words xs), length-to_be_bytes 8 x, length-words xs)

pub drop-skip :
    {A : Type 0} (n a : ℕ) (xs ys : List A) → length xs ≡ n → drop (n + a) (xs ++ ys) ≡ drop a ys
drop-skip zero a [] ys h = ap (λ (t : ℕ). drop t ys) {x = 0 + a} {y = a} (omega arith)
drop-skip zero a (x ∷ xs) ys h = absurd (omega arith)
drop-skip (suc n) a [] ys h = absurd (omega arith)
drop-skip (suc n) a (x ∷ xs) ys h =
    ap (λ (t : ℕ). drop t (x ∷ (xs ++ ys))) {x = suc n + a} {y = suc (n + a)} (omega arith)
    ∙ drop-skip n a xs ys (omega arith)

take-word :
    (k : ℕ) (xs : List ℕ)
    → k < length xs
    → All IsU64 xs
    → from_be_bytes (take 8 (drop (8 * k) (words xs))) ≡ get_or xs k 0
unfolding words
take-word k [] h r = absurd (omega arith)
take-word zero (x ∷ xs) h (r, rs) =
    ap from_be_bytes (take-append 8 (to_be_bytes 8 x) (words xs) (length-to_be_bytes 8 x))
    ∙ from_be_bytes-to_be_bytes 8 x r
take-word (suc k) (x ∷ xs) h (r, rs) =
    ap (λ (t : ℕ). from_be_bytes (take 8 (drop t (to_be_bytes 8 x ++ words xs)))) {x = 8 * suc k}
      {y = 8 + 8 * k} (omega arith)
    ∙ ap (λ (t : List ℕ). from_be_bytes (take 8 t))
        (drop-skip 8 (8 * k) (to_be_bytes 8 x) (words xs) (length-to_be_bytes 8 x))
    ∙ take-word k xs (omega arith) rs

-- The `k`-th number is read back.
pub number_of_word :
    (k : ℕ) (xs : List ℕ)
    → k < length xs
    → All IsU64 xs
    → from_be_bytes (slice (8 * k) (8 * k + 8) (words xs)) ≡ get_or xs k 0
number_of_word k xs h r =
    ap (λ (n : ℕ). from_be_bytes (take n (drop (8 * k) (words xs)))) {x = 8 * k + 8 - 8 * k} {y = 8}
      (omega arith)
    ∙ take-word k xs h r
