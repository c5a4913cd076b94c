-- ===== src/SkipList/Spec.antt =====
-- The abstract memtable: its ticks in the order of their keys, one for each key.
use graphite_tsdb.Prelude.{
  ◌≡◌, refl, sym, ap, ◌∙◌, true, false, Bool-cases, inl, inr, Option, none, some, List, [], ◌∷◌,
  All, if◌then◌else◌, if_elim, length, ℕ, zero, suc, ◌≤◌, arith, get_elem?,
}
use mathlib.Core.Path.{subst}
use mathlib.Core.Option.{some-injective}
use graphite_tsdb.Types.{Key, Tick, key_of}
use graphite_tsdb.SkipList.{key_lt, key_eq}
use graphite_tsdb.SkipList.Cells.{
  key_lt_trans, key_lt_total, key_lt_neq, key_neq_of_lt, key_eq_refl, key_eq→eq,
}

unfoldable pub put : Tick → List Tick → List Tick
put t [] = t ∷ []
put t (s ∷ ts) =
    let further = put t ts in
    if key_lt (key_of s) (key_of t)
    then s ∷ further
    else if key_eq (key_of s) (key_of t)
    then t ∷ ts
    else t ∷ s ∷ ts

-- The tick with the key `k`.
unfoldable pub find : Key → List Tick → Option Tick
find k [] = none
find k (s ∷ ts) = let further = find k ts in if key_eq (key_of s) k then some s else further

abbrev pub TicksAbove : Key → List Tick → Type 0
TicksAbove k ts = All (λ (t : Tick). key_lt k (key_of t) ≡ true) ts

-- The keys increase.
abbrev pub Ordered : List Tick → Type 0
Ordered [] = Unit
Ordered (t ∷ ts) = TicksAbove (key_of t) ts × Ordered ts

key_eq_trans : (a b c : Key) → key_eq a b ≡ true → key_eq a c ≡ key_eq b c
key_eq_trans a b c e = ap (λ x. key_eq x c) (key_eq→eq a b e)

-- Where all keys are greater, nothing is found.
pub find_above : (k : Key) (ts : List Tick) → TicksAbove k ts → find k ts ≡ none
unfolding find
find_above k [] h = refl
find_above k (t ∷ ts) h = rw (key_neq_of_lt k (key_of t) h.0) (find_above k ts h.1)

pub TicksAbove-trans :
    (a b : Key) (ts : List Tick) → key_lt a b ≡ true → TicksAbove b ts → TicksAbove a ts
TicksAbove-trans a b [] p h = tt
TicksAbove-trans a b (t ∷ ts) p h =
    (key_lt_trans a b (key_of t) p h.0, TicksAbove-trans a b ts p h.1)

put-TicksAbove :
    (k : Key) (t : Tick) (ts : List Tick)
    → key_lt k (key_of t) ≡ true
    → TicksAbove k ts
    → TicksAbove k (put t ts)
unfolding put
put-TicksAbove k t [] p h = (p, tt)
put-TicksAbove k t (s ∷ ts) p h = elim (Bool-cases (key_lt (key_of s) (key_of t))) [
  | inl less ↦ rw less (h.0, put-TicksAbove k t ts p h.1)
  | inr ge ↦ elim (Bool-cases (key_eq (key_of s) (key_of t))) [
    | inl same ↦ rw (ge, same) (p, h.1)
    | inr other ↦ rw (ge, other) (p, h)
  ]
]

-- `put` keeps the order of the keys.
pub put-Ordered : (t : Tick) (ts : List Tick) → Ordered ts → Ordered (put t ts)
unfolding put
put-Ordered t [] h = (tt, tt)
put-Ordered t (s ∷ ts) h = elim (Bool-cases (key_lt (key_of s) (key_of t))) [
  | inl less ↦ rw less (put-TicksAbove (key_of s) t ts less h.0, put-Ordered t ts h.1)
  | inr ge ↦ elim (Bool-cases (key_eq (key_of s) (key_of t))) [
    | inl same ↦
        let k = key_eq→eq (key_of s) (key_of t) same in
        rw (ge, same) (subst (λ x. TicksAbove x ts) k h.0, h.1)
    | inr other ↦
        let more = key_lt_total (key_of s) (key_of t) ge other in
        rw (ge, other) ((more, TicksAbove-trans (key_of t) (key_of s) ts more h.0), h)
  ]
]

-- The look-up of a key after `put`: the new tick under its key, and the old one under any other.
pub find-put :
    (k : Key) (t : Tick) (ts : List Tick)
    → Ordered ts
    → find k (put t ts) ≡ (if key_eq (key_of t) k then some t else find k ts)
unfolding put find
find-put k t [] h = refl
find-put k t (s ∷ ts) h = elim (Bool-cases (key_lt (key_of s) (key_of t))) [
  | inl less ↦
      rw (less, find-put k t ts h.1)
        (elim (Bool-cases (key_eq (key_of s) k)) [
          | inl found ↦
              let not_t : key_eq (key_of t) k ≡ false =
                ap (key_eq (key_of t)) (sym (key_eq→eq (key_of s) k found))
                ∙ key_neq_of_lt (key_of s) (key_of t) less in
              rw (found, not_t) refl
          | inr missed ↦ rw missed refl
        ])
  | inr ge ↦ elim (Bool-cases (key_eq (key_of s) (key_of t))) [
    | inl same ↦
        rw (ge, same, key_eq_trans (key_of s) (key_of t) k same)
          (elim (Bool-cases (key_eq (key_of t) k)) [
            | inl found ↦ rw found refl
            | inr missed ↦ rw missed refl
          ])
    | inr other ↦ rw (ge, other) refl
  ]
]

pub length-put_le : (t : Tick) (ts : List Tick) → length (put t ts) ≤ suc (length ts)
unfolding put
length-put_le t [] = omega arith
length-put_le t (s ∷ ts) =
    if_elim (λ (x : List Tick). length x ≤ suc (suc (length ts))) (key_lt (key_of s) (key_of t)) _ _
      (λ less. omega (arith, length-put_le t ts))
      (λ ge.
        if_elim (λ (x : List Tick). length x ≤ suc (suc (length ts))) (key_eq (key_of s) (key_of t))
          _ _ (λ same. omega arith) (λ other. omega arith))

-- There is a tick after a tick was put in.
pub put-cons : (t : Tick) (ts : List Tick) → (x : Tick) × ((xs : List Tick) × (put t ts ≡ x ∷ xs))
unfolding put
put-cons t [] = (t, ([], refl))
put-cons t (s ∷ ts) = elim (Bool-cases (key_lt (key_of s) (key_of t))) [
  | inl less ↦ (s, (put t ts, rw less refl))
  | inr ge ↦ elim (Bool-cases (key_eq (key_of s) (key_of t))) [
    | inl same ↦ (t, (ts, rw (ge, same) refl))
    | inr other ↦ (t, (s ∷ ts, rw (ge, other) refl))
  ]
]

Above-get_elem? :
    (k : Key) (ts : List Tick) (i : ℕ) (t : Tick)
    → TicksAbove k ts
    → get_elem? ts i ≡ some t
    → key_lt k (key_of t) ≡ true
Above-get_elem? k [] i t h e = absurd (ground (arith, e))
Above-get_elem? k (x ∷ xs) zero t h e =
    ap (λ (u : Tick). key_lt k (key_of u)) (sym (some-injective x t e)) ∙ h.0
Above-get_elem? k (x ∷ xs) (suc i) t h e = Above-get_elem? k xs i t h.1 e

-- A tick of the sequence is found under its key.
pub find-get_elem? :
    (ts : List Tick) (i : ℕ) (t : Tick)
    → Ordered ts
    → get_elem? ts i ≡ some t
    → find (key_of t) ts ≡ some t
unfolding find
find-get_elem? [] i t h e = absurd (ground (arith, e))
find-get_elem? (x ∷ xs) zero t h e =
    let is : x ≡ t = some-injective x t e in rw (is, key_eq_refl (key_of t)) refl
find-get_elem? (x ∷ xs) (suc i) t h e =
    let less = Above-get_elem? (key_of x) xs i t h.0 e in
    rw (key_lt_neq (key_of x) (key_of t) less) (find-get_elem? xs i t h.1 e)
