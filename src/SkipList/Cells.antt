-- ===== src/SkipList/Cells.antt =====
-- The nodes of one level as the list of their addresses and keys, in the order of the keys.
use graphite_tsdb.Prelude.{
  suc, ◌≡◌, ◌≢◌, refl, sym, ap, ◌⊎◌, inl, inr, arith, true, false, Bool-cases, List, [], ◌∷◌,
  length, if◌then◌else◌, All,
}
use mathlib.Core.Path.{subst}
use graphite_tsdb.Types.{Key, cmp}
use graphite_tsdb.SkipList.{Ptr, key_lt, key_eq}

abbrev pub Cells : Type 0
Cells = List (Ptr × Key)

pub key_lt_trans : (a b c : Key) → key_lt a b ≡ true → key_lt b c ≡ true → key_lt a c ≡ true
unfolding cmp
key_lt_trans a b c p q = ground arith

pub key_lt_irrefl : (a : Key) → key_lt a a ≡ false
unfolding cmp
key_lt_irrefl a = ground arith

pub key_lt_total : (a b : Key) → key_lt a b ≡ false → key_eq a b ≡ false → key_lt b a ≡ true
unfolding cmp
key_lt_total a b p q = ground arith

pub key_lt_asym : (a b : Key) → key_lt a b ≡ true → key_lt b a ≡ false
unfolding cmp
key_lt_asym a b p = ground arith

pub key_eq→eq : (a b : Key) → key_eq a b ≡ true → a ≡ b
unfolding cmp
key_eq→eq a b p = ground arith

pub key_eq_refl : (a : Key) → key_eq a a ≡ true
unfolding cmp
key_eq_refl a = ground arith

pub key_neq_of_lt : (a b : Key) → key_lt a b ≡ true → key_eq b a ≡ false
unfolding cmp
key_neq_of_lt a b p = ground arith

pub key_lt_neq : (a b : Key) → key_lt a b ≡ true → key_eq a b ≡ false
unfolding cmp
key_lt_neq a b p = ground arith

-- The address of the last cell with a key less than `k`, or `p`.
unfoldable pub pred : Ptr → Key → Cells → Ptr
pred p k [] = p
pred p k ((r, kr) ∷ xs) = let further = pred r k xs in if key_lt kr k then further else p

-- The address of the first cell whose key is not less than `k`, or null.
unfoldable pub succ : Key → Cells → Ptr
succ k [] = 0
succ k ((r, kr) ∷ xs) = let further = succ k xs in if key_lt kr k then further else r

-- The cells with a new one in front of the first whose key is not less than `k`.
unfoldable pub put_cell : Ptr → Key → Cells → Cells
put_cell c k [] = (c, k) ∷ []
put_cell c k ((r, kr) ∷ xs) =
    let further = put_cell c k xs in
    if key_lt kr k then (r, kr) ∷ further else (c, k) ∷ (r, kr) ∷ xs

abbrev pub Mem : Ptr → Key → Cells → Type 0
Mem r k [] = ⊥
Mem r k ((q, kq) ∷ xs) = ((r ≡ q) × (k ≡ kq)) ⊎ Mem r k xs

-- `p` is none of the addresses.
abbrev pub Apart : Ptr → Cells → Type 0
Apart p xs = All (λ (c : Ptr × Key). p ≢ c.0) xs

abbrev pub Distinct : Cells → Type 0
Distinct [] = Unit
Distinct ((r, kr) ∷ xs) = Apart r xs × Distinct xs

-- The keys are all greater than `k`.
abbrev pub Above : Key → Cells → Type 0
Above k xs = All (λ (c : Ptr × Key). key_lt k c.1 ≡ true) xs

abbrev pub Sorted : Cells → Type 0
Sorted [] = Unit
Sorted ((r, kr) ∷ xs) = Above kr xs × Sorted xs

-- No cell has the key.
abbrev pub Absent : Key → Cells → Type 0
Absent k xs = All (λ (c : Ptr × Key). key_eq c.1 k ≡ false) xs

pub All-Mem :
    (P : Ptr × Key → Type 0) (xs : Cells) (r : Ptr) (k : Key) → All P xs → Mem r k xs → P (r, k)
All-Mem P [] r k h m = elim m [ ]
All-Mem P ((q, kq) ∷ xs) r k h (inl (e, d)) = rw (e, d) h.0
All-Mem P ((q, kq) ∷ xs) r k h (inr m) = All-Mem P xs r k h.1 m

pub All_of_Mem :
    (P : Ptr × Key → Type 0) (xs : Cells) → ((r : Ptr) (k : Key) → Mem r k xs → P (r, k)) → All P xs
All_of_Mem P [] h = tt
All_of_Mem P ((q, kq) ∷ xs) h =
    (h q kq (inl (refl, refl)), All_of_Mem P xs (λ r k m. h r k (inr m)))

pub All-put_cell :
    (P : Ptr × Key → Type 0) (c : Ptr) (k : Key) (xs : Cells)
    → P (c, k)
    → All P xs
    → All P (put_cell c k xs)
unfolding put_cell
All-put_cell P c k [] p h = (p, tt)
All-put_cell P c k ((r, kr) ∷ xs) p h = elim (Bool-cases (key_lt kr k)) [
  | inl less ↦ rw less (h.0, All-put_cell P c k xs p h.1)
  | inr ge ↦ rw ge (p, h)
]

pub Mem-put_cell :
    (c : Ptr) (k : Key) (xs : Cells) (r : Ptr) (kr : Key)
    → Mem r kr (put_cell c k xs)
    → ((r ≡ c) × (kr ≡ k)) ⊎ Mem r kr xs
unfolding put_cell
Mem-put_cell c k [] r kr m = m
Mem-put_cell c k ((q, kq) ∷ xs) r kr m = elim (Bool-cases (key_lt kq k)) [
  | inl less ↦ elim (rw less at m) [
    | inl e ↦ inr (inl e)
    | inr n ↦ elim (Mem-put_cell c k xs r kr n) [ inl e ↦ inl e | inr o ↦ inr (inr o) ]
  ]
  | inr ge ↦ rw ge at m
]

pub length-put_cell : (c : Ptr) (k : Key) (xs : Cells) → length (put_cell c k xs) ≡ suc (length xs)
unfolding put_cell
length-put_cell c k [] = refl
length-put_cell c k ((r, kr) ∷ xs) = elim (Bool-cases (key_lt kr k)) [
  | inl less ↦ rw less (ap suc (length-put_cell c k xs))
  | inr ge ↦ rw ge refl
]

pub put_cell-Mem_self : (c : Ptr) (k : Key) (xs : Cells) → Mem c k (put_cell c k xs)
unfolding put_cell
put_cell-Mem_self c k [] = inl (refl, refl)
put_cell-Mem_self c k ((q, kq) ∷ xs) = elim (Bool-cases (key_lt kq k)) [
  | inl less ↦ rw less (inr (put_cell-Mem_self c k xs))
  | inr ge ↦ rw ge (inl (refl, refl))
]

pub put_cell-Mem :
    (c : Ptr) (k : Key) (xs : Cells) (r : Ptr) (kr : Key) → Mem r kr xs → Mem r kr (put_cell c k xs)
unfolding put_cell
put_cell-Mem c k [] r kr m = elim m [ ]
put_cell-Mem c k ((q, kq) ∷ xs) r kr m = elim (Bool-cases (key_lt kq k)) [
  | inl less ↦ rw less (elim m [ inl e ↦ inl e | inr n ↦ inr (put_cell-Mem c k xs r kr n) ])
  | inr ge ↦ rw ge (inr m)
]

pub put_cell-Distinct :
    (c : Ptr) (k : Key) (xs : Cells) → Apart c xs → Distinct xs → Distinct (put_cell c k xs)
unfolding put_cell
put_cell-Distinct c k [] a d = (tt, tt)
put_cell-Distinct c k ((r, kr) ∷ xs) a d = elim (Bool-cases (key_lt kr k)) [
  | inl less ↦
      rw less (
        All-put_cell (λ x. r ≢ x.0) c k xs (λ e. a.0 (sym e)) d.0,
        put_cell-Distinct c k xs a.1 d.1,
      )
  | inr ge ↦ rw ge (a, d)
]

Above-trans : (a b : Key) (xs : Cells) → key_lt a b ≡ true → Above b xs → Above a xs
Above-trans a b [] p h = tt
Above-trans a b ((r, kr) ∷ xs) p h = (key_lt_trans a b kr p h.0, Above-trans a b xs p h.1)

pub put_cell-Sorted :
    (c : Ptr) (k : Key) (xs : Cells) → Absent k xs → Sorted xs → Sorted (put_cell c k xs)
unfolding put_cell
put_cell-Sorted c k [] a s = (tt, tt)
put_cell-Sorted c k ((r, kr) ∷ xs) a s = elim (Bool-cases (key_lt kr k)) [
  | inl less ↦
      rw less
        (All-put_cell (λ x. key_lt kr x.1 ≡ true) c k xs less s.0, put_cell-Sorted c k xs a.1 s.1)
  | inr ge ↦ let more = key_lt_total kr k ge a.0 in rw ge ((more, Above-trans k kr xs more s.0), s)
]

-- One step of `pred` and `succ`.
module _ (r : Ptr) (k kr : Key) (xs : Cells) where
  pub pred_less : (p : Ptr) → key_lt kr k ≡ true → pred p k ((r, kr) ∷ xs) ≡ pred r k xs
  unfolding pred
  pred_less p less = rw less refl

  pub pred_stop : (p : Ptr) → key_lt kr k ≡ false → pred p k ((r, kr) ∷ xs) ≡ p
  unfolding pred
  pred_stop p ge = rw ge refl

  pub succ_less : key_lt kr k ≡ true → succ k ((r, kr) ∷ xs) ≡ succ k xs
  unfolding succ
  succ_less less = rw less refl

  pub succ_stop : key_lt kr k ≡ false → succ k ((r, kr) ∷ xs) ≡ r
  unfolding succ
  succ_stop ge = rw ge refl

-- One step of `put_cell`.
module _ (c : Ptr) (k : Key) (r : Ptr) (kr : Key) (xs : Cells) where
  pub put_less : key_lt kr k ≡ true → put_cell c k ((r, kr) ∷ xs) ≡ (r, kr) ∷ put_cell c k xs
  unfolding put_cell
  put_less less = rw less refl

  pub put_stop : key_lt kr k ≡ false → put_cell c k ((r, kr) ∷ xs) ≡ (c, k) ∷ (r, kr) ∷ xs
  unfolding put_cell
  put_stop ge = rw ge refl

-- `p` itself, or the address of a cell with a key less than `k`.
abbrev pub Before : Ptr → Key → Cells → Ptr → Type 0
Before p k xs q = (q ≡ p) ⊎ ((kq : Key) × (Mem q kq xs × (key_lt kq k ≡ true)))

pub pred-Before : (p : Ptr) (k : Key) (xs : Cells) → Before p k xs (pred p k xs)
pred-Before p k [] = inl (unfold pred in refl)
pred-Before p k ((r, kr) ∷ xs) = elim (Bool-cases (key_lt kr k)) [
  | inl less ↦
      subst (Before p k ((r, kr) ∷ xs)) (sym (pred_less r k kr xs p less))
        (elim (pred-Before r k xs) [
          | inl e ↦ inr (kr, (inl (e, refl), less))
          | inr (kq, (m, l)) ↦ inr (kq, (inr m, l))
        ])
  | inr ge ↦ inl (pred_stop r k kr xs p ge)
]
