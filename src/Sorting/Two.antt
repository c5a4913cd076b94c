-- ===== src/Sorting/Two.antt =====
-- Two sequences of ticks that are in order, merged step by step and merged by sorting.
use graphite_tsdb.Prelude.{
  ◌≡◌, refl, sym, ap, ◌∙◌, Bool-cases, inl, inr, true, List, [], ◌∷◌, ◌++◌, if◌then◌else◌, if_elim,
}
use graphite_tsdb.Types.{Key, Tick, key_of}
use graphite_tsdb.SkipList.{key_lt, key_eq}
use graphite_tsdb.SkipList.Cells.{
  key_lt_irrefl, key_lt_total, key_lt_asym, key_neq_of_lt, key_eq→eq, key_eq_refl,
}
use graphite_tsdb.SkipList.Spec.{put, Ordered, TicksAbove, TicksAbove-trans}
use graphite_tsdb.Sorting.{insert_sorted, sort, merge}
use graphite_tsdb.Sorting.Merge.{put_all, merge-put_all, put-front, put_all_of-Ordered}
use mathlib.Core.Path.{subst}

-- The merge of two sequences, in which the first one has the tick of a common key.
unfoldable pub merge_two : List Tick → List Tick → List Tick
merge_two [] ys = ys
merge_two (x ∷ xs) [] = x ∷ xs
merge_two (x ∷ xs) (y ∷ ys) =
    let first = merge_two xs (y ∷ ys) in
    let both = merge_two xs ys in
    let second = merge_two (x ∷ xs) ys in
    if key_lt (key_of x) (key_of y)
    then x ∷ first
    else if key_eq (key_of x) (key_of y)
    then x ∷ both
    else y ∷ second

pub merge_two-nil : (xs : List Tick) → merge_two xs [] ≡ xs
unfolding merge_two
merge_two-nil [] = refl
merge_two-nil (x ∷ xs) = refl

-- A tick of the second sequence that is less than all of the first.
merge_two-less :
    (xs ys : List Tick) (y : Tick)
    → TicksAbove (key_of y) xs
    → merge_two xs (y ∷ ys) ≡ y ∷ merge_two xs ys
unfolding merge_two
merge_two-less [] ys y h = refl
merge_two-less (x ∷ xs) ys y (h, hs) =
    rw (key_lt_asym (key_of y) (key_of x) h, key_neq_of_lt (key_of y) (key_of x) h) refl

TicksAbove-merge_two :
    (k : Key) (xs ys : List Tick)
    → TicksAbove k xs
    → TicksAbove k ys
    → TicksAbove k (merge_two xs ys)
unfolding merge_two
TicksAbove-merge_two k [] ys h g = g
TicksAbove-merge_two k (x ∷ xs) [] h g = h
TicksAbove-merge_two k (x ∷ xs) (y ∷ ys) h g =
    if_elim (TicksAbove k) (key_lt (key_of x) (key_of y)) _ _
      (λ less. (h.0, TicksAbove-merge_two k xs (y ∷ ys) h.1 g))
      (λ ge.
        if_elim (TicksAbove k) (key_eq (key_of x) (key_of y)) _ _
          (λ same. (h.0, TicksAbove-merge_two k xs ys h.1 g.1))
          (λ other. (g.0, TicksAbove-merge_two k (x ∷ xs) ys h g.1)))

put_behind :
    (y x : Tick) (ts : List Tick)
    → key_lt (key_of y) (key_of x) ≡ true
    → y ∷ put x ts ≡ put x (y ∷ ts)
unfolding put
put_behind y x ts less = rw less refl

put_same : (x y : Tick) (ts : List Tick) → key_of x ≡ key_of y → put x (y ∷ ts) ≡ x ∷ ts
unfolding put
put_same x y ts is = rw (sym is, key_lt_irrefl (key_of x), key_eq_refl (key_of x)) refl

merge_two-put :
    (x : Tick) (xs ys : List Tick)
    → TicksAbove (key_of x) xs
    → Ordered ys
    → merge_two (x ∷ xs) ys ≡ put x (merge_two xs ys)
unfolding merge_two
merge_two-put x xs [] h g = sym (ap (put x) (merge_two-nil xs) ∙ put-front x xs h)
merge_two-put x xs (y ∷ ys) h g = elim (Bool-cases (key_lt (key_of x) (key_of y))) [
  | inl less ↦
      let above =
        TicksAbove-merge_two (key_of x) xs (y ∷ ys) h
          (less, TicksAbove-trans (key_of x) (key_of y) ys less g.0) in
      rw less (sym (put-front x (merge_two xs (y ∷ ys)) above))
  | inr ge ↦ elim (Bool-cases (key_eq (key_of x) (key_of y))) [
    | inl same ↦
        let is : key_of x ≡ key_of y = key_eq→eq (key_of x) (key_of y) same in
        let first : merge_two xs (y ∷ ys) ≡ y ∷ merge_two xs ys =
          merge_two-less xs ys y (subst (λ k. TicksAbove k xs) is h) in
        rw (ge, same) (sym (ap (put x) first ∙ put_same x y (merge_two xs ys) is))
    | inr other ↦
        let more = key_lt_total (key_of x) (key_of y) ge other in
        let first : merge_two xs (y ∷ ys) ≡ y ∷ merge_two xs ys =
          merge_two-less xs ys y (TicksAbove-trans (key_of y) (key_of x) xs more h) in
        rw (ge, other)
          (ap (λ (ts : List Tick). y ∷ ts) (merge_two-put x xs ys h g.1)
            ∙ put_behind y x (merge_two xs ys) more
            ∙ sym (ap (put x) first))
  ]
]

-- Merging two sequences in order step by step is sorting them and removing duplicates.
pub merge_two_lem :
    (xs ys : List Tick) → Ordered xs → Ordered ys → merge_two xs ys ≡ merge (xs ++ ys)
unfolding merge_two put_all
merge_two_lem xs ys h g = all xs h ∙ sym (merge-put_all (xs ++ ys))
  where
    all : (xs : List Tick) → Ordered xs → merge_two xs ys ≡ put_all (xs ++ ys)
    all [] h = sym (put_all_of-Ordered ys g)
    all (x ∷ xs) h = merge_two-put x xs ys h.0 g ∙ ap (put x) (all xs h.1)

-- Ticks that are in order are sorted.
pub sort_of-Ordered : (ts : List Tick) → Ordered ts → sort ts ≡ ts
unfolding sort insert_sorted
sort_of-Ordered [] h = refl
sort_of-Ordered (t ∷ ts) h = ap (insert_sorted t) (sort_of-Ordered ts h.1) ∙ front ts h.0
  where
    front : (ts : List Tick) → TicksAbove (key_of t) ts → insert_sorted t ts ≡ t ∷ ts
    front [] a = refl
    front (s ∷ ts) a = rw (key_lt_asym (key_of t) (key_of s) a.0) refl
