-- ===== src/Sorting/Merge.antt =====
-- Sorting and removing duplicates makes the sorted map in which the first tick with a key counts.
use graphite_tsdb.Prelude.{
  ◌≡◌, refl, ap, ◌∙◌, ◌⊎◌, Bool-cases, inl, inr, true, false, some, Option, List, [], ◌∷◌,
  if◌then◌else◌,
}
use graphite_tsdb.Types.{Key, Tick, key_of}
use graphite_tsdb.SkipList.{key_lt, key_eq}
use graphite_tsdb.SkipList.Cells.{
  key_lt_total, key_lt_asym, key_lt_neq, key_neq_of_lt, key_eq→eq, key_eq_refl,
}
use graphite_tsdb.SkipList.Spec.{put, find, Ordered, TicksAbove, put-Ordered, find-put}
use graphite_tsdb.Sorting.{insert_sorted, sort, dedup_after, dedup, merge}

-- The map that holds the ticks, each one put over those behind it.
unfoldable pub put_all : List Tick → List Tick
put_all [] = []
put_all (t ∷ ts) = put t (put_all ts)

-- A tick in front of a list whose first key is not less than its own.
dedup-front :
    (t s : Tick) (ts : List Tick)
    → key_lt (key_of s) (key_of t) ≡ false
    → dedup (t ∷ s ∷ ts) ≡ put t (dedup (s ∷ ts))
unfolding dedup dedup_after put
dedup-front t s ts ge = elim (Bool-cases (key_eq (key_of s) (key_of t))) [
  | inl same ↦
      let e : key_of s ≡ key_of t = key_eq→eq (key_of s) (key_of t) same in
      rw (ge, same, e, key_eq_refl (key_of t)) refl
  | inr other ↦
      let less = key_lt_total (key_of s) (key_of t) ge other in
      rw (ge, other, key_lt_neq (key_of t) (key_of s) less) refl
]

-- A tick inserted behind a smaller one.
dedup_after-insert_sorted :
    (t s : Tick) (ts : List Tick)
    → key_lt (key_of s) (key_of t) ≡ true
    → dedup_after (key_of s) (insert_sorted t ts) ≡ put t (dedup_after (key_of s) ts)
unfolding insert_sorted dedup_after put dedup
dedup_after-insert_sorted t s [] less = rw (key_lt_neq (key_of s) (key_of t) less) refl
dedup_after-insert_sorted t s (y ∷ ys) less = elim (Bool-cases (key_lt (key_of y) (key_of t))) [
  | inl more ↦ elim (Bool-cases (key_eq (key_of s) (key_of y))) [
    | inl same ↦ rw (more, same) (dedup_after-insert_sorted t s ys less)
    | inr other ↦
        rw (more, other, more)
          (ap (λ (x : List Tick). y ∷ x) (dedup_after-insert_sorted t y ys more))
  ]
  | inr ge ↦
      let apart : key_eq (key_of s) (key_of y) ≡ false =
        differ (Bool-cases (key_eq (key_of s) (key_of y))) ge in
      rw (ge, key_lt_neq (key_of s) (key_of t) less, apart) (dedup-front t y ys ge)
]
  where
    differ :
        (key_eq (key_of s) (key_of y) ≡ true) ⊎ (key_eq (key_of s) (key_of y) ≡ false)
        → key_lt (key_of y) (key_of t) ≡ false
        → key_eq (key_of s) (key_of y) ≡ false
    differ (inl same) ge =
        let e : key_lt (key_of s) (key_of t) ≡ key_lt (key_of y) (key_of t) =
          ap (λ (k : Key). key_lt k (key_of t)) (key_eq→eq (key_of s) (key_of y) same) in
        absurd (cc)
    differ (inr other) ge = other

behind :
    (t s : Tick) (ts : List Tick)
    → key_lt (key_of s) (key_of t) ≡ true
    → s ∷ put t ts ≡ put t (s ∷ ts)
unfolding put
behind t s ts less = rw less refl

dedup-insert_sorted : (t : Tick) (ts : List Tick) → dedup (insert_sorted t ts) ≡ put t (dedup ts)
unfolding insert_sorted dedup
dedup-insert_sorted t [] = unfold put in refl
dedup-insert_sorted t (s ∷ ts) = elim (Bool-cases (key_lt (key_of s) (key_of t))) [
  | inl less ↦ rw less (
      ap (λ (x : List Tick). s ∷ x) (dedup_after-insert_sorted t s ts less)
      ∙ behind t s (dedup_after (key_of s) ts) less)
  | inr ge ↦ rw ge (dedup-front t s ts ge)
]

pub merge-put_all : (ts : List Tick) → merge ts ≡ put_all ts
unfolding merge sort put_all
merge-put_all [] = unfold dedup in refl
merge-put_all (t ∷ ts) = dedup-insert_sorted t (sort ts) ∙ ap (put t) (merge-put_all ts)

put_all-Ordered : (ts : List Tick) → Ordered (put_all ts)
unfolding put_all
put_all-Ordered [] = tt
put_all-Ordered (t ∷ ts) = put-Ordered t (put_all ts) (put_all-Ordered ts)

find-put_all : (k : Key) (ts : List Tick) → find k (put_all ts) ≡ find k ts
unfolding put_all
find-put_all k [] = refl
find-put_all k (t ∷ ts) =
    find-put k t (put_all ts) (put_all-Ordered ts)
    ∙ ap (λ (o : Option Tick). if key_eq (key_of t) k then some t else o) (find-put_all k ts)
    ∙ (unfold find in refl)

-- Sorting ticks and removing duplicates gives ticks in strictly increasing order of their keys, and
-- the one with a key is the first one with that key before.
pub merge_lem : (ts : List Tick) → Ordered (merge ts) × ((k : Key) → find k (merge ts) ≡ find k ts)
merge_lem ts =
    (rw (merge-put_all ts) (put_all-Ordered ts), λ k. rw (merge-put_all ts) (find-put_all k ts))

pub put-front : (t : Tick) (ts : List Tick) → TicksAbove (key_of t) ts → put t ts ≡ t ∷ ts
unfolding put
put-front t [] h = refl
put-front t (s ∷ ts) (h, hs) =
    rw (key_lt_asym (key_of t) (key_of s) h, key_neq_of_lt (key_of t) (key_of s) h) refl

pub put_all_of-Ordered : (ts : List Tick) → Ordered ts → put_all ts ≡ ts
unfolding put_all
put_all_of-Ordered [] h = refl
put_all_of-Ordered (t ∷ ts) (h, hs) = ap (put t) (put_all_of-Ordered ts hs) ∙ put-front t ts h

-- Ticks that are in order already are left as they are.
pub merge_of-Ordered : (ts : List Tick) → Ordered ts → merge ts ≡ ts
merge_of-Ordered ts h = merge-put_all ts ∙ put_all_of-Ordered ts h
