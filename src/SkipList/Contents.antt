-- ===== src/SkipList/Contents.antt =====
-- The ticks of the cells of the lowest level.
use mathlib.Core.Path.{subst}
use graphite_tsdb.Prelude.{
  suc, ◌≡◌, refl, sym, ap, ◌∙◌, ◌⊎◌, arith, true, false, Bool-cases, inl, inr, Option, none, some,
  List, [], ◌∷◌, ◌==◌, if◌then◌else◌, length,
}
use graphite_tsdb.Types.{Key, Tick, key_of}
use graphite_tsdb.SkipList.{Ptr, Node, Heap, key_lt, key_eq, find_key}
use graphite_tsdb.SkipList.Cells.{
  Cells, succ, put_cell, succ_less, succ_stop, put_less, put_stop, Mem, Above, Sorted, Absent,
  key_lt_neq, key_eq→eq, key_neq_of_lt, key_lt_trans, key_lt_total,
}
use graphite_tsdb.SkipList.Chain.{Holds}
use graphite_tsdb.SkipList.Spec.{put, find, find_above, TicksAbove, Ordered}

-- The nodes of the cells hold the ticks, whose keys are the cells'.
abbrev pub Contents : Heap → Cells → List Tick → Type 0
Contents h [] [] = Unit
Contents h [] (t ∷ ts) = ⊥
Contents h ((r, kr) ∷ xs) [] = ⊥
Contents h ((r, kr) ∷ xs) (t ∷ ts) =
    (n : Node) × (Holds h r n
      × ((n.key ≡ kr) × ((n.tick ≡ t) × ((key_of t ≡ kr) × Contents h xs ts))))

abbrev tick_of : Option Node → Option Tick
tick_of none = none
tick_of (some n) = some n.tick

pub length-Contents :
    (h : Heap) (xs : Cells) (ts : List Tick) → Contents h xs ts → length xs ≡ length ts
length-Contents h [] [] c = refl
length-Contents h [] (t ∷ ts) c = elim c [ ]
length-Contents h (x ∷ xs) [] c = elim c [ ]
length-Contents h ((r, kr) ∷ xs) (t ∷ ts) (n, (hn, (k, (e, (kt, rest))))) =
    ap suc (length-Contents h xs ts rest)

pub Contents-TicksAbove :
    (h : Heap) (k : Key) (xs : Cells) (ts : List Tick)
    → Contents h xs ts
    → Above k xs
    → TicksAbove k ts
Contents-TicksAbove h k [] [] c a = tt
Contents-TicksAbove h k [] (t ∷ ts) c a = elim c [ ]
Contents-TicksAbove h k (x ∷ xs) [] c a = elim c [ ]
Contents-TicksAbove h k ((r, kr) ∷ xs) (t ∷ ts) (n, (hn, (kn, (e, (kt, rest))))) a =
    (ap (key_lt k) kt ∙ a.0, Contents-TicksAbove h k xs ts rest a.1)

pub Contents-Ordered :
    (h : Heap) (xs : Cells) (ts : List Tick) → Contents h xs ts → Sorted xs → Ordered ts
Contents-Ordered h [] [] c s = tt
Contents-Ordered h [] (t ∷ ts) c s = elim c [ ]
Contents-Ordered h (x ∷ xs) [] c s = elim c [ ]
Contents-Ordered h ((r, kr) ∷ xs) (t ∷ ts) (n, (hn, (kn, (e, (kt, rest))))) s = (
  subst (λ x. TicksAbove x ts) (sym kt) (Contents-TicksAbove h kr xs ts rest s.0),
  Contents-Ordered h xs ts rest s.1,
)

-- What `find_key` finds at the first cell whose key is not less: the tick with the key, at a cell
-- of that key, or that no cell has the key.
abbrev pub Found : Heap → Key → Cells → List Tick → Type 0
Found h key xs ts =
    ((n : Node) × ((find_key h (succ key xs) key ≡ some (some n))
        × ((find key ts ≡ some n.tick) × (Holds h (succ key xs) n × Mem (succ key xs) key xs))))
    ⊎ ((find_key h (succ key xs) key ≡ some none) × ((find key ts ≡ none) × Absent key xs))

Above-Absent : (k : Key) (xs : Cells) → Above k xs → Absent k xs
Above-Absent k [] a = tt
Above-Absent k ((r, kr) ∷ xs) a = (key_neq_of_lt k kr a.0, Above-Absent k xs a.1)

Above-trans : (a b : Key) (xs : Cells) → key_lt a b ≡ true → Above b xs → Above a xs
Above-trans a b [] p h = tt
Above-trans a b ((r, kr) ∷ xs) p h = (key_lt_trans a b kr p h.0, Above-trans a b xs p h.1)

find_skip :
    (k : Key) (t : Tick) (ts : List Tick)
    → key_eq (key_of t) k ≡ false
    → find k (t ∷ ts) ≡ find k ts
unfolding find
find_skip k t ts h = rw h refl

find_here :
    (k : Key) (t : Tick) (ts : List Tick) → key_eq (key_of t) k ≡ true → find k (t ∷ ts) ≡ some t
unfolding find
find_here k t ts h = rw h refl

find_key-Holds :
    (h : Heap) (key : Key) (r : Ptr) (n : Node)
    → Holds h r n
    → find_key h r key ≡ some (if key_eq n.key key then some n else none)
unfolding find_key
find_key-Holds h key r n hn =
    let ne = hn.ne_null in
    let not_null : (r == 0) ≡ false = ground arith in rw (not_null, hn.holds) refl

find_key_null : (h : Heap) (key : Key) → find_key h (succ key []) key ≡ some none
unfolding find_key succ
find_key_null h key = refl

find_nil : (key : Key) → find key [] ≡ none
unfolding find
find_nil key = refl

pub find_key_lem :
    (h : Heap) (key : Key) (xs : Cells) (ts : List Tick)
    → Contents h xs ts
    → Sorted xs
    → Found h key xs ts
find_key_lem h key [] [] c s = inr (find_key_null h key, (find_nil key, tt))
find_key_lem h key [] (t ∷ ts) c s = elim c [ ]
find_key_lem h key (x ∷ xs) [] c s = elim c [ ]
find_key_lem h key ((r, kr) ∷ xs) (t ∷ ts) (n, (hn, (k, (e, (kt, rest))))) s =
    elim (Bool-cases (key_lt kr key)) [
      | inl less ↦
          let q = succ_less r key kr xs less in
          let differs = key_lt_neq kr key less in
          let skip = find_skip key t ts (ap (λ x. key_eq x key) kt ∙ differs) in
          elim (find_key_lem h key xs ts rest s.1) [
            | inl (m, (fk, (fd, (hm, mem)))) ↦ inl (
              m,
              (
                ap (λ x. find_key h x key) q ∙ fk,
                (
                  skip ∙ fd,
                  (
                    subst (λ x. Holds h x m) (sym q) hm,
                    inr (subst (λ x. Mem x key xs) (sym q) mem),
                  ),
                ),
              ),
            )
            | inr (fk, (fd, ab)) ↦
                inr (ap (λ x. find_key h x key) q ∙ fk, (skip ∙ fd, (differs, ab)))
          ]
      | inr ge ↦
          let q = succ_stop r key kr xs ge in
          let at = ap (λ x. find_key h x key) q ∙ find_key-Holds h key r n hn in
          elim (Bool-cases (key_eq kr key)) [
            | inl same ↦
                let hit : key_eq n.key key ≡ true = ap (λ x. key_eq x key) k ∙ same in
                inl (
                  n,
                  (
                    rw hit at at,
                    (
                      find_here key t ts (ap (λ x. key_eq x key) kt ∙ same) ∙ ap some (sym e),
                      (subst (λ x. Holds h x n) (sym q) hn, inl (q, sym (key_eq→eq kr key same))),
                    ),
                  ),
                )
            | inr other ↦
                let miss : key_eq n.key key ≡ false = ap (λ x. key_eq x key) k ∙ other in
                let more = Above-trans key kr xs (key_lt_total kr key ge other) s.0 in
                inr (
                  rw miss at at,
                  (
                    find_skip key t ts (ap (λ x. key_eq x key) kt ∙ other)
                        ∙ find_above key ts (Contents-TicksAbove h key xs ts rest more),
                    (other, Above-Absent key xs more),
                  ),
                )
          ]
    ]

-- The heap keeps the nodes of the cells with their keys and ticks.
abbrev pub KeepsTicks : Heap → Heap → Cells → Type 0
KeepsTicks h h' xs =
    (r : Ptr) (k : Key)
    → Mem r k xs
    → (n : Node) → h r ≡ some n
    → (n' : Node) × ((h' r ≡ some n') × ((n'.key ≡ n.key) × (n'.tick ≡ n.tick)))

pub Contents-frame :
    (h h' : Heap) (xs : Cells) (ts : List Tick)
    → Contents h xs ts
    → KeepsTicks h h' xs
    → Contents h' xs ts
Contents-frame h h' [] [] c keeps = tt
Contents-frame h h' [] (t ∷ ts) c keeps = elim c [ ]
Contents-frame h h' (x ∷ xs) [] c keeps = elim c [ ]
Contents-frame h h' ((r, kr) ∷ xs) (t ∷ ts) (n, (hn, (k, (e, (kt, rest))))) keeps =
    let (n', (e', (k', t'))) = keeps r kr (inl (refl, refl)) n hn.holds in
    (
      n',
      (
        record { ne_null = hn.ne_null; holds = e' },
        (k' ∙ k, (t' ∙ e, (kt, Contents-frame h h' xs ts rest (λ s ks m. keeps s ks (inr m))))),
      ),
    )

pub put_skip :
    (t s : Tick) (ts : List Tick)
    → key_lt (key_of s) (key_of t) ≡ true
    → put t (s ∷ ts) ≡ s ∷ put t ts
unfolding put
put_skip t s ts h = rw h refl

put_front :
    (t s : Tick) (ts : List Tick)
    → key_lt (key_of s) (key_of t) ≡ false
    → key_eq (key_of s) (key_of t) ≡ false
    → put t (s ∷ ts) ≡ t ∷ s ∷ ts
unfolding put
put_front t s ts h g = rw (h, g) refl

pub put_same :
    (t s : Tick) (ts : List Tick)
    → key_lt (key_of s) (key_of t) ≡ false
    → key_eq (key_of s) (key_of t) ≡ true
    → put t (s ∷ ts) ≡ t ∷ ts
unfolding put
put_same t s ts h g = rw (h, g) refl

-- With a new node for a key that no cell has, the cells hold what `put` makes of the ticks.
pub Contents-put_cell :
    (h' : Heap) (address : Ptr) (t : Tick) (n : Node)
    → Holds h' address n
    → n.key ≡ key_of t
    → n.tick ≡ t
    → (xs : Cells) (ts : List Tick) → Contents h' xs ts
    → Absent (key_of t) xs
    → Contents h' (put_cell address (key_of t) xs) (put t ts)
Contents-put_cell h' address t n hn k e [] [] c a =
    unfold put_cell in unfold put in (n, (hn, (k, (e, (refl, tt)))))
Contents-put_cell h' address t n hn k e [] (s ∷ ts) c a = elim c [ ]
Contents-put_cell h' address t n hn k e (x ∷ xs) [] c a = elim c [ ]
Contents-put_cell h' address t n hn k e ((r, kr) ∷ xs) (s ∷ ts) (m, (hm, (km, (em, (kt, rest)))))
      a =
    elim (Bool-cases (key_lt kr (key_of t))) [
      | inl less ↦
          rw
            (
              put_less address (key_of t) r kr xs less,
              put_skip t s ts (ap (λ x. key_lt x (key_of t)) kt ∙ less),
            )
            (m, (hm, (km, (em, (kt, Contents-put_cell h' address t n hn k e xs ts rest a.1)))))
      | inr ge ↦
          rw
            (
              put_stop address (key_of t) r kr xs ge,
              put_front t s ts (ap (λ x. key_lt x (key_of t)) kt ∙ ge)
                  (ap (λ x. key_eq x (key_of t)) kt ∙ a.0),
            )
            (n, (hn, (k, (e, (refl, (m, (hm, (km, (em, (kt, rest))))))))))
    ]
