-- ===== src/SkipList/Overwrite.antt =====
-- A tick that is written over another one with the same key.
use mathlib.Core.Path.{subst}
use graphite_tsdb.Prelude.{
  ℕ, ◌≡◌, ◌≢◌, refl, sym, ap, ◌∙◌, arith, true, Bool-cases, inl, inr, some, List, [], ◌∷◌,
  ℕ_discrete,
}
use graphite_tsdb.Types.{Key, Tick, key_of}
use graphite_tsdb.SkipList.{Ptr, Node, Heap, key_lt, key_eq, write}
use graphite_tsdb.SkipList.Cells.{
  Cells, succ, succ_less, succ_stop, Mem, Distinct, All-Mem, key_lt_irrefl, key_eq_refl,
}
use graphite_tsdb.SkipList.Chain.{Holds}
use graphite_tsdb.SkipList.Frames.{KeepsAt}
use graphite_tsdb.SkipList.Spec.{put}
use graphite_tsdb.SkipList.Contents.{Contents, Contents-frame, put_skip, put_same}

module _ (h : Heap) (u : Ptr) (n : Node) (at : Holds h u n) (t : Tick) where
  abbrev pub overwritten : Heap
  overwritten = write h u (some (record n { tick = t }))

  -- Keys and pointers stay.
  pub overwritten-KeepsAt :
      (i : ℕ) (p : Ptr) (m : Node) → h p ≡ some m → KeepsAt overwritten i p m (m.forward i)
  overwritten-KeepsAt i p m e = elim (ℕ_discrete p u) [
    | yes same ↦
        let found = at.holds in
        let this : n ≡ m = ground arith in
        (
          record n { tick = t },
          (ground arith, (ap (λ (x : Node). x.key) this, ap (λ (x : Node). x.forward i) this)),
        )
    | no other ↦ (m, (ground arith, (refl, refl)))
  ]

  overwritten_other : (p : Ptr) → p ≢ u → overwritten p ≡ h p
  overwritten_other p ne = ground arith

  -- The cells hold what `put` makes of the ticks.
  pub Contents-overwritten :
      (xs : Cells) (ts : List Tick)
      → Contents h xs ts
      → Distinct xs
      → u ≡ succ (key_of t) xs
      → Mem u (key_of t) xs
      → Contents overwritten xs (put t ts)
  Contents-overwritten [] ts c d hu m = elim m [ ]
  Contents-overwritten ((r, kr) ∷ xs) [] c d hu m = elim c [ ]
  Contents-overwritten ((r, kr) ∷ xs) (s ∷ ts) (m, (hm, (km, (em, (kt, rest))))) d hu mem =
      elim (Bool-cases (key_lt kr (key_of t))) [
        | inl less ↦
            let deeper : Mem u (key_of t) xs = elim mem [
              | inl (q, e) ↦ absurd (false_lt kr (key_of t) less e)
              | inr inner ↦ inner
            ] in
            let away : r ≢ u = All-Mem _ xs u (key_of t) d.0 deeper in
            rw (put_skip t s ts (ap (λ x. key_lt x (key_of t)) kt ∙ less)) (
              m,
              (
                record { ne_null = hm.ne_null; holds = overwritten_other r away ∙ hm.holds },
                (
                  km,
                  (
                    em,
                    (
                      kt,
                      Contents-overwritten xs ts rest d.1 (hu ∙ succ_less r (key_of t) kr xs less)
                          deeper,
                    ),
                  ),
                ),
              ),
            )
        | inr ge ↦
            let here : u ≡ r = hu ∙ succ_stop r (key_of t) kr xs ge in
            let key_here : key_of t ≡ kr = elim mem [
              | inl (q, e) ↦ e
              | inr inner ↦ absurd (All-Mem _ xs u (key_of t) d.0 inner (sym here))
            ] in
            let same : key_eq (key_of s) (key_of t) ≡ true =
              ap (λ x. key_eq x (key_of t)) (kt ∙ sym key_here) ∙ key_eq_refl (key_of t) in
            let this : n ≡ m = node_here r m here hm.holds in
            rw (put_same t s ts (ap (λ x. key_lt x (key_of t)) kt ∙ ge) same) (
              record n { tick = t },
              (
                record {
                  ne_null = hm.ne_null;
                  holds = subst (λ x. overwritten x ≡ some (record n { tick = t })) here written;
                },
                (
                  ap (λ (x : Node). x.key) this ∙ km,
                  (
                    refl,
                    (
                      key_here,
                      Contents-frame h overwritten xs ts rest (λ q kq inner node e. (
                        node,
                        (
                          overwritten_other q (λ w. All-Mem _ xs q kq d.0 inner (sym (w ∙ here)))
                              ∙ e,
                          (refl, refl),
                        ),
                      )),
                    ),
                  ),
                ),
              ),
            )
      ]
    where
      false_lt : (a b : Key) → key_lt a b ≡ true → b ≡ a → ⊥
      false_lt a b l e =
          let no : key_lt a a ≡ true = ap (key_lt a) (sym e) ∙ l in
          let off = key_lt_irrefl a in ground arith

      written : overwritten u ≡ some (record n { tick = t })
      written = ground arith

      node_here : (r : Ptr) (m : Node) → u ≡ r → h r ≡ some m → n ≡ m
      node_here r m here e = let found = at.holds in ground arith
