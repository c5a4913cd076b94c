-- ===== src/SkipList/Frames.antt =====
-- What becomes of the chains when the heap changes: they stay, or take in a new cell.
use mathlib.Core.Path.{subst}
use graphite_tsdb.Prelude.{
  ℕ, ◌≡◌, ◌≢◌, refl, sym, ◌∙◌, inl, inr, arith, true, false, Bool-cases, some, [], ◌∷◌, ◌==◌,
  if◌then◌else◌,
}
use graphite_tsdb.Types.{Key}
use graphite_tsdb.SkipList.{Ptr, Node, Heap, key_lt}
use graphite_tsdb.SkipList.Cells.{
  Cells, pred, succ, put_cell, pred_less, pred_stop, succ_less, succ_stop, put_less, put_stop, Mem,
  Apart, Distinct, pred-Before, All-Mem,
}
use graphite_tsdb.SkipList.Chain.{Holds, Chain}

-- The node at `p` is still there at level `i`, with its key and its pointer `q`.
abbrev pub KeepsAt : Heap → ℕ → Ptr → Node → Ptr → Type 0
KeepsAt h' i p node q =
    (node' : Node) × ((h' p ≡ some node') × ((node'.key ≡ node.key) × (node'.forward i ≡ q)))

module _ (h h' : Heap) (i : ℕ) where
  pub Chain-frame :
      (xs : Cells) (q : Ptr)
      → Chain h i q xs
      → ((r : Ptr) (k : Key)
          → Mem r k xs
          → (n : Node) → h r ≡ some n
          → KeepsAt h' i r n (n.forward i))
      → Chain h' i q xs
  Chain-frame [] q c keeps = c
  Chain-frame ((r, kr) ∷ xs) q (at, (n, (hn, (k, rest)))) keeps =
      let (n', (e, (k', f))) = keeps r kr (inl (refl, refl)) n hn.holds in
      (
        at,
        (
          n',
          (
            record { ne_null = hn.ne_null; holds = e },
            (
              k' ∙ k,
              subst (λ x. Chain h' i x xs) (sym f)
                  (Chain-frame xs (n.forward i) rest (λ s ks m. keeps s ks (inr m))),
            ),
          ),
        ),
      )

  -- The node at `u` now points to a new node at `address`, which has the key and points to `s`.
  module _ (address u s : Ptr) (key : Key) (new_node : Node) (there : Holds h' address new_node)
      (keyed : new_node.key ≡ key) (points : new_node.forward i ≡ s)
      (keeps : (p : Ptr) (n : Node)
        → h p ≡ some n
        → KeepsAt h' i p n (if p == u then address else n.forward i)) where
    keeps_other : (p : Ptr) (n : Node) → h p ≡ some n → p ≢ u → KeepsAt h' i p n (n.forward i)
    keeps_other p n e ne =
        let (n', (e', (k, f))) = keeps p n e in
        let differs : (p == u) ≡ false = ground arith in (n', (e', (k, rw differs at f)))

    keeps_front : (p : Ptr) (n : Node) → h p ≡ some n → u ≡ p → KeepsAt h' i p n address
    keeps_front p n e same =
        let (n', (e', (k, f))) = keeps p n e in
        let found : (p == u) ≡ true = ground arith in (n', (e', (k, rw found at f)))

    -- The chain behind the node at `p` takes in the new cell.
    abbrev Takes : Ptr → Node → Cells → Type 0
    Takes p n xs = (n' : Node) × (Holds h' p n' × ((n'.key ≡ n.key) × Chain h' i (n'.forward i) xs))

    new_cell :
        (p : Ptr) (n : Node) (xs : Cells)
        → Holds h p n
        → u ≡ p
        → Chain h' i s xs
        → Takes p n ((address, key) ∷ xs)
    new_cell p n xs hn same rest =
        let (n', (e, (k, f))) = keeps_front p n hn.holds same in
        (
          n',
          (
            record { ne_null = hn.ne_null; holds = e },
            (k, (f, (new_node, (there, (keyed, subst (λ x. Chain h' i x xs) (sym points) rest))))),
          ),
        )

    pub Path_from-put_cell :
        (xs : Cells) (p : Ptr) (n : Node)
        → Holds h p n
        → Chain h i (n.forward i) xs
        → Apart p xs
        → Distinct xs
        → u ≡ pred p key xs
        → s ≡ succ key xs
        → Takes p n (put_cell address key xs)
    Path_from-put_cell [] p n hn c a d hu hs =
        unfold put_cell in new_cell p n [] hn (unfold pred in hu) (unfold succ in hs)
    Path_from-put_cell ((r, kr) ∷ xs) p n hn (at, (m, (hm, (k, rest)))) a d hu hs =
        elim (Bool-cases (key_lt kr key)) [
          | inl less ↦
              let (m', (hm', (k', tail))) =
                Path_from-put_cell xs r m hm rest d.0 d.1 (hu ∙ pred_less r key kr xs p less)
                  (hs ∙ succ_less r key kr xs less) in
              let away : p ≢ u = elim (pred-Before r key xs) [
                | inl e ↦ λ q. a.0 (q ∙ hu ∙ pred_less r key kr xs p less ∙ e)
                | inr (kq, (mem, l)) ↦ λ q.
                    All-Mem _ xs (pred r key xs) kq a.1 mem (q ∙ hu ∙ pred_less r key kr xs p less)
              ] in
              let (n', (e, (kn, f))) = keeps_other p n hn.holds away in
              subst (Takes p n) (sym (put_less address key r kr xs less)) (
                n',
                (
                  record { ne_null = hn.ne_null; holds = e },
                  (kn, (f ∙ at, (m', (hm', (k' ∙ k, tail))))),
                ),
              )
          | inr ge ↦
              let here = hu ∙ pred_stop r key kr xs p ge in
              let kept : Chain h' i r ((r, kr) ∷ xs) =
                Chain-frame ((r, kr) ∷ xs) r (refl, (m, (hm, (k, rest))))
                  (λ q kq mem node e.
                    keeps_other q node e
                      (λ same. All-Mem _ ((r, kr) ∷ xs) q kq a mem (sym (same ∙ here)))) in
              subst (Takes p n) (sym (put_stop address key r kr xs ge)) (
                new_cell p n ((r, kr) ∷ xs) hn here (
                  subst (λ x. Chain h' i x ((r, kr) ∷ xs)) (sym (hs ∙ succ_stop r key kr xs ge))
                    kept))
        ]
