-- ===== src/SkipList/Chain.antt =====
-- Chains of pointers in the heap, and the walks along them.
use mathlib.Core.Path.{subst}
use graphite_tsdb.Prelude.{
  ℕ, zero, suc, ◌≤◌, ◌<◌, ◌≡◌, ◌≢◌, refl, sym, ap, ◌∙◌, inl, inr, arith, true, false, Bool-cases,
  some, [], ◌∷◌, length, ◌==◌,
}
use graphite_tsdb.Types.{Key}
use graphite_tsdb.SkipList.{Ptr, Node, Heap, max_level, key_lt, load, read_forward, walk}
use graphite_tsdb.SkipList.Cells.{
  Cells, pred, succ, pred_less, pred_stop, succ_less, succ_stop, Mem, Sorted, All-Mem, key_lt_trans,
}

-- The node at an address that is not null.
pub record Holds (h : Heap) (p : Ptr) (n : Node) : Type 0 where
  pub ne_null : p ≢ 0
  pub holds : h p ≡ some n

module _ (h : Heap) where
  -- At level `i` the pointer `q` leads through the cells to null.
  abbrev pub Chain : ℕ → Ptr → Cells → Type 0
  Chain i q [] = q ≡ 0
  Chain i q ((r, kr) ∷ xs) =
      (q ≡ r) × ((n : Node) × (Holds h r n × ((n.key ≡ kr) × Chain i (n.forward i) xs)))

  -- At level `i` the node at `p` is followed by the cells.
  abbrev pub PathFrom : ℕ → Ptr → Cells → Type 0
  PathFrom i p xs = (n : Node) × (Holds h p n × Chain i (n.forward i) xs)

module _ {h : Heap} {p : Ptr} {n : Node} (e : Holds h p n) where
  pub load-Holds : load h p ≡ some n
  unfolding load
  load-Holds = let ne = e.ne_null in let c = e.holds in ground arith

  pub read_forward-Holds : (i : ℕ) → i ≤ max_level → read_forward h p i ≡ some (n.forward i)
  unfolding read_forward
  read_forward-Holds i b = rw load-Holds (ground arith)

pub pred_nil : (p : Ptr) (k : Key) → p ≡ pred p k []
unfolding pred
pred_nil p k = refl

ne_zero : (r : Ptr) → r ≢ 0 → (r == 0) ≡ false
ne_zero r h = ground arith

module _ (h : Heap) (key : Key) (i : ℕ) (bound : i ≤ max_level) where
  -- The walk ends at the predecessor, with fuel for the cells and one.
  pub walk_lem :
      (xs : Cells) (fuel : ℕ) (p : Ptr)
      → PathFrom h i p xs
      → length xs < fuel
      → walk fuel h key i p ≡ some (pred p key xs)
  unfolding walk
  walk_lem xs zero p path enough = absurd (omega arith)
  walk_lem [] (suc fuel) p (n, (e, end)) enough =
      rw (walk, read_forward-Holds e i bound, walk, end) (ap some (pred_nil p key))
  walk_lem ((r, kr) ∷ xs) (suc fuel) p (n, (e, (at, (m, (hm, (k, rest)))))) enough =
      elim (Bool-cases (key_lt kr key)) [
        | inl less ↦
            rw
              (
                walk,
                read_forward-Holds e i bound,
                walk,
                at,
                ne_zero r hm.ne_null,
                hm.holds,
                walk,
                k,
                less,
              )
              (ap (walk fuel h key i) at
                ∙ walk_lem xs fuel r (m, (hm, rest)) (omega arith)
                ∙ ap some (sym (pred_less r key kr xs p less)))
        | inr ge ↦
            rw
              (
                walk,
                read_forward-Holds e i bound,
                walk,
                at,
                ne_zero r hm.ne_null,
                hm.holds,
                walk,
                k,
                ge,
              )
              (ap some (sym (pred_stop r key kr xs p ge)))
      ]

  -- What follows the predecessor.
  pub Path_from-pred :
      (xs : Cells) (p : Ptr)
      → PathFrom h i p xs
      → (n : Node) × (Holds h (pred p key xs) n × (n.forward i ≡ succ key xs))
  Path_from-pred [] p (n, (e, end)) = unfold pred in unfold succ in (n, (e, end))
  Path_from-pred ((r, kr) ∷ xs) p (n, (e, (at, (m, (hm, (k, rest)))))) =
      elim (Bool-cases (key_lt kr key)) [
        | inl less ↦
            rw (pred_less r key kr xs p less, succ_less r key kr xs less)
              (Path_from-pred xs r (m, (hm, rest)))
        | inr ge ↦ rw (pred_stop r key kr xs p ge, succ_stop r key kr xs ge) (n, (e, at))
      ]

  -- From a cell with a smaller key on, a path leads to the same predecessor.
  pub Path_from-suffix :
      (xs : Cells) (p q : Ptr) (kq : Key)
      → PathFrom h i p xs
      → Sorted xs
      → Mem q kq xs
      → key_lt kq key ≡ true
      → (rest : Cells) × (PathFrom h i q rest
          × ((pred q key rest ≡ pred p key xs) × (length rest ≤ length xs)))
  Path_from-suffix [] p q kq path s m l = elim m [ ]
  Path_from-suffix ((r, kr) ∷ xs) p q kq (n, (e, (at, (m, (hm, (k, rest)))))) s (inl (same, d)) l =
      let less : key_lt kr key ≡ true = rw (← d) l in
      subst
        (λ x.
          (rest : Cells) × (PathFrom h i x rest
            × ((pred x key rest ≡ pred p key ((r, kr) ∷ xs)) × (length rest ≤ suc (length xs)))))
        (sym same) (xs, ((m, (hm, rest)), (sym (pred_less r key kr xs p less), omega arith)))
  Path_from-suffix ((r, kr) ∷ xs) p q kq (n, (e, (at, (m, (hm, (k, rest)))))) s (inr mem) l =
      let smaller : key_lt kr kq ≡ true = All-Mem _ xs q kq s.0 mem in
      let less : key_lt kr key ≡ true = key_lt_trans kr kq key smaller l in
      let (tail, (path, (same, short))) = Path_from-suffix xs r q kq (m, (hm, rest)) s.1 mem l in
      (tail, (path, (same ∙ sym (pred_less r key kr xs p less), omega arith)))
