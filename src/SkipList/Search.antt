-- ===== src/SkipList/Search.antt =====
-- The loops over the levels: the predecessors of a key at each level.
use mathlib.Core.Path.{subst}
use graphite_tsdb.Prelude.{
  ℕ, zero, suc, ◌≤◌, ◌≡◌, refl, sym, ap, ◌∙◌, inl, inr, arith, some, length, ltb, if◌then◌else◌,
}
use graphite_tsdb.Types.{Key}
use graphite_tsdb.SkipList.{Ptr, Pointers, Heap, max_level, put_array, walk, search, descend}
use graphite_tsdb.SkipList.Cells.{Cells, pred, Mem, Sorted, Before, pred-Before}
use graphite_tsdb.SkipList.Chain.{PathFrom, walk_lem, Path_from-suffix}

-- The levels of a heap from `head` on: chains in the order of the keys, in which each cell is also
-- a cell of the level below, with at most `n` cells.
pub record Levels (h : Heap) (head : Ptr) (n : ℕ) (cells : ℕ → Cells) : Type 0 where
  pub path : (i : ℕ) → i ≤ max_level → PathFrom h i head (cells i)
  pub sorted : (i : ℕ) → Sorted (cells i)
  pub below : (i : ℕ) (r : Ptr) (k : Key) → Mem r k (cells (suc i)) → Mem r k (cells i)
  pub count : (i : ℕ) → length (cells i) ≤ n

module _ {h : Heap} {head : Ptr} {n : ℕ} {cells : ℕ → Cells} (lv : Levels h head n cells)
    (key : Key) where
  -- A walk at level `i` from the head or from a cell with a smaller key.
  walk-Before :
      (i : ℕ) (p : Ptr)
      → i ≤ max_level
      → Before head key (cells i) p
      → walk (suc n) h key i p ≡ some (pred head key (cells i))
  walk-Before i p b (inl e) =
      subst (λ x. walk (suc n) h key i x ≡ some (pred head key (cells i))) (sym e)
        (walk_lem h key i b (cells i) (suc n) head (lv.path i b) (omega (arith, lv.count i)))
  walk-Before i p b (inr (kq, (m, l))) =
      let (rest, (path, (same, short))) =
        Path_from-suffix h key i b (cells i) head p kq (lv.path i b) (lv.sorted i) m l in
      walk_lem h key i b rest (suc n) p path (omega (arith, lv.count i)) ∙ ap some same

  descent : (i : ℕ) → Before head key (cells i) (pred head key (cells (suc i)))
  descent i = elim (pred-Before head key (cells (suc i))) [
    | inl e ↦ inl e
    | inr (kq, (m, l)) ↦ inr (kq, (lv.below i _ kq m, l))
  ]

  -- What the search of `n` levels leaves in the array of predecessors.
  abbrev pub marks : ℕ → Pointers → Pointers
  marks zero update = update
  marks (suc i) update = marks i (put_array update i (pred head key (cells i)))

  pub search_lem :
      (i : ℕ) (p : Ptr) (update : Pointers)
      → i ≤ max_level
      → Before head key (cells i) p
      → search (suc n) h key (suc i) p update ≡ some (pred head key (cells 0), marks (suc i) update)
  unfolding search
  search_lem zero p update b at = rw (walk-Before 0 p b at, search) refl
  search_lem (suc i) p update b at =
      rw (walk-Before (suc i) p b at, search) (search_lem i _ _ (omega arith) (descent i))

  pub descend_lem :
      (i : ℕ) (p : Ptr)
      → i ≤ max_level
      → Before head key (cells i) p
      → descend (suc n) h key (suc i) p ≡ some (pred head key (cells 0))
  unfolding descend
  descend_lem zero p b at = rw (walk-Before 0 p b at, descend) refl
  descend_lem (suc i) p b at =
      rw (walk-Before (suc i) p b at, descend) (descend_lem i _ (omega arith) (descent i))

  pub marks_lem :
      (i j : ℕ) (update : Pointers)
      → marks i update j ≡ (if ltb j i then pred head key (cells j) else update j)
  marks_lem zero j update = ground arith
  marks_lem (suc i) j update = marks_lem i j _ ∙ ground arith
