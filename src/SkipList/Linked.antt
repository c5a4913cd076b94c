-- ===== src/SkipList/Linked.antt =====
-- The levels after a new node was linked into the lowest of them.
use mathlib.Core.Path.{subst}
use graphite_tsdb.Prelude.{
  ℕ, zero, suc, ◌≤◌, ◌≡◌, refl, sym, ◌∙◌, arith, true, false, Bool-cases, inl, inr, none, some, [],
  ◌∷◌, ◌==◌, leb, if◌then◌else◌, if_elim, length,
}
use graphite_tsdb.Types.{Key}
use graphite_tsdb.SkipList.{Ptr, Pointers, Node, Heap, max_level}
use graphite_tsdb.SkipList.Cells.{
  Cells, pred, succ, put_cell, Mem, Apart, Distinct, Sorted, Absent, All-Mem, All_of_Mem,
  put_cell-Sorted, put_cell-Mem, put_cell-Mem_self, Mem-put_cell, length-put_cell,
}
use graphite_tsdb.SkipList.Chain.{Holds, Chain, PathFrom}
use graphite_tsdb.SkipList.Search.{Levels}
use graphite_tsdb.SkipList.Link.{inside, Relinked}
use graphite_tsdb.SkipList.Frames.{KeepsAt, Chain-frame, Path_from-put_cell}

module _ (h : Heap) where
  -- An address without a node is in no chain.
  pub Chain-Apart :
      (i : ℕ) (xs : Cells) (q address : Ptr) → h address ≡ none → Chain h i q xs → Apart address xs
  Chain-Apart i [] q address e c = tt
  Chain-Apart i ((r, kr) ∷ xs) q address e (at, (n, (hn, (k, rest)))) =
      (λ same. fresh r same hn.holds, Chain-Apart i xs (n.forward i) address e rest)
    where
      fresh : (r : Ptr) → address ≡ r → h r ≡ some n → ⊥
      fresh r same found = ground arith

module _ (h : Heap) (head : Ptr) (len : ℕ) (cells : ℕ → Cells) (lv : Levels h head len cells)
    (key : Key) (address : Ptr) (free : h address ≡ none) (absent : Absent key (cells 0))
    (lvl : ℕ) where
  -- The cells of each level with the new node.
  abbrev pub linked_cells : ℕ → Cells
  linked_cells j = if leb j lvl then put_cell address key (cells j) else cells j

  pub in_lowest : (i : ℕ) (r : Ptr) (k : Key) → Mem r k (cells i) → Mem r k (cells 0)
  in_lowest zero r k m = m
  in_lowest (suc i) r k m = in_lowest i r k (lv.below i r k m)

  Absent-at : (i : ℕ) → Absent key (cells i)
  Absent-at i = All_of_Mem _ (cells i) (λ r k m. All-Mem _ (cells 0) r k absent (in_lowest i r k m))

  pub linked-Sorted : (i : ℕ) → Sorted (linked_cells i)
  linked-Sorted i =
      if_elim Sorted (leb i lvl) _ _
        (λ low. put_cell-Sorted address key (cells i) (Absent-at i) (lv.sorted i))
        (λ high. lv.sorted i)

  pub linked_below :
      (i : ℕ) (r : Ptr) (k : Key) → Mem r k (linked_cells (suc i)) → Mem r k (linked_cells i)
  linked_below i r k m =
      if_elim (Mem r k) (leb i lvl) _ _
        (λ low. elim (Bool-cases (leb (suc i) lvl)) [
          | inl both ↦ elim (Mem-put_cell address key (cells (suc i)) r k (rw both at m)) [
            | inl (e, d) ↦
                subst (λ x. Mem x k (put_cell address key (cells i))) (sym e)
                  (subst (λ x. Mem address x (put_cell address key (cells i))) (sym d)
                    (put_cell-Mem_self address key (cells i)))
            | inr old ↦ put_cell-Mem address key (cells i) r k (lv.below i r k old)
          ]
          | inr one ↦ put_cell-Mem address key (cells i) r k (lv.below i r k (rw one at m))
        ])
        (λ high.
          let above : leb (suc i) lvl ≡ false = ground arith in lv.below i r k (rw above at m))

  pub linked_count : (i : ℕ) → length (linked_cells i) ≤ suc len
  linked_count i =
      if_elim (λ xs. length xs ≤ suc len) (leb i lvl) _ _
        (λ low. omega (arith, lv.count i, length-put_cell address key (cells i)))
        (λ high. omega (arith, lv.count i))

  -- The heap after the linking: `update` are the predecessors, and the new node is there.
  module _ (h0 h' : Heap) (update : Pointers) (new_node : Node) (small : lvl ≤ max_level)
      (marked : (j : ℕ) → j ≤ lvl → update j ≡ pred head key (cells j))
      (same : (p : Ptr) (n : Node) → h p ≡ some n → h0 p ≡ some n)
      (there : Holds h0 address new_node) (keyed : new_node.key ≡ key)
      (rel : Relinked update address (λ j. succ key (cells j)) 0 (suc lvl) h0 h') where
    pub old_node :
        (p : Ptr) (n : Node)
        → h p ≡ some n
        → (n' : Node) × ((h' p ≡ some n')
            × ((n'.key ≡ n.key)
                × ((n'.tick ≡ n.tick)
                    × ((j : ℕ)
                        → n'.forward j ≡ (
                            if leb j lvl
                            then (if p == pred head key (cells j) then address else n.forward j)
                            else n.forward j)))))
    old_node p n e =
        let (n', (e', (k, (t, f)))) = rel p n (same p n e) in
        let other : (p == address) ≡ false = differs e in
        (n', (e', (k, (t, λ j. f j ∙ pointer j other))))
      where
        differs : h p ≡ some n → (p == address) ≡ false
        differs e = ground arith

        pointer :
            (j : ℕ)
            → (p == address) ≡ false
            → (if inside 0 (suc lvl) j
                then (if p == address
                    then succ key (cells j)
                    else if p == update j
                    then address
                    else n.forward j)
                else n.forward j)
              ≡ (if leb j lvl
                  then (if p == pred head key (cells j) then address else n.forward j)
                  else n.forward j)
        pointer j other = let m = marked j in ground arith

    pub linked_path :
        (i : ℕ)
        → i ≤ max_level
        → Apart head (cells i)
        → Distinct (cells i)
        → PathFrom h' i head (linked_cells i)
    linked_path i b a d =
        let (n, (hn, c)) = lv.path i b in
        let (new', (e', (k', (t', f')))) = rel address new_node there.holds in
        if_elim (PathFrom h' i head) (leb i lvl) _ _
          (λ low.
            let keeps : (p : Ptr) (m : Node)
                → h p ≡ some m
                → KeepsAt h' i p m (if p == pred head key (cells i) then address else m.forward i) =
              λ p m e.
                let (m', (em, (km, (tm, fm)))) = old_node p m e in
                (m', (em, (km, rw low at (fm i)))) in
            let points : new'.forward i ≡ succ key (cells i) = new_pointer i low (f' i) in
            let (n', (hn', (kn, c'))) =
              Path_from-put_cell h h' i address (pred head key (cells i)) (succ key (cells i)) key
                new' (record { ne_null = there.ne_null; holds = e' }) (k' ∙ keyed) points keeps
                (cells i) head n hn c a d refl refl in
            (n', (hn', c')))
          (λ high.
            let (n', (en, (kn, (tn, fn)))) = old_node head n hn.holds in
            let kept : n'.forward i ≡ n.forward i = rw high at (fn i) in
            (
              n',
              (
                record { ne_null = hn.ne_null; holds = en },
                subst (λ x. Chain h' i x (cells i)) (sym kept)
                    (Chain-frame h h' i (cells i) (n.forward i) c (λ r k m node e.
                      let (m', (em, (km, (tm, fm)))) = old_node r node e in
                      (m', (em, (km, rw high at (fm i)))))),
              ),
            ))
      where
        new_pointer :
            {x : Ptr} (i : ℕ)
            → leb i lvl ≡ true
            → x ≡ (
                if inside 0 (suc lvl) i
                then (if address == address
                    then succ key (cells i)
                    else if address == update i
                    then address
                    else new_node.forward i)
                else new_node.forward i)
            → x ≡ succ key (cells i)
        new_pointer i low f = ground arith
