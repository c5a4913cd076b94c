-- ===== src/SkipList/Drain.antt =====
-- Reading all ticks in order, and clearing the list.
use mathlib.Core.Path.{subst}
use graphite_tsdb.Prelude.{
  ℕ, zero, suc, ◌+◌, ◌≤◌, ◌<◌, ◌≡◌, ◌≢◌, refl, sym, ap, ◌∙◌, arith, true, false, ◌&&◌, none, some,
  List, [], ◌∷◌, ◌==◌, leb, ltb, if◌then◌else◌, if_elim, length,
}
use graphite_tsdb.Types.{Key, Tick}
use graphite_tsdb.SkipList.{
  Ptr, Node, Heap, SkipList, max_level, write, put_array, read_forward, write_forward, iterate,
  iter, free_nodes, reset_head, clear, drain, new, head_node,
}
use graphite_tsdb.SkipList.Cells.{Cells, Mem, Apart, Distinct, All-Mem}
use graphite_tsdb.SkipList.Chain.{Holds, Chain, PathFrom, load-Holds, read_forward-Holds}
use graphite_tsdb.SkipList.Frames.{Chain-frame}
use graphite_tsdb.SkipList.Contents.{Contents}
use graphite_tsdb.SkipList.Refinement.{IsSkipList}

-- A fresh list holds nothing.
pub new-IsSkipList : IsSkipList new []
unfolding new
new-IsSkipList = record {
  cells = λ i. [];
  levels = record {
    path = λ i b. (head_node, (record { ne_null = omega arith; holds = refl }, refl));
    sorted = λ i. tt;
    below = λ i r k m. m;
    count = λ i. omega arith;
  };
  contents = tt;
  counted = refl;
  distinct = λ i. tt;
  apart = λ i. tt;
  bound = omega arith;
  unused = λ i b. refl;
}

module _ (h : Heap) where
  iterate-Contents :
      (xs : Cells) (ts : List Tick) (q : Ptr) (fuel : ℕ)
      → Chain h 0 q xs
      → Contents h xs ts
      → length xs < fuel
      → iterate fuel h q ≡ some ts
  unfolding iterate
  iterate-Contents xs ts q zero c k b = absurd (omega arith)
  iterate-Contents [] [] q (suc fuel) c k b = rw c refl
  iterate-Contents [] (t ∷ ts) q (suc fuel) c k b = elim k [ ]
  iterate-Contents (x ∷ xs) [] q (suc fuel) c k b = elim k [ ]
  iterate-Contents ((r, kr) ∷ xs) (t ∷ ts) q (suc fuel) (at, (n, (hn, (kn, rest))))
        (m, (hm, (km, (tm, (kt, tail))))) b =
      let ne = hn.ne_null in
      let not_null : (r == 0) ≡ false = ground arith in
      let found = hn.holds in
      let again = hm.holds in
      let this : m ≡ n = ground arith in
      let more = iterate-Contents xs ts (n.forward 0) fuel rest tail (omega arith) in
      rw (at, not_null, found) (rw (more, ap (λ (x : Node). x.tick) (sym this) ∙ tm) refl)

-- The heap without the nodes of the cells.
abbrev FreesCells : Heap → Cells → Heap → Type 0
FreesCells h xs h' = (p : Ptr) → Apart p xs → h' p ≡ h p

free_nodes-Chain :
    (xs : Cells) (h : Heap) (q : Ptr) (fuel : ℕ)
    → Chain h 0 q xs
    → Distinct xs
    → length xs < fuel
    → (h' : Heap) × ((free_nodes fuel h q ≡ some h') × FreesCells h xs h')
unfolding free_nodes
free_nodes-Chain xs h q zero c d b = absurd (omega arith)
free_nodes-Chain [] h q (suc fuel) c d b = (h, (rw c refl, λ p a. refl))
free_nodes-Chain ((r, kr) ∷ xs) h q (suc fuel) (at, (n, (hn, (kn, rest)))) d b =
    let ne = hn.ne_null in
    let not_null : (r == 0) ≡ false = ground arith in
    let tail : Chain (write h r none) 0 (n.forward 0) xs =
      Chain-frame h (write h r none) 0 xs (n.forward 0) rest (λ s ks m node e.
        let other : s ≢ r = away s ks m in (node, (ground arith, (refl, refl)))) in
    let (h', (run, frees)) =
      free_nodes-Chain xs (write h r none) (n.forward 0) fuel tail d.1 (omega arith) in
    (
      h',
      (
        rw (at, not_null, hn.holds)
            (ap (λ x. free_nodes fuel (write h x none) (n.forward 0)) at ∙ run),
        λ p a. let other = a.0 in frees p a.1 ∙ ground arith,
      ),
    )
  where
    away : (s : Ptr) (ks : Key) → Mem s ks xs → s ≢ r
    away s ks m same = All-Mem _ xs s ks d.0 m (sym same)

-- The head after the loop that resets `n` of its pointers from level `i` on.
reset_head_lem :
    (head : Ptr) (n i : ℕ) (h : Heap) (node : Node)
    → i + n ≤ suc max_level
    → Holds h head node
    → (h' : Heap) × ((reset_head head n i h ≡ some h')
        × ((node' : Node) × (Holds h' head node'
              × ((j : ℕ)
                  → node'.forward j ≡ (if leb i j && ltb j (i + n) then 0 else node.forward j)))))
unfolding reset_head
reset_head_lem head zero i h node b hn = (h, (refl, (node, (hn, λ j. ground arith))))
reset_head_lem head (suc n) i h node b hn =
    let cut : Node = record node { forward = put_array node.forward i 0 } in
    let small : leb i max_level ≡ true = ground arith in
    let found = load-Holds hn in
    let step : write_forward h head i 0 ≡ some (write h head (some cut)) =
      unfold write_forward in rw (found, small) refl in
    let (h', (run, (node', (hn', f)))) =
      reset_head_lem head n (i + 1) (write h head (some cut)) cut (omega arith)
        (record { ne_null = hn.ne_null; holds = ground arith }) in
    (h', (rw step run, (node', (hn', λ j. f j ∙ ground arith))))

module _ (sl : SkipList) (ts : List Tick) (inv : IsSkipList sl ts) where
  fuel_enough : length (inv.cells 0) < suc sl.len
  fuel_enough = omega (arith, inv.levels.count 0)

  first_lem :
      (q : Ptr) × ((read_forward sl.heap sl.head 0 ≡ some q) × Chain sl.heap 0 q (inv.cells 0))
  first_lem =
      let (n, (hn, c)) = inv.levels.path 0 (omega arith) in
      (n.forward 0, (read_forward-Holds hn 0 (omega arith), c))

  -- `iter` returns the ticks.
  pub iter_lem : iter sl ≡ some ts
  unfolding iter
  iter_lem =
      let (q, (e, c)) = first_lem in
      rw e (iterate-Contents sl.heap (inv.cells 0) ts q (suc sl.len) c inv.contents fuel_enough)

  -- Above the level of the list the head points nowhere.
  head_null :
      (n : Node)
      → Holds sl.heap sl.head n
      → (i : ℕ) → i ≤ max_level
      → (if leb 0 i && ltb i (0 + (sl.level + 1)) then 0 else n.forward i) ≡ 0
  head_null n hn i b =
      if_elim (λ x. x ≡ 0) (leb 0 i && ltb i (0 + (sl.level + 1))) _ _ (λ low. refl)
        (λ high.
          let beyond : sl.level < i = ground arith in
          let (m, (hm, end)) =
            subst (PathFrom sl.heap i sl.head) (inv.unused i beyond) (inv.levels.path i b) in
          let one = hn.holds in
          let two = hm.holds in
          let this : n ≡ m = ground arith in ap (λ (x : Node). x.forward i) this ∙ end)

  clear_lem : (sl' : SkipList) × ((clear sl ≡ some sl') × IsSkipList sl' [])
  unfolding clear
  clear_lem =
      let (q, (e, c)) = first_lem in
      let (g, (freed, keeps)) =
        free_nodes-Chain (inv.cells 0) sl.heap q (suc sl.len) c (inv.distinct 0) fuel_enough in
      let (n, (hn, ch)) = inv.levels.path 0 (omega arith) in
      let hg : Holds g sl.head n = record {
        ne_null = hn.ne_null;
        holds = keeps sl.head (inv.apart 0) ∙ hn.holds;
      } in
      let (h', (reset, (n', (hn', f)))) =
        reset_head_lem sl.head (sl.level + 1) 0 g n (omega (arith, inv.bound)) hg in
      (
        record { heap = h'; head = sl.head; level = 0; len = 0 },
        (
          rw (e, freed, reset) refl,
          record {
            cells = λ i. [];
            levels = record {
              path = λ i b. (n', (hn', f i ∙ head_null n hn i b));
              sorted = λ i. tt;
              below = λ i r k m. m;
              count = λ i. omega arith;
            };
            contents = tt;
            counted = refl;
            distinct = λ i. tt;
            apart = λ i. tt;
            bound = omega arith;
            unused = λ i b. refl;
          },
        ),
      )

  -- Draining a skip list returns its ticks in the order of their keys and leaves it empty.
  pub drain_lem : (sl' : SkipList) × ((drain sl ≡ some (ts, sl')) × IsSkipList sl' [])
  unfolding drain
  drain_lem = let (sl', (e, empty)) = clear_lem in (sl', (rw (iter_lem, e) refl, empty))
