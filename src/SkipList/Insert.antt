-- ===== src/SkipList/Insert.antt =====
-- `insert` of the skip list is `put` of the abstract memtable.
use mathlib.Core.Path.{subst}
use graphite_tsdb.Prelude.{
  ℕ, suc, ◌+◌, ◌-◌, ◌≤◌, ◌<◌, ◌≡◌, ◌≢◌, refl, sym, ap, ◌∙◌, arith, Bool, true, false, ◌&&◌, inl,
  inr, none, some, List, [], ◌∷◌, leb, ltb, if◌then◌else◌, if_elim, leb→le, length,
}
use graphite_tsdb.Types.{Key, Tick, key_of}
use graphite_tsdb.SkipList.{
  Ptr, Node, Heap, SkipList, max_level, null_pointers, random_level, Pointers, write, raise,
  find_key, search, insert,
}
use graphite_tsdb.SkipList.Cells.{
  Cells, pred, succ, put_cell, Mem, Apart, Distinct, Absent, All-put_cell, put_cell-Distinct,
  length-put_cell,
}
use graphite_tsdb.SkipList.Chain.{pred_nil, Holds, Chain, PathFrom, Path_from-pred}
use graphite_tsdb.SkipList.Search.{search_lem, marks, marks_lem}
use graphite_tsdb.SkipList.Link.{inside, raise_lem, link_lem, Ready, Relinked}
use graphite_tsdb.SkipList.Linked.{
  linked_cells, linked_path, linked-Sorted, linked_below, linked_count, Chain-Apart,
}
use graphite_tsdb.SkipList.Frames.{Chain-frame}
use graphite_tsdb.SkipList.Contents.{
  Contents, length-Contents, find_key_lem, Contents-frame, Contents-put_cell,
}
use graphite_tsdb.SkipList.Spec.{put}
use graphite_tsdb.SkipList.Overwrite.{overwritten, overwritten-KeepsAt, Contents-overwritten}
use graphite_tsdb.SkipList.Refinement.{IsSkipList, next_lem}

random_level-le :
    (lvl : ℕ) (draws : List Bool) → lvl ≤ max_level → random_level lvl draws ≤ max_level
unfolding random_level
random_level-le lvl [] b = b
random_level-le lvl (draw ∷ draws) b =
    if_elim (λ m. m ≤ max_level) (draw && ltb lvl max_level) _ _
      (λ go. random_level-le (lvl + 1) draws (below draw go)) (λ stop. b)
  where
    below : (draw : Bool) → (draw && ltb lvl max_level) ≡ true → lvl + 1 ≤ max_level
    below draw go = ground arith

module _ (sl : SkipList) (ts : List Tick) (inv : IsSkipList sl ts) (tick : Tick) where
  abbrev key : Key
  key = key_of tick

  search_front :
      search (suc sl.len) sl.heap key (sl.level + 1) sl.head null_pointers
      ≡ some (pred sl.head key (inv.cells 0), marks inv.levels key (suc sl.level) null_pointers)
  search_front =
      ap (λ m. search (suc sl.len) sl.heap key m sl.head null_pointers) {x = sl.level + 1}
        {y = suc sl.level} (omega arith)
      ∙ search_lem inv.levels key sl.level sl.head null_pointers inv.bound (inl refl)

  -- The key is there: its tick is written over.
  module _ (n : Node) (hn : Holds sl.heap (succ key (inv.cells 0)) n)
      (mem : Mem (succ key (inv.cells 0)) key (inv.cells 0)) where
    abbrev replaced : SkipList
    replaced = record sl { heap = overwritten sl.heap (succ key (inv.cells 0)) n hn tick }

    replaced-IsSkipList : IsSkipList replaced (put tick ts)
    replaced-IsSkipList =
        let u = succ key (inv.cells 0) in
        let c =
          Contents-overwritten sl.heap u n hn tick (inv.cells 0) ts inv.contents (inv.distinct 0)
            refl mem in
        record {
          cells = inv.cells;
          levels = record {
            path = λ i b. path_of i (inv.levels.path i b);
            sorted = inv.levels.sorted;
            below = inv.levels.below;
            count = inv.levels.count;
          };
          contents = c;
          counted =
              inv.counted
              ∙ sym (length-Contents sl.heap (inv.cells 0) ts inv.contents)
              ∙ length-Contents replaced.heap (inv.cells 0) (put tick ts) c;
          distinct = inv.distinct;
          apart = inv.apart;
          bound = inv.bound;
          unused = inv.unused;
        }
      where
        path_of :
            (i : ℕ)
            → PathFrom sl.heap i sl.head (inv.cells i)
            → PathFrom replaced.heap i sl.head (inv.cells i)
        path_of i (m, (hm, c)) =
            let u = succ key (inv.cells 0) in
            let keeps = overwritten-KeepsAt sl.heap u n hn tick i in
            let (m', (e, (k, f))) = keeps sl.head m hm.holds in
            (
              m',
              (
                record { ne_null = hm.ne_null; holds = e },
                subst (λ x. Chain replaced.heap i x (inv.cells i)) (sym f)
                    (Chain-frame sl.heap replaced.heap i (inv.cells i) (m.forward i) c
                      (λ r kr mr node er. keeps r node er)),
              ),
            )

  module _ (address : Ptr) (draws : List Bool) (free : sl.heap address ≡ none)
      (usable : address ≢ 0) (absent : Absent key (inv.cells 0)) where
    abbrev lvl : ℕ
    lvl = random_level 0 draws

    abbrev new_node : Node
    new_node = record { key = key; tick = tick; forward = null_pointers }

    abbrev heap0 : Heap
    heap0 = write sl.heap address (some new_node)

    abbrev update : Pointers
    update =
        raise sl.head (lvl - sl.level) (sl.level + 1)
          (marks inv.levels key (suc sl.level) null_pointers)

    update_lem : (j : ℕ) → j ≤ lvl → update j ≡ pred sl.head key (inv.cells j)
    update_lem j b =
        raise_lem sl.head (lvl - sl.level) (sl.level + 1) j _
        ∙ if_elim (λ x. x ≡ pred sl.head key (inv.cells j))
            (inside (sl.level + 1) (lvl - sl.level) j) _ _
            (λ above.
              let beyond : sl.level < j = ground arith in
              pred_nil sl.head key ∙ ap (pred sl.head key) (sym (inv.unused j beyond)))
            (λ low.
              let searched : ltb j (suc sl.level) ≡ true = ground arith in
              marks_lem inv.levels key (suc sl.level) j null_pointers ∙ rw searched refl)

    abbrev next : ℕ → Ptr
    next j = succ key (inv.cells j)

    heap0_old : (p : Ptr) (n : Node) → sl.heap p ≡ some n → heap0 p ≡ some n
    heap0_old p n e = ground arith

    taken : (p : Ptr) (n : Node) → sl.heap p ≡ some n → p ≢ address
    taken p n found same = ground arith

    ready : Ready update address next 0 (suc lvl) heap0
    ready j lo hi =
        let (n, (hn, f)) =
          Path_from-pred sl.heap key j (omega (arith, random_level-le 0 draws (omega arith)))
            (inv.cells j) sl.head
            (inv.levels.path j (omega (arith, random_level-le 0 draws (omega arith)))) in
        let e = update_lem j (omega arith) in
        let found = hn.holds in
        let other : pred sl.head key (inv.cells j) ≢ address = taken _ n found in
        (
          λ q. other (sym e ∙ q),
          (
            n,
            (
              subst (λ x. Holds heap0 x n) (sym e)
                  (record { ne_null = hn.ne_null; holds = heap0_old _ n found }),
              f,
            ),
          ),
        )

    there : Holds heap0 address new_node
    there = record { ne_null = usable; holds = ground arith }

    abbrev level' : ℕ
    level' = if ltb sl.level lvl then lvl else sl.level

    module _ (h' : Heap) (rel : Relinked update address next 0 (suc lvl) heap0 h') where
      abbrev grown : SkipList
      grown = record { heap = h'; head = sl.head; level = level'; len = sl.len + 1 }

      abbrev cells' : ℕ → Cells
      cells' = linked_cells sl.heap sl.head sl.len inv.cells inv.levels key address free absent lvl

      lowest : cells' 0 ≡ put_cell address key (inv.cells 0)
      lowest = let low : leb 0 lvl ≡ true = ground arith in rw low refl

      grown-Contents : Contents h' (cells' 0) (put tick ts)
      grown-Contents =
          let (n', (e, (k, (t, f)))) = rel address new_node there.holds in
          let kept : Contents h' (inv.cells 0) ts =
            Contents-frame sl.heap h' (inv.cells 0) ts inv.contents (λ r kr m n er.
              let (m', (em, (km, (tm, fm)))) = rel r n (heap0_old r n er) in
              (m', (em, (km, tm)))) in
          subst (λ xs. Contents h' xs (put tick ts)) (sym lowest)
            (Contents-put_cell h' address tick n' (record { ne_null = usable; holds = e }) k t
              (inv.cells 0) ts kept absent)

      head_apart : sl.head ≢ address
      head_apart = let (n, (hn, c)) = inv.levels.path 0 (omega arith) in taken sl.head n hn.holds

      grown_count : sl.len + 1 ≡ length (put tick ts)
      grown_count = omega (
        arith,
        inv.counted,
        length-Contents sl.heap (inv.cells 0) ts inv.contents,
        length-Contents h' (cells' 0) (put tick ts) grown-Contents,
        ap length lowest,
        length-put_cell address key (inv.cells 0),
      )

      linked_count_le : (i : ℕ) → length (cells' i) ≤ sl.len + 1
      linked_count_le i = omega (
        arith,
        linked_count sl.heap sl.head sl.len inv.cells inv.levels key address free absent lvl i,
      )

      grown-Distinct : (i : ℕ) → Distinct (cells' i)
      grown-Distinct i =
          if_elim Distinct (leb i lvl) _ _
            (λ low.
              let b : i ≤ max_level =
                omega (arith, random_level-le 0 draws (omega arith), leb→le i lvl low) in
              let (n, (hn, c)) = inv.levels.path i b in
              put_cell-Distinct address key (inv.cells i)
                (Chain-Apart sl.heap i (inv.cells i) (n.forward i) address free c) (inv.distinct i))
            (λ high. inv.distinct i)

      grown_unused : (i : ℕ) → level' < i → cells' i ≡ []
      grown_unused i b =
          let high : leb i lvl ≡ false = ground arith in
          let beyond : sl.level < i = ground arith in rw high (inv.unused i beyond)

      grown-IsSkipList : IsSkipList grown (put tick ts)
      grown-IsSkipList = record {
        cells = cells';
        levels = record {
          path = λ i b.
              linked_path sl.heap sl.head sl.len inv.cells inv.levels key address free absent lvl
                heap0 h' update new_node (random_level-le 0 draws (omega arith)) update_lem
                heap0_old there refl rel i b (inv.apart i) (inv.distinct i);
          sorted =
              linked-Sorted sl.heap sl.head sl.len inv.cells inv.levels key address free absent lvl;
          below =
              linked_below sl.heap sl.head sl.len inv.cells inv.levels key address free absent lvl;
          count = λ i. linked_count_le i;
        };
        contents = grown-Contents;
        counted = grown_count;
        distinct = grown-Distinct;
        apart = λ i.
            if_elim (Apart sl.head) (leb i lvl) _ _
              (λ low.
                All-put_cell (λ (x : Ptr × Key). sl.head ≢ x.0) address key (inv.cells i) head_apart
                  (inv.apart i))
              (λ high. inv.apart i);
        bound =
            if_elim (λ m. m ≤ max_level) (ltb sl.level lvl) _ _
              (λ more. random_level-le 0 draws (omega arith)) (λ less. inv.bound);
        unused = grown_unused;
      }

  insert-Absent :
      (address : Ptr) (draws : List Bool)
      → sl.heap address ≡ none
      → address ≢ 0
      → Absent key (inv.cells 0)
      → find_key sl.heap (succ key (inv.cells 0)) key ≡ some none
      → (sl' : SkipList) × ((insert sl address draws tick ≡ some sl')
          × IsSkipList sl' (put tick ts))
  unfolding insert
  insert-Absent address draws free usable absent missing =
      let lvl' = random_level 0 draws in
      let run =
        link_lem (update address draws free usable absent) address
          (next address draws free usable absent) (suc lvl') 0
          (heap0 address draws free usable absent) (new_node address draws free usable absent)
          (omega (arith, random_level-le 0 draws (omega arith)))
          (there address draws free usable absent) (ready address draws free usable absent) in
      let (h', (e, rel)) = run in
      (
        grown address draws free usable absent h' rel,
        (
          let one : lvl' + 1 ≡ suc lvl' = omega arith in
              rw (search_front, next_lem sl ts inv key, missing) (rw (one, e) refl),
          grown-IsSkipList address draws free usable absent h' rel,
        ),
      )

  -- A tick is inserted into a skip list that holds some ticks, with a new node at any free address
  -- and any draws of the random level. The insertion succeeds, and the list then holds what `put`
  -- makes of the ticks: the tick in its place in the order of the keys, or in the place of the one
  -- with the same key.
  pub insert_lem :
      (address : Ptr) (draws : List Bool)
      → sl.heap address ≡ none
      → address ≢ 0
      → (sl' : SkipList) × ((insert sl address draws tick ≡ some sl')
          × IsSkipList sl' (put tick ts))
  insert_lem address draws free usable =
      elim (find_key_lem sl.heap key (inv.cells 0) ts inv.contents (inv.levels.sorted 0)) [
        | inl (n, (fk, (fd, (hn, mem)))) ↦ (
          replaced n hn mem,
          (
            unfold insert in rw (search_front, next_lem sl ts inv key, fk) refl,
            replaced-IsSkipList n hn mem,
          ),
        )
        | inr (fk, (fd, absent)) ↦ insert-Absent address draws free usable absent fk
      ]
