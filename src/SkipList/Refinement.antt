-- ===== src/SkipList/Refinement.antt =====
-- The skip list implements the abstract memtable: what it holds, inserts, looks up and drains.
use graphite_tsdb.Prelude.{
  ℕ, suc, ◌+◌, ◌≤◌, ◌<◌, ◌≡◌, refl, ap, ◌∙◌, arith, inl, inr, some, List, [], length,
}
use graphite_tsdb.Types.{Key, Tick}
use graphite_tsdb.SkipList.{SkipList, max_level, read_forward, descend, get}
use graphite_tsdb.SkipList.Cells.{Cells, pred, succ, Apart, Distinct}
use graphite_tsdb.SkipList.Chain.{Path_from-pred, read_forward-Holds}
use graphite_tsdb.SkipList.Search.{Levels, descend_lem}
use graphite_tsdb.SkipList.Contents.{Contents, find_key_lem}
use graphite_tsdb.SkipList.Spec.{find}

-- The skip list holds the ticks: its levels are chains of distinct nodes in the order of their
-- keys, each within the one below, and the lowest holds the ticks.
pub record IsSkipList (sl : SkipList) (ts : List Tick) : Type 0 where
  pub cells : ℕ → Cells
  pub levels : Levels sl.heap sl.head sl.len cells
  pub contents : Contents sl.heap (cells 0) ts
  pub counted : sl.len ≡ length ts
  pub distinct : (i : ℕ) → Distinct (cells i)
  pub apart : (i : ℕ) → Apart sl.head (cells i)
  pub bound : sl.level ≤ max_level
  pub unused : (i : ℕ) → sl.level < i → cells i ≡ []

module _ (sl : SkipList) (ts : List Tick) (inv : IsSkipList sl ts) (key : Key) where
  -- The pointer behind the predecessor at the lowest level.
  pub next_lem :
      read_forward sl.heap (pred sl.head key (inv.cells 0)) 0 ≡ some (succ key (inv.cells 0))
  next_lem =
      let (n, (at, e)) =
        Path_from-pred sl.heap key 0 (omega arith) (inv.cells 0) sl.head
          (inv.levels.path 0 (omega arith)) in
      read_forward-Holds at 0 (omega arith) ∙ ap some e

  -- `get` finds the tick with the key, or that there is none.
  pub get_lem : get sl key ≡ some (find key ts)
  unfolding get
  get_lem =
      let down : descend (suc sl.len) sl.heap key (sl.level + 1) sl.head
          ≡ some (pred sl.head key (inv.cells 0)) =
        ap (λ m. descend (suc sl.len) sl.heap key m sl.head) {x = sl.level + 1} {y = suc sl.level}
          (omega arith)
        ∙ descend_lem inv.levels key sl.level sl.head inv.bound (inl refl) in
      rw (down, next_lem)
        (elim (find_key_lem sl.heap key (inv.cells 0) ts inv.contents (inv.levels.sorted 0)) [
          | inl (n, (fk, (fd, rest))) ↦ rw (fk, fd) refl
          | inr (fk, (fd, absent)) ↦ rw (fk, fd) refl
        ])
