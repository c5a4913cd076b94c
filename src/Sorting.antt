-- ===== src/Sorting.antt =====
-- The sort and the removal of duplicates with which graphite-core/src/lsm.rs, compaction.rs and
-- scan_iter.rs put ticks in order: the standard library's `sort_by`, which is stable, by the symbol
-- and the timestamp, and `dedup_by`, which keeps the first of ticks in a row with the same key.
pub mod Merge
pub mod Two
use graphite_tsdb.Prelude.{List, [], ◌∷◌, if◌then◌else◌}
use graphite_tsdb.Types.{Key, Tick, key_of}
use graphite_tsdb.SkipList.{key_lt, key_eq}

-- A tick in front of the first one whose key is not less.
unfoldable pub insert_sorted : Tick → List Tick → List Tick
insert_sorted t [] = t ∷ []
insert_sorted t (s ∷ ts) =
    let further = insert_sorted t ts in
    if key_lt (key_of s) (key_of t) then s ∷ further else t ∷ s ∷ ts

unfoldable pub sort : List Tick → List Tick
unfolding insert_sorted
sort [] = []
sort (t ∷ ts) = insert_sorted t (sort ts)

-- The ticks after one with the key `k`.
unfoldable pub dedup_after : Key → List Tick → List Tick
dedup_after k [] = []
dedup_after k (t ∷ ts) =
    let skipped = dedup_after k ts in
    let kept = dedup_after (key_of t) ts in if key_eq k (key_of t) then skipped else t ∷ kept

unfoldable pub dedup : List Tick → List Tick
unfolding dedup_after
dedup [] = []
dedup (t ∷ ts) = t ∷ dedup_after (key_of t) ts

-- `sort_by` and `dedup_by` in turn.
unfoldable pub merge : List Tick → List Tick
unfolding sort dedup
merge ts = dedup (sort ts)
