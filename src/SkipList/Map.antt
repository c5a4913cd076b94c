-- ===== src/SkipList/Map.antt =====
-- The skip list as a map from keys to ticks.
use graphite_tsdb.Prelude.{
  ◌≡◌, ◌≢◌, refl, sym, ap, ◌∙◌, Bool, true, false, none, some, List, if◌then◌else◌,
}
use graphite_tsdb.Types.{Key, Tick, key_of}
use graphite_tsdb.SkipList.{Ptr, SkipList, key_eq, insert, get}
use graphite_tsdb.SkipList.Spec.{put, find, find-put}
use graphite_tsdb.SkipList.Contents.{Contents-Ordered}
use graphite_tsdb.SkipList.Refinement.{IsSkipList, get_lem}
use graphite_tsdb.SkipList.Insert.{insert_lem}

-- After a tick was inserted into a valid skip list, with a new node at any free address and any
-- draws of the random level, a look-up of its key finds the tick, and a look-up of any other key
-- finds what it found before.
pub get-insert :
    (sl : SkipList) (ts : List Tick) (tick : Tick) (address : Ptr) (draws : List Bool) (k : Key)
    → IsSkipList sl ts
    → sl.heap address ≡ none
    → address ≢ 0
    → (sl' : SkipList) × ((insert sl address draws tick ≡ some sl')
        × (get sl' k ≡ (if key_eq (key_of tick) k then some (some tick) else get sl k)))
get-insert sl ts tick address draws k inv free usable =
    let (sl', (e, inv')) = insert_lem sl ts inv tick address draws free usable in
    (
      sl',
      (
        e,
        get_lem sl' (put tick ts) inv' k
            ∙ ap some (
                find-put k tick ts
                  (Contents-Ordered sl.heap (inv.cells 0) ts inv.contents (inv.levels.sorted 0)))
            ∙ both (key_eq (key_of tick) k),
      ),
    )
  where
    both :
        (b : Bool)
        → some (if b then some tick else find k ts) ≡ (if b then some (some tick) else get sl k)
    both true = refl
    both false = sym (get_lem sl ts inv k)
