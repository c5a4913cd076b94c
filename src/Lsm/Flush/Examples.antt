-- ===== src/Lsm/Flush/Examples.antt =====
-- The flush of an engine with one tick.
use graphite_tsdb.Prelude.{◌+◌, ◌≡◌, refl, arith, none, some, [], ◌∷◌}
use graphite_tsdb.Prelude.Int.{pos}
use graphite_tsdb.Prelude.Bytes.{bytes_eq}
use graphite_tsdb.Compression.Dictionary.{get_id, lookup}
use graphite_tsdb.Bloom.{optimal_num_bits}
use graphite_tsdb.SkipList as Memtable
use graphite_tsdb.SkipList.{SkipList}
use graphite_tsdb.SkipList.Spec.{put}
use graphite_tsdb.SkipList.Refinement.{IsSkipList}
use graphite_tsdb.SkipList.Insert.{insert_lem}
use graphite_tsdb.SkipList.Drain.{new-IsSkipList}
use graphite_tsdb.SsTable.Examples.{whole_ops, plain, one_symbol, tick, write_short}
use graphite_tsdb.Compaction as Compaction
use graphite_tsdb.Replication.{primary, open_tracker}
use graphite_tsdb.Lsm.{unlocked, flush_memtable, Lsm, returned, panicked, get}
use graphite_tsdb.Lsm.Flush.Lookups.{get-flush_memtable}

-- A memtable with the tick.
filled_lem : (memtable : SkipList) × IsSkipList memtable (tick ∷ [])
unfolding Memtable.new put
filled_lem =
    let (sl, (e, inv)) = insert_lem Memtable.new [] new-IsSkipList tick 2 [] refl (omega arith) in
    (sl, inv)

abbrev engine : SkipList → Lsm
engine memtable = record {
  memtable = memtable;
  log = record { file = []; offset = 0; sequence = 0; replayed = [] };
  compaction = Compaction.new one_symbol;
  symbol_dict = one_symbol;
  flush_threshold = 10;
  bloom_checks = 0;
  bloom_hits = 0;
  total_rows = 1;
  role = primary;
  replication = open_tracker none;
  next_id = 1;
}

abbrev filled : Lsm
filled = engine filled_lem.0

get-flush_memtable_example :
    (get plain ◌+◌ ◌+◌ (λ bytes. bytes) filled (b'A' ∷ []) (pos 1000) ≡ returned filled (some tick))
    × ((l' : Lsm) × ((flush_memtable whole_ops plain ◌+◌ ◌+◌ unlocked filled ≡ returned l' tt)
          × (IsSkipList l'.memtable []
              × ((l'.log.file ≡ [])
                  × (get plain ◌+◌ ◌+◌ (λ bytes. bytes) l' (b'A' ∷ []) (pos 1000) ≡ panicked)))))
unfolding optimal_num_bits get_id lookup bytes_eq
get-flush_memtable_example =
    get-flush_memtable whole_ops plain ◌+◌ ◌+◌ (λ bytes. bytes) filled tick []
      (Compaction.new_level 0) [] 0 tick (b'A' ∷ []) filled_lem.1 tt refl (omega arith)
      (omega arith) write_short refl refl
