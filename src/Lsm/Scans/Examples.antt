-- ===== src/Lsm/Scans/Examples.antt =====
-- A scan and a stream of one tick in the memtable, and of a table of later ticks.
use graphite_tsdb.Prelude.{◌+◌, ◌≡◌, refl, arith, inr, none, some, List, [], ◌∷◌}
use graphite_tsdb.Prelude.Int.{pos}
use graphite_tsdb.Types.{Key, Tick}
use graphite_tsdb.Compression.Dictionary.{get_id, lookup}
use graphite_tsdb.Prelude.Bytes.{bytes_eq}
use graphite_tsdb.SkipList as Memtable
use graphite_tsdb.SkipList.{SkipList}
use graphite_tsdb.SkipList.Spec.{put, find, Ordered}
use graphite_tsdb.SkipList.Refinement.{IsSkipList}
use graphite_tsdb.SkipList.Insert.{insert_lem}
use graphite_tsdb.SkipList.Drain.{new-IsSkipList}
use graphite_tsdb.SsTable.{SsTable}
use graphite_tsdb.SsTable.Examples.{plain, one_symbol, tick}
use graphite_tsdb.Replication.{primary, open_tracker}
use graphite_tsdb.Lsm.{Lsm, returned}
use graphite_tsdb.Lsm.Scans.{resolve, scanned_tables, scan}
use graphite_tsdb.Lsm.Scans.Results.{asked, scan_lem}
use graphite_tsdb.Lsm.Stream.{ScanStream, started, collect, scan_stream}
use graphite_tsdb.Lsm.Stream.Agreement.{collect-scan}

abbrev table : SsTable
table = record {
  id = 0;
  meta = record {
    min_timestamp = pos 3000;
    max_timestamp = pos 5000;
    min_symbol_id = 0;
    max_symbol_id = 0;
    row_count = 0;
    file_size = 0;
    level = 0;
  };
  file = [];
  index = [];
  bloom = record { bits = []; num_bits = 0; num_hashes = 0 };
  symbol_dict = one_symbol;
  footer = record {
    data_offset = 0;
    data_size = 0;
    index_offset = 6;
    index_size = 4;
    bloom_offset = 10;
    bloom_size = 12;
    meta_offset = 22;
    meta_size = 44;
  };
}

-- A memtable with the tick.
filled_lem : (memtable : SkipList) × IsSkipList memtable (tick ∷ [])
unfolding Memtable.new put
filled_lem =
    let (sl, (e, inv)) = insert_lem Memtable.new [] new-IsSkipList tick 2 [] refl (omega arith) in
    (sl, inv)

abbrev engine : Lsm
engine = record {
  memtable = filled_lem.0;
  log = record { file = []; offset = 0; sequence = 0; replayed = [] };
  compaction = record {
    levels = (record { level_num = 0; tables = table ∷ [] }) ∷ [];
    symbol_dict = one_symbol;
    bytes_written = 0;
    bytes_read = 0;
  };
  symbol_dict = one_symbol;
  flush_threshold = 10;
  bloom_checks = 0;
  bloom_hits = 0;
  total_rows = 1;
  role = primary;
  replication = open_tracker none;
  next_id = 1;
}

scan_lem_example :
    (result : List Tick) × ((scan plain ◌+◌ ◌+◌
          (λ bytes. bytes)
          engine
          (some (b'A' ∷ []))
          (pos 0)
          (pos 2000)
        ≡ returned engine result)
      × (Ordered result
          × ((k : Key) → find k result ≡ asked (some 0) (pos 0) (pos 2000) (find k (tick ∷ [])))))
unfolding resolve scanned_tables get_id lookup bytes_eq
scan_lem_example =
    scan_lem plain ◌+◌ ◌+◌ (λ bytes. bytes) engine (tick ∷ []) (some (b'A' ∷ [])) (some 0) (pos 0)
      (pos 2000) filled_lem.1 refl (inr refl, tt)

collect-scan_example :
    (s : ScanStream) × ((result : List Tick) × ((scan plain ◌+◌ ◌+◌
            (λ bytes. bytes)
            engine
            none
            (pos 0)
            (pos 2000)
          ≡ returned engine result)
        × ((scan_stream engine none (pos 0) (pos 2000) [] ≡ started s)
            × (collect plain ◌+◌ ◌+◌ (λ bytes. bytes) 2 s ≡ some result))))
unfolding resolve scanned_tables
collect-scan_example =
    collect-scan plain ◌+◌ ◌+◌ (λ bytes. bytes) engine (tick ∷ []) none none (pos 0) (pos 2000) [] 2
      filled_lem.1 refl (inr refl, tt) (omega arith)
