-- ===== src/Lsm/Open/Examples.antt =====
-- Opening an engine on a log with one tick twice.
use graphite_tsdb.Prelude.{◌+◌, ◌≡◌, refl, arith, none, some, List, [], ◌∷◌, length, All}
use graphite_tsdb.Types.{Tick, TimestampNs, WalRecord}
use graphite_tsdb.Compression.Dictionary as Dictionary
use graphite_tsdb.Compression.Dictionary.{Symbol}
use graphite_tsdb.Wal.{Codec}
use graphite_tsdb.Wal.Frames.{IsStorable, HasCrc32, log_bytes}
use graphite_tsdb.SkipList as Memtable
use graphite_tsdb.SkipList.Spec.{put}
use graphite_tsdb.SkipList.Refinement.{IsSkipList}
use graphite_tsdb.SsTable.Examples.{whole_ops, plain, tick}
use graphite_tsdb.SkipList.Drain.{new-IsSkipList}
use graphite_tsdb.Compaction as Compaction
use graphite_tsdb.Replication.{primary, open_tracker}
use graphite_tsdb.Lsm.{Lsm, returned, failed, symbol_not_found, stored, insert, get}
use graphite_tsdb.Lsm.Batches.{Nodes}
use graphite_tsdb.Lsm.Open.{default_config, opened, open_engine}
use graphite_tsdb.Lsm.Open.Durability.{open_engine-insert}
use graphite_tsdb.Lsm.Open.Recovery.{FreshNodes, replay_all, open_engine-log_bytes}

-- A codec of the one tick.
abbrev codec : Codec
codec = record {
  to_vec = λ r. some (1 ∷ []);
  from_slice = λ bytes. some (WalRecord.insert tick);
  crc32 = λ bytes. 0;
}

codec-HasCrc32 : HasCrc32 codec
codec-HasCrc32 payload = omega arith

abbrev two_records : List WalRecord
two_records = WalRecord.insert tick ∷ WalRecord.insert tick ∷ []

tick-IsStorable : IsStorable codec (WalRecord.insert tick)
tick-IsStorable = record { payload = 1 ∷ []; written = refl; parsed = refl; size = omega arith }

two_records-IsStorable : All (IsStorable codec) two_records
two_records-IsStorable = (tick-IsStorable, (tick-IsStorable, tt))

abbrev nodes : Nodes
nodes i = (i + 2, [])

nodes-FreshNodes : FreshNodes nodes 0 Memtable.new.heap
unfolding Memtable.new
nodes-FreshNodes = record {
  usable = λ j. omega arith;
  distinct = λ j k same. omega (arith, same);
  free = λ j later. ground arith;
}

open_engine-log_bytes_example :
    (l : Lsm) × ((open_engine
          (λ bytes. bytes)
          codec
          default_config
          (log_bytes codec 0 two_records two_records-IsStorable)
          none
          1
          []
          nodes
        ≡ opened (returned l tt))
      × (IsSkipList l.memtable (replay_all two_records [])
          × ((l.log.sequence ≡ length two_records)
              × ((symbol : Symbol) (timestamp : TimestampNs)
                  → get plain ◌+◌ ◌+◌ (λ bytes. bytes) l symbol timestamp
                    ≡ failed l (symbol_not_found symbol)))))
open_engine-log_bytes_example =
    open_engine-log_bytes codec codec-HasCrc32 (λ bytes. bytes) default_config none 1 nodes
      two_records two_records-IsStorable plain ◌+◌ ◌+◌ (omega arith) nodes-FreshNodes

abbrev kept : Tick
kept = stored Dictionary.new (b'A' ∷ []) tick

-- A codec of the tick as a fresh engine stores it.
abbrev kept_codec : Codec
kept_codec = record codec { from_slice = λ bytes. some (WalRecord.insert kept) }

abbrev engine : Lsm
engine = record {
  memtable = Memtable.new;
  log = record { file = []; offset = 0; sequence = 0; replayed = [] };
  compaction = Compaction.new Dictionary.new;
  symbol_dict = Dictionary.new;
  flush_threshold = 10;
  bloom_checks = 0;
  bloom_hits = 0;
  total_rows = 0;
  role = primary;
  replication = open_tracker none;
  next_id = 1;
}

open_engine-insert_example :
    (l1 : Lsm) × ((l2 : Lsm) × ((insert whole_ops plain ◌+◌ ◌+◌ kept_codec engine 2 []
            (b'A' ∷ [])
            tick
          ≡ returned l1 tt)
        × ((open_engine (λ bytes. bytes) kept_codec default_config l1.log.file none 1 [] nodes
              ≡ opened (returned l2 tt))
            × (IsSkipList l1.memtable (put (stored engine.symbol_dict (b'A' ∷ []) tick) [])
                × IsSkipList l2.memtable (put (stored engine.symbol_dict (b'A' ∷ []) tick) [])))))
unfolding Memtable.new log_bytes replay_all
open_engine-insert_example =
    open_engine-insert whole_ops plain ◌+◌ ◌+◌ kept_codec codec-HasCrc32 (λ bytes. bytes) engine []
      tt 2 [] (b'A' ∷ []) tick default_config none 1 nodes refl refl new-IsSkipList refl
      (omega arith) refl
      (record { payload = 1 ∷ []; written = refl; parsed = refl; size = omega arith }) (omega arith)
      (omega arith) nodes-FreshNodes
