-- ===== src/Lsm/Replicas/Examples.antt =====
-- A replica that applies one tick.
use graphite_tsdb.Prelude.{◌+◌, ◌≡◌, refl, arith, none, some, List, [], ◌∷◌, ◌++◌, map, max, All}
use graphite_tsdb.Prelude.Int.{pos}
use graphite_tsdb.Types.{Tick, WalRecord}
use graphite_tsdb.Compression.Dictionary as Dictionary
use graphite_tsdb.Compression.Dictionary.{get_symbol}
use graphite_tsdb.Compression.Dictionary.Identifiers.{new-IsDictionary}
use graphite_tsdb.Wal.{Codec}
use graphite_tsdb.Wal.Frames.{IsStorable, log_bytes}
use graphite_tsdb.SkipList as Memtable
use graphite_tsdb.SkipList.Refinement.{IsSkipList}
use graphite_tsdb.SkipList.Drain.{new-IsSkipList}
use graphite_tsdb.SsTable.Examples.{whole_ops, plain, one_symbol, tick}
use graphite_tsdb.Compaction as Compaction
use graphite_tsdb.Replication.{
  ReplicationEntry, replica, open_tracker, last_primary_sequence, last_applied,
}
use graphite_tsdb.Replication.Progress.{greatest}
use graphite_tsdb.Lsm.{Lsm, returned, stored, get}
use graphite_tsdb.Lsm.Batches.{Nodes}
use graphite_tsdb.Lsm.Open.Recovery.{FreshNodes, replay_all}
use graphite_tsdb.Lsm.Replicas.{
  entries_of, resolve_symbol, resolve_entries, apply_replication_batch,
}
use graphite_tsdb.Lsm.Replicas.Named.{IsResolved}
use graphite_tsdb.Lsm.Replicas.Batches.{apply_replication_batch_lem}
use graphite_tsdb.Lsm.Replicas.Applied.{get-apply_replication_batch}

abbrev codec : Codec
codec = record { to_vec = λ r. some (1 ∷ []); from_slice = λ bytes. none; crc32 = λ bytes. 0 }

abbrev engine : Lsm
engine = record {
  memtable = Memtable.new;
  log = record { file = []; offset = 0; sequence = 0; replayed = [] };
  compaction = Compaction.new Dictionary.new;
  symbol_dict = Dictionary.new;
  flush_threshold = 10;
  bloom_checks = 0;
  bloom_hits = 0;
  total_rows = 0;
  role = replica;
  replication = open_tracker none;
  next_id = 1;
}

abbrev nodes : Nodes
nodes i = (i + 2, [])

get-apply_replication_batch_example :
    (l' : Lsm) × ((apply_replication_batch whole_ops plain ◌+◌ ◌+◌ codec engine nodes
          (entries_of one_symbol ((7, WalRecord.insert tick) ∷ []))
        ≡ returned l' 1)
      × ((get plain ◌+◌ ◌+◌ (λ bytes. bytes) l' (b'A' ∷ []) (pos 1000)
            ≡ returned l' (some (stored Dictionary.new (b'A' ∷ []) tick)))
          × (last_primary_sequence l'.replication
              ≡ max (last_primary_sequence engine.replication) 7)))
unfolding Memtable.new get_symbol
get-apply_replication_batch_example =
    get-apply_replication_batch whole_ops plain ◌+◌ ◌+◌ (λ bytes. bytes) codec engine [] nodes
      one_symbol 7 tick (b'A' ∷ []) (1 ∷ []) new-IsSkipList new-IsDictionary (omega arith) refl
      (omega arith) refl refl refl (omega arith)

-- A codec of the one tick.
abbrev tick_codec : Codec
tick_codec = record codec {
  from_slice = λ bytes. some (WalRecord.insert (stored Dictionary.new (b'A' ∷ []) tick));
}

abbrev first_entry : ReplicationEntry
first_entry = record { sequence = 7; entry = WalRecord.insert tick; symbol = some (b'A' ∷ []) }

abbrev second_entry : ReplicationEntry
second_entry = record { sequence = 9; entry = WalRecord.checkpoint 3; symbol = none }

nodes-FreshNodes : FreshNodes nodes 0 engine.memtable.heap
unfolding Memtable.new
nodes-FreshNodes = record {
  usable = λ j. omega arith;
  distinct = λ j k same. omega (arith, same);
  free = λ j later. ground arith;
}

tick-IsStorable : IsStorable tick_codec (WalRecord.insert (stored Dictionary.new (b'A' ∷ []) tick))
tick-IsStorable = record { payload = 1 ∷ []; written = refl; parsed = refl; size = omega arith }

apply_replication_batch_lem_example :
    (l' : Lsm) × ((ticks : List Tick) × ((kept : All
          (IsStorable tick_codec)
          (map WalRecord.insert ticks))
        × ((apply_replication_batch whole_ops plain ◌+◌ ◌+◌ tick_codec engine nodes
                (first_entry ∷ second_entry ∷ [])
              ≡ returned l' 2)
            × (IsResolved l'.symbol_dict (first_entry ∷ second_entry ∷ []) ticks
                × ((l'.log.file ≡ [] ++ log_bytes tick_codec 0 (map WalRecord.insert ticks) kept)
                    × (IsSkipList l'.memtable (replay_all (map WalRecord.insert ticks) [])
                        × (last_applied l'.replication
                            ≡ greatest (last_applied engine.replication) (
                                map
                                  (λ (e : ReplicationEntry). e.sequence)
                                  (first_entry ∷ second_entry ∷ [])))))))))
unfolding Memtable.new resolve_entries resolve_symbol
apply_replication_batch_lem_example =
    apply_replication_batch_lem whole_ops plain ◌+◌ ◌+◌ tick_codec engine [] nodes first_entry
      (second_entry ∷ []) (tick-IsStorable, tt) new-IsSkipList new-IsDictionary (omega arith)
      nodes-FreshNodes refl (omega arith)
