-- ===== src/Lsm/Replicas.antt =====
-- graphite-core/src/lsm.rs: what a primary reads from its log for its replicas, and what a replica
-- does with it.
pub mod Applied
pub mod Named
pub mod Batches
mod Examples
use graphite_tsdb.Prelude.{
  ℕ, zero, suc, ◌+◌, ◌-◌, Bool, not, Option, none, some, List, [], ◌∷◌, leb, if◌then◌else◌, length,
  map, max,
}
use graphite_tsdb.Types.{Tick, WalRecord}
use graphite_tsdb.Bloom.{FloatOps}
use graphite_tsdb.Compression.Dictionary.{Symbol, SymbolDictionary, get_symbol, get_or_insert}
use graphite_tsdb.Compression.Rle.{Compressors}
use graphite_tsdb.Wal as Wal
use graphite_tsdb.Wal.{Codec}
use graphite_tsdb.SkipList as Memtable
use graphite_tsdb.SkipList.{SkipList}
use graphite_tsdb.Replication as Tracker
use graphite_tsdb.Replication.{NodeRole, ReplicationEntry}
use graphite_tsdb.Lsm.{
  Lsm, Call, returned, failed, panicked, deadlocked, unlocked, flush_memtable, wal, not_replica,
  is_replica,
}
use graphite_tsdb.Lsm.Batches.{Nodes}

-- The name that an entry has.
unfoldable pub symbol_of : SymbolDictionary → WalRecord → Option Symbol
symbol_of dict (WalRecord.insert tick) = get_symbol dict tick.symbol_id
symbol_of dict (WalRecord.delete key) = none
symbol_of dict (WalRecord.checkpoint n) = none

unfoldable pub entries_of : SymbolDictionary → List (ℕ × WalRecord) → List ReplicationEntry
unfolding symbol_of
entries_of dict [] = []
entries_of dict ((sequence, r) ∷ records) =
    (record { sequence = sequence; entry = r; symbol = symbol_of dict r }) ∷ entries_of dict records

unfoldable pub wal_read : Lsm → Wal.Result (List (ℕ × WalRecord)) → Call (List ReplicationEntry)
unfolding entries_of
wal_read l (Wal.err e) = failed l (wal e)
wal_read l (Wal.ok records) = returned l (entries_of l.symbol_dict records)

unfoldable pub read_wal_for_replication : Codec → Lsm → Option ℕ → ℕ → Call (List ReplicationEntry)
unfolding wal_read
read_wal_for_replication c l after_inclusive limit =
    wal_read l (Wal.read_for_replication c l.log after_inclusive limit)

-- `entries.iter().map(|e| e.sequence).max().unwrap_or(0)`
unfoldable pub max_sequence : List ReplicationEntry → ℕ
max_sequence [] = 0
max_sequence (entry ∷ entries) = max entry.sequence (max_sequence entries)

-- The identifier that the symbol of an entry has here.
unfoldable pub resolve_symbol : SymbolDictionary → Option Symbol → ℕ → SymbolDictionary × ℕ
resolve_symbol dict none symbol_id = (dict, symbol_id)
resolve_symbol dict (some symbol) symbol_id = get_or_insert dict symbol

-- The loop over the entries: the ticks of the inserts.
unfoldable pub resolve_entries :
    SymbolDictionary → List ReplicationEntry → SymbolDictionary × List Tick
unfolding resolve_symbol
resolve_entries dict [] = (dict, [])
resolve_entries dict (e ∷ entries) = elim e.entry [
  | WalRecord.insert tick ↦
      let named = resolve_symbol dict e.symbol tick.symbol_id in
      let rest = resolve_entries named.0 entries in
      (rest.0, (record tick { symbol_id = named.1 }) ∷ rest.1)
  | WalRecord.delete key ↦ resolve_entries dict entries
  | WalRecord.checkpoint n ↦ resolve_entries dict entries
]

-- The loop that inserts the ticks, with the node of each from the `i`-th on.
unfoldable pub insert_ticks : Nodes → ℕ → List Tick → SkipList → Option SkipList
insert_ticks nodes i [] memtable = some memtable
insert_ticks nodes i (tick ∷ ticks) memtable =
    elim (Memtable.insert memtable (nodes i).0 (nodes i).1 tick) [
      | none ↦ none
      | some memtable' ↦ insert_ticks nodes (i + 1) ticks memtable'
    ]

-- The end of `apply_replication_batch`, on how the flush ended.
unfoldable pub advanced : ℕ → ℕ → Call Unit → Call ℕ
advanced max_seq count panicked = panicked
advanced max_seq count deadlocked = deadlocked
advanced max_seq count (failed l e) = failed l e
advanced max_seq count (returned l done) =
    returned (record l { replication = Tracker.advance l.replication max_seq }) count

module _ (ops : FloatOps) (c : Compressors) (sub add : ℕ → ℕ → ℕ) (codec : Codec) where
  -- The part behind the inserts. No lock is held when the memtable is flushed.
  unfoldable pub apply_inserted : Lsm → ℕ → ℕ → ℕ → Option SkipList → Call ℕ
  unfolding advanced
  apply_inserted l max_seq count rows none = panicked
  apply_inserted l max_seq count rows (some memtable) =
      let l' = record l { memtable = memtable; total_rows = l.total_rows + rows } in
      advanced max_seq count (
        if leb l.flush_threshold memtable.len
        then flush_memtable ops c sub add unlocked l'
        else returned l' tt)

  -- The part behind the append.
  unfoldable pub apply_appended : Lsm → Nodes → ℕ → ℕ → List Tick → Wal.Wal × Wal.Result ℕ → Call ℕ
  unfolding apply_inserted insert_ticks
  apply_appended l nodes max_seq count ticks (log, Wal.err e) =
      failed (record l { log = log }) (wal e)
  apply_appended l nodes max_seq count ticks (log, Wal.ok sequence) =
      apply_inserted (record l { log = log }) max_seq count (length ticks)
        (insert_ticks nodes 0 ticks l.memtable)

  unfoldable pub apply_replication_batch : Lsm → Nodes → List ReplicationEntry → Call ℕ
  unfolding apply_appended resolve_entries max_sequence
  apply_replication_batch l nodes [] = returned l 0
  apply_replication_batch l nodes (entry ∷ entries) =
      let named = resolve_entries l.symbol_dict (entry ∷ entries) in
      if not (is_replica l.role)
      then failed l not_replica
      else apply_appended (record l { symbol_dict = named.0 }) nodes
          (max_sequence (entry ∷ entries)) (length (entry ∷ entries)) named.1
          (Wal.append_batch codec l.log (map WalRecord.insert named.1))

pub record ReplicationStatus : Type 0 where
  pub role : NodeRole
  pub wal_sequence : ℕ
  pub last_primary_sequence : ℕ
  pub lag_entries : ℕ

pub replication_status : Lsm → ReplicationStatus
replication_status l = record {
  role = l.role;
  wal_sequence = l.log.sequence;
  last_primary_sequence = Tracker.last_primary_sequence l.replication;
  lag_entries = l.log.sequence - Tracker.last_primary_sequence l.replication;
}

pub replication_last_applied : Lsm → Option ℕ
replication_last_applied l = Tracker.last_applied l.replication
