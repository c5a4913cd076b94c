-- ===== src/Lsm.antt =====
-- graphite-core/src/lsm.rs: the engine, on one thread. A lock that the thread holds itself is never
-- given again: such a call does not return. The tables of a level are their files.
pub mod Inserts
pub mod Batches
pub mod Flush
pub mod Scans
pub mod Stream
pub mod Replicas
pub mod Open
mod Examples
use graphite_tsdb.Prelude.{
  ℕ, ◌+◌, Bool, true, false, ◌&&◌, Option, none, some, List, [], ◌∷◌, ◌++◌, leb, if◌then◌else◌,
}
use mathlib.Core.List.{reverse}
use graphite_tsdb.Types.{Key, SymbolId, Tick, TimestampNs, WalRecord}
use graphite_tsdb.Compression.Dictionary.{Symbol, SymbolDictionary, get_or_insert, get_id}
use graphite_tsdb.Bloom.{FloatOps}
use graphite_tsdb.Compression.Rle.{Compressors}
use graphite_tsdb.Wal as Wal
use graphite_tsdb.Wal.{Codec, WalError, truncate}
use graphite_tsdb.SkipList as Memtable
use graphite_tsdb.SkipList.{SkipList, Ptr, drain}
use graphite_tsdb.SsTable.{
  SsTable, SsTableError, Outcome, may_contain_key, overlaps_time_range, overlaps_symbol,
}
use graphite_tsdb.SsTable.Read.{open_table, scan}
use graphite_tsdb.SsTable.Write as Writer
use graphite_tsdb.Compaction.{CompactionManager, Level, add_table}
use graphite_tsdb.Replication.{NodeRole, primary, replica, ReplicationTracker}

pub data LsmError : Type 0 where
  wal : WalError → LsmError
  ss_table : SsTableError → LsmError
  symbol_not_found : Symbol → LsmError
  compaction : SsTableError → LsmError
  not_primary not_replica : LsmError

-- `next_id` is the counter that gives the tables their ids.
pub record Lsm : Type 0 where
  pub memtable : SkipList
  pub log : Wal.Wal
  pub compaction : CompactionManager
  pub symbol_dict : SymbolDictionary
  pub flush_threshold : ℕ
  pub bloom_checks : ℕ
  pub bloom_hits : ℕ
  pub total_rows : ℕ
  pub role : NodeRole
  pub replication : ReplicationTracker
  pub next_id : ℕ

-- How a call ends, with the state that it leaves.
pub data Call (A : Type 0) : Type 0 where
  returned : Lsm → A → Call A
  failed : Lsm → LsmError → Call A
  panicked : Call A
  deadlocked : Call A

-- The lock of the symbol dictionary, for the thread that runs: it does not hold it, or it holds it
-- for writing.
pub data Lock : Type 0 where
  unlocked locked : Lock

-- `symbol_dict.read()`, with what comes after it. A thread that holds the lock for writing waits for
-- itself.
unfoldable pub read_lock : {A : Type 0} → Lock → Call A → Call A
read_lock unlocked rest = rest
read_lock locked rest = deadlocked

-- The end of `flush_memtable`, on the table that was written.
unfoldable pub flush_written : Lsm → Option SsTable → Call Unit
unfolding add_table truncate
flush_written l none = panicked
flush_written l (some table) = elim l.compaction.levels [
  | [] ↦ panicked
  | l0 ∷ levels ↦
      returned
        (record l {
          compaction = record l.compaction { levels = add_table l0 table ∷ levels };
          log = truncate l.log;
          next_id = l.next_id + 1;
        })
        tt
]

module _ (ops : FloatOps) (k : Compressors) (sub add : ℕ → ℕ → ℕ) where
  -- The part of `flush_memtable` behind `drain`.
  unfoldable pub flush_ticks : Lock → Lsm → Option (List Tick × SkipList) → Call Unit
  unfolding flush_written read_lock
  flush_ticks lock l none = panicked
  flush_ticks lock l (some ([], memtable)) = returned (record l { memtable = memtable }) tt
  flush_ticks lock l (some (tick ∷ ticks, memtable)) = read_lock lock (
      flush_written (record l { memtable = memtable })
        (Writer.write ops k sub add l.next_id (tick ∷ ticks) 0 l.symbol_dict))

  -- `flush_memtable`, by a thread that does or does not hold the lock of the dictionary.
  unfoldable pub flush_memtable : Lock → Lsm → Call Unit
  unfolding flush_ticks
  flush_memtable lock l = flush_ticks lock l (drain l.memtable)

abbrev pub is_replica : NodeRole → Bool
is_replica primary = false
is_replica replica = true

-- `..tick` with the identifier of the dictionary
abbrev pub stored : SymbolDictionary → Symbol → Tick → Tick
stored dict symbol tick = record tick { symbol_id = (get_or_insert dict symbol).1 }

module _ (ops : FloatOps) (k : Compressors) (sub add : ℕ → ℕ → ℕ) (c : Codec) where
  -- The part of `insert` behind the memtable's, on what that gives. The lock of the
  -- dictionary is held up to the end of `insert`.
  unfoldable pub insert_done : Lsm → Option SkipList → Call Unit
  unfolding flush_memtable
  insert_done l none = panicked
  insert_done l (some memtable) =
      let l' = record l { memtable = memtable; total_rows = l.total_rows + 1 } in
      if leb l.flush_threshold memtable.len
      then flush_memtable ops k sub add locked l'
      else returned l' tt

  -- The part of `insert` behind the append, on what that gives.
  unfoldable pub insert_appended : Lsm → Ptr → List Bool → Tick → Wal.Wal × Wal.Result ℕ → Call Unit
  unfolding insert_done
  insert_appended l address draws tick (log, Wal.err e) = failed (record l { log = log }) (wal e)
  insert_appended l address draws tick (log, Wal.ok sequence) =
      insert_done (record l { log = log }) (Memtable.insert l.memtable address draws tick)

  -- `insert`, with the address and the draws for a new node of the memtable.
  unfoldable pub insert : Lsm → Ptr → List Bool → Symbol → Tick → Call Unit
  unfolding insert_appended
  insert l address draws symbol tick =
      let tick' = stored l.symbol_dict symbol tick in
      let l1 = record l { symbol_dict = (get_or_insert l.symbol_dict symbol).0 } in
      if is_replica l.role
      then failed l not_primary
      else insert_appended l1 address draws tick' (Wal.append c l.log (WalRecord.insert tick'))

  pub insert_tick : Lsm → Ptr → List Bool → Symbol → TimestampNs → ℕ → ℕ → ℕ → ℕ → ℕ → Call Unit
  unfolding insert
  insert_tick l address draws symbol timestamp open_price high low close volume =
      insert l address draws symbol (record {
        symbol_id = 0;
        timestamp = timestamp;
        open_price = open_price;
        high = high;
        low = low;
        close = close;
        volume = volume;
      })

-- `recover_from_wal`: the records of the log, with an address and draws for each new node.
unfoldable pub recover : SkipList → List (WalRecord × Ptr × List Bool) → Option SkipList
recover memtable [] = some memtable
recover memtable ((WalRecord.insert tick, address, draws) ∷ records) =
    elim (Memtable.insert memtable address draws tick) [
      | none ↦ none
      | some memtable' ↦ recover memtable' records
    ]
recover memtable ((WalRecord.delete key, address, draws) ∷ records) = recover memtable records
recover memtable ((WalRecord.checkpoint n, address, draws) ∷ records) = recover memtable records

module _ (c : Compressors) (sub add : ℕ → ℕ → ℕ) (from_utf8_lossy : List ℕ → Symbol) where
  -- What a look-up does with a table that it opened. A table that is opened has a new id, under
  -- which the block cache holds nothing.
  unfoldable pub search_opened : Lsm → Key → Outcome SsTable → Call (Option Tick)
  search_opened l key Outcome.panics = panicked
  search_opened l key (Outcome.err e) = failed l (ss_table e)
  search_opened l key (Outcome.ok opened) =
      elim (scan c sub add opened none (some key.symbol_id) key.timestamp key.timestamp) [
        | Outcome.panics ↦ panicked
        | Outcome.err e ↦ panicked
        | Outcome.ok [] ↦ returned l none
        | Outcome.ok (tick ∷ ticks) ↦ returned l (some tick)
      ]

  -- A table whose ranges have the key is opened anew.
  unfoldable pub search_table : Lsm → Key → SsTable → Call (Option Tick)
  unfolding search_opened
  search_table l key table =
      search_opened (record l { next_id = l.next_id + 1 }) key
        (open_table from_utf8_lossy l.next_id table.file)

  -- What a look-up in a table gives, or the rest of the loop in the state that it leaves.
  unfoldable pub found_or : (Lsm → Call (Option Tick)) → Call (Option Tick) → Call (Option Tick)
  found_or next panicked = panicked
  found_or next deadlocked = deadlocked
  found_or next (failed l e) = failed l e
  found_or next (returned l none) = next l
  found_or next (returned l (some tick)) = returned l (some tick)

  -- A round of the loop of `get` behind the test of the filter, with the rest of the loop.
  unfoldable pub search_round :
      (Lsm → Call (Option Tick)) → Lsm → Key → SsTable → Option Bool → Call (Option Tick)
  unfolding search_table found_or
  search_round next l key table none = panicked
  search_round next l key table (some false) = next l
  search_round next l key table (some true) =
      let hit = record l { bloom_hits = l.bloom_hits + 1 } in
      if overlaps_time_range table.meta key.timestamp key.timestamp
        && overlaps_symbol table.meta key.symbol_id
      then found_or next (search_table hit key table)
      else next hit

  -- The loop over the tables of all levels, in the order in which `get` takes them.
  unfoldable pub search_tables : Lsm → Key → List SsTable → Call (Option Tick)
  unfolding search_round
  search_tables l key [] = returned l none
  search_tables l key (table ∷ tables) =
      search_round (λ l'. search_tables l' key tables)
        (record l { bloom_checks = l.bloom_checks + 1 }) key table (may_contain_key table key)

  -- Newest tables first in each level.
  unfoldable pub tables_of : List Level → List SsTable
  tables_of [] = []
  tables_of (level ∷ levels) = reverse level.tables ++ tables_of levels

  -- The part of `get` behind the memtable's, on what that gives.
  unfoldable pub get_behind : Lsm → Key → Option (Option Tick) → Call (Option Tick)
  unfolding search_tables tables_of
  get_behind l key none = panicked
  get_behind l key (some (some tick)) = returned l (some tick)
  get_behind l key (some none) = search_tables l key (tables_of l.compaction.levels)

  unfoldable pub get_named : Lsm → Symbol → TimestampNs → Option SymbolId → Call (Option Tick)
  unfolding get_behind
  get_named l symbol timestamp none = failed l (symbol_not_found symbol)
  get_named l symbol timestamp (some symbol_id) =
      let key : Key = record { symbol_id = symbol_id; timestamp = timestamp } in
      get_behind l key (Memtable.get l.memtable key)

  unfoldable pub get : Lsm → Symbol → TimestampNs → Call (Option Tick)
  unfolding get_named
  get l symbol timestamp = get_named l symbol timestamp (get_id l.symbol_dict symbol)
