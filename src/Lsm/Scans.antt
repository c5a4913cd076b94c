-- ===== src/Lsm/Scans.antt =====
-- graphite-core/src/lsm.rs: scans of the engine. The ids of the tables that are opened are passed on
-- in the state of the engine.
pub mod Results
mod Examples
use graphite_tsdb.Prelude.{
  ℕ, ◌+◌, Bool, true, false, ◌&&◌, not, Option, none, some, List, [], ◌∷◌, ◌++◌, ◌==◌,
  if◌then◌else◌,
}
use graphite_tsdb.Prelude.Int.{ltb_ℤ}
use graphite_tsdb.Types.{SymbolId, Tick, TimestampNs}
use graphite_tsdb.Compression.Dictionary.{Symbol, SymbolDictionary, get_symbol, get_id}
use graphite_tsdb.Compression.Rle.{Compressors}
use graphite_tsdb.SkipList.{iter}
use graphite_tsdb.Sorting.{merge}
use graphite_tsdb.SsTable.{
  SsTable, Outcome, may_contain_symbol, overlaps_time_range, overlaps_symbol,
}
use graphite_tsdb.SsTable.Read as Reader
use graphite_tsdb.SsTable.Read.{open_table}
use graphite_tsdb.SsTable.Write.{unknown}
use graphite_tsdb.Compaction.{Level}
use graphite_tsdb.Lsm.{
  Lsm, Call, returned, failed, panicked, deadlocked, symbol_not_found, ss_table,
}

abbrev pub has_symbol : Option SymbolId → SymbolId → Bool
has_symbol none sid = true
has_symbol (some symbol_id) sid = sid == symbol_id

-- The tests of a tick of the memtable.
unfoldable pub selects : Option SymbolId → TimestampNs → TimestampNs → Tick → Bool
selects symbol_id t1 t2 tick =
    not (ltb_ℤ tick.timestamp t1)
    && not (ltb_ℤ t2 tick.timestamp)
    && has_symbol symbol_id tick.symbol_id

-- The loop over the memtable.
unfoldable pub select : Option SymbolId → TimestampNs → TimestampNs → List Tick → List Tick
select symbol_id t1 t2 [] = []
select symbol_id t1 t2 (tick ∷ ticks) =
    let rest = select symbol_id t1 t2 ticks in
    if selects symbol_id t1 t2 tick then tick ∷ rest else rest

-- What the name that a scan is given stands for.
pub data Resolved : Type 0 where
  resolved : Option SymbolId → Resolved
  not_found : Symbol → Resolved

unfoldable pub resolve : SymbolDictionary → Option Symbol → Resolved
resolve dict none = resolved none
resolve dict (some symbol) = elim (get_id dict symbol) [
  | none ↦ not_found symbol
  | some sid ↦ resolved (some sid)
]

-- `get_symbol(sid).unwrap_or("UNKNOWN")`
pub name_of : SymbolDictionary → SymbolId → Symbol
name_of dict sid = elim (get_symbol dict sid) [ none ↦ unknown | some name ↦ name ]

-- The tables of all levels, oldest first in each level.
unfoldable pub scanned_tables : List Level → List SsTable
scanned_tables [] = []
scanned_tables (level ∷ levels) = level.tables ++ scanned_tables levels

-- What the tests of a table by its symbols say, with the counters.
unfoldable pub symbol_tests : Lsm → SymbolId → SsTable → Option Bool → Option (Lsm × Bool)
symbol_tests l sid table none = none
symbol_tests l sid table (some false) = some (l, false)
symbol_tests l sid table (some true) =
    some (record l { bloom_hits = l.bloom_hits + 1 }, overlaps_symbol table.meta sid)

-- Whether a scan reads a table, with the counters.
unfoldable pub takes_table :
    Lsm → Option SymbolId → TimestampNs → TimestampNs → SsTable → Option (Lsm × Bool)
unfolding symbol_tests
takes_table l none t1 t2 table = some (l, overlaps_time_range table.meta t1 t2)
takes_table l (some sid) t1 t2 table =
    let checked = record l { bloom_checks = l.bloom_checks + 1 } in
    if overlaps_time_range table.meta t1 t2
    then symbol_tests checked sid table (may_contain_symbol table (name_of l.symbol_dict sid))
    else some (l, false)

module _ (c : Compressors) (sub add : ℕ → ℕ → ℕ) (from_utf8_lossy : List ℕ → Symbol) where
  -- What a scan finds in a table that it opened.
  unfoldable pub scan_opened :
      Lsm → Option SymbolId → TimestampNs → TimestampNs → Outcome SsTable → Call (List Tick)
  scan_opened l symbol_id t1 t2 Outcome.panics = panicked
  scan_opened l symbol_id t1 t2 (Outcome.err e) = failed l (ss_table e)
  scan_opened l symbol_id t1 t2 (Outcome.ok opened) =
      elim (Reader.scan c sub add opened none symbol_id t1 t2) [
        | Outcome.panics ↦ panicked
        | Outcome.err e ↦ panicked
        | Outcome.ok ticks ↦ returned l ticks
      ]

  -- What a scan finds in a table.
  unfoldable pub scan_table :
      Option SymbolId → TimestampNs → TimestampNs → SsTable → Option (Lsm × Bool) → Call (List Tick)
  unfolding scan_opened
  scan_table symbol_id t1 t2 table none = panicked
  scan_table symbol_id t1 t2 table (some (l, false)) = returned l []
  scan_table symbol_id t1 t2 table (some (l, true)) =
      scan_opened (record l { next_id = l.next_id + 1 }) symbol_id t1 t2
        (open_table from_utf8_lossy l.next_id table.file)

  -- What was found before with what a table gives, and the rest of the loop.
  unfoldable pub scan_on :
      (Lsm → List Tick → Call (List Tick)) → List Tick → Call (List Tick) → Call (List Tick)
  scan_on next found panicked = panicked
  scan_on next found deadlocked = deadlocked
  scan_on next found (failed l e) = failed l e
  scan_on next found (returned l ticks) = next l (found ++ ticks)

  -- The loop over the tables, with what was found before.
  unfoldable pub scan_tables :
      Lsm
      → Option SymbolId
      → TimestampNs
      → TimestampNs
      → List SsTable
      → List Tick
      → Call (List Tick)
  unfolding scan_table takes_table scan_on
  scan_tables l symbol_id t1 t2 [] found = returned l found
  scan_tables l symbol_id t1 t2 (table ∷ tables) found =
      scan_on (λ l' found'. scan_tables l' symbol_id t1 t2 tables found') found
        (scan_table symbol_id t1 t2 table (takes_table l symbol_id t1 t2 table))

  -- The end of `scan`, which sorts what was found and removes duplicates.
  unfoldable pub sorted : Call (List Tick) → Call (List Tick)
  sorted panicked = panicked
  sorted deadlocked = deadlocked
  sorted (failed l e) = failed l e
  sorted (returned l found) = returned l (merge found)

  -- The part of `scan` behind the iteration of the memtable.
  unfoldable pub scan_ticks :
      Lsm → Option SymbolId → TimestampNs → TimestampNs → Option (List Tick) → Call (List Tick)
  unfolding sorted scan_tables
  scan_ticks l symbol_id t1 t2 none = panicked
  scan_ticks l symbol_id t1 t2 (some ticks) = sorted (
      scan_tables l symbol_id t1 t2 (scanned_tables l.compaction.levels)
        (select symbol_id t1 t2 ticks))

  unfoldable pub scan_resolved : Lsm → TimestampNs → TimestampNs → Resolved → Call (List Tick)
  unfolding scan_ticks
  scan_resolved l t1 t2 (not_found symbol) = failed l (symbol_not_found symbol)
  scan_resolved l t1 t2 (resolved symbol_id) = scan_ticks l symbol_id t1 t2 (iter l.memtable)

  unfoldable pub scan : Lsm → Option Symbol → TimestampNs → TimestampNs → Call (List Tick)
  unfolding scan_resolved resolve
  scan l symbol t1 t2 = scan_resolved l t1 t2 (resolve l.symbol_dict symbol)
