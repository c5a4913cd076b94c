-- ===== src/Lsm/Stream.antt =====
-- graphite-core/src/scan_iter.rs and the function of graphite-core/src/lsm.rs that starts it: a scan
-- that loads one table after the other. A path is the bytes of the file; the counter that gives the
-- tables their ids is passed on in the stream. `none` is a panic, or that the fuel is used up.
pub mod Merging
pub mod Agreement
use graphite_tsdb.Prelude.{
  ℕ, zero, suc, ◌+◌, Bool, true, false, ◌&&◌, Option, none, some, List, [], ◌∷◌, ltb, leb,
  if◌then◌else◌, length, get_elem?,
}
use graphite_tsdb.Prelude.Options.{◌>>=◌}
use graphite_tsdb.Types.{Column, Key, SymbolId, Tick, TimestampNs, key_of}
use graphite_tsdb.Compression.Dictionary.{Symbol, SymbolDictionary}
use graphite_tsdb.Compression.Rle.{Compressors}
use graphite_tsdb.SkipList.{SkipList, iter, key_lt, key_eq}
use graphite_tsdb.Sorting.{sort}
use graphite_tsdb.SsTable.{
  SsTable, Outcome, may_contain_symbol, overlaps_time_range, overlaps_symbol,
}
use graphite_tsdb.SsTable.Read as Reader
use graphite_tsdb.SsTable.Read.{open_table}
use graphite_tsdb.Lsm.{Lsm, LsmError, symbol_not_found}
use graphite_tsdb.Lsm.Scans.{
  select, Resolved, resolved, not_found, resolve, name_of, scanned_tables,
}

pub record ScanParams : Type 0 where
  pub symbol_id : Option SymbolId
  pub symbol_name : Option Symbol
  pub t1 : TimestampNs
  pub t2 : TimestampNs
  pub columns : List Column

pub record ScanStream : Type 0 where
  pub memtable_ticks : List Tick
  pub memtable_idx : ℕ
  pub sstable_paths : List (List ℕ)
  pub sstable_idx : ℕ
  pub current_batch : List Tick
  pub current_batch_idx : ℕ
  pub params : ScanParams
  pub last_key : Option Key
  pub next_id : ℕ

-- The test of a table by its symbols.
unfoldable pub has_symbols : SymbolDictionary → SsTable → Option SymbolId → Option Bool
has_symbols dict table none = some true
has_symbols dict table (some sid) = do
  contained ← may_contain_symbol table (name_of dict sid)
  some (contained && overlaps_symbol table.meta sid)

unfoldable pub with_path : Bool → SsTable → List (List ℕ) → List (List ℕ)
with_path true table paths = table.file ∷ paths
with_path false table paths = paths

-- The loop of `new` over the tables.
unfoldable pub paths_of : SymbolDictionary → ScanParams → List SsTable → Option (List (List ℕ))
unfolding has_symbols with_path
paths_of dict params [] = some []
paths_of dict params (table ∷ tables) = do
  taken ←
      if overlaps_time_range table.meta params.t1 params.t2
      then has_symbols dict table params.symbol_id
      else some false
  paths ← paths_of dict params tables
  some (with_path taken table paths)

-- `ScanStream::new`
unfoldable pub new_stream :
    SkipList → List SsTable → SymbolDictionary → ScanParams → ℕ → Option ScanStream
unfolding paths_of
new_stream memtable tables symbol_dict params next_id = do
  ticks ← iter memtable
  paths ← paths_of symbol_dict params tables
  some (record {
    memtable_ticks = sort (select params.symbol_id params.t1 params.t2 ticks);
    memtable_idx = 0;
    sstable_paths = paths;
    sstable_idx = 0;
    current_batch = [];
    current_batch_idx = 0;
    params = params;
    last_key = none;
    next_id = next_id;
  })

unfoldable pub peek_memtable : ScanStream → Option Tick
peek_memtable s = get_elem? s.memtable_ticks s.memtable_idx

unfoldable pub peek_sstable : ScanStream → Option Tick
peek_sstable s = get_elem? s.current_batch s.current_batch_idx

unfoldable pub advance_memtable : ScanStream → ScanStream
advance_memtable s = record s { memtable_idx = s.memtable_idx + 1 }

unfoldable pub advance_sstable : ScanStream → ScanStream
advance_sstable s =
    if leb (length s.current_batch) (s.current_batch_idx + 1)
    then record s { current_batch = []; current_batch_idx = 0 }
    else record s { current_batch_idx = s.current_batch_idx + 1 }

-- The `match` of `next_tick`: the next tick, with the stream behind it.
unfoldable pub take_next : ScanStream → Option Tick → Option Tick → Option (Tick × ScanStream)
unfolding advance_memtable advance_sstable
take_next s none none = none
take_next s (some m) none = some (m, advance_memtable s)
take_next s none (some t) = some (t, advance_sstable s)
take_next s (some m) (some t) =
    if key_lt (key_of m) (key_of t)
    then some (m, advance_memtable s)
    else if key_eq (key_of m) (key_of t)
    then some (m, advance_sstable (advance_memtable s))
    else some (t, advance_sstable s)

-- `last_key == Some(key)`
abbrev pub was_last : Option Key → Key → Bool
was_last none key = false
was_last (some last) key = key_eq last key

module _ (c : Compressors) (sub add : ℕ → ℕ → ℕ) (from_utf8_lossy : List ℕ → Symbol) where
  unfoldable pub batch_read : ScanStream → Outcome (List Tick) → Option ScanStream
  batch_read s Outcome.panics = none
  batch_read s (Outcome.err e) = none
  batch_read s (Outcome.ok ticks) =
      some (record s { current_batch = sort ticks; current_batch_idx = 0 })

  -- The part of `load_next_sstable_batch` behind the opening: a table that cannot be opened is left
  -- out.
  unfoldable pub batch_opened : ScanStream → Outcome SsTable → Option ScanStream
  unfolding batch_read
  batch_opened s Outcome.panics = none
  batch_opened s (Outcome.err e) = some s
  batch_opened s (Outcome.ok table) =
      batch_read s (Reader.scan c sub add table none s.params.symbol_id s.params.t1 s.params.t2)

  unfoldable pub load_path : ScanStream → Option (List ℕ) → Option ScanStream
  unfolding batch_opened
  load_path s none = some s
  load_path s (some file) =
      batch_opened (record s { sstable_idx = s.sstable_idx + 1; next_id = s.next_id + 1 })
        (open_table from_utf8_lossy s.next_id file)

  unfoldable pub load_next_sstable_batch : ScanStream → Option ScanStream
  unfolding load_path
  load_next_sstable_batch s = load_path s (get_elem? s.sstable_paths s.sstable_idx)

  unfoldable pub ensure_sstable_batch : ScanStream → Option ScanStream
  unfolding load_next_sstable_batch
  ensure_sstable_batch s =
      if leb (length s.current_batch) s.current_batch_idx
        && ltb s.sstable_idx (length s.sstable_paths)
      then load_next_sstable_batch s
      else some s

  -- The end of a round of the loop of `next_tick`, with the rest of the loop.
  unfoldable pub deliver :
      (ScanStream → Option (ScanStream × Option Tick))
      → ScanStream
      → Option (Tick × ScanStream)
      → Option (ScanStream × Option Tick)
  deliver next s none = some (s, none)
  deliver next s (some (tick, s')) =
      if was_last s'.last_key (key_of tick)
      then next s'
      else some (record s' { last_key = some (key_of tick) }, some tick)

  unfoldable pub next_round :
      (ScanStream → Option (ScanStream × Option Tick))
      → Option ScanStream
      → Option (ScanStream × Option Tick)
  unfolding deliver take_next peek_memtable peek_sstable
  next_round next none = none
  next_round next (some s) = deliver next s (take_next s (peek_memtable s) (peek_sstable s))

  -- `next_tick`, with fuel for the rounds of its loop.
  unfoldable pub next_tick : ℕ → ScanStream → Option (ScanStream × Option Tick)
  unfolding next_round ensure_sstable_batch
  next_tick zero s = none
  next_tick (suc fuel) s = next_round (λ s'. next_tick fuel s') (ensure_sstable_batch s)

  unfoldable pub collect_on :
      (ScanStream → Option (List Tick)) → Option (ScanStream × Option Tick) → Option (List Tick)
  collect_on next none = none
  collect_on next (some (s, none)) = some []
  collect_on next (some (s, some tick)) = do ticks ← next s; some (tick ∷ ticks)

  -- All ticks that the iterator gives, with fuel for their number.
  unfoldable pub collect : ℕ → ScanStream → Option (List Tick)
  unfolding next_tick collect_on
  collect zero s = none
  collect (suc fuel) s = collect_on (λ s'. collect fuel s') (next_tick (suc fuel) s)

unfoldable pub params_of :
    Option Symbol → TimestampNs → TimestampNs → List Column → Option SymbolId → ScanParams
params_of symbol t1 t2 columns symbol_id = record {
  symbol_id = symbol_id;
  symbol_name = symbol;
  t1 = t1;
  t2 = t2;
  columns = columns;
}

-- How `scan_stream` ends.
pub data Started : Type 0 where
  started : ScanStream → Started
  refused : LsmError → Started
  crashed : Started

unfoldable pub start : Option ScanStream → Started
start none = crashed
start (some s) = started s

-- `scan_params`, and with it the stream.
unfoldable pub start_resolved :
    Lsm → Option Symbol → TimestampNs → TimestampNs → List Column → Resolved → Started
unfolding start new_stream params_of
start_resolved l symbol t1 t2 columns (not_found name) = refused (symbol_not_found name)
start_resolved l symbol t1 t2 columns (resolved symbol_id) = start (
    new_stream l.memtable (scanned_tables l.compaction.levels) l.symbol_dict
      (params_of symbol t1 t2 columns symbol_id) l.next_id)

unfoldable pub scan_stream : Lsm → Option Symbol → TimestampNs → TimestampNs → List Column → Started
unfolding start_resolved
scan_stream l symbol t1 t2 columns =
    start_resolved l symbol t1 t2 columns (resolve l.symbol_dict symbol)
