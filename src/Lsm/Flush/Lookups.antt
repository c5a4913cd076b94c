-- ===== src/Lsm/Flush/Lookups.antt =====
-- A tick before and after the flush of the memtable that has it.
use mathlib.Core.List.{reverse-append}
use graphite_tsdb.Prelude.{
  ℕ, ◌+◌, ◌-◌, ◌^◌, ◌<◌, ◌≡◌, refl, ap, ◌∙◌, arith, true, none, some, List, [], ◌∷◌, length,
  get_elem?, max, All,
}
use graphite_tsdb.Types.{Key, Tick, key_of}
use graphite_tsdb.Bloom.{FloatOps, optimal_num_bits, contains}
use graphite_tsdb.Compression.Dictionary.{Symbol, SymbolDictionary, get_id}
use graphite_tsdb.Compression.Rle.{Compressors}
use graphite_tsdb.Wal as Wal
use graphite_tsdb.SkipList as Memtable
use graphite_tsdb.SkipList.{SkipList, drain}
use graphite_tsdb.SkipList.Spec.{find, find-get_elem?}
use graphite_tsdb.SkipList.Contents.{Contents-Ordered}
use graphite_tsdb.SkipList.Refinement.{IsSkipList, get_lem}
use graphite_tsdb.SkipList.Drain.{drain_lem}
use graphite_tsdb.SsTable.{SsTable, panics, may_contain_key, overlaps_time_range, overlaps_symbol}
use graphite_tsdb.SsTable.Read.{open_table, keeps}
use graphite_tsdb.SsTable.Write.{write, meta_of, bloom_keys}
use graphite_tsdb.SsTable.Keys.{write_lem, bloom_keys-key}
use graphite_tsdb.SsTable.Pruning.{NonDecreasing, pruning_keeps}
use graphite_tsdb.SsTable.Reopen.{open_table-write}
use graphite_tsdb.Compaction.{Level, add_table}
use graphite_tsdb.Lsm.{
  unlocked, read_lock, flush_memtable, flush_ticks, flush_written, Lsm, returned, panicked, get,
  get_named, get_behind, search_tables, search_round, search_table, search_opened, found_or,
  tables_of,
}

module _ (c : Compressors) (sub add : ℕ → ℕ → ℕ) (from_utf8_lossy : List ℕ → Symbol) where
  -- A table that takes a key and cannot be opened.
  pub search_tables-broken :
      (l : Lsm) (key : Key) (table : SsTable) (tables : List SsTable)
      → may_contain_key table key ≡ some true
      → overlaps_time_range table.meta key.timestamp key.timestamp ≡ true
      → overlaps_symbol table.meta key.symbol_id ≡ true
      → ((id : ℕ) → open_table from_utf8_lossy id table.file ≡ panics)
      → search_tables c sub add from_utf8_lossy l key (table ∷ tables) ≡ panicked
  unfolding search_tables search_round search_table search_opened found_or
  search_tables-broken l key table tables has times symbols broken =
      let next = λ (l' : Lsm). search_tables c sub add from_utf8_lossy l' key tables in
      let checked = record l { bloom_checks = l.bloom_checks + 1 } in
      let hit = record checked { bloom_hits = l.bloom_hits + 1 } in
      ap (search_round c sub add from_utf8_lossy next checked key table) has
      ∙ rw (times, symbols)
          (ap
            (λ o. found_or c sub add from_utf8_lossy next (
              search_opened c sub add from_utf8_lossy (record hit { next_id = hit.next_id + 1 }) key
                o))
            (broken l.next_id))

  -- The newest table of the first level is the first that a look-up asks.
  tables_of-newest :
      (l0 : Level) (levels : List Level) (table : SsTable)
      → tables_of c sub add from_utf8_lossy (add_table l0 table ∷ levels)
        ≡ table ∷ tables_of c sub add from_utf8_lossy (l0 ∷ levels)
  unfolding tables_of add_table
  tables_of-newest l0 levels table = rw (reverse-append l0.tables (table ∷ [])) refl

keeps_own : (t : Tick) → keeps none t.timestamp t.timestamp t.symbol_id t.timestamp ≡ true
unfolding keeps
keeps_own t = ground arith

-- A table with the ranges of some ticks, whose filter has their keys, is not left out of a look-up.
asks_table :
    (table : SsTable) (tick : Tick) (ticks : List Tick) (dict : SymbolDictionary) (i : ℕ) (t : Tick)
    → table.meta ≡ record (meta_of (tick ∷ ticks) 0) { file_size = length table.file }
    → All (λ key. contains table.bloom key ≡ some true) (bloom_keys dict (tick ∷ ticks))
    → NonDecreasing tick.timestamp ticks
    → get_elem? (tick ∷ ticks) i ≡ some t
    → (may_contain_key table (key_of t) ≡ some true)
      × ((overlaps_time_range table.meta t.timestamp t.timestamp ≡ true)
          × (overlaps_symbol table.meta t.symbol_id ≡ true))
unfolding may_contain_key overlaps_time_range overlaps_symbol
asks_table table tick ticks dict i t meta has sorted at =
    let (times, symbols) =
      pruning_keeps tick ticks 0 i t none t.timestamp t.timestamp sorted at (keeps_own t) in
    (
      bloom_keys-key (λ key. contains table.bloom key ≡ some true) dict (tick ∷ ticks) i t has at,
      (rw meta times, rw meta symbols),
    )

module _ (ops : FloatOps) (c : Compressors) (sub add : ℕ → ℕ → ℕ)
    (from_utf8_lossy : List ℕ → Symbol) where
  -- The memtable of an engine holds ticks whose timestamps do not decrease, as those of one symbol.
  -- Before the flush a look-up of each finds it. The flush returns, with an empty memtable and log;
  -- from then on the look-up of each of the ticks panics. The ticks are fewer than 65536, the filter
  -- of the table has fewer than 2 ^ 32 bits, and its file is shorter than 2 ^ 63 bytes.
  pub get-flush_memtable :
      (l : Lsm) (tick : Tick) (ticks : List Tick) (l0 : Level) (levels : List Level) (i : ℕ)
      (t : Tick) (symbol : Symbol)
      → IsSkipList l.memtable (tick ∷ ticks)
      → NonDecreasing tick.timestamp ticks
      → l.compaction.levels ≡ l0 ∷ levels
      → optimal_num_bits ops (max (length (tick ∷ ticks)) 1) ops.bloom_fpr < 2 ^ 32
      → length ticks < 2 ^ 16 - 1
      → ((table : SsTable)
          → write ops c sub add l.next_id (tick ∷ ticks) 0 l.symbol_dict ≡ some table
          → length table.file < 2 ^ 63)
      → get_elem? (tick ∷ ticks) i ≡ some t
      → get_id l.symbol_dict symbol ≡ some t.symbol_id
      → (get c sub add from_utf8_lossy l symbol t.timestamp ≡ returned l (some t))
        × ((l' : Lsm) × ((flush_memtable ops c sub add unlocked l ≡ returned l' tt)
              × (IsSkipList l'.memtable []
                  × ((l'.log.file ≡ [])
                      × (get c sub add from_utf8_lossy l' symbol t.timestamp ≡ panicked)))))
  unfolding get get_named get_behind flush_memtable flush_ticks read_lock flush_written Wal.truncate
  get-flush_memtable l tick ticks l0 levels i t symbol inv sorted first few_bits few short at
        named =
      let ordered =
        Contents-Ordered l.memtable.heap (inv.cells 0) (tick ∷ ticks) inv.contents
          (inv.levels.sorted 0) in
      let key = key_of t in
      let held : Memtable.get l.memtable key ≡ some (some t) =
        get_lem l.memtable (tick ∷ ticks) inv key
        ∙ ap some (find-get_elem? (tick ∷ ticks) i t ordered at) in
      let (empty, (drained, inv')) = drain_lem l.memtable (tick ∷ ticks) inv in
      let (table, (written, (meta, has))) =
        write_lem ops c sub add l.next_id (tick ∷ ticks) 0 l.symbol_dict few_bits in
      let broken = λ (id : ℕ).
        open_table-write ops c sub add from_utf8_lossy tick ticks 0 l.symbol_dict l.next_id id table
          written few (short table written) in
      let done = record l {
        memtable = empty;
        compaction = record l.compaction { levels = add_table l0 table ∷ levels };
        log = Wal.truncate l.log;
        next_id = l.next_id + 1;
      } in
      let flushed : flush_memtable ops c sub add unlocked l ≡ returned done tt =
        ap (flush_ticks ops c sub add unlocked l) drained
        ∙ ap (flush_written (record l { memtable = empty })) written
        ∙ rw first refl in
      let absent : Memtable.get empty key ≡ some none =
        get_lem empty [] inv' key ∙ (unfold find in refl) in
      let asked = asks_table table tick ticks l.symbol_dict i t meta has sorted at in
      let rest = tables_of c sub add from_utf8_lossy (l0 ∷ levels) in
      let panics_now : get c sub add from_utf8_lossy done symbol t.timestamp ≡ panicked =
        ap (get_named c sub add from_utf8_lossy done symbol t.timestamp) named
        ∙ ap (get_behind c sub add from_utf8_lossy done key) absent
        ∙ ap (search_tables c sub add from_utf8_lossy done key)
            (tables_of-newest c sub add from_utf8_lossy l0 levels table)
        ∙ search_tables-broken c sub add from_utf8_lossy done key table rest asked.0 asked.1.0
            asked.1.1 broken in
      (
        ap (get_named c sub add from_utf8_lossy l symbol t.timestamp) named
            ∙ ap (get_behind c sub add from_utf8_lossy l key) held,
        (done, (flushed, (inv', (refl, panics_now)))),
      )
