-- ===== src/Lsm/Stream/Agreement.antt =====
-- A stream against the scan.
use graphite_tsdb.Prelude.{
  ℕ, suc, ◌≤◌, ◌<◌, ◌≡◌, refl, ap, ◌∙◌, arith, Option, none, some, List, [], ◌∷◌, length, if_elim,
  append-nil, All,
}
use graphite_tsdb.Types.{Column, Key, SymbolId, Tick, TimestampNs, key_of}
use graphite_tsdb.Compression.Dictionary.{Symbol, SymbolDictionary}
use graphite_tsdb.Compression.Rle.{Compressors}
use graphite_tsdb.SkipList.Spec.{Ordered, TicksAbove}
use graphite_tsdb.SkipList.Contents.{Contents-Ordered}
use graphite_tsdb.SkipList.Refinement.{IsSkipList}
use graphite_tsdb.SkipList.Drain.{iter_lem}
use graphite_tsdb.Sorting.{sort, merge}
use graphite_tsdb.Sorting.Two.{merge_two_lem, sort_of-Ordered}
use graphite_tsdb.SsTable.{SsTable}
use graphite_tsdb.Lsm.{Lsm, returned}
use graphite_tsdb.Lsm.Scans.{selects, select, resolved, resolve, scanned_tables, scan}
use graphite_tsdb.Lsm.Scans.Results.{IsOutside, outside, scan-outside}
use graphite_tsdb.Lsm.Stream.{
  ScanParams, ScanStream, with_path, paths_of, new_stream, collect, params_of, started, start,
  start_resolved, scan_stream,
}
use graphite_tsdb.Lsm.Stream.Merging.{collect_lem}

module _ (symbol_id : Option SymbolId) (t1 t2 : TimestampNs) where
  length-select : (ts : List Tick) → length (select symbol_id t1 t2 ts) ≤ length ts
  unfolding select
  length-select [] = omega arith
  length-select (t ∷ ts) =
      if_elim (λ (x : List Tick). length x ≤ suc (length ts)) (selects symbol_id t1 t2 t) _ _
        (λ kept. omega (arith, length-select ts)) (λ dropped. omega (arith, length-select ts))

  select-TicksAbove :
      (k : Key) (ts : List Tick) → TicksAbove k ts → TicksAbove k (select symbol_id t1 t2 ts)
  unfolding select
  select-TicksAbove k [] h = tt
  select-TicksAbove k (t ∷ ts) h =
      if_elim (TicksAbove k) (selects symbol_id t1 t2 t) _ _
        (λ kept. (h.0, select-TicksAbove k ts h.1)) (λ dropped. select-TicksAbove k ts h.1)

  select-Ordered : (ts : List Tick) → Ordered ts → Ordered (select symbol_id t1 t2 ts)
  unfolding select
  select-Ordered [] h = tt
  select-Ordered (t ∷ ts) h =
      if_elim Ordered (selects symbol_id t1 t2 t) _ _
        (λ kept. (select-TicksAbove (key_of t) ts h.0, select-Ordered ts h.1))
        (λ dropped. select-Ordered ts h.1)

-- The stream takes no table that lies outside of the range.
paths_of-outside :
    (dict : SymbolDictionary) (params : ScanParams) (tables : List SsTable)
    → All (IsOutside params.t1 params.t2) tables
    → paths_of dict params tables ≡ some []
unfolding paths_of with_path
paths_of-outside dict params [] h = refl
paths_of-outside dict params (table ∷ tables) h =
    rw (outside params.t1 params.t2 table h.0) (rw (paths_of-outside dict params tables h.1) refl)

module _ (c : Compressors) (sub add : ℕ → ℕ → ℕ) (from_utf8_lossy : List ℕ → Symbol) where
  -- A scan and a stream over a valid memtable whose tables all lie outside of the range, and whose
  -- symbol, if one is given, has an identifier: the stream, when it is collected, gives what the scan
  -- returns. One round more than the number of the ticks of the memtable is fuel enough.
  pub collect-scan :
      (l : Lsm) (ts : List Tick) (symbol : Option Symbol) (symbol_id : Option SymbolId)
      (t1 t2 : TimestampNs) (columns : List Column) (fuel : ℕ)
      → IsSkipList l.memtable ts
      → resolve l.symbol_dict symbol ≡ resolved symbol_id
      → All (IsOutside t1 t2) (scanned_tables l.compaction.levels)
      → length ts < fuel
      → (s : ScanStream) × ((result : List Tick) × ((scan c sub add from_utf8_lossy l symbol t1 t2
              ≡ returned l result)
            × ((scan_stream l symbol t1 t2 columns ≡ started s)
                × (collect c sub add from_utf8_lossy fuel s ≡ some result))))
  unfolding scan_stream start_resolved start new_stream params_of
  collect-scan l ts symbol symbol_id t1 t2 columns fuel inv named away enough =
      let own = select symbol_id t1 t2 ts in
      let params = params_of symbol t1 t2 columns symbol_id in
      let in_order =
        select-Ordered symbol_id t1 t2 ts
          (Contents-Ordered l.memtable.heap (inv.cells 0) ts inv.contents (inv.levels.sorted 0)) in
      let s : ScanStream = record {
        memtable_ticks = sort own;
        memtable_idx = 0;
        sstable_paths = [];
        sstable_idx = 0;
        current_batch = [];
        current_batch_idx = 0;
        params = params;
        last_key = none;
        next_id = l.next_id;
      } in
      let made : new_stream l.memtable (scanned_tables l.compaction.levels) l.symbol_dict params
            l.next_id
          ≡ some s =
        rw
          (
            iter_lem l.memtable ts inv,
            paths_of-outside l.symbol_dict params (scanned_tables l.compaction.levels) away,
          )
          refl in
      (
        s,
        (
          merge own,
          (
            scan-outside c sub add from_utf8_lossy l ts symbol symbol_id t1 t2 inv named away,
            (
              ap (start_resolved l symbol t1 t2 columns) named ∙ ap start made,
              collect_lem c sub add from_utf8_lossy fuel s own []
                    (sort_of-Ordered own in_order, (refl, omega arith)) in_order tt tt tt
                    (omega (arith, length-select symbol_id t1 t2 ts))
                  ∙ ap some (merge_two_lem own [] in_order tt ∙ ap merge (append-nil own)),
            ),
          ),
        ),
      )
