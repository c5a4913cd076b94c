-- ===== src/Lsm/Scans/Results.antt =====
-- What a scan returns.
use mathlib.Core.Path.{subst}
use graphite_tsdb.Prelude.{
  ℕ, ◌+◌, ◌≡◌, refl, sym, ap, ◌∙◌, ◌⊎◌, arith, Bool, true, false, ◌&&◌, not, Bool-cases, inl, inr,
  Option, none, some, List, [], ◌∷◌, ◌++◌, append-nil, append_assoc, if◌then◌else◌, leb, ◌==◌, All,
}
use graphite_tsdb.Prelude.Int.{ℤ, pos_part, neg_part, ltb_ℤ}
use graphite_tsdb.Types.{Key, SymbolId, Tick, TimestampNs, key_of}
use graphite_tsdb.Compression.Dictionary.{Symbol}
use graphite_tsdb.Compression.Rle.{Compressors}
use graphite_tsdb.SkipList.{key_eq}
use graphite_tsdb.SkipList.Cells.{key_eq→eq}
use graphite_tsdb.SkipList.Spec.{find, find_above, Ordered, TicksAbove}
use graphite_tsdb.SkipList.Contents.{Contents-Ordered}
use graphite_tsdb.SkipList.Refinement.{IsSkipList}
use graphite_tsdb.SkipList.Drain.{iter_lem}
use graphite_tsdb.Sorting.{merge}
use graphite_tsdb.Sorting.Merge.{merge_lem}
use graphite_tsdb.SsTable.{SsTable, overlaps_time_range}
use graphite_tsdb.Lsm.{Lsm, Call, returned, failed, panicked, deadlocked}
use graphite_tsdb.Lsm.Scans.{
  selects, select, resolved, resolve, scanned_tables, takes_table, scan_table, scan_on, scan_tables,
  sorted, scan_ticks, scan_resolved, scan,
}

abbrev leb_ℤ : ℤ → ℤ → Bool
leb_ℤ a b = leb (pos_part a + neg_part b) (pos_part b + neg_part a)

-- A tick is asked for if its time is between the bounds, these included, and if it has the symbol
-- that is named, if one is.
unfoldable pub is_asked : Option SymbolId → TimestampNs → TimestampNs → Tick → Bool
is_asked none t1 t2 t = leb_ℤ t1 t.timestamp && leb_ℤ t.timestamp t2
is_asked (some symbol_id) t1 t2 t =
    leb_ℤ t1 t.timestamp && leb_ℤ t.timestamp t2 && (t.symbol_id == symbol_id)

-- A tick, if it is there and is asked for.
unfoldable pub asked : Option SymbolId → TimestampNs → TimestampNs → Option Tick → Option Tick
asked symbol_id t1 t2 none = none
asked symbol_id t1 t2 (some t) = if is_asked symbol_id t1 t2 t then some t else none

-- All ticks of the table are before the range or behind it.
abbrev pub IsOutside : TimestampNs → TimestampNs → SsTable → Type 0
IsOutside t1 t2 table =
    (ltb_ℤ table.meta.max_timestamp t1 ≡ true) ⊎ (ltb_ℤ t2 table.meta.min_timestamp ≡ true)

not_later : (a b : ℤ) → not (ltb_ℤ b a) ≡ leb_ℤ a b
not_later a b = ground arith

selects-is_asked :
    (symbol_id : Option SymbolId) (t1 t2 : TimestampNs) (t : Tick)
    → selects symbol_id t1 t2 t ≡ is_asked symbol_id t1 t2 t
unfolding selects is_asked
selects-is_asked none t1 t2 t =
    rw (not_later t1 t.timestamp, not_later t.timestamp t2)
      (and_true (leb_ℤ t1 t.timestamp) (leb_ℤ t.timestamp t2))
  where
    and_true : (a b : Bool) → (a && b && true) ≡ (a && b)
    and_true a b = ground arith
selects-is_asked (some symbol_id) t1 t2 t =
    rw (not_later t1 t.timestamp, not_later t.timestamp t2) refl

pub outside :
    (t1 t2 : TimestampNs) (table : SsTable)
    → IsOutside t1 t2 table
    → overlaps_time_range table.meta t1 t2 ≡ false
unfolding overlaps_time_range
outside t1 t2 table (inl before) = rw before refl
outside t1 t2 table (inr behind) = rw behind (both (not (ltb_ℤ table.meta.max_timestamp t1)))
  where
    both : (b : Bool) → (b && false) ≡ false
    both b = ground arith

find-select :
    (symbol_id : Option SymbolId) (t1 t2 : TimestampNs) (k : Key) (ts : List Tick)
    → Ordered ts
    → find k (select symbol_id t1 t2 ts) ≡ asked symbol_id t1 t2 (find k ts)
unfolding find select asked
find-select symbol_id t1 t2 k [] h = refl
find-select symbol_id t1 t2 k (t ∷ ts) h = elim (Bool-cases (key_eq (key_of t) k)) [
  | inl same ↦
      let is : key_of t ≡ k = key_eq→eq (key_of t) k same in
      let above : find k ts ≡ none = find_above k ts (subst (λ x. TicksAbove x ts) is h.0) in
      let rest : find k (select symbol_id t1 t2 ts) ≡ none =
        find-select symbol_id t1 t2 k ts h.1 ∙ ap (asked symbol_id t1 t2) above in
      elim (Bool-cases (selects symbol_id t1 t2 t)) [
        | inl yes_e ↦
            let is_e : is_asked symbol_id t1 t2 t ≡ true =
              sym (selects-is_asked symbol_id t1 t2 t) ∙ yes_e in
            rw (yes_e, same, is_e) refl
        | inr no_e ↦
            let is_e : is_asked symbol_id t1 t2 t ≡ false =
              sym (selects-is_asked symbol_id t1 t2 t) ∙ no_e in
            rw (no_e, same, is_e) rest
      ]
  | inr other ↦ elim (Bool-cases (selects symbol_id t1 t2 t)) [
    | inl yes_e ↦ rw (yes_e, other) (find-select symbol_id t1 t2 k ts h.1)
    | inr no_e ↦ rw (no_e, other) (find-select symbol_id t1 t2 k ts h.1)
  ]
]

module _ (c : Compressors) (sub add : ℕ → ℕ → ℕ) (from_utf8_lossy : List ℕ → Symbol) where
  -- A call with some ticks in front of what it returns.
  with_front : List Tick → Call (List Tick) → Call (List Tick)
  with_front front panicked = panicked
  with_front front deadlocked = deadlocked
  with_front front (failed l e) = failed l e
  with_front front (returned l ticks) = returned l (front ++ ticks)

  scan_on-front :
      (next : Lsm → List Tick → Call (List Tick)) (front found : List Tick)
      (call : Call (List Tick))
      → ((l : Lsm) (ts : List Tick) → next l (front ++ ts) ≡ with_front front (next l ts))
      → scan_on c sub add from_utf8_lossy next (front ++ found) call
        ≡ with_front front (scan_on c sub add from_utf8_lossy next found call)
  unfolding scan_on with_front
  scan_on-front next front found panicked h = refl
  scan_on-front next front found deadlocked h = refl
  scan_on-front next front found (failed l e) h = refl
  scan_on-front next front found (returned l ticks) h =
      ap (next l) (append_assoc front found ticks) ∙ h l (found ++ ticks)

  scan_tables-front :
      (l : Lsm) (symbol_id : Option SymbolId) (t1 t2 : TimestampNs) (tables : List SsTable)
      (front found : List Tick)
      → scan_tables c sub add from_utf8_lossy l symbol_id t1 t2 tables (front ++ found)
        ≡ with_front front (scan_tables c sub add from_utf8_lossy l symbol_id t1 t2 tables found)
  unfolding scan_tables with_front
  scan_tables-front l symbol_id t1 t2 [] front found = refl
  scan_tables-front l symbol_id t1 t2 (table ∷ tables) front found =
      scan_on-front (λ l' ts. scan_tables c sub add from_utf8_lossy l' symbol_id t1 t2 tables ts)
        front found
        (scan_table c sub add from_utf8_lossy symbol_id t1 t2 table
          (takes_table l symbol_id t1 t2 table))
        (λ l' ts. scan_tables-front l' symbol_id t1 t2 tables front ts)

  -- The loop over tables outside of the range reads none of them.
  scan_tables-outside :
      (l : Lsm) (symbol_id : Option SymbolId) (t1 t2 : TimestampNs) (tables : List SsTable)
      → All (IsOutside t1 t2) tables
      → scan_tables c sub add from_utf8_lossy l symbol_id t1 t2 tables [] ≡ returned l []
  unfolding scan_tables scan_table takes_table scan_on
  scan_tables-outside l symbol_id t1 t2 [] h = refl
  scan_tables-outside l none t1 t2 (table ∷ tables) h =
      rw (outside t1 t2 table h.0) (scan_tables-outside l none t1 t2 tables h.1)
  scan_tables-outside l (some sid) t1 t2 (table ∷ tables) h =
      rw (outside t1 t2 table h.0) (scan_tables-outside l (some sid) t1 t2 tables h.1)

  -- What a scan that reads no table returns.
  pub scan-outside :
      (l : Lsm) (ts : List Tick) (symbol : Option Symbol) (symbol_id : Option SymbolId)
      (t1 t2 : TimestampNs)
      → IsSkipList l.memtable ts
      → resolve l.symbol_dict symbol ≡ resolved symbol_id
      → All (IsOutside t1 t2) (scanned_tables l.compaction.levels)
      → scan c sub add from_utf8_lossy l symbol t1 t2
        ≡ returned l (merge (select symbol_id t1 t2 ts))
  unfolding scan scan_resolved scan_ticks with_front sorted
  scan-outside l ts symbol symbol_id t1 t2 inv named away =
      let own = select symbol_id t1 t2 ts in
      let tables = scanned_tables l.compaction.levels in
      let all : scan_tables c sub add from_utf8_lossy l symbol_id t1 t2 tables own
          ≡ returned l own =
        ap (scan_tables c sub add from_utf8_lossy l symbol_id t1 t2 tables) (sym (append-nil own))
        ∙ scan_tables-front l symbol_id t1 t2 tables own []
        ∙ ap (with_front own) (scan_tables-outside l symbol_id t1 t2 tables away)
        ∙ ap (returned l) (append-nil own) in
      ap (scan_resolved c sub add from_utf8_lossy l t1 t2) named
      ∙ ap (scan_ticks c sub add from_utf8_lossy l symbol_id t1 t2) (iter_lem l.memtable ts inv)
      ∙ ap (sorted c sub add from_utf8_lossy) all

  -- A scan of a valid memtable whose tables all lie outside of the range, whose symbol, if one is
  -- given, has an identifier, leaves the engine as it is. It returns ticks in strictly increasing
  -- order of their keys, and under each key it has the tick of the memtable, if that is there, if its
  -- time is between the bounds, these included, and if it has the symbol.
  pub scan_lem :
      (l : Lsm) (ts : List Tick) (symbol : Option Symbol) (symbol_id : Option SymbolId)
      (t1 t2 : TimestampNs)
      → IsSkipList l.memtable ts
      → resolve l.symbol_dict symbol ≡ resolved symbol_id
      → All (IsOutside t1 t2) (scanned_tables l.compaction.levels)
      → (result : List Tick) × ((scan c sub add from_utf8_lossy l symbol t1 t2 ≡ returned l result)
          × (Ordered result × ((k : Key) → find k result ≡ asked symbol_id t1 t2 (find k ts))))
  scan_lem l ts symbol symbol_id t1 t2 inv named away =
      let own = select symbol_id t1 t2 ts in
      let ordered =
        Contents-Ordered l.memtable.heap (inv.cells 0) ts inv.contents (inv.levels.sorted 0) in
      let (sorted_all, same) = merge_lem own in
      (
        merge own,
        (
          scan-outside l ts symbol symbol_id t1 t2 inv named away,
          (sorted_all, λ k. same k ∙ find-select symbol_id t1 t2 k ts ordered),
        ),
      )
