-- ===== src/SsTable/Pruning.antt =====
-- The tests that leave a table out of a scan, against the filters that a scan applies to its ticks.
use mathlib.Core.Option.{some-injective}
use mathlib.Core.Path.{subst}
use graphite_tsdb.Prelude.{
  ℕ, zero, suc, ◌≤◌, ◌≡◌, ap, arith, true, Option, none, some, List, [], ◌∷◌, get_elem?, min, max,
}
use graphite_tsdb.Prelude.Int.{ℤ, ◌≤ℤ◌}
use graphite_tsdb.Types.{Tick, SymbolId, TimestampNs}
use graphite_tsdb.SsTable.{overlaps_time_range, overlaps_symbol}
use graphite_tsdb.SsTable.Write.{min_symbol, max_symbol, last_timestamp, meta_of}
use graphite_tsdb.SsTable.Read.{keeps}

min_symbol-le : (least : SymbolId) (ticks : List Tick) → min_symbol least ticks ≤ least
unfolding min_symbol
min_symbol-le least [] = omega arith
min_symbol-le least (t ∷ ts) = omega (arith, min_symbol-le (min least t.symbol_id) ts)

max_symbol-ge : (most : SymbolId) (ticks : List Tick) → most ≤ max_symbol most ticks
unfolding max_symbol
max_symbol-ge most [] = omega arith
max_symbol-ge most (t ∷ ts) = omega (arith, max_symbol-ge (max most t.symbol_id) ts)

-- The bounds of the symbols hold for every tick.
symbols_bounded :
    (least most : SymbolId) (ticks : List Tick) (i : ℕ) (t : Tick)
    → get_elem? ticks i ≡ some t
    → (min_symbol least ticks ≤ t.symbol_id) × (t.symbol_id ≤ max_symbol most ticks)
unfolding min_symbol max_symbol
symbols_bounded least most [] i t e = absurd (ground (arith, e))
symbols_bounded least most (x ∷ xs) zero t e =
    let is : x.symbol_id ≡ t.symbol_id = ap (λ (u : Tick). u.symbol_id) (some-injective x t e) in
    (
      omega (arith, is, min_symbol-le (min least x.symbol_id) xs),
      omega (arith, is, max_symbol-ge (max most x.symbol_id) xs),
    )
symbols_bounded least most (x ∷ xs) (suc i) t e =
    symbols_bounded (min least x.symbol_id) (max most x.symbol_id) xs i t e

-- The timestamps do not decrease, after `prev`.
abbrev pub NonDecreasing : TimestampNs → List Tick → Type 0
NonDecreasing prev [] = Unit
NonDecreasing prev (t ∷ ts) = (prev ≤ℤ t.timestamp) × NonDecreasing t.timestamp ts

last_timestamp-ge :
    (prev : TimestampNs) (ticks : List Tick)
    → NonDecreasing prev ticks
    → prev ≤ℤ last_timestamp prev ticks
unfolding last_timestamp
last_timestamp-ge prev [] h = omega arith
last_timestamp-ge prev (t ∷ ts) (h, hs) = omega (arith, last_timestamp-ge t.timestamp ts hs)

timestamps_bounded :
    (first : TimestampNs) (ticks : List Tick) (i : ℕ) (t : Tick)
    → NonDecreasing first ticks
    → get_elem? ticks i ≡ some t
    → (first ≤ℤ t.timestamp) × (t.timestamp ≤ℤ last_timestamp first ticks)
unfolding last_timestamp
timestamps_bounded first [] i t h e = absurd (ground (arith, e))
timestamps_bounded first (x ∷ xs) zero t (h, hs) e =
    let is : x.timestamp ≡ t.timestamp = ap (λ (u : Tick). u.timestamp) (some-injective x t e) in
    (
      subst (λ (s : ℤ). first ≤ℤ s) is h,
      subst (λ (s : ℤ). s ≤ℤ last_timestamp x.timestamp xs) is
          (last_timestamp-ge x.timestamp xs hs),
    )
timestamps_bounded first (x ∷ xs) (suc i) t (h, hs) e =
    let (above, below) = timestamps_bounded x.timestamp xs i t hs e in (omega arith, below)

-- When a scan keeps one of the ticks a table was written from, the table's range of symbols has the
-- tick's symbol.
pub overlaps_symbol-meta_of :
    (first : Tick) (rest : List Tick) (level i : ℕ) (t : Tick)
    → get_elem? (first ∷ rest) i ≡ some t
    → overlaps_symbol (meta_of (first ∷ rest) level) t.symbol_id ≡ true
unfolding overlaps_symbol meta_of
overlaps_symbol-meta_of first rest level i t e = let (least, most) = bounds i e in ground arith
  where
    bounds :
        (j : ℕ)
        → get_elem? (first ∷ rest) j ≡ some t
        → (min_symbol first.symbol_id rest ≤ t.symbol_id)
          × (t.symbol_id ≤ max_symbol first.symbol_id rest)
    bounds zero e =
        let is : first.symbol_id ≡ t.symbol_id =
          ap (λ (u : Tick). u.symbol_id) (some-injective first t e) in
        (
          omega (arith, is, min_symbol-le first.symbol_id rest),
          omega (arith, is, max_symbol-ge first.symbol_id rest),
        )
    bounds (suc j) e = symbols_bounded first.symbol_id first.symbol_id rest j t e

-- A table is never left out of a scan that keeps one of its ticks, if the timestamps of the ticks it
-- was written from do not decrease: both the test of the times and the test of the tick's symbol
-- pass.
pub pruning_keeps :
    (first : Tick) (rest : List Tick) (level i : ℕ) (t : Tick) (symbol : Option SymbolId)
    (t1 t2 : TimestampNs)
    → NonDecreasing first.timestamp rest
    → get_elem? (first ∷ rest) i ≡ some t
    → keeps symbol t1 t2 t.symbol_id t.timestamp ≡ true
    → (overlaps_time_range (meta_of (first ∷ rest) level) t1 t2 ≡ true)
      × (overlaps_symbol (meta_of (first ∷ rest) level) t.symbol_id ≡ true)
unfolding overlaps_time_range meta_of keeps
pruning_keeps first rest level i t symbol t1 t2 sorted e kept =
    let (above, below) = bounds i e in
    (times symbol kept above below, overlaps_symbol-meta_of first rest level i t e)
  where
    bounds :
        (j : ℕ)
        → get_elem? (first ∷ rest) j ≡ some t
        → (first.timestamp ≤ℤ t.timestamp) × (t.timestamp ≤ℤ last_timestamp first.timestamp rest)
    bounds zero e =
        let is : first.timestamp ≡ t.timestamp =
          ap (λ (u : Tick). u.timestamp) (some-injective first t e) in
        (
          subst (λ (s : ℤ). first.timestamp ≤ℤ s) is (omega arith),
          subst (λ (s : ℤ). s ≤ℤ last_timestamp first.timestamp rest) is
              (last_timestamp-ge first.timestamp rest sorted),
        )
    bounds (suc j) e = timestamps_bounded first.timestamp rest j t sorted e

    times :
        (s : Option SymbolId)
        → keeps s t1 t2 t.symbol_id t.timestamp ≡ true
        → first.timestamp ≤ℤ t.timestamp
        → t.timestamp ≤ℤ last_timestamp first.timestamp rest
        → overlaps_time_range (meta_of (first ∷ rest) level) t1 t2 ≡ true
    times none k a b = ground arith
    times (some sid) k a b = ground arith
