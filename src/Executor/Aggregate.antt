-- ===== src/Executor/Aggregate.antt =====
-- graphite/src/gql/executor.rs: the aggregation by intervals.
pub mod Bars
use graphite_tsdb.Prelude.{
  ℕ, zero, suc, ◌+◌, ◌*◌, ◌/◌, ◌%◌, ◌^◌, ◌≡◌, refl, sym, ap, ◌∙◌, arith, Bool, true, false, List,
  [], ◌∷◌, ◌++◌, map, ltb, if◌then◌else◌, ◌==◌, Bool-cases, inl, inr,
}
use graphite_tsdb.Prelude.Int.{ℤ, pos, negsuc}
use graphite_tsdb.Prelude.Text.{Text}
use graphite_tsdb.Types.{Tick}
use graphite_tsdb.Gql.{AggregateFn, GroupByClause, nanos}
use graphite_tsdb.Executor.{FloatOps, OhlcvBar, ResultRow}

-- An integer minus a natural number's opposite: `-n`.
negate : ℕ → ℤ
negate zero = pos 0
negate (suc n) = negsuc n

-- `/` of `i64` by a positive number rounds towards zero, and the product is `timestamp`'s bucket.
pub bucket_of : ℤ → ℕ → ℤ
unfolding negate
bucket_of (pos n) interval = pos (n / interval * interval)
bucket_of (negsuc n) interval = negate (suc n / interval * interval)

ℤ_eq : ℤ → ℤ → Bool
ℤ_eq (pos a) (pos b) = a == b
ℤ_eq (negsuc a) (negsuc b) = a == b
ℤ_eq (pos a) (negsuc b) = false
ℤ_eq (negsuc a) (pos b) = false

interval_ns : GroupByClause → ℕ
unfolding nanos
interval_ns g = elim (nanos g.interval) [ pos n ↦ n | negsuc n ↦ 0 ]

module _ (f : FloatOps) (interval : ℕ) where
  new_bar : Tick → OhlcvBar
  unfolding bucket_of
  new_bar t = record {
    timestamp = bucket_of t.timestamp interval;
    open_price = t.open_price;
    high = t.high;
    low = t.low;
    close = t.close;
    volume = t.volume;
  }

  merge_tick : OhlcvBar → Tick → OhlcvBar
  merge_tick b t = record b {
    high = f.max b.high t.high;
    low = f.min b.low t.low;
    close = t.close;
    volume = (b.volume + t.volume) % 2 ^ 64;
  }

  -- The body of the loop: the last bar takes the tick, or a new bar is pushed.
  add_tick : List OhlcvBar → Tick → List OhlcvBar
  unfolding new_bar merge_tick bucket_of ℤ_eq
  add_tick [] t = new_bar t ∷ []
  add_tick (b ∷ []) t =
      if ℤ_eq b.timestamp (bucket_of t.timestamp interval)
      then merge_tick b t ∷ []
      else b ∷ new_bar t ∷ []
  add_tick (b ∷ c ∷ bars) t = b ∷ add_tick (c ∷ bars) t

  bars_loop : List OhlcvBar → List Tick → List OhlcvBar
  unfolding add_tick
  bars_loop bars [] = bars
  bars_loop bars (t ∷ ticks) = bars_loop (add_tick bars t) ticks

  pub bars_of : List Tick → List OhlcvBar
  unfolding bars_loop
  bars_of ticks = bars_loop [] ticks

abbrev float_zero : ℕ
float_zero = 0

-- The bit pattern of 1.0.
abbrev float_one : ℕ
float_one = 0x3ff0000000000000

module _ (f : FloatOps) where
  bar_to_row : AggregateFn → Text → OhlcvBar → ResultRow
  bar_to_row AggregateFn.sum symbol b = record {
    timestamp = b.timestamp;
    symbol = symbol;
    open_price = float_zero;
    high = float_zero;
    low = float_zero;
    close = f.of_u64 b.volume;
    volume = b.volume;
  }
  bar_to_row AggregateFn.count symbol b = record {
    timestamp = b.timestamp;
    symbol = symbol;
    open_price = float_zero;
    high = float_zero;
    low = float_zero;
    close = float_one;
    volume = 1;
  }
  bar_to_row _ symbol b = record {
    timestamp = b.timestamp;
    symbol = symbol;
    open_price = b.open_price;
    high = b.high;
    low = b.low;
    close = b.close;
    volume = b.volume;
  }

  -- The sum of price times volume, and the volume.
  vwap_loop : ℕ → ℕ → List Tick → ℕ × ℕ
  vwap_loop total_pv total_vol [] = (total_pv, total_vol)
  vwap_loop total_pv total_vol (t ∷ ticks) =
      vwap_loop (f.add total_pv (f.mul t.close (f.of_u64 t.volume)))
        ((total_vol + t.volume) % 2 ^ 64) ticks

  first_timestamp : List Tick → ℤ
  first_timestamp [] = pos 0
  first_timestamp (t ∷ ticks) = t.timestamp

  vwap_row : Text → List Tick → ResultRow
  unfolding vwap_loop first_timestamp
  vwap_row symbol ticks =
      let (total_pv, total_vol) = vwap_loop float_zero 0 ticks in
      let vwap = if ltb 0 total_vol then f.div total_pv (f.of_u64 total_vol) else float_zero in
      record {
        timestamp = first_timestamp ticks;
        symbol = symbol;
        open_price = vwap;
        high = vwap;
        low = vwap;
        close = vwap;
        volume = total_vol;
      }

  pub aggregate : List Tick → GroupByClause → Text → List ResultRow
  unfolding bars_of interval_ns bar_to_row vwap_row
  aggregate ticks g symbol = elim (g.aggregate) [
    | AggregateFn.vwap ↦ vwap_row symbol ticks ∷ []
    | other ↦ map (bar_to_row other symbol) (bars_of f (interval_ns g) ticks)
  ]
