-- ===== src/Executor/Examples.antt =====
-- The executor at concrete ticks, with natural numbers in the place of the prices.
use graphite_tsdb.Prelude.{
  ℕ, ◌+◌, ◌*◌, ◌/◌, ◌%◌, ◌^◌, ◌≤◌, ◌≡◌, refl, ap, true, false, none, some, List, [], ◌∷◌, ◌==◌, ltb,
  leb, min, max, length,
}
use graphite_tsdb.Prelude.Int.{pos}
use graphite_tsdb.Prelude.Text.{codes}
use graphite_tsdb.Types.{Tick}
use graphite_tsdb.Gql.{Query, SelectColumns, PricePredicate}
use graphite_tsdb.Executor.{FloatOps, Engine, ResultRow}
use graphite_tsdb.Executor.Filter.{
  SimdOp, filter, satisfies, simd_filter_prices, scalar_filter_prices, simd_filter_prices-scalar,
}
use graphite_tsdb.Executor.Aggregate.{bars_of}
use graphite_tsdb.Executor.Aggregate.Bars.{bars_of_lem, bars_volume, ticks_volume, IsSplit}
use graphite_tsdb.Executor.Execute.{
  run_query, execute_in, execute, collect_rows-plain, length-execute, limit_rows, rows_only,
  tick_to_row,
}

abbrev floats : FloatOps
floats = record {
  gt = λ a b. ltb b a;
  lt = λ a b. ltb a b;
  ge = λ a b. leb b a;
  le = λ a b. leb a b;
  eq = λ a b. a == b;
  max = λ a b. max a b;
  min = λ a b. min a b;
  add = λ a b. a + b;
  mul = λ a b. a * b;
  div = λ a b. a / b;
  of_u64 = λ a. a;
}

abbrev tick_at : ℕ → ℕ → Tick
tick_at time price = record {
  symbol_id = 0;
  timestamp = pos time;
  open_price = price;
  high = price;
  low = price;
  close = price;
  volume = 5;
}

abbrev five_ticks : List Tick
five_ticks = tick_at 1 10 ∷ tick_at 2 30 ∷ tick_at 3 20 ∷ tick_at 4 40 ∷ tick_at 1000000005 50 ∷ []

abbrev engine : Engine
engine = record { scan = λ symbol t1 t2 columns. some five_ticks; total_rows = 5 }

abbrev query : Query
query = record {
  explain = false;
  columns = SelectColumns.all;
  symbol = codes "AAPL";
  where_clause = record {
    t1 = pos 0;
    t2 = pos 2000000000;
    price_predicate = some (PricePredicate.greater 15);
  };
  limit = some 2;
  group_by = none;
}

simd_filter_prices-scalar_example :
    simd_filter_prices floats true five_ticks 25 SimdOp.greater
    ≡ scalar_filter_prices floats five_ticks 25 SimdOp.greater
simd_filter_prices-scalar_example =
    simd_filter_prices-scalar floats 25 SimdOp.greater true five_ticks

bars_of_lem_example :
    (bars_volume (bars_of floats 1000000000 five_ticks) % 2 ^ 64 ≡ ticks_volume five_ticks % 2 ^ 64)
    × IsSplit (bars_of floats 1000000000 five_ticks)
bars_of_lem_example = bars_of_lem floats 1000000000 five_ticks

abbrev row_at : ℕ → ℕ → ResultRow
row_at time price = record {
  timestamp = pos time;
  symbol = codes "AAPL";
  open_price = price;
  high = price;
  low = price;
  close = price;
  volume = 5;
}

two_rows : execute floats engine true query ≡ some (rows_only (row_at 2 30 ∷ row_at 3 20 ∷ []))
unfolding execute execute_in run_query filter satisfies limit_rows tick_to_row
two_rows = ap some (collect_rows-plain floats true query five_ticks refl)

length-execute_example : length (rows_only (row_at 2 30 ∷ row_at 3 20 ∷ [])).rows ≤ 2
length-execute_example =
    length-execute floats engine true query 2 (rows_only (row_at 2 30 ∷ row_at 3 20 ∷ [])) refl
      two_rows
