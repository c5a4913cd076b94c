-- ===== src/Executor/Execute.antt =====
-- graphite/src/gql/executor.rs: the execution of a query, and its explanation.
use graphite_tsdb.Prelude.{
  ℕ, ◌/◌, ◌≤◌, ◌≡◌, refl, ap, arith, Bool, Option, none, some, List, [], map, min, if◌then◌else◌,
  length, take, length-take, Bool-cases, inl, inr,
}
use graphite_tsdb.Prelude.Options.{◌>>=◌}
use graphite_tsdb.Prelude.Int.{ℤ}
use graphite_tsdb.Prelude.Text.{Text}
use graphite_tsdb.Types.{Column, Tick, all_columns}
use graphite_tsdb.Gql.{SelectColumns, PricePredicate, GroupByClause, Query}
use graphite_tsdb.Executor.{
  FloatOps, Engine, ResultRow, Operator, ExplainNode, node, leaf, child, QueryResult,
}
use graphite_tsdb.Executor.Filter.{
  filter, apply_price_filter, satisfies, apply_price_filter-satisfies,
}
use graphite_tsdb.Executor.Aggregate.{aggregate}

unfoldable pub tick_to_row : Tick → Text → ResultRow
tick_to_row t symbol = record {
  timestamp = t.timestamp;
  symbol = symbol;
  open_price = t.open_price;
  high = t.high;
  low = t.low;
  close = t.close;
  volume = t.volume;
}

pub selected_columns : SelectColumns → List Column
selected_columns SelectColumns.all = all_columns
selected_columns (SelectColumns.columns cols) = cols

abbrev pub rows_only : List ResultRow → QueryResult
rows_only rows = record { rows = rows; explain_plan = none }

unfoldable pub limit_rows : Option ℕ → List ResultRow → List ResultRow
limit_rows none rows = rows
limit_rows (some limit) rows = take limit rows

over : Operator → ℕ → ExplainNode → ExplainNode
over op rows below = node op rows (child below leaf)

plan_filter : ℕ → Option PricePredicate → ExplainNode → ExplainNode
unfolding over
plan_filter est_rows none root = root
plan_filter est_rows (some p) root = over Operator.simd_price_filter (est_rows / 2) root

plan_group : ℕ → Option GroupByClause → ExplainNode → ExplainNode
unfolding over
plan_group est_rows none root = root
plan_group est_rows (some g) root = over (Operator.stream_aggregate g) (est_rows / 100) root

plan_limit : Option ℕ → ExplainNode → ExplainNode
unfolding over
plan_limit none root = root
plan_limit (some n) root = over (Operator.limit n) n root

plan_root : ExplainNode → ExplainNode
unfolding over
plan_root (node op rows children) = over Operator.query_root rows (node op rows children)

pub build_explain_plan : ℕ → Query → ExplainNode
unfolding over plan_filter plan_group plan_limit plan_root
build_explain_plan total_rows q =
    let est_rows = total_rows / 10 in
    let scan = over (Operator.ss_table_scan q.symbol) est_rows (
      over (Operator.bloom_filter_pushdown q.where_clause.t1 q.where_clause.t2) est_rows
        (node Operator.mem_table_scan (min total_rows 10000) leaf)) in
    plan_root (
      plan_limit q.limit
        (plan_group est_rows q.group_by (plan_filter est_rows q.where_clause.price_predicate scan)))

-- A call of the scan of an engine, with what is made of the ticks.
abbrev pub ScanCall : Type 0 → Type 0
ScanCall R = Option Text → ℤ → ℤ → List Column → (List Tick → QueryResult) → R

module _ (f : FloatOps) (avx2 : Bool) where
  rows_of : Query → List Tick → List ResultRow
  unfolding tick_to_row
  rows_of q filtered = elim (q.group_by) [
    | some g ↦ aggregate f filtered g q.symbol
    | none ↦ map (λ (t : Tick). tick_to_row t q.symbol) filtered
  ]

  -- The part of `execute` behind the scan.
  unfoldable pub collect_rows : Query → List Tick → QueryResult
  unfolding rows_of limit_rows
  collect_rows q ticks = rows_only (
      limit_rows q.limit
        (rows_of q (apply_price_filter f avx2 ticks q.where_clause.price_predicate)))

  unfoldable pub run_query : {R : Type 0} → ScanCall R → Query → R
  unfolding selected_columns collect_rows
  run_query scan q =
      scan (some q.symbol) q.where_clause.t1 q.where_clause.t2 (selected_columns q.columns)
        (collect_rows q)

  -- `execute` on an engine with `total_rows` rows, whose calls end in any type `R`.
  unfoldable pub execute_in : {R : Type 0} → ℕ → ScanCall R → (QueryResult → R) → Query → R
  unfolding build_explain_plan run_query
  execute_in total_rows scan done q =
      if q.explain
      then done (record { rows = []; explain_plan = some (build_explain_plan total_rows q) })
      else run_query scan q

  -- A query that is not grouped gives one row for each scanned tick whose close satisfies the price
  -- predicate, in the order of the scan, up to the limit.
  pub collect_rows-plain :
      (q : Query) (ticks : List Tick)
      → q.group_by ≡ none
      → collect_rows q ticks
        ≡ rows_only (
            limit_rows q.limit (
              map
                (λ (t : Tick). tick_to_row t q.symbol)
                (filter (satisfies f q.where_clause.price_predicate) ticks)))
  unfolding collect_rows rows_of
  collect_rows-plain q ticks single =
      rw (single, apply_price_filter-satisfies f avx2 ticks q.where_clause.price_predicate) refl

  -- No query gives more rows than its limit.
  length-collect_rows :
      (q : Query) (ticks : List Tick) (n : ℕ)
      → q.limit ≡ some n
      → length (collect_rows q ticks).rows ≤ n
  unfolding collect_rows limit_rows
  length-collect_rows q ticks n limited =
      let rows = rows_of q (apply_price_filter f avx2 ticks q.where_clause.price_predicate) in
      rw limited (omega (arith, length-take n rows))

module _ (f : FloatOps) (e : Engine) (avx2 : Bool) where
  -- `execute` on an engine whose scan gives ticks or an error.
  unfoldable pub execute : Query → Option QueryResult
  unfolding execute_in
  execute q =
      execute_in f avx2 e.total_rows
        (λ symbol t1 t2 columns rows. do ticks ← e.scan symbol t1 t2 columns; some (rows ticks))
        some q

  -- The number of rows; an error has none.
  abbrev size : Option QueryResult → ℕ
  size none = 0
  size (some r) = length r.rows

  -- No query gives more rows than its limit, grouped, explained or plain.
  pub length-execute :
      (q : Query) (n : ℕ) (r : QueryResult)
      → q.limit ≡ some n
      → execute q ≡ some r
      → length r.rows ≤ n
  unfolding execute execute_in run_query
  length-execute q n r limited done =
      let few : size (execute q) ≤ n = elim (Bool-cases q.explain) [
        | inl explained ↦ rw explained (omega arith)
        | inr plain ↦ rw plain (
            collected (
              e.scan (some q.symbol) q.where_clause.t1 q.where_clause.t2
                (selected_columns q.columns)))
      ] in
      omega (arith, few, ap size done)
    where
      collected :
          (o : Option (List Tick)) → size (o >>= λ ticks. some (collect_rows f avx2 q ticks)) ≤ n
      collected none = omega arith
      collected (some ticks) = length-collect_rows f avx2 q ticks n limited
