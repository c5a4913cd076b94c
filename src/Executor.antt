-- ===== src/Executor.antt =====
-- graphite/src/gql/executor.rs: the query executor. The scan and the row count of the engine are an
-- interface, and the operations on `f64` are parameters; sums of volumes wrap, as in a release
-- build. An operator of an explained plan is its kind with its arguments, not its text.
pub mod Filter
pub mod Aggregate
pub mod Execute
mod Examples
use graphite_tsdb.Prelude.{ℕ, Bool, Option, List}
use graphite_tsdb.Prelude.Int.{ℤ}
use graphite_tsdb.Prelude.Text.{Text}
use graphite_tsdb.Types.{Column, Tick}
use graphite_tsdb.Gql.{GroupByClause}

pub record FloatOps : Type 0 where
  pub gt : ℕ → ℕ → Bool
  pub lt : ℕ → ℕ → Bool
  pub ge : ℕ → ℕ → Bool
  pub le : ℕ → ℕ → Bool
  pub eq : ℕ → ℕ → Bool
  pub max : ℕ → ℕ → ℕ
  pub min : ℕ → ℕ → ℕ
  pub add : ℕ → ℕ → ℕ
  pub mul : ℕ → ℕ → ℕ
  pub div : ℕ → ℕ → ℕ
  pub of_u64 : ℕ → ℕ

-- What the executor calls of `LsmTree`; `none` is an error of the scan.
pub record Engine : Type 0 where
  pub scan : Option Text → ℤ → ℤ → List Column → Option (List Tick)
  pub total_rows : ℕ

pub record OhlcvBar : Type 0 where
  pub timestamp : ℤ
  pub open_price : ℕ
  pub high : ℕ
  pub low : ℕ
  pub close : ℕ
  pub volume : ℕ

pub record ResultRow : Type 0 where
  pub timestamp : ℤ
  pub symbol : Text
  pub open_price : ℕ
  pub high : ℕ
  pub low : ℕ
  pub close : ℕ
  pub volume : ℕ

pub data Operator : Type 0 where
  ss_table_scan : Text → Operator
  bloom_filter_pushdown : ℤ → ℤ → Operator
  mem_table_scan : Operator
  simd_price_filter : Operator
  stream_aggregate : GroupByClause → Operator
  limit : ℕ → Operator
  query_root : Operator

mutual
  pub data ExplainNode : Type 0 where
    node : Operator → ℕ → ExplainNodes → ExplainNode

  pub data ExplainNodes : Type 0 where
    leaf : ExplainNodes
    child : ExplainNode → ExplainNodes → ExplainNodes

pub record QueryResult : Type 0 where
  pub rows : List ResultRow
  pub explain_plan : Option ExplainNode
