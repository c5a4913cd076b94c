-- ===== src/Gql.antt =====
-- graphite/src/gql/ast.rs: the syntax trees of the query language. A floating-point number is its
-- bit pattern and a text the list of its code points.
pub mod Token
pub mod Parser
pub mod Lexer
pub mod Entry
mod Examples
use graphite_tsdb.Prelude.{ℕ, Bool, Option, List}
use graphite_tsdb.Prelude.Int.{ℤ, pos}
use graphite_tsdb.Prelude.Text.{Text}
use graphite_tsdb.Types.{Column}

pub data AggregateFn : Type 0 where
  ohlcv sum count vwap : AggregateFn

pub data Interval : Type 0 where
  sec1 min1 hour1 : Interval

unfoldable pub nanos : Interval → ℤ
nanos Interval.sec1 = pos 1000000000
nanos Interval.min1 = pos 60000000000
nanos Interval.hour1 = pos 3600000000000

pub data PricePredicate : Type 0 where
  greater : ℕ → PricePredicate
  less : ℕ → PricePredicate
  greater_eq : ℕ → PricePredicate
  less_eq : ℕ → PricePredicate
  equal : ℕ → PricePredicate

pub record WhereClause : Type 0 where
  pub t1 : ℤ
  pub t2 : ℤ
  pub price_predicate : Option PricePredicate

pub record GroupByClause : Type 0 where
  pub interval : Interval
  pub aggregate : AggregateFn

pub data SelectColumns : Type 0 where
  all : SelectColumns
  columns : List Column → SelectColumns

pub record Query : Type 0 where
  pub explain : Bool
  pub columns : SelectColumns
  pub symbol : Text
  pub where_clause : WhereClause
  pub limit : Option ℕ
  pub group_by : Option GroupByClause
