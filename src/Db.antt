-- ===== src/Db.antt =====
-- graphite/src/db.rs: the database, on the state of its engine. The UTF-8 bytes of a text and the
-- text of an integer are parameters. What only passes a call on to the engine, and maps its error,
-- is the engine's function.
pub mod Queries
mod Examples
use graphite_tsdb.Prelude.{
  ℕ, ◌+◌, Bool, Option, none, some, List, [], ◌∷◌, ◌++◌, if◌then◌else◌, length,
}
use mathlib.Core.Option.{map}
use graphite_tsdb.Prelude.Int.{ℤ}
use graphite_tsdb.Prelude.Text.{Text, codes, Unicode}
use graphite_tsdb.Types.{Tick, TimestampNs, all_columns}
use graphite_tsdb.Bloom as Bloom
use graphite_tsdb.Compression.Dictionary.{Symbol}
use graphite_tsdb.Compression.Rle.{Compressors}
use graphite_tsdb.Wal.{Codec}
use graphite_tsdb.Gql.{Query}
use graphite_tsdb.Gql.Token.{Parsed, ParseError}
use graphite_tsdb.Gql.Lexer.{NumberOps}
use graphite_tsdb.Gql.Parser as Parser
use graphite_tsdb.Gql.Entry.{parse_text}
use graphite_tsdb.Executor.{FloatOps, QueryResult}
use graphite_tsdb.Executor.Execute.{execute_in}
use graphite_tsdb.Replication.{replica}
use graphite_tsdb.Lsm as Tree
use graphite_tsdb.Lsm.{Lsm, LsmError, Call}
use graphite_tsdb.Lsm.Batches.{Nodes}
use graphite_tsdb.Lsm.Open.{LsmConfig}
use graphite_tsdb.Lsm.Scans.{scan}
use graphite_tsdb.Lsm.Stream.{Started, started, refused, crashed, scan_stream, collect}

pub data DbError : Type 0 where
  lsm : LsmError → DbError
  parse : ParseError → DbError
  exec : LsmError → DbError

-- How a call ends, with the state that it leaves.
pub data Answer (A : Type 0) : Type 0 where
  returned : Lsm → A → Answer A
  failed : Lsm → DbError → Answer A
  panicked : Answer A
  deadlocked : Answer A

-- The configuration with which `open_replica` opens the engine.
pub replica_config : LsmConfig → LsmConfig
replica_config config = record config { node_role = replica }

module _ (ops : Bloom.FloatOps) (k : Compressors) (sub add : ℕ → ℕ → ℕ) (c : Codec) where
  -- What is left of `insert_batch` after an insert.
  unfoldable pub inserted : (Lsm → Answer Unit) → Call Unit → Answer Unit
  inserted next Tree.panicked = panicked
  inserted next Tree.deadlocked = deadlocked
  inserted next (Tree.failed l e) = failed l (lsm e)
  inserted next (Tree.returned l done) = next l

  -- `insert_batch`, with the node of each tick from the `i`-th on.
  unfoldable pub insert_each : Nodes → ℕ → Symbol → List Tick → Lsm → Answer Unit
  unfolding inserted
  insert_each nodes i symbol [] l = returned l tt
  insert_each nodes i symbol (tick ∷ ticks) l =
      inserted (λ l'. insert_each nodes (i + 1) symbol ticks l')
        (Tree.insert ops k sub add c l (nodes i).0 (nodes i).1 symbol tick)

-- The answer that is made of the ticks of a scan.
unfoldable pub answered : (List Tick → QueryResult) → Call (List Tick) → Answer QueryResult
answered rows Tree.panicked = panicked
answered rows Tree.deadlocked = deadlocked
answered rows (Tree.failed l e) = failed l (exec e)
answered rows (Tree.returned l ticks) = returned l (rows ticks)

module _ (f : FloatOps) (avx2 : Bool) where
  module _ (k : Compressors) (sub add : ℕ → ℕ → ℕ) (from_utf8_lossy : List ℕ → Symbol)
      (utf8 : Text → Symbol) where
    -- `Executor::execute` on this engine, whose scan does not look at the columns.
    unfoldable pub execute_on : Lsm → Query → Answer QueryResult
    unfolding answered execute_in
    execute_on l q =
        execute_in f avx2 l.total_rows
          (λ symbol t1 t2 columns rows.
            answered rows (scan k sub add from_utf8_lossy l (map utf8 symbol) t1 t2))
          (returned l) q

    unfoldable pub query_parsed : Lsm → Parsed Query → Answer QueryResult
    unfolding execute_on
    query_parsed l (Parsed.err e) = failed l (parse e)
    query_parsed l (Parsed.ok q) = execute_on l q

    module _ (u : Unicode) (p : Parser.FloatOps) (n : NumberOps) where
      unfoldable pub query : Lsm → Text → Answer QueryResult
      unfolding query_parsed
      query l gql = query_parsed l (parse_text u p n gql)

      -- `query_range`, with the text of an integer.
      unfoldable pub query_range :
          (ℤ → Text) → Lsm → Text → TimestampNs → TimestampNs → Answer QueryResult
      unfolding query
      query_range display l symbol t1 t2 = query l (
          codes "SELECT * FROM "
          ++ (symbol
              ++ (codes " WHERE timestamp BETWEEN "
                  ++ (display t1 ++ (codes " AND " ++ display t2)))))

-- How `count_range` ends; `none` is a panic, or that the fuel is used up.
pub data Counted : Type 0 where
  counted : Option ℕ → Counted
  not_started : DbError → Counted

module _ (k : Compressors) (sub add : ℕ → ℕ → ℕ) (from_utf8_lossy : List ℕ → Symbol) where
  unfoldable pub count_of : Option (List Tick) → Option ℕ
  count_of none = none
  count_of (some ticks) = some (length ticks)

  -- The count of the ticks of the stream, with the fuel of its loop.
  unfoldable pub count_started : ℕ → Started → Counted
  unfolding count_of
  count_started fuel crashed = counted none
  count_started fuel (refused e) = not_started (lsm e)
  count_started fuel (started s) = counted (count_of (collect k sub add from_utf8_lossy fuel s))

  unfoldable pub count_range : ℕ → Lsm → Symbol → TimestampNs → TimestampNs → Counted
  unfolding count_started
  count_range fuel l symbol t1 t2 =
      count_started fuel (scan_stream l (some symbol) t1 t2 all_columns)
