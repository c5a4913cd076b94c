-- ===== src/Db/Queries.antt =====
-- What a query of the database returns, from its text to its rows.
use graphite_tsdb.Prelude.{
  ℕ, ◌≡◌, refl, ap, ◌∙◌, Bool, false, Option, none, some, List, map, take, All,
}
use graphite_tsdb.Prelude.Text.{Text, Unicode}
use graphite_tsdb.Types.{Key, SymbolId, Tick}
use graphite_tsdb.Compression.Dictionary.{Symbol, get_id}
use graphite_tsdb.Compression.Rle.{Compressors}
use graphite_tsdb.SkipList.Spec.{find, Ordered}
use graphite_tsdb.SkipList.Refinement.{IsSkipList}
use graphite_tsdb.Gql.{Query}
use graphite_tsdb.Gql.Token as Token
use graphite_tsdb.Gql.Lexer.{NumberOps}
use graphite_tsdb.Gql.Parser as Parser
use graphite_tsdb.Gql.Entry.{parse_text}
use graphite_tsdb.Executor.{FloatOps, ResultRow}
use graphite_tsdb.Executor.Filter.{filter, satisfies}
use graphite_tsdb.Executor.Execute.{
  collect_rows, run_query, execute_in, collect_rows-plain, limit_rows, rows_only, tick_to_row,
}
use graphite_tsdb.Lsm.{Lsm}
use graphite_tsdb.Lsm.Scans.{resolved, resolve, scanned_tables}
use graphite_tsdb.Lsm.Scans.Results.{IsOutside, asked, scan_lem}
use graphite_tsdb.Db.{returned, answered, execute_on, query_parsed, query}

-- The row of a tick of the symbol.
abbrev pub row_for : Text → Tick → ResultRow
row_for symbol t = record {
  timestamp = t.timestamp;
  symbol = symbol;
  open_price = t.open_price;
  high = t.high;
  low = t.low;
  close = t.close;
  volume = t.volume;
}

-- As many elements from the front as the limit says, or all.
abbrev pub up_to : Option ℕ → List ResultRow → List ResultRow
up_to none rows = rows
up_to (some n) rows = take n rows

up_to-limit_rows :
    (limit : Option ℕ) (rows : List ResultRow) → limit_rows limit rows ≡ up_to limit rows
unfolding limit_rows
up_to-limit_rows none rows = refl
up_to-limit_rows (some n) rows = refl

module _ (f : FloatOps) (avx2 : Bool) (k : Compressors) (sub add : ℕ → ℕ → ℕ)
    (from_utf8_lossy : List ℕ → Symbol) (utf8 : Text → Symbol) (u : Unicode) (p : Parser.FloatOps)
    (n : NumberOps) where
  -- A text that is parsed as a query, neither explained nor grouped, of a symbol that the engine
  -- knows, is answered from a valid memtable when the tables all lie outside of the range. The rows
  -- have the time, the prices and the volume of the ticks that satisfy the price predicate, up to the
  -- limit, and the query's symbol. The ticks are in strictly increasing order of their keys, and
  -- under each key there is the tick of the memtable, if that is there, if its time is between the
  -- bounds of the query, these included, and if it has the symbol.
  pub query_lem :
      (l : Lsm) (ts : List Tick) (gql : Text) (q : Query) (sid : SymbolId)
      → parse_text u p n gql ≡ Token.ok q
      → q.explain ≡ false
      → q.group_by ≡ none
      → IsSkipList l.memtable ts
      → get_id l.symbol_dict (utf8 q.symbol) ≡ some sid
      → All (IsOutside q.where_clause.t1 q.where_clause.t2) (scanned_tables l.compaction.levels)
      → (ticks : List Tick) × (Ordered ticks
          × (((key : Key)
                → find key ticks
                  ≡ asked (some sid) q.where_clause.t1 q.where_clause.t2 (find key ts))
              × (query f avx2 k sub add from_utf8_lossy utf8 u p n l gql
                  ≡ returned l (record {
                    rows = up_to q.limit (
                        map
                          (row_for q.symbol)
                          (filter (satisfies f q.where_clause.price_predicate) ticks));
                    explain_plan = none;
                  }))))
  unfolding query query_parsed execute_on execute_in run_query answered resolve tick_to_row
  query_lem l ts gql q sid parsed plain single inv named away =
      let symbol : resolve l.symbol_dict (some (utf8 q.symbol)) ≡ resolved (some sid) =
        rw (named, resolve) refl in
      let (ticks, (scanned, (ordered, same))) =
        scan_lem k sub add from_utf8_lossy l ts (some (utf8 q.symbol)) (some sid) q.where_clause.t1
          q.where_clause.t2 inv symbol away in
      (
        ticks,
        (
          ordered,
          (
            same,
            ap (query_parsed f avx2 k sub add from_utf8_lossy utf8 l) parsed
                ∙ rw plain (ap (answered (collect_rows f avx2 q)) scanned)
                ∙ ap (returned l) (
                    collect_rows-plain f avx2 q ticks single
                    ∙ ap rows_only (up_to-limit_rows q.limit _)),
          ),
        ),
      )
