-- ===== src/Gql/Parser.antt =====
-- graphite/src/gql/parser.rs: the parser. Its state is the position and the tokens from there on.
pub mod Clauses
pub mod Sentences
pub mod Times
use graphite_tsdb.Prelude.{
  ℕ, zero, suc, ◌+◌, Bool, true, false, Option, none, some, List, [], ◌∷◌, ◌++◌, if◌then◌else◌,
}
use graphite_tsdb.Prelude.Int.{ℤ, pos}
use graphite_tsdb.Prelude.Bytes.{bytes_eq, u64_of}
use graphite_tsdb.Prelude.Text.{Text, codes, Unicode, to_lowercase}
use graphite_tsdb.Types.{Column}
use graphite_tsdb.Gql.{
  AggregateFn, Interval, PricePredicate, WhereClause, GroupByClause, SelectColumns, Query,
}
use graphite_tsdb.Gql.Token.{
  Token, Expected, Got, Message, Parsed, ok, err, ◌>>=◌, unexpected_token, message, unexpected_eof,
  token_eq,
}

pub record Parser : Type 0 where
  pub pos : ℕ
  pub tokens : List Token

abbrev pub new : List Token → Parser
new tokens = record { pos = 0; tokens = tokens }

abbrev pub peek : Parser → Option Token
peek p = elim (p.tokens) [ [] ↦ none | t ∷ ts ↦ some t ]

abbrev pub advance : Parser → Option Token × Parser
advance p = elim (p.tokens) [
  | [] ↦ (none, p)
  | t ∷ ts ↦ (some t, record { pos = p.pos + 1; tokens = ts })
]

-- The errors of the `other =>` arms, at the position behind the token.
abbrev unexpected {ℓ} : {A : Type ℓ} → Parser → Expected → Option Token → Parsed A
unexpected p expected got = err (unexpected_token p.pos expected (Got.maybe got))

-- The operations on `f64` that the parser uses.
pub record FloatOps : Type 0 where
  pub eq : ℕ → ℕ → Bool
  pub of_i64 : ℤ → ℕ

module _ (u : Unicode) (f : FloatOps) where
  pub expect : Token → Parser → Parsed Parser
  expect expected p =
      let (found, p') = advance p in
      elim found [
        | some t ↦
            if token_eq f.eq t expected
            then ok p'
            else err (unexpected_token p'.pos (Expected.token expected) (Got.token t))
        | none ↦ err (unexpected_eof p'.pos (Expected.token expected))
      ]

  -- `self.peek() == Some(&token)`
  pub at : Token → Parser → Bool
  at expected p = elim (peek p) [ none ↦ false | some t ↦ token_eq f.eq t expected ]

  column_of : Text → Option Column
  column_of name =
      if bytes_eq name (codes "timestamp")
      then some Column.timestamp
      else if bytes_eq name (codes "symbol")
      then some Column.symbol
      else if bytes_eq name (codes "open")
      then some Column.open_price
      else if bytes_eq name (codes "high")
      then some Column.high
      else if bytes_eq name (codes "low")
      then some Column.low
      else if bytes_eq name (codes "close")
      then some Column.close
      else if bytes_eq name (codes "volume")
      then some Column.volume
      else none

  pub parse_column_name : Text → Option Column
  unfolding column_of
  parse_column_name name = column_of (to_lowercase u name)

  -- The loop over the column names, at the position `i` and with the tokens `tokens` from there on.
  pub columns_loop : ℕ → List Token → List Column → Parsed (List Column × Parser)
  unfolding at
  columns_loop i (Token.identifier name ∷ tokens) cols =
      let p : Parser = record { pos = i + 1; tokens = tokens } in
      elim (parse_column_name name) [
        | none ↦ err (message (i + 1) (Message.unknown_column name))
        | some col ↦
            let more = columns_loop (i + 1) tokens (cols ++ (col ∷ [])) in
            if at Token.from p then ok (cols ++ (col ∷ []), p) else more
      ]
  columns_loop i [] cols = err (unexpected_token i Expected.column_name (Got.maybe none))
  columns_loop i (t ∷ tokens) cols =
      err (unexpected_token (i + 1) Expected.column_name (Got.maybe (some t)))

  pub parse_explain : Parser → Bool × Parser
  unfolding at
  parse_explain p = if at Token.explain p then (true, (advance p).1) else (false, p)

  pub parse_columns : Parser → Parsed (SelectColumns × Parser)
  unfolding at columns_loop
  parse_columns p =
      if at Token.star p
      then ok (SelectColumns.all, (advance p).1)
      else do (cols, p') ← columns_loop p.pos p.tokens []; ok (SelectColumns.columns cols, p')

  pub parse_symbol : Parser → Parsed (Text × Parser)
  parse_symbol p =
      let (found, p') = advance p in
      elim found [
        | some (Token.identifier s) ↦ ok (s, p')
        | other ↦ unexpected p' Expected.symbol_name other
      ]

  pub parse_timestamp : Parser → Parsed (ℤ × Parser)
  parse_timestamp p =
      let (found, p') = advance p in
      elim found [
        | some (Token.integer n) ↦ ok (n, p')
        | other ↦ unexpected p' Expected.timestamp_integer other
      ]

  pub parse_number : Parser → Parsed (ℕ × Parser)
  parse_number p =
      let (found, p') = advance p in
      elim found [
        | some (Token.number n) ↦ ok (n, p')
        | some (Token.integer n) ↦ ok (f.of_i64 n, p')
        | other ↦ unexpected p' Expected.number_value other
      ]

  -- An arm of the `match` on the comparator.
  abbrev compare_with : (ℕ → PricePredicate) → Parser → Parsed (PricePredicate × Parser)
  unfolding parse_number
  compare_with comparator p = do (val, p') ← parse_number p; ok (comparator val, p')

  pub parse_comparison : Parser → Parsed (PricePredicate × Parser)
  unfolding parse_number
  parse_comparison p =
      let (found, p') = advance p in
      elim found [
        | some Token.greater ↦ compare_with PricePredicate.greater p'
        | some Token.less ↦ compare_with PricePredicate.less p'
        | some Token.greater_eq ↦ compare_with PricePredicate.greater_eq p'
        | some Token.less_eq ↦ compare_with PricePredicate.less_eq p'
        | some Token.equal ↦ compare_with PricePredicate.equal p'
        | other ↦ unexpected p' Expected.price_comparator other
      ]

  -- A price predicate behind its `AND`.
  pub parse_price : Parser → Parsed (Option PricePredicate × Parser)
  unfolding expect parse_comparison
  parse_price p = do p1 ← expect Token.price p; (pred, p2) ← parse_comparison p1; ok (some pred, p2)

  pub parse_predicate : Parser → Parsed (Option PricePredicate × Parser)
  unfolding at parse_price
  parse_predicate p = if at Token.and_ p then parse_price (advance p).1 else ok (none, p)

  -- `n as u64` wraps a negative limit.
  parse_limit_value : Parser → Parsed (Option ℕ × Parser)
  parse_limit_value p =
      let (found, p') = advance p in
      elim found [
        | some (Token.integer n) ↦ ok (some (u64_of n), p')
        | other ↦ unexpected p' Expected.limit_integer other
      ]

  pub parse_limit : Parser → Parsed (Option ℕ × Parser)
  unfolding at parse_limit_value
  parse_limit p = if at Token.limit p then parse_limit_value (advance p).1 else ok (none, p)

  interval_of_suffix : Text → Option Interval
  interval_of_suffix suffix =
      if bytes_eq suffix (codes "s")
      then some Interval.sec1
      else if bytes_eq suffix (codes "m")
      then some Interval.min1
      else if bytes_eq suffix (codes "h")
      then some Interval.hour1
      else none

  parse_suffix : Parser → Parsed (Interval × Parser)
  unfolding interval_of_suffix
  parse_suffix p =
      let (found, p') = advance p in
      elim found [
        | some (Token.identifier suffix) ↦ elim (interval_of_suffix (to_lowercase u suffix)) [
          | some interval ↦ ok (interval, p')
          | none ↦ err (message p'.pos (Message.unknown_suffix (to_lowercase u suffix)))
        ]
        | other ↦ unexpected p' Expected.interval_suffix other
      ]

  pub parse_interval : Parser → Parsed (Interval × Parser)
  unfolding parse_suffix
  parse_interval p =
      let (found, p') = advance p in
      elim found [
        | some Token.sec1 ↦ ok (Interval.sec1, p')
        | some Token.min1 ↦ ok (Interval.min1, p')
        | some Token.hour1 ↦ ok (Interval.hour1, p')
        | some (Token.integer (pos (suc zero))) ↦ parse_suffix p'
        | other ↦ unexpected p' Expected.interval other
      ]

  pub parse_aggregate : Parser → Parsed (AggregateFn × Parser)
  parse_aggregate p =
      let (found, p') = advance p in
      elim found [
        | some Token.ohlcv ↦ ok (AggregateFn.ohlcv, p')
        | some Token.sum ↦ ok (AggregateFn.sum, p')
        | some Token.count ↦ ok (AggregateFn.count, p')
        | some Token.vwap ↦ ok (AggregateFn.vwap, p')
        | other ↦ unexpected p' Expected.aggregate_function other
      ]

  -- An interval and an aggregate behind `GROUP BY`.
  pub parse_grouping : Parser → Parsed (Option GroupByClause × Parser)
  unfolding expect parse_interval parse_aggregate
  parse_grouping p = do
    p1 ← expect Token.colon p
    (interval, p2) ← parse_interval p1
    p3 ← expect Token.aggregate p2
    (aggregate, p4) ← parse_aggregate p3
    ok (some (record { interval = interval; aggregate = aggregate }), p4)

  pub parse_group_by : Parser → Parsed (Option GroupByClause × Parser)
  unfolding at parse_grouping
  parse_group_by p = if at Token.group_by p then parse_grouping (advance p).1 else ok (none, p)

  -- The clauses behind the symbol's name.
  pub parse_where : Parser → Parsed (WhereClause × Parser)
  unfolding expect parse_timestamp parse_predicate
  parse_where p = do
    p1 ← expect Token.where_ p
    p2 ← expect Token.timestamp p1
    p3 ← expect Token.between p2
    (t1, p4) ← parse_timestamp p3
    p5 ← expect Token.and_ p4
    (t2, p6) ← parse_timestamp p5
    (pred, p7) ← parse_predicate p6
    ok (record { t1 = t1; t2 = t2; price_predicate = pred }, p7)

  -- `Parser::parse`; the tokens behind the query are not looked at.
  pub parse : Parser → Parsed Query
  unfolding parse_explain expect parse_columns parse_symbol parse_where parse_limit parse_group_by
  parse p = do
    let (explain, p0) = parse_explain p
    p1 ← expect Token.select p0
    (selected, p2) ← parse_columns p1
    p3 ← expect Token.from p2
    (symbol, p4) ← parse_symbol p3
    (where_clause, p5) ← parse_where p4
    (limit, p6) ← parse_limit p5
    (group_by, p7) ← parse_group_by p6
    ok (record {
      explain = explain;
      columns = selected;
      symbol = symbol;
      where_clause = where_clause;
      limit = limit;
      group_by = group_by;
    })
