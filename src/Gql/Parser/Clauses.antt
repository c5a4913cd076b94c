-- ===== src/Gql/Parser/Clauses.antt =====
-- The clauses of a query: what is written as tokens is parsed back.
use graphite_tsdb.Prelude.{
  ℕ, ◌+◌, ◌%◌, ◌<◌, ◌^◌, ◌≡◌, refl, ap, ◌∙◌, arith, Bool, true, false, Option, none, some, List, [],
  ◌∷◌, ◌++◌, append_assoc, length,
}
use native.Mathlib.Nat.{mod-eq_of_lt}
use graphite_tsdb.Prelude.Int.{pos}
use graphite_tsdb.Prelude.Bytes.{u64_of, bytes_eq}
use graphite_tsdb.Prelude.Text.{Text, codes, Unicode, to_lowercase, lower_char, in_range}
use graphite_tsdb.Types.{Column}
use graphite_tsdb.Gql.{
  AggregateFn, Interval, PricePredicate, WhereClause, GroupByClause, SelectColumns,
}
use graphite_tsdb.Gql.Token.{Token, Parsed, ok, token_eq}
use graphite_tsdb.Gql.Parser.{
  Parser, new, FloatOps, at, expect, parse_columns, columns_loop, parse_column_name, column_of,
  parse_where, parse_group_by, parse_limit, parse_predicate, parse_grouping, parse_price,
  parse_limit_value, parse_suffix, interval_of_suffix, parse_interval, parse_aggregate,
  parse_timestamp, parse_explain,
}

abbrev pub column_name : Column → Text
column_name Column.timestamp = codes "timestamp"
column_name Column.symbol = codes "symbol"
column_name Column.open_price = codes "open"
column_name Column.high = codes "high"
column_name Column.low = codes "low"
column_name Column.close = codes "close"
column_name Column.volume = codes "volume"

abbrev pub columns_tokens : List Column → List Token
columns_tokens [] = []
columns_tokens (c ∷ cs) = Token.identifier (column_name c) ∷ columns_tokens cs

abbrev pub select_tokens : SelectColumns → List Token
select_tokens SelectColumns.all = Token.star ∷ []
select_tokens (SelectColumns.columns cs) = columns_tokens cs

abbrev pub predicate_tokens : Option PricePredicate → List Token
predicate_tokens none = []
predicate_tokens (some (PricePredicate.greater v)) =
    Token.and_ ∷ Token.price ∷ Token.greater ∷ Token.number v ∷ []
predicate_tokens (some (PricePredicate.less v)) =
    Token.and_ ∷ Token.price ∷ Token.less ∷ Token.number v ∷ []
predicate_tokens (some (PricePredicate.greater_eq v)) =
    Token.and_ ∷ Token.price ∷ Token.greater_eq ∷ Token.number v ∷ []
predicate_tokens (some (PricePredicate.less_eq v)) =
    Token.and_ ∷ Token.price ∷ Token.less_eq ∷ Token.number v ∷ []
predicate_tokens (some (PricePredicate.equal v)) =
    Token.and_ ∷ Token.price ∷ Token.equal ∷ Token.number v ∷ []

abbrev pub limit_tokens : Option ℕ → List Token
limit_tokens none = []
limit_tokens (some n) = Token.limit ∷ Token.integer (pos n) ∷ []

abbrev pub suffix : Interval → Text
suffix Interval.sec1 = codes "s"
suffix Interval.min1 = codes "m"
suffix Interval.hour1 = codes "h"

abbrev pub aggregate_token : AggregateFn → Token
aggregate_token AggregateFn.ohlcv = Token.ohlcv
aggregate_token AggregateFn.sum = Token.sum
aggregate_token AggregateFn.count = Token.count
aggregate_token AggregateFn.vwap = Token.vwap

abbrev pub group_tokens : Option GroupByClause → List Token
group_tokens none = []
group_tokens (some g) =
    Token.group_by
    ∷ Token.colon
    ∷ Token.integer (pos 1)
    ∷ Token.identifier (suffix g.interval)
    ∷ Token.aggregate
    ∷ aggregate_token g.aggregate
    ∷ []

abbrev pub explain_tokens : Bool → List Token
explain_tokens true = Token.explain ∷ []
explain_tokens false = []

abbrev pub where_tokens : WhereClause → List Token → List Token
where_tokens w rest =
    Token.where_
    ∷ Token.timestamp
    ∷ Token.between
    ∷ Token.integer w.t1
    ∷ Token.and_
    ∷ Token.integer w.t2
    ∷ (predicate_tokens w.price_predicate ++ rest)

abbrev pub HasColumns : SelectColumns → Type 0
HasColumns SelectColumns.all = Unit
HasColumns (SelectColumns.columns cs) = 0 < length cs

abbrev pub HasLimit : Option ℕ → Type 0
HasLimit none = Unit
HasLimit (some n) = n < 2 ^ 63

module _ (u : Unicode) (f : FloatOps) where
  parse_column_name-column_name : (c : Column) → parse_column_name u f (column_name c) ≡ some c
  unfolding parse_column_name to_lowercase lower_char in_range column_of bytes_eq
  parse_column_name-column_name Column.timestamp = refl
  parse_column_name-column_name Column.symbol = refl
  parse_column_name-column_name Column.open_price = refl
  parse_column_name-column_name Column.high = refl
  parse_column_name-column_name Column.low = refl
  parse_column_name-column_name Column.close = refl
  parse_column_name-column_name Column.volume = refl

  -- A part of the parser that returns `a` and leaves the tokens `rest`.
  abbrev pub Leaves : {A : Type 0} → Parsed (A × Parser) → A → List Token → Type 0
  Leaves out a rest = (j : ℕ) × (out ≡ ok (a, record { pos = j; tokens = rest }))

  pub columns_loop-columns_tokens :
      (c : Column) (cs : List Column) (i : ℕ) (rest : List Token) (acc : List Column)
      → Leaves
          (columns_loop u f i (columns_tokens (c ∷ cs) ++ (Token.from ∷ rest)) acc)
          (acc ++ (c ∷ cs))
          (Token.from ∷ rest)
  unfolding columns_loop at token_eq
  columns_loop-columns_tokens c [] i rest acc =
      (i + 1, rw (parse_column_name-column_name c, columns_loop) refl)
  columns_loop-columns_tokens c (d ∷ cs) i rest acc =
      let (j, e) = columns_loop-columns_tokens d cs (i + 1) rest (acc ++ (c ∷ [])) in
      (
        j,
        rw (parse_column_name-column_name c, columns_loop)
            (e
              ∙ ap (λ (l : List Column). ok (l, record { pos = j; tokens = Token.from ∷ rest }))
                  (append_assoc acc (c ∷ []) (d ∷ cs))),
      )

  parse_predicate-none :
      (p : Parser) → at u f Token.and_ p ≡ false → parse_predicate u f p ≡ ok (none, p)
  unfolding parse_predicate
  parse_predicate-none p h = rw h refl

  pub parse_predicate_lem :
      (w : Option PricePredicate) (i : ℕ) (rest : List Token)
      → at u f Token.and_ (record { pos = i; tokens = rest }) ≡ false
      → Leaves
          (parse_predicate u f (record { pos = i; tokens = predicate_tokens w ++ rest }))
          w
          rest
  unfolding parse_predicate parse_price at token_eq expect
  parse_predicate_lem none i rest h =
      (i, parse_predicate-none (record { pos = i; tokens = rest }) h)
  parse_predicate_lem (some (PricePredicate.greater v)) i rest h = (_, refl)
  parse_predicate_lem (some (PricePredicate.less v)) i rest h = (_, refl)
  parse_predicate_lem (some (PricePredicate.greater_eq v)) i rest h = (_, refl)
  parse_predicate_lem (some (PricePredicate.less_eq v)) i rest h = (_, refl)
  parse_predicate_lem (some (PricePredicate.equal v)) i rest h = (_, refl)

  -- The tokens behind the predicate do not start with `AND`.
  pub not_and :
      (l : Option ℕ) (g : Option GroupByClause) (i : ℕ)
      → at u f Token.and_ (record { pos = i; tokens = limit_tokens l ++ group_tokens g }) ≡ false
  unfolding at token_eq
  not_and none none i = refl
  not_and none (some g) i = refl
  not_and (some n) g i = refl

  pub parse_limit_lem :
      (l : Option ℕ) (g : Option GroupByClause) (i : ℕ)
      → HasLimit l
      → Leaves
          (parse_limit u f (record { pos = i; tokens = limit_tokens l ++ group_tokens g }))
          l
          (group_tokens g)
  unfolding parse_limit parse_limit_value at token_eq u64_of
  parse_limit_lem none none i h = (i, refl)
  parse_limit_lem none (some g) i h = (i, refl)
  parse_limit_lem (some n) g i h =
      let small : n % 2 ^ 64 ≡ n = mod-eq_of_lt (omega arith) in
      (
        i + 1 + 1,
        ap (λ (m : ℕ). ok (some m, record { pos = i + 1 + 1; tokens = group_tokens g })) small,
      )

  parse_suffix_lem :
      (t : Interval) (i : ℕ) (rest : List Token)
      → Leaves
          (parse_suffix u f (record { pos = i; tokens = Token.identifier (suffix t) ∷ rest }))
          t
          rest
  unfolding parse_suffix interval_of_suffix to_lowercase lower_char in_range bytes_eq
  parse_suffix_lem Interval.sec1 i rest = (i + 1, refl)
  parse_suffix_lem Interval.min1 i rest = (i + 1, refl)
  parse_suffix_lem Interval.hour1 i rest = (i + 1, refl)

  parse_aggregate_lem :
      (a : AggregateFn) (i : ℕ) (rest : List Token)
      → Leaves (parse_aggregate u f (record { pos = i; tokens = aggregate_token a ∷ rest })) a rest
  unfolding parse_aggregate
  parse_aggregate_lem AggregateFn.ohlcv i rest = (i + 1, refl)
  parse_aggregate_lem AggregateFn.sum i rest = (i + 1, refl)
  parse_aggregate_lem AggregateFn.count i rest = (i + 1, refl)
  parse_aggregate_lem AggregateFn.vwap i rest = (i + 1, refl)

  pub parse_group_by_lem :
      (g : Option GroupByClause) (i : ℕ)
      → Leaves (parse_group_by u f (record { pos = i; tokens = group_tokens g })) g []
  unfolding parse_group_by parse_grouping parse_interval at token_eq expect
  parse_group_by_lem none i = (i, refl)
  parse_group_by_lem (some g) i =
      let (j, e) =
        parse_suffix_lem g.interval (i + 1 + 1 + 1)
          (Token.aggregate ∷ aggregate_token g.aggregate ∷ []) in
      let (k, d) = parse_aggregate_lem g.aggregate (j + 1) [] in (k, rw e (rw d refl))

  pub parse_columns_lem :
      (s : SelectColumns) (i : ℕ) (rest : List Token)
      → HasColumns s
      → Leaves
          (parse_columns u f (record { pos = i; tokens = select_tokens s ++ (Token.from ∷ rest) }))
          s
          (Token.from ∷ rest)
  unfolding parse_columns at token_eq
  parse_columns_lem SelectColumns.all i rest h = (i + 1, refl)
  parse_columns_lem (SelectColumns.columns []) i rest h = absurd (omega arith)
  parse_columns_lem (SelectColumns.columns (c ∷ cs)) i rest h =
      let (j, e) = columns_loop-columns_tokens c cs i rest [] in (j, rw e refl)

  pub parse_where_lem :
      (w : WhereClause) (l : Option ℕ) (g : Option GroupByClause) (i : ℕ)
      → Leaves
          (parse_where u f
            (record { pos = i; tokens = where_tokens w (limit_tokens l ++ group_tokens g) }))
          w
          (limit_tokens l ++ group_tokens g)
  unfolding parse_where expect token_eq parse_timestamp
  parse_where_lem w l g i =
      let rest = limit_tokens l ++ group_tokens g in
      let (j, e) =
        parse_predicate_lem w.price_predicate (i + 1 + 1 + 1 + 1 + 1 + 1) rest
          (not_and l g (i + 1 + 1 + 1 + 1 + 1 + 1)) in
      (j, rw e refl)

  pub parse_explain_lem :
      (e : Bool) (rest : List Token)
      → (j : ℕ) × (parse_explain u f (new (explain_tokens e ++ (Token.select ∷ rest)))
          ≡ (e, record { pos = j; tokens = Token.select ∷ rest }))
  unfolding parse_explain at token_eq
  parse_explain_lem true rest = (1, refl)
  parse_explain_lem false rest = (0, refl)
