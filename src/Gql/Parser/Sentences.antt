-- ===== src/Gql/Parser/Sentences.antt =====
-- The sentences of the grammar: a query that is written as tokens is parsed back.
use graphite_tsdb.Prelude.{◌+◌, ◌≡◌, refl, List, ◌∷◌, ◌++◌}
use graphite_tsdb.Prelude.Text.{Unicode}
use graphite_tsdb.Gql.{Query}
use graphite_tsdb.Gql.Parser.Clauses.{
  explain_tokens, select_tokens, where_tokens, limit_tokens, group_tokens, HasColumns, HasLimit,
  parse_explain_lem, parse_columns_lem, parse_where_lem, parse_limit_lem, parse_group_by_lem,
}
use graphite_tsdb.Gql.Token.{Token, ok, token_eq}
use graphite_tsdb.Gql.Parser.{new, FloatOps, expect, parse, parse_symbol}

-- A query as the grammar of the module's header writes it.
unfoldable pub tokens_of : Query → List Token
tokens_of q =
    explain_tokens q.explain
    ++ (Token.select
        ∷ (select_tokens q.columns
            ++ (Token.from
                ∷ Token.identifier q.symbol
                ∷ where_tokens q.where_clause (limit_tokens q.limit ++ group_tokens q.group_by))))

-- At least one column is selected, and a limit is in the range of the tokens' integers.
pub record IsSentence (q : Query) : Type 0 where
  pub columns : HasColumns q.columns
  pub limit : HasLimit q.limit

-- A query is written as tokens in the way of the grammar: `EXPLAIN` first when it is to be explained,
-- the columns by their names or `*`, the symbol, the bounds of the time, the price predicate, the
-- limit, and the interval as 1 and its letter. The parser gives the same query back, if at least
-- one column is selected and the limit is below 2 ^ 63, whatever the characters that are not ASCII
-- and the floating-point numbers are.
pub parse-tokens_of :
    (u : Unicode) (f : FloatOps) (q : Query) → IsSentence q → parse u f (new (tokens_of q)) ≡ ok q
unfolding parse tokens_of token_eq expect parse_symbol
parse-tokens_of u f q s =
    let behind = limit_tokens q.limit ++ group_tokens q.group_by in
    let clauses = where_tokens q.where_clause behind in
    let (i0, e0) =
      parse_explain_lem u f q.explain
        (select_tokens q.columns ++ (Token.from ∷ Token.identifier q.symbol ∷ clauses)) in
    let (i1, e1) =
      parse_columns_lem u f q.columns (i0 + 1) (Token.identifier q.symbol ∷ clauses) s.columns in
    let (i2, e2) = parse_where_lem u f q.where_clause q.limit q.group_by (i1 + 1 + 1) in
    let (i3, e3) = parse_limit_lem u f q.limit q.group_by i2 s.limit in
    let (i4, e4) = parse_group_by_lem u f q.group_by i3 in
    rw e0 (rw e1 (rw e2 (rw e3 (rw e4 refl))))
