-- ===== src/Gql/Parser/Times.antt =====
-- The bounds of the time that a query can name.
use graphite_tsdb.Prelude.{ℕ, ◌+◌, ◌≡◌, refl, Bool, true, false, ◌&&◌, some, List, ◌∷◌, ◌++◌}
use graphite_tsdb.Prelude.Int.{ℤ}
use graphite_tsdb.Prelude.Text.{Text, Unicode}
use graphite_tsdb.Gql.{SelectColumns}
use graphite_tsdb.Gql.Token.{Token, Expected, Got, ok, err, unexpected_token, token_eq}
use graphite_tsdb.Gql.Lexer.{Lexer, NumberOps, read_number, number_token}
use graphite_tsdb.Gql.Parser.{
  new, FloatOps, expect, parse, parse_symbol, parse_where, parse_timestamp,
}
use graphite_tsdb.Gql.Parser.Clauses.{
  explain_tokens, select_tokens, HasColumns, parse_explain_lem, parse_columns_lem,
}

module _ (u : Unicode) (f : FloatOps) where
  and_false : (b : Bool) → (b && false) ≡ false
  and_false true = refl
  and_false false = refl

  -- A number in the text whose value is not below 1e15 becomes a floating-point token, also when it
  -- is whole. A query that has it as the lower bound of the time, or as the upper bound behind an
  -- integer, with any `SELECT` and `FROM` in front, is rejected as having no integer there, whatever
  -- comes behind it.
  pub nanoseconds_rejected :
      (n : NumberOps) (l l' : Lexer) (num : ℕ) (explain : Bool) (s : SelectColumns) (symbol : Text)
      (t1 : ℤ) (rest : List Token)
      → read_number n l ≡ ok (num, l')
      → n.is_below_1e15 num ≡ false
      → HasColumns s
      → (number_token u n l ≡ ok (some (Token.number num), l'))
        × ((j : ℕ) × (parse u f (
                new (
                  explain_tokens explain
                  ++ (Token.select
                      ∷ (select_tokens s
                          ++ (Token.from
                              ∷ Token.identifier symbol
                              ∷ Token.where_
                              ∷ Token.timestamp
                              ∷ Token.between
                              ∷ Token.number num
                              ∷ rest)))))
              ≡ err (
                  unexpected_token j Expected.timestamp_integer
                    (Got.maybe (some (Token.number num))))))
        × ((j : ℕ) × (parse u f (
                new (
                  explain_tokens explain
                  ++ (Token.select
                      ∷ (select_tokens s
                          ++ (Token.from
                              ∷ Token.identifier symbol
                              ∷ Token.where_
                              ∷ Token.timestamp
                              ∷ Token.between
                              ∷ Token.integer t1
                              ∷ Token.and_
                              ∷ Token.number num
                              ∷ rest)))))
              ≡ err (
                  unexpected_token j Expected.timestamp_integer
                    (Got.maybe (some (Token.number num))))))
  unfolding number_token parse expect token_eq parse_symbol parse_where parse_timestamp
  nanoseconds_rejected n l l' num explain s symbol t1 rest read above h =
      let clauses = Token.where_ ∷ Token.timestamp ∷ Token.between ∷ Token.number num ∷ rest in
      let (i0, e0) =
        parse_explain_lem u f explain
          (select_tokens s ++ (Token.from ∷ Token.identifier symbol ∷ clauses)) in
      let (i1, e1) = parse_columns_lem u f s (i0 + 1) (Token.identifier symbol ∷ clauses) h in
      let upper =
        Token.where_
        ∷ Token.timestamp
        ∷ Token.between
        ∷ Token.integer t1
        ∷ Token.and_
        ∷ Token.number num
        ∷ rest in
      let (j0, d0) =
        parse_explain_lem u f explain
          (select_tokens s ++ (Token.from ∷ Token.identifier symbol ∷ upper)) in
      let (j1, d1) = parse_columns_lem u f s (j0 + 1) (Token.identifier symbol ∷ upper) h in
      (
        rw (read, above, and_false (n.is_whole num)) refl,
        (i1 + 1 + 1 + 1 + 1 + 1 + 1, rw e0 (rw e1 refl)),
        (j1 + 1 + 1 + 1 + 1 + 1 + 1 + 1 + 1, rw d0 (rw d1 refl)),
      )
