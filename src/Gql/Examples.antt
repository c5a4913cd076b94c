-- ===== src/Gql/Examples.antt =====
-- The query language at concrete texts, with ASCII tables and decimal numbers.
use graphite_tsdb.Prelude.{
  ℕ, ◌+◌, ◌-◌, ◌*◌, ◌≡◌, refl, arith, true, false, Option, some, [], ◌∷◌, ◌==◌, ltb,
}
use graphite_tsdb.Prelude.Int.{pos}
use graphite_tsdb.Prelude.Text.{Text, codes, Unicode, in_range}
use graphite_tsdb.Types.{Column}
use graphite_tsdb.Gql.{Query, SelectColumns, Interval, AggregateFn, PricePredicate}
use graphite_tsdb.Gql.Token.{Token, Expected, Got, ok, err, unexpected_token}
use graphite_tsdb.Gql.Lexer
use graphite_tsdb.Gql.Lexer.{
  Lexer, NumberOps, tokenize, tokenize_loop, number_token, read_number, number_loop, is_ascii_digit,
}
use graphite_tsdb.Gql.Lexer.Progress.{tokenize_fuel}
use graphite_tsdb.Gql.Parser
use graphite_tsdb.Gql.Parser.{FloatOps, parse}
use graphite_tsdb.Gql.Parser.Sentences.{tokens_of, parse-tokens_of}
use graphite_tsdb.Gql.Parser.Times.{nanoseconds_rejected}

abbrev ascii : Unicode
ascii = record {
  is_alphabetic = λ c. false;
  is_numeric = λ c. false;
  is_whitespace = λ c. false;
  lower = λ c. c ∷ [];
  upper = λ c. c ∷ [];
}

abbrev floats : FloatOps
floats = record { eq = λ a b. a == b; of_i64 = λ n. 0 }

abbrev decimal : ℕ → Text → Option ℕ
decimal n [] = some n
decimal n (c ∷ s) = decimal (n * 10 + (c - 48)) s

abbrev numbers : NumberOps
numbers = record {
  parse_f64 = decimal 0;
  is_whole = λ n. true;
  is_below_1e15 = λ n. ltb n 1000000000000000;
  as_i64 = λ n. pos n;
}

abbrev minute_query : Query
minute_query = record {
  explain = true;
  columns = SelectColumns.columns (Column.close ∷ Column.volume ∷ []);
  symbol = codes "AAPL";
  where_clause = record {
    t1 = pos 5;
    t2 = pos 999999;
    price_predicate = some (PricePredicate.greater_eq 7);
  };
  limit = some 10;
  group_by = some (record { interval = Interval.min1; aggregate = AggregateFn.ohlcv });
}

parse-tokens_of_example : parse ascii floats (Parser.new (tokens_of minute_query)) ≡ ok minute_query
parse-tokens_of_example =
    parse-tokens_of ascii floats minute_query
      (record { columns = omega arith; limit = omega arith })

tokenize_fuel_example :
    tokenize_loop ascii numbers 1000 [] (Lexer.new (codes "SELECT * FROM"))
    ≡ tokenize ascii numbers (Lexer.new (codes "SELECT * FROM"))
tokenize_fuel_example =
    tokenize_fuel ascii numbers 1000 (Lexer.new (codes "SELECT * FROM")) (omega arith)

-- The first of January 2024, in nanoseconds.
abbrev new_year : ℕ
new_year = 1704067200000000000

read_new_year :
    read_number numbers (Lexer.new (codes "1704067200000000000"))
    ≡ ok (new_year, record { pos = 19; input = [] })
unfolding read_number number_loop is_ascii_digit in_range
read_new_year = refl

nanoseconds_rejected_example :
    (number_token ascii numbers (Lexer.new (codes "1704067200000000000"))
      ≡ ok (some (Token.number new_year), record { pos = 19; input = [] }))
    × ((j : ℕ) × (parse ascii floats (
            Parser.new (
              Token.select
              ∷ Token.star
              ∷ Token.from
              ∷ Token.identifier (codes "AAPL")
              ∷ Token.where_
              ∷ Token.timestamp
              ∷ Token.between
              ∷ Token.number new_year
              ∷ []))
          ≡ err (
              unexpected_token j Expected.timestamp_integer
                (Got.maybe (some (Token.number new_year))))))
    × ((j : ℕ) × (parse ascii floats (
            Parser.new (
              Token.select
              ∷ Token.star
              ∷ Token.from
              ∷ Token.identifier (codes "AAPL")
              ∷ Token.where_
              ∷ Token.timestamp
              ∷ Token.between
              ∷ Token.integer (pos 0)
              ∷ Token.and_
              ∷ Token.number new_year
              ∷ []))
          ≡ err (
              unexpected_token j Expected.timestamp_integer
                (Got.maybe (some (Token.number new_year))))))
nanoseconds_rejected_example =
    nanoseconds_rejected ascii floats numbers (Lexer.new (codes "1704067200000000000"))
      (record { pos = 19; input = [] }) new_year false SelectColumns.all (codes "AAPL") (pos 0) []
      read_new_year refl tt
