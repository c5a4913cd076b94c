-- ===== src/Gql/Lexer/Texts.antt =====
-- A concrete text and its tokens, with ASCII tables and decimal numbers.
use graphite_tsdb.Prelude.{ℕ, ◌+◌, ◌-◌, ◌*◌, ◌≡◌, refl, true, false, Option, some, [], ◌∷◌, ltb}
use graphite_tsdb.Prelude.Int.{pos}
use graphite_tsdb.Prelude.Text.{Text, codes, Unicode, in_range, to_uppercase}
use graphite_tsdb.Prelude.Bytes.{bytes_eq}
use graphite_tsdb.Gql.Token.{Token, ok}
use graphite_tsdb.Gql.Lexer
use graphite_tsdb.Gql.Lexer.{
  NumberOps, tokenize, tokenize_loop, number_token, read_number, number_loop, is_ascii_digit,
  take_while, keyword_of, is_whitespace, is_alphabetic, is_alphanumeric, skip_whitespace,
  read_identifier, keyword_token, read_by, read_word, or_equal, token_at, next_token,
}

abbrev pub ascii : Unicode
ascii = record {
  is_alphabetic = λ c. false;
  is_numeric = λ c. false;
  is_whitespace = λ c. false;
  lower = λ c. c ∷ [];
  upper = λ c. c ∷ [];
}

abbrev decimal : ℕ → Text → Option ℕ
decimal n [] = some n
decimal n (c ∷ s) = decimal (n * 10 + (c - 48)) s

abbrev pub numbers : NumberOps
numbers = record {
  parse_f64 = decimal 0;
  is_whole = λ n. true;
  is_below_1e15 = λ n. ltb n 1000000000000000;
  as_i64 = λ n. pos n;
}

pub tokenize_simple :
    tokenize ascii numbers (Lexer.new (codes "SELECT * FROM A WHERE timestamp BETWEEN 0 AND 2000"))
    ≡ ok (
        Token.select
        ∷ Token.star
        ∷ Token.from
        ∷ Token.identifier (codes "A")
        ∷ Token.where_
        ∷ Token.timestamp
        ∷ Token.between
        ∷ Token.integer (pos 0)
        ∷ Token.and_
        ∷ Token.integer (pos 2000)
        ∷ [])
unfolding tokenize tokenize_loop number_token read_number number_loop is_ascii_digit take_while
    keyword_of is_whitespace is_alphabetic is_alphanumeric skip_whitespace read_identifier
    keyword_token read_by read_word or_equal token_at next_token in_range bytes_eq to_uppercase
tokenize_simple = refl
