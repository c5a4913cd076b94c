-- ===== src/Gql/Token.antt =====
-- graphite/src/gql/parser.rs: the tokens, the parse errors, and the parser's view of the tokens.
use graphite_tsdb.Prelude.{ℕ, Bool, false, Option, ◌==◌}
use graphite_tsdb.Prelude.Int.{ℤ, pos, negsuc}
use graphite_tsdb.Prelude.Bytes.{bytes_eq}
use graphite_tsdb.Prelude.Text.{Text}

pub data Token : Type 0 where
  explain select from where_ timestamp between and_ price : Token
  greater less greater_eq less_eq equal limit group_by aggregate star : Token
  identifier : Text → Token
  number : ℕ → Token
  integer : ℤ → Token
  colon sec1 min1 hour1 ohlcv sum count vwap : Token

-- What an error says was expected, and what it says was found.
pub data Expected : Type 0 where
  token : Token → Expected
  valid_token column_name symbol_name timestamp_integer price_comparator limit_integer : Expected
  interval_suffix interval aggregate_function number_value : Expected

pub data Got : Type 0 where
  char : ℕ → Got
  token : Token → Got
  maybe : Option Token → Got

pub data Message : Type 0 where
  invalid_number : Text → Message
  by_after_group : Message
  unknown_column : Text → Message
  unknown_suffix : Text → Message

pub data ParseError : Type 0 where
  unexpected_token : ℕ → Expected → Got → ParseError
  message : ℕ → Message → ParseError
  unexpected_eof : ℕ → Expected → ParseError

pub data Parsed {ℓ} (A : Type ℓ) : Type ℓ where
  ok : A → Parsed A
  err : ParseError → Parsed A

infixl 5 ◌>>=◌
abbrev pub ◌>>=◌ {ℓ κ} : {A : Type ℓ} {B : Type κ} → Parsed A → (A → Parsed B) → Parsed B
ok a >>= f = f a
err e >>= f = err e

-- The place of a token's constructor in the `enum`.
tag : Token → ℕ
tag Token.explain = 0
tag Token.select = 1
tag Token.from = 2
tag Token.where_ = 3
tag Token.timestamp = 4
tag Token.between = 5
tag Token.and_ = 6
tag Token.price = 7
tag Token.greater = 8
tag Token.less = 9
tag Token.greater_eq = 10
tag Token.less_eq = 11
tag Token.equal = 12
tag Token.limit = 13
tag Token.group_by = 14
tag Token.aggregate = 15
tag Token.star = 16
tag (Token.identifier s) = 17
tag (Token.number n) = 18
tag (Token.integer n) = 19
tag Token.colon = 20
tag Token.sec1 = 21
tag Token.min1 = 22
tag Token.hour1 = 23
tag Token.ohlcv = 24
tag Token.sum = 25
tag Token.count = 26
tag Token.vwap = 27

integer_eq : ℤ → ℤ → Bool
integer_eq (pos a) (pos b) = a == b
integer_eq (negsuc a) (negsuc b) = a == b
integer_eq _ _ = false

-- `==` of tokens, for an `==` of floating-point numbers.
unfoldable pub token_eq : (ℕ → ℕ → Bool) → Token → Token → Bool
unfolding tag integer_eq
token_eq f64_eq (Token.identifier a) (Token.identifier b) = bytes_eq a b
token_eq f64_eq (Token.number a) (Token.number b) = f64_eq a b
token_eq f64_eq (Token.integer a) (Token.integer b) = integer_eq a b
token_eq f64_eq a b = tag a == tag b
