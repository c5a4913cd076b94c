-- ===== src/Gql/Lexer.antt =====
-- graphite/src/gql/parser.rs: the lexer. Its state is the position and the characters from there on.
pub mod Progress
pub mod Texts
use graphite_tsdb.Prelude.{
  ℕ, zero, suc, ◌+◌, Bool, true, false, ◌&&◌, ◌||◌, not, Option, none, some, List, [], ◌∷◌, ◌++◌,
  ◌==◌, ltb, if◌then◌else◌, length,
}
use graphite_tsdb.Prelude.Int.{ℤ}
use graphite_tsdb.Prelude.Bytes.{bytes_eq}
use graphite_tsdb.Prelude.Text.{Text, codes, Unicode, in_range, to_uppercase}
use graphite_tsdb.Gql.Token.{
  Token, Expected, Got, Message, Parsed, ok, err, ◌>>=◌, unexpected_token, message,
}

pub record Lexer : Type 0 where
  pub pos : ℕ
  pub input : List ℕ

abbrev pub new : Text → Lexer
new input = record { pos = 0; input = input }

-- `str::parse::<f64>` and the operations on its results.
pub record NumberOps : Type 0 where
  pub parse_f64 : Text → Option ℕ
  -- `num.fract() == 0.0`
  pub is_whole : ℕ → Bool
  -- `num.abs() < 1e15`
  pub is_below_1e15 : ℕ → Bool
  -- `num as i64`
  pub as_i64 : ℕ → ℤ

abbrev pub peek : Lexer → Option ℕ
peek l = elim (l.input) [ [] ↦ none | c ∷ cs ↦ some c ]

abbrev pub advance : Lexer → Lexer
advance l = elim (l.input) [ [] ↦ l | c ∷ cs ↦ record { pos = l.pos + 1; input = cs } ]

unfoldable pub is_ascii_digit : ℕ → Bool
unfolding in_range
is_ascii_digit c = in_range 48 57 c

-- The characters that a test accepts, from the front on, and the state behind them.
pub take_while : (ℕ → Bool) → ℕ → List ℕ → Text × Lexer
take_while test i [] = ([], record { pos = i; input = [] })
take_while test i (c ∷ cs) =
    let (more, l) = take_while test (i + 1) cs in
    if test c then (c ∷ more, l) else ([], record { pos = i; input = c ∷ cs })

-- The loop of `read_number`: `start` while nothing is read, `dot` after a dot.
unfoldable pub number_loop : Bool → Bool → ℕ → List ℕ → Text × Lexer
unfolding is_ascii_digit
number_loop start dot i [] = ([], record { pos = i; input = [] })
number_loop start dot i (c ∷ cs) =
    let (same, l) = number_loop false dot (i + 1) cs in
    let (dotted, l_dotted) = number_loop false true (i + 1) cs in
    if is_ascii_digit c
    then (c ∷ same, l)
    else if (c == 46) && not dot
    then (c ∷ dotted, l_dotted)
    else if (c == 45) && start
    then (c ∷ same, l)
    else ([], record { pos = i; input = c ∷ cs })

unfoldable pub read_number : NumberOps → Lexer → Parsed (ℕ × Lexer)
unfolding number_loop
read_number n l =
    let (s, l') = number_loop true false l.pos l.input in
    elim (n.parse_f64 s) [
      | none ↦ err (message l'.pos (Message.invalid_number s))
      | some num ↦ ok (num, l')
    ]

-- The `match` of `keyword_token` on the word in upper case.
pub keyword_of : Text → Option Token
keyword_of w =
    if bytes_eq w (codes "EXPLAIN")
    then some Token.explain
    else if bytes_eq w (codes "SELECT")
    then some Token.select
    else if bytes_eq w (codes "FROM")
    then some Token.from
    else if bytes_eq w (codes "WHERE")
    then some Token.where_
    else if bytes_eq w (codes "TIMESTAMP")
    then some Token.timestamp
    else if bytes_eq w (codes "BETWEEN")
    then some Token.between
    else if bytes_eq w (codes "AND")
    then some Token.and_
    else if bytes_eq w (codes "PRICE")
    then some Token.price
    else if bytes_eq w (codes "LIMIT")
    then some Token.limit
    else if bytes_eq w (codes "GROUP")
    then none
    else if bytes_eq w (codes "BY")
    then none
    else if bytes_eq w (codes "AGGREGATE")
    then some Token.aggregate
    else if bytes_eq w (codes "OHLCV")
    then some Token.ohlcv
    else if bytes_eq w (codes "SUM")
    then some Token.sum
    else if bytes_eq w (codes "COUNT")
    then some Token.count
    else if bytes_eq w (codes "VWAP")
    then some Token.vwap
    else if bytes_eq w (codes "1S")
    then some Token.sec1
    else if bytes_eq w (codes "1M")
    then some Token.min1
    else if bytes_eq w (codes "1H")
    then some Token.hour1
    else none

module _ (u : Unicode) where
  pub is_whitespace : ℕ → Bool
  unfolding in_range
  is_whitespace c = if ltb c 128 then in_range 9 13 c || (c == 32) else u.is_whitespace c

  pub is_alphabetic : ℕ → Bool
  unfolding in_range
  is_alphabetic c = if ltb c 128 then in_range 65 90 c || in_range 97 122 c else u.is_alphabetic c

  pub is_alphanumeric : ℕ → Bool
  unfolding is_alphabetic is_ascii_digit
  is_alphanumeric c = is_alphabetic c || (if ltb c 128 then is_ascii_digit c else u.is_numeric c)

  pub skip_whitespace : Lexer → Lexer
  unfolding take_while is_whitespace
  skip_whitespace l = (take_while is_whitespace l.pos l.input).1

  pub read_identifier : Lexer → Text × Lexer
  unfolding take_while is_alphanumeric
  read_identifier l = take_while (λ (c : ℕ). is_alphanumeric c || (c == 95)) l.pos l.input

  pub keyword_token : Text → Option Token
  unfolding keyword_of
  keyword_token word = keyword_of (to_uppercase u word)

  -- `BY` behind `GROUP`.
  read_by : Lexer → Parsed (Option Token × Lexer)
  unfolding skip_whitespace read_identifier
  read_by l =
      let (by, l') = read_identifier (skip_whitespace l) in
      if bytes_eq (to_uppercase u by) (codes "BY")
      then ok (some Token.group_by, l')
      else err (message l'.pos Message.by_after_group)

  pub read_word : Lexer → Parsed (Option Token × Lexer)
  unfolding read_identifier keyword_token read_by
  read_word l =
      let (word, l') = read_identifier l in
      if bytes_eq (to_uppercase u word) (codes "GROUP")
      then read_by l'
      else elim (keyword_token word) [
        | some token ↦ ok (some token, l')
        | none ↦ ok (some (Token.identifier word), l')
      ]

  module _ (n : NumberOps) where
    unfoldable pub number_token : Lexer → Parsed (Option Token × Lexer)
    unfolding read_number
    number_token l = do
      (num, l') ← read_number n l
      if n.is_whole num && n.is_below_1e15 num
          then ok (some (Token.integer (n.as_i64 num)), l')
          else ok (some (Token.number num), l')

    -- `with_eq` if a `=` comes next, or else `alone`.
    or_equal : Token → Token → Lexer → Parsed (Option Token × Lexer)
    or_equal with_eq alone l = elim (peek l) [
      | none ↦ ok (some alone, l)
      | some c ↦ if c == 61 then ok (some with_eq, advance l) else ok (some alone, l)
    ]

    -- The `match` of `next_token` on the character `c` that `l` is at.
    pub token_at : ℕ → Lexer → Parsed (Option Token × Lexer)
    unfolding or_equal is_alphabetic read_word number_token is_ascii_digit
    token_at c l =
        if c == 42
        then ok (some Token.star, advance l)
        else if c == 62
        then or_equal Token.greater_eq Token.greater (advance l)
        else if c == 60
        then or_equal Token.less_eq Token.less (advance l)
        else if c == 61
        then ok (some Token.equal, advance l)
        else if c == 58
        then ok (some Token.colon, advance l)
        else if is_alphabetic c || (c == 95)
        then read_word l
        else if is_ascii_digit c || (c == 45)
        then number_token l
        else err (unexpected_token l.pos Expected.valid_token (Got.char c))

    pub next_token : Lexer → Parsed (Option Token × Lexer)
    unfolding skip_whitespace token_at
    next_token l =
        let l' = skip_whitespace l in
        elim (peek l') [ none ↦ ok (none, l') | some c ↦ token_at c l' ]

    -- The loop of `tokenize`, with fuel.
    pub tokenize_loop : ℕ → List Token → Lexer → Parsed (List Token)
    unfolding next_token
    tokenize_loop zero tokens l = ok tokens
    tokenize_loop (suc fuel) tokens l = elim (next_token l) [
      | err e ↦ err e
      | ok (none, l') ↦ ok tokens
      | ok (some token, l') ↦ tokenize_loop fuel (tokens ++ (token ∷ [])) l'
    ]

    -- Each token takes a character at least.
    pub tokenize : Lexer → Parsed (List Token)
    unfolding tokenize_loop
    tokenize l = tokenize_loop (suc (length l.input)) [] l
