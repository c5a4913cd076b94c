-- ===== src/Gql/Lexer/Progress.antt =====
-- The lexer stops: each token takes a character at least.
use graphite_tsdb.Prelude.{
  ℕ, zero, suc, ◌+◌, ◌≤◌, ◌<◌, ◌≡◌, refl, ap, arith, Bool, true, false, ◌&&◌, ◌||◌, not, Option,
  none, some, List, [], ◌∷◌, ◌++◌, ◌==◌, if◌then◌else◌, length, Bool-cases, Option-cases, inl, inr,
}
use graphite_tsdb.Prelude.Bytes.{bytes_eq}
use graphite_tsdb.Prelude.Text.{Text, codes, Unicode, to_uppercase}
use graphite_tsdb.Gql.Token.{Token, ParseError, message, Message, Parsed, ok, err, ◌>>=◌}
use graphite_tsdb.Gql.Lexer.{
  Lexer, NumberOps, peek, take_while, number_loop, is_ascii_digit, is_alphabetic, is_alphanumeric,
  is_whitespace, skip_whitespace, read_identifier, read_number, keyword_token, read_by, read_word,
  number_token, or_equal, token_at, next_token, tokenize_loop, tokenize,
}

-- A result that leaves at most `k` characters, if it is one.
abbrev Leaves {ℓ} : {A : Type ℓ} → ℕ → Parsed (A × Lexer) → Type 0
Leaves k (err e) = Unit
Leaves k (ok (a, l)) = length l.input ≤ k

Leaves-bind {ℓ κ} :
    {A : Type ℓ} {B : Type κ} (k : ℕ) (out : Parsed (A × Lexer))
    (f : A × Lexer → Parsed (B × Lexer))
    → Leaves k out
    → ((a : A) (l : Lexer) → length l.input ≤ k → Leaves k (f (a, l)))
    → Leaves k (out >>= f)
Leaves-bind k (err e) f h hf = tt
Leaves-bind k (ok (a, l)) f h hf = hf a l h

if_lem {ℓ κ} :
    {A : Type ℓ} (P : A → Type κ) (b : Bool) (x y : A) → P x → P y → P (if b then x else y)
if_lem P true x y hx hy = hx
if_lem P false x y hx hy = hy

if_true {ℓ κ} :
    {A : Type ℓ} (P : A → Type κ) (b : Bool) (x y : A) → b ≡ true → P x → P (if b then x else y)
if_true P true x y h hx = hx
if_true P false x y h hx = absurd cc

if_case {ℓ κ} :
    {A : Type ℓ} (P : A → Type κ) (b : Bool) (x y : A)
    → (b ≡ true → P x)
    → P y
    → P (if b then x else y)
if_case P true x y hx hy = hx refl
if_case P false x y hx hy = hy

or_weaken : (a b d : Bool) → (a || d) ≡ true → ((a || b) || d) ≡ true
or_weaken true b d h = refl
or_weaken false true d h = refl
or_weaken false false d h = h

-- A test that is true by its second part, once its first part is false.
or_true {ℓ κ} :
    {A : Type ℓ} (P : A → Type κ) (a b : Bool) (x y : A)
    → (a || b) ≡ true
    → P x
    → (b ≡ true → P y)
    → P (if a then x else y)
or_true P true b x y h hx hy = hx
or_true P false b x y h hx hy = hy h

length-take_while :
    (test : ℕ → Bool) (i : ℕ) (cs : List ℕ) → length (take_while test i cs).1.input ≤ length cs
unfolding take_while
length-take_while test i [] = omega arith
length-take_while test i (c ∷ cs) = elim (Bool-cases (test c)) [
  | inl yes_ ↦ rw yes_ (omega (arith, length-take_while test (i + 1) cs))
  | inr no_ ↦ rw no_ (omega arith)
]

length-take_while_first :
    (test : ℕ → Bool) (i c : ℕ) (cs : List ℕ)
    → test c ≡ true
    → length (take_while test i (c ∷ cs)).1.input ≤ length cs
unfolding take_while
length-take_while_first test i c cs h = rw h (length-take_while test (i + 1) cs)

length-number_loop :
    (start dot : Bool) (i : ℕ) (cs : List ℕ)
    → length (number_loop start dot i cs).1.input ≤ length cs
unfolding number_loop
length-number_loop start dot i [] = omega arith
length-number_loop start dot i (c ∷ cs) =
    let same = length-number_loop false dot (i + 1) cs in
    let dotted = length-number_loop false true (i + 1) cs in
    let fits : Text × Lexer → Type 0 = λ p. length p.1.input ≤ suc (length cs) in
    if_lem fits (is_ascii_digit c) _ _ (omega (arith, same)) (
      if_lem fits ((c == 46) && not dot) _ _ (omega (arith, dotted))
        (if_lem fits ((c == 45) && start) _ _ (omega (arith, same)) (omega arith)))

length-number_loop_first :
    (i c : ℕ) (cs : List ℕ)
    → (is_ascii_digit c || (c == 45)) ≡ true
    → length (number_loop true false i (c ∷ cs)).1.input ≤ length cs
unfolding number_loop
length-number_loop_first i c cs h =
    let fits : Text × Lexer → Type 0 = λ p. length p.1.input ≤ length cs in
    let same = length-number_loop false false (i + 1) cs in
    or_true fits (is_ascii_digit c) (c == 45) _ _ h same (λ minus.
      if_lem fits ((c == 46) && true) _ _ (length-number_loop false true (i + 1) cs)
        (if_true fits ((c == 45) && true) _ _ (ap (λ (b : Bool). b && true) minus) same))

module _ (u : Unicode) where
  length-skip_whitespace : (l : Lexer) → length (skip_whitespace u l).input ≤ length l.input
  unfolding skip_whitespace
  length-skip_whitespace l = length-take_while (is_whitespace u) l.pos l.input

  length-read_identifier : (l : Lexer) → length (read_identifier u l).1.input ≤ length l.input
  unfolding read_identifier
  length-read_identifier l = length-take_while _ l.pos l.input

  -- `GROUP BY` or a word, when the first character starts one.
  read_by-Leaves : (k : ℕ) (l : Lexer) → length l.input ≤ k → Leaves k (read_by u l)
  unfolding read_by
  read_by-Leaves k l h =
      if_lem (Leaves k)
        (bytes_eq (to_uppercase u (read_identifier u (skip_whitespace u l)).0) (codes "BY")) _ _
        (omega (arith, length-skip_whitespace l, length-read_identifier (skip_whitespace u l))) tt

  read_word-Leaves :
      (i c : ℕ) (cs : List ℕ)
      → (is_alphabetic u c || (c == 95)) ≡ true
      → Leaves (length cs) (read_word u (record { pos = i; input = c ∷ cs }))
  unfolding read_word read_identifier
  read_word-Leaves i c cs h =
      let l : Lexer = record { pos = i; input = c ∷ cs } in
      let first : length (read_identifier u l).1.input ≤ length cs =
        length-take_while_first (λ (d : ℕ). is_alphanumeric u d || (d == 95)) i c cs
          (unfold is_alphanumeric in or_weaken (is_alphabetic u c) _ (c == 95) h) in
      if_lem (Leaves (length cs))
        (bytes_eq (to_uppercase u (read_identifier u l).0) (codes "GROUP")) _ _
        (read_by-Leaves (length cs) (read_identifier u l).1 first)
        (elim (Option-cases (keyword_token u (read_identifier u l).0)) [
          | inl none_ ↦ rw none_ first
          | inr (t, found) ↦ rw found first
        ])

  module _ (n : NumberOps) where
    read_number-Leaves :
        (i c : ℕ) (cs : List ℕ)
        → (is_ascii_digit c || (c == 45)) ≡ true
        → Leaves (length cs) (read_number n (record { pos = i; input = c ∷ cs }))
    unfolding read_number
    read_number-Leaves i c cs h =
        let (s, l) = number_loop true false i (c ∷ cs) in
        parsed (n.parse_f64 s) (message l.pos (Message.invalid_number s)) l
          (length-number_loop_first i c cs h)
      where
        parsed :
            (o : Option ℕ) (e : ParseError) (l : Lexer)
            → length l.input ≤ length cs
            → Leaves (length cs) (elim o [ none ↦ err e | some num ↦ ok (num, l) ])
        parsed none e l p = tt
        parsed (some num) e l p = p

    number_token-Leaves :
        (i c : ℕ) (cs : List ℕ)
        → (is_ascii_digit c || (c == 45)) ≡ true
        → Leaves (length cs) (number_token u n (record { pos = i; input = c ∷ cs }))
    unfolding number_token
    number_token-Leaves i c cs h =
        Leaves-bind (length cs) (read_number n (record { pos = i; input = c ∷ cs })) _
          (read_number-Leaves i c cs h)
          (λ num l p. if_lem (Leaves (length cs)) (n.is_whole num && n.is_below_1e15 num) _ _ p p)

    or_equal-Leaves :
        (x y : Token) (i : ℕ) (cs : List ℕ)
        → Leaves (length cs) (or_equal u n x y (record { pos = i; input = cs }))
    unfolding or_equal
    or_equal-Leaves x y i [] = omega arith
    or_equal-Leaves x y i (c ∷ cs) =
        if_lem (Leaves (suc (length cs))) (c == 61) _ _ (omega arith) (omega arith)

    token_at-Leaves :
        (i c : ℕ) (cs : List ℕ)
        → Leaves (length cs) (token_at u n c (record { pos = i; input = c ∷ cs }))
    unfolding token_at
    token_at-Leaves i c cs =
        let fits : Parsed (Option Token × Lexer) → Type 0 = Leaves (length cs) in
        if_lem fits (c == 42) _ _ (omega arith) (
          if_lem fits (c == 62) _ _ (or_equal-Leaves Token.greater_eq Token.greater (i + 1) cs) (
            if_lem fits (c == 60) _ _ (or_equal-Leaves Token.less_eq Token.less (i + 1) cs) (
              if_lem fits (c == 61) _ _ (omega arith) (
                if_lem fits (c == 58) _ _ (omega arith) (
                  if_case fits (is_alphabetic u c || (c == 95)) _ _ (read_word-Leaves i c cs) (
                    if_case fits (is_ascii_digit c || (c == 45)) _ _ (number_token-Leaves i c cs)
                      tt))))))

    -- What `next_token` returns: a token leaves fewer characters than there were.
    abbrev Consumes : ℕ → Parsed (Option Token × Lexer) → Type 0
    Consumes k (err e) = Unit
    Consumes k (ok (none, l)) = Unit
    Consumes k (ok (some t, l)) = length l.input < k

    Leaves-Consumes :
        (k j : ℕ) (out : Parsed (Option Token × Lexer)) → k < j → Leaves k out → Consumes j out
    Leaves-Consumes k j (err e) h p = tt
    Leaves-Consumes k j (ok (none, l)) h p = tt
    Leaves-Consumes k j (ok (some t, l)) h p = omega arith

    token_at-Consumes :
        (k i : ℕ) (cs : List ℕ)
        → length cs ≤ k
        → Consumes k (
            let l : Lexer = record { pos = i; input = cs } in
            elim (peek l) [ none ↦ ok (none, l) | some c ↦ token_at u n c l ])
    token_at-Consumes k i [] h = tt
    token_at-Consumes k i (c ∷ cs) h =
        Leaves-Consumes (length cs) k (token_at u n c (record { pos = i; input = c ∷ cs }))
          (omega arith) (token_at-Leaves i c cs)

    next_token-Consumes : (l : Lexer) → Consumes (length l.input) (next_token u n l)
    unfolding next_token
    next_token-Consumes l =
        let l' = skip_whitespace u l in
        token_at-Consumes (length l.input) l'.pos l'.input (length-skip_whitespace l)

    -- One round of the loop, whatever the next token is.
    abbrev Round : ℕ → List Token → Parsed (Option Token × Lexer) → Parsed (List Token)
    Round a tokens (err e) = err e
    Round a tokens (ok (none, l)) = ok tokens
    Round a tokens (ok (some t, l)) = tokenize_loop u n a (tokens ++ (t ∷ [])) l

    round_lem :
        (out : Parsed (Option Token × Lexer)) (k a b : ℕ) (tokens : List Token)
        → Consumes k out
        → ((ts : List Token) (l : Lexer)
            → length l.input < k
            → tokenize_loop u n a ts l ≡ tokenize_loop u n b ts l)
        → Round a tokens out ≡ Round b tokens out
    round_lem (err e) k a b tokens h same = refl
    round_lem (ok (none, l)) k a b tokens h same = refl
    round_lem (ok (some t, l)) k a b tokens h same = same (tokens ++ (t ∷ [])) l h

    tokenize_loop_fuel :
        (a b : ℕ) (tokens : List Token) (l : Lexer)
        → length l.input < a
        → length l.input < b
        → tokenize_loop u n a tokens l ≡ tokenize_loop u n b tokens l
    unfolding tokenize_loop
    tokenize_loop_fuel zero b tokens l ha hb = absurd (omega arith)
    tokenize_loop_fuel (suc a) zero tokens l ha hb = absurd (omega arith)
    tokenize_loop_fuel (suc a) (suc b) tokens l ha hb =
        round_lem (next_token u n l) (length l.input) a b tokens (next_token-Consumes l)
          (λ ts l' h. tokenize_loop_fuel a b ts l' (omega arith) (omega arith))

    -- The lexer stops by itself: with any fuel above the number of characters the loop has the
    -- result of `tokenize`, be it tokens or an error, whatever the tables of the other characters
    -- and the reader of floating-point numbers are.
    pub tokenize_fuel :
        (fuel : ℕ) (l : Lexer)
        → length l.input < fuel
        → tokenize_loop u n fuel [] l ≡ tokenize u n l
    unfolding tokenize
    tokenize_fuel fuel l h = tokenize_loop_fuel fuel (suc (length l.input)) [] l h (omega arith)
