-- ===== src/Prelude/Text.antt =====
-- Texts as the lists of their code points. The case maps of Rust's `str` are written out for ASCII;
-- for the other characters they are parameters, which map each character by itself (a capital
-- sigma at the end of a word is not told from another).
use Prim.Native.Char.{code}
use Prim.Native.String.{String}
use graphite_tsdb.Prelude.{ℕ, ◌+◌, ◌-◌, Bool, ◌&&◌, List, [], ◌∷◌, ◌++◌, ltb, leb, if◌then◌else◌}

abbrev pub Text : Type 0
Text = List ℕ

-- The code points of a literal.
abbrev pub codes : String → Text
codes String.[] = []
codes (String.◌∷◌ c s) = code c ∷ codes s

-- What the tables of the standard library say of the characters that are not ASCII.
pub record Unicode : Type 0 where
  pub is_alphabetic : ℕ → Bool
  pub is_numeric : ℕ → Bool
  pub is_whitespace : ℕ → Bool
  pub lower : ℕ → Text
  pub upper : ℕ → Text

unfoldable pub in_range : ℕ → ℕ → ℕ → Bool
in_range low high c = leb low c && leb c high

module _ (u : Unicode) where
  unfoldable pub lower_char : ℕ → Text
  unfolding in_range
  lower_char c = if ltb c 128 then (if in_range 65 90 c then c + 32 else c) ∷ [] else u.lower c

  unfoldable pub upper_char : ℕ → Text
  unfolding in_range
  upper_char c = if ltb c 128 then (if in_range 97 122 c then c - 32 else c) ∷ [] else u.upper c

  -- `str::to_lowercase`
  unfoldable pub to_lowercase : Text → Text
  unfolding lower_char
  to_lowercase [] = []
  to_lowercase (c ∷ s) = lower_char c ++ to_lowercase s

  -- `str::to_uppercase`
  unfoldable pub to_uppercase : Text → Text
  unfolding upper_char
  to_uppercase [] = []
  to_uppercase (c ∷ s) = upper_char c ++ to_uppercase s
