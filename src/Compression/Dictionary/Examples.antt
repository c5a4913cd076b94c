-- ===== src/Compression/Dictionary/Examples.antt =====
-- The dictionary on concrete symbols, and the theorems at concrete inputs.
use graphite_tsdb.Prelude.{zero, suc, ◌/◌, ◌≤◌, ◌∙◌, length-append}
use graphite_tsdb.Prelude.Bytes.{bytes_eq, bytes_eq_iff}
use graphite_tsdb.Prelude.{
  ℕ, ◌+◌, ◌%◌, ◌^◌, ◌<◌, ◌≡◌, ◌≢◌, refl, some, none, [], ◌∷◌, arith, length,
}
use graphite_tsdb.Compression.Dictionary.{
  SymbolDictionary, Symbol, new, lookup, get_id, get_symbol, add_symbol, get_or_insert, to_metadata,
  from_metadata,
}
use graphite_tsdb.Compression.Dictionary.Identifiers.{
  get_or_insert-of_none, add_symbol-IsDictionary, get_id-add, IsDictionary, new-IsDictionary,
  get_or_insert_lem, get_or_insert_wraps,
}
use graphite_tsdb.Compression.Dictionary.Metadata.{from_metadata-to_metadata}

abbrev aapl : Symbol
aapl = b'A' ∷ b'A' ∷ b'P' ∷ b'L' ∷ []

abbrev goog : Symbol
goog = b'G' ∷ b'O' ∷ b'O' ∷ b'G' ∷ []

abbrev two_symbols : SymbolDictionary
two_symbols = (get_or_insert (get_or_insert new aapl).0 goog).0

pair_of_ids : (get_id two_symbols goog ≡ some 1) × (get_symbol two_symbols 0 ≡ some aapl)
unfolding get_or_insert get_id get_symbol lookup add_symbol bytes_eq
pair_of_ids = (refl, refl)

get_or_insert_lem_example :
    IsDictionary (get_or_insert new aapl).0
    × (get_id (get_or_insert new aapl).0 aapl ≡ some (get_or_insert new aapl).1)
    × (get_symbol (get_or_insert new aapl).0 (get_or_insert new aapl).1 ≡ some aapl)
    × ((t : Symbol) (i : ℕ) → get_id new t ≡ some i → get_id (get_or_insert new aapl).0 t ≡ some i)
    × ((i : ℕ) → get_id new aapl ≡ some i → get_or_insert new aapl ≡ (new, i))
get_or_insert_lem_example = get_or_insert_lem new aapl new-IsDictionary (omega arith)

two_symbols-IsDictionary : IsDictionary two_symbols
unfolding get_or_insert get_id lookup add_symbol
two_symbols-IsDictionary =
    (get_or_insert_lem (get_or_insert new aapl).0 goog
      (get_or_insert_lem new aapl new-IsDictionary (omega arith)).0 (omega arith)).0

from_metadata-to_metadata_example :
    ((from_metadata (λ bytes. bytes) (to_metadata two_symbols)).id_to_symbol
      ≡ two_symbols.id_to_symbol)
    × ((s : Symbol)
        → get_id (from_metadata (λ bytes. bytes) (to_metadata two_symbols)) s
          ≡ get_id two_symbols s)
unfolding get_or_insert get_id lookup add_symbol bytes_eq
from_metadata-to_metadata_example =
    from_metadata-to_metadata (λ bytes. bytes) two_symbols two_symbols-IsDictionary
      ((refl, omega arith), ((refl, omega arith), tt))

-- The `i`-th of many symbols: three printable characters.
numbered : ℕ → Symbol
numbered i = (32 + i / 4096) ∷ (32 + i / 64 % 64) ∷ (32 + i % 64) ∷ []

numbered_injective : (i j : ℕ) → numbered i ≡ numbered j → i ≡ j
unfolding numbered
numbered_injective i j e = let (a, b, c) = parts in omega arith
  where
    parts : (i / 4096 ≡ j / 4096) × (i / 64 % 64 ≡ j / 64 % 64) × (i % 64 ≡ j % 64)
    parts = ground arith

-- A dictionary of `n` symbols.
filled : ℕ → SymbolDictionary
filled zero = new
filled (suc n) = (get_or_insert (filled n) (numbered n)).0

record IsFilled (n : ℕ) (d : SymbolDictionary) : Type 0 where
  valid : IsDictionary d
  size : length d.id_to_symbol ≡ n
  absent : (i : ℕ) → n ≤ i → get_id d (numbered i) ≡ none

IsFilled-step :
    (n : ℕ) (d : SymbolDictionary)
    → n < 2 ^ 16
    → IsFilled n d
    → IsFilled (suc n) (get_or_insert d (numbered n)).0
IsFilled-step n d h v =
    let fresh = v.absent n (omega arith) in
    rw (get_or_insert-of_none d (numbered n) fresh) (record {
      valid = add_symbol-IsDictionary d (numbered n) v.valid (omega (arith, v.size)) fresh;
      size =
          unfold add_symbol in
          omega (arith, length-append d.id_to_symbol (numbered n ∷ []), v.size);
      absent = λ i p.
          get_id-add d (numbered n) (numbered i)
          ∙ ground (
            arith,
            v.absent i (omega arith),
            bytes_eq_iff (numbered n) (numbered i),
            numbered_injective n i,
          );
    })

filled-IsFilled : (n : ℕ) → n ≤ 2 ^ 16 → IsFilled n (filled n)
unfolding filled
filled-IsFilled zero h =
    unfold get_id lookup in record { valid = new-IsDictionary; size = refl; absent = λ i p. refl }
filled-IsFilled (suc n) h =
    IsFilled-step n (filled n) (omega arith) (filled-IsFilled n (omega arith))

get_or_insert_wraps_example :
    ((get_or_insert (filled 65536) (numbered 65536)).1 ≡ 0)
    × ((get_id (get_or_insert (filled 65536) (numbered 65536)).0 (numbered 65536) ≡ some 0)
        × ((first : Symbol) × ((get_symbol (filled 65536) 0 ≡ some first)
              × ((get_symbol (get_or_insert (filled 65536) (numbered 65536)).0 0 ≡ some first)
                  × (first ≢ numbered 65536)))))
get_or_insert_wraps_example =
    get_or_insert_wraps (filled 65536) (numbered 65536) (filled-IsFilled 65536 (omega arith)).valid
      (filled-IsFilled 65536 (omega arith)).size
      ((filled-IsFilled 65536 (omega arith)).absent 65536 (omega arith))
