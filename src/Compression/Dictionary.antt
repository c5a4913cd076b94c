-- ===== src/Compression/Dictionary.antt =====
-- graphite-core/src/compression/dictionary.rs: symbols and their 16-bit identifiers. A symbol is
-- the list of its UTF-8 bytes. The hash map is an association list whose first entry for a key
-- counts. `String::from_utf8_lossy` is an argument: it keeps valid UTF-8 as it is.
pub mod Identifiers
pub mod Columns
pub mod Metadata
mod Examples
use graphite_tsdb.Prelude.{
  ℕ, zero, suc, ◌+◌, ◌*◌, ◌%◌, ◌^◌, ◌≤◌, ◌<◌, ◌≡◌, Bool, Option, none, some,
}
use graphite_tsdb.Prelude.{
  List, [], ◌∷◌, ◌++◌, ltb, leb, ◌==◌, if◌then◌else◌, length, get_elem?, slice, take, drop,
}
use graphite_tsdb.Prelude.Bytes.{to_be_bytes, from_be_bytes, bytes_eq}

abbrev pub Symbol : Type 0
Symbol = List ℕ

pub record SymbolDictionary : Type 0 where
  pub symbol_to_id : List (Symbol × ℕ)
  pub id_to_symbol : List Symbol

-- `SymbolDictionary::new`
abbrev pub new : SymbolDictionary
new = record { symbol_to_id = []; id_to_symbol = [] }

-- `HashMap::get`
unfoldable pub lookup : Symbol → List (Symbol × ℕ) → Option ℕ
lookup s [] = none
lookup s ((k, v) ∷ m) = if bytes_eq k s then some v else lookup s m

unfoldable pub get_id : SymbolDictionary → Symbol → Option ℕ
get_id d symbol = lookup symbol d.symbol_to_id

unfoldable pub get_symbol : SymbolDictionary → ℕ → Option Symbol
get_symbol d id = get_elem? d.id_to_symbol id

-- The branch of `get_or_insert` for a symbol that is not there: `len() as u16` wraps.
pub add_symbol : SymbolDictionary → Symbol → SymbolDictionary × ℕ
add_symbol d symbol =
    let id = length d.id_to_symbol % 2 ^ 16 in
    (
      record {
        symbol_to_id = (symbol, id) ∷ d.symbol_to_id;
        id_to_symbol = d.id_to_symbol ++ (symbol ∷ []);
      },
      id,
    )

pub get_or_insert : SymbolDictionary → Symbol → SymbolDictionary × ℕ
get_or_insert d symbol = elim (get_id d symbol) [ some id ↦ (d, id) | none ↦ add_symbol d symbol ]

unfoldable pub ids_to_bytes : List ℕ → List ℕ
ids_to_bytes [] = []
ids_to_bytes (id ∷ ids) = to_be_bytes 2 id ++ ids_to_bytes ids

unfoldable pub encode_ids : List ℕ → List ℕ
unfolding ids_to_bytes
encode_ids ids = to_be_bytes 4 (length ids % 2 ^ 32) ++ ids_to_bytes ids

-- The rounds `i`, `i + 1`, … of the loop of `decode_ids`, `n` of them.
decode_ids_loop : List ℕ → ℕ → ℕ → List ℕ
decode_ids_loop bytes zero i = []
decode_ids_loop bytes (suc n) i =
    let offset = 4 + i * 2 in
    let ids = decode_ids_loop bytes n (i + 1) in
    if leb (offset + 2) (length bytes)
    then from_be_bytes (slice offset (offset + 2) bytes) ∷ ids
    else ids

pub decode_ids : List ℕ → List ℕ
unfolding decode_ids_loop
decode_ids bytes =
    if ltb (length bytes) 4 then [] else decode_ids_loop bytes (from_be_bytes (slice 0 4 bytes)) 0

unfoldable pub symbols_to_bytes : List Symbol → List ℕ
symbols_to_bytes [] = []
symbols_to_bytes (symbol ∷ symbols) =
    to_be_bytes 2 (length symbol % 2 ^ 16) ++ (symbol ++ symbols_to_bytes symbols)

unfoldable pub to_metadata : SymbolDictionary → List ℕ
unfolding symbols_to_bytes
to_metadata d = to_be_bytes 4 (length d.id_to_symbol % 2 ^ 32) ++ symbols_to_bytes d.id_to_symbol

module _ (from_utf8_lossy : List ℕ → Symbol) where
  -- `n` rounds of the loop of `from_metadata`; `rest` is the input from `offset` on.
  from_metadata_loop : ℕ → SymbolDictionary → List ℕ → SymbolDictionary
  unfolding get_or_insert
  from_metadata_loop zero dict rest = dict
  from_metadata_loop (suc n) dict rest =
      let len = from_be_bytes (take 2 rest) in
      let body = drop 2 rest in
      let symbol = from_utf8_lossy (take len body) in
      let more = from_metadata_loop n (get_or_insert dict symbol).0 (drop len body) in
      if ltb (length rest) 2 then dict else if ltb (length body) len then dict else more

  unfoldable pub from_metadata : List ℕ → SymbolDictionary
  unfolding from_metadata_loop
  from_metadata bytes =
      if ltb (length bytes) 4
      then new
      else from_metadata_loop (from_be_bytes (slice 0 4 bytes)) new (drop 4 bytes)
