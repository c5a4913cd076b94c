-- ===== src/Types.antt =====
-- graphite-core/src/types.rs: keys, ticks, WAL records and the constants of the storage engine.
-- An `f64` is its bit pattern (`to_bits`), a number below 2 ^ 64; a timestamp is an integer in the
-- range of `i64`.
pub mod KeyOrder
mod Examples
use Prim.Native.Nat.{compare, Ordering}
use graphite_tsdb.Prelude.{ℕ, ◌+◌, ◌<◌, ◌≡◌, Bool, true, false, ◌&&◌, Option, none, some}
use graphite_tsdb.Prelude.{List, [], ◌∷◌, ◌++◌, ltb, if◌then◌else◌, length, slice}
use graphite_tsdb.Prelude.Int.{ℤ, pos_part, neg_part}
use graphite_tsdb.Prelude.Bytes.{IsU16, IsU64, IsI64, to_be_bytes, from_be_bytes, u64_of, i64_of}

abbrev pub TimestampNs : Type 0
TimestampNs = ℤ

abbrev pub SymbolId : Type 0
SymbolId = ℕ

-- The field `open` of the source is `open_price` here, since `open` is a reserved word.
pub record Tick : Type 0 where
  pub symbol_id : SymbolId
  pub timestamp : TimestampNs
  pub open_price : ℕ
  pub high : ℕ
  pub low : ℕ
  pub close : ℕ
  pub volume : ℕ

pub record Key : Type 0 where
  pub symbol_id : SymbolId
  pub timestamp : TimestampNs

pub record IsKey (k : Key) : Type 0 where
  pub symbol : IsU16 k.symbol_id
  pub time : IsI64 k.timestamp

abbrev pub key_of : Tick → Key
key_of t = record { symbol_id = t.symbol_id; timestamp = t.timestamp }

-- `Key::encode`
unfoldable pub encode : Key → List ℕ
encode k = to_be_bytes 2 k.symbol_id ++ to_be_bytes 8 (u64_of k.timestamp)

-- `Key::decode`
unfoldable pub decode : List ℕ → Option Key
decode buf =
    if ltb (length buf) 10
    then none
    else some (record {
      symbol_id = from_be_bytes (slice 0 2 buf);
      timestamp = i64_of (from_be_bytes (slice 2 10 buf));
    })

-- `i64::cmp`
abbrev pub compare_ℤ : ℤ → ℤ → Ordering
compare_ℤ a b = compare (pos_part a + neg_part b) (pos_part b + neg_part a)

-- `Key::cmp`, and the tuple order `(symbol_id, timestamp)` that the sorts use
unfoldable pub cmp : Key → Key → Ordering
cmp a b = elim (compare a.symbol_id b.symbol_id) [
  | Ordering.eq ↦ compare_ℤ a.timestamp b.timestamp
  | Ordering.lt ↦ Ordering.lt
  | Ordering.gt ↦ Ordering.gt
]

pub data WalRecord : Type 0 where
  insert : Tick → WalRecord
  delete : Key → WalRecord
  checkpoint : ℕ → WalRecord

pub data Column : Type 0 where
  timestamp symbol open_price high low close volume : Column

-- `Column::all`
abbrev pub all_columns : List Column
all_columns =
    Column.timestamp ∷ Column.symbol ∷ Column.open_price ∷ Column.high ∷ Column.low ∷ Column.close
    ∷ Column.volume ∷ []

abbrev pub block_size : ℕ
block_size = 4096

abbrev pub index_interval : ℕ
index_interval = 16

abbrev pub l0_max_tables : ℕ
l0_max_tables = 4

abbrev pub level_size_ratio : ℕ
level_size_ratio = 10
