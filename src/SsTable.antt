-- ===== src/SsTable.antt =====
-- graphite-core/src/sstable.rs: the tables on disk. A file is the list of its bytes, and writes and
-- syncs succeed. Here are the data types and the tests that need no file; Write and Read have the
-- two halves of the format.
pub mod Write
pub mod Read
pub mod Sections
pub mod Index
pub mod Words
pub mod Footers
pub mod Blocks
pub mod Late
pub mod Written
pub mod Reopen
pub mod Pruning
pub mod Keys
pub mod Examples
use graphite_tsdb.Prelude.{ℕ, Bool, ◌&&◌, Option, List, leb, not}
use graphite_tsdb.Prelude.Int.{ltb_ℤ}
use graphite_tsdb.Types.{Key, SymbolId, TimestampNs, encode}
use graphite_tsdb.Bloom.{BloomFilter, contains}
use graphite_tsdb.Compression.Dictionary.{Symbol, SymbolDictionary}

abbrev pub sstable_magic : ℕ
sstable_magic = 0x53535442

abbrev pub sstable_version : ℕ
sstable_version = 1

pub data SsTableError : Type 0 where
  io bad_magic bad_bloom : SsTableError

-- What a call gives: a value, an error, or a panic.
pub data Outcome {ℓ} (A : Type ℓ) : Type ℓ where
  ok : A → Outcome A
  err : SsTableError → Outcome A
  panics : Outcome A

infixl 5 ◌>>=◌
abbrev pub ◌>>=◌ {ℓ κ} : {A : Type ℓ} {B : Type κ} → Outcome A → (A → Outcome B) → Outcome B
ok a >>= f = f a
err e >>= f = err e
panics >>= f = panics

pub record SsTableMeta : Type 0 where
  pub min_timestamp : TimestampNs
  pub max_timestamp : TimestampNs
  pub min_symbol_id : SymbolId
  pub max_symbol_id : SymbolId
  pub row_count : ℕ
  pub file_size : ℕ
  pub level : ℕ

pub record IndexEntry : Type 0 where
  pub key : Key
  pub block_offset : ℕ
  pub block_size : ℕ

pub record Footer : Type 0 where
  pub data_offset : ℕ
  pub data_size : ℕ
  pub index_offset : ℕ
  pub index_size : ℕ
  pub bloom_offset : ℕ
  pub bloom_size : ℕ
  pub meta_offset : ℕ
  pub meta_size : ℕ

-- The handle of the file is the bytes of the file; the path is left out.
pub record SsTable : Type 0 where
  pub id : ℕ
  pub meta : SsTableMeta
  pub file : List ℕ
  pub index : List IndexEntry
  pub bloom : BloomFilter
  pub symbol_dict : SymbolDictionary
  pub footer : Footer

pub may_contain_symbol : SsTable → Symbol → Option Bool
may_contain_symbol table symbol = contains table.bloom symbol

unfoldable pub may_contain_key : SsTable → Key → Option Bool
may_contain_key table key = contains table.bloom (encode key)

unfoldable pub overlaps_time_range : SsTableMeta → TimestampNs → TimestampNs → Bool
overlaps_time_range meta t1 t2 =
    not (ltb_ℤ meta.max_timestamp t1) && not (ltb_ℤ t2 meta.min_timestamp)

unfoldable pub overlaps_symbol : SsTableMeta → SymbolId → Bool
overlaps_symbol meta symbol_id =
    leb meta.min_symbol_id symbol_id && leb symbol_id meta.max_symbol_id
