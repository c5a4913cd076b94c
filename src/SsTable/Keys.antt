-- ===== src/SsTable/Keys.antt =====
-- The bloom filter of a table that was written, which knows all its keys.
use graphite_tsdb.Prelude.{
  ℕ, zero, suc, ◌^◌, ◌<◌, ◌≡◌, refl, arith, true, some, List, [], ◌∷◌, length, get_elem?, max, All,
  replicate, length-replicate,
}
use mathlib.Core.Option.{some-injective}
use graphite_tsdb.Prelude.Bytes.{IsU64}
use graphite_tsdb.Types.{Tick, encode, key_of}
use graphite_tsdb.Bloom.{
  FloatOps, IsBloom, new, optimal_num_bits, optimal_num_hashes, contains, to_bytes,
}
use graphite_tsdb.Bloom.Membership.{contains-insert_all}
use graphite_tsdb.Compression.Dictionary.{SymbolDictionary}
use graphite_tsdb.Compression.Rle.{Compressors}
use graphite_tsdb.SsTable.{SsTable}
use graphite_tsdb.SsTable.Write.{
  bloom_keys, meta_of, write, data_block, key_blocks, index_block, meta_block, footer_of, file_of,
}

replicate-IsU64 : (n : ℕ) → All IsU64 (replicate n 0)
replicate-IsU64 zero = tt
replicate-IsU64 (suc n) = (omega arith, replicate-IsU64 n)

-- A fresh filter is well formed, if the number of its bits has 32 bits.
pub new-IsBloom :
    (ops : FloatOps) (n : ℕ) → optimal_num_bits ops n ops.bloom_fpr < 2 ^ 32 → IsBloom (new ops n)
unfolding new optimal_num_bits optimal_num_hashes
new-IsBloom ops n few = record {
  has_bits = omega arith;
  words = length-replicate _ 0;
  word_range = replicate-IsU64 _;
  bits_range = few;
  hashes_range = omega arith;
}

-- What holds for all keys of the filter holds for the key of each tick.
pub bloom_keys-key :
    (P : List ℕ → Type 0) (dict : SymbolDictionary) (ticks : List Tick) (i : ℕ) (t : Tick)
    → All P (bloom_keys dict ticks)
    → get_elem? ticks i ≡ some t
    → P (encode (key_of t))
unfolding bloom_keys
bloom_keys-key P dict [] i t h e = absurd (ground (arith, e))
bloom_keys-key P dict (x ∷ xs) zero t h e = let is : x ≡ t = some-injective x t e in rw is at h.0
bloom_keys-key P dict (x ∷ xs) (suc i) t h e = bloom_keys-key P dict xs i t h.1.1 e

module _ (ops : FloatOps) (c : Compressors) (sub add : ℕ → ℕ → ℕ) where
  -- Writing ticks gives a table with their ranges, whose filter has all keys.
  pub write_lem :
      (id : ℕ) (ticks : List Tick) (level : ℕ) (dict : SymbolDictionary)
      → optimal_num_bits ops (max (length ticks) 1) ops.bloom_fpr < 2 ^ 32
      → (table : SsTable) × ((write ops c sub add id ticks level dict ≡ some table)
          × ((table.meta ≡ record (meta_of ticks level) { file_size = length table.file })
              × All (λ key. contains table.bloom key ≡ some true) (bloom_keys dict ticks)))
  unfolding write
  write_lem id ticks level dict few =
      let (g, e, w, has, more) =
        contains-insert_all (new ops (max (length ticks) 1)) (bloom_keys dict ticks)
          (new-IsBloom ops (max (length ticks) 1) few) in
      let data_buf = data_block ops c sub add ticks level in
      let meta = meta_of ticks level in
      let meta_buf = meta_block meta (length (key_blocks ticks).0) dict in
      let index = (key_blocks ticks).1 in
      let file = file_of data_buf (index_block index) (to_bytes g) meta_buf in
      let table : SsTable = record {
        id = id;
        meta = record meta { file_size = length file };
        file = file;
        index = index;
        bloom = g;
        symbol_dict = dict;
        footer = footer_of data_buf (index_block index) (to_bytes g) meta_buf;
      } in
      (table, (rw e refl, (refl, has)))
