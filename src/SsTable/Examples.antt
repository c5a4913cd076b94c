-- ===== src/SsTable/Examples.antt =====
-- A table with one tick, and the theorems at concrete inputs.
use graphite_tsdb.Prelude.{
  ℕ, ◌+◌, ◌*◌, ◌/◌, ◌^◌, ◌<◌, ◌≡◌, refl, ap, arith, Option, none, some, [], ◌∷◌, length, true, ltb,
  ltb→lt,
}
use graphite_tsdb.Prelude.Int.{pos, ◌-ℤ◌}
use graphite_tsdb.Prelude.Bytes.{to_be_bytes, from_be_bytes, u64_of}
use graphite_tsdb.Types.{Tick, encode}
use graphite_tsdb.Bloom.{
  FloatOps, fnv_byte, fnv1a, optimal_num_bits, optimal_num_hashes, new, hash_to_index, insert_loop,
  insert, insert_all, set_bit, words_to_bytes, to_bytes,
}
use graphite_tsdb.Compression.Dictionary.{
  SymbolDictionary, ids_to_bytes, encode_ids, symbols_to_bytes, to_metadata, get_symbol,
}
use graphite_tsdb.Compression.Delta as Delta
use graphite_tsdb.Compression.Delta.{wrap, time_deltas, min_delta, max_delta, bits_needed}
use graphite_tsdb.Compression.Gorilla as Gorilla
use graphite_tsdb.Compression.Gorilla.{
  leading_zeros, encode_value, encode_loop, differences, deltas, compute_double_deltas,
  encode_double_delta,
}
use graphite_tsdb.Compression.Rle.{
  Compressors, run_length, rle_encode_loop, rle_encode, compress_zstd, encode_for_level,
}
use graphite_tsdb.SsTable.Pruning.{pruning_keeps}
use graphite_tsdb.SsTable.{overlaps_time_range, overlaps_symbol, SsTable, panics}
use graphite_tsdb.SsTable.Read.{keeps, open_table}
use graphite_tsdb.SsTable.Write.{
  common_prefix, sized, close_last, bloom_keys, add_entry, close_full, block_step, blocks_loop,
  key_blocks, col_sizes, index_entries, index_block, min_symbol, max_symbol, last_timestamp,
  meta_of, meta_block, write_footer, footer_of, file_of, columns, data_block, write,
}
use graphite_tsdb.SsTable.Reopen.{open_table-write}

-- Whole numbers in the place of floating-point numbers.
abbrev pub whole_ops : FloatOps
whole_ops = record {
  F = ℕ;
  of_usize = λ n. n;
  mul = λ a b. a * b;
  div = λ a b. a / b;
  neg = λ a. a;
  ln = λ a. a;
  square = λ a. a * a;
  two = 2;
  e = 3;
  bloom_fpr = 1;
  ceil_usize = λ a. a;
  round_u32 = λ a. a;
}

-- Compressors that keep the bytes.
abbrev pub plain : Compressors
plain = record {
  lz4_compress = λ bytes. bytes;
  lz4_decompress = λ bytes. some bytes;
  zstd_encode = λ bytes. some bytes;
  zstd_decode = λ bytes. some bytes;
}

abbrev pub one_symbol : SymbolDictionary
one_symbol = record { symbol_to_id = (b'A' ∷ [], 0) ∷ []; id_to_symbol = (b'A' ∷ []) ∷ [] }

abbrev pub tick : Tick
tick = record {
  symbol_id = 0;
  timestamp = pos 1000;
  open_price = 1;
  high = 1;
  low = 1;
  close = 1;
  volume = 5;
}

abbrev empty_table : SsTable
unfolding meta_of footer_of
empty_table = record {
  id = 0;
  meta = meta_of [] 0;
  file = [];
  index = [];
  bloom = record { bits = []; num_bits = 0; num_hashes = 0 };
  symbol_dict = one_symbol;
  footer = footer_of [] [] [] [];
}

abbrev or_empty_table : Option SsTable → SsTable
or_empty_table none = empty_table
or_empty_table (some table) = table

abbrev table : SsTable
table = or_empty_table (write whole_ops plain ◌+◌ ◌+◌ 1 (tick ∷ []) 0 one_symbol)

small : ltb (length table.file) (2 ^ 63) ≡ true
unfolding write data_block columns col_sizes file_of footer_of write_footer meta_block meta_of
    min_symbol max_symbol last_timestamp index_block index_entries key_blocks blocks_loop block_step
    add_entry close_full close_last sized common_prefix bloom_keys to_be_bytes from_be_bytes u64_of
    encode fnv_byte fnv1a optimal_num_bits optimal_num_hashes new hash_to_index insert_loop insert
    insert_all set_bit words_to_bytes to_bytes ids_to_bytes encode_ids symbols_to_bytes to_metadata
    get_symbol Delta.encode wrap time_deltas min_delta max_delta bits_needed Gorilla.encode
    leading_zeros encode_value encode_loop differences deltas compute_double_deltas
    encode_double_delta run_length rle_encode_loop rle_encode compress_zstd encode_for_level ◌-ℤ◌
small = refl

-- The one file that is written is short.
pub write_short :
    (t : SsTable)
    → write whole_ops plain ◌+◌ ◌+◌ 1 (tick ∷ []) 0 one_symbol ≡ some t
    → length t.file < 2 ^ 63
write_short t e =
    let is : table.file ≡ t.file = ap (λ (o : Option SsTable). (or_empty_table o).file) e in
    omega (arith, ltb→lt (length table.file) (2 ^ 63) small, ap length is)

open_table-write_example : open_table (λ bytes. bytes) 2 table.file ≡ panics
unfolding write data_block columns col_sizes file_of footer_of write_footer meta_block meta_of
    min_symbol max_symbol last_timestamp index_block index_entries key_blocks blocks_loop block_step
    add_entry close_full close_last sized common_prefix bloom_keys to_be_bytes from_be_bytes u64_of
    encode fnv_byte fnv1a optimal_num_bits optimal_num_hashes new hash_to_index insert_loop insert
    insert_all set_bit words_to_bytes to_bytes ids_to_bytes encode_ids symbols_to_bytes to_metadata
    get_symbol Delta.encode wrap time_deltas min_delta max_delta bits_needed Gorilla.encode
    leading_zeros encode_value encode_loop differences deltas compute_double_deltas
    encode_double_delta run_length rle_encode_loop rle_encode compress_zstd encode_for_level
open_table-write_example =
    open_table-write whole_ops plain ◌+◌ ◌+◌ (λ bytes. bytes) tick [] 0 one_symbol 1 2 table refl
      (omega arith) (ltb→lt (length table.file) (2 ^ 63) small)

pruning_keeps_example :
    (overlaps_time_range
        (meta_of (tick ∷ (record tick { symbol_id = 2; timestamp = pos 1005 }) ∷ []) 0)
        (pos 1001)
        (pos 2000)
      ≡ true)
    × (overlaps_symbol
          (meta_of (tick ∷ (record tick { symbol_id = 2; timestamp = pos 1005 }) ∷ []) 0)
          2
        ≡ true)
unfolding keeps
pruning_keeps_example =
    pruning_keeps tick ((record tick { symbol_id = 2; timestamp = pos 1005 }) ∷ []) 0 1
      (record tick { symbol_id = 2; timestamp = pos 1005 }) (some 2) (pos 1001) (pos 2000)
      (omega arith, tt) refl refl
