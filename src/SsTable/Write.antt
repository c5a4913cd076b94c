-- ===== src/SsTable/Write.antt =====
-- graphite-core/src/sstable.rs: SsTable::write. The operations of floating-point numbers and the
-- compressors are parameters.
use graphite_tsdb.Prelude.{
  ℕ, suc, ◌+◌, ◌-◌, ◌%◌, ◌^◌, ◌&&◌, Option, none, some, List, [], ◌∷◌, ◌++◌, ltb, leb, ◌==◌,
  if◌then◌else◌, length, drop, map, min, max,
}
use graphite_tsdb.Prelude.Options.{◌>>=◌}
use graphite_tsdb.Prelude.Int.{pos}
use graphite_tsdb.Prelude.Bytes.{to_be_bytes, u64_of}
use graphite_tsdb.Types.{
  Key, SymbolId, Tick, TimestampNs, encode, key_of, block_size, index_interval,
}
use graphite_tsdb.Bloom.{FloatOps, new, insert_all, to_bytes}
use graphite_tsdb.Compression.Dictionary.{
  Symbol, SymbolDictionary, get_symbol, encode_ids, to_metadata,
}
use graphite_tsdb.Compression.Delta as Delta
use graphite_tsdb.Compression.Gorilla.{encode_double_delta}
use graphite_tsdb.Compression.Rle.{Compressors, encode_for_level}
use graphite_tsdb.SsTable.{SsTable, SsTableMeta, IndexEntry, Footer, sstable_magic, sstable_version}

abbrev pub unknown : Symbol
unknown = b'U' ∷ b'N' ∷ b'K' ∷ b'N' ∷ b'O' ∷ b'W' ∷ b'N' ∷ []

-- The keys that go into the bloom filter, in the order of the ticks.
unfoldable pub bloom_keys : SymbolDictionary → List Tick → List (List ℕ)
bloom_keys dict [] = []
bloom_keys dict (tick ∷ ticks) =
    let sym : Symbol = elim (get_symbol dict tick.symbol_id) [ some s ↦ s | none ↦ unknown ] in
    encode (key_of tick) ∷ sym ∷ bloom_keys dict ticks

-- The length of the common prefix of two byte strings.
unfoldable pub common_prefix : List ℕ → List ℕ → ℕ
common_prefix [] bs = 0
common_prefix (a ∷ as') [] = 0
common_prefix (a ∷ as') (b ∷ bs) = let more = common_prefix as' bs in if a == b then suc more else 0

-- `entry.block_size = data_buf.len() as u32 - entry.block_offset as u32`
unfoldable pub sized : ℕ → IndexEntry → IndexEntry
sized data_len entry = record entry {
  block_size = (data_len % 2 ^ 32 + 2 ^ 32 - entry.block_offset % 2 ^ 32) % 2 ^ 32;
}

-- `if let Some(entry) = index.last_mut()`
unfoldable pub close_last : ℕ → List IndexEntry → List IndexEntry
unfolding sized
close_last data_len [] = []
close_last data_len (entry ∷ []) = sized data_len entry ∷ []
close_last data_len (entry ∷ (next ∷ entries)) = entry ∷ close_last data_len (next ∷ entries)

pub record Blocks : Type 0 where
  pub data_buf : List ℕ
  pub index : List IndexEntry
  pub prev_key : Option Key

-- A sparse index: an entry for every `INDEX_INTERVAL` ticks.
unfoldable pub add_entry : ℕ → Tick → Blocks → List IndexEntry
add_entry i tick s =
    if (i % index_interval) == 0
    then s.index
      ++ ((record { key = key_of tick; block_offset = length s.data_buf; block_size = 0 }) ∷ [])
    else s.index

-- The end of the body: a block that is full and not the last one.
unfoldable pub close_full : ℕ → ℕ → ℕ → List IndexEntry → List IndexEntry
unfolding close_last
close_full total i data_len index =
    if leb block_size data_len && ltb i (total - 1) then close_last data_len index else index

-- The body of the loop over the ticks, for the tick `i` of `total`.
unfoldable pub block_step : ℕ → ℕ → Tick → Blocks → Blocks
unfolding common_prefix add_entry close_full encode
block_step total i tick s =
    let full_key = encode (key_of tick) in
    let prefix_len : ℕ = elim s.prev_key [
      | some prev ↦ common_prefix full_key (encode prev)
      | none ↦ 0
    ] in
    let data_buf =
      s.data_buf ++ ((prefix_len ∷ drop prefix_len full_key) ++ to_be_bytes 4 (i % 2 ^ 32)) in
    record {
      data_buf = data_buf;
      index = close_full total i (length data_buf) (add_entry i tick s);
      prev_key = some (key_of tick);
    }

-- The loop over the ticks `i`, `i + 1`, ….
unfoldable pub blocks_loop : ℕ → ℕ → List Tick → Blocks → Blocks
unfolding block_step
blocks_loop total i [] s = s
blocks_loop total i (tick ∷ ticks) s = blocks_loop total (i + 1) ticks (block_step total i tick s)

-- The key blocks and the index of a table.
unfoldable pub key_blocks : List Tick → List ℕ × List IndexEntry
unfolding blocks_loop close_last
key_blocks ticks =
    let s =
      blocks_loop (length ticks) 0 ticks (record { data_buf = []; index = []; prev_key = none }) in
    (s.data_buf, close_last (length s.data_buf) s.index)

abbrev concat : List (List ℕ) → List ℕ
concat [] = []
concat (bs ∷ bss) = bs ++ concat bss

unfoldable pub col_sizes : List (List ℕ) → List ℕ
col_sizes [] = []
col_sizes (col ∷ cols) = to_be_bytes 4 (length col % 2 ^ 32) ++ col_sizes cols

unfoldable pub index_entries : List IndexEntry → List ℕ
index_entries [] = []
index_entries (entry ∷ entries) =
    encode entry.key
    ++ (to_be_bytes 8 entry.block_offset
        ++ (to_be_bytes 4 entry.block_size ++ index_entries entries))

unfoldable pub index_block : List IndexEntry → List ℕ
unfolding index_entries
index_block index = to_be_bytes 4 (length index % 2 ^ 32) ++ index_entries index

unfoldable pub min_symbol : SymbolId → List Tick → SymbolId
min_symbol least [] = least
min_symbol least (tick ∷ ticks) = min_symbol (min least tick.symbol_id) ticks

unfoldable pub max_symbol : SymbolId → List Tick → SymbolId
max_symbol most [] = most
max_symbol most (tick ∷ ticks) = max_symbol (max most tick.symbol_id) ticks

unfoldable pub last_timestamp : TimestampNs → List Tick → TimestampNs
last_timestamp t [] = t
last_timestamp t (tick ∷ ticks) = last_timestamp tick.timestamp ticks

unfoldable pub meta_of : List Tick → ℕ → SsTableMeta
unfolding min_symbol max_symbol last_timestamp
meta_of [] level = record {
  min_timestamp = pos 0;
  max_timestamp = pos 0;
  min_symbol_id = 0;
  max_symbol_id = 0;
  row_count = 0;
  file_size = 0;
  level = level;
}
meta_of (first ∷ rest) level = record {
  min_timestamp = first.timestamp;
  max_timestamp = last_timestamp first.timestamp rest;
  min_symbol_id = min_symbol first.symbol_id rest;
  max_symbol_id = max_symbol first.symbol_id rest;
  row_count = length rest + 1;
  file_size = 0;
  level = level;
}

unfoldable pub meta_block : SsTableMeta → ℕ → SymbolDictionary → List ℕ
meta_block meta col_offset dict =
    to_be_bytes 8 (u64_of meta.min_timestamp)
    ++ (to_be_bytes 8 (u64_of meta.max_timestamp)
        ++ (to_be_bytes 2 meta.min_symbol_id
            ++ (to_be_bytes 2 meta.max_symbol_id
                ++ (to_be_bytes 8 meta.row_count
                    ++ (to_be_bytes 4 meta.level
                        ++ (to_be_bytes 8 col_offset
                            ++ (to_be_bytes 4 (length (to_metadata dict) % 2 ^ 32)
                                ++ to_metadata dict)))))))

unfoldable pub write_footer : Footer → List ℕ
write_footer footer =
    to_be_bytes 8 footer.data_offset
    ++ (to_be_bytes 8 footer.data_size
        ++ (to_be_bytes 8 footer.index_offset
            ++ (to_be_bytes 8 footer.index_size
                ++ (to_be_bytes 8 footer.bloom_offset
                    ++ (to_be_bytes 8 footer.bloom_size
                        ++ (to_be_bytes 8 footer.meta_offset ++ to_be_bytes 8 footer.meta_size))))))

-- The sections of a file, from its data and the bytes of the other parts.
unfoldable pub footer_of : List ℕ → List ℕ → List ℕ → List ℕ → Footer
footer_of data_buf index_buf bloom_bytes meta_buf =
    let data_offset : ℕ = 8 in
    let index_offset = data_offset + length data_buf in
    let bloom_offset = index_offset + length index_buf in
    record {
      data_offset = data_offset;
      data_size = length data_buf;
      index_offset = index_offset;
      index_size = length index_buf;
      bloom_offset = bloom_offset;
      bloom_size = length bloom_bytes;
      meta_offset = bloom_offset + length bloom_bytes;
      meta_size = length meta_buf;
    }

unfoldable pub file_of : List ℕ → List ℕ → List ℕ → List ℕ → List ℕ
unfolding footer_of write_footer
file_of data_buf index_buf bloom_bytes meta_buf =
    to_be_bytes 4 sstable_magic
    ++ (to_be_bytes 2 sstable_version
        ++ (data_buf
            ++ (index_buf
                ++ (bloom_bytes
                    ++ (meta_buf
                        ++ write_footer (footer_of data_buf index_buf bloom_bytes meta_buf))))))

module _ (ops : FloatOps) (c : Compressors) (sub add : ℕ → ℕ → ℕ) where
  -- The encoded columns, in the order of the file.
  unfoldable pub columns : List Tick → ℕ → List (List ℕ)
  columns ticks level =
      Delta.encode (map (λ (t : Tick). t.timestamp) ticks)
      ∷ encode_double_delta sub add (map (λ (t : Tick). t.open_price) ticks)
      ∷ encode_double_delta sub add (map (λ (t : Tick). t.high) ticks)
      ∷ encode_double_delta sub add (map (λ (t : Tick). t.low) ticks)
      ∷ encode_double_delta sub add (map (λ (t : Tick). t.close) ticks)
      ∷ encode_for_level c (map (λ (t : Tick). t.volume) ticks) level
      ∷ encode_ids (map (λ (t : Tick). t.symbol_id) ticks)
      ∷ []

  -- The key blocks, the sizes of the columns and the columns.
  unfoldable pub data_block : List Tick → ℕ → List ℕ
  unfolding columns col_sizes key_blocks
  data_block ticks level =
      (key_blocks ticks).0 ++ (col_sizes (columns ticks level) ++ concat (columns ticks level))

  -- The id is what the counter of the tables gives.
  unfoldable pub write : ℕ → List Tick → ℕ → SymbolDictionary → Option SsTable
  unfolding data_block key_blocks index_block meta_of meta_block footer_of file_of bloom_keys
  write id ticks level dict = do
    bloom ← insert_all (new ops (max (length ticks) 1)) (bloom_keys dict ticks)
    let data_buf = data_block ticks level
    let index = (key_blocks ticks).1
    let meta = meta_of ticks level
    let meta_buf = meta_block meta (length (key_blocks ticks).0) dict
    let file = file_of data_buf (index_block index) (to_bytes bloom) meta_buf
    some (record {
      id = id;
      meta = record meta { file_size = length file };
      file = file;
      index = index;
      bloom = bloom;
      symbol_dict = dict;
      footer = footer_of data_buf (index_block index) (to_bytes bloom) meta_buf;
    })
