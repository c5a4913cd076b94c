-- ===== src/SsTable/Reopen.antt =====
-- What opening a file that the writer of SSTables produced does.
use graphite_tsdb.Prelude.{
  ℕ, suc, ◌-◌, ◌%◌, ◌^◌, ◌≤◌, ◌<◌, ◌≡◌, sym, ap, ◌∙◌, arith, Option, none, some, Option-cases, inl,
  inr, List, [], ◌∷◌, ◌++◌, length, length-append, max,
}
use graphite_tsdb.Prelude.Bytes.{to_be_bytes, u64_of, length-to_be_bytes}
use graphite_tsdb.Types.{Tick}
use graphite_tsdb.Bloom.{FloatOps, new, insert_all, to_bytes}
use graphite_tsdb.Compression.Dictionary.{Symbol, SymbolDictionary, to_metadata}
use graphite_tsdb.Compression.Rle.{Compressors}
use graphite_tsdb.SsTable.{SsTable, SsTableMeta, panics}
use graphite_tsdb.SsTable.Read.{open_table}
use graphite_tsdb.SsTable.Write.{
  index_block, file_of, meta_block, meta_of, key_blocks, data_block, bloom_keys, write,
}
use graphite_tsdb.SsTable.Blocks.{key_blocks_bounds}
use graphite_tsdb.SsTable.Written.{open_table-file_of}

length-meta_block :
    (meta : SsTableMeta) (col_offset : ℕ) (dict : SymbolDictionary)
    → 32 ≤ length (meta_block meta col_offset dict)
unfolding meta_block
length-meta_block meta col_offset dict =
    let tail6 =
      to_be_bytes 8 col_offset
      ++ (to_be_bytes 4 (length (to_metadata dict) % 2 ^ 32) ++ to_metadata dict) in
    let tail5 = to_be_bytes 4 meta.level ++ tail6 in
    let tail4 = to_be_bytes 8 meta.row_count ++ tail5 in
    let tail3 = to_be_bytes 2 meta.max_symbol_id ++ tail4 in
    let tail2 = to_be_bytes 2 meta.min_symbol_id ++ tail3 in
    let tail1 = to_be_bytes 8 (u64_of meta.max_timestamp) ++ tail2 in
    omega (
      arith,
      length-append (to_be_bytes 8 (u64_of meta.min_timestamp)) tail1,
      length-append (to_be_bytes 8 (u64_of meta.max_timestamp)) tail2,
      length-append (to_be_bytes 2 meta.min_symbol_id) tail3,
      length-append (to_be_bytes 2 meta.max_symbol_id) tail4,
      length-append (to_be_bytes 8 meta.row_count) tail5,
      length-append (to_be_bytes 4 meta.level) tail6,
      length-to_be_bytes 8 (u64_of meta.min_timestamp),
      length-to_be_bytes 8 (u64_of meta.max_timestamp),
      length-to_be_bytes 2 meta.min_symbol_id,
      length-to_be_bytes 2 meta.max_symbol_id,
      length-to_be_bytes 8 meta.row_count,
      length-to_be_bytes 4 meta.level,
    )

file_bytes : Option SsTable → List ℕ
file_bytes none = []
file_bytes (some table) = table.file

module _ (ops : FloatOps) (c : Compressors) (sub add : ℕ → ℕ → ℕ) where
  -- The table that `write` makes of some ticks, fewer than 65536, cannot be opened again: `open`
  -- panics, whatever the ticks, the level, the dictionary and the coders are. The file is shorter
  -- than 2 ^ 63 bytes.
  pub open_table-write :
      (from_utf8_lossy : List ℕ → Symbol) (tick : Tick) (ticks : List Tick) (level : ℕ)
      (dict : SymbolDictionary) (id id' : ℕ) (table : SsTable)
      → write ops c sub add id (tick ∷ ticks) level dict ≡ some table
      → length ticks < 2 ^ 16 - 1
      → length table.file < 2 ^ 63
      → open_table from_utf8_lossy id' table.file ≡ panics
  unfolding write file_bytes
  open_table-write from_utf8_lossy tick ticks level dict id id' table written few short =
      elim (Option-cases
        (insert_all (new ops (max (suc (length ticks)) 1)) (bloom_keys dict (tick ∷ ticks)))) [
          | inl none_e ↦ absurd (ground (arith, (rw none_e at written)))
          | inr (bloom, e) ↦
              let data_buf = data_block ops c sub add (tick ∷ ticks) level in
              let meta_buf =
                meta_block (meta_of (tick ∷ ticks) level) (length (key_blocks (tick ∷ ticks)).0)
                  dict in
              let index = (key_blocks (tick ∷ ticks)).1 in
              let (some_entry, few_entries) = key_blocks_bounds tick ticks in
              let is : file_of data_buf (index_block index) (to_bytes bloom) meta_buf ≡ table.file =
                ap file_bytes (rw e at written) in
              ap (open_table from_utf8_lossy id') (sym is)
              ∙ open_table-file_of data_buf (to_bytes bloom) meta_buf index from_utf8_lossy id'
                  some_entry (omega arith)
                  (length-meta_block (meta_of (tick ∷ ticks) level)
                    (length (key_blocks (tick ∷ ticks)).0) dict)
                  (omega (arith, ap length is))
        ]
