-- ===== src/SsTable/Read.antt =====
-- graphite-core/src/sstable.rs: SsTable::open and SsTable::scan. The allocation of a buffer succeeds.
use graphite_tsdb.Prelude.{
  ℕ, zero, suc, ◌+◌, ◌-◌, ◌%◌, ◌^◌, Bool, false, ◌&&◌, ◌||◌, not, Option, none, some, List, [], ◌∷◌,
  ltb, leb, ◌==◌, if◌then◌else◌, length, slice, get_or,
}
use graphite_tsdb.Prelude.Int.{pos, ltb_ℤ}
use graphite_tsdb.Prelude.Bytes.{from_be_bytes, i64_of}
use graphite_tsdb.Types.{SymbolId, Tick, TimestampNs, decode}
use graphite_tsdb.Bloom.{BloomFilter, from_encoded}
use graphite_tsdb.Compression.Dictionary.{Symbol, SymbolDictionary, from_metadata, decode_ids}
use graphite_tsdb.Compression.Delta as Delta
use graphite_tsdb.Compression.Gorilla.{decode_double_delta}
use graphite_tsdb.Compression.Rle as Rle
use graphite_tsdb.Compression.Rle.{Compressors}
use graphite_tsdb.SsTable.{
  SsTable, SsTableMeta, IndexEntry, Footer, io, bad_magic, bad_bloom, Outcome, ok, err, panics,
  ◌>>=◌, sstable_magic, overlaps_time_range, overlaps_symbol,
}

-- `seek` to an offset and `read_exact` of a size. An offset above `i64::MAX` is an error.
unfoldable pub read_at : List ℕ → ℕ → ℕ → Outcome (List ℕ)
read_at file offset size =
    if leb (2 ^ 63) offset
    then err io
    else if size == 0
    then ok []
    else if ltb (length file) (offset + size)
    then err io
    else ok (slice offset (offset + size) file)

-- `u64::from_be_bytes(buf[a..b])` and the like, for bounds that were checked
abbrev number_at : List ℕ → ℕ → ℕ → ℕ
number_at buf a b = from_be_bytes (slice a b buf)

unfoldable pub read_footer : List ℕ → ℕ → Outcome Footer
unfolding read_at
read_footer file file_size = do
  buf ← read_at file ((file_size + 2 ^ 64 - 64) % 2 ^ 64) 64
  ok (record {
    data_offset = number_at buf 0 8;
    data_size = number_at buf 8 16;
    index_offset = number_at buf 16 24;
    index_size = number_at buf 24 32;
    bloom_offset = number_at buf 32 40;
    bloom_size = number_at buf 40 48;
    meta_offset = number_at buf 48 56;
    meta_size = number_at buf 56 64;
  })

unfoldable pub read_metadata : List ℕ → Footer → Outcome SsTableMeta
unfolding read_at
read_metadata file footer = do
  buf ← read_at file footer.meta_offset footer.meta_size
  if ltb (length buf) 32
      then panics
      else ok (record {
        min_timestamp = i64_of (number_at buf 0 8);
        max_timestamp = i64_of (number_at buf 8 16);
        min_symbol_id = number_at buf 16 18;
        max_symbol_id = number_at buf 18 20;
        row_count = number_at buf 20 28;
        file_size = 0;
        level = number_at buf 28 32;
      })

-- The body of the loop of `read_index`. A slice out of bounds panics.
unfoldable pub entry_at : ℕ → List ℕ → Outcome IndexEntry
entry_at offset buf =
    if ltb (length buf) (offset + 22)
    then panics
    else elim (decode (slice offset (offset + 10) buf)) [
      | none ↦ panics
      | some key ↦ ok (record {
        key = key;
        block_offset = number_at buf (offset + 10) (offset + 18);
        block_size = number_at buf (offset + 18) (offset + 22);
      })
    ]

-- `n` rounds of the loop of `read_index`.
unfoldable pub read_entries : ℕ → ℕ → List ℕ → Outcome (List IndexEntry)
unfolding entry_at
read_entries zero offset buf = ok []
read_entries (suc n) offset buf = do
  entry ← entry_at offset buf
  entries ← read_entries n (offset + 22) buf
  ok (entry ∷ entries)

unfoldable pub read_index : List ℕ → Footer → Outcome (List IndexEntry)
unfolding read_at read_entries
read_index file footer = do
  buf ← read_at file footer.index_offset footer.index_size
  if ltb (length buf) 4 then panics else read_entries (number_at buf 0 4) 4 buf

unfoldable pub read_bloom : List ℕ → Footer → Outcome BloomFilter
unfolding read_at
read_bloom file footer = do
  buf ← read_at file footer.bloom_offset footer.bloom_size
  elim (from_encoded buf) [ some bloom ↦ ok bloom | none ↦ err bad_bloom ]

-- `data[offset..offset + size]` for each size in turn, from `offset` on.
split_columns : List ℕ → ℕ → List ℕ → Outcome (List (List ℕ))
split_columns [] offset data_bytes = ok []
split_columns (size ∷ sizes) offset data_bytes =
    let rest = split_columns sizes (offset + size) data_bytes in
    if ltb (length data_bytes) (offset + size)
    then panics
    else rest >>= λ cols. ok (slice offset (offset + size) data_bytes ∷ cols)

-- The numbers of four bytes at `start`, `start + 4`, …, `n` of them.
read_sizes : ℕ → ℕ → List ℕ → List ℕ
read_sizes zero start data_bytes = []
read_sizes (suc n) start data_bytes =
    number_at data_bytes start (start + 4) ∷ read_sizes n (start + 4) data_bytes

-- The filters of the loop of `decode_ticks`.
unfoldable pub keeps : Option SymbolId → TimestampNs → TimestampNs → SymbolId → TimestampNs → Bool
keeps none t1 t2 sid ts = not (ltb_ℤ ts t1 || ltb_ℤ t2 ts)
keeps (some filter_sid) t1 t2 sid ts = not (ltb_ℤ ts t1 || ltb_ℤ t2 ts) && (sid == filter_sid)

pub record Columns : Type 0 where
  pub timestamps : List TimestampNs
  pub opens : List ℕ
  pub highs : List ℕ
  pub lows : List ℕ
  pub closes : List ℕ
  pub volumes : List ℕ
  pub symbol_ids : List SymbolId

-- The rounds `i`, `i + 1`, … of the loop of `decode_ticks`, `n` of them.
rows_loop : Columns → Option SymbolId → TimestampNs → TimestampNs → ℕ → ℕ → List Tick
unfolding keeps
rows_loop cols symbol_id t1 t2 zero i = []
rows_loop cols symbol_id t1 t2 (suc n) i =
    let ts = get_or cols.timestamps i (pos 0) in
    let sid = get_or cols.symbol_ids i 0 in
    let rest = rows_loop cols symbol_id t1 t2 n (i + 1) in
    if keeps symbol_id t1 t2 sid ts
    then (record {
      symbol_id = sid;
      timestamp = ts;
      open_price = get_or cols.opens i 0;
      high = get_or cols.highs i 0;
      low = get_or cols.lows i 0;
      close = get_or cols.closes i 0;
      volume = get_or cols.volumes i 0;
    })
      ∷ rest
    else rest

module _ (c : Compressors) (sub add : ℕ → ℕ → ℕ) where
  -- A column that panics when it is decoded makes the scan panic.
  decode_columns : List (List ℕ) → Outcome Columns
  decode_columns cols = elim (Delta.decode (get_or cols 0 [])) [
    | none ↦ panics
    | some timestamps ↦ ok (record {
      timestamps = timestamps;
      opens = decode_double_delta sub add (get_or cols 1 []);
      highs = decode_double_delta sub add (get_or cols 2 []);
      lows = decode_double_delta sub add (get_or cols 3 []);
      closes = decode_double_delta sub add (get_or cols 4 []);
      volumes = Rle.decode c (get_or cols 5 []);
      symbol_ids = decode_ids (get_or cols 6 []);
    })
  ]

  unfoldable pub decode_ticks :
      List ℕ → Option SymbolId → TimestampNs → TimestampNs → Outcome (List Tick)
  unfolding decode_columns split_columns read_sizes rows_loop
  decode_ticks data_bytes symbol_id t1 t2 =
      let start = length data_bytes - 28 in
      if ltb (length data_bytes) 28
      then ok []
      else split_columns (read_sizes 7 start data_bytes) (start + 28) data_bytes >>= λ slices.
          decode_columns slices >>= λ cols.
          ok (rows_loop cols symbol_id t1 t2 (length cols.timestamps) 0)

  unfoldable pub read_data_block : SsTable → Outcome (List ℕ)
  unfolding read_at
  read_data_block table =
      elim (read_at table.file table.footer.data_offset table.footer.data_size) [
        | ok buf ↦ ok buf
        | err e ↦ panics
        | panics ↦ panics
      ]

  -- The data block is the cached one, if the cache has it.
  unfoldable pub scan :
      SsTable → Option (List ℕ) → Option SymbolId → TimestampNs → TimestampNs → Outcome (List Tick)
  unfolding read_data_block decode_ticks overlaps_time_range overlaps_symbol
  scan table cached symbol_id t1 t2 =
      let block : Outcome (List ℕ) = elim cached [ some d ↦ ok d | none ↦ read_data_block table ] in
      let found = block >>= λ d. decode_ticks d symbol_id t1 t2 in
      let outside : Bool = elim symbol_id [
        | none ↦ false
        | some sid ↦ not (overlaps_symbol table.meta sid)
      ] in
      if not (overlaps_time_range table.meta t1 t2) then ok [] else if outside then ok [] else found

module _ (from_utf8_lossy : List ℕ → Symbol) where
  unfoldable pub read_symbol_dict : List ℕ → Footer → Outcome SymbolDictionary
  unfolding read_at
  read_symbol_dict file footer = do
    buf ← read_at file footer.meta_offset footer.meta_size
    let dict_len = number_at buf 40 44
    if ltb (length buf) 44
        then panics
        else if ltb (length buf) (44 + dict_len)
        then panics
        else ok (from_metadata from_utf8_lossy (slice 44 (44 + dict_len) buf))

  -- The id is what the counter of the tables gives.
  unfoldable pub open_table : ℕ → List ℕ → Outcome SsTable
  unfolding read_at read_footer read_metadata read_index read_bloom read_symbol_dict
  open_table id file = do
    magic_buf ← read_at file 0 4
    if not (from_be_bytes magic_buf == sstable_magic) then err bad_magic else do
      version_buf ← read_at file 4 2
      footer ← read_footer file (length file)
      meta ← read_metadata file footer
      index ← read_index file footer
      bloom ← read_bloom file footer
      dict ← read_symbol_dict file footer
      ok (record {
        id = id;
        meta = meta;
        file = file;
        index = index;
        bloom = bloom;
        symbol_dict = dict;
        footer = footer;
      })
