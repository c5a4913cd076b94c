-- ===== src/SsTable/Written.antt =====
-- The sections of a file as the writer of SSTables lays them out, read back one by one.
use graphite_tsdb.Prelude.{
  ℕ, ◌+◌, ◌^◌, ◌≤◌, ◌<◌, ◌≡◌, refl, ap, ◌∙◌, arith, false, List, [], ◌++◌, append_assoc, ltb,
  length, length-append, slice, All,
}
use graphite_tsdb.Prelude.Bytes.{
  IsU64, to_be_bytes, from_be_bytes, i64_of, length-to_be_bytes, from_be_bytes-to_be_bytes,
}
use graphite_tsdb.Compression.Dictionary.{Symbol}
use graphite_tsdb.SsTable.{
  IndexEntry, Footer, SsTableMeta, ok, panics, sstable_magic, sstable_version,
}
use graphite_tsdb.SsTable.Read.{read_at, read_footer, read_metadata, read_index, open_table}
use graphite_tsdb.SsTable.Write.{index_block, write_footer, footer_of, file_of}
use graphite_tsdb.SsTable.Sections.{read_at-slice, read_at_section, length-slice}
use graphite_tsdb.SsTable.Footers.{fields, length-write_footer, read_footer-write_footer}
use graphite_tsdb.SsTable.Late.{read_index_late}

read_metadata_long :
    (file : List ℕ) (f : Footer)
    → length file < 2 ^ 63
    → 32 ≤ f.meta_size
    → f.meta_offset + f.meta_size ≤ length file
    → (meta : SsTableMeta) × (read_metadata file f ≡ ok meta)
unfolding read_metadata
read_metadata_long file f short long inside =
    let a = f.meta_offset in
    let m = f.meta_size in
    let buf = slice a (a + m) file in
    let e : read_at file a m ≡ ok buf = read_at-slice file a m short (omega arith) inside in
    let len : length buf ≡ m = length-slice a (a + m) file (omega arith) inside ∙ omega arith in
    let whole : ltb (length buf) 32 ≡ false = ground arith in
    (
      record {
        min_timestamp = i64_of (from_be_bytes (slice 0 8 buf));
        max_timestamp = i64_of (from_be_bytes (slice 8 16 buf));
        min_symbol_id = from_be_bytes (slice 16 18 buf);
        max_symbol_id = from_be_bytes (slice 18 20 buf);
        row_count = from_be_bytes (slice 20 28 buf);
        file_size = 0;
        level = from_be_bytes (slice 28 32 buf);
      },
      rw (e, whole) refl,
    )

module _ (data_buf bloom_bytes meta_buf : List ℕ) (index : List IndexEntry) where
  abbrev index_buf : List ℕ
  index_buf = index_block index

  abbrev footer : Footer
  footer = footer_of data_buf index_buf bloom_bytes meta_buf

  abbrev file : List ℕ
  file = file_of data_buf index_buf bloom_bytes meta_buf

  abbrev head : List ℕ
  head = to_be_bytes 4 sstable_magic

  abbrev number : List ℕ
  number = to_be_bytes 2 sstable_version

  length-file :
      length file ≡ 70 + length data_buf + length index_buf + length bloom_bytes + length meta_buf
  unfolding file_of
  length-file =
      let end = write_footer footer in
      omega (
        arith,
        length-append head
            (number ++ (data_buf ++ (index_buf ++ (bloom_bytes ++ (meta_buf ++ end))))),
        length-append number (data_buf ++ (index_buf ++ (bloom_bytes ++ (meta_buf ++ end)))),
        length-append data_buf (index_buf ++ (bloom_bytes ++ (meta_buf ++ end))),
        length-append index_buf (bloom_bytes ++ (meta_buf ++ end)),
        length-append bloom_bytes (meta_buf ++ end),
        length-append meta_buf end,
        length-write_footer footer,
        length-to_be_bytes 4 sstable_magic,
        length-to_be_bytes 2 sstable_version,
      )

  -- The footer of a written file is read back.
  read_own_footer : length file < 2 ^ 63 → read_footer file (length file) ≡ ok footer
  unfolding file_of footer_of
  read_own_footer short =
      let end = write_footer footer in
      let body = head ++ (number ++ (data_buf ++ (index_buf ++ (bloom_bytes ++ meta_buf)))) in
      let split : file ≡ body ++ end =
        rw
          (
            append_assoc head (number ++ (data_buf ++ (index_buf ++ (bloom_bytes ++ meta_buf))))
                end,
            append_assoc number (data_buf ++ (index_buf ++ (bloom_bytes ++ meta_buf))) end,
            append_assoc data_buf (index_buf ++ (bloom_bytes ++ meta_buf)) end,
            append_assoc index_buf (bloom_bytes ++ meta_buf) end,
            append_assoc bloom_bytes meta_buf end,
          )
          refl in
      let fit : All IsU64 (fields footer) = (
        omega arith,
        (
          omega (arith, length-file),
          (
            omega (arith, length-file),
            (
              omega (arith, length-file),
              (
                omega (arith, length-file),
                (
                  omega (arith, length-file),
                  (omega (arith, length-file), (omega (arith, length-file), tt)),
                ),
              ),
            ),
          ),
        ),
      ) in
      ap (λ (t : List ℕ). read_footer t (length t)) split
      ∙ read_footer-write_footer body footer fit (omega (arith, ap length split))

  read_own_index :
      0 < length index
      → length index < 2 ^ 16
      → length file < 2 ^ 63
      → read_index file footer ≡ panics
  unfolding file_of footer_of
  read_own_index some_entry few short =
      let end = write_footer footer in
      let before = head ++ (number ++ data_buf) in
      let rest = bloom_bytes ++ (meta_buf ++ end) in
      let split : file ≡ before ++ (index_buf ++ rest) =
        rw
          (
            append_assoc head (number ++ data_buf) (index_buf ++ rest),
            append_assoc number data_buf (index_buf ++ rest),
          )
          refl in
      let at_data : length before ≡ 6 + length data_buf = omega (
        arith,
        length-append head (number ++ data_buf),
        length-append number data_buf,
        length-to_be_bytes 4 sstable_magic,
        length-to_be_bytes 2 sstable_version,
      ) in
      let follows : 2 ≤ length rest = omega (
        arith,
        length-append bloom_bytes (meta_buf ++ end),
        length-append meta_buf end,
        length-write_footer footer,
      ) in
      ap (λ (t : List ℕ). read_index t footer) split
      ∙ read_index_late before rest index footer some_entry few (omega (arith, at_data)) refl
          follows (omega (arith, ap length split))

  read_magic : length file < 2 ^ 63 → read_at file 0 4 ≡ ok head
  unfolding file_of
  read_magic short =
      let end = write_footer footer in
      let rest = number ++ (data_buf ++ (index_buf ++ (bloom_bytes ++ (meta_buf ++ end)))) in
      read_at_section [] head rest 0 4 short (omega arith) refl (length-to_be_bytes 4 sstable_magic)

  read_version : length file < 2 ^ 63 → read_at file 4 2 ≡ ok number
  unfolding file_of
  read_version short =
      let end = write_footer footer in
      let rest = data_buf ++ (index_buf ++ (bloom_bytes ++ (meta_buf ++ end))) in
      read_at_section head number rest 4 2 short (omega arith) (length-to_be_bytes 4 sstable_magic)
        (length-to_be_bytes 2 sstable_version)

  pub open_table-file_of :
      (from_utf8_lossy : List ℕ → Symbol) (id : ℕ)
      → 0 < length index
      → length index < 2 ^ 16
      → 32 ≤ length meta_buf
      → length file < 2 ^ 63
      → open_table from_utf8_lossy id file ≡ panics
  unfolding open_table footer_of
  open_table-file_of from_utf8_lossy id some_entry few long short =
      let (meta, e_meta) = read_metadata_long file footer short long (omega (arith, length-file)) in
      rw
        (
          read_magic short,
          from_be_bytes-to_be_bytes 4 sstable_magic (omega arith),
          read_version short,
          read_own_footer short,
          e_meta,
          read_own_index some_entry few short,
        )
        refl
