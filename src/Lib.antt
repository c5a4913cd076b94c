-- ===== src/Lib.antt =====
-- Graphite: an embeddable time-series database for tick data, as it is written in Rust under
-- graphite-core/ (the storage engine) and graphite/ (the query language and the API).
--
-- The program's parts. A tick is inserted through the LSM engine (graphite-core/src/lsm.rs), which
-- gives its symbol an identifier, appends it to the write-ahead log and puts it in a skip list in
-- memory. A full memtable is flushed to an SSTable, whose columns are compressed one by one and
-- whose keys fill a bloom filter; compaction merges SSTables. A query in the language of
-- graphite/src/gql is lexed, parsed and executed: the executor scans the engine, filters the
-- ticks by price, groups them into bars and cuts the rows to the limit. A replica reads the log
-- of its primary.
--
-- The files.
-- - Prelude and its children: names, Boolean tests, lists, slices, options, integers, bits, bytes
--   in big-endian order and texts, which the other modules share.
-- - Types: graphite-core/src/types.rs. A key is the record `Key`, with the order and the encoding
--   in bytes of the source.
-- - Bloom: graphite-core/src/bloom.rs, and the loop of graphite-core/src/sstable.rs that fills a
--   filter. `insert`, `contains`, `to_bytes` and `from_bytes` are the functions of these names; an
--   index out of bounds and a remainder by zero are `none`.
-- - Compression.Dictionary, Compression.Rle, Compression.Gorilla, Compression.Delta: dictionary.rs,
--   rle_lz4.rs, gorilla.rs and delta.rs of graphite-core/src/compression. A column is a list of
--   numbers, and its encoding a list of bytes.
-- - SkipList and its children: graphite-core/src/skip_list.rs. The nodes stand in a heap from addresses
--   to nodes, the null pointer is 0, and the array of forward pointers of a node is a function of
--   the level; `insert`, `get`, `iter`, `drain` and `clear` are the operations. Reading a freed or
--   null node, or an array out of bounds, is `none`. Spec has the sorted sequence that a skip list
--   stands for, Refinement the invariant.
-- - SsTable, SsTable.Write, SsTable.Read: graphite-core/src/sstable.rs. `write` gives the bytes of a
--   file, `open_table` is `open`, and `scan` takes what the block cache has; `Outcome` tells an error
--   from a panic. The other modules below SsTable are about these three.
-- - Sorting: the standard library's `sort_by` and `dedup_by`, as compaction.rs, lsm.rs and
--   scan_iter.rs of graphite-core/src call them.
-- - Compaction: graphite-core/src/compaction.rs. `CompactionManager` has the levels with their tables;
--   `needs_compaction`, `compact` and `compact_level` are its operations.
-- - Lsm: graphite-core/src/lsm.rs. `Lsm` is the state of the engine with its memtable, log, tables and
--   dictionary; `insert`, `insert_tick`, `get`, `flush_memtable` and `recover` (`recover_from_wal`) are its operations,
--   and `Call` tells a return, an error, a panic and a deadlock apart. Lsm.Batches:
--   graphite-core/src/batch.rs and the bulk inserts. Lsm.Flush: `compact`.
--   Lsm.Scans: `scan`. Lsm.Stream: graphite-core/src/scan_iter.rs and `scan_stream`. Lsm.Replicas:
--   `read_wal_for_replication` and `apply_replication_batch`. Lsm.Open: `open_engine` (`open`),
--   `load_sstables` and `stats`.
-- - Wal: graphite-core/src/wal.rs. The state `Wal` is the struct with the bytes of the file in the
--   place of its handle; `append`, `append_batch`, `replay`, `open_wal`, `read_for_replication` and
--   `truncate` are its operations.
-- - Gql, Gql.Token, Gql.Lexer, Gql.Parser, Gql.Entry: ast.rs and parser.rs of graphite/src/gql. The
--   states of the lexer and of the parser are the position and what is left from there on, and
--   they are passed explicitly; an error is a value of `Parsed`.
-- - Executor.Filter, Executor.Aggregate, Executor.Execute: graphite/src/gql/executor.rs. The
--   executor calls the scan of an engine, whose calls end in any type (`execute_in`); `execute` is
--   for one that gives ticks or an error (`Engine`), and Db has the one for Lsm.
-- - Replication: graphite-core/src/replication.rs. `ReplicationTracker` is the struct with the contents
--   of its state file; `open_tracker` is its `open`.
-- - Db: graphite/src/db.rs. `query` is parsed by Gql, scanned by Lsm and executed by Executor;
--   `insert_each` is `insert_batch`.
--
-- Numbers. Machine integers are natural numbers or integers whose wrap-around is written out, as in
-- a release build; counters that only grow by one for each record, and offsets, do not wrap here.
-- A floating-point number is its bit pattern.
--
-- Parameters. `serde_json`, CRC32, LZ4, ZSTD and the reading of UTF-8 stand for the packages that
-- the program calls; floating-point arithmetic, the reading of numbers, the tables of the
-- characters that are not ASCII, and whether the processor has AVX2, are parameters too.
--
-- Fuel. The loops that read the log have the length of the file as fuel, since a record takes 22
-- bytes; the loop of the lexer has one more than the number of characters, since a token takes one.
-- The loops of the skip list have one more than its number of nodes, since they visit a node once,
-- and the loop that writes whole bytes of packed timestamps has the number of bits in its buffer,
-- since it takes eight. The loop of a streaming scan has one more than the number of the ticks that
-- are left, since a round takes one, and the loop that cuts ticks into chunks has their number.
-- The other loops are structural.
--
-- Not modelled: failures of the file system (writes and syncs succeed, and the files that a
-- compaction merged are dropped with their tables), the texts of errors and of explained plans, and
-- concurrency; the block cache, which is not translated yet, and the cold tier, which is behind a
-- feature flag and moves files only; and the server, the command line, the Python bindings and the
-- benchmarks, which are glue around the library. The engine is modelled on one thread, whose locks
-- can only block itself: `Lock` says whether it holds that of the dictionary when it flushes.
pub mod Prelude
pub mod Types
pub mod Bloom
pub mod Compression
pub mod Wal
pub mod Gql
pub mod Executor
pub mod Replication
pub mod SkipList
pub mod SsTable
pub mod Lsm
pub mod Sorting
pub mod Compaction
pub mod Db
