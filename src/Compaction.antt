-- ===== src/Compaction.antt =====
-- graphite-core/src/compaction.rs: the levels of tables and their compaction. The tables are their
-- files; the static counter that gives the tables their ids is passed on, and a table that is opened
-- has a new id, under which the block cache holds nothing.
pub mod Chunks
mod Examples
use graphite_tsdb.Prelude.{
  ℕ, zero, suc, ◌+◌, ◌-◌, ◌*◌, ◌%◌, ◌^◌, Bool, true, false, ◌||◌, Option, none, some, List, [], ◌∷◌,
  ◌++◌, ltb, leb, if◌then◌else◌, length, get_elem?, set, take, drop,
}
use graphite_tsdb.Prelude.Int.{pos, negsuc}
use graphite_tsdb.Types.{Tick, l0_max_tables, level_size_ratio}
use graphite_tsdb.Bloom.{FloatOps}
use graphite_tsdb.Compression.Dictionary.{Symbol, SymbolDictionary}
use graphite_tsdb.Compression.Rle.{Compressors}
use graphite_tsdb.Sorting.{merge}
use graphite_tsdb.SsTable.{SsTable, SsTableError, Outcome}
use graphite_tsdb.SsTable.Read.{open_table, scan}
use graphite_tsdb.SsTable.Write as Writer

pub record Level : Type 0 where
  pub level_num : ℕ
  pub tables : List SsTable

abbrev pub new_level : ℕ → Level
new_level level_num = record { level_num = level_num; tables = [] }

file_sizes : List SsTable → ℕ
file_sizes [] = 0
file_sizes (table ∷ tables) = (table.meta.file_size + file_sizes tables) % 2 ^ 64

pub total_size : Level → ℕ
unfolding file_sizes
total_size level = file_sizes level.tables

unfoldable pub add_table : Level → SsTable → Level
add_table level table = record level { tables = level.tables ++ (table ∷ []) }

pub record CompactionManager : Type 0 where
  pub levels : List Level
  pub symbol_dict : SymbolDictionary
  pub bytes_written : ℕ
  pub bytes_read : ℕ

abbrev pub new : SymbolDictionary → CompactionManager
new symbol_dict = record {
  levels = new_level 0 ∷ [];
  symbol_dict = symbol_dict;
  bytes_written = 0;
  bytes_read = 0;
}

abbrev block_size_target : ℕ
block_size_target = 4 * 1024 * 1024

-- Both operations wrap at 64 bits.
target_size : ℕ → ℕ
target_size i = level_size_ratio ^ i % 2 ^ 64 * block_size_target % 2 ^ 64

-- A level from the `i`-th on is too large.
deeper_levels : ℕ → List Level → Bool
unfolding total_size target_size
deeper_levels i [] = false
deeper_levels i (level ∷ levels) =
    let rest = deeper_levels (i + 1) levels in ltb (target_size i) (total_size level) || rest

pub needs_compaction : CompactionManager → Bool
unfolding deeper_levels
needs_compaction m = elim m.levels [
  | [] ↦ false
  | l0 ∷ levels ↦ leb l0_max_tables (length l0.tables) || deeper_levels 1 levels
]

-- How a call ends, with the manager and the counter that it leaves.
pub data Compacted : Type 0 where
  done : CompactionManager → ℕ → Compacted
  failed : CompactionManager → ℕ → SsTableError → Compacted
  panicked : Compacted

-- `while levels.len() <= next_level`, with fuel: as many levels as are missing.
unfoldable pub add_levels : ℕ → List Level → List Level
add_levels zero levels = levels
add_levels (suc n) levels = add_levels n (levels ++ (new_level (length levels) ∷ []))

-- The chunks of `size` ticks, with fuel. Each takes a tick at least, if `size` is not 0, so as many
-- rounds as there are ticks are enough.
unfoldable pub chunks : ℕ → ℕ → List Tick → List (List Tick)
chunks zero size ts = []
chunks (suc fuel) size [] = []
chunks (suc fuel) size (t ∷ ts) = take size (t ∷ ts) ∷ chunks fuel size (drop size (t ∷ ts))

chunk_size : ℕ
chunk_size = 10000

-- The ticks that were read, sorted, without duplicates and cut into chunks.
unfoldable pub merged_chunks : List Tick → List (List Tick)
unfolding chunks chunk_size
merged_chunks all_ticks = chunks (length (merge all_ticks)) chunk_size (merge all_ticks)

-- What reading the tables of a level gives, with the counter and `bytes_read`.
data Collected : Type 0 where
  ticks : List Tick → ℕ → ℕ → Collected
  unreadable : ℕ → ℕ → SsTableError → Collected
  broken : Collected

module _ (ops : FloatOps) (c : Compressors) (sub add : ℕ → ℕ → ℕ)
    (from_utf8_lossy : List ℕ → Symbol) where
  -- The ticks of all tables, in the order of the tables, each opened twice.
  collect : List SsTable → ℕ → ℕ → List Tick → Collected
  collect [] id bytes_read all_ticks = ticks all_ticks id bytes_read
  collect (table ∷ tables) id bytes_read all_ticks =
      elim (open_table from_utf8_lossy id table.file) [
        | Outcome.panics ↦ broken
        | Outcome.err e ↦ unreadable (id + 1) bytes_read e
        | Outcome.ok first ↦ elim (open_table from_utf8_lossy (id + 1) table.file) [
          | Outcome.panics ↦ broken
          | Outcome.err e ↦ unreadable (id + 2) (bytes_read + first.meta.file_size) e
          | Outcome.ok t ↦
              elim (scan c sub add t none none (negsuc (2 ^ 63 - 1)) (pos (2 ^ 63 - 1))) [
                | Outcome.panics ↦ broken
                | Outcome.err e ↦ broken
                | Outcome.ok found ↦
                    collect tables (id + 2) (bytes_read + first.meta.file_size) (all_ticks ++ found)
              ]
        ]
      ]

  -- The loop that writes the chunks to the level `next_level`.
  write_chunks : ℕ → List (List Tick) → CompactionManager → ℕ → Compacted
  write_chunks next_level [] m id = done m id
  write_chunks next_level (chunk ∷ rest) m id =
      elim (Writer.write ops c sub add id chunk next_level m.symbol_dict) [
        | none ↦ panicked
        | some table ↦ elim (get_elem? m.levels next_level) [
          | none ↦ panicked
          | some level ↦
              write_chunks next_level rest
                (record m {
                  bytes_written = m.bytes_written + table.meta.file_size;
                  levels = set m.levels next_level (add_table level table);
                })
                (id + 1)
        ]
      ]

  -- What `compact_level` does with the ticks that were read.
  write_level : ℕ → CompactionManager → Level → Collected → Compacted
  unfolding write_chunks add_levels add_table merged_chunks
  write_level level_idx m level broken = panicked
  write_level level_idx m level (unreadable id bytes_read e) =
      failed (record m { bytes_read = bytes_read }) id e
  write_level level_idx m level (ticks all_ticks id bytes_read) =
      let cleared = set m.levels level_idx (record level { tables = [] }) in
      let levels = add_levels (level_idx + 2 - length cleared) cleared in
      write_chunks (level_idx + 1) (merged_chunks all_ticks)
        (record m { levels = levels; bytes_read = bytes_read }) id

  compact_level : ℕ → CompactionManager → ℕ → Compacted
  unfolding collect write_level
  compact_level level_idx m id = elim (get_elem? m.levels level_idx) [
    | none ↦ panicked
    | some level ↦ elim level.tables [
      | [] ↦ done m id
      | table ∷ tables ↦ write_level level_idx m level (collect (table ∷ tables) id m.bytes_read [])
    ]
  ]

  -- `for i in 1..self.levels.len()`, for `n` levels from the `i`-th on.
  compact_deeper : ℕ → ℕ → CompactionManager → ℕ → Compacted
  unfolding compact_level total_size target_size
  compact_deeper zero i m id = done m id
  compact_deeper (suc n) i m id = elim (get_elem? m.levels i) [
    | none ↦ panicked
    | some level ↦
        elim (if ltb (target_size i) (total_size level) then compact_level i m id else done m id) [
          | done m' id' ↦ compact_deeper n (i + 1) m' id'
          | failed m' id' e ↦ failed m' id' e
          | panicked ↦ panicked
        ]
  ]

  -- The part of `compact` behind the first level.
  compact_rest : Compacted → Compacted
  unfolding compact_deeper
  compact_rest (done m id) = compact_deeper (length m.levels - 1) 1 m id
  compact_rest (failed m id e) = failed m id e
  compact_rest panicked = panicked

  pub compact : CompactionManager → ℕ → Compacted
  unfolding compact_rest compact_level needs_compaction
  compact m id = elim (get_elem? m.levels 0) [
    | none ↦ if needs_compaction m then panicked else done m id
    | some l0 ↦
        let first =
          if leb l0_max_tables (length l0.tables) then compact_level 0 m id else done m id in
        if needs_compaction m then compact_rest first else done m id
  ]

pub level_sizes : List Level → List ℕ
unfolding total_size
level_sizes [] = []
level_sizes (level ∷ levels) = total_size level ∷ level_sizes levels

pub total_sstables : List Level → ℕ
total_sstables [] = 0
total_sstables (level ∷ levels) = length level.tables + total_sstables levels
