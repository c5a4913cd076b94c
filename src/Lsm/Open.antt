-- ===== src/Lsm/Open.antt =====
-- graphite-core/src/lsm.rs: the configuration, opening an engine, and its statistics. The log, the
-- state file of the replication and the tables in the order of the directory are their bytes.
pub mod Recovery
pub mod Durability
mod Examples
use graphite_tsdb.Prelude.{
  ℕ, ◌+◌, ◌-◌, Bool, true, Option, none, some, List, [], ◌∷◌, ◌==◌, if◌then◌else◌, length,
  get_elem?, set,
}
use graphite_tsdb.Types.{SymbolId, WalRecord}
use graphite_tsdb.Compression.Dictionary as Dictionary
use graphite_tsdb.Compression.Dictionary.{Symbol, get_symbol}
use graphite_tsdb.Wal as Wal
use graphite_tsdb.Wal.{Codec, open_wal}
use graphite_tsdb.SkipList as Memtable
use graphite_tsdb.SkipList.{SkipList, Ptr}
use graphite_tsdb.SsTable.{SsTable, Outcome}
use graphite_tsdb.SsTable.Read.{open_table}
use graphite_tsdb.Compaction as Compaction
use graphite_tsdb.Compaction.{Level, add_levels, add_table, level_sizes, total_sstables}
use graphite_tsdb.Replication.{NodeRole, primary, ReplicationState, open_tracker}
use graphite_tsdb.Lsm.{Lsm, LsmError, Call, returned, failed, panicked, wal, ss_table, recover}

pub record LsmConfig : Type 0 where
  pub cache_size_mb : ℕ
  pub memtable_flush_threshold : ℕ
  pub auto_compact : Bool
  pub compact_interval_ms : ℕ
  pub cold_tier_uri : Option (List ℕ)
  pub cold_tier_min_level : ℕ
  pub node_role : NodeRole

-- `LsmConfig::default`
abbrev pub default_config : LsmConfig
default_config = record {
  cache_size_mb = 64;
  memtable_flush_threshold = 10000;
  auto_compact = true;
  compact_interval_ms = 5000;
  cold_tier_uri = none;
  cold_tier_min_level = 2;
  node_role = primary;
}

-- The part of `load_sstables` that puts a table on its level, which is made if it is missing.
place_on : List Level → ℕ → SsTable → Option Level → Option (List Level)
place_on levels level table none = none
place_on levels level table (some l) = some (set levels level (add_table l table))

pub place : List Level → SsTable → Option (List Level)
unfolding place_on
place levels table =
    let level = table.meta.level in
    let enough = add_levels (level + 1 - length levels) levels in
    place_on enough level table (get_elem? enough level)

-- `open` with a node for each record of the log. The log cannot be read or the engine starts;
-- what fails after that leaves no engine, whatever state is named.
pub data Opened : Type 0 where
  opened : Call Unit → Opened
  unreadable : LsmError → Opened

-- The records with the node for each, from the `i`-th on.
unfoldable pub with_nodes :
    (ℕ → Ptr × List Bool) → ℕ → List WalRecord → List (WalRecord × Ptr × List Bool)
with_nodes nodes i [] = []
with_nodes nodes i (r ∷ records) = (r, (nodes i).0, (nodes i).1) ∷ with_nodes nodes (i + 1) records

module _ (from_utf8_lossy : List ℕ → Symbol) where
  -- The body of the loop of `load_sstables` behind the opening, with the rest of the loop.
  unfoldable pub load_opened : (Lsm → Call Unit) → Lsm → Outcome SsTable → Call Unit
  load_opened next l Outcome.panics = panicked
  load_opened next l (Outcome.err e) = failed l (ss_table e)
  load_opened next l (Outcome.ok table) = elim (place l.compaction.levels table) [
    | none ↦ panicked
    | some levels ↦ next (record l { compaction = record l.compaction { levels = levels } })
  ]

  unfoldable pub load_sstables : List (List ℕ) → Lsm → Call Unit
  unfolding load_opened
  load_sstables [] l = returned l tt
  load_sstables (file ∷ files) l =
      load_opened (λ l'. load_sstables files l') (record l { next_id = l.next_id + 1 })
        (open_table from_utf8_lossy l.next_id file)

  -- The engine before the replay of its log.
  unfoldable pub fresh : LsmConfig → Wal.Wal → Option ReplicationState → ℕ → Lsm
  fresh config log saved next_id = record {
    memtable = Memtable.new;
    log = log;
    compaction = Compaction.new Dictionary.new;
    symbol_dict = Dictionary.new;
    flush_threshold = config.memtable_flush_threshold;
    bloom_checks = 0;
    bloom_hits = 0;
    total_rows = 0;
    role = config.node_role;
    replication = open_tracker saved;
    next_id = next_id;
  }

  unfoldable pub open_recovered : List (List ℕ) → Lsm → Option SkipList → Call Unit
  unfolding load_sstables
  open_recovered files l none = panicked
  open_recovered files l (some memtable) = load_sstables files (record l { memtable = memtable })

  unfoldable pub open_logged :
      LsmConfig
      → Option ReplicationState
      → ℕ
      → List (List ℕ)
      → (ℕ → Ptr × List Bool)
      → Wal.Result Wal.Wal
      → Opened
  unfolding open_recovered fresh with_nodes
  open_logged config saved next_id files nodes (Wal.err e) = unreadable (wal e)
  open_logged config saved next_id files nodes (Wal.ok log) = opened (
      open_recovered files (fresh config log saved next_id)
        (recover Memtable.new (with_nodes nodes 0 log.replayed)))

  unfoldable pub open_engine :
      Codec
      → LsmConfig
      → List ℕ
      → Option ReplicationState
      → ℕ
      → List (List ℕ)
      → (ℕ → Ptr × List Bool)
      → Opened
  unfolding open_logged
  open_engine c config file saved next_id files nodes =
      open_logged config saved next_id files nodes (open_wal c file)

pub record DbStats (F : Type 0) : Type 0 where
  pub level_sizes : List ℕ
  pub bloom_filter_hit_rate : F
  pub cache_hit_rate : F
  pub write_amplification_factor : F
  pub total_rows : ℕ
  pub total_sstables : ℕ

-- The floating-point numbers are `F`, and `ratio` is the division of two counters.
module _ {F : Type 0} (zero_f one_f : F) (ratio : ℕ → ℕ → F) where
  pub write_amplification_factor : Compaction.CompactionManager → F
  write_amplification_factor m =
      if m.bytes_read == 0 then one_f else ratio m.bytes_written m.bytes_read

  pub stats : F → Lsm → DbStats F
  unfolding write_amplification_factor
  stats cache_hit_rate l = record {
    level_sizes = level_sizes l.compaction.levels;
    bloom_filter_hit_rate =
        if l.bloom_checks == 0 then zero_f else ratio l.bloom_hits l.bloom_checks;
    cache_hit_rate = cache_hit_rate;
    write_amplification_factor = write_amplification_factor l.compaction;
    total_rows = l.total_rows;
    total_sstables = total_sstables l.compaction.levels;
  }

pub needs_compaction : Lsm → Bool
needs_compaction l = Compaction.needs_compaction l.compaction

pub symbol_name : Lsm → SymbolId → Option Symbol
symbol_name l symbol_id = get_symbol l.symbol_dict symbol_id

pub node_role : Lsm → NodeRole
node_role l = l.role
