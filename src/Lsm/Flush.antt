-- ===== src/Lsm/Flush.antt =====
-- graphite-core/src/lsm.rs: the compaction of the engine, and what a flush leaves. A table that is
-- written takes the next id.
pub mod Lookups
mod Examples
use graphite_tsdb.Prelude.{ℕ, ◌+◌, Option, none, some, List, [], ◌∷◌}
use graphite_tsdb.Types.{Tick}
use graphite_tsdb.Bloom.{FloatOps}
use graphite_tsdb.Compression.Dictionary.{Symbol}
use graphite_tsdb.Compression.Rle.{Compressors}
use graphite_tsdb.Wal.{truncate}
use graphite_tsdb.SkipList.{SkipList, drain}
use graphite_tsdb.SsTable.{SsTable}
use graphite_tsdb.SsTable.Write as Writer
use graphite_tsdb.Compaction as Compaction
use graphite_tsdb.Compaction.{add_table}
use graphite_tsdb.Lsm.{Lsm, LsmError, Call, returned, failed, panicked}

-- How `compact` ends, from how the manager does.
compacted : Lsm → Compaction.Compacted → Call Unit
compacted l (Compaction.done m id) = returned (record l { compaction = m; next_id = id }) tt
compacted l (Compaction.failed m id e) =
    failed (record l { compaction = m; next_id = id }) (LsmError.compaction e)
compacted l Compaction.panicked = panicked

module _ (ops : FloatOps) (c : Compressors) (sub add : ℕ → ℕ → ℕ) where
  pub compact : (List ℕ → Symbol) → Lsm → Call Unit
  unfolding compacted
  compact from_utf8_lossy l =
      compacted l (Compaction.compact ops c sub add from_utf8_lossy l.compaction l.next_id)
