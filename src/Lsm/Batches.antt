-- ===== src/Lsm/Batches.antt =====
-- graphite-core/src/batch.rs and the bulk inserts of graphite-core/src/lsm.rs.
pub mod Single
use graphite_tsdb.Prelude.{
  ℕ, zero, suc, ◌+◌, Bool, Option, none, some, List, [], ◌∷◌, leb, ◌==◌, if◌then◌else◌, length,
  get_elem?,
}
use graphite_tsdb.Prelude.Options.{◌>>=◌}
use graphite_tsdb.Types.{SymbolId, Tick, TimestampNs, WalRecord}
use graphite_tsdb.Compression.Dictionary.{Symbol, SymbolDictionary, get_or_insert}
use graphite_tsdb.Bloom.{FloatOps}
use graphite_tsdb.Compression.Rle.{Compressors}
use graphite_tsdb.Wal as Wal
use graphite_tsdb.Wal.{Codec}
use graphite_tsdb.SkipList as Memtable
use graphite_tsdb.SkipList.{SkipList, Ptr}
use graphite_tsdb.Lsm.{Lsm, Call, returned, failed, panicked, wal, locked, flush_memtable}

pub record SymbolTick : Type 0 where
  pub symbol : Symbol
  pub timestamp : TimestampNs
  pub open_price : ℕ
  pub high : ℕ
  pub low : ℕ
  pub close : ℕ
  pub volume : ℕ

pub to_tick : SymbolTick → SymbolId → Tick
to_tick t symbol_id = record {
  symbol_id = symbol_id;
  timestamp = t.timestamp;
  open_price = t.open_price;
  high = t.high;
  low = t.low;
  close = t.close;
  volume = t.volume;
}

pub record TickBatch : Type 0 where
  pub timestamps : List TimestampNs
  pub opens : List ℕ
  pub highs : List ℕ
  pub lows : List ℕ
  pub closes : List ℕ
  pub volumes : List ℕ

pub len : TickBatch → ℕ
len batch = length batch.timestamps

pub is_empty : TickBatch → Bool
is_empty batch = length batch.timestamps == 0

-- An index out of bounds is `none`.
pub tick_at : TickBatch → ℕ → SymbolId → Option Tick
tick_at batch i symbol_id = do
  timestamp ← get_elem? batch.timestamps i
  open_price ← get_elem? batch.opens i
  high ← get_elem? batch.highs i
  low ← get_elem? batch.lows i
  close ← get_elem? batch.closes i
  volume ← get_elem? batch.volumes i
  some (record {
    symbol_id = symbol_id;
    timestamp = timestamp;
    open_price = open_price;
    high = high;
    low = low;
    close = close;
    volume = volume;
  })

-- The address and the draws for the node of the `i`-th tick.
abbrev pub Nodes : Type 0
Nodes = ℕ → Ptr × List Bool

-- `n` rounds of the loop of `insert_batch`: the memtable and the records for the log.
batch_loop : TickBatch → Nodes → SymbolId → ℕ → ℕ → SkipList → Option (SkipList × List WalRecord)
unfolding tick_at
batch_loop batch nodes symbol_id zero i memtable = some (memtable, [])
batch_loop batch nodes symbol_id (suc n) i memtable = do
  tick ← tick_at batch i symbol_id
  memtable1 ← Memtable.insert memtable (nodes i).0 (nodes i).1 tick
  (memtable2, records) ← batch_loop batch nodes symbol_id n (i + 1) memtable1
  some (memtable2, WalRecord.insert tick ∷ records)

-- The loop of `insert_multi` over the ticks from the `i`-th one on, with the dictionary.
multi_loop :
    Nodes
    → ℕ
    → List SymbolTick
    → SymbolDictionary
    → SkipList
    → Option (SymbolDictionary × SkipList × List WalRecord)
unfolding to_tick
multi_loop nodes i [] dict memtable = some (dict, memtable, [])
multi_loop nodes i (tick ∷ ticks) dict memtable = do
  let named = get_or_insert dict tick.symbol
  let stored = to_tick tick named.1
  memtable1 ← Memtable.insert memtable (nodes i).0 (nodes i).1 stored
  (dict', memtable2, records) ← multi_loop nodes (i + 1) ticks named.0 memtable1
  some (dict', memtable2, WalRecord.insert stored ∷ records)

module _ (ops : FloatOps) (k : Compressors) (sub add : ℕ → ℕ → ℕ) (c : Codec) where
  -- The end of both bulk inserts, on what the log gives. What is in the memtable stays there when the
  -- log fails, and the lock of the dictionary is still held.
  batch_appended : Lsm → Wal.Wal × Wal.Result ℕ → Call Unit
  batch_appended l (log, Wal.err e) = failed (record l { log = log }) (wal e)
  batch_appended l (log, Wal.ok sequence) =
      let l' = record l { log = log } in
      if leb l.flush_threshold l.memtable.len
      then flush_memtable ops k sub add locked l'
      else returned l' tt

  batch_logged : Lsm → Option (SkipList × List WalRecord) → Call Unit
  unfolding batch_appended
  batch_logged l none = panicked
  batch_logged l (some (memtable, records)) =
      batch_appended (record l { memtable = memtable; total_rows = l.total_rows + length records })
        (Wal.append_batch c l.log records)

  pub insert_batch : Lsm → Nodes → Symbol → TickBatch → Call Unit
  unfolding batch_logged batch_loop is_empty len
  insert_batch l nodes symbol batch =
      let named = get_or_insert l.symbol_dict symbol in
      if is_empty batch
      then returned l tt
      else batch_logged (record l { symbol_dict = named.0 })
          (batch_loop batch nodes named.1 (len batch) 0 l.memtable)

  multi_logged : Lsm → Option (SymbolDictionary × SkipList × List WalRecord) → Call Unit
  unfolding batch_logged
  multi_logged l none = panicked
  multi_logged l (some (dict, memtable, records)) =
      batch_logged (record l { symbol_dict = dict }) (some (memtable, records))

  pub insert_multi : Lsm → Nodes → List SymbolTick → Call Unit
  unfolding multi_logged multi_loop
  insert_multi l nodes [] = returned l tt
  insert_multi l nodes (tick ∷ ticks) =
      multi_logged l (multi_loop nodes 0 (tick ∷ ticks) l.symbol_dict l.memtable)
