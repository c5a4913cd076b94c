-- ===== src/Lsm/Batches/Single.antt =====
-- A bulk insert of one tick against the insert of the tick.
use graphite_tsdb.Prelude.{ℕ, ◌+◌, ◌≡◌, refl, sym, ap, ◌∙◌, none, some, Option, List, [], ◌∷◌}
use graphite_tsdb.Prelude.Options.{◌>>=◌}
use graphite_tsdb.Types.{Tick, WalRecord}
use graphite_tsdb.Compression.Dictionary.{Symbol, get_or_insert}
use graphite_tsdb.Bloom.{FloatOps}
use graphite_tsdb.Compression.Rle.{Compressors}
use graphite_tsdb.Wal.{Codec, write_record}
use graphite_tsdb.Wal.Recovery.{append_batch_storable}
use graphite_tsdb.SkipList as Memtable
use graphite_tsdb.SkipList.{SkipList, Ptr}
use graphite_tsdb.Replication.{primary}
use graphite_tsdb.Lsm.{Lsm, stored, insert, insert_done}
use graphite_tsdb.Lsm.Inserts.{insert-logged}
use graphite_tsdb.Lsm.Batches.{
  TickBatch, Nodes, len, is_empty, tick_at, batch_loop, batch_appended, batch_logged, insert_batch,
}

abbrev pub single : Tick → TickBatch
single tick = record {
  timestamps = tick.timestamp ∷ [];
  opens = tick.open_price ∷ [];
  highs = tick.high ∷ [];
  lows = tick.low ∷ [];
  closes = tick.close ∷ [];
  volumes = tick.volume ∷ [];
}

module _ (ops : FloatOps) (k : Compressors) (sub add : ℕ → ℕ → ℕ) (c : Codec) (l : Lsm)
    (nodes : Nodes) (symbol : Symbol) (tick : Tick) (payload : List ℕ) where
  abbrev kept : Tick
  kept = stored l.symbol_dict symbol tick

  abbrev named : Lsm
  named = record l { symbol_dict = (get_or_insert l.symbol_dict symbol).0 }

  same_end :
      (o : Option SkipList)
      → c.to_vec (WalRecord.insert kept) ≡ some payload
      → batch_logged ops k sub add c named (o >>= λ m. some (m, WalRecord.insert kept ∷ []))
        ≡ insert_done ops k sub add c (record named { log = write_record c l.log payload }) o
  unfolding batch_logged batch_appended insert_done
  same_end none storable = refl
  same_end (some m) storable =
      ap
        (batch_appended ops k sub add c
          (record named { memtable = m; total_rows = l.total_rows + 1 }))
        (append_batch_storable c l.log (WalRecord.insert kept) payload storable)

  -- On a primary, a batch of one tick that can be stored in the log ends as the insert of the tick
  -- does, with the same state.
  pub insert_batch-single :
      l.role ≡ primary
      → c.to_vec (WalRecord.insert kept) ≡ some payload
      → insert_batch ops k sub add c l nodes symbol (single tick)
        ≡ insert ops k sub add c l (nodes 0).0 (nodes 0).1 symbol tick
  unfolding insert_batch batch_loop tick_at len is_empty
  insert_batch-single is_primary storable =
      same_end (Memtable.insert l.memtable (nodes 0).0 (nodes 0).1 kept) storable
      ∙ sym (
          insert-logged ops k sub add c l [] (nodes 0).0 (nodes 0).1 symbol tick payload is_primary
            storable)
