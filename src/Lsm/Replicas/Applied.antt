-- ===== src/Lsm/Replicas/Applied.antt =====
-- A tick that a replica applies.
use graphite_tsdb.Prelude.{
  ℕ, suc, ◌+◌, ◌^◌, ◌<◌, ◌≡◌, ◌≢◌, refl, ap, ◌∙◌, arith, true, false, none, some, List, [], ◌∷◌,
  length, leb, max,
}
use graphite_tsdb.Types.{Tick, WalRecord}
use graphite_tsdb.Bloom.{FloatOps}
use graphite_tsdb.Compression.Dictionary.{Symbol, SymbolDictionary, get_or_insert, get_symbol}
use graphite_tsdb.Compression.Dictionary.Identifiers.{IsDictionary}
use graphite_tsdb.Compression.Rle.{Compressors}
use graphite_tsdb.Wal.{Codec, write_record}
use graphite_tsdb.Wal.Recovery.{append_batch_storable}
use graphite_tsdb.SkipList.Spec.{length-put_le}
use graphite_tsdb.SkipList.Contents.{Contents-Ordered}
use graphite_tsdb.SkipList.Refinement.{IsSkipList}
use graphite_tsdb.SkipList.Insert.{insert_lem}
use graphite_tsdb.Replication.{replica, last_primary_sequence, advance}
use graphite_tsdb.Replication.Progress.{last_primary_sequence-advance}
use graphite_tsdb.Lsm.{Lsm, returned, stored, is_replica, get}
use graphite_tsdb.Lsm.Inserts.{get-stored}
use graphite_tsdb.Lsm.Batches.{Nodes}
use graphite_tsdb.Lsm.Replicas.{
  entries_of, symbol_of, max_sequence, resolve_symbol, resolve_entries, insert_ticks, advanced,
  apply_inserted, apply_appended, apply_replication_batch,
}

module _ (ops : FloatOps) (k : Compressors) (sub add : ℕ → ℕ → ℕ)
    (from_utf8_lossy : List ℕ → Symbol) (c : Codec) where
  -- A replica below the flush threshold applies the entry that a primary made of a tick in its log,
  -- under whose dictionary the tick has a symbol. From then on a look-up under the symbol and the
  -- timestamp finds the tick, with the identifier that the symbol has at the replica, and the progress
  -- of the replica is the greater of what it was and of the sequence number. The memtable and the
  -- dictionary of the replica are valid, there is room for another symbol, the new node has a free
  -- address, and the tick can be stored in the log.
  pub get-apply_replication_batch :
      (l : Lsm) (ts : List Tick) (nodes : Nodes) (dict : SymbolDictionary) (sequence : ℕ)
      (tick : Tick) (symbol : Symbol) (payload : List ℕ)
      → IsSkipList l.memtable ts
      → IsDictionary l.symbol_dict
      → length l.symbol_dict.id_to_symbol < 2 ^ 16
      → l.memtable.heap (nodes 0).0 ≡ none
      → (nodes 0).0 ≢ 0
      → l.role ≡ replica
      → get_symbol dict tick.symbol_id ≡ some symbol
      → c.to_vec (WalRecord.insert (stored l.symbol_dict symbol tick)) ≡ some payload
      → suc (length ts) < l.flush_threshold
      → (l' : Lsm) × ((apply_replication_batch ops k sub add c l nodes
              (entries_of dict ((sequence, WalRecord.insert tick) ∷ []))
            ≡ returned l' 1)
          × ((get k sub add from_utf8_lossy l' symbol tick.timestamp
                ≡ returned l' (some (stored l.symbol_dict symbol tick)))
              × (last_primary_sequence l'.replication
                  ≡ max (last_primary_sequence l.replication) sequence)))
  unfolding apply_replication_batch apply_appended apply_inserted insert_ticks advanced entries_of
      symbol_of resolve_entries resolve_symbol max_sequence
  get-apply_replication_batch l ts nodes dict sequence tick symbol payload inv valid room free
        usable is_the_replica named storable below =
      let kept = stored l.symbol_dict symbol tick in
      let (sl, (e, inv')) = insert_lem l.memtable ts inv kept (nodes 0).0 (nodes 0).1 free usable in
      let ordered =
        Contents-Ordered l.memtable.heap (inv.cells 0) ts inv.contents (inv.levels.sorted 0) in
      let small : leb l.flush_threshold sl.len ≡ false =
        ground (arith, inv'.counted, length-put_le kept ts) in
      let l1 = record l { symbol_dict = (get_or_insert l.symbol_dict symbol).0 } in
      let l2 = record l1 {
        log = write_record c l.log payload;
        memtable = sl;
        total_rows = l.total_rows + 1;
      } in
      let done = record l2 { replication = advance l.replication (max sequence 0) } in
      let inserted : insert_ticks nodes 0 (kept ∷ []) l.memtable ≡ some sl =
        rw (e, insert_ticks) refl in
      let is : is_replica l.role ≡ true = ap is_replica is_the_replica in
      (
        done,
        (
          rw (named, is)
              (ap (apply_appended ops k sub add c l1 nodes (max sequence 0) 1 (kept ∷ []))
                  (append_batch_storable c l.log (WalRecord.insert kept) payload storable)
                ∙ ap
                    (apply_inserted ops k sub add c
                      (record l1 { log = write_record c l.log payload }) (max sequence 0) 1 1)
                    inserted
                ∙ rw small refl),
          (
            get-stored k sub add from_utf8_lossy l.symbol_dict symbol tick ts done inv' ordered
                valid room refl,
            last_primary_sequence-advance l.replication (max sequence 0) ∙ omega arith,
          ),
        ),
      )
