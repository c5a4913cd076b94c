-- ===== src/Lsm/Replicas/Batches.antt =====
-- A batch of entries that a replica applies.
use graphite_tsdb.Prelude.{
  ℕ, ◌+◌, ◌^◌, ◌≤◌, ◌<◌, ◌≡◌, refl, sym, ap, ◌∙◌, arith, tests, true, false, Option, none, some,
  List, [], ◌∷◌, ◌++◌, map, length, leb, max, All,
}
use graphite_tsdb.Types.{Tick, WalRecord}
use graphite_tsdb.Bloom.{FloatOps}
use graphite_tsdb.Compression.Dictionary.Identifiers.{IsDictionary}
use graphite_tsdb.Compression.Rle.{Compressors}
use graphite_tsdb.Wal.{Codec}
use graphite_tsdb.Wal.Frames.{IsStorable, log_bytes}
use graphite_tsdb.Wal.Recovery.{written, append_batch-written}
use graphite_tsdb.SkipList.{SkipList}
use graphite_tsdb.SkipList.Spec.{put, length-put_le}
use graphite_tsdb.SkipList.Refinement.{IsSkipList}
use graphite_tsdb.SkipList.Insert.{insert_lem}
use graphite_tsdb.Replication.{ReplicationEntry, replica, last_applied, advance}
use graphite_tsdb.Replication.Progress.{greatest, last_applied-advance}
use graphite_tsdb.Lsm.{Lsm, returned, is_replica}
use graphite_tsdb.Lsm.Batches.{Nodes}
use graphite_tsdb.Lsm.Open.Recovery.{FreshNodes, next_FreshNodes, replay_all}
use graphite_tsdb.Lsm.Replicas.Named.{IsResolved, resolve_entries_lem}
use graphite_tsdb.Lsm.Replicas.{
  max_sequence, resolve_entries, insert_ticks, advanced, apply_inserted, apply_appended,
  apply_replication_batch,
}

length-replay_all :
    (ticks ts : List Tick)
    → length (replay_all (map WalRecord.insert ticks) ts) ≤ length ts + length ticks
unfolding replay_all
length-replay_all [] ts = omega arith
length-replay_all (t ∷ ticks) ts =
    omega (arith, length-put_le t ts, length-replay_all ticks (put t ts))

-- Inserting any ticks into a valid memtable succeeds.
insert_ticks_lem :
    (nodes : Nodes) (i : ℕ) (ticks : List Tick) (sl : SkipList) (ts : List Tick)
    → IsSkipList sl ts
    → FreshNodes nodes i sl.heap
    → (sl' : SkipList) × ((insert_ticks nodes i ticks sl ≡ some sl')
        × IsSkipList sl' (replay_all (map WalRecord.insert ticks) ts))
unfolding insert_ticks replay_all
insert_ticks_lem nodes i [] sl ts inv f = (sl, (refl, inv))
insert_ticks_lem nodes i (tick ∷ ticks) sl ts inv f =
    let (sl1, (e, inv1)) =
      insert_lem sl ts inv tick (nodes i).0 (nodes i).1 (f.free i (omega arith)) (f.usable i) in
    let (sl', (more, inv')) =
      insert_ticks_lem nodes (i + 1) ticks sl1 (put tick ts) inv1
        (next_FreshNodes nodes i sl sl1 tick f e) in
    (sl', (rw (e, insert_ticks) more, inv'))

-- The greatest of the numbers of some entries, one by one and at once.
greatest-max_sequence :
    (n : ℕ) (es : List ReplicationEntry)
    → greatest (some n) (map (λ (e : ReplicationEntry). e.sequence) es)
      ≡ some (max n (max_sequence es))
unfolding greatest max_sequence
greatest-max_sequence n [] = let top : n ≡ max n 0 = omega tests in ap some top
greatest-max_sequence n (e ∷ es) =
    let top : max (max n e.sequence) (max_sequence es) ≡ max n (max e.sequence (max_sequence es)) =
      omega tests in
    greatest-max_sequence (max n e.sequence) es ∙ ap some top

greatest-batch :
    (n : Option ℕ) (e : ReplicationEntry) (es : List ReplicationEntry)
    → greatest n (max_sequence (e ∷ es) ∷ [])
      ≡ greatest n (map (λ (x : ReplicationEntry). x.sequence) (e ∷ es))
unfolding greatest max_sequence
greatest-batch none e es = sym (greatest-max_sequence e.sequence es)
greatest-batch (some n) e es =
    let top : max (max n e.sequence) (max_sequence es) ≡ max n (max e.sequence (max_sequence es)) =
      omega tests in
    sym (greatest-max_sequence (max n e.sequence) es ∙ ap some top)

module _ (ops : FloatOps) (k : Compressors) (sub add : ℕ → ℕ → ℕ) (c : Codec) where
  -- A replica applies a batch with an entry at least, which does not fill its memtable. The call
  -- returns the number of the entries. The ticks are those of the inserts in order, each with the
  -- identifier that the dictionary then has for the symbol of its entry, or with its own if the entry
  -- has no symbol. They are appended to the log as records, and the memtable is valid and is what it
  -- was with these records replayed in order. The last sequence number that was applied is the
  -- greatest of those of the entries and of the one before, if there was one. The dictionary is well
  -- formed and has room for a symbol of each entry, the ticks can be stored in the log, and the nodes
  -- have free addresses of their own.
  pub apply_replication_batch_lem :
      (l : Lsm) (ts : List Tick) (nodes : Nodes) (entry : ReplicationEntry)
      (entries : List ReplicationEntry)
      (h : All
        (IsStorable c)
        (map WalRecord.insert (resolve_entries l.symbol_dict (entry ∷ entries)).1))
      → IsSkipList l.memtable ts
      → IsDictionary l.symbol_dict
      → length l.symbol_dict.id_to_symbol + length (entry ∷ entries) ≤ 2 ^ 16
      → FreshNodes nodes 0 l.memtable.heap
      → l.role ≡ replica
      → length ts + length (resolve_entries l.symbol_dict (entry ∷ entries)).1 < l.flush_threshold
      → (l' : Lsm) × ((ticks : List Tick) × ((kept : All
              (IsStorable c)
              (map WalRecord.insert ticks))
            × ((apply_replication_batch ops k sub add c l nodes (entry ∷ entries)
                  ≡ returned l' (length (entry ∷ entries)))
                × (IsResolved l'.symbol_dict (entry ∷ entries) ticks
                    × ((l'.log.file
                          ≡ l.log.file
                            ++ log_bytes c l.log.sequence (map WalRecord.insert ticks) kept)
                        × (IsSkipList l'.memtable (replay_all (map WalRecord.insert ticks) ts)
                            × (last_applied l'.replication
                                ≡ greatest (last_applied l.replication) (
                                    map
                                      (λ (e : ReplicationEntry). e.sequence)
                                      (entry ∷ entries)))))))))
  unfolding apply_replication_batch apply_appended apply_inserted advanced
  apply_replication_batch_lem l ts nodes entry entries h inv v room f is_the_replica below =
      let named = resolve_entries l.symbol_dict (entry ∷ entries) in
      let ticks = named.1 in
      let records = map WalRecord.insert ticks in
      let max_seq = max_sequence (entry ∷ entries) in
      let count = length (entry ∷ entries) in
      let (sl, (e, inv')) = insert_ticks_lem nodes 0 ticks l.memtable ts inv f in
      let small : leb l.flush_threshold sl.len ≡ false =
        ground (arith, inv'.counted, length-replay_all ticks ts) in
      let l1 = record l { symbol_dict = named.0 } in
      let l2 = record l1 { log = written c l.log records h } in
      let l3 = record l2 { memtable = sl; total_rows = l.total_rows + length ticks } in
      let done = record l3 { replication = advance l.replication max_seq } in
      let is : is_replica l.role ≡ true = ap is_replica is_the_replica in
      let resolved = resolve_entries_lem l.symbol_dict (entry ∷ entries) v room in
      (
        done,
        (
          ticks,
          (
            h,
            (
              rw is (
                  ap (apply_appended ops k sub add c l1 nodes max_seq count ticks)
                    (append_batch-written c l.log records h)
                  ∙ ap (apply_inserted ops k sub add c l2 max_seq count (length ticks)) e
                  ∙ rw small refl),
              (
                resolved.resolved,
                (
                  refl,
                  (
                    inv',
                    last_applied-advance l.replication max_seq
                        ∙ greatest-batch (last_applied l.replication) entry entries,
                  ),
                ),
              ),
            ),
          ),
        ),
      )
