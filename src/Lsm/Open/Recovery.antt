-- ===== src/Lsm/Open/Recovery.antt =====
-- Opening an engine on the log that it left.
use graphite_tsdb.Prelude.{
  ℕ, ◌+◌, ◌^◌, ◌≤◌, ◌≡◌, ◌≢◌, refl, ap, ◌∙◌, arith, none, some, Option, List, [], ◌∷◌, length, All,
}
use graphite_tsdb.Types.{Tick, TimestampNs, WalRecord}
use graphite_tsdb.Compression.Dictionary.{Symbol, get_id, lookup}
use graphite_tsdb.Compression.Rle.{Compressors}
use graphite_tsdb.Wal.{Codec}
use graphite_tsdb.Wal.Frames.{IsStorable, HasCrc32, log_bytes}
use graphite_tsdb.Wal.Recovery.{open_wal-log_bytes}
use graphite_tsdb.Wal.Recovery as Log
use graphite_tsdb.SkipList as Memtable
use graphite_tsdb.SkipList.{SkipList, Ptr, Heap}
use graphite_tsdb.SkipList.Spec.{put}
use graphite_tsdb.SkipList.Refinement.{IsSkipList}
use graphite_tsdb.SkipList.Insert.{insert_lem}
use graphite_tsdb.SkipList.Drain.{new-IsSkipList}
use graphite_tsdb.SkipList.Fresh.{insert-KeepsFree}
use graphite_tsdb.Replication.{ReplicationState}
use graphite_tsdb.Lsm.{Lsm, returned, failed, symbol_not_found, recover, get, get_named}
use graphite_tsdb.Lsm.Batches.{Nodes}
use graphite_tsdb.Lsm.Open.{
  LsmConfig, opened, fresh, open_recovered, with_nodes, open_logged, open_engine, load_sstables,
}

-- The nodes from the `i`-th on have addresses that are not null, differ, and are free.
pub record FreshNodes (nodes : Nodes) (i : ℕ) (h : Heap) : Type 0 where
  pub usable : (j : ℕ) → (nodes j).0 ≢ 0
  pub distinct : (j k : ℕ) → (nodes j).0 ≡ (nodes k).0 → j ≡ k
  pub free : (j : ℕ) → i ≤ j → h (nodes j).0 ≡ none

-- The ticks of the inserts of a log, put in one after the other.
unfoldable pub replay_all : List WalRecord → List Tick → List Tick
replay_all [] ts = ts
replay_all (WalRecord.insert tick ∷ rs) ts = replay_all rs (put tick ts)
replay_all (WalRecord.delete key ∷ rs) ts = replay_all rs ts
replay_all (WalRecord.checkpoint n ∷ rs) ts = replay_all rs ts

pub next_FreshNodes :
    (nodes : Nodes) (i : ℕ) (sl sl' : SkipList) (tick : Tick)
    → FreshNodes nodes i sl.heap
    → Memtable.insert sl (nodes i).0 (nodes i).1 tick ≡ some sl'
    → FreshNodes nodes (i + 1) sl'.heap
next_FreshNodes nodes i sl sl' tick f e = record {
  usable = f.usable;
  distinct = f.distinct;
  free = λ j later.
      insert-KeepsFree sl sl' (nodes i).0 (nodes i).1 tick e (nodes j).0
        (λ same. let is = f.distinct j i same in omega (arith, is, later)) (f.free j (omega arith));
}

later_FreshNodes :
    (nodes : Nodes) (i : ℕ) (h : Heap) → FreshNodes nodes i h → FreshNodes nodes (i + 1) h
later_FreshNodes nodes i h f = record {
  usable = f.usable;
  distinct = f.distinct;
  free = λ j later. f.free j (omega arith);
}

-- The replay of any records into a valid memtable succeeds.
pub recover_lem :
    (nodes : Nodes) (i : ℕ) (rs : List WalRecord) (sl : SkipList) (ts : List Tick)
    → IsSkipList sl ts
    → FreshNodes nodes i sl.heap
    → (sl' : SkipList) × ((recover sl (with_nodes nodes i rs) ≡ some sl')
        × IsSkipList sl' (replay_all rs ts))
unfolding recover with_nodes replay_all
recover_lem nodes i [] sl ts inv f = (sl, (refl, inv))
recover_lem nodes i (WalRecord.insert tick ∷ rs) sl ts inv f =
    let (sl1, (e, inv1)) =
      insert_lem sl ts inv tick (nodes i).0 (nodes i).1 (f.free i (omega arith)) (f.usable i) in
    let (sl', (more, inv')) =
      recover_lem nodes (i + 1) rs sl1 (put tick ts) inv1
        (next_FreshNodes nodes i sl sl1 tick f e) in
    (sl', (rw (e, recover) more, inv'))
recover_lem nodes i (WalRecord.delete key ∷ rs) sl ts inv f =
    recover_lem nodes (i + 1) rs sl ts inv (later_FreshNodes nodes i sl.heap f)
recover_lem nodes i (WalRecord.checkpoint n ∷ rs) sl ts inv f =
    recover_lem nodes (i + 1) rs sl ts inv (later_FreshNodes nodes i sl.heap f)

module _ (c : Codec) (crc : HasCrc32 c) (from_utf8_lossy : List ℕ → Symbol) where
  open_engine-replayed :
      (config : LsmConfig) (saved : Option ReplicationState) (next_id : ℕ) (nodes : Nodes)
      (rs : List WalRecord) (h : All (IsStorable c) rs)
      → length rs ≤ 2 ^ 64
      → FreshNodes nodes 0 Memtable.new.heap
      → (sl : SkipList) × ((open_engine from_utf8_lossy c config
              (log_bytes c 0 rs h)
              saved
              next_id
              []
              nodes
            ≡ opened (
                returned
                  (record (fresh from_utf8_lossy config (Log.opened c rs h) saved next_id) {
                    memtable = sl;
                  })
                  tt))
          × IsSkipList sl (replay_all rs []))
  unfolding open_engine open_logged open_recovered load_sstables
  open_engine-replayed config saved next_id nodes rs h few f =
      let (sl, (e, inv)) = recover_lem nodes 0 rs Memtable.new [] new-IsSkipList f in
      let start = fresh from_utf8_lossy config (Log.opened c rs h) saved next_id in
      (
        sl,
        (
          ap (open_logged from_utf8_lossy config saved next_id [] nodes)
                (open_wal-log_bytes c crc rs h few)
              ∙ ap (λ (o : Option SkipList). opened (open_recovered from_utf8_lossy [] start o)) e,
          inv,
        ),
      )

  -- Opening an engine on its log gives back the ticks of the log.
  pub open_engine-recovers :
      (config : LsmConfig) (saved : Option ReplicationState) (next_id : ℕ) (nodes : Nodes)
      (rs : List WalRecord) (h : All (IsStorable c) rs)
      → length rs ≤ 2 ^ 64
      → FreshNodes nodes 0 Memtable.new.heap
      → (l : Lsm) × ((open_engine from_utf8_lossy c config
              (log_bytes c 0 rs h)
              saved
              next_id
              []
              nodes
            ≡ opened (returned l tt))
          × IsSkipList l.memtable (replay_all rs []))
  open_engine-recovers config saved next_id nodes rs h few f =
      let (sl, (e, inv)) = open_engine-replayed config saved next_id nodes rs h few f in
      (_, (e, inv))

  -- Opening an engine without tables on a log of any records that can be stored, fewer than
  -- 2 ^ 64 + 1, returns. The memtable is valid and has the ticks of the inserts, put in one after the
  -- other, and the sequence number goes on behind the log. The dictionary is empty, so a look-up
  -- under any symbol fails. Checksums have 32 bits, and the nodes have free addresses of their own.
  pub open_engine-log_bytes :
      (config : LsmConfig) (saved : Option ReplicationState) (next_id : ℕ) (nodes : Nodes)
      (rs : List WalRecord) (h : All (IsStorable c) rs) (k : Compressors) (sub add : ℕ → ℕ → ℕ)
      → length rs ≤ 2 ^ 64
      → FreshNodes nodes 0 Memtable.new.heap
      → (l : Lsm) × ((open_engine from_utf8_lossy c config
              (log_bytes c 0 rs h)
              saved
              next_id
              []
              nodes
            ≡ opened (returned l tt))
          × (IsSkipList l.memtable (replay_all rs [])
              × ((l.log.sequence ≡ length rs)
                  × ((symbol : Symbol) (timestamp : TimestampNs)
                      → get k sub add from_utf8_lossy l symbol timestamp
                        ≡ failed l (symbol_not_found symbol)))))
  unfolding fresh get get_named get_id lookup
  open_engine-log_bytes config saved next_id nodes rs h k sub add few f =
      let (sl, (e, inv)) = open_engine-replayed config saved next_id nodes rs h few f in
      (_, (e, (inv, (refl, λ symbol timestamp. refl))))
