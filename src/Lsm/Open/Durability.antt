-- ===== src/Lsm/Open/Durability.antt =====
-- A crash behind an insert: what the log gives back.
use graphite_tsdb.Prelude.{
  ℕ, suc, ◌^◌, ◌<◌, ◌≡◌, ◌≢◌, refl, sym, ap, ◌∙◌, arith, Bool, none, Option, List, [], ◌∷◌, ◌++◌,
  append-nil, length, length-append, All,
}
use mathlib.Core.Path.{subst}
use graphite_tsdb.Types.{Tick, WalRecord}
use graphite_tsdb.Compression.Dictionary.{Symbol}
use graphite_tsdb.Bloom.{FloatOps}
use graphite_tsdb.Compression.Rle.{Compressors}
use graphite_tsdb.Wal.{Codec, write_record, record_bytes}
use graphite_tsdb.Wal.Frames.{IsStorable, IsStorable-append, HasCrc32, log_bytes}
use graphite_tsdb.Wal.Recovery.{log_bytes-append}
use graphite_tsdb.SkipList as Memtable
use graphite_tsdb.SkipList.{Ptr}
use graphite_tsdb.SkipList.Spec.{put}
use graphite_tsdb.SkipList.Refinement.{IsSkipList}
use graphite_tsdb.Replication.{primary, ReplicationState}
use graphite_tsdb.Lsm.{Lsm, returned, stored, insert}
use graphite_tsdb.Lsm.Inserts.{insert-below}
use graphite_tsdb.Lsm.Batches.{Nodes}
use graphite_tsdb.Lsm.Open.{LsmConfig, opened, open_engine}
use graphite_tsdb.Lsm.Open.Recovery.{FreshNodes, replay_all, open_engine-recovers}

replay_all-append :
    (rs : List WalRecord) (tick : Tick) (ts : List Tick)
    → replay_all (rs ++ (WalRecord.insert tick ∷ [])) ts ≡ put tick (replay_all rs ts)
unfolding replay_all
replay_all-append [] tick ts = refl
replay_all-append (WalRecord.insert t ∷ rs) tick ts = replay_all-append rs tick (put t ts)
replay_all-append (WalRecord.delete key ∷ rs) tick ts = replay_all-append rs tick ts
replay_all-append (WalRecord.checkpoint n ∷ rs) tick ts = replay_all-append rs tick ts

module _ (ops : FloatOps) (k : Compressors) (sub add : ℕ → ℕ → ℕ) (c : Codec) (crc : HasCrc32 c)
    (from_utf8_lossy : List ℕ → Symbol) where
  -- A primary whose memtable has the ticks of its log takes another tick, which does not fill the
  -- memtable, and then it crashes. Before the crash the memtable has the ticks of the log with the
  -- new one put under its key, with the identifier of its symbol. Opening the log that was left, in a
  -- directory without table files, returns an engine whose memtable is valid and has the same ticks.
  -- The records of the log and the tick can be stored, there are fewer than 2 ^ 64 of them,
  -- checksums have 32 bits, and all nodes have free addresses of their own.
  pub open_engine-insert :
      (l : Lsm) (rs : List WalRecord) (h : All (IsStorable c) rs) (address : Ptr)
      (draws : List Bool) (symbol : Symbol) (tick : Tick) (config : LsmConfig)
      (saved : Option ReplicationState) (next_id : ℕ) (nodes : Nodes)
      → l.log.file ≡ log_bytes c 0 rs h
      → l.log.sequence ≡ length rs
      → IsSkipList l.memtable (replay_all rs [])
      → l.memtable.heap address ≡ none
      → address ≢ 0
      → l.role ≡ primary
      → IsStorable c (WalRecord.insert (stored l.symbol_dict symbol tick))
      → suc (length (replay_all rs [])) < l.flush_threshold
      → length rs < 2 ^ 64
      → FreshNodes nodes 0 Memtable.new.heap
      → (l1 : Lsm) × ((l2 : Lsm) × ((insert ops k sub add c l address draws symbol tick
              ≡ returned l1 tt)
            × ((open_engine from_utf8_lossy c config l1.log.file saved next_id [] nodes
                  ≡ opened (returned l2 tt))
                × (IsSkipList l1.memtable
                      (put (stored l.symbol_dict symbol tick) (replay_all rs []))
                    × IsSkipList l2.memtable
                        (put (stored l.symbol_dict symbol tick) (replay_all rs []))))))
  unfolding write_record log_bytes
  open_engine-insert l rs h address draws symbol tick config saved next_id nodes file sequence inv
        free usable is_primary s below few f =
      let kept = stored l.symbol_dict symbol tick in
      let r = WalRecord.insert kept in
      let all = IsStorable-append c rs (r ∷ []) h (s, tt) in
      let (sl, (inserted, inv1)) =
        insert-below ops k sub add c l (replay_all rs []) address draws symbol tick s.payload inv
          free usable is_primary s.written below in
      let bytes : l.log.file ++ record_bytes c l.log.sequence s.payload
          ≡ log_bytes c 0 (rs ++ (r ∷ [])) all =
        rw (file, sequence)
          (sym (
            log_bytes-append c 0 (length rs) rs (r ∷ []) h (s, tt) (omega arith)
            ∙ ap (λ x. log_bytes c 0 rs h ++ x)
                (append-nil (record_bytes c (length rs) s.payload)))) in
      let (l2, (reopened, inv2)) =
        open_engine-recovers c crc from_utf8_lossy config saved next_id nodes (rs ++ (r ∷ [])) all
          (omega (arith, length-append rs (r ∷ []))) f in
      (
        _,
        (
          l2,
          (
            inserted,
            (
              ap (λ x. open_engine from_utf8_lossy c config x saved next_id [] nodes) bytes
                  ∙ reopened,
              (inv1, subst (IsSkipList l2.memtable) (replay_all-append rs kept []) inv2),
            ),
          ),
        ),
      )
