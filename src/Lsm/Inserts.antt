-- ===== src/Lsm/Inserts.antt =====
-- What an insert into the engine does: its tick can be read at once, and an insert that fills the
-- memtable does not return.
use graphite_tsdb.Prelude.{
  ℕ, suc, ◌+◌, ◌^◌, ◌≤◌, ◌<◌, ◌≡◌, ◌≢◌, refl, ap, ◌∙◌, arith, Bool, true, false, none, some, List,
  ◌∷◌, length, leb,
}
use graphite_tsdb.Types.{Tick, WalRecord, key_of}
use graphite_tsdb.Compression.Dictionary.{Symbol, SymbolDictionary, get_or_insert, get_id}
use graphite_tsdb.Compression.Dictionary.Identifiers.{IsDictionary, get_or_insert_lem}
use graphite_tsdb.Bloom.{FloatOps}
use graphite_tsdb.Compression.Rle.{Compressors}
use graphite_tsdb.Wal.{Codec, write_record}
use graphite_tsdb.Wal.Recovery.{append_storable}
use graphite_tsdb.SkipList as Memtable
use graphite_tsdb.SkipList.{SkipList, Ptr, key_lt, key_eq, drain}
use graphite_tsdb.SkipList.Cells.{key_eq_refl}
use graphite_tsdb.SkipList.Spec.{put, Ordered, find-put, length-put_le, put-cons}
use graphite_tsdb.SkipList.Contents.{Contents-Ordered}
use graphite_tsdb.SkipList.Refinement.{IsSkipList, get_lem}
use graphite_tsdb.SkipList.Insert.{insert_lem}
use graphite_tsdb.SkipList.Drain.{drain_lem}
use graphite_tsdb.Replication.{primary}
use graphite_tsdb.Lsm.{
  Lsm, returned, deadlocked, stored, is_replica, insert, insert_appended, insert_done, locked,
  read_lock, flush_memtable, flush_ticks, get, get_named, get_behind,
}

flush_nonempty :
    (ops : FloatOps) (k : Compressors) (sub add : ℕ → ℕ → ℕ) (l : Lsm) (x : Tick) (xs : List Tick)
    (memtable : SkipList)
    → drain l.memtable ≡ some (x ∷ xs, memtable)
    → flush_memtable ops k sub add locked l ≡ deadlocked
unfolding flush_memtable flush_ticks read_lock
flush_nonempty ops k sub add l x xs memtable e = ap (flush_ticks ops k sub add locked l) e

-- A look-up of a tick that was put last into the memtable, under the symbol that it was given.
pub get-stored :
    (k : Compressors) (sub add : ℕ → ℕ → ℕ) (from_utf8_lossy : List ℕ → Symbol)
    (dict : SymbolDictionary) (symbol : Symbol) (tick : Tick) (ts : List Tick) (l : Lsm)
    → IsSkipList l.memtable (put (stored dict symbol tick) ts)
    → Ordered ts
    → IsDictionary dict
    → length dict.id_to_symbol < 2 ^ 16
    → l.symbol_dict ≡ (get_or_insert dict symbol).0
    → get k sub add from_utf8_lossy l symbol tick.timestamp
      ≡ returned l (some (stored dict symbol tick))
unfolding get get_named get_behind
get-stored k sub add from_utf8_lossy dict symbol tick ts l inv ordered valid room same =
    let kept = stored dict symbol tick in
    let named : get_id l.symbol_dict symbol ≡ some kept.symbol_id =
      ap (λ d. get_id d symbol) same ∙ (get_or_insert_lem dict symbol valid room).1 in
    let found : Memtable.get l.memtable (key_of kept) ≡ some (some kept) =
      get_lem l.memtable (put kept ts) inv (key_of kept)
      ∙ ap some (find-put (key_of kept) kept ts ordered ∙ rw (key_eq_refl (key_of kept)) refl) in
    ap (get_named k sub add from_utf8_lossy l symbol tick.timestamp) named
    ∙ ap (get_behind k sub add from_utf8_lossy l (key_of kept)) found

module _ (ops : FloatOps) (k : Compressors) (sub add : ℕ → ℕ → ℕ) (c : Codec) (l : Lsm)
    (ts : List Tick) (address : Ptr) (draws : List Bool) (symbol : Symbol) (tick : Tick)
    (payload : List ℕ) where
  abbrev pub kept : Tick
  kept = stored l.symbol_dict symbol tick

  -- The state with the dictionary and the log of an insert, and its old memtable.
  abbrev pub logged : Lsm
  logged = record l {
    symbol_dict = (get_or_insert l.symbol_dict symbol).0;
    log = write_record c l.log payload;
  }

  pub insert-logged :
      l.role ≡ primary
      → c.to_vec (WalRecord.insert kept) ≡ some payload
      → insert ops k sub add c l address draws symbol tick
        ≡ insert_done ops k sub add c logged (Memtable.insert l.memtable address draws kept)
  unfolding insert insert_appended
  insert-logged is_primary storable =
      let p : is_replica l.role ≡ false = ap is_replica is_primary in
      let named = record l { symbol_dict = (get_or_insert l.symbol_dict symbol).0 } in
      rw p (
        ap (insert_appended ops k sub add c named address draws kept)
          (append_storable c l.log (WalRecord.insert kept) payload storable))

  -- An insert below the flush threshold.
  pub insert-below :
      IsSkipList l.memtable ts
      → l.memtable.heap address ≡ none
      → address ≢ 0
      → l.role ≡ primary
      → c.to_vec (WalRecord.insert kept) ≡ some payload
      → suc (length ts) < l.flush_threshold
      → (sl : SkipList) × ((insert ops k sub add c l address draws symbol tick
            ≡ returned (record logged { memtable = sl; total_rows = l.total_rows + 1 }) tt)
          × IsSkipList sl (put kept ts))
  unfolding insert_done
  insert-below inv free usable is_primary storable below =
      let (sl, (e, inv')) = insert_lem l.memtable ts inv kept address draws free usable in
      let small : leb l.flush_threshold sl.len ≡ false =
        ground (arith, inv'.counted, length-put_le kept ts) in
      (
        sl,
        (
          insert-logged is_primary storable
              ∙ ap (insert_done ops k sub add c logged) e
              ∙ rw small refl,
          inv',
        ),
      )

  -- A primary below the flush threshold takes a tick that can be stored in the log, and the tick can
  -- be read under its symbol and timestamp at once. The memtable and the dictionary are valid, there
  -- is room for another symbol, and the new node has a free address.
  pub get-insert_engine :
      (from_utf8_lossy : List ℕ → Symbol)
      → IsSkipList l.memtable ts
      → IsDictionary l.symbol_dict
      → length l.symbol_dict.id_to_symbol < 2 ^ 16
      → l.memtable.heap address ≡ none
      → address ≢ 0
      → l.role ≡ primary
      → c.to_vec (WalRecord.insert kept) ≡ some payload
      → suc (length ts) < l.flush_threshold
      → (l' : Lsm) × ((insert ops k sub add c l address draws symbol tick ≡ returned l' tt)
          × (get k sub add from_utf8_lossy l' symbol tick.timestamp ≡ returned l' (some kept)))
  get-insert_engine from_utf8_lossy inv dict room free usable is_primary storable below =
      let (sl, (inserted, inv')) = insert-below inv free usable is_primary storable below in
      let ordered =
        Contents-Ordered l.memtable.heap (inv.cells 0) ts inv.contents (inv.levels.sorted 0) in
      let done = record logged { memtable = sl; total_rows = l.total_rows + 1 } in
      (
        done,
        (
          inserted,
          get-stored k sub add from_utf8_lossy l.symbol_dict symbol tick ts done inv' ordered dict
              room refl,
        ),
      )

  -- An insert into a primary that fills the memtable up to the flush threshold never returns: it
  -- still holds the lock of the symbol dictionary for writing when the flush, which has drained the
  -- memtable, asks for it. The memtable is valid, the tick can be stored in the log, and the new node
  -- has a free address.
  pub insert_fills :
      IsSkipList l.memtable ts
      → l.memtable.heap address ≡ none
      → address ≢ 0
      → l.role ≡ primary
      → c.to_vec (WalRecord.insert kept) ≡ some payload
      → l.flush_threshold ≤ length (put kept ts)
      → insert ops k sub add c l address draws symbol tick ≡ deadlocked
  unfolding insert_done
  insert_fills inv free usable is_primary storable full =
      let (sl, (e, inv')) = insert_lem l.memtable ts inv kept address draws free usable in
      let (empty, (d, rest)) = drain_lem sl (put kept ts) inv' in
      let large : leb l.flush_threshold sl.len ≡ true = ground (arith, inv'.counted) in
      let (x, (xs, is)) = put-cons kept ts in
      let filled = record logged { memtable = sl; total_rows = l.total_rows + 1 } in
      insert-logged is_primary storable
      ∙ ap (insert_done ops k sub add c logged) e
      ∙ rw large (
          flush_nonempty ops k sub add filled x xs empty
            (d ∙ ap (λ (t : List Tick). some (t, empty)) is))
