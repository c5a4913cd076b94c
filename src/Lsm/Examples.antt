-- ===== src/Lsm/Examples.antt =====
-- The engine at concrete states.
use graphite_tsdb.Prelude.{ℕ, ◌+◌, ◌≡◌, refl, arith, none, some, [], ◌∷◌}
use graphite_tsdb.Prelude.Int.{pos}
use graphite_tsdb.Types.{Tick}
use graphite_tsdb.Compression.Dictionary as Dictionary
use graphite_tsdb.Compression.Dictionary.{Symbol}
use graphite_tsdb.Compression.Dictionary.Identifiers.{new-IsDictionary}
use graphite_tsdb.Wal.{Codec}
use graphite_tsdb.SkipList as Memtable
use graphite_tsdb.SkipList.Spec.{put}
use graphite_tsdb.SkipList.Drain.{new-IsSkipList}
use graphite_tsdb.SsTable.Examples.{whole_ops, plain}
use graphite_tsdb.Compaction as Compaction
use graphite_tsdb.Replication.{primary, open_tracker}
use graphite_tsdb.Lsm.{Lsm, returned, deadlocked, stored, insert, get}
use graphite_tsdb.Lsm.Inserts.{get-insert_engine, insert_fills}

abbrev codec : Codec
codec = record { to_vec = λ r. some (1 ∷ []); from_slice = λ bytes. none; crc32 = λ bytes. 0 }

-- An engine without ticks, with a flush threshold.
abbrev engine : ℕ → Lsm
engine threshold = record {
  memtable = Memtable.new;
  log = record { file = []; offset = 0; sequence = 0; replayed = [] };
  compaction = Compaction.new Dictionary.new;
  symbol_dict = Dictionary.new;
  flush_threshold = threshold;
  bloom_checks = 0;
  bloom_hits = 0;
  total_rows = 0;
  role = primary;
  replication = open_tracker none;
  next_id = 1;
}

abbrev aapl : Symbol
aapl = b'A' ∷ b'A' ∷ b'P' ∷ b'L' ∷ []

abbrev tick : Tick
tick = record {
  symbol_id = 0;
  timestamp = pos 1000;
  open_price = 1;
  high = 2;
  low = 1;
  close = 2;
  volume = 5;
}

get-insert_engine_example :
    (l' : Lsm) × ((insert whole_ops plain ◌+◌ ◌+◌ codec (engine 10) 2 [] aapl tick ≡ returned l' tt)
      × (get plain ◌+◌ ◌+◌ (λ bytes. bytes) l' aapl (pos 1000)
          ≡ returned l' (some (stored Dictionary.new aapl tick))))
unfolding Memtable.new
get-insert_engine_example =
    get-insert_engine whole_ops plain ◌+◌ ◌+◌ codec (engine 10) [] 2 [] aapl tick (1 ∷ [])
      (λ bytes. bytes) new-IsSkipList new-IsDictionary (omega arith) refl (omega arith) refl refl
      (omega arith)

insert_fills_example : insert whole_ops plain ◌+◌ ◌+◌ codec (engine 1) 2 [] aapl tick ≡ deadlocked
unfolding Memtable.new put
insert_fills_example =
    insert_fills whole_ops plain ◌+◌ ◌+◌ codec (engine 1) [] 2 [] aapl tick (1 ∷ []) new-IsSkipList
      refl (omega arith) refl refl (omega arith)
