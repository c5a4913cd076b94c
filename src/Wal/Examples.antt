-- ===== src/Wal/Examples.antt =====
-- The log at a concrete codec and concrete records.
use Prim.Native.Nat.{ℕ, ◌%◌, ◌^◌, ◌<◌, ◌≤◌}
use graphite_tsdb.Prelude.{
  drop, ◌≡◌, refl, Option, none, some, List, [], ◌∷◌, ◌++◌, length, take, arith, All,
}
use graphite_tsdb.Prelude.Int.{pos}
use graphite_tsdb.Types.{WalRecord, insert, delete, checkpoint, Tick}
use graphite_tsdb.Wal.{
  Codec, ok, err, io, corrupt, invalid_record, append, append_batch, open_wal, read_for_replication,
  truncate, record_bytes,
}
use graphite_tsdb.Wal.Frames.{IsStorable, IsStorable-append, HasCrc32, log_bytes}
use graphite_tsdb.Wal.Recovery.{opened, open_wal-append_batch}
use graphite_tsdb.Wal.Crash.{open_wal_torn, append_unparsable}
use graphite_tsdb.Wal.Replication.{count_of, numbered, read_for_replication_lem, truncate_restarts}

-- A codec that writes a checkpoint as two bytes, does not serialize a deletion, and writes every
-- insertion as a text that it does not parse back.
abbrev write_checkpoint : WalRecord → Option (List ℕ)
write_checkpoint (insert t) = some (110 ∷ [])
write_checkpoint (delete k) = none
write_checkpoint (checkpoint n) = some (0 ∷ n ∷ [])

abbrev parse_checkpoint : List ℕ → Option WalRecord
parse_checkpoint [] = none
parse_checkpoint (t ∷ []) = none
parse_checkpoint (t ∷ n ∷ rest) = some (checkpoint n)

abbrev codec : Codec
codec = record {
  to_vec = write_checkpoint;
  from_slice = parse_checkpoint;
  crc32 = λ payload. length payload % 2 ^ 32;
}

codec-HasCrc32 : HasCrc32 codec
codec-HasCrc32 payload = omega arith

unfoldable checkpoint-IsStorable : (n : ℕ) → IsStorable codec (checkpoint n)
checkpoint-IsStorable n = record {
  payload = 0 ∷ n ∷ [];
  written = refl;
  parsed = refl;
  size = omega arith;
}

abbrev old_records : List WalRecord
old_records = checkpoint 4 ∷ checkpoint 5 ∷ []

old_records-IsStorable : All (IsStorable codec) old_records
old_records-IsStorable = (checkpoint-IsStorable 4, (checkpoint-IsStorable 5, tt))

abbrev new_records : List WalRecord
new_records = checkpoint 9 ∷ []

new_records-IsStorable : All (IsStorable codec) new_records
new_records-IsStorable = (checkpoint-IsStorable 9, tt)

abbrev nan_tick : Tick
nan_tick = record {
  symbol_id = 0;
  timestamp = pos 1;
  open_price = 0x7ff8000000000000;
  high = 0x7ff8000000000000;
  low = 0x7ff8000000000000;
  close = 0x7ff8000000000000;
  volume = 0;
}

open_wal-append_batch_example :
    ((append_batch codec (opened codec old_records old_records-IsStorable) new_records).1 ≡ ok 3)
    × (open_wal codec
          (append_batch codec (opened codec old_records old_records-IsStorable) new_records).0.file
        ≡ ok (
            opened codec (checkpoint 4 ∷ checkpoint 5 ∷ checkpoint 9 ∷ []) (
              IsStorable-append codec old_records new_records old_records-IsStorable
                new_records-IsStorable)))
open_wal-append_batch_example =
    open_wal-append_batch codec codec-HasCrc32 old_records new_records old_records-IsStorable
      new_records-IsStorable (omega arith)

-- Ten bytes of the third record were written.
abbrev torn_file : List ℕ
torn_file =
    log_bytes codec 0 old_records old_records-IsStorable
    ++ take 10 (record_bytes codec 2 (0 ∷ 9 ∷ []))

open_wal_torn_example :
    (10 < 4
      → open_wal codec torn_file
        ≡ ok (record {
          file = torn_file;
          offset = length torn_file;
          sequence = 2;
          replayed = old_records;
        }))
    × (4 ≤ 10 → open_wal codec torn_file ≡ err io)
open_wal_torn_example =
    open_wal_torn codec codec-HasCrc32 old_records old_records-IsStorable (0 ∷ 9 ∷ []) 10
      (omega arith) (omega arith) (omega arith)

append_unparsable_example :
    ((append codec (opened codec new_records new_records-IsStorable) (insert nan_tick)).1 ≡ ok 2)
    × (open_wal codec
          (append codec (opened codec new_records new_records-IsStorable) (insert nan_tick)).0.file
        ≡ err (
            corrupt (length (log_bytes codec 0 new_records new_records-IsStorable)) invalid_record))
append_unparsable_example =
    append_unparsable codec codec-HasCrc32 new_records new_records-IsStorable (insert nan_tick)
      (110 ∷ []) (omega arith) (omega arith) refl refl

read_for_replication_lem_example :
    read_for_replication codec (opened codec old_records old_records-IsStorable) (some 0) 10
    ≡ ok (take 10 (drop (count_of (some 0)) (numbered 0 old_records)))
read_for_replication_lem_example =
    read_for_replication_lem codec codec-HasCrc32 (some 0) 10 old_records old_records-IsStorable
      (omega arith)

truncate_restarts_example :
    (open_wal codec (truncate (opened codec old_records old_records-IsStorable)).file
      ≡ ok (opened codec [] tt))
    × (read_for_replication codec
          (append_batch codec (opened codec [] tt) new_records).0
          (some 1)
          10
        ≡ ok [])
truncate_restarts_example =
    truncate_restarts codec codec-HasCrc32 (opened codec old_records old_records-IsStorable)
      new_records new_records-IsStorable 1 10 (omega arith) (omega arith)

-- The replica that has applied the record 0 gets the record 1.
replicated : take 10 (drop (count_of (some 0)) (numbered 0 old_records)) ≡ (1, checkpoint 5) ∷ []
unfolding numbered
replicated = refl
