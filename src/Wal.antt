-- ===== src/Wal.antt =====
-- graphite-core/src/wal.rs: the write-ahead log. The file is the list of its bytes, and writes and
-- syncs succeed; `serde_json` and the CRC32 of `crc32fast` are parameters. Numbers that the source
-- keeps in a `u64` only grow by one for each record, and their overflow is not modelled.
pub mod Frames
pub mod Recovery
pub mod Crash
pub mod Replication
mod Examples
use graphite_tsdb.Prelude.{ℕ, zero, suc, ◌+◌, ◌%◌, ◌^◌, Bool, true, false, Option, none, some, not}
use graphite_tsdb.Prelude.{List, [], ◌∷◌, ◌++◌, ltb, leb, ◌==◌, if◌then◌else◌, length, take, drop}
use graphite_tsdb.Prelude.Bytes.{to_be_bytes, from_be_bytes}
use graphite_tsdb.Types.{WalRecord}

abbrev pub magic : ℕ
magic = 0x47524154

abbrev pub version : ℕ
version = 1

-- The reason of a corruption, which the source writes out as a text.
pub data Reason : Type 0 where
  bad_magic : ℕ → Reason
  unsupported_version : ℕ → Reason
  checksum_mismatch : Reason
  invalid_record : Reason

pub data WalError : Type 0 where
  io : WalError
  corrupt : ℕ → Reason → WalError
  serialize : WalError

pub data Result {ℓ} (A : Type ℓ) : Type ℓ where
  ok : A → Result A
  err : WalError → Result A

infixl 5 ◌>>=◌
abbrev pub ◌>>=◌ {ℓ κ} : {A : Type ℓ} {B : Type κ} → Result A → (A → Result B) → Result B
ok a >>= f = f a
err e >>= f = err e

pub record Wal : Type 0 where
  pub file : List ℕ
  pub offset : ℕ
  pub sequence : ℕ
  pub replayed : List WalRecord

-- `serde_json::to_vec`, `serde_json::from_slice` and the CRC32 of a payload.
pub record Codec : Type 0 where
  pub to_vec : WalRecord → Option (List ℕ)
  pub from_slice : List ℕ → Option WalRecord
  pub crc32 : List ℕ → ℕ

-- `read_exact` of `n` bytes: the bytes and what follows them.
pub read_exact : ℕ → List ℕ → Result (List ℕ × List ℕ)
read_exact n rest = if ltb (length rest) n then err io else ok (take n rest, drop n rest)

-- One record as a loop of `replay` or `read_for_replication` finds it: the end of the log, or a
-- sequence number with its payload and the rest of the file.
pub data Frame : Type 0 where
  end : Frame
  frame : ℕ → List ℕ → List ℕ → Frame

-- Whether a replica that has applied the records up to a number still lacks `seq`.
pub includes : Option ℕ → ℕ → Bool
includes none seq = true
includes (some last) seq = ltb last seq

module _ (c : Codec) where
  open c use {to_vec, from_slice, crc32}

  -- The buffer that `append` writes.
  pub record_bytes : ℕ → List ℕ → List ℕ
  record_bytes sequence payload =
      to_be_bytes 4 magic
      ++ (to_be_bytes 2 version
          ++ (to_be_bytes 4 (crc32 payload)
              ++ (to_be_bytes 4 (length payload % 2 ^ 32) ++ (to_be_bytes 8 sequence ++ payload))))

  -- `append` behind the serialization, less the sync: the body of the loop of `append_batch`.
  unfoldable pub write_record : Wal → List ℕ → Wal
  write_record w payload = record w {
    file = w.file ++ record_bytes w.sequence payload;
    offset = w.offset + (4 + 2 + 4 + 8 + 4 + length payload);
    sequence = w.sequence + 1;
  }

  pub append : Wal → WalRecord → Wal × Result ℕ
  append w r = elim (to_vec r) [
    | none ↦ (w, err serialize)
    | some payload ↦ (write_record w payload, ok (w.sequence + 1))
  ]

  -- What was written before a record that does not serialize stays written.
  pub append_batch : Wal → List WalRecord → Wal × Result ℕ
  append_batch w [] = (w, ok w.sequence)
  append_batch w (r ∷ rs) = elim (to_vec r) [
    | none ↦ (w, err serialize)
    | some payload ↦ append_batch (write_record w payload) rs
  ]

  -- The header's fields behind the magic number, and the payload.
  pub read_body : ℕ → List ℕ → Result Frame
  read_body offset rest = do
    (version_buf, rest1) ← read_exact 2 rest
    if not (from_be_bytes version_buf == version)
        then err (corrupt offset (unsupported_version (from_be_bytes version_buf)))
        else do
          (checksum_buf, rest2) ← read_exact 4 rest1
          (len_buf, rest3) ← read_exact 4 rest2
          (seq_buf, rest4) ← read_exact 8 rest3
          (payload, rest5) ← read_exact (from_be_bytes len_buf) rest4
          if crc32 payload == from_be_bytes checksum_buf
              then ok (frame (from_be_bytes seq_buf) payload rest5)
              else err (corrupt offset checksum_mismatch)

  -- A magic number that cannot be read ends the log.
  pub read_frame : ℕ → List ℕ → Result Frame
  read_frame offset rest =
      if ltb (length rest) 4
      then ok end
      else if not (from_be_bytes (take 4 rest) == magic)
      then err (corrupt offset (bad_magic (from_be_bytes (take 4 rest))))
      else read_body offset (drop 4 rest)

  parse_record : ℕ → List ℕ → Result WalRecord
  parse_record offset payload = elim (from_slice payload) [
    | none ↦ err (corrupt offset invalid_record)
    | some r ↦ ok r
  ]

  -- The loop of `replay`, with fuel: the records, and the sequence number after them.
  pub replay_loop : ℕ → ℕ → List ℕ → List WalRecord → ℕ → Result (List WalRecord × ℕ)
  replay_loop zero offset rest records sequence = ok (records, sequence)
  replay_loop (suc fuel) offset rest records sequence = elim (read_frame offset rest) [
    | err e ↦ err e
    | ok end ↦ ok (records, sequence)
    | ok (frame seq payload rest') ↦ elim (parse_record offset payload) [
      | err e ↦ err e
      | ok r ↦
          replay_loop fuel (offset + (4 + 2 + 4 + 4 + 8 + length payload)) rest'
            (records ++ (r ∷ [])) (seq + 1)
    ]
  ]

  -- Each record takes 22 bytes at least, so the length of the file is fuel enough.
  pub replay : Wal → Result (List WalRecord × ℕ)
  replay w = replay_loop (length w.file) 0 w.file [] w.sequence

  -- `Wal::open` on the bytes that the file holds.
  pub open_wal : List ℕ → Result Wal
  open_wal file = do
    let fresh : Wal = record { file = file; offset = length file; sequence = 0; replayed = [] }
    (records, sequence) ← replay fresh
    ok (record { file = file; offset = length file; sequence = sequence; replayed = records })

  -- The loop of `read_for_replication`, with fuel: a record that is not wanted is not parsed.
  pub replication_loop :
      ℕ → Option ℕ → ℕ → ℕ → List ℕ → List (ℕ × WalRecord) → Result (List (ℕ × WalRecord))
  replication_loop zero after limit offset rest results = ok results
  replication_loop (suc fuel) after limit offset rest results = elim (leb limit (length results)) [
    | true ↦ ok results
    | false ↦ elim (read_frame offset rest) [
      | err e ↦ err e
      | ok end ↦ ok results
      | ok (frame seq payload rest') ↦ elim (includes after seq) [
        | false ↦
            replication_loop fuel after limit (offset + (4 + 2 + 4 + 4 + 8 + length payload)) rest'
              results
        | true ↦ elim (parse_record (offset + (4 + 2 + 4 + 4 + 8 + length payload)) payload) [
          | err e ↦ err e
          | ok r ↦
              replication_loop fuel after limit (offset + (4 + 2 + 4 + 4 + 8 + length payload))
                rest' (results ++ ((seq, r) ∷ []))
        ]
      ]
    ]
  ]

  pub read_for_replication : Wal → Option ℕ → ℕ → Result (List (ℕ × WalRecord))
  read_for_replication w after limit = replication_loop (length w.file) after limit 0 w.file []

-- The sequence number goes on from where it was.
unfoldable pub truncate : Wal → Wal
truncate w = record w { file = []; offset = 0 }
