-- ===== src/Wal/Recovery.antt =====
-- What is appended is recovered when the log is opened again.
use graphite_tsdb.Prelude.{
  ◌-◌, ℕ, zero, suc, ◌+◌, ◌*◌, ◌^◌, ◌≤◌, ◌<◌, ◌≡◌, refl, sym, ap, ◌∙◌, arith,
}
use graphite_tsdb.Prelude.{some, List, [], ◌∷◌, ◌++◌, append_assoc, append-nil}
use graphite_tsdb.Prelude.{length, length-append, All}
use mathlib.Core.Path.{ap₂}
use graphite_tsdb.Types.{WalRecord}
use graphite_tsdb.Wal.{
  append, Wal, Codec, Result, ok, record_bytes, read_frame, write_record, append_batch,
  parse_record, replay_loop, replay, open_wal,
}
use graphite_tsdb.Wal.Frames.{
  IsStorable, IsStorable-append, HasCrc32, length-record_bytes, read_frame-record_bytes, log_bytes,
}

-- The sequence number behind a log that starts at `first`; an empty log leaves it as it is.
abbrev pub sequence_after {ℓ} : {A : Type ℓ} → ℕ → List A → ℕ → ℕ
sequence_after first [] sequence = sequence
sequence_after first (r ∷ rs) sequence = sequence_after (first + 1) rs (first + 1)

pub sequence_after_lem {ℓ} :
    {A : Type ℓ} (first : ℕ) (rs : List A) → sequence_after first rs first ≡ first + length rs
sequence_after_lem first [] = omega arith
sequence_after_lem first (r ∷ rs) = sequence_after_lem (first + 1) rs ∙ omega arith

module _ (c : Codec) where
  pub length-log_bytes :
      (first : ℕ) (rs : List WalRecord) (h : All (IsStorable c) rs)
      → 22 * length rs ≤ length (log_bytes c first rs h)
  unfolding log_bytes
  length-log_bytes first [] h = omega arith
  length-log_bytes first (r ∷ rs) h = omega (
    arith,
    length-append (record_bytes c first h.0.payload) (log_bytes c (first + 1) rs h.1),
    length-record_bytes c first h.0.payload,
    length-log_bytes (first + 1) rs h.1,
  )

  pub log_bytes-append :
      (first last : ℕ) (old rs : List WalRecord) (ho : All (IsStorable c) old)
      (hr : All (IsStorable c) rs)
      → last ≡ first + length old
      → log_bytes c first (old ++ rs) (IsStorable-append c old rs ho hr)
        ≡ log_bytes c first old ho ++ log_bytes c last rs hr
  unfolding log_bytes IsStorable-append
  log_bytes-append first last [] rs ho hr e =
      let same : first ≡ last = omega arith in ap (λ (n : ℕ). log_bytes c n rs hr) same
  log_bytes-append first last (r ∷ old) rs ho hr e =
      ap (λ (t : List ℕ). record_bytes c first ho.0.payload ++ t)
        (log_bytes-append (first + 1) last old rs ho.1 hr (omega arith))
      ∙ sym (append_assoc (record_bytes c first ho.0.payload) _ _)

  -- What the log is after a batch.
  abbrev pub written : (w : Wal) (rs : List WalRecord) → All (IsStorable c) rs → Wal
  written w rs h = record w {
    file = w.file ++ log_bytes c w.sequence rs h;
    offset = w.offset + length (log_bytes c w.sequence rs h);
    sequence = w.sequence + length rs;
  }

  pub append_batch-written :
      (w : Wal) (rs : List WalRecord) (h : All (IsStorable c) rs)
      → append_batch c w rs ≡ (written w rs h, ok (w.sequence + length rs))
  unfolding log_bytes append_batch write_record
  append_batch-written w [] h =
      ap (λ (v : Wal). (v, ok w.sequence)) (ground (arith, append-nil w.file))
      ∙ ap (λ (n : ℕ). (written w [] h, ok n)) {x = w.sequence} {y = w.sequence + 0} (omega arith)
  append_batch-written w (r ∷ rs) h =
      let p = h.0.payload in
      let step : append_batch c w (r ∷ rs) ≡ append_batch c (write_record c w p) rs =
        rw (h.0.written, append_batch) refl in
      let same : written (write_record c w p) rs h.1 ≡ written w (r ∷ rs) h = ground (
        arith,
        append_assoc w.file (record_bytes c w.sequence p) (log_bytes c (w.sequence + 1) rs h.1),
        length-append (record_bytes c w.sequence p) (log_bytes c (w.sequence + 1) rs h.1),
        length-record_bytes c w.sequence p,
      ) in
      let count : w.sequence + 1 + length rs ≡ w.sequence + suc (length rs) = omega arith in
      step
      ∙ append_batch-written (write_record c w p) rs h.1
      ∙ ap₂ (λ (v : Wal) (n : ℕ). (v, ok n)) same count

  -- The log that holds `rs`, as opening it leaves it.
  abbrev pub opened : (rs : List WalRecord) → All (IsStorable c) rs → Wal
  opened rs h = record {
    file = log_bytes c 0 rs h;
    offset = length (log_bytes c 0 rs h);
    sequence = length rs;
    replayed = rs;
  }

  module _ (crc : HasCrc32 c) where
    pub replay_loop_end :
        (n offset : ℕ) (records : List WalRecord) (sequence : ℕ)
        → replay_loop c n offset [] records sequence ≡ ok (records, sequence)
    unfolding replay_loop read_frame
    replay_loop_end zero offset records sequence = refl
    replay_loop_end (suc n) offset records sequence = refl

    replay_step :
        (r : WalRecord) (s : IsStorable c r) (n first offset sequence : ℕ)
        (records : List WalRecord) (rest : List ℕ)
        → first < 2 ^ 64
        → replay_loop c (suc n) offset (record_bytes c first s.payload ++ rest) records sequence
          ≡ replay_loop c n
              (offset + (22 + length s.payload))
              rest
              (records ++ (r ∷ []))
              (first + 1)
    unfolding replay_loop parse_record
    replay_step r s n first offset sequence records rest h =
        rw (read_frame-record_bytes c crc offset first s.payload rest h s.size, replay_loop)
          (rw (s.parsed, parse_record, replay_loop) refl)

    -- The loop of `replay` over a log, whatever follows it.
    pub replay_loop-log_bytes :
        (rs : List WalRecord) (h : All (IsStorable c) rs) (n first offset fuel sequence : ℕ)
        (records : List WalRecord) (tail : List ℕ)
        → n ≡ length rs + fuel
        → first + length rs ≤ 2 ^ 64
        → replay_loop c n offset (log_bytes c first rs h ++ tail) records sequence
          ≡ replay_loop c fuel
              (offset + length (log_bytes c first rs h))
              tail
              (records ++ rs)
              (sequence_after first rs sequence)
    unfolding log_bytes
    replay_loop-log_bytes [] h n first offset fuel sequence records tail e fits =
        let same : n ≡ fuel = omega arith in
        let there : offset ≡ offset + 0 = omega arith in rw (same, append-nil records, ← there) refl
    replay_loop-log_bytes (r ∷ rs) h zero first offset fuel sequence records tail e fits =
        absurd (omega arith)
    replay_loop-log_bytes (r ∷ rs) h (suc n) first offset fuel sequence records tail e fits =
        let p = h.0.payload in
        let rest = log_bytes c (first + 1) rs h.1 in
        let there : offset + (22 + length p) + length rest
            ≡ offset + length (record_bytes c first p ++ rest) =
          omega
            (arith, length-append (record_bytes c first p) rest, length-record_bytes c first p) in
        rw (append_assoc (record_bytes c first p) rest tail)
          (replay_step r h.0 n first offset sequence records (rest ++ tail) (omega arith))
        ∙ replay_loop-log_bytes rs h.1 n (first + 1) (offset + (22 + length p)) fuel (first + 1)
            (records ++ (r ∷ [])) tail (omega arith) (omega arith)
        ∙ ap₂
            (λ (o : ℕ) (l : List WalRecord).
              replay_loop c fuel o tail l (sequence_after (first + 1) rs (first + 1)))
            there (append_assoc records (r ∷ []) rs)

    pub open_wal-log_bytes :
        (rs : List WalRecord) (h : All (IsStorable c) rs)
        → length rs ≤ 2 ^ 64
        → open_wal c (log_bytes c 0 rs h) ≡ ok (opened rs h)
    unfolding open_wal replay
    open_wal-log_bytes rs h fits =
        let size = length (log_bytes c 0 rs h) in
        let spare : size ≡ length rs + (size - length rs) =
          omega (arith, length-log_bytes 0 rs h) in
        let loop : replay_loop c size 0 (log_bytes c 0 rs h) [] 0 ≡ ok (rs, length rs) =
          ap (λ (t : List ℕ). replay_loop c size 0 t [] 0) (sym (append-nil (log_bytes c 0 rs h)))
          ∙ replay_loop-log_bytes rs h size 0 0 (size - length rs) 0 [] [] spare (omega arith)
          ∙ replay_loop_end (size - length rs) (0 + size) rs (sequence_after 0 rs 0)
          ∙ ap (λ (n : ℕ). ok (rs, n)) (sequence_after_lem 0 rs ∙ omega arith) in
        rw loop refl

    -- A log is opened, a batch of records is appended, and the log is opened again, as after a
    -- restart. The batch returns the new sequence number, and the reopened log holds the old
    -- records, then the new ones, in order, with the same sequence number. The records are ones
    -- that serialize to fewer than 2 ^ 32 bytes and are parsed back, 2 ^ 64 of them at most.
    pub open_wal-append_batch :
        (old rs : List WalRecord) (ho : All (IsStorable c) old) (hr : All (IsStorable c) rs)
        → length old + length rs ≤ 2 ^ 64
        → ((append_batch c (opened old ho) rs).1 ≡ ok (length old + length rs))
          × (open_wal c (append_batch c (opened old ho) rs).0.file
              ≡ ok (opened (old ++ rs) (IsStorable-append c old rs ho hr)))
    open_wal-append_batch old rs ho hr fits =
        let e = append_batch-written (opened old ho) rs hr in
        let bytes : (append_batch c (opened old ho) rs).0.file
            ≡ log_bytes c 0 (old ++ rs) (IsStorable-append c old rs ho hr) =
          ap (λ (p : Wal × Result ℕ). p.0.file) e
          ∙ sym (log_bytes-append 0 (length old) old rs ho hr (omega arith)) in
        (
          ap (λ (p : Wal × Result ℕ). p.1) e,
          ap (open_wal c) bytes
              ∙ open_wal-log_bytes (old ++ rs) (IsStorable-append c old rs ho hr)
                  (omega (arith, length-append old rs)),
        )

-- A record that serializes is appended.
pub append_storable :
    (c : Codec) (w : Wal) (r : WalRecord) (payload : List ℕ)
    → c.to_vec r ≡ some payload
    → append c w r ≡ (write_record c w payload, ok (w.sequence + 1))
unfolding append
append_storable c w r payload e = rw (e, append) refl

-- A batch of one record that serializes is that record appended.
pub append_batch_storable :
    (c : Codec) (w : Wal) (r : WalRecord) (payload : List ℕ)
    → c.to_vec r ≡ some payload
    → append_batch c w (r ∷ []) ≡ (write_record c w payload, ok (w.sequence + 1))
unfolding append_batch write_record
append_batch_storable c w r payload e = rw (e, append_batch) refl
