-- ===== src/Wal/Crash.antt =====
-- Logs that cannot be opened: a record that was cut by a crash, and one that is not parsed back.
use graphite_tsdb.Prelude.{
  ℕ, zero, suc, ◌+◌, ◌-◌, ◌%◌, ◌^◌, ◌≤◌, ◌<◌, ◌≡◌, refl, sym, ap, ◌∙◌, arith,
}
use graphite_tsdb.Prelude.{none, some, List, [], ◌∷◌, ◌++◌, append-nil}
use graphite_tsdb.Prelude.{length, length-append, length-take, take, All}
use graphite_tsdb.Prelude.Bytes.{
  to_be_bytes, from_be_bytes, length-to_be_bytes, from_be_bytes-to_be_bytes,
}
use graphite_tsdb.Prelude.{dec_lt}
use mathlib.Core.Path.{ap₂}
use graphite_tsdb.Types.{WalRecord}
use native.Mathlib.Nat.{mod-eq_of_lt}
use graphite_tsdb.Wal.{
  WalError, Codec, invalid_record, Result, ok, err, io, corrupt, end, frame, magic, version,
  read_exact, record_bytes, write_record, append, read_body, read_frame, parse_record, replay_loop,
  replay, open_wal,
}
use graphite_tsdb.Wal.Frames.{
  IsStorable, HasCrc32, length-record_bytes, read_frame-record_bytes, read_exact-append,
  read_frame-magic, log_bytes,
}
use graphite_tsdb.Wal.Recovery.{
  opened, sequence_after, sequence_after_lem, length-log_bytes, replay_loop-log_bytes,
}

take-append_over :
    (n m : ℕ) (xs ys : List ℕ) → length xs ≡ m → m ≤ n → take n (xs ++ ys) ≡ xs ++ take (n - m) ys
take-append_over n zero [] ys h p = ap (λ (k : ℕ). take k ys) {x = n} {y = n - 0} (omega arith)
take-append_over n (suc m) [] ys h p = absurd (omega arith)
take-append_over n zero (x ∷ xs) ys h p = absurd (omega arith)
take-append_over zero (suc m) (x ∷ xs) ys h p = absurd (omega arith)
take-append_over (suc n) (suc m) (x ∷ xs) ys h p =
    ap (λ (t : List ℕ). x ∷ t)
      (take-append_over n m xs ys (omega arith) (omega arith)
        ∙ ap (λ (k : ℕ). xs ++ take k ys) {x = n - m} {y = suc n - suc m} (omega arith))

read_exact_short : (n : ℕ) (rest : List ℕ) → length rest < n → read_exact n rest ≡ err io
unfolding read_exact
read_exact_short n rest h = ground arith

-- A read of a part that was cut after `k` elements, and of one that was not.
module _ (n k : ℕ) (xs rest : List ℕ) (size : length xs ≡ n) where
  read_exact_cut : k < n → read_exact n (take k (xs ++ rest)) ≡ err io
  read_exact_cut h =
      read_exact_short n (take k (xs ++ rest)) (omega (arith, length-take k (xs ++ rest)))

  read_exact_whole : n ≤ k → read_exact n (take k (xs ++ rest)) ≡ ok (xs, take (k - n) rest)
  read_exact_whole h =
      ap (read_exact n) (take-append_over k n xs rest size h)
      ∙ read_exact-append n xs (take (k - n) rest) size

module _ (c : Codec) (crc : HasCrc32 c) (seq : ℕ) (payload : List ℕ)
    (size : length payload < 2 ^ 32) where
  abbrev len_bytes : List ℕ
  len_bytes = to_be_bytes 4 (length payload % 2 ^ 32)

  read_body_cut :
      (offset k : ℕ)
      → k < 18 + length payload
      → read_body c offset (
          take k (
            to_be_bytes 2 version
            ++ (to_be_bytes 4 (c.crc32 payload) ++ (len_bytes ++ (to_be_bytes 8 seq ++ payload)))))
        ≡ err io
  unfolding read_body
  read_body_cut offset k h = elim (dec_lt k 2) [
    | yes p ↦ rw (read_exact_cut 2 k _ _ (length-to_be_bytes 2 version) p) refl
    | no p ↦
        rw
          (
            read_exact_whole 2 k _ _ (length-to_be_bytes 2 version) (omega arith),
            from_be_bytes-to_be_bytes 2 version (omega arith),
          )
          (elim (dec_lt (k - 2) 4) [
            | yes p2 ↦
                rw (read_exact_cut 4 (k - 2) _ _ (length-to_be_bytes 4 (c.crc32 payload)) p2) refl
            | no p2 ↦
                rw
                  (read_exact_whole 4 (k - 2) _ _ (length-to_be_bytes 4 (c.crc32 payload))
                    (omega arith))
                  (elim (dec_lt (k - 2 - 4) 4) [
                    | yes p3 ↦
                        rw (read_exact_cut 4 (k - 2 - 4) _ _ (length-to_be_bytes 4 _) p3) refl
                    | no p3 ↦
                        rw
                          (read_exact_whole 4 (k - 2 - 4) _ _ (length-to_be_bytes 4 _)
                            (omega arith))
                          (elim (dec_lt (k - 2 - 4 - 4) 8) [
                            | yes p4 ↦
                                rw
                                  (read_exact_cut 8 (k - 2 - 4 - 4) _ _ (length-to_be_bytes 8 seq)
                                    p4)
                                  refl
                            | no p4 ↦
                                rw
                                  (
                                    read_exact_whole 8 (k - 2 - 4 - 4) _ _
                                        (length-to_be_bytes 8 seq) (omega arith),
                                    payload_length,
                                    read_exact_short (length payload)
                                        (take (k - 2 - 4 - 4 - 8) payload)
                                        (omega (arith, length-take (k - 2 - 4 - 4 - 8) payload)),
                                  )
                                  refl
                          ])
                  ])
          ])
  ]
    where
      payload_length : from_be_bytes len_bytes ≡ length payload
      payload_length =
          from_be_bytes-to_be_bytes 4 (length payload % 2 ^ 32) (omega arith) ∙ mod-eq_of_lt size

  -- A record that was cut behind its magic number is an error of the read.
  read_frame_cut :
      (offset k : ℕ)
      → 4 ≤ k
      → k < 22 + length payload
      → read_frame c offset (take k (record_bytes c seq payload)) ≡ err io
  unfolding record_bytes
  read_frame_cut offset k lo hi =
      ap (read_frame c offset) (take-append_over k 4 _ _ (length-to_be_bytes 4 magic) lo)
      ∙ read_frame-magic c offset _
      ∙ read_body_cut offset (k - 4) (omega arith)

module _ (c : Codec) where
  replay_loop_err :
      (n offset sequence : ℕ) (rest : List ℕ) (records : List WalRecord) (e : WalError)
      → 0 < n
      → read_frame c offset rest ≡ err e
      → replay_loop c n offset rest records sequence ≡ err e
  unfolding replay_loop
  replay_loop_err zero offset sequence rest records e p h = absurd (omega arith)
  replay_loop_err (suc n) offset sequence rest records e p h = rw (h, replay_loop) refl

  replay_loop_short :
      (n offset sequence : ℕ) (rest : List ℕ) (records : List WalRecord)
      → length rest < 4
      → replay_loop c n offset rest records sequence ≡ ok (records, sequence)
  unfolding replay_loop
  replay_loop_short zero offset sequence rest records h = refl
  replay_loop_short (suc n) offset sequence rest records h =
      let stop : read_frame c offset rest ≡ ok end = unfold read_frame in ground arith in
      rw (stop, replay_loop) refl

  replay_loop_invalid :
      HasCrc32 c
      → (n offset sequence : ℕ) (payload : List ℕ) (records : List WalRecord) → sequence < 2 ^ 64
      → length payload < 2 ^ 32
      → c.from_slice payload ≡ none
      → 0 < n
      → replay_loop c n offset (record_bytes c sequence payload) records sequence
        ≡ err (corrupt offset invalid_record)
  unfolding replay_loop parse_record
  replay_loop_invalid crc zero offset sequence payload records hs size parsed p =
      absurd (omega arith)
  replay_loop_invalid crc (suc n) offset sequence payload records hs size parsed p =
      let found : read_frame c offset (record_bytes c sequence payload)
          ≡ ok (frame sequence payload []) =
        ap (read_frame c offset) (sym (append-nil (record_bytes c sequence payload)))
        ∙ read_frame-record_bytes c crc offset sequence payload [] hs size in
      rw (found, replay_loop) (rw (parsed, parse_record, replay_loop) refl)

  module _ (crc : HasCrc32 c) (rs : List WalRecord) (h : All (IsStorable c) rs) where
    -- Opening a log that ends in some other bytes: what `replay_loop` makes of those bytes.
    open_wal_tail :
        (tail : List ℕ) (out : Result (List WalRecord × ℕ))
        → length rs ≤ 2 ^ 64
        → ((n : ℕ)
            → length tail ≤ n
            → replay_loop c n (length (log_bytes c 0 rs h)) tail rs (length rs) ≡ out)
        → replay c (record {
          file = log_bytes c 0 rs h ++ tail;
          offset = length (log_bytes c 0 rs h ++ tail);
          sequence = 0;
          replayed = [];
        })
          ≡ out
    unfolding replay
    open_wal_tail tail out fits behind =
        let file = log_bytes c 0 rs h ++ tail in
        let spare : length file ≡ length rs + (length file - length rs) =
          omega (arith, length-log_bytes c 0 rs h, length-append (log_bytes c 0 rs h) tail) in
        let seq : sequence_after 0 rs 0 ≡ length rs = sequence_after_lem 0 rs ∙ omega arith in
        replay_loop-log_bytes c crc rs h (length file) 0 0 (length file - length rs) 0 [] tail spare
          (omega arith)
        ∙ ap₂ (λ (o s : ℕ). replay_loop c (length file - length rs) o tail rs s) (omega arith) seq
        ∙ behind (length file - length rs)
            (omega (arith, length-log_bytes c 0 rs h, length-append (log_bytes c 0 rs h) tail))

    -- A crash cuts the last record of a log short, and the log is opened again. When fewer than 4
    -- bytes of the record were written, the log opens with all the records before it. When 4 bytes
    -- or more were written, but not all, opening fails with an io error and no record is
    -- recovered, for records before it that serialize and are parsed back, 2 ^ 64 of them at
    -- most, and a payload of fewer than 2 ^ 32 bytes.
    pub open_wal_torn :
        (payload : List ℕ) (k : ℕ)
        → length rs ≤ 2 ^ 64
        → length payload < 2 ^ 32
        → k < 22 + length payload
        → (let file = log_bytes c 0 rs h ++ take k (record_bytes c (length rs) payload) in
            (k < 4
              → open_wal c file
                ≡ ok (record {
                  file = file;
                  offset = length file;
                  sequence = length rs;
                  replayed = rs;
                }))
            × (4 ≤ k → open_wal c file ≡ err io))
    unfolding open_wal
    open_wal_torn payload k fits size hk =
        let tail = take k (record_bytes c (length rs) payload) in
        let cut : length tail ≡ k = omega (
          arith,
          length-take k (record_bytes c (length rs) payload),
          length-record_bytes c (length rs) payload,
        ) in
        (
          λ lo.
              rw
                (open_wal_tail tail (ok (rs, length rs)) fits
                  (λ n p. replay_loop_short n _ (length rs) tail rs (omega arith)))
                refl,
          λ hi.
              rw
                (open_wal_tail tail (err io) fits (λ n p.
                  replay_loop_err n _ (length rs) tail rs io (omega arith)
                    (read_frame_cut c crc (length rs) payload size _ k hi hk)))
                refl,
        )

    -- A record that serializes to fewer than 2 ^ 32 bytes which are not parsed back, behind fewer
    -- than 2 ^ 64 records that are: appending it succeeds, and then the log cannot be opened any
    -- more.
    pub append_unparsable :
        (r : WalRecord) (payload : List ℕ)
        → length rs < 2 ^ 64
        → length payload < 2 ^ 32
        → c.to_vec r ≡ some payload
        → c.from_slice payload ≡ none
        → ((append c (opened c rs h) r).1 ≡ ok (length rs + 1))
          × (open_wal c (append c (opened c rs h) r).0.file
              ≡ err (corrupt (length (log_bytes c 0 rs h)) invalid_record))
    unfolding append write_record open_wal
    append_unparsable r payload fits size written parsed =
        let bytes = record_bytes c (length rs) payload in
        rw (written, append)
          (
            refl,
            rw
                (open_wal_tail bytes (err (corrupt (length (log_bytes c 0 rs h)) invalid_record))
                  (omega arith)
                  (λ n p.
                    replay_loop_invalid crc n _ (length rs) payload rs fits size parsed
                      (omega (arith, length-record_bytes c (length rs) payload))))
                refl,
          )
