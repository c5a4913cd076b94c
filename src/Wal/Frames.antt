-- ===== src/Wal/Frames.antt =====
-- One record of the log: what is written is read back, and the log as a list of such records.
use native.Mathlib.Nat.{mod-eq_of_lt}
use graphite_tsdb.Prelude.{ℕ, ◌+◌, ◌%◌, ◌^◌, ◌<◌, ◌≡◌, refl, ◌∙◌, arith}
use graphite_tsdb.Prelude.{some, List, [], ◌∷◌, ◌++◌, append_assoc}
use graphite_tsdb.Prelude.{length, length-append, take-append, drop-append, All}
use graphite_tsdb.Prelude.Bytes.{
  to_be_bytes, from_be_bytes, length-to_be_bytes, from_be_bytes-to_be_bytes,
}
use graphite_tsdb.Types.{WalRecord}
use graphite_tsdb.Wal.{
  magic, version, Codec, ok, read_exact, frame, record_bytes, read_body, read_frame,
}

pub read_exact-append :
    (n : ℕ) (xs rest : List ℕ) → length xs ≡ n → read_exact n (xs ++ rest) ≡ ok (xs, rest)
unfolding read_exact
read_exact-append n xs rest h =
    rw (take-append n xs rest h, drop-append n xs rest h) (ground (arith, length-append xs rest))

module _ (c : Codec) where
  -- A record that serializes to fewer than 2 ^ 32 bytes, which are read back as the record.
  pub record IsStorable (r : WalRecord) : Type 0 where
    pub payload : List ℕ
    pub written : c.to_vec r ≡ some payload
    pub parsed : c.from_slice payload ≡ some r
    pub size : length payload < 2 ^ 32

  -- The checksum is a 32-bit number.
  abbrev pub HasCrc32 : Type 0
  HasCrc32 = (payload : List ℕ) → c.crc32 payload < 2 ^ 32

  pub length-record_bytes :
      (seq : ℕ) (payload : List ℕ) → length (record_bytes c seq payload) ≡ 22 + length payload
  unfolding record_bytes
  length-record_bytes seq payload = simp (length-append, length-to_be_bytes) (omega arith)

  pub read_frame-magic :
      (offset : ℕ) (body : List ℕ)
      → read_frame c offset (to_be_bytes 4 magic ++ body) ≡ read_body c offset body
  unfolding read_frame
  read_frame-magic offset body =
      let m = to_be_bytes 4 magic in
      let n : length m ≡ 4 = length-to_be_bytes 4 magic in
      rw
        (
          take-append 4 m body n,
          drop-append 4 m body n,
          from_be_bytes-to_be_bytes 4 magic (omega arith),
        )
        (ground (arith, length-append m body, n))

  module _ (crc : HasCrc32) where
    read_body_lem :
        (offset seq : ℕ) (payload rest : List ℕ)
        → seq < 2 ^ 64
        → length payload < 2 ^ 32
        → read_body c offset (
            to_be_bytes 2 version
            ++ (to_be_bytes 4 (c.crc32 payload)
                ++ (to_be_bytes 4 (length payload % 2 ^ 32)
                    ++ (to_be_bytes 8 seq ++ (payload ++ rest)))))
          ≡ ok (frame seq payload rest)
    unfolding read_body
    read_body_lem offset seq payload rest hs hp =
        let len : from_be_bytes (to_be_bytes 4 (length payload % 2 ^ 32)) ≡ length payload =
          from_be_bytes-to_be_bytes 4 (length payload % 2 ^ 32) (omega arith) ∙ mod-eq_of_lt hp in
        rw
          (
            read_exact-append 2 (to_be_bytes 2 version) _ (length-to_be_bytes 2 version),
            from_be_bytes-to_be_bytes 2 version (omega arith),
            read_exact-append 4 (to_be_bytes 4 (c.crc32 payload)) _ (length-to_be_bytes 4 _),
            read_exact-append 4 (to_be_bytes 4 (length payload % 2 ^ 32)) _
                (length-to_be_bytes 4 _),
            read_exact-append 8 (to_be_bytes 8 seq) _ (length-to_be_bytes 8 seq),
            len,
            read_exact-append (length payload) payload rest refl,
            from_be_bytes-to_be_bytes 4 (c.crc32 payload) (crc payload),
            from_be_bytes-to_be_bytes 8 seq hs,
          )
          (ground arith)

    -- A written record is read back with its sequence number, whatever follows it.
    pub read_frame-record_bytes :
        (offset seq : ℕ) (payload rest : List ℕ)
        → seq < 2 ^ 64
        → length payload < 2 ^ 32
        → read_frame c offset (record_bytes c seq payload ++ rest) ≡ ok (frame seq payload rest)
    read_frame-record_bytes offset seq payload rest hs hp =
        unfold record_bytes in
        simp append_assoc (read_frame-magic offset _ ∙ read_body_lem offset seq payload rest hs hp)

  -- The file of a log whose records have the sequence numbers `first`, `first + 1`, ….
  unfoldable pub log_bytes : ℕ → (rs : List WalRecord) → All IsStorable rs → List ℕ
  log_bytes first [] h = []
  log_bytes first (r ∷ rs) h = record_bytes c first h.0.payload ++ log_bytes (first + 1) rs h.1

  unfoldable pub IsStorable-append :
      (old rs : List WalRecord)
      → All IsStorable old
      → All IsStorable rs
      → All IsStorable (old ++ rs)
  IsStorable-append [] rs ho hr = hr
  IsStorable-append (r ∷ old) rs ho hr = (ho.0, IsStorable-append old rs ho.1 hr)
