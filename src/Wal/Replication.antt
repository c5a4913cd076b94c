-- ===== src/Wal/Replication.antt =====
-- What a replica reads from the log.
use graphite_tsdb.Prelude.{
  ◌-◌, ℕ, zero, suc, ◌+◌, ◌^◌, ◌≤◌, ◌<◌, ◌≡◌, refl, sym, ap, ◌∙◌, arith, true, false, inl, inr,
}
use graphite_tsdb.Prelude.{
  Option, none, some, List, [], ◌∷◌, ◌++◌, append_assoc, append-nil, leb, ltb, dec_lt,
  if◌then◌else◌, Bool-cases,
}
use graphite_tsdb.Prelude.{length, length-append, All, take, drop}
use graphite_tsdb.Types.{WalRecord}
use graphite_tsdb.Wal.{
  Wal, Codec, Result, ok, record_bytes, read_frame, append_batch, parse_record, replication_loop,
  read_for_replication, includes, open_wal, truncate,
}
use graphite_tsdb.Wal.Frames.{IsStorable, HasCrc32, read_frame-record_bytes, log_bytes}
use graphite_tsdb.Wal.Recovery.{opened, append_batch-written, open_wal-log_bytes, length-log_bytes}

-- The records, each with its number, the first of which is `first`.
unfoldable pub numbered : ℕ → List WalRecord → List (ℕ × WalRecord)
numbered first [] = []
numbered first (r ∷ rs) = (first, r) ∷ numbered (first + 1) rs

-- How many records a replica has that names the last one it has, if it has any.
abbrev pub count_of : Option ℕ → ℕ
count_of none = 0
count_of (some last) = suc last

-- The records of a log from the sequence number `first` on that the code sends.
unfoldable sent : Option ℕ → ℕ → List WalRecord → List (ℕ × WalRecord)
sent after first [] = []
sent after first (r ∷ rs) =
    if includes after first
    then (first, r) ∷ sent after (first + 1) rs
    else sent after (first + 1) rs

drop_zero : {A : Type 0} (n : ℕ) (xs : List A) → n ≡ 0 → drop n xs ≡ xs
drop_zero zero xs h = refl
drop_zero (suc n) xs h = absurd (omega (arith, h))

drop_more : {A : Type 0} (n m : ℕ) (x : A) (xs : List A) → n ≡ suc m → drop n (x ∷ xs) ≡ drop m xs
drop_more n m x xs h = ap (λ (i : ℕ). drop i (x ∷ xs)) h

sent_lem :
    (after : Option ℕ) (first : ℕ) (rs : List WalRecord)
    → sent after first rs ≡ drop (count_of after - first) (numbered first rs)
unfolding sent numbered includes
sent_lem after first [] = sym (drop_nil (count_of after - first))
  where
    drop_nil : (n : ℕ) → drop {A = ℕ × WalRecord} n [] ≡ []
    drop_nil zero = refl
    drop_nil (suc n) = refl
sent_lem none first (r ∷ rs) =
    ap (λ xs. (first, r) ∷ xs)
      (sent_lem none (first + 1) rs ∙ drop_zero (0 - (first + 1)) _ (omega arith))
    ∙ sym (drop_zero (0 - first) _ (omega arith))
sent_lem (some last) first (r ∷ rs) = elim (dec_lt last first) [
  | yes new ↦
      let is : ltb last first ≡ true = ground arith in
      rw is (
        ap (λ xs. (first, r) ∷ xs)
          (sent_lem (some last) (first + 1) rs ∙ drop_zero (suc last - (first + 1)) _ (omega arith))
        ∙ sym (drop_zero (suc last - first) _ (omega arith)))
  | no old ↦
      let is : ltb last first ≡ false = ground arith in
      rw is (
        sent_lem (some last) (first + 1) rs
        ∙ sym (drop_more (suc last - first) (suc last - (first + 1)) _ _ (omega arith)))
]

take_nil : {A : Type 0} (k : ℕ) → take {A = A} k [] ≡ []
take_nil zero = refl
take_nil (suc k) = refl

module _ (c : Codec) (crc : HasCrc32 c) (after : Option ℕ) (limit : ℕ) where
  replication_loop_full :
      (n offset : ℕ) (rest : List ℕ) (results : List (ℕ × WalRecord))
      → limit ≤ length results
      → replication_loop c n after limit offset rest results ≡ ok results
  unfolding replication_loop
  replication_loop_full zero offset rest results h = refl
  replication_loop_full (suc n) offset rest results h = ground arith

  replication_loop_end :
      (n offset : ℕ) (results : List (ℕ × WalRecord))
      → replication_loop c n after limit offset [] results ≡ ok results
  unfolding replication_loop read_frame
  replication_loop_end zero offset results = refl
  replication_loop_end (suc n) offset results = elim (dec_lt (length results) limit) [
    | yes room ↦ ground arith
    | no full ↦ replication_loop_full (suc n) offset [] results (omega arith)
  ]

  module _ (r : WalRecord) (s : IsStorable c r) (n first offset : ℕ) (rest : List ℕ)
      (results : List (ℕ × WalRecord)) (room : length results < limit) (fits : first < 2 ^ 64) where
    replication_step_wanted :
        includes after first ≡ true
        → replication_loop c
            (suc n)
            after
            limit
            offset
            (record_bytes c first s.payload ++ rest)
            results
          ≡ replication_loop c n after limit
              (offset + (22 + length s.payload))
              rest
              (results ++ ((first, r) ∷ []))
    unfolding replication_loop parse_record
    replication_step_wanted lacks =
        let found = read_frame-record_bytes c crc offset first s.payload rest fits s.size in
        let less : leb limit (length results) ≡ false = ground arith in
        rw (less, replication_loop)
          (rw (found, replication_loop)
            (rw (lacks, replication_loop) (rw (s.parsed, replication_loop, parse_record) refl)))

    replication_step_skipped :
        includes after first ≡ false
        → replication_loop c
            (suc n)
            after
            limit
            offset
            (record_bytes c first s.payload ++ rest)
            results
          ≡ replication_loop c n after limit (offset + (22 + length s.payload)) rest results
    unfolding replication_loop
    replication_step_skipped has =
        let found = read_frame-record_bytes c crc offset first s.payload rest fits s.size in
        let less : leb limit (length results) ≡ false = ground arith in
        rw (less, replication_loop) (rw (found, replication_loop) (rw (has, replication_loop) refl))

  take_none : {A : Type 0} (k : ℕ) (xs : List A) → k ≡ 0 → take k xs ≡ []
  take_none k xs h = ap (λ (j : ℕ). take j xs) h

  take_more :
      {A : Type 0} (k j : ℕ) (x : A) (xs results : List A)
      → k ≡ suc j
      → (results ++ (x ∷ [])) ++ take j xs ≡ results ++ take k (x ∷ xs)
  take_more k j x xs results h =
      append_assoc results (x ∷ []) (take j xs) ∙ ap (λ (i : ℕ). results ++ take i (x ∷ xs)) (sym h)

  replication_loop-log_bytes :
      (rs : List WalRecord) (h : All (IsStorable c) rs) (n first offset : ℕ)
      (results : List (ℕ × WalRecord))
      → length rs ≤ n
      → first + length rs ≤ 2 ^ 64
      → replication_loop c n after limit offset (log_bytes c first rs h) results
        ≡ ok (results ++ take (limit - length results) (sent after first rs))
  unfolding log_bytes sent
  replication_loop-log_bytes [] h n first offset results e fits =
      replication_loop_end n offset results
      ∙ ap ok (
          sym (
            ap (λ (t : List (ℕ × WalRecord)). results ++ t) (take_nil (limit - length results))
            ∙ append-nil results))
  replication_loop-log_bytes (r ∷ rs) h zero first offset results e fits = absurd (omega arith)
  replication_loop-log_bytes (r ∷ rs) h (suc n) first offset results e fits =
      elim (dec_lt (length results) limit) [
        | no full ↦
            replication_loop_full (suc n) offset _ results (omega arith)
            ∙ ap ok (
                sym (
                  ap (λ (t : List (ℕ × WalRecord)). results ++ t)
                    (take_none (limit - length results) _ (omega arith))
                  ∙ append-nil results))
        | yes room ↦ elim (Bool-cases (includes after first)) [
          | inl lacks ↦
              replication_step_wanted r h.0 n first offset _ results room (omega arith) lacks
              ∙ replication_loop-log_bytes rs h.1 n (first + 1) _ (results ++ ((first, r) ∷ []))
                  (omega arith) (omega arith)
              ∙ ap ok (
                  take_more (limit - length results) _ (first, r) (sent after (first + 1) rs)
                    results (omega (arith, length-append results ((first, r) ∷ [])))
                  ∙ ap (λ (t : List (ℕ × WalRecord)). results ++ take (limit - length results) t)
                      (rw (lacks, sent) refl))
          | inr has ↦
              replication_step_skipped r h.0 n first offset _ results room (omega arith) has
              ∙ replication_loop-log_bytes rs h.1 n (first + 1) _ results (omega arith)
                  (omega arith)
              ∙ ap ok (
                  ap (λ (t : List (ℕ × WalRecord)). results ++ take (limit - length results) t)
                    (rw (has, sent) refl))
        ]
      ]

  -- A replica asks for at most `limit` records behind the ones it has applied. From a log of
  -- at most 2 ^ 64 records that serialize and are parsed back, numbered from 0 on, it gets the first
  -- `limit` of those that are left behind the one it names, or of all when it names none, in order
  -- and each with its number.
  pub read_for_replication_lem :
      (rs : List WalRecord) (h : All (IsStorable c) rs)
      → length rs ≤ 2 ^ 64
      → read_for_replication c (opened c rs h) after limit
        ≡ ok (take limit (drop (count_of after) (numbered 0 rs)))
  unfolding read_for_replication
  read_for_replication_lem rs h fits =
      replication_loop-log_bytes rs h _ 0 0 [] (omega (arith, length-log_bytes c 0 rs h))
        (omega arith)
      ∙ ap (λ (k : ℕ). ok (take k (sent after 0 rs))) {x = limit - 0} {y = limit} (omega arith)
      ∙ ap (λ xs. ok (take limit xs)) (sent_lem after 0 rs)
      ∙ ap (λ (k : ℕ). ok (take limit (drop k (numbered 0 rs)))) {x = count_of after - 0}
          {y = count_of after} (omega arith)

drop_all : (n first : ℕ) (rs : List WalRecord) → length rs ≤ n → drop n (numbered first rs) ≡ []
unfolding numbered
drop_all zero first [] h = refl
drop_all (suc n) first [] h = refl
drop_all zero first (r ∷ rs) h = absurd (omega (arith, h))
drop_all (suc n) first (r ∷ rs) h = drop_all n (first + 1) rs (omega arith)

-- After a truncation and a restart the sequence numbers start from 0 again: the truncated log
-- opens as an empty one, and of the records that are appended then a replica that has applied the
-- records up to `last` gets none, up to the first `last + 1` of them. The records serialize and
-- are parsed back.
pub truncate_restarts :
    (c : Codec)
    → HasCrc32 c
    → (w : Wal) (rs : List WalRecord) (h : All (IsStorable c) rs) (last limit : ℕ)
    → length rs ≤ suc last
    → length rs ≤ 2 ^ 64
    → (open_wal c (truncate w).file ≡ ok (opened c [] tt))
      × (read_for_replication c (append_batch c (opened c [] tt) rs).0 (some last) limit ≡ ok [])
unfolding truncate log_bytes read_for_replication
truncate_restarts c crc w rs h last limit few fits =
    let behind : read_for_replication c (opened c rs h) (some last) limit ≡ ok [] =
      read_for_replication_lem c crc (some last) limit rs h fits
      ∙ ap ok (ap (take limit) (drop_all (suc last) 0 rs few) ∙ take_nil limit) in
    (
      open_wal-log_bytes c crc [] tt (omega arith),
      ap (λ (p : Wal × Result ℕ). read_for_replication c p.0 (some last) limit)
            (append_batch-written c (opened c [] tt) rs h)
          ∙ behind,
    )
