-- ===== src/Compression/Rle/Runs.antt =====
-- Run-length coding is read back.
use native.Mathlib.Nat.{mod-eq_of_lt}
use native.Mathlib.Numerals.{add-one}
use graphite_tsdb.Prelude.{
  ℕ, zero, suc, ◌+◌, ◌-◌, ◌%◌, ◌^◌, ◌≤◌, ◌<◌, ◌≡◌, refl, sym, ap, ◌∙◌, arith,
}
use graphite_tsdb.Prelude.{List, [], ◌∷◌, ◌++◌, append_assoc, append-nil}
use graphite_tsdb.Prelude.{
  length, length-append, length-drop, length-replicate, drop, replicate, take-append, drop-append,
  All,
}
use graphite_tsdb.Prelude.Bytes.{
  IsU64, to_be_bytes, from_be_bytes, length-to_be_bytes, from_be_bytes-to_be_bytes,
}
use graphite_tsdb.Compression.Rle.{
  run_length, rle_encode_loop, rle_encode, rle_decode_loop, rle_decode,
}

run_length-le : (val : ℕ) (vs : List ℕ) → run_length val vs ≤ length vs
unfolding run_length
run_length-le val [] = omega arith
run_length-le val (v ∷ vs) = ground (arith, run_length-le val vs)

-- A run and what follows it are the list.
replicate-run_length :
    (val : ℕ) (vs : List ℕ) → replicate (run_length val vs) val ++ drop (run_length val vs) vs ≡ vs
unfolding run_length
replicate-run_length val [] = refl
replicate-run_length val (v ∷ vs) = ground (arith, replicate-run_length val vs)

All-drop : (n : ℕ) (vs : List ℕ) → All IsU64 vs → All IsU64 (drop n vs)
All-drop zero vs h = h
All-drop (suc n) [] h = h
All-drop (suc n) (v ∷ vs) h = All-drop n vs h.1

-- One round of the decoder on a run that is written out.
decode_round :
    (fuel run val : ℕ) (more result : List ℕ) (total : ℕ)
    → run < 2 ^ 32
    → IsU64 val
    → length result < total
    → rle_decode_loop
        (suc fuel)
        (to_be_bytes 4 (run % 2 ^ 32) ++ (to_be_bytes 8 val ++ more))
        result
        total
      ≡ rle_decode_loop fuel more (result ++ replicate run val) total
unfolding rle_decode_loop
decode_round fuel run val more result total hr hv ht =
    let a = to_be_bytes 4 (run % 2 ^ 32) in
    let b = to_be_bytes 8 val in
    let la : length a ≡ 4 = length-to_be_bytes 4 _ in
    let lb : length b ≡ 8 = length-to_be_bytes 8 val in
    let tail : drop 12 (a ++ (b ++ more)) ≡ more =
      rw (← append_assoc a b more)
        (drop-append 12 (a ++ b) more (omega (arith, length-append a b))) in
    let er : from_be_bytes a ≡ run =
      from_be_bytes-to_be_bytes 4 (run % 2 ^ 32) (omega arith) ∙ mod-eq_of_lt hr in
    rw
      (
        tail,
        take-append 4 a (b ++ more) la,
        drop-append 4 a (b ++ more) la,
        take-append 8 b more lb,
        er,
        from_be_bytes-to_be_bytes 8 val hv,
      )
      (ground (arith, length-append a (b ++ more), length-append b more))

rle_decode_loop-rle_encode_loop :
    (fuel : ℕ) (vs : List ℕ) (rounds : ℕ) (result : List ℕ) (total : ℕ)
    → length vs ≤ fuel
    → length (rle_encode_loop fuel vs) ≤ rounds
    → total ≡ length result + length vs
    → total < 2 ^ 32
    → All IsU64 vs
    → rle_decode_loop rounds (rle_encode_loop fuel vs) result total ≡ result ++ vs
unfolding rle_encode_loop
rle_decode_loop-rle_encode_loop zero [] zero result total hf hr ht small h =
    unfold rle_decode_loop in sym (append-nil result)
rle_decode_loop-rle_encode_loop zero [] (suc rounds) result total hf hr ht small h =
    unfold rle_decode_loop in sym (append-nil result)
rle_decode_loop-rle_encode_loop zero (v ∷ vs) rounds result total hf hr ht small h =
    absurd (omega arith)
rle_decode_loop-rle_encode_loop (suc fuel) [] zero result total hf hr ht small h =
    unfold rle_decode_loop in sym (append-nil result)
rle_decode_loop-rle_encode_loop (suc fuel) [] (suc rounds) result total hf hr ht small h =
    unfold rle_decode_loop in sym (append-nil result)
rle_decode_loop-rle_encode_loop (suc fuel) (val ∷ rest) zero result total hf hr ht small h =
    absurd (
      omega (
        arith,
        length-append (to_be_bytes 4 ((run_length val rest + 1) % 2 ^ 32))
            (to_be_bytes 8 val ++ rle_encode_loop fuel (drop (run_length val rest) rest)),
        length-to_be_bytes 4 ((run_length val rest + 1) % 2 ^ 32),
      ))
rle_decode_loop-rle_encode_loop (suc fuel) (val ∷ rest) (suc rounds) result total hf hr ht small h =
    let k = run_length val rest in
    let later = drop k rest in
    let more = rle_encode_loop fuel later in
    let kr : k ≤ length rest = run_length-le val rest in
    let ll : length later ≡ length rest - k = length-drop k rest in
    let run_eq : replicate (k + 1) val ++ later ≡ val ∷ rest =
      rw add-one (ap (λ (t : List ℕ). val ∷ t) (replicate-run_length val rest)) in
    decode_round rounds (k + 1) val more result total (omega arith) h.0 (omega arith)
    ∙ rle_decode_loop-rle_encode_loop fuel later rounds (result ++ replicate (k + 1) val) total
        (omega arith)
        (omega (
          arith,
          hr,
          length-append (to_be_bytes 4 ((k + 1) % 2 ^ 32)) (to_be_bytes 8 val ++ more),
          length-append (to_be_bytes 8 val) more,
          length-to_be_bytes 4 ((k + 1) % 2 ^ 32),
        ))
        (omega (arith, length-append result (replicate (k + 1) val), length-replicate (k + 1) val))
        small (All-drop k rest h.1)
    ∙ append_assoc result (replicate (k + 1) val) later
    ∙ ap (λ (t : List ℕ). result ++ t) run_eq

-- `rle_decode` reads back every list of fewer than 2 ^ 32 64-bit volumes that `rle_encode` wrote.
pub rle_decode-rle_encode :
    (vs : List ℕ) → All IsU64 vs → length vs < 2 ^ 32 → rle_decode (rle_encode vs) ≡ vs
rle_decode-rle_encode vs h small =
    let head = to_be_bytes 4 (length vs % 2 ^ 32) in
    let body = rle_encode_loop (length vs) vs in
    let count : from_be_bytes head ≡ length vs =
      from_be_bytes-to_be_bytes 4 (length vs % 2 ^ 32) (omega arith) ∙ mod-eq_of_lt small in
    let runs : rle_decode_loop (length (head ++ body)) body [] (length vs) ≡ vs =
      rle_decode_loop-rle_encode_loop (length vs) vs _ [] (length vs) (omega arith)
        (omega (arith, length-append head body)) (omega arith) small h in
    unfold rle_decode rle_encode in
    rw
      (
        take-append 4 head body (length-to_be_bytes 4 _),
        drop-append 4 head body (length-to_be_bytes 4 _),
        count,
        runs,
      )
      (ground (arith, length-append head body, length-to_be_bytes 4 (length vs % 2 ^ 32)))
