-- ===== src/Compression/Gorilla/RoundTrip.antt =====
-- XOR coding is read back, bit for bit.
use Prim.Native.Nat.{bit_or, bit_xor}
use native.Mathlib.Nat.{mod-eq_of_lt, pow-le-pow_right, pow-suc}
use graphite_tsdb.Prelude.{
  ℕ, zero, suc, ◌+◌, ◌-◌, ◌*◌, ◌/◌, ◌%◌, ◌^◌, ◌≤◌, ◌<◌, ◌≡◌, refl, sym, ap, ◌∙◌, arith,
}
use graphite_tsdb.Prelude.{
  some, List, [], ◌∷◌, ◌++◌, append_assoc, leb, ltb, ◌==◌, lt→ltb, true, false, ℕ_discrete,
}
use native.Mathlib.Decide.{dec_le}
use graphite_tsdb.Prelude.{length, length-append, drop, take-append, drop-append, All}
use graphite_tsdb.Prelude.Bits.{bit_xor_zero, bit_xor_cancel, bit_xor-lt, bit_or_shift, two-pow-add}
use graphite_tsdb.Prelude.Bytes.{
  IsByte, IsU64, to_be_bytes, from_be_bytes, be_from, be_from-ge, length-to_be_bytes,
  from_be_bytes-to_be_bytes, drop-to_be_bytes, to_be_bytes-IsByte,
}
use graphite_tsdb.Compression.Gorilla.{
  leading_zeros, trailing_zeros, encode_xor, encode_value, encode_loop, encode,
}
use graphite_tsdb.Compression.Gorilla.{
  read_shifted, decode_significant, decode_whole, decode_value, decode_loop, decode,
}
use graphite_tsdb.Compression.Gorilla.Zeros.{Significant, significant}

-- The loop that shifts bytes in is `from_be_bytes` while nothing is shifted out.
read_shifted-be_from :
    (acc : ℕ) (bs : List ℕ)
    → All IsByte bs
    → be_from acc bs < 2 ^ 64
    → read_shifted acc bs ≡ be_from acc bs
unfolding read_shifted be_from
read_shifted-be_from acc [] h small = refl
read_shifted-be_from acc (b ∷ bs) h small =
    let fits : acc * 2 ^ 8 < 2 ^ 64 = omega (arith, be_from-ge (acc * 256 + b) bs) in
    let joined : bit_or (acc * 2 ^ 8 % 2 ^ 64) b ≡ acc * 256 + b =
      ap (λ (t : ℕ). bit_or t b) (mod-eq_of_lt fits) ∙ bit_or_shift 8 acc b h.0 in
    rw joined (read_shifted-be_from (acc * 256 + b) bs h.1 small)

two-pow-bytes : (n : ℕ) → 256 ^ n ≡ 2 ^ (8 * n)
two-pow-bytes zero = refl
two-pow-bytes (suc n) =
    omega (arith, pow-suc 256 n, two-pow-bytes n, two-pow-add (8 * n) 8)
    ∙ ap (λ (k : ℕ). 2 ^ k) {x = 8 * n + 8} {y = 8 * suc n} (omega arith)

-- How many bytes the significant bits take, and that they fit.
abbrev sig_bits : ℕ → ℕ
sig_bits x = 64 - leading_zeros 64 x - trailing_zeros 64 x

abbrev sig_bytes : ℕ → ℕ
sig_bytes x = (sig_bits x + 7) / 8

sig_bytes-fit : (x q : ℕ) → Significant x q → q < 256 ^ sig_bytes x
sig_bytes-fit x q s =
    let room : 2 ^ sig_bits x ≤ 2 ^ (8 * sig_bytes x) =
      pow-le-pow_right (omega arith) {i = sig_bits x} {j = 8 * sig_bytes x} (omega arith) in
    rw (two-pow-bytes (sig_bytes x)) (omega (arith, s.fits, room))

sig-lt : (x q : ℕ) → Significant x q → q < 2 ^ 64
sig-lt x q s =
    let room : 2 ^ sig_bits x ≤ 2 ^ 64 =
      pow-le-pow_right (omega arith) {i = sig_bits x} {j = 64} (omega arith) in
    omega (arith, s.fits, room)

encode_xor_narrow :
    (x q : ℕ)
    → Significant x q
    → sig_bits x ≤ 48
    → encode_xor x ≡ 1 ∷ leading_zeros 64 x ∷ trailing_zeros 64 x ∷ to_be_bytes (sig_bytes x) q
unfolding encode_xor
encode_xor_narrow x q s h =
    let low : drop (8 - sig_bytes x) (to_be_bytes 8 (x / 2 ^ trailing_zeros 64 x))
        ≡ to_be_bytes (sig_bytes x) q =
      drop-to_be_bytes (8 - sig_bytes x) (sig_bytes x) 8 _ (omega arith)
      ∙ ap (to_be_bytes (sig_bytes x)) s.shifted in
    let small : leb (sig_bits x) 48 ≡ true = ground arith in
    let in_word : ltb (trailing_zeros 64 x) 64 ≡ true = lt→ltb _ _ (omega (arith, s.room)) in
    rw (small, in_word, low) refl

encode_xor_wide : (x : ℕ) → 48 < sig_bits x → encode_xor x ≡ 2 ∷ to_be_bytes 8 x
unfolding encode_xor
encode_xor_wide x h = let large : leb (sig_bits x) 48 ≡ false = ground arith in rw large refl

decode_significant_lem :
    (prev x q : ℕ) (rest : List ℕ)
    → Significant x q
    → x < 2 ^ 64
    → decode_significant prev
        (leading_zeros 64 x ∷ trailing_zeros 64 x ∷ (to_be_bytes (sig_bytes x) q ++ rest))
      ≡ some (bit_xor prev x, rest)
unfolding decode_significant
decode_significant_lem prev x q rest s h =
    let bs = to_be_bytes (sig_bytes x) q in
    let n : length bs ≡ sig_bytes x = length-to_be_bytes (sig_bytes x) q in
    let wrap : (64 + 2 ^ 32 - leading_zeros 64 x - trailing_zeros 64 x) % 2 ^ 32 ≡ sig_bits x =
      omega (arith, s.room) in
    let number : from_be_bytes bs ≡ q =
      from_be_bytes-to_be_bytes (sig_bytes x) q (sig_bytes-fit x q s) in
    let read : read_shifted 0 bs ≡ q =
      unfold from_be_bytes in
      read_shifted-be_from 0 bs (to_be_bytes-IsByte (sig_bytes x) q)
        (omega (arith, number, sig-lt x q s))
      ∙ number in
    let back : q * 2 ^ trailing_zeros 64 x % 2 ^ 64 ≡ x =
      ap (λ (t : ℕ). t % 2 ^ 64) (sym s.restored) ∙ mod-eq_of_lt h in
    rw (wrap, take-append (sig_bytes x) bs rest n, drop-append (sig_bytes x) bs rest n, read, back)
      (ground (arith, length-append bs rest, n, s.room))

decode_whole_lem :
    (prev x : ℕ) (rest : List ℕ)
    → x < 2 ^ 64
    → decode_whole prev (to_be_bytes 8 x ++ rest) ≡ some (bit_xor prev x, rest)
unfolding decode_whole
decode_whole_lem prev x rest h =
    let bs = to_be_bytes 8 x in
    let n : length bs ≡ 8 = length-to_be_bytes 8 x in
    rw (take-append 8 bs rest n, drop-append 8 bs rest n, from_be_bytes-to_be_bytes 8 x h)
      (ground (arith, length-append bs rest, n))

decode_value-encode_xor :
    (prev x : ℕ) (rest : List ℕ)
    → 0 < x
    → x < 2 ^ 64
    → decode_value prev (encode_xor x ++ rest) ≡ some (bit_xor prev x, rest)
unfolding decode_value
decode_value-encode_xor prev x rest p h =
    let (q, s) = significant x p h in
    elim (dec_le (sig_bits x) 48) [
      | yes k ↦ rw (encode_xor_narrow x q s k) (decode_significant_lem prev x q rest s h)
      | no k ↦ rw (encode_xor_wide x (omega arith)) (decode_whole_lem prev x rest h)
    ]

xor_same : (prev cur : ℕ) → bit_xor cur prev ≡ 0 → prev ≡ cur
xor_same prev cur e = sym (bit_xor_zero prev) ∙ ap (bit_xor prev) (sym e) ∙ bit_xor_cancel prev cur

decode_value-encode_value :
    (prev cur : ℕ) (rest : List ℕ)
    → IsU64 prev
    → IsU64 cur
    → decode_value prev (encode_value prev cur ++ rest) ≡ some (cur, rest)
unfolding encode_value
decode_value-encode_value prev cur rest hp hc = elim (ℕ_discrete (bit_xor cur prev) 0) [
  | yes z ↦
      let test : (bit_xor cur prev == 0) ≡ true = ground arith in
      rw test (unfold decode_value in rw (xor_same prev cur z) refl)
  | no z ↦
      let test : (bit_xor cur prev == 0) ≡ false = ground arith in
      rw test (
        decode_value-encode_xor prev (bit_xor cur prev) rest (omega arith)
          (bit_xor-lt 64 cur prev hc hp)
        ∙ ap (λ (t : ℕ). some (t, rest)) (bit_xor_cancel prev cur))
]

decode_loop-encode_loop :
    (vs : List ℕ) (prev : ℕ)
    → IsU64 prev
    → All IsU64 vs
    → decode_loop (length vs) prev (encode_loop prev vs) ≡ vs
unfolding decode_loop encode_loop
decode_loop-encode_loop [] prev hp h = refl
decode_loop-encode_loop (v ∷ vs) prev hp h =
    rw (decode_value-encode_value prev v (encode_loop v vs) hp h.0, decode_loop)
      (ap (λ (t : List ℕ). v ∷ t) (decode_loop-encode_loop vs v h.0 h.1))

-- `decode` reads back, bit for bit, every list of fewer than 2 ^ 32 floats that `encode` wrote.
pub decode-encode_prices :
    (vs : List ℕ) → All IsU64 vs → length vs < 2 ^ 32 → decode (encode vs) ≡ vs
unfolding decode encode
decode-encode_prices [] h small = refl
decode-encode_prices (v ∷ vs) h small =
    let a = to_be_bytes 4 ((length vs + 1) % 2 ^ 32) in
    let b = to_be_bytes 8 v in
    let more = encode_loop v vs in
    let la : length a ≡ 4 = length-to_be_bytes 4 _ in
    let lb : length b ≡ 8 = length-to_be_bytes 8 v in
    let count : from_be_bytes a ≡ length vs + 1 =
      from_be_bytes-to_be_bytes 4 ((length vs + 1) % 2 ^ 32) (omega arith)
      ∙ mod-eq_of_lt (omega arith) in
    let tail : drop 12 (a ++ (b ++ more)) ≡ more =
      rw (← append_assoc a b more)
        (drop-append 12 (a ++ b) more (omega (arith, length-append a b))) in
    let body : decode_loop (length vs) v more ≡ vs = decode_loop-encode_loop vs v h.0 h.1 in
    let one : length vs + 1 - 1 ≡ length vs = omega arith in
    rw
      (
        tail,
        take-append 4 a (b ++ more) la,
        drop-append 4 a (b ++ more) la,
        take-append 8 b more lb,
        count,
        from_be_bytes-to_be_bytes 8 v h.0,
        one,
        body,
      )
      (ground (arith, length-append a (b ++ more), length-append b more))
