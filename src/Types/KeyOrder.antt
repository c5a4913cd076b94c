-- ===== src/Types/KeyOrder.antt =====
-- Keys: the byte encoding read back, and the order.
use Prim.Native.Nat.{Ordering}
use graphite_tsdb.Prelude.{ℕ, ◌≡◌, ap, ◌∙◌, ◌↔◌, some, arith}
use graphite_tsdb.Prelude.{
  List, ◌++◌, append_assoc, length, length-append, take-append, drop-append,
}
use graphite_tsdb.Prelude.Bytes.{
  u64_of, i64_of, u64_of-lt, i64_of-u64_of, to_be_bytes, from_be_bytes, length-to_be_bytes,
  from_be_bytes-to_be_bytes,
}
use mathlib.Core.Path.{ap₂}
use graphite_tsdb.Prelude.Int.{ℤ}
use graphite_tsdb.Types.{Key, IsKey, encode, decode, cmp}

pub length-encode : (k : Key) → length (encode k) ≡ 10
unfolding encode
length-encode k =
    length-append (to_be_bytes 2 k.symbol_id) (to_be_bytes 8 (u64_of k.timestamp))
    ∙ omega (arith, length-to_be_bytes 2 k.symbol_id, length-to_be_bytes 8 (u64_of k.timestamp))

decode_fields :
    (xs ys rest : List ℕ)
    → length xs ≡ 2
    → length ys ≡ 8
    → decode (xs ++ (ys ++ rest))
      ≡ some (record { symbol_id = from_be_bytes xs; timestamp = i64_of (from_be_bytes ys) })
unfolding decode
decode_fields xs ys rest hx hy =
    rw
      (take-append 2 xs (ys ++ rest) hx, drop-append 2 xs (ys ++ rest) hx, take-append 8 ys rest hy)
      (ground (arith, length-append xs (ys ++ rest), length-append ys rest))

-- A key in the ranges of its fields is read back from its ten bytes, whatever follows them.
pub decode-encode_key : (k : Key) (rest : List ℕ) → IsKey k → decode (encode k ++ rest) ≡ some k
unfolding encode
decode-encode_key k rest h =
    rw (append_assoc (to_be_bytes 2 k.symbol_id) (to_be_bytes 8 (u64_of k.timestamp)) rest) (
      decode_fields _ _ rest (length-to_be_bytes 2 _) (length-to_be_bytes 8 _)
      ∙ ap₂ (λ (s : ℕ) (t : ℤ). some (record { symbol_id = s; timestamp = t }))
          (from_be_bytes-to_be_bytes 2 k.symbol_id h.symbol)
          (ap i64_of (from_be_bytes-to_be_bytes 8 _ (u64_of-lt k.timestamp))
            ∙ i64_of-u64_of k.timestamp h.time))

-- Two keys compare as equal exactly when they are the same key, and swapping the arguments of the
-- comparison reverses its answer.
pub cmp-eq_iff : (a b : Key) → (cmp a b ≡ Ordering.eq) ↔ (a ≡ b)
unfolding cmp
cmp-eq_iff a b = (λ h. ground arith, λ h. ground arith)

pub cmp_trans :
    (a b c : Key) → cmp a b ≡ Ordering.lt → cmp b c ≡ Ordering.lt → cmp a c ≡ Ordering.lt
unfolding cmp
cmp_trans a b c p q = ground arith

pub cmp_flip : (a b : Key) → (cmp a b ≡ Ordering.lt) ↔ (cmp b a ≡ Ordering.gt)
unfolding cmp
cmp_flip a b = (λ h. ground arith, λ h. ground arith)
