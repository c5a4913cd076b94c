-- ===== src/Bloom.antt =====
-- graphite-core/src/bloom.rs: the bloom filter of an SSTable. `none` is a panic. Integer overflow
-- wraps, as in a release build. The two sizing functions compute with `f64`, whose operations are
-- a parameter.
pub mod Membership
pub mod Encoding
mod Examples
use Prim.Native.Nat.{bit_and, bit_or, bit_xor}
use mathlib.Core.List.{foldl}
use graphite_tsdb.Prelude.{ℕ, zero, suc, ◌+◌, ◌-◌, ◌*◌, ◌/◌, ◌%◌, ◌^◌, ◌≤◌, ◌<◌, ◌≡◌, min, max}
use graphite_tsdb.Prelude.{Bool, true, false, not, Option, none, some, List, [], ◌∷◌, ◌++◌}
use graphite_tsdb.Prelude.{
  ltb, leb, ◌==◌, if◌then◌else◌, length, get_elem?, set, slice, drop, replicate, All,
}
use graphite_tsdb.Prelude.Options.{◌>>=◌}
use graphite_tsdb.Prelude.Bytes.{IsU32, IsU64, to_be_bytes, from_be_bytes}

abbrev fnv_offset : ℕ
fnv_offset = 0xcbf29ce484222325

abbrev fnv_prime : ℕ
fnv_prime = 0x100000001b3

unfoldable pub fnv_byte : ℕ → ℕ → ℕ
fnv_byte hash byte = bit_xor hash byte * fnv_prime % 2 ^ 64

unfoldable pub fnv1a : List ℕ → ℕ
unfolding fnv_byte
fnv1a bytes = foldl fnv_byte fnv_offset bytes

pub record BloomFilter : Type 0 where
  pub bits : List ℕ
  pub num_bits : ℕ
  pub num_hashes : ℕ

-- The bit array has the words for `num_bits` bits, and there is a bit at all.
pub record IsBloom (f : BloomFilter) : Type 0 where
  pub has_bits : 0 < f.num_bits
  pub words : length f.bits ≡ (f.num_bits + 63) / 64
  pub word_range : All IsU64 f.bits
  pub bits_range : IsU32 f.num_bits
  pub hashes_range : IsU32 f.num_hashes

-- The `f64` operations of the sizing functions, with their constants.
pub record FloatOps : Type 1 where
  pub F : Type 0
  pub of_usize : ℕ → F
  pub mul : F → F → F
  pub div : F → F → F
  pub neg : F → F
  pub ln : F → F
  pub square : F → F
  pub two : F
  pub e : F
  pub bloom_fpr : F
  -- `x.ceil() as usize` and `x.round() as u32`
  pub ceil_usize : F → ℕ
  pub round_u32 : F → ℕ

module _ (ops : FloatOps) where
  open ops use {F, of_usize, mul, div, neg, ln, square, two, e, bloom_fpr, ceil_usize, round_u32}

  unfoldable pub optimal_num_bits : ℕ → F → ℕ
  optimal_num_bits num_items fpr =
      max (ceil_usize (div (neg (mul (of_usize num_items) (ln fpr))) (mul two (square (ln fpr)))))
        64

  unfoldable pub optimal_num_hashes : ℕ → ℕ → ℕ
  optimal_num_hashes num_bits num_items =
      min (max (round_u32 (mul (mul (div (of_usize num_bits) (of_usize num_items)) two) (ln e))) 1)
        16

  -- `BloomFilter::new`
  unfoldable pub new : ℕ → BloomFilter
  unfolding optimal_num_bits optimal_num_hashes
  new num_items =
      let num_bits = optimal_num_bits num_items bloom_fpr in
      record {
        bits = replicate ((num_bits + 63) / 64) 0;
        num_bits = num_bits;
        num_hashes = optimal_num_hashes num_bits num_items;
      }

-- The remainder by zero panics.
unfoldable pub hash_to_index : ℕ → ℕ → ℕ → Option ℕ
hash_to_index hash i num_bits =
    if num_bits == 0
    then none
    else some ((hash + i * 0x9e3779b97f4a7c15 % 2 ^ 64) % 2 ^ 64 % num_bits)

unfoldable pub set_bit : List ℕ → ℕ → Option (List ℕ)
set_bit bits idx = do
  word ← get_elem? bits (idx / 64)
  some (set bits (idx / 64) (bit_or word (2 ^ (idx % 64))))

pub get_bit : List ℕ → ℕ → Option Bool
get_bit bits idx = do
  word ← get_elem? bits (idx / 64)
  some (not (bit_and word (2 ^ (idx % 64)) == 0))

-- The loop `for i in 0..num_hashes` with `n` rounds left.
unfoldable pub insert_loop : ℕ → ℕ → ℕ → ℕ → List ℕ → Option (List ℕ)
insert_loop zero i hash num_bits bits = some bits
insert_loop (suc n) i hash num_bits bits = do
  bit_idx ← hash_to_index hash i num_bits
  bits' ← set_bit bits bit_idx
  insert_loop n (i + 1) hash num_bits bits'

unfoldable pub insert : BloomFilter → List ℕ → Option BloomFilter
unfolding insert_loop
insert f key = do
  bits ← insert_loop f.num_hashes 0 (fnv1a key) f.num_bits f.bits
  some (record f { bits = bits })

contains_loop : ℕ → ℕ → ℕ → ℕ → List ℕ → Option Bool
contains_loop zero i hash num_bits bits = some true
contains_loop (suc n) i hash num_bits bits =
    let rest = contains_loop n (i + 1) hash num_bits bits in
    do
      bit_idx ← hash_to_index hash i num_bits
      found ← get_bit bits bit_idx
      if found then rest else some false

pub contains : BloomFilter → List ℕ → Option Bool
unfolding contains_loop
contains f key = contains_loop f.num_hashes 0 (fnv1a key) f.num_bits f.bits

-- The filter that a table writer builds: every key in turn.
unfoldable pub insert_all : BloomFilter → List (List ℕ) → Option BloomFilter
insert_all f [] = some f
insert_all f (key ∷ keys) = do f' ← insert f key; insert_all f' keys

unfoldable pub words_to_bytes : List ℕ → List ℕ
words_to_bytes [] = []
words_to_bytes (word ∷ words) = to_be_bytes 8 word ++ words_to_bytes words

unfoldable pub to_bytes : BloomFilter → List ℕ
unfolding words_to_bytes
to_bytes f =
    to_be_bytes 4 (f.num_bits % 2 ^ 32) ++ (to_be_bytes 4 f.num_hashes ++ words_to_bytes f.bits)

-- The words `i`, `i + 1`, … that `from_bytes` fills, `n` of them.
unfoldable pub read_words : List ℕ → ℕ → ℕ → List ℕ
read_words bytes zero i = []
read_words bytes (suc n) i =
    (if leb (i * 8 + 8) (length bytes) then from_be_bytes (slice (i * 8) (i * 8 + 8) bytes) else 0)
    ∷ read_words bytes n (i + 1)

unfoldable pub from_bytes : List ℕ → ℕ → ℕ → BloomFilter
unfolding read_words
from_bytes bytes num_bits num_hashes = record {
  bits = read_words bytes ((num_bits + 63) / 64) 0;
  num_bits = num_bits;
  num_hashes = num_hashes;
}

unfoldable pub from_encoded : List ℕ → Option BloomFilter
unfolding from_bytes
from_encoded bytes =
    if ltb (length bytes) 12
    then none
    else some (
        from_bytes (drop 8 bytes) (from_be_bytes (slice 0 4 bytes))
          (from_be_bytes (slice 4 8 bytes)))
