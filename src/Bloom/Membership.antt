-- ===== src/Bloom/Membership.antt =====
-- The filter has no false negatives.
use Prim.Native.Nat.{bit_or}
use native.Mathlib.Nat.{one-le-pow, mod-lt, pow-le-pow_right}
use graphite_tsdb.Prelude.{
  ℕ, zero, suc, ◌+◌, ◌*◌, ◌/◌, ◌%◌, ◌^◌, ◌≤◌, ◌<◌, ◌≡◌, ◌≢◌, refl, ap, ◌∙◌, arith,
}
use graphite_tsdb.Prelude.{true, false, none, some, List, [], ◌∷◌, ◌⊎◌, inl, inr, ℕ_discrete}
use graphite_tsdb.Prelude.{
  length, get_elem?, set, All, length-set, get_elem?-set_self, get_elem?-set_ne, Option-cases,
}
use graphite_tsdb.Prelude.Bits.{
  nth_bit, nth_bit-lt, nth_bit-bit_or, nth_bit-pow, bit_and-pow, bit_or-lt,
}
use graphite_tsdb.Prelude.Bytes.{IsU64}
use graphite_tsdb.Bloom.{BloomFilter, IsBloom, fnv1a, hash_to_index, set_bit, get_bit}
use graphite_tsdb.Bloom.{insert_loop, insert, contains_loop, contains, insert_all}

-- Bit `idx` stands in the array and is 1.
abbrev HasBit : List ℕ → ℕ → Type 0
HasBit bits idx = (w : ℕ) × (get_elem? bits (idx / 64) ≡ some w) × (nth_bit (idx % 64) w ≡ 1)

HasBit→get_bit : (bits : List ℕ) (idx : ℕ) → HasBit bits idx → get_bit bits idx ≡ some true
unfolding get_bit
HasBit→get_bit bits idx (w, e, one) =
    ground (arith, bit_and-pow (idx % 64) w, one-le-pow (idx % 64) 2)

get_bit→HasBit : (bits : List ℕ) (idx : ℕ) → get_bit bits idx ≡ some true → HasBit bits idx
unfolding get_bit
get_bit→HasBit bits idx h = elim (Option-cases (get_elem? bits (idx / 64))) [
  | inl e ↦ absurd (ground arith)
  | inr (w, e) ↦ (w, e, ground (arith, bit_and-pow (idx % 64) w, nth_bit-lt (idx % 64) w))
]

get_bit-cases :
    (bits : List ℕ) (idx : ℕ) → (get_bit bits idx ≡ some true) ⊎ (get_bit bits idx ≢ some true)
unfolding get_bit
get_bit-cases bits idx = elim (get_bit bits idx) as (λ o. (o ≡ some true) ⊎ (o ≢ some true)) [
  | none ↦ inr (λ e. cc)
  | some true ↦ inl refl
  | some false ↦ inr (λ e. cc)
]

get_elem?-of_lt : (bits : List ℕ) (i : ℕ) → i < length bits → (w : ℕ) × (get_elem? bits i ≡ some w)
get_elem?-of_lt [] i h = absurd (omega arith)
get_elem?-of_lt (x ∷ xs) zero h = (x, refl)
get_elem?-of_lt (x ∷ xs) (suc i) h = get_elem?-of_lt xs i (omega arith)

lt_of_get_elem? : (bits : List ℕ) (i w : ℕ) → get_elem? bits i ≡ some w → i < length bits
lt_of_get_elem? [] i w h = cc
lt_of_get_elem? (x ∷ xs) zero w h = omega arith
lt_of_get_elem? (x ∷ xs) (suc i) w h = omega (arith, lt_of_get_elem? xs i w h)

All-get_elem? : (bits : List ℕ) (i w : ℕ) → All IsU64 bits → get_elem? bits i ≡ some w → IsU64 w
All-get_elem? [] i w h e = absurd (cc)
All-get_elem? (x ∷ xs) zero w h e = ground arith
All-get_elem? (x ∷ xs) (suc i) w h e = All-get_elem? xs i w h.1 e

All-set : (bits : List ℕ) (i v : ℕ) → All IsU64 bits → IsU64 v → All IsU64 (set bits i v)
All-set [] i v h p = tt
All-set (x ∷ xs) zero v h p = (p, h.1)
All-set (x ∷ xs) (suc i) v h p = (h.0, All-set xs i v h.1 p)

-- What a step of the filter's construction keeps: the array's size and range, and every bit set.
record Grows (bits bits' : List ℕ) : Type 0 where
  size : length bits' ≡ length bits
  range : All IsU64 bits'
  keeps : (j : ℕ) → HasBit bits j → HasBit bits' j

Grows-trans : {a b c : List ℕ} → Grows a b → Grows b c → Grows a c
Grows-trans g h = record {
  size = h.size ∙ g.size;
  range = h.range;
  keeps = λ j s. h.keeps j (g.keeps j s);
}

HasBit-set :
    (bits : List ℕ) (idx w : ℕ)
    → get_elem? bits (idx / 64) ≡ some w
    → (j : ℕ) → HasBit bits j
    → HasBit (set bits (idx / 64) (bit_or w (2 ^ (idx % 64)))) j
HasBit-set bits idx w e j (v, ev, one) = elim (ℕ_discrete (idx / 64) (j / 64)) [
  | yes same ↦ (
    bit_or w (2 ^ (idx % 64)),
    rw (← same) (get_elem?-set_self bits (idx / 64) _ (lt_of_get_elem? bits (idx / 64) w e)),
    ground (
      arith,
      nth_bit-bit_or (j % 64) w (2 ^ (idx % 64)),
      nth_bit-lt (j % 64) (2 ^ (idx % 64)),
      ap (get_elem? bits) same,
    ),
  )
  | no other ↦ (v, get_elem?-set_ne bits _ other ∙ ev, one)
]

two-pow-lt : (k : ℕ) → k < 64 → 2 ^ k < 2 ^ 64
two-pow-lt k h =
    omega (arith, pow-le-pow_right {n = 2} (omega arith) {i = k} {j = 63} (omega arith))

set_bit_lem :
    (bits : List ℕ) (idx : ℕ)
    → idx / 64 < length bits
    → All IsU64 bits
    → (bits' : List ℕ) × (set_bit bits idx ≡ some bits') × Grows bits bits' × HasBit bits' idx
unfolding set_bit
set_bit_lem bits idx h range =
    let (w, e) = get_elem?-of_lt bits (idx / 64) h in
    let word = bit_or w (2 ^ (idx % 64)) in
    (
      set bits (idx / 64) word,
      rw e,
      record {
        size = length-set bits (idx / 64) word;
        range = All-set bits (idx / 64) word range (
            bit_or-lt 64 w (2 ^ (idx % 64)) (All-get_elem? bits (idx / 64) w range e)
              (two-pow-lt (idx % 64) (omega arith)));
        keeps = HasBit-set bits idx w e;
      },
      (
        word,
        get_elem?-set_self bits (idx / 64) word h,
        omega (
          arith,
          nth_bit-bit_or (idx % 64) w (2 ^ (idx % 64)),
          nth_bit-pow (idx % 64),
          nth_bit-lt (idx % 64) w,
        ),
      ),
    )

hash_to_index-lt :
    (hash i nb : ℕ) → 0 < nb → (k : ℕ) × (hash_to_index hash i nb ≡ some k) × (k < nb)
unfolding hash_to_index
hash_to_index-lt hash i nb h =
    let k = (hash + i * 0x9e3779b97f4a7c15 % 2 ^ 64) % 2 ^ 64 % nb in (k, ground arith, mod-lt _ h)

insert_loop_lem :
    (n i hash nb : ℕ) (bits : List ℕ)
    → 0 < nb
    → nb ≤ 64 * length bits
    → All IsU64 bits
    → (bits' : List ℕ) × (insert_loop n i hash nb bits ≡ some bits')
      × Grows bits bits'
      × (contains_loop n i hash nb bits' ≡ some true)
unfolding insert_loop contains_loop
insert_loop_lem zero i hash nb bits h fits range =
    (bits, refl, record { size = refl; range = range; keeps = λ j s. s }, refl)
insert_loop_lem (suc n) i hash nb bits h fits range =
    let (k, ek, hk) = hash_to_index-lt hash i nb h in
    let (b1, e1, g1, s1) = set_bit_lem bits k (omega arith) range in
    let (b2, e2, g2, c2) =
      insert_loop_lem n (i + 1) hash nb b1 h (omega (arith, g1.size)) g1.range in
    (b2, rw (ek, e1) e2, Grows-trans g1 g2, rw (ek, HasBit→get_bit b2 k (g2.keeps k s1)) c2)

contains_loop-Grows :
    (n i hash nb : ℕ) {a b : List ℕ}
    → Grows a b
    → contains_loop n i hash nb a ≡ some true
    → contains_loop n i hash nb b ≡ some true
unfolding contains_loop
contains_loop-Grows zero i hash nb g h = refl
contains_loop-Grows (suc n) i hash nb {a} {b} g h = elim (Option-cases (hash_to_index hash i nb)) [
  | inl e ↦ absurd (ground arith)
  | inr (k, e) ↦ elim (get_bit-cases a k) [
    | inl s ↦
        rw (e, HasBit→get_bit b k (g.keeps k (get_bit→HasBit a k s)))
          (contains_loop-Grows n (i + 1) hash nb g (rw (e, s) at h))
    | inr f ↦ absurd (ground arith)
  ]
]

-- What an insertion leaves: a well-formed filter of the same shape that has more bits set.
record Extends (f g : BloomFilter) : Type 0 where
  same_bits : g.num_bits ≡ f.num_bits
  same_hashes : g.num_hashes ≡ f.num_hashes
  grows : Grows f.bits g.bits

Extends-IsBloom : {f g : BloomFilter} → IsBloom f → Extends f g → IsBloom g
Extends-IsBloom v x = record {
  has_bits = rw x.same_bits v.has_bits;
  words = rw x.same_bits (x.grows.size ∙ v.words);
  word_range = x.grows.range;
  bits_range = rw x.same_bits v.bits_range;
  hashes_range = rw x.same_hashes v.hashes_range;
}

insert_lem :
    (f : BloomFilter) (key : List ℕ)
    → IsBloom f
    → (g : BloomFilter) × (insert f key ≡ some g) × Extends f g × (contains g key ≡ some true)
unfolding insert contains
insert_lem f key v =
    let (bits, e, g, c) =
      insert_loop_lem f.num_hashes 0 (fnv1a key) f.num_bits f.bits v.has_bits
        (omega (arith, v.words)) v.word_range in
    (record f { bits = bits }, rw e, record { same_bits = refl; same_hashes = refl; grows = g }, c)

contains-Extends :
    {f g : BloomFilter} (key : List ℕ)
    → Extends f g
    → contains f key ≡ some true
    → contains g key ≡ some true
unfolding contains
contains-Extends key x h = rw (x.same_hashes, x.same_bits) (contains_loop-Grows _ 0 _ _ x.grows h)

-- Inserting a key into a well-formed filter does not panic and gives a well-formed filter that
-- contains the key, and every key that the filter contained before.
pub contains-insert :
    (f : BloomFilter) (key : List ℕ)
    → IsBloom f
    → (g : BloomFilter) × (insert f key ≡ some g)
      × IsBloom g
      × (contains g key ≡ some true)
      × ((other : List ℕ) → contains f other ≡ some true → contains g other ≡ some true)
contains-insert f key v =
    let (g, e, x, c) = insert_lem f key v in
    (g, e, Extends-IsBloom v x, c, λ other. contains-Extends other x)

-- A table's filter has no false negatives: inserting any keys in turn into a well-formed filter
-- does not panic, and the filter that results is well formed and contains every one of them.
pub contains-insert_all :
    (f : BloomFilter) (keys : List (List ℕ))
    → IsBloom f
    → (g : BloomFilter) × (insert_all f keys ≡ some g)
      × IsBloom g
      × All (λ key. contains g key ≡ some true) keys
      × ((other : List ℕ) → contains f other ≡ some true → contains g other ≡ some true)
unfolding insert_all
contains-insert_all f [] v = (f, refl, v, tt, λ other h. h)
contains-insert_all f (key ∷ keys) v =
    let (f1, e1, v1, c1, m1) = contains-insert f key v in
    let (g, e, w, c, m) = contains-insert_all f1 keys v1 in
    (g, rw e1 e, w, (m key c1, c), λ other h. m other (m1 other h))
