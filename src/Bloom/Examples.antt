-- ===== src/Bloom/Examples.antt =====
-- The filter on concrete keys, and the theorems at a concrete filter.
use graphite_tsdb.Prelude.{ℕ, ◌≡◌, refl, true, false, some, List, [], ◌∷◌, All, arith}
use graphite_tsdb.Bloom.{
  BloomFilter, IsBloom, fnv1a, insert, contains, insert_all, hash_to_index, get_bit, to_bytes,
  from_encoded,
}
use graphite_tsdb.Bloom.Membership.{contains-insert, contains-insert_all}
use graphite_tsdb.Bloom.Encoding.{from_encoded-to_bytes}

abbrev empty_filter : BloomFilter
empty_filter = record { bits = 0 ∷ 0 ∷ []; num_bits = 109; num_hashes = 2 }

empty_filter-IsBloom : IsBloom empty_filter
empty_filter-IsBloom = record {
  has_bits = omega arith;
  words = refl;
  word_range = omega arith;
  bits_range = omega arith;
  hashes_range = omega arith;
}

abbrev aapl : List ℕ
aapl = b'A' ∷ b'A' ∷ b'P' ∷ b'L' ∷ []

abbrev goog : List ℕ
goog = b'G' ∷ b'O' ∷ b'O' ∷ b'G' ∷ []

fnv1a_aapl : fnv1a (b'a' ∷ []) ≡ 0xaf63dc4c8601ec8c
unfolding fnv1a
fnv1a_aapl = refl

contains_nothing : contains empty_filter aapl ≡ some false
unfolding contains fnv1a hash_to_index get_bit
contains_nothing = refl

contains-insert_example :
    (g : BloomFilter) × (insert empty_filter aapl ≡ some g)
    × IsBloom g
    × (contains g aapl ≡ some true)
    × ((other : List ℕ) → contains empty_filter other ≡ some true → contains g other ≡ some true)
contains-insert_example = contains-insert empty_filter aapl empty_filter-IsBloom

contains-insert_all_example :
    (g : BloomFilter) × (insert_all empty_filter (aapl ∷ goog ∷ []) ≡ some g)
    × IsBloom g
    × All (λ key. contains g key ≡ some true) (aapl ∷ goog ∷ [])
    × ((other : List ℕ) → contains empty_filter other ≡ some true → contains g other ≡ some true)
contains-insert_all_example =
    contains-insert_all empty_filter (aapl ∷ goog ∷ []) empty_filter-IsBloom

from_encoded-to_bytes_example : from_encoded (to_bytes empty_filter) ≡ some empty_filter
from_encoded-to_bytes_example = from_encoded-to_bytes empty_filter empty_filter-IsBloom
