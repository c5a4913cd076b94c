-- ===== src/Compression/Gorilla/DoubleDelta.antt =====
-- The double deltas under XOR coding: what comes back depends on the float operations alone.
use graphite_tsdb.Prelude.{ℕ, ◌^◌, ◌<◌, ◌≡◌, ◌≢◌, refl, ap, ◌∙◌, arith, List, [], ◌∷◌, length, All}
use graphite_tsdb.Prelude.Bytes.{IsU64}
use graphite_tsdb.Compression.Gorilla.{
  differences, deltas, compute_double_deltas, running_sums, sums, reconstruct_from_double_deltas,
  encode_double_delta, decode_double_delta,
}
use graphite_tsdb.Compression.Gorilla.RoundTrip.{decode-encode_prices}

module _ (sub add : ℕ → ℕ → ℕ) where
  -- Each difference of neighbours, added back, gives the later value: no rounding took place.
  abbrev pub IsExactFrom : ℕ → List ℕ → Type 0
  IsExactFrom prev [] = Unit
  IsExactFrom prev (v ∷ vs) = (add prev (sub v prev) ≡ v) × IsExactFrom v vs

  abbrev pub IsExact : List ℕ → Type 0
  IsExact [] = Unit
  IsExact (v ∷ vs) = IsExactFrom v vs

  running_sums-differences :
      (prev : ℕ) (vs : List ℕ)
      → IsExactFrom prev vs
      → running_sums sub add prev (differences sub add prev vs) ≡ vs
  unfolding running_sums differences
  running_sums-differences prev [] h = refl
  running_sums-differences prev (v ∷ vs) h =
      rw h.0 (ap (λ (t : List ℕ). v ∷ t) (running_sums-differences v vs h.1))

  sums-deltas : (vs : List ℕ) → IsExact vs → sums sub add (deltas sub add vs) ≡ vs
  unfolding sums deltas
  sums-deltas [] h = refl
  sums-deltas (v ∷ vs) h = ap (λ (t : List ℕ). v ∷ t) (running_sums-differences v vs h)

  -- A price column is read back exactly if neither pass of differences rounded, for fewer than
  -- 2 ^ 32 prices whose double deltas are 64-bit patterns.
  pub decode_double_delta-encode_double_delta :
      (vs : List ℕ)
      → IsExact vs
      → IsExact (deltas sub add vs)
      → All IsU64 (compute_double_deltas sub add vs)
      → length (compute_double_deltas sub add vs) < 2 ^ 32
      → decode_double_delta sub add (encode_double_delta sub add vs) ≡ vs
  unfolding decode_double_delta encode_double_delta
  decode_double_delta-encode_double_delta vs h k range small =
      ap (reconstruct_from_double_deltas sub add)
        (decode-encode_prices (compute_double_deltas sub add vs) range small)
      ∙ unfold compute_double_deltas reconstruct_from_double_deltas in
        ap (sums sub add) (sums-deltas (deltas sub add vs) k) ∙ sums-deltas vs h

  decoded_pair :
      (a b : ℕ)
      → IsU64 a
      → IsU64 (sub (sub b a) a)
      → decode_double_delta sub add (encode_double_delta sub add (a ∷ b ∷ []))
        ≡ a ∷ add a (add a (sub (sub b a) a)) ∷ []
  unfolding decode_double_delta encode_double_delta compute_double_deltas deltas differences
  decoded_pair a b ha hb =
      ap (reconstruct_from_double_deltas sub add)
        (decode-encode_prices (a ∷ sub (sub b a) a ∷ []) (ha, (hb, tt)) (omega arith))
      ∙ unfold reconstruct_from_double_deltas sums running_sums in refl

  -- Two prices come back as the first one and a sum of the rounded differences; so the pair is
  -- not read back wherever that sum differs from the second price.
  pub second_price_changes :
      (a b : ℕ)
      → IsU64 a
      → IsU64 (sub (sub b a) a)
      → add a (add a (sub (sub b a) a)) ≢ b
      → decode_double_delta sub add (encode_double_delta sub add (a ∷ b ∷ [])) ≢ a ∷ b ∷ []
  second_price_changes a b ha hb differs e = absurd (differs (cc (decoded_pair a b ha hb, e)))
