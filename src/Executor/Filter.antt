-- ===== src/Executor/Filter.antt =====
-- graphite/src/gql/executor.rs: the price filters. The vectorised filter compares four prices at a
-- time and reads the result from the bits of a mask; it finds what the scalar filter finds.
use graphite_tsdb.Prelude.{
  ℕ, ◌+◌, ◌≡◌, refl, sym, ap, ◌∙◌, Bool, true, false, not, Option, none, some, List, [], ◌∷◌, ◌++◌,
  ◌==◌, if◌then◌else◌, append_assoc, Bool-cases, inl, inr,
}
use Prim.Native.Nat.{bit_and}
use graphite_tsdb.Types.{Tick}
use graphite_tsdb.Gql.{PricePredicate}
use graphite_tsdb.Executor.{FloatOps}

pub data SimdOp : Type 0 where
  greater less : SimdOp

-- `iter().filter(…).copied().collect()`
unfoldable pub filter : (Tick → Bool) → List Tick → List Tick
filter test [] = []
filter test (t ∷ ts) = let rest = filter test ts in if test t then t ∷ rest else rest

-- `_mm256_movemask_pd` of four lanes.
movemask : Bool → Bool → Bool → Bool → ℕ
movemask a b c d =
    (if a then 1 else 0) + (if b then 2 else 0) + (if c then 4 else 0) + (if d then 8 else 0)

-- The inner loop: the tick of a lane is pushed when its bit of the mask is set.
push_lane : ℕ → ℕ → Tick → List Tick → List Tick
push_lane mask bit t result = if bit_and mask bit == 0 then result else result ++ (t ∷ [])

module _ (f : FloatOps) where
  -- The comparison of an operator, of one price or of one lane (`_CMP_GT_OQ`, `_CMP_LT_OQ`).
  pub passes : SimdOp → ℕ → ℕ → Bool
  passes SimdOp.greater price threshold = f.gt price threshold
  passes SimdOp.less price threshold = f.lt price threshold

  pub scalar_filter_prices : List Tick → ℕ → SimdOp → List Tick
  unfolding filter passes
  scalar_filter_prices ticks threshold op = filter (λ (t : Tick). passes op t.close threshold) ticks

  simd_loop : List Tick → ℕ → SimdOp → List Tick → List Tick
  unfolding movemask push_lane filter passes
  simd_loop (t0 ∷ t1 ∷ t2 ∷ t3 ∷ ticks) threshold op result =
      let mask =
        movemask (passes op t0.close threshold) (passes op t1.close threshold)
          (passes op t2.close threshold) (passes op t3.close threshold) in
      simd_loop ticks threshold op (
        push_lane mask 8 t3
          (push_lane mask 4 t2 (push_lane mask 2 t1 (push_lane mask 1 t0 result))))
  simd_loop ticks threshold op result =
      result ++ filter (λ (t : Tick). passes op t.close threshold) ticks

  pub simd_filter_avx2 : List Tick → ℕ → SimdOp → List Tick
  unfolding simd_loop
  simd_filter_avx2 ticks threshold op = simd_loop ticks threshold op []

  -- `avx2` is what the processor has.
  pub simd_filter_prices : Bool → List Tick → ℕ → SimdOp → List Tick
  unfolding simd_filter_avx2 scalar_filter_prices
  simd_filter_prices avx2 ticks threshold op =
      if avx2 then simd_filter_avx2 ticks threshold op else scalar_filter_prices ticks threshold op

  pub apply_price_filter : Bool → List Tick → Option PricePredicate → List Tick
  unfolding simd_filter_prices filter
  apply_price_filter avx2 ticks none = ticks
  apply_price_filter avx2 ticks (some (PricePredicate.greater threshold)) =
      simd_filter_prices avx2 ticks threshold SimdOp.greater
  apply_price_filter avx2 ticks (some (PricePredicate.less threshold)) =
      simd_filter_prices avx2 ticks threshold SimdOp.less
  apply_price_filter avx2 ticks (some (PricePredicate.greater_eq threshold)) =
      filter (λ (t : Tick). f.ge t.close threshold) ticks
  apply_price_filter avx2 ticks (some (PricePredicate.less_eq threshold)) =
      filter (λ (t : Tick). f.le t.close threshold) ticks
  apply_price_filter avx2 ticks (some (PricePredicate.equal threshold)) =
      filter (λ (t : Tick). f.eq t.close threshold) ticks

abbrev is_set : ℕ → ℕ → Bool
is_set mask bit = not (bit_and mask bit == 0)

-- The bits of a mask are its lanes.
movemask_lanes :
    (a b c d : Bool)
    → (is_set (movemask a b c d) 1 ≡ a)
      × ((is_set (movemask a b c d) 2 ≡ b)
          × ((is_set (movemask a b c d) 4 ≡ c) × (is_set (movemask a b c d) 8 ≡ d)))
unfolding movemask
movemask_lanes true true true true = (refl, (refl, (refl, refl)))
movemask_lanes true true true false = (refl, (refl, (refl, refl)))
movemask_lanes true true false true = (refl, (refl, (refl, refl)))
movemask_lanes true true false false = (refl, (refl, (refl, refl)))
movemask_lanes true false true true = (refl, (refl, (refl, refl)))
movemask_lanes true false true false = (refl, (refl, (refl, refl)))
movemask_lanes true false false true = (refl, (refl, (refl, refl)))
movemask_lanes true false false false = (refl, (refl, (refl, refl)))
movemask_lanes false true true true = (refl, (refl, (refl, refl)))
movemask_lanes false true true false = (refl, (refl, (refl, refl)))
movemask_lanes false true false true = (refl, (refl, (refl, refl)))
movemask_lanes false true false false = (refl, (refl, (refl, refl)))
movemask_lanes false false true true = (refl, (refl, (refl, refl)))
movemask_lanes false false true false = (refl, (refl, (refl, refl)))
movemask_lanes false false false true = (refl, (refl, (refl, refl)))
movemask_lanes false false false false = (refl, (refl, (refl, refl)))

abbrev keep : Bool → Tick → List Tick → List Tick
keep b t rest = if b then t ∷ rest else rest

push_lane-keep :
    (mask bit : ℕ) (lane : Bool) (t : Tick) (result rest : List Tick)
    → is_set mask bit ≡ lane
    → push_lane mask bit t result ++ rest ≡ result ++ keep lane t rest
unfolding push_lane
push_lane-keep mask bit lane t result rest h = elim (Bool-cases (bit_and mask bit == 0)) [
  | inl clear ↦ let off : lane ≡ false = sym h ∙ ap not clear in rw (clear, off) refl
  | inr set_ ↦
      let on : lane ≡ true = sym h ∙ ap not set_ in
      rw (set_, on) (append_assoc result (t ∷ []) rest)
]

module _ (f : FloatOps) (threshold : ℕ) (op : SimdOp) where
  abbrev test : Tick → Bool
  unfolding passes
  test t = passes f op t.close threshold

  simd_loop-filter :
      (ticks result : List Tick)
      → simd_loop f ticks threshold op result ≡ result ++ filter test ticks
  unfolding simd_loop filter
  simd_loop-filter [] result = refl
  simd_loop-filter (t0 ∷ []) result = refl
  simd_loop-filter (t0 ∷ t1 ∷ []) result = refl
  simd_loop-filter (t0 ∷ t1 ∷ t2 ∷ []) result = refl
  simd_loop-filter (t0 ∷ t1 ∷ t2 ∷ t3 ∷ ticks) result =
      let a = test t0 in
      let b = test t1 in
      let c = test t2 in
      let d = test t3 in
      let mask = movemask a b c d in
      let (h0, (h1, (h2, h3))) = movemask_lanes a b c d in
      let rest = filter test ticks in
      simd_loop-filter ticks _
      ∙ push_lane-keep mask 8 d t3 _ rest h3
      ∙ push_lane-keep mask 4 c t2 _ (keep d t3 rest) h2
      ∙ push_lane-keep mask 2 b t1 _ (keep c t2 (keep d t3 rest)) h1
      ∙ push_lane-keep mask 1 a t0 result (keep b t1 (keep c t2 (keep d t3 rest))) h0

  -- The vectorised price filter returns the ticks that the scalar filter returns, in the same
  -- order, whether the processor has AVX2 or not, for any number of ticks.
  pub simd_filter_prices-scalar :
      (avx2 : Bool) (ticks : List Tick)
      → simd_filter_prices f avx2 ticks threshold op ≡ scalar_filter_prices f ticks threshold op
  unfolding simd_filter_prices simd_filter_avx2 scalar_filter_prices
  simd_filter_prices-scalar true ticks = simd_loop-filter ticks []
  simd_filter_prices-scalar false ticks = refl

-- The test of a predicate on a price.
unfoldable pub satisfies : FloatOps → Option PricePredicate → Tick → Bool
satisfies f none t = true
satisfies f (some (PricePredicate.greater v)) t = f.gt t.close v
satisfies f (some (PricePredicate.less v)) t = f.lt t.close v
satisfies f (some (PricePredicate.greater_eq v)) t = f.ge t.close v
satisfies f (some (PricePredicate.less_eq v)) t = f.le t.close v
satisfies f (some (PricePredicate.equal v)) t = f.eq t.close v

filter_all : (ticks : List Tick) → filter (λ (t : Tick). true) ticks ≡ ticks
unfolding filter
filter_all [] = refl
filter_all (t ∷ ts) = ap (λ (l : List Tick). t ∷ l) (filter_all ts)

pub apply_price_filter-satisfies :
    (f : FloatOps) (avx2 : Bool) (ticks : List Tick) (p : Option PricePredicate)
    → apply_price_filter f avx2 ticks p ≡ filter (satisfies f p) ticks
unfolding apply_price_filter satisfies scalar_filter_prices passes
apply_price_filter-satisfies f avx2 ticks none = sym (filter_all ticks)
apply_price_filter-satisfies f avx2 ticks (some (PricePredicate.greater v)) =
    simd_filter_prices-scalar f v SimdOp.greater avx2 ticks
apply_price_filter-satisfies f avx2 ticks (some (PricePredicate.less v)) =
    simd_filter_prices-scalar f v SimdOp.less avx2 ticks
apply_price_filter-satisfies f avx2 ticks (some (PricePredicate.greater_eq v)) = refl
apply_price_filter-satisfies f avx2 ticks (some (PricePredicate.less_eq v)) = refl
apply_price_filter-satisfies f avx2 ticks (some (PricePredicate.equal v)) = refl
