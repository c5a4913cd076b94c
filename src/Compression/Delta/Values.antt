-- ===== src/Compression/Delta/Values.antt =====
-- The arithmetic of the timestamp column: deltas that wrap, and the range of the deltas.
use mathlib.Core.Path.{subst}
use graphite_tsdb.Prelude.{
  ℕ, ◌+◌, ◌-◌, ◌^◌, ◌≤◌, ◌<◌, ◌≡◌, sym, arith, Bool-cases, inl, inr, List, [], ◌∷◌, ◌==◌,
  if◌then◌else◌, if_elim, All,
}
use graphite_tsdb.Prelude.Int.{
  ℤ, pos, negsuc, pos_part, neg_part, ◌+ℤ◌, ◌-ℤ◌, ◌≤ℤ◌, ltb_ℤ, int_laws,
}
use graphite_tsdb.Prelude.Bytes.{IsI64, u64_of, i64_of, i64_of-u64_of, u64_of-lt}
use graphite_tsdb.Types.{TimestampNs}
use graphite_tsdb.Compression.Gorilla.Zeros.{leading_zeros-bound}
use graphite_tsdb.Compression.Delta.{wrap, time_deltas, min_delta, max_delta, bits_needed}

wrap-IsI64 : (t : ℤ) → IsI64 (wrap t)
unfolding wrap i64_of
wrap-IsI64 t = ground (arith, u64_of-lt t)

pub time_deltas-IsI64 :
    (prev : TimestampNs) (ts : List TimestampNs) → All IsI64 (time_deltas prev ts)
unfolding time_deltas
time_deltas-IsI64 prev [] = tt
time_deltas-IsI64 prev (t ∷ ts) = (wrap-IsI64 (t -ℤ prev), time_deltas-IsI64 t ts)

-- Adding a delta that wrapped to the timestamp before gives the timestamp.
pub undo : (t prev : ℤ) → IsI64 t → IsI64 prev → wrap (prev +ℤ wrap (t -ℤ prev)) ≡ t
unfolding wrap u64_of i64_of ◌+ℤ◌ ◌-ℤ◌
undo (pos a) (pos b) h k = ground arith
undo (pos a) (negsuc b) h k = ground arith
undo (negsuc a) (pos b) h k = ground arith
undo (negsuc a) (negsuc b) h k = ground arith

-- The distance of two numbers, the first one not greater.
abbrev distance : ℤ → ℤ → ℕ
distance low d = pos_part d + neg_part low - (neg_part d + pos_part low)

distance_pos : (low d : ℤ) → low ≤ℤ d → d -ℤ low ≡ pos (distance low d)
unfolding ◌-ℤ◌
distance_pos low d above = ground arith

distance_bits : (low d : ℤ) → IsI64 low → IsI64 d → low ≤ℤ d → u64_of (d -ℤ low) ≡ distance low d
unfolding u64_of
distance_bits low d hl hd above = rw (distance_pos low d above) (ground arith)

-- A delta that is not below the least one is read back from its distance to it.
pub shifted_back :
    (d low : ℤ)
    → IsI64 d
    → IsI64 low
    → low ≤ℤ d
    → u64_of (d -ℤ low) < 2 ^ 57
    → wrap (i64_of (u64_of (d -ℤ low)) +ℤ low) ≡ d
unfolding wrap
shifted_back d low hd hl above small =
    let x = d -ℤ low in
    let n : u64_of x ≡ distance low d = distance_bits low d hl hd above in
    let range : IsI64 x =
      subst (λ (z : ℤ). IsI64 z) (sym (distance_pos low d above)) (omega arith, omega (arith, n)) in
    let same : i64_of (u64_of x) ≡ x = i64_of-u64_of x range in
    let back : x +ℤ low ≡ d = omega int_laws in rw (same, back) (i64_of-u64_of d hd)

-- The distance to the least delta is no more than that of a greater one.
pub distance_mono :
    (low d high : ℤ)
    → IsI64 low
    → IsI64 high
    → low ≤ℤ d
    → d ≤ℤ high
    → u64_of (d -ℤ low) ≤ u64_of (high -ℤ low)
distance_mono low d high hl hh above below = omega (
  arith,
  distance_bits low d hl (omega arith, omega arith) above,
  distance_bits low high hl hh (omega arith),
)

min_delta-le : (d : ℤ) (ds : List ℤ) → min_delta d ds ≤ℤ d
unfolding min_delta
min_delta-le d [] = omega arith
min_delta-le d (e ∷ ds) = ground (arith, min_delta-le (if ltb_ℤ e d then e else d) ds)

max_delta-ge : (d : ℤ) (ds : List ℤ) → d ≤ℤ max_delta d ds
unfolding max_delta
max_delta-ge d [] = omega arith
max_delta-ge d (e ∷ ds) = ground (arith, max_delta-ge (if ltb_ℤ d e then e else d) ds)

abbrev pub Between : ℤ → ℤ → ℤ → Type 0
Between low high d = (low ≤ℤ d) × (d ≤ℤ high)

pub deltas-Between :
    (least most : ℤ) (ds : List ℤ) → All (Between (min_delta least ds) (max_delta most ds)) ds
unfolding min_delta max_delta
deltas-Between least most [] = tt
deltas-Between least most (e ∷ ds) =
    let l = if ltb_ℤ e least then e else least in
    let m = if ltb_ℤ most e then e else most in
    ((ground (arith, min_delta-le l ds), ground (arith, max_delta-ge m ds)), deltas-Between l m ds)

pub min_delta-IsI64 : (d : ℤ) (ds : List ℤ) → IsI64 d → All IsI64 ds → IsI64 (min_delta d ds)
unfolding min_delta
min_delta-IsI64 d [] h hs = h
min_delta-IsI64 d (e ∷ ds) h (he, hs) =
    min_delta-IsI64 (if ltb_ℤ e d then e else d) ds
      (if_elim IsI64 (ltb_ℤ e d) e d (λ x. he) (λ x. h)) hs

pub max_delta-IsI64 : (d : ℤ) (ds : List ℤ) → IsI64 d → All IsI64 ds → IsI64 (max_delta d ds)
unfolding max_delta
max_delta-IsI64 d [] h hs = h
max_delta-IsI64 d (e ∷ ds) h (he, hs) =
    max_delta-IsI64 (if ltb_ℤ d e then e else d) ds
      (if_elim IsI64 (ltb_ℤ d e) e d (λ x. he) (λ x. h)) hs

-- The bits that are needed hold the range.
pub range_fits :
    (low high : ℤ) → 0 < bits_needed low high → u64_of (high -ℤ low) < 2 ^ bits_needed low high
unfolding bits_needed
range_fits low high h =
    let range = u64_of (high -ℤ low) in
    elim (Bool-cases (range == 0)) [
      | inl zero_range ↦ rw zero_range (ground arith)
      | inr wide ↦ rw wide (leading_zeros-bound 64 range (ground arith) (u64_of-lt (high -ℤ low))).1
    ]
