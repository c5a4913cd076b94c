-- ===== src/Compaction/Chunks.antt =====
-- What a compaction writes, against what it read.
use graphite_tsdb.Prelude.{
  ℕ, zero, suc, ◌≤◌, ◌<◌, ◌≡◌, refl, ap, ◌∙◌, arith, List, [], ◌∷◌, ◌++◌, length, take, drop,
  length-drop, length-take, take-append-drop, All,
}
use graphite_tsdb.Types.{Key, Tick}
use graphite_tsdb.SkipList.Spec.{Ordered, find}
use graphite_tsdb.Sorting.{merge}
use graphite_tsdb.Sorting.Merge.{merge_lem}
use graphite_tsdb.Compaction.{chunks, chunk_size, merged_chunks}

abbrev pub concat : List (List Tick) → List Tick
concat [] = []
concat (ts ∷ tss) = ts ++ concat tss

concat-chunks :
    (fuel size : ℕ) (ts : List Tick)
    → 0 < size
    → length ts ≤ fuel
    → concat (chunks fuel size ts) ≡ ts
unfolding chunks
concat-chunks zero size [] some_size enough = refl
concat-chunks zero size (t ∷ ts) some_size enough = absurd (omega arith)
concat-chunks (suc fuel) size [] some_size enough = refl
concat-chunks (suc fuel) size (t ∷ ts) some_size enough =
    ap (λ (x : List Tick). take size (t ∷ ts) ++ x)
      (concat-chunks fuel size (drop size (t ∷ ts)) some_size
        (omega (arith, length-drop size (t ∷ ts))))
    ∙ take-append-drop size (t ∷ ts)

abbrev pub Short : ℕ → List Tick → Type 0
Short size ts = (0 < length ts) × (length ts ≤ size)

chunks-Short : (fuel size : ℕ) (ts : List Tick) → 0 < size → All (Short size) (chunks fuel size ts)
unfolding chunks
chunks-Short zero size ts some_size = tt
chunks-Short (suc fuel) size [] some_size = tt
chunks-Short (suc fuel) size (t ∷ ts) some_size = (
  (omega (arith, length-take size (t ∷ ts)), omega (arith, length-take size (t ∷ ts))),
  chunks-Short fuel size (drop size (t ∷ ts)) some_size,
)

-- The chunks that a compaction of some ticks writes, one behind the other, are in strictly
-- increasing order of their keys, and hold for each key the first tick with the key in the order in
-- which the tables were read. No chunk is empty or has more than 10000 ticks.
pub merged_chunks_lem :
    (ts : List Tick)
    → Ordered (concat (merged_chunks ts))
      × (((k : Key) → find k (concat (merged_chunks ts)) ≡ find k ts)
          × All (Short 10000) (merged_chunks ts))
unfolding merged_chunks chunk_size
merged_chunks_lem ts =
    let all = concat-chunks (length (merge ts)) 10000 (merge ts) (omega arith) (omega arith) in
    let (ordered, same) = merge_lem ts in
    (
      rw all ordered,
      (λ k. rw all (same k), chunks-Short (length (merge ts)) 10000 (merge ts) (omega arith)),
    )
