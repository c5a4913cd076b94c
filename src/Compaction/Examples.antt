-- ===== src/Compaction/Examples.antt =====
-- Compaction at concrete ticks.
use graphite_tsdb.Prelude.{ℕ, ◌≡◌, refl, false, List, [], ◌∷◌, All}
use graphite_tsdb.Prelude.Int.{pos}
use graphite_tsdb.Types.{Key, Tick}
use graphite_tsdb.SkipList.Spec.{Ordered, find}
use graphite_tsdb.Compression.Dictionary as Dictionary
use graphite_tsdb.Compaction.{new, needs_compaction, merged_chunks}
use graphite_tsdb.Compaction.Chunks.{concat, Short, merged_chunks_lem}

abbrev tick_at : ℕ → ℕ → Tick
tick_at time price = record {
  symbol_id = 3;
  timestamp = pos time;
  open_price = price;
  high = price;
  low = price;
  close = price;
  volume = 1;
}

abbrev three : List Tick
three = tick_at 20 7 ∷ tick_at 10 1 ∷ tick_at 20 8 ∷ []

merged_chunks_lem_example :
    Ordered (concat (merged_chunks three))
    × (((k : Key) → find k (concat (merged_chunks three)) ≡ find k three)
        × All (Short 10000) (merged_chunks three))
merged_chunks_lem_example = merged_chunks_lem three

-- A fresh manager has nothing to compact.
new-needs_compaction : needs_compaction (new Dictionary.new) ≡ false
unfolding needs_compaction
new-needs_compaction = refl
