-- ===== src/SsTable/Blocks.antt =====
-- How many entries the index of an SSTable has.
use graphite_tsdb.Prelude.{
  ℕ, suc, ◌+◌, ◌-◌, ◌%◌, ◌≤◌, ◌<◌, ◌≡◌, refl, ap, arith, ◌&&◌, none, List, [], ◌∷◌, ltb, leb, ◌==◌,
  length, length-append, if_elim,
}
use graphite_tsdb.Types.{Tick, key_of, block_size, index_interval}
use graphite_tsdb.SsTable.{IndexEntry}
use graphite_tsdb.SsTable.Write.{
  Blocks, add_entry, close_full, block_step, blocks_loop, close_last, key_blocks,
}

length-close_last : (n : ℕ) (index : List IndexEntry) → length (close_last n index) ≡ length index
unfolding close_last
length-close_last n [] = refl
length-close_last n (e ∷ []) = refl
length-close_last n (e ∷ (e' ∷ es)) = ap suc (length-close_last n (e' ∷ es))

length-close_full :
    (total i n : ℕ) (index : List IndexEntry) → length (close_full total i n index) ≡ length index
unfolding close_full
length-close_full total i n index =
    if_elim (λ (x : List IndexEntry). length x ≡ length index)
      (leb block_size n && ltb i (total - 1)) _ _ (λ full. length-close_last n index)
      (λ roomy. refl)

add_entry_bounds :
    (i : ℕ) (tick : Tick) (s : Blocks)
    → (length s.index ≤ length (add_entry i tick s))
      × (length (add_entry i tick s) ≤ length s.index + 1)
unfolding add_entry
add_entry_bounds i tick s =
    let pushed =
      length-append s.index
        ((record { key = key_of tick; block_offset = length s.data_buf; block_size = 0 }) ∷ []) in
    if_elim (λ (x : List IndexEntry). (length s.index ≤ length x) × (length x ≤ length s.index + 1))
      ((i % index_interval) == 0) _ _ (λ due. (omega (arith, pushed), omega (arith, pushed)))
      (λ skip. (omega arith, omega arith))

blocks_loop_bounds :
    (total i : ℕ) (ticks : List Tick) (s : Blocks)
    → (length s.index ≤ length (blocks_loop total i ticks s).index)
      × (length (blocks_loop total i ticks s).index ≤ length s.index + length ticks)
unfolding blocks_loop block_step
blocks_loop_bounds total i [] s = (omega arith, omega arith)
blocks_loop_bounds total i (tick ∷ ticks) s =
    let s' = block_step total i tick s in
    let closed = length-close_full total i (length s'.data_buf) (add_entry i tick s) in
    let (least, most) = add_entry_bounds i tick s in
    let (above, below) = blocks_loop_bounds total (i + 1) ticks s' in
    (omega (arith, closed), omega (arith, closed))

-- The index of a table that has a tick has an entry, and not more entries than ticks.
pub key_blocks_bounds :
    (tick : Tick) (ticks : List Tick)
    → (0 < length (key_blocks (tick ∷ ticks)).1)
      × (length (key_blocks (tick ∷ ticks)).1 ≤ suc (length ticks))
unfolding key_blocks blocks_loop block_step add_entry
key_blocks_bounds tick ticks =
    let s0 : Blocks = record { data_buf = []; index = []; prev_key = none } in
    let s1 = block_step (suc (length ticks)) 0 tick s0 in
    let s = blocks_loop (suc (length ticks)) 1 ticks s1 in
    let first =
      length-close_full (suc (length ticks)) 0 (length s1.data_buf) (add_entry 0 tick s0) in
    let (above, below) = blocks_loop_bounds (suc (length ticks)) 1 ticks s1 in
    let closed = length-close_last (length s.data_buf) s.index in
    (omega (arith, closed, first), omega (arith, closed, first))
