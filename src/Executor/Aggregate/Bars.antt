-- ===== src/Executor/Aggregate/Bars.antt =====
-- The bars of an aggregation: their volume, and their buckets.
use graphite_tsdb.Prelude.{
  ℕ, ◌+◌, ◌%◌, ◌^◌, ◌≡◌, ◌∙◌, arith, false, List, [], ◌∷◌, Bool-cases, inl, inr,
}
use graphite_tsdb.Prelude.Int.{ℤ}
use graphite_tsdb.Types.{Tick}
use graphite_tsdb.Executor.{FloatOps, OhlcvBar}
use graphite_tsdb.Executor.Aggregate.{
  ℤ_eq, bucket_of, new_bar, merge_tick, add_tick, bars_loop, bars_of,
}

-- The volume of some ticks and of some bars, as numbers that do not wrap.
pub ticks_volume : List Tick → ℕ
ticks_volume [] = 0
ticks_volume (t ∷ ticks) = t.volume + ticks_volume ticks

pub bars_volume : List OhlcvBar → ℕ
bars_volume [] = 0
bars_volume (b ∷ bars) = b.volume + bars_volume bars

Apart : ℤ → List OhlcvBar → Type 0
unfolding ℤ_eq
Apart time [] = Unit
Apart time (b ∷ bars) = ℤ_eq time b.timestamp ≡ false

-- Neighbouring bars are of different buckets.
pub IsSplit : List OhlcvBar → Type 0
unfolding Apart
IsSplit [] = Unit
IsSplit (b ∷ bars) = Apart b.timestamp bars × IsSplit bars

module _ (f : FloatOps) (interval : ℕ) where
  add_tick-volume :
      (bars : List OhlcvBar) (t : Tick)
      → bars_volume (add_tick f interval bars t) % 2 ^ 64 ≡ (bars_volume bars + t.volume) % 2 ^ 64
  unfolding add_tick bars_volume new_bar merge_tick
  add_tick-volume [] t = omega arith
  add_tick-volume (b ∷ []) t =
      elim (Bool-cases (ℤ_eq b.timestamp (bucket_of t.timestamp interval))) [
        | inl same ↦ rw same (omega arith)
        | inr other ↦ rw other (omega arith)
      ]
  add_tick-volume (b ∷ c ∷ bars) t = omega (arith, add_tick-volume (c ∷ bars) t)

  bars_loop-volume :
      (bars : List OhlcvBar) (ticks : List Tick)
      → bars_volume (bars_loop f interval bars ticks) % 2 ^ 64
        ≡ (bars_volume bars + ticks_volume ticks) % 2 ^ 64
  unfolding bars_loop ticks_volume
  bars_loop-volume bars [] = omega arith
  bars_loop-volume bars (t ∷ ticks) =
      omega (arith, bars_loop-volume (add_tick f interval bars t) ticks, add_tick-volume bars t)

  add_tick-Apart :
      (time : ℤ) (b : OhlcvBar) (bars : List OhlcvBar) (t : Tick)
      → Apart time (b ∷ bars)
      → Apart time (add_tick f interval (b ∷ bars) t)
  unfolding add_tick Apart merge_tick
  add_tick-Apart time b [] t h =
      elim (Bool-cases (ℤ_eq b.timestamp (bucket_of t.timestamp interval))) [
        | inl same ↦ rw same h
        | inr other ↦ rw other h
      ]
  add_tick-Apart time b (c ∷ bars) t h = h

  add_tick-IsSplit :
      (bars : List OhlcvBar) (t : Tick) → IsSplit bars → IsSplit (add_tick f interval bars t)
  unfolding add_tick IsSplit Apart new_bar
  add_tick-IsSplit [] t h = (tt, tt)
  add_tick-IsSplit (b ∷ []) t h =
      elim (Bool-cases (ℤ_eq b.timestamp (bucket_of t.timestamp interval))) [
        | inl same ↦ rw same (tt, tt)
        | inr other ↦ rw other (other, (tt, tt))
      ]
  add_tick-IsSplit (b ∷ c ∷ bars) t h =
      (add_tick-Apart b.timestamp c bars t h.0, add_tick-IsSplit (c ∷ bars) t h.1)

  bars_loop-IsSplit :
      (bars : List OhlcvBar) (ticks : List Tick)
      → IsSplit bars
      → IsSplit (bars_loop f interval bars ticks)
  unfolding bars_loop
  bars_loop-IsSplit bars [] h = h
  bars_loop-IsSplit bars (t ∷ ticks) h =
      bars_loop-IsSplit (add_tick f interval bars t) ticks (add_tick-IsSplit bars t h)

  -- The bars of some ticks hold their whole volume, counted modulo 2 ^ 64, and neighbouring bars
  -- are of different buckets, for any interval and any order of the ticks.
  pub bars_of_lem :
      (ticks : List Tick)
      → (bars_volume (bars_of f interval ticks) % 2 ^ 64 ≡ ticks_volume ticks % 2 ^ 64)
        × IsSplit (bars_of f interval ticks)
  unfolding bars_of bars_volume IsSplit
  bars_of_lem ticks =
      let same : (0 + ticks_volume ticks) % 2 ^ 64 ≡ ticks_volume ticks % 2 ^ 64 = omega arith in
      (bars_loop-volume [] ticks ∙ same, bars_loop-IsSplit [] ticks tt)
