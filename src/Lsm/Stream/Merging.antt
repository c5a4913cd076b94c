-- ===== src/Lsm/Stream/Merging.antt =====
-- A stream merges what is left of the memtable with its last batch.
use graphite_tsdb.Prelude.{
  ℕ, zero, suc, ◌+◌, ◌≤◌, ◌<◌, ◌≡◌, refl, sym, ap, ◌∙◌, arith, Bool, Bool-cases, inl, inr, true,
  false, ◌&&◌, Option, none, some, List, [], ◌∷◌, leb, ltb, if◌then◌else◌, length, get_elem?, drop,
  length-drop,
}
use graphite_tsdb.Types.{Key, Tick, key_of}
use graphite_tsdb.Compression.Dictionary.{Symbol}
use graphite_tsdb.Compression.Rle.{Compressors}
use graphite_tsdb.SkipList.{key_lt, key_eq}
use graphite_tsdb.SkipList.Cells.{key_lt_neq, key_lt_total, key_eq→eq}
use graphite_tsdb.SkipList.Spec.{Ordered, TicksAbove, TicksAbove-trans}
use graphite_tsdb.Sorting.Two.{merge_two, merge_two-nil}
use graphite_tsdb.Lsm.Stream.{
  ScanStream, peek_memtable, peek_sstable, advance_memtable, advance_sstable, take_next, was_last,
  ensure_sstable_batch, load_next_sstable_batch, deliver, next_round, next_tick, collect_on,
  collect,
}
use mathlib.Core.Path.{subst}

drop-cons :
    (ts : List Tick) (i : ℕ) (x : Tick) (xs : List Tick)
    → drop i ts ≡ x ∷ xs
    → (get_elem? ts i ≡ some x) × (drop (suc i) ts ≡ xs)
drop-cons [] i x xs e = absurd (ground (arith, ap length e, length-drop {A = Tick} i []))
drop-cons (t ∷ ts) zero x xs e = (ap (λ (l : List Tick). get_elem? l 0) e, ap (drop 1) e)
drop-cons (t ∷ ts) (suc i) x xs e = drop-cons ts i x xs e

drop-nil : (ts : List Tick) (i : ℕ) → drop i ts ≡ [] → get_elem? ts i ≡ none
drop-nil [] i e = refl
drop-nil (t ∷ ts) zero e = ap (λ (l : List Tick). get_elem? l 0) e
drop-nil (t ∷ ts) (suc i) e = drop-nil ts i e

nil_of-length : (ts : List Tick) → length ts ≤ 0 → ts ≡ []
nil_of-length [] h = refl
nil_of-length (t ∷ ts) h = absurd (omega arith)

-- The ticks that a stream without further tables has still to give.
abbrev pub At : ScanStream → List Tick → List Tick → Type 0
At s xs ys =
    (drop s.memtable_idx s.memtable_ticks ≡ xs)
    × ((drop s.current_batch_idx s.current_batch ≡ ys) × (length s.sstable_paths ≤ s.sstable_idx))

abbrev pub Fresh : Option Key → List Tick → Type 0
Fresh none ts = Unit
Fresh (some k) ts = TicksAbove k ts

was_last-Fresh :
    (last : Option Key) (t : Tick) (ts : List Tick)
    → Fresh last (t ∷ ts)
    → was_last last (key_of t) ≡ false
was_last-Fresh none t ts h = refl
was_last-Fresh (some k) t ts h = key_lt_neq k (key_of t) h.0

next_At :
    (ts : List Tick) (i : ℕ) (x : Tick) (xs : List Tick)
    → drop i ts ≡ x ∷ xs
    → (get_elem? ts i ≡ some x) × (drop (i + 1) ts ≡ xs)
next_At ts i x xs e =
    let next_index : drop (i + 1) ts ≡ drop (suc i) ts =
      ap (λ (j : ℕ). drop j ts) {x = i + 1} {y = suc i} (omega arith) in
    let (here, behind) = drop-cons ts i x xs e in (here, next_index ∙ behind)

advance_sstable_lem :
    (s : ScanStream) (y : Tick) (ys : List Tick)
    → drop s.current_batch_idx s.current_batch ≡ y ∷ ys
    → (batch : List Tick) × ((i : ℕ) × ((advance_sstable s
            ≡ record s { current_batch = batch; current_batch_idx = i })
          × (drop i batch ≡ ys)))
unfolding advance_sstable
advance_sstable_lem s y ys e =
    let (here, behind) = next_At s.current_batch s.current_batch_idx y ys e in
    elim (Bool-cases (leb (length s.current_batch) (s.current_batch_idx + 1))) [
      | inl end ↦
          let empty : ys ≡ [] = nil_of-length ys (
            ground
              (arith, ap length behind, length-drop (s.current_batch_idx + 1) s.current_batch)) in
          ([], (0, (rw end refl, sym empty)))
      | inr more ↦ (s.current_batch, (s.current_batch_idx + 1, (rw more refl, behind)))
    ]

module _ (c : Compressors) (sub add : ℕ → ℕ → ℕ) (from_utf8_lossy : List ℕ → Symbol) where
  pub no_more_tables :
      (s : ScanStream)
      → length s.sstable_paths ≤ s.sstable_idx
      → ensure_sstable_batch c sub add from_utf8_lossy s ≡ some s
  unfolding ensure_sstable_batch
  no_more_tables s h =
      let done : ltb s.sstable_idx (length s.sstable_paths) ≡ false = ground arith in
      rw done (both (leb (length s.current_batch) s.current_batch_idx))
    where
      both :
          (b : Bool)
          → (if b && false then load_next_sstable_batch c sub add from_utf8_lossy s else some s)
            ≡ some s
      both true = refl
      both false = refl

  -- A round of the iterator that delivers a tick.
  collect_step :
      (fuel : ℕ) (s s' : ScanStream) (t : Tick) (ts : List Tick)
      → ensure_sstable_batch c sub add from_utf8_lossy s ≡ some s
      → take_next s (peek_memtable s) (peek_sstable s) ≡ some (t, s')
      → was_last s'.last_key (key_of t) ≡ false
      → collect c sub add from_utf8_lossy fuel (record s' { last_key = some (key_of t) }) ≡ some ts
      → collect c sub add from_utf8_lossy (suc fuel) s ≡ some (t ∷ ts)
  unfolding collect next_tick next_round deliver collect_on
  collect_step fuel s s' t ts ready taken new rest =
      let next = λ (r : ScanStream). next_tick c sub add from_utf8_lossy fuel r in
      let more = λ (r : ScanStream). collect c sub add from_utf8_lossy fuel r in
      let round : next_tick c sub add from_utf8_lossy (suc fuel) s
          ≡ some (record s' { last_key = some (key_of t) }, some t) =
        ap (next_round c sub add from_utf8_lossy next) ready
        ∙ ap (deliver c sub add from_utf8_lossy next s) taken
        ∙ rw new refl in
      ap (collect_on c sub add from_utf8_lossy more) round ∙ rw rest refl

  collect_end :
      (fuel : ℕ) (s : ScanStream)
      → ensure_sstable_batch c sub add from_utf8_lossy s ≡ some s
      → take_next s (peek_memtable s) (peek_sstable s) ≡ none
      → collect c sub add from_utf8_lossy (suc fuel) s ≡ some []
  unfolding collect next_tick next_round deliver collect_on
  collect_end fuel s ready taken =
      let next = λ (r : ScanStream). next_tick c sub add from_utf8_lossy fuel r in
      let more = λ (r : ScanStream). collect c sub add from_utf8_lossy fuel r in
      let round : next_tick c sub add from_utf8_lossy (suc fuel) s ≡ some (s, none) =
        ap (next_round c sub add from_utf8_lossy next) ready
        ∙ ap (deliver c sub add from_utf8_lossy next s) taken in
      ap (collect_on c sub add from_utf8_lossy more) round

  -- A stream without further tables gives what is left of the memtable merged with what is left of
  -- its batch.
  pub collect_lem :
      (fuel : ℕ) (s : ScanStream) (xs ys : List Tick)
      → At s xs ys
      → Ordered xs
      → Ordered ys
      → Fresh s.last_key xs
      → Fresh s.last_key ys
      → length xs + length ys < fuel
      → collect c sub add from_utf8_lossy fuel s ≡ some (merge_two xs ys)
  unfolding merge_two take_next peek_memtable peek_sstable advance_memtable
  collect_lem zero s xs ys at h g fx fy b = absurd (omega arith)
  collect_lem (suc fuel) s [] [] (ax, (ay, done)) h g fx fy b =
      collect_end fuel s (no_more_tables s done) (
        rw
          (
            drop-nil s.memtable_ticks s.memtable_idx ax,
            drop-nil s.current_batch s.current_batch_idx ay,
          )
          refl)
  collect_lem (suc fuel) s (x ∷ xs) [] (ax, (ay, done)) h g fx fy b =
      let (here, behind) = next_At s.memtable_ticks s.memtable_idx x xs ax in
      let s' = advance_memtable s in
      collect_step fuel s s' x xs (no_more_tables s done)
        (rw (here, drop-nil s.current_batch s.current_batch_idx ay) refl)
        (was_last-Fresh s.last_key x xs fx)
        (collect_lem fuel (record s' { last_key = some (key_of x) }) xs [] (behind, (ay, done)) h.1
            tt h.0 tt (omega arith)
          ∙ ap some (merge_two-nil xs))
  collect_lem (suc fuel) s [] (y ∷ ys) (ax, (ay, done)) h g fx fy b =
      let (here, more) = next_At s.current_batch s.current_batch_idx y ys ay in
      let (batch, (i, (advanced, behind))) = advance_sstable_lem s y ys ay in
      let s' = record s { current_batch = batch; current_batch_idx = i } in
      collect_step fuel s s' y ys (no_more_tables s done)
        (rw (drop-nil s.memtable_ticks s.memtable_idx ax, here, advanced) refl)
        (was_last-Fresh s.last_key y ys fy)
        (collect_lem fuel (record s' { last_key = some (key_of y) }) [] ys (ax, (behind, done)) tt
          g.1 tt g.0 (omega arith))
  collect_lem (suc fuel) s (x ∷ xs) (y ∷ ys) (ax, (ay, done)) h g fx fy b =
      let (own, own_behind) = next_At s.memtable_ticks s.memtable_idx x xs ax in
      let (here, here_behind) = next_At s.current_batch s.current_batch_idx y ys ay in
      let (batch, (i, (advanced, behind))) = advance_sstable_lem s y ys ay in
      let (batch2, (i2, (advanced2, behind2))) = advance_sstable_lem (advance_memtable s) y ys ay in
      let ready = no_more_tables s done in
      elim (Bool-cases (key_lt (key_of x) (key_of y))) [
        | inl less ↦ rw less (
            collect_step fuel s (advance_memtable s) x (merge_two xs (y ∷ ys)) ready
              (rw (own, here, less) refl) (was_last-Fresh s.last_key x xs fx)
              (collect_lem fuel (record (advance_memtable s) { last_key = some (key_of x) }) xs
                (y ∷ ys) (own_behind, (ay, done)) h.1 g h.0
                (less, TicksAbove-trans (key_of x) (key_of y) ys less g.0) (omega arith)))
        | inr ge ↦ elim (Bool-cases (key_eq (key_of x) (key_of y))) [
          | inl same ↦
              let is : key_of x ≡ key_of y = key_eq→eq (key_of x) (key_of y) same in
              let s2 = record (advance_memtable s) {
                current_batch = batch2;
                current_batch_idx = i2;
              } in
              rw (ge, same)
                (collect_step fuel s s2 x (merge_two xs ys) ready
                  (rw (own, here, ge, same, advanced2) refl) (was_last-Fresh s.last_key x xs fx)
                  (collect_lem fuel (record s2 { last_key = some (key_of x) }) xs ys
                    (own_behind, (behind2, done)) h.1 g.1 h.0
                    (subst (λ k. TicksAbove k ys) (sym is) g.0) (omega arith)))
          | inr other ↦
              let more = key_lt_total (key_of x) (key_of y) ge other in
              let s1 = record s { current_batch = batch; current_batch_idx = i } in
              rw (ge, other)
                (collect_step fuel s s1 y (merge_two (x ∷ xs) ys) ready
                  (rw (own, here, ge, other, advanced) refl) (was_last-Fresh s.last_key y ys fy)
                  (collect_lem fuel (record s1 { last_key = some (key_of y) }) (x ∷ xs) ys
                    (ax, (behind, done)) h g.1
                    (more, TicksAbove-trans (key_of y) (key_of x) xs more h.0) g.0 (omega arith)))
        ]
      ]
