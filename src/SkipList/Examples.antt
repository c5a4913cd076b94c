-- ===== src/SkipList/Examples.antt =====
-- A skip list at concrete ticks.
use mathlib.Core.Path.{subst}
use graphite_tsdb.Prelude.{
  ℕ, ◌≡◌, refl, sym, ap, ◌∙◌, arith, true, false, Option, none, some, List, [], ◌∷◌, if◌then◌else◌,
}
use graphite_tsdb.Prelude.Int.{pos}
use graphite_tsdb.Types.{Tick, key_of}
use graphite_tsdb.SkipList as Memtable
use graphite_tsdb.SkipList.{
  SkipList, new, key_eq, load, read_forward, write_forward, random_level, walk, search, find_key,
  raise, link, insert, get, drain,
}
use graphite_tsdb.SkipList.Spec.{put}
use graphite_tsdb.SkipList.Refinement.{IsSkipList}
use graphite_tsdb.SkipList.Insert.{insert_lem}
use graphite_tsdb.SkipList.Drain.{new-IsSkipList, drain_lem}
use graphite_tsdb.SkipList.Map.{get-insert}

abbrev tick_at : ℕ → ℕ → Tick
tick_at time price = record {
  symbol_id = 3;
  timestamp = pos time;
  open_price = price;
  high = price;
  low = price;
  close = price;
  volume = 1;
}

abbrev or_new : Option SkipList → SkipList
or_new none = new
or_new (some sl) = sl

-- One node, at the address 2, on the levels 0 and 1.
abbrev one : SkipList
one = or_new (insert new 2 (true ∷ false ∷ []) (tick_at 20 7))

one_runs : insert new 2 (true ∷ false ∷ []) (tick_at 20 7) ≡ some one
unfolding insert new random_level search walk read_forward load find_key raise link write_forward
one_runs = refl

some_inj : {a b : SkipList} → some a ≡ some b → a ≡ b
some_inj e = ap or_new e

-- Two nodes, the second one in front of the first.
abbrev two : SkipList
two = or_new (insert one 3 [] (tick_at 10 8))

two_runs : insert one 3 [] (tick_at 10 8) ≡ some two
unfolding insert new random_level search walk read_forward load find_key raise link write_forward
    Memtable.key_lt
two_runs = refl

abbrev two_ticks : List Tick
two_ticks = put (tick_at 10 8) (put (tick_at 20 7) [])

one-IsSkipList : IsSkipList one (put (tick_at 20 7) [])
unfolding new
one-IsSkipList =
    let (sl, (e, inv)) =
      insert_lem new [] new-IsSkipList (tick_at 20 7) 2 (true ∷ false ∷ []) refl (omega arith) in
    subst (λ x. IsSkipList x (put (tick_at 20 7) [])) (some_inj (sym e ∙ one_runs)) inv

one_free : one.heap 3 ≡ none
unfolding insert new random_level search walk read_forward load find_key raise link write_forward
one_free = refl

two-IsSkipList : IsSkipList two two_ticks
two-IsSkipList =
    let (sl, (e, inv)) =
      insert_lem one (put (tick_at 20 7) []) one-IsSkipList (tick_at 10 8) 3 [] one_free
        (omega arith) in
    subst (λ x. IsSkipList x two_ticks) (some_inj (sym e ∙ two_runs)) inv

two_free : two.heap 4 ≡ none
unfolding insert new random_level search walk read_forward load find_key raise link write_forward
    Memtable.key_lt
two_free = refl

insert_lem_example :
    (sl : SkipList) × ((insert two 4 (true ∷ true ∷ []) (tick_at 20 9) ≡ some sl)
      × IsSkipList sl (put (tick_at 20 9) two_ticks))
insert_lem_example =
    insert_lem two two_ticks two-IsSkipList (tick_at 20 9) 4 (true ∷ true ∷ []) two_free
      (omega arith)

replaced_ticks : put (tick_at 20 9) two_ticks ≡ tick_at 10 8 ∷ tick_at 20 9 ∷ []
unfolding put Memtable.key_lt
replaced_ticks = refl

get-insert_example :
    (sl : SkipList) × ((insert two 4 [] (tick_at 15 9) ≡ some sl)
      × (get sl (key_of (tick_at 20 0)) ≡ (
          if key_eq (key_of (tick_at 15 9)) (key_of (tick_at 20 0))
          then some (some (tick_at 15 9))
          else get two (key_of (tick_at 20 0)))))
get-insert_example =
    get-insert two two_ticks (tick_at 15 9) 4 [] (key_of (tick_at 20 0)) two-IsSkipList two_free
      (omega arith)

drain_lem_example : (sl : SkipList) × ((drain two ≡ some (two_ticks, sl)) × IsSkipList sl [])
drain_lem_example = drain_lem two two_ticks two-IsSkipList
