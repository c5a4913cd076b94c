-- ===== src/SkipList/Fresh.antt =====
-- An insert takes no other address than that of its new node.
use graphite_tsdb.Prelude.{
  ℕ, zero, suc, ◌+◌, ◌-◌, ◌≡◌, ◌≢◌, refl, arith, Bool, Bool-cases, inl, inr, true, false, Option,
  none, some, List, ◌==◌, leb, ltb, if◌then◌else◌,
}
use mathlib.Core.Option.{some-injective}
use mathlib.Core.Path.{subst}
use graphite_tsdb.Prelude.Options.{◌>>=◌}
use graphite_tsdb.Types.{Key, Tick, key_of}
use graphite_tsdb.SkipList.{
  Ptr, Pointers, Node, Heap, SkipList, max_level, null_pointers, write, load, put_array,
  write_forward, read_forward, link, key_eq, find_key, random_level, search, raise, insert,
}

-- The free addresses of `h` other than `a` are free in `h'`.
abbrev pub KeepsFree : Ptr → Heap → Heap → Type 0
KeepsFree a h h' = (p : Ptr) → p ≢ a → h p ≡ none → h' p ≡ none

load_used : (h : Heap) (p : Ptr) (n : Node) → load h p ≡ some n → h p ≡ some n
unfolding load
load_used h p n e = elim (Bool-cases (p == 0)) [
  | inl null ↦ absurd (ground (arith, (rw null at e)))
  | inr used ↦ (rw used at e)
]

write_used :
    (a : Ptr) (h : Heap) (q : Ptr) (n : Node) (cell : Option Node)
    → h q ≡ some n
    → KeepsFree a h (write h q cell)
write_used a h q n cell used p other free = ground (arith, used, free)

-- A chain that succeeds succeeds in its first step.
first_step :
    {A B : Type 0} (o : Option A) (f : A → Option B) (b : B)
    → (o >>= f) ≡ some b
    → (a : A) × ((o ≡ some a) × (f a ≡ some b))
first_step none f b e = absurd (ground (arith, e))
first_step (some a) f b e = (a, (refl, e))

if_some : {A : Type 0} (b : Bool) (x y : A) → (if b then some x else none) ≡ some y → x ≡ y
if_some true x y e = some-injective x y e
if_some false x y e = absurd (ground (arith, e))

write_forward-KeepsFree :
    (a : Ptr) (h h' : Heap) (p : Ptr) (i : ℕ) (q : Ptr)
    → write_forward h p i q ≡ some h'
    → KeepsFree a h h'
unfolding write_forward
write_forward-KeepsFree a h h' p i q e =
    let (n, (loaded, rest)) = first_step (load h p) _ h' e in
    let cell = some (record n { forward = put_array n.forward i q }) in
    let is : write h p cell ≡ h' = if_some (leb i max_level) (write h p cell) h' rest in
    subst (KeepsFree a h) is (write_used a h p n cell (load_used h p n loaded))

link-KeepsFree :
    (update : Pointers) (a : Ptr) (n i : ℕ) (h h' : Heap)
    → link update a n i h ≡ some h'
    → KeepsFree a h h'
unfolding link
link-KeepsFree update a zero i h h' e =
    subst (KeepsFree a h) (some-injective h h' e) (λ p other free. free)
link-KeepsFree update a (suc n) i h h' e =
    let (next, (e0, r0)) = first_step (read_forward h (update i) i) _ h' e in
    let (h1, (e1, r1)) = first_step (write_forward h a i next) _ h' r0 in
    let (h2, (e2, r2)) = first_step (write_forward h1 (update i) i a) _ h' r1 in
    λ p other free. link-KeepsFree update a n (i + 1) h2 h' r2 p other (
      write_forward-KeepsFree a h1 h2 (update i) i a e2 p other
        (write_forward-KeepsFree a h h1 a i next e1 p other free))

there :
    (o : Option Node) (g : Node → Option (Option Node)) (r : Option Node)
    → (elim o as (λ x. Option (Option Node)) [ none ↦ none | some n ↦ g n ]) ≡ some r
    → (m : Node) × (o ≡ some m)
there none g r e = absurd (ground (arith, e))
there (some m) g r e = (m, refl)

find_key_used :
    (h : Heap) (next : Ptr) (key : Key) (n : Node)
    → find_key h next key ≡ some (some n)
    → (m : Node) × (h next ≡ some m)
unfolding find_key
find_key_used h next key n e = elim (Bool-cases (next == 0)) [
  | inl null ↦ absurd (ground (arith, (rw null at e)))
  | inr used ↦
      there (h next) (λ k. some (if key_eq k.key key then some k else none)) (some n) (rw used at e)
]

-- The end of an insert, on what was found.
end_KeepsFree :
    (sl sl' : SkipList) (a : Ptr) (tick : Tick) (next : Ptr) (linked : Option Heap) (level : ℕ)
    (found : Option Node)
    → find_key sl.heap next (key_of tick) ≡ some found
    → ((h : Heap) → linked ≡ some h → KeepsFree a sl.heap h)
    → (elim found as (λ x. Option SkipList) [
      | some n ↦ some (record sl { heap = write sl.heap next (some (record n { tick = tick })) })
      | none ↦ linked >>= λ h.
          some (record { heap = h; head = sl.head; level = level; len = sl.len + 1 })
    ])
      ≡ some sl'
    → KeepsFree a sl.heap sl'.heap
end_KeepsFree sl sl' a tick next linked level (some n) there_e new e =
    let (m, used) = find_key_used sl.heap next (key_of tick) n there_e in
    let cell = some (record n { tick = tick }) in
    subst (λ (x : SkipList). KeepsFree a sl.heap x.heap)
      (some-injective (record sl { heap = write sl.heap next cell }) sl' e)
      (write_used a sl.heap next m cell used)
end_KeepsFree sl sl' a tick next linked level none there_e new e =
    let (h, (done, rest)) = first_step linked _ sl' e in
    subst (λ (x : SkipList). KeepsFree a sl.heap x.heap)
      (some-injective (record { heap = h; head = sl.head; level = level; len = sl.len + 1 }) sl'
        rest)
      (new h done)

-- After an insert all addresses are free that were, but for that of the new node.
pub insert-KeepsFree :
    (sl sl' : SkipList) (a : Ptr) (draws : List Bool) (tick : Tick)
    → insert sl a draws tick ≡ some sl'
    → KeepsFree a sl.heap sl'.heap
unfolding insert
insert-KeepsFree sl sl' a draws tick e =
    let key = key_of tick in
    let (reached, (e0, r0)) =
      first_step (search (suc sl.len) sl.heap key (sl.level + 1) sl.head null_pointers) _ sl' e in
    let (next, (e1, r1)) = first_step (read_forward sl.heap reached.0 0) _ sl' r0 in
    let (found, (e2, r2)) = first_step (find_key sl.heap next key) _ sl' r1 in
    let new_level = random_level 0 draws in
    let update = raise sl.head (new_level - sl.level) (sl.level + 1) reached.1 in
    let node : Node = record { key = key; tick = tick; forward = null_pointers } in
    let placed = write sl.heap a (some node) in
    end_KeepsFree sl sl' a tick next (link update a (new_level + 1) 0 placed)
      (if ltb sl.level new_level then new_level else sl.level) found e2
      (λ h done p other free.
        link-KeepsFree update a (new_level + 1) 0 placed h done p other
          (ground (arith, other, free)))
      r2
