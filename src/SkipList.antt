-- ===== src/SkipList.antt =====
-- graphite-core/src/skip_list.rs: the memtable. A heap maps addresses to nodes, a raw pointer is an
-- address, and a read through a pointer that holds no node, or out of the bounds of an array, is
-- `none`. The address of a new node and the draws of the random numbers are arguments.
pub mod Cells
pub mod Chain
pub mod Search
pub mod Link
pub mod Frames
pub mod Spec
pub mod Contents
pub mod Overwrite
pub mod Linked
pub mod Refinement
pub mod Insert
pub mod Drain
pub mod Map
pub mod Fresh
mod Examples
use graphite_tsdb.Prelude.{
  ℕ, zero, suc, ◌+◌, ◌-◌, ◌^◌, ◌≡◌, Bool, true, false, ◌&&◌, Option, none, some, List, [], ◌∷◌,
  ◌++◌, ltb, leb, ◌==◌, if◌then◌else◌,
}
use graphite_tsdb.Prelude.Options.{◌>>=◌}
use Prim.Native.Nat.{Ordering}
use graphite_tsdb.Prelude.Int.{ℤ, pos, negsuc}
use graphite_tsdb.Types.{Key, Tick, key_of, cmp}

abbrev pub max_level : ℕ
max_level = 16

abbrev pub Ptr : Type 0
Ptr = ℕ

-- `[*mut Node; MAX_LEVEL + 1]`
abbrev pub Pointers : Type 0
Pointers = ℕ → Ptr

pub record Node : Type 0 where
  pub key : Key
  pub tick : Tick
  pub forward : Pointers

abbrev pub Heap : Type 0
Heap = Ptr → Option Node

pub record SkipList : Type 0 where
  pub heap : Heap
  pub head : Ptr
  pub level : ℕ
  pub len : ℕ

-- `next_key.cmp(&key) == Ordering::Less`
abbrev pub key_lt : Key → Key → Bool
unfolding cmp
key_lt a b = elim (cmp a b) [ Ordering.lt ↦ true | _ ↦ false ]

-- `==` of keys
abbrev pub key_eq : Key → Key → Bool
unfolding cmp
key_eq a b = elim (cmp a b) [ Ordering.eq ↦ true | _ ↦ false ]

abbrev pub null_pointers : Pointers
null_pointers i = 0

abbrev pub put_array : Pointers → ℕ → Ptr → Pointers
put_array ps i p j = if j == i then p else ps j

abbrev pub write : Heap → Ptr → Option Node → Heap
write h p cell a = if a == p then cell else h a

pub load : Heap → Ptr → Option Node
load h p = if p == 0 then none else h p

-- `(*p).forward[i]`
pub read_forward : Heap → Ptr → ℕ → Option Ptr
unfolding load
read_forward h p i = do n ← load h p; if leb i max_level then some (n.forward i) else none

-- `(*p).forward[i] = q`
pub write_forward : Heap → Ptr → ℕ → Ptr → Option Heap
unfolding load
write_forward h p i q = do
  n ← load h p
  if leb i max_level
      then some (write h p (some (record n { forward = put_array n.forward i q })))
      else none

abbrev head_key : Key
head_key = record { symbol_id = 0; timestamp = negsuc (2 ^ 63 - 1) }

abbrev head_tick : Tick
head_tick = record {
  symbol_id = 0;
  timestamp = negsuc (2 ^ 63 - 1);
  open_price = 0;
  high = 0;
  low = 0;
  close = 0;
  volume = 0;
}

abbrev head_node : Node
head_node = record { key = head_key; tick = head_tick; forward = null_pointers }

-- `SkipList::new`, with its head at the address 1.
unfoldable pub new : SkipList
new = record { heap = write (λ p. none) 1 (some head_node); head = 1; level = 0; len = 0 }

-- `random_level`; a draw is whether a random number is below `P`.
pub random_level : ℕ → List Bool → ℕ
random_level lvl [] = lvl
random_level lvl (draw ∷ draws) =
    let higher = random_level (lvl + 1) draws in if draw && ltb lvl max_level then higher else lvl

-- The inner `loop` at level `i`, with fuel: the last node whose key is less than `key`.
pub walk : ℕ → Heap → Key → ℕ → Ptr → Option Ptr
unfolding read_forward load
walk zero h key i current = none
walk (suc fuel) h key i current = elim (read_forward h current i) [
  | none ↦ none
  | some next ↦
      let further = walk fuel h key i next in
      if next == 0 then some current else elim (load h next) [
        | none ↦ none
        | some n ↦ if key_lt n.key key then further else some current
      ]
]

-- The loop over the levels of `insert`, for the `n` lowest ones.
pub search : ℕ → Heap → Key → ℕ → Ptr → Pointers → Option (Ptr × Pointers)
unfolding walk
search fuel h key zero current update = some (current, update)
search fuel h key (suc i) current update = elim (walk fuel h key i current) [
  | none ↦ none
  | some next ↦ search fuel h key i next (put_array update i next)
]

-- The loop over the levels of `get`.
pub descend : ℕ → Heap → Key → ℕ → Ptr → Option Ptr
unfolding walk
descend fuel h key zero current = some current
descend fuel h key (suc i) current = elim (walk fuel h key i current) [
  | none ↦ none
  | some next ↦ descend fuel h key i next
]

-- The node at `next` if it is there and has the key.
pub find_key : Heap → Ptr → Key → Option (Option Node)
unfolding load
find_key h next key = if next == 0 then some none else elim (load h next) [
  | none ↦ none
  | some n ↦ some (if key_eq n.key key then some n else none)
]

-- `for i in (level + 1)..=new_level`, for `n` levels from `i` on.
pub raise : Ptr → ℕ → ℕ → Pointers → Pointers
raise head zero i update = update
raise head (suc n) i update = raise head n (i + 1) (put_array update i head)

-- `for i in 0..=new_level`, for `n` levels from `i` on.
pub link : Pointers → Ptr → ℕ → ℕ → Heap → Option Heap
unfolding read_forward write_forward
link update new_node zero i h = some h
link update new_node (suc n) i h = do
  next ← read_forward h (update i) i
  h1 ← write_forward h new_node i next
  h2 ← write_forward h1 (update i) i new_node
  link update new_node n (i + 1) h2

-- `insert`, for the address of a new node. Each walk has fuel for all nodes.
pub insert : SkipList → Ptr → List Bool → Tick → Option SkipList
unfolding random_level search read_forward find_key raise link
insert sl address draws tick = do
  let key = key_of tick
  let new_level = random_level 0 draws
  (current, update) ← search (suc sl.len) sl.heap key (sl.level + 1) sl.head null_pointers
  next ← read_forward sl.heap current 0
  found ← find_key sl.heap next key
  elim found [
    | some n ↦ some (record sl { heap = write sl.heap next (some (record n { tick = tick })) })
    | none ↦ do
      let level = if ltb sl.level new_level then new_level else sl.level
      let update' = raise sl.head (new_level - sl.level) (sl.level + 1) update
      let node : Node = record { key = key; tick = tick; forward = null_pointers }
      h ← link update' address (new_level + 1) 0 (write sl.heap address (some node))
      some (record { heap = h; head = sl.head; level = level; len = sl.len + 1 })
  ]

pub get : SkipList → Key → Option (Option Tick)
unfolding descend read_forward find_key
get sl key = do
  current ← descend (suc sl.len) sl.heap key (sl.level + 1) sl.head
  next ← read_forward sl.heap current 0
  found ← find_key sl.heap next key
  some (elim found [ none ↦ none | some n ↦ some n.tick ])

pub length : SkipList → ℕ
length sl = sl.len

pub is_empty : SkipList → Bool
is_empty sl = sl.len == 0

-- The ticks that an iterator at `current` returns, with fuel.
pub iterate : ℕ → Heap → Ptr → Option (List Tick)
unfolding load
iterate zero h current = none
iterate (suc fuel) h current = if current == 0 then some [] else elim (load h current) [
  | none ↦ none
  | some n ↦ elim (iterate fuel h (n.forward 0)) [ none ↦ none | some ts ↦ some (n.tick ∷ ts) ]
]

-- All that `iter` returns.
pub iter : SkipList → Option (List Tick)
unfolding read_forward iterate
iter sl = do first ← read_forward sl.heap sl.head 0; iterate (suc sl.len) sl.heap first

-- The loop of `clear` that frees the nodes, with fuel.
pub free_nodes : ℕ → Heap → Ptr → Option Heap
unfolding load
free_nodes zero h current = none
free_nodes (suc fuel) h current = if current == 0 then some h else elim (load h current) [
  | none ↦ none
  | some n ↦ free_nodes fuel (write h current none) (n.forward 0)
]

-- `for i in 0..=level`, for `n` levels from `i` on.
pub reset_head : Ptr → ℕ → ℕ → Heap → Option Heap
unfolding write_forward
reset_head head zero i h = some h
reset_head head (suc n) i h = do h' ← write_forward h head i 0; reset_head head n (i + 1) h'

pub clear : SkipList → Option SkipList
unfolding read_forward free_nodes reset_head
clear sl = do
  first ← read_forward sl.heap sl.head 0
  h ← free_nodes (suc sl.len) sl.heap first
  h' ← reset_head sl.head (sl.level + 1) 0 h
  some (record { heap = h'; head = sl.head; level = 0; len = 0 })

pub drain : SkipList → Option (List Tick × SkipList)
unfolding iter clear
drain sl = do ticks ← iter sl; sl' ← clear sl; some (ticks, sl')
