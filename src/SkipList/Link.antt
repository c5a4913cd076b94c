-- ===== src/SkipList/Link.antt =====
-- What `insert` does to the pointers when it links a new node into some levels.
use graphite_tsdb.Prelude.{
  ℕ, zero, suc, ◌+◌, ◌≤◌, ◌<◌, ◌≡◌, ◌≢◌, refl, ap, ◌∙◌, arith, Bool, true, false, ◌&&◌, some, leb,
  ltb, ◌==◌, if◌then◌else◌, ℕ_discrete,
}
use graphite_tsdb.SkipList.{
  Ptr, Pointers, Node, Heap, max_level, put_array, write, write_forward, raise, link,
}
use graphite_tsdb.SkipList.Chain.{Holds, load-Holds, read_forward-Holds}

-- Whether the level `j` is one of `n` levels from `i` on.
abbrev pub inside : ℕ → ℕ → ℕ → Bool
inside i n j = leb i j && ltb j (i + n)

pub raise_lem :
    (head : Ptr) (n i j : ℕ) (update : Pointers)
    → raise head n i update j ≡ (if inside i n j then head else update j)
unfolding raise
raise_lem head zero i j update = ground arith
raise_lem head (suc n) i j update = raise_lem head n (i + 1) j _ ∙ ground arith

module _ (update : Pointers) (address : Ptr) (next : ℕ → Ptr) where
  -- The pointer at level `j` of the node at `p` when `n` levels from `i` on are linked.
  abbrev pub relinked : ℕ → ℕ → Ptr → Node → ℕ → Ptr
  relinked i n p node j =
      if inside i n j
      then (if p == address then next j else if p == update j then address else node.forward j)
      else node.forward j

  -- Every node is still there, with its key and tick and the pointers of `relinked`.
  abbrev pub Relinked : ℕ → ℕ → Heap → Heap → Type 0
  Relinked i n h h' =
      (p : Ptr) (node : Node)
      → h p ≡ some node
      → (node' : Node) × ((h' p ≡ some node')
          × ((node'.key ≡ node.key)
              × ((node'.tick ≡ node.tick) × ((j : ℕ) → node'.forward j ≡ relinked i n p node j))))

  -- The nodes in front of the new one at the levels that are left, which point to `next`.
  abbrev pub Ready : ℕ → ℕ → Heap → Type 0
  Ready i n h =
      (j : ℕ)
      → i ≤ j
      → j < i + n
      → (update j ≢ address)
        × ((node : Node) × (Holds h (update j) node × (node.forward j ≡ next j)))

  module _ (i : ℕ) (bound : i ≤ max_level) (h : Heap) (new_node : Node)
      (there : Holds h address new_node) where
    abbrev h1 : Heap
    h1 =
        write h address (some (record new_node { forward = put_array new_node.forward i (next i) }))

    module _ (front : Node) (at : Holds h (update i) front) (points : front.forward i ≡ next i)
        (ne : update i ≢ address) where
      abbrev h2 : Heap
      h2 = write h1 (update i) (some (record front { forward = put_array front.forward i address }))

      link_round : (n : ℕ) → link update address (suc n) i h ≡ link update address n (i + 1) h2
      unfolding link write_forward
      link_round n =
          let kept : Holds h1 (update i) front = record {
            ne_null = at.ne_null;
            holds = let c = at.holds in ground arith;
          } in
          let small : leb i max_level ≡ true = ground arith in
          rw (read_forward-Holds at i bound, points, load-Holds there, small, load-Holds kept) refl

      h2-Relinked : Relinked i 1 h h2
      h2-Relinked p node e = elim (ℕ_discrete p (update i)) [
        | yes same ↦
            let found = at.holds in
            let this : front ≡ node = ground arith in
            (
              record front { forward = put_array front.forward i address },
              (
                ground arith,
                (
                  ap (λ (n : Node). n.key) this,
                  (ap (λ (n : Node). n.tick) this, λ j. ground arith),
                ),
              ),
            )
        | no other ↦ elim (ℕ_discrete p address) [
          | yes same ↦
              let found = there.holds in
              let this : new_node ≡ node = ground arith in
              (
                record new_node { forward = put_array new_node.forward i (next i) },
                (
                  ground arith,
                  (
                    ap (λ (n : Node). n.key) this,
                    (ap (λ (n : Node). n.tick) this, λ j. ground arith),
                  ),
                ),
              )
          | no far ↦ (node, (ground arith, (refl, (refl, λ j. ground arith))))
        ]
      ]

  Relinked-compose :
      (i n : ℕ) (h g h' : Heap)
      → Relinked i 1 h g
      → Relinked (i + 1) n g h'
      → Relinked i (suc n) h h'
  Relinked-compose i n h g h' first rest p node e =
      let (node1, (e1, (k1, (t1, f1)))) = first p node e in
      let (node2, (e2, (k2, (t2, f2)))) = rest p node1 e1 in
      (node2, (e2, (k2 ∙ k1, (t2 ∙ t1, λ j. chain j node1 node2 (f1 j) (f2 j)))))
    where
      chain :
          (j : ℕ) (node1 node2 : Node)
          → node1.forward j ≡ relinked i 1 p node j
          → node2.forward j ≡ relinked (i + 1) n p node1 j
          → node2.forward j ≡ relinked i (suc n) p node j
      chain j node1 node2 f1 f2 = ground arith

  Relinked-Holds :
      (i n : ℕ) (h h' : Heap) (p : Ptr) (node : Node)
      → Relinked i n h h'
      → Holds h p node
      → (node' : Node) × (Holds h' p node'
          × ((node'.key ≡ node.key)
              × ((node'.tick ≡ node.tick) × ((j : ℕ) → node'.forward j ≡ relinked i n p node j))))
  Relinked-Holds i n h h' p node rel at =
      let (node', (e, same)) = rel p node at.holds in
      (node', (record { ne_null = at.ne_null; holds = e }, same))

  pub link_lem :
      (n i : ℕ) (h : Heap) (new_node : Node)
      → i + n ≤ suc max_level
      → Holds h address new_node
      → Ready i n h
      → (h' : Heap) × ((link update address n i h ≡ some h') × Relinked i n h h')
  link_lem zero i h new_node b there ready =
      (h, (unfold link in refl, λ p node e. (node, (e, (refl, (refl, λ j. ground arith))))))
  link_lem (suc n) i h new_node b there ready =
      let (ne, (front, (at, points))) = ready i (omega arith) (omega arith) in
      let g = h2 i (omega arith) h new_node there front at points ne in
      let step = h2-Relinked i (omega arith) h new_node there front at points ne in
      let (new', (there', rest)) = Relinked-Holds i 1 h g address new_node step there in
      let ready' : Ready (i + 1) n g = λ j lo hi.
        let (nej, (node, (atj, pointsj))) = ready j (omega arith) (omega arith) in
        let (node', (at', (k, (t, f)))) = Relinked-Holds i 1 h g (update j) node step atj in
        let out : inside i 1 j ≡ false = ground arith in
        let kept : node'.forward j ≡ node.forward j = rw out at (f j) in
        (nej, (node', (at', kept ∙ pointsj))) in
      let (h', (run, rel)) = link_lem n (i + 1) g new' (omega arith) there' ready' in
      (
        h',
        (
          link_round i (omega arith) h new_node there front at points ne n ∙ run,
          Relinked-compose i n h g h' step rel,
        ),
      )
