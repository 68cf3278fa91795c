-- ===== src/ReplayBuffer/Retrieve.antt =====
-- Where retrieveLeaf ends.
use hyperbot.Prelude.{
  ℕ, zero, suc, ◌+◌, ◌-◌, ◌*◌, ◌≤◌, ◌<◌, ◌≡◌, refl, sym, ap, ◌∙◌, subst, true, false, List, ltb,
  leb, Bool-cases, inl, inr, length, Result, ok, err, arith,
}
use hyperbot.ReplayBuffer.{
  Floats, ReplayBuffer, BufferError, at, min_of, descend, retrieve_leaf, children_sum,
}
use hyperbot.ReplayBuffer.SumTree.{IsSumTree}

module _ {F : Type 0} (floats : Floats F) where
  -- A node without children.
  abbrev pub Childless : List F → Result BufferError ℕ → Type 0
  Childless tree r =
      (node : ℕ) × (r ≡ ok node) × (node < length tree) × (length tree ≤ 2 * node + 1)

  descend-Childless :
      (fuel : ℕ) (tree : List F) (half node : ℕ) (value : F)
      → length tree ≡ 2 * half + 1
      → node < length tree
      → length tree ≤ fuel + node
      → Childless tree (descend floats fuel tree node value)
  unfolding descend
  descend-Childless zero tree half node value odd inside enough = absurd (omega arith)
  descend-Childless (suc fuel) tree half node value odd inside enough =
      elim (Bool-cases (leb (length tree) (2 * node + 1))) [
        | inl leaf ↦ rw (leaf) (node, refl, inside, ground arith)
        | inr inner ↦ elim (Bool-cases (floats.le value (at floats tree (2 * node + 1)))) [
          | inl left ↦
              rw (inner, left)
                (descend-Childless fuel tree half (2 * node + 1) value odd (ground arith)
                  (ground arith))
          | inr right ↦
              rw (inner, right, in_tree inner)
                (descend-Childless fuel tree half (2 * node + 2)
                  (min_of floats (floats.sub value (at floats tree (2 * node + 1)))
                    (at floats tree (2 * node + 2)))
                  odd (ground arith) (ground arith))
        ]
      ]
    where
      in_tree : leb (length tree) (2 * node + 1) ≡ false → ltb (2 * node + 2) (length tree) ≡ true
      in_tree inner = ground arith

  retrieved :
      (b : ReplayBuffer F) (value : F) (node : ℕ)
      → descend floats (length (b.sum_tree)) (b.sum_tree) 0 value ≡ ok node
      → node - (b.capacity - 1) + b.capacity - 1 ≡ node
      → retrieve_leaf floats b value
        ≡ ok (
          node - (b.capacity - 1),
          at floats (b.sum_tree) (node - (b.capacity - 1) + b.capacity - 1),
        )
  unfolding retrieve_leaf
  retrieved b value node ends same = rw (retrieve_leaf, ends, same) refl

  -- In the tree of a buffer with a capacity, retrieveLeaf ends for any value and any floats, never
  -- throws, and gives a leaf of the buffer with the priority that stands at it.
  pub retrieve_leaf_total :
      (b : ReplayBuffer F) (value : F)
      → 0 < b.capacity
      → length (b.sum_tree) ≡ 2 * b.capacity - 1
      → (leaf : ℕ) × (retrieve_leaf floats b value
          ≡ ok (leaf, at floats (b.sum_tree) (leaf + b.capacity - 1)))
        × (leaf < b.capacity)
  retrieve_leaf_total b value some_room size =
      let (node, ends, inside, leaf) =
        descend-Childless (length (b.sum_tree)) (b.sum_tree) (b.capacity - 1) 0 value (omega arith)
          (omega arith) (omega arith) in
      (node - (b.capacity - 1), retrieved b value node ends (omega arith), omega arith)

-- Floats that do not round: the naturals, for any priority function.
abbrev pub exact : (ℕ → ℕ) → Floats ℕ
exact priority = record {
  f0 = 0;
  f1 = 1;
  add = ◌+◌;
  sub = ◌-◌;
  lt = ltb;
  le = leb;
  calculate_priority = priority;
}

abbrev node_of : Result BufferError ℕ → ℕ
node_of (ok node) = node
node_of (err e) = 0

module _ (priority : ℕ → ℕ) where
  abbrev Positive : List ℕ → Result BufferError ℕ → Type 0
  Positive tree r = (node : ℕ) × (r ≡ ok node) × (0 < at (exact priority) tree node)

  descend-Positive :
      (fuel : ℕ) (tree : List ℕ) (half node value : ℕ)
      → length tree ≡ 2 * half + 1
      → IsSumTree (exact priority) tree
      → 0 < value
      → value ≤ at (exact priority) tree node
      → Positive tree (descend (exact priority) fuel tree node value)
  unfolding descend children_sum
  descend-Positive zero tree half node value odd sums positive fits = (node, refl, omega arith)
  descend-Positive (suc fuel) tree half node value odd sums positive fits =
      elim (Bool-cases (leb (length tree) (2 * node + 1))) [
        | inl leaf ↦ rw (leaf) (node, refl, omega arith)
        | inr inner ↦ elim (Bool-cases (leb value (at (exact priority) tree (2 * node + 1)))) [
          | inl left ↦
              rw (inner, left)
                (descend-Positive fuel tree half (2 * node + 1) value odd sums positive
                  (ground arith))
          | inr right ↦
              let below : ltb (2 * node + 2) (length tree) ≡ true = ground arith in
              let here = sums node (ground arith) in
              rw (inner, right, below)
                (descend-Positive fuel tree half (2 * node + 2)
                  (min_of (exact priority) (value - at (exact priority) tree (2 * node + 1))
                    (at (exact priority) tree (2 * node + 2)))
                  odd sums (ground (arith, here)) (ground (arith, here)))
        ]
      ]

  -- With floats that do not round, in a tree of sums, a value above zero and up to the total priority
  -- leads retrieveLeaf to a leaf of the buffer whose priority is above zero: never to a deleted one.
  pub retrieve_leaf_positive :
      (b : ReplayBuffer ℕ) (value : ℕ)
      → 0 < b.capacity
      → length (b.sum_tree) ≡ 2 * b.capacity - 1
      → IsSumTree (exact priority) (b.sum_tree)
      → 0 < value
      → value ≤ at (exact priority) (b.sum_tree) 0
      → (leaf p : ℕ) × (retrieve_leaf (exact priority) b value ≡ ok (leaf, p))
        × (leaf < b.capacity)
        × (0 < p)
  retrieve_leaf_positive b value some_room size sums positive fits =
      let floats = exact priority in
      let (node, ends, inside, leaf) =
        descend-Childless floats (length (b.sum_tree)) (b.sum_tree) (b.capacity - 1) 0 value
          (omega arith) (omega arith) (omega arith) in
      let (other, also, above) =
        descend-Positive (length (b.sum_tree)) (b.sum_tree) (b.capacity - 1) 0 value (omega arith)
          sums positive fits in
      let same : node ≡ other = ap node_of (sym ends ∙ also) in
      let back : node - (b.capacity - 1) + b.capacity - 1 ≡ node = omega arith in
      (
        node - (b.capacity - 1),
        at floats (b.sum_tree) (node - (b.capacity - 1) + b.capacity - 1),
        retrieved floats b value node ends (omega arith),
        omega arith,
        subst (λ k. 0 < at floats (b.sum_tree) k) (sym (back ∙ same)) above,
      )
