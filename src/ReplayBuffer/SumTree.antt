-- ===== src/ReplayBuffer/SumTree.antt =====
-- Every inner node holds the sum of its children.
use hyperbot.Prelude.{
  ℕ, zero, suc, ◌+◌, ◌-◌, ◌*◌, ◌/◌, ◌<◌, ◌≡◌, ◌≢◌, refl, sym, ◌∙◌, List, ◌==◌, if◌then◌else◌,
  Bool-cases, inl, inr, ==_iff, subst, length, length-set, set, get_or-set_self, get_or-set_ne,
  arith,
}
use hyperbot.ReplayBuffer.{Floats, at, children_sum, propagate_from, changed_leaf}

module _ {F : Type 0} (floats : Floats F) where
  abbrev pub Summed : List F → ℕ → Type 0
  Summed tree k = at floats tree k ≡ children_sum floats tree k

  abbrev pub IsSumTree : List F → Type 0
  IsSumTree tree = (k : ℕ) → 2 * k + 1 < length tree → Summed tree k

  -- All inner nodes but one.
  abbrev pub SummedBut : ℕ → List F → Type 0
  SummedBut c tree = (k : ℕ) → 2 * k + 1 < length tree → k ≢ c → Summed tree k

  -- A write leaves the sums of the nodes that are not its parent.
  children_sum-set :
      (tree : List F) (i k : ℕ) (v : F)
      → i ≢ 2 * k + 1
      → i ≢ 2 * k + 2
      → children_sum floats (set tree i v) k ≡ children_sum floats tree k
  unfolding children_sum
  children_sum-set tree i k v not_left not_right =
      rw
        (
          length-set tree i v,
          get_or-set_ne tree i (2 * k + 1) v (floats.f0) not_left,
          get_or-set_ne tree i (2 * k + 2) v (floats.f0) not_right,
        )
        refl

  Summed-set :
      (tree : List F) (i k : ℕ) (v : F)
      → i ≢ k
      → i ≢ 2 * k + 1
      → i ≢ 2 * k + 2
      → Summed tree k
      → Summed (set tree i v) k
  Summed-set tree i k v not_it not_left not_right h =
      rw
        (
          get_or-set_ne tree i k v (floats.f0) not_it,
          children_sum-set tree i k v not_left not_right,
        )
        h

  children_sum-Summed :
      (tree : List F) (c : ℕ) → c < length tree → Summed (set tree c (children_sum floats tree c)) c
  children_sum-Summed tree c h =
      rw
        (
          get_or-set_self tree c (children_sum floats tree c) (floats.f0) h,
          children_sum-set tree c c (children_sum floats tree c) (λ e. ground arith)
              (λ e. ground arith),
        )
        refl

  others :
      (tree : List F) (c k : ℕ)
      → c < length tree
      → SummedBut c tree
      → 2 * k + 1 < length tree
      → c ≢ 2 * k + 1
      → c ≢ 2 * k + 2
      → Summed (set tree c (children_sum floats tree c)) k
  others tree c k h but inside not_left not_right = elim (Bool-cases (k == c)) [
    | inl same ↦
        subst (Summed (set tree c (children_sum floats tree c))) (sym ((==_iff k c).0 same))
          (children_sum-Summed tree c h)
    | inr other ↦
        Summed-set tree c k (children_sum floats tree c) (λ e. ground arith) not_left not_right
          (but k inside (λ e. ground arith))
  ]

  step_up :
      (tree : List F) (c : ℕ)
      → c < length tree
      → SummedBut c tree
      → SummedBut ((c - 1) / 2) (set tree c (children_sum floats tree c))
  step_up tree c h but k inside not_parent =
      others tree c k h but (omega (arith, length-set tree c (children_sum floats tree c)))
        (λ e. not_parent (ground arith)) (λ e. not_parent (ground arith))

  at_root :
      (tree : List F) (c : ℕ)
      → c < length tree
      → c ≡ 0
      → SummedBut c tree
      → IsSumTree (set tree c (children_sum floats tree c))
  at_root tree c h root but k inside =
      others tree c k h but (omega (arith, length-set tree c (children_sum floats tree c)))
        (λ e. omega arith) (λ e. omega arith)

  propagate_from-IsSumTree :
      (fuel c : ℕ) (tree : List F)
      → c < fuel
      → c < length tree
      → SummedBut c tree
      → IsSumTree (propagate_from floats fuel c tree)
  unfolding propagate_from
  propagate_from-IsSumTree zero c tree enough h but = absurd (omega arith)
  propagate_from-IsSumTree (suc fuel) c tree enough h but = elim (Bool-cases (c == 0)) [
    | inl root ↦ rw (root) (at_root tree c h (ground arith) but)
    | inr inner ↦ rw (inner) (
        propagate_from-IsSumTree fuel ((c - 1) / 2) (set tree c (children_sum floats tree c))
          (ground arith) (ground (arith, length-set tree c (children_sum floats tree c)))
          (step_up tree c h but))
  ]

  -- Propagation keeps the size, and the nodes behind its start.
  propagate_from_keeps :
      (fuel c : ℕ) (tree : List F)
      → (length (propagate_from floats fuel c tree) ≡ length tree)
        × ((j : ℕ) → c < j → at floats (propagate_from floats fuel c tree) j ≡ at floats tree j)
  unfolding propagate_from
  propagate_from_keeps zero c tree = (refl, λ j h. refl)
  propagate_from_keeps (suc fuel) c tree =
      let changed = set tree c (children_sum floats tree c) in
      let (size, same) = propagate_from_keeps fuel ((c - 1) / 2) changed in
      elim (Bool-cases (c == 0)) [
        | inl root ↦ rw (root) (
          length-set tree c (children_sum floats tree c),
          λ j h. get_or-set_ne tree c j (children_sum floats tree c) (floats.f0) (λ e. omega arith),
        )
        | inr inner ↦ rw (inner) (
          size ∙ length-set tree c (children_sum floats tree c),
          λ j h.
              same j (omega arith)
              ∙ get_or-set_ne tree c j (children_sum floats tree c) (floats.f0) (λ e. omega arith),
        )
      ]

  -- A leaf that is not the root has its parent as the only node left to sum.
  leaf_written :
      (capacity leaf : ℕ) (tree : List F) (priority : F)
      → length tree ≡ 2 * capacity - 1
      → leaf < capacity
      → IsSumTree tree
      → SummedBut ((leaf + capacity - 1 - 1) / 2) (set tree (leaf + capacity - 1) priority)
  leaf_written capacity leaf tree priority size inside sums k below not_parent =
      let size_set = length-set tree (leaf + capacity - 1) priority in
      Summed-set tree (leaf + capacity - 1) k priority (λ e. omega arith)
        (λ e. not_parent (omega arith)) (λ e. not_parent (omega arith)) (sums k (omega arith))

  leaves_written :
      (capacity leaf other : ℕ) (tree : List F) (priority : F)
      → length tree ≡ 2 * capacity - 1
      → leaf < capacity
      → at floats (set tree (leaf + capacity - 1) priority) (other + capacity - 1)
        ≡ (if other == leaf then priority else at floats tree (other + capacity - 1))
  leaves_written capacity leaf other tree priority size inside = elim (Bool-cases (other == leaf)) [
    | inl same ↦
        rw (same, (==_iff other leaf).0 same)
          (get_or-set_self tree (leaf + capacity - 1) priority (floats.f0) (omega arith))
    | inr different ↦ rw (different) (
        get_or-set_ne tree (leaf + capacity - 1) (other + capacity - 1) priority (floats.f0)
          (λ e. ground arith))
  ]

  -- Changing a leaf of a tree of sums gives a tree of sums of the same size, with the new priority at
  -- that leaf and the old one at every other leaf.
  pub changed_leaf-IsSumTree :
      (capacity leaf : ℕ) (tree : List F) (priority : F)
      → length tree ≡ 2 * capacity - 1
      → leaf < capacity
      → IsSumTree tree
      → let after = changed_leaf floats capacity tree leaf priority in
        IsSumTree after
        × (length after ≡ 2 * capacity - 1)
        × ((other : ℕ)
            → at floats after (other + capacity - 1)
              ≡ (if other == leaf then priority else at floats tree (other + capacity - 1)))
  unfolding changed_leaf
  changed_leaf-IsSumTree capacity leaf tree priority size inside sums =
      elim (Bool-cases (leaf + capacity - 1 == 0)) [
        | inl root ↦ rw (root) (
          λ k below. absurd (ground (arith, length-set tree (leaf + capacity - 1) priority)),
          length-set tree (leaf + capacity - 1) priority ∙ size,
          λ other. leaves_written capacity leaf other tree priority size inside,
        )
        | inr inner ↦
            let parent = (leaf + capacity - 1 - 1) / 2 in
            let written = set tree (leaf + capacity - 1) priority in
            let (same_size, kept) = propagate_from_keeps (leaf + capacity - 1) parent written in
            rw (inner) (
              propagate_from-IsSumTree (leaf + capacity - 1) parent written (ground arith)
                  (ground (arith, length-set tree (leaf + capacity - 1) priority))
                  (leaf_written capacity leaf tree priority size inside sums),
              same_size ∙ length-set tree (leaf + capacity - 1) priority ∙ size,
              λ other.
                  kept (other + capacity - 1) (ground arith)
                  ∙ leaves_written capacity leaf other tree priority size inside,
            )
      ]
