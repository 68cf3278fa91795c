-- ===== src/ReplayBuffer/Priorities.antt =====
-- What updatePriorities keeps.
use hyperbot.Prelude.{
  ℕ, ◌-◌, ◌*◌, ◌≡◌, refl, not, List, [], ◌∷◌, length, ltb, leb, ◌==◌, Bool-cases, inl, inr, arith,
}
use hyperbot.ReplayBuffer.{
  Floats, ReplayBuffer, with_tree, max_of, changed_leaf, update_each, update_priorities,
}
use hyperbot.ReplayBuffer.SumTree.{IsSumTree, changed_leaf-IsSumTree}

module _ {F : Type 0} (floats : Floats F) where
  -- The tree has a node for every sum, and is a tree of sums.
  pub record Summing (b : ReplayBuffer F) : Type 0 where
    pub size : length (b.sum_tree) ≡ 2 * b.capacity - 1
    pub sums : IsSumTree floats (b.sum_tree)

  -- What an update must not touch.
  pub record SameButTree (b after : ReplayBuffer F) : Type 0 where
    pub capacity : after.capacity ≡ b.capacity
    pub next_leaf_index : after.next_leaf_index ≡ b.next_leaf_index
    pub next_leaf_indices : after.next_leaf_indices ≡ b.next_leaf_indices
    pub current_buffer_size : after.current_buffer_size ≡ b.current_buffer_size

  update_each_keeps :
      (ids : List ℕ) (priorities : List F) (b : ReplayBuffer F)
      → Summing b
      → Summing ((update_each floats b ids priorities).0)
        × SameButTree b ((update_each floats b ids priorities).0)
  unfolding update_each
  update_each_keeps [] priorities b s = (
    s,
    record {
      capacity = refl;
      next_leaf_index = refl;
      next_leaf_indices = refl;
      current_buffer_size = refl;
    },
  )
  update_each_keeps (id ∷ ids) [] b s = (
    s,
    record {
      capacity = refl;
      next_leaf_index = refl;
      next_leaf_indices = refl;
      current_buffer_size = refl;
    },
  )
  update_each_keeps (id ∷ ids) (p ∷ ps) b s = elim (Bool-cases (leb (b.capacity) id)) [
    | inl outside ↦ rw (outside) (
      record { size = s.size; sums = s.sums },
      record {
        capacity = refl;
        next_leaf_index = refl;
        next_leaf_indices = refl;
        current_buffer_size = refl;
      },
    )
    | inr inside ↦
        let priority = floats.calculate_priority p in
        let (sums, size, leaves) =
          changed_leaf-IsSumTree floats (b.capacity) id (b.sum_tree) priority (s.size)
            (ground arith) (s.sums) in
        let (still, same) =
          update_each_keeps ids ps
            (with_tree b (changed_leaf floats (b.capacity) (b.sum_tree) id priority)
              (b.current_buffer_size) (max_of floats (b.max_priority) priority))
            (record { size = size; sums = sums }) in
        rw (inside) (
          still,
          record {
            capacity = same.capacity;
            next_leaf_index = same.next_leaf_index;
            next_leaf_indices = same.next_leaf_indices;
            current_buffer_size = same.current_buffer_size;
          },
        )
  ]

  -- Whatever ids and priorities are given, and also where it throws in the middle, updating leaves a
  -- tree of sums of the same size and changes neither which leaves are free nor how many are held.
  pub update_priorities_keeps :
      (b : ReplayBuffer F) (ids : List ℕ) (priorities : List F)
      → Summing b
      → Summing ((update_priorities floats b ids priorities).0)
        × SameButTree b ((update_priorities floats b ids priorities).0)
  unfolding update_priorities
  update_priorities_keeps b ids priorities s =
      elim (Bool-cases (not (length ids == length priorities))) [
        | inl mismatch ↦ rw (mismatch) (s, unchanged)
        | inr match_ ↦ elim (Bool-cases (ltb (b.current_buffer_size) (length ids))) [
          | inl many ↦ rw (match_, many) (s, unchanged)
          | inr few ↦ rw (match_, few) (update_each_keeps ids priorities b s)
        ]
      ]
    where
      unchanged : SameButTree b b
      unchanged = record {
        capacity = refl;
        next_leaf_index = refl;
        next_leaf_indices = refl;
        current_buffer_size = refl;
      }
