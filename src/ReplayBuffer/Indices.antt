-- ===== src/ReplayBuffer/Indices.antt =====
-- Which leaves are free.
use hyperbot.Prelude.{
  ℕ, zero, suc, ◌+◌, ◌-◌, ◌≤◌, ◌<◌, ◌≡◌, refl, sym, ◌⊎◌, inl, inr, Bool, false, ◌&&◌, Option, none,
  some, List, [], ◌∷◌, ◌++◌, ltb, leb, ◌==◌, if◌then◌else◌, Bool-cases, length, length-append,
  Result, ok, err, arith,
}
use hyperbot.Prelude.Counts.{count, count-append}
use hyperbot.ReplayBuffer.{
  Floats, ReplayBuffer, BufferError, full, range_from, switch_to_queue, new_buffer, add_transition,
  delete_transition, changed_leaf,
}

abbrev pub is : ℕ → ℕ → Bool
is i x = x == i

-- The leaves that later transitions take, first the next one.
abbrev pub free_leaves : {F : Type 0} → ReplayBuffer F → List ℕ
free_leaves b = elim (b.next_leaf_index) [
  | some n ↦ range_from n (b.capacity - n)
  | none ↦ b.next_leaf_indices
]

-- While no transition was deleted the leaves are taken in order.
abbrev pub InOrder : Option ℕ → List ℕ → ℕ → ℕ → Type 0
InOrder none indices size capacity = Unit {0}
InOrder (some n) indices size capacity = (n ≡ size) × (indices ≡ []) × (size < capacity)

pub record Allocated {F : Type 0} (b : ReplayBuffer F) : Type 0 where
  pub in_order :
      InOrder (b.next_leaf_index) (b.next_leaf_indices) (b.current_buffer_size) (b.capacity)
  pub counted : length (free_leaves b) + b.current_buffer_size ≡ b.capacity
  pub once : (i : ℕ) → count (is i) (free_leaves b) ≤ 1
  pub below : (i : ℕ) → b.capacity ≤ i → count (is i) (free_leaves b) ≡ 0

count-range_from :
    (n k i : ℕ) → count (is i) (range_from n k) ≡ (if leb n i && ltb i (n + k) then 1 else 0)
count-range_from n zero i = ground arith
count-range_from n (suc k) i = ground (arith, count-range_from (n + 1) k i)

length-range_from : (n k : ℕ) → length (range_from n k) ≡ k
length-range_from n zero = refl
length-range_from n (suc k) = omega (arith, length-range_from (n + 1) k)

-- A new buffer with a capacity is well-formed.
pub new_buffer-Allocated :
    {F : Type 0} (floats : Floats F) (capacity : ℕ)
    → 0 < capacity
    → Allocated (new_buffer floats capacity)
unfolding new_buffer
new_buffer-Allocated floats capacity some_room = record {
  in_order = (refl, refl, some_room);
  counted = omega (arith, length-range_from 0 (capacity - 0));
  once = λ i. ground (arith, count-range_from 0 (capacity - 0) i);
  below = λ i le. ground (arith, count-range_from 0 (capacity - 0) i);
}

in_bounds :
    (capacity n : ℕ) (ns : List ℕ)
    → (capacity ≤ n → count (is n) (n ∷ ns) ≡ 0)
    → leb capacity n ≡ false
in_bounds capacity n ns below = elim (Bool-cases (leb capacity n)) [
  | inl over ↦ absurd (ground (arith, below (ground arith)))
  | inr inside ↦ inside
]

module _ {F : Type 0} (floats : Floats F) where
  abbrev pub Added : ReplayBuffer F → ReplayBuffer F × Result BufferError ℕ → Type 0
  Added b r =
      ((b.current_buffer_size ≡ b.capacity) × (r ≡ (b, err full)))
      ⊎ ((after : ReplayBuffer F) × (id : ℕ) × (r ≡ (after, ok id))
          × ((i : ℕ) → count (is i) (id ∷ free_leaves after) ≡ count (is i) (free_leaves b))
          × (after.current_buffer_size ≡ b.current_buffer_size + 1)
          × (after.capacity ≡ b.capacity)
          × Allocated after)

  abbrev make : ℕ → List F → Option ℕ → List ℕ → ℕ → F → ReplayBuffer F
  make capacity tree next indices size max_priority = record {
    capacity = capacity;
    sum_tree = tree;
    next_leaf_index = next;
    next_leaf_indices = indices;
    current_buffer_size = size;
    max_priority = max_priority;
  }

  took :
      (capacity size id : ℕ) (tree : List F) (p : F) (next : Option ℕ) (indices : List ℕ)
      (b : ReplayBuffer F)
      → Allocated b
      → b.capacity ≡ capacity
      → b.current_buffer_size ≡ size
      → add_transition floats b ≡ (make capacity tree next indices (size + 1) p, ok id)
      → ((i : ℕ)
          → count (is i) (id ∷ free_leaves (make capacity tree next indices (size + 1) p))
            ≡ count (is i) (free_leaves b))
      → length (id ∷ free_leaves (make capacity tree next indices (size + 1) p))
        ≡ length (free_leaves b)
      → InOrder next indices (size + 1) capacity
      → Added b (add_transition floats b)
  took capacity size id tree p next indices b a same_capacity same_size runs kept size_kept order =
      inr (
        make capacity tree next indices (size + 1) p,
        id,
        runs,
        kept,
        omega arith,
        sym same_capacity,
        record {
          in_order = order;
          counted = omega (arith, a.counted);
          once = λ i. omega (arith, kept i, a.once i);
          below = λ i le. omega (arith, kept i, a.below i (omega arith));
        },
      )

  takes :
      (capacity : ℕ) (tree : List F) (next : Option ℕ) (indices : List ℕ) (size : ℕ) (p : F)
      → Allocated (make capacity tree next indices size p)
      → (size == capacity) ≡ false
      → Added
          (make capacity tree next indices size p)
          (add_transition floats (make capacity tree next indices size p))
  unfolding add_transition
  takes capacity tree none [] size p a room = absurd (ground (arith, a.counted))
  takes capacity tree none (n ∷ ns) size p a room =
      took capacity size n (changed_leaf floats capacity tree n p) p none ns
        (make capacity tree none (n ∷ ns) size p) a refl refl
        (rw (room, in_bounds capacity n ns (a.below n)) refl) (λ i. refl) refl tt
  takes capacity tree (some n) (q ∷ qs) size p a room = absurd (ground (arith, a.in_order.1))
  takes capacity tree (some n) [] size p a room = elim (Bool-cases (size + 1 == capacity)) [
    | inl last ↦
        took capacity size n (changed_leaf floats capacity tree n p) p none []
          (make capacity tree (some n) [] size p) a refl refl (ground arith)
          (λ i. ground (arith, count-range_from n (capacity - n) i, a.in_order.0))
          (ground (arith, length-range_from n (capacity - n), a.in_order.0)) tt
    | inr more ↦
        took capacity size n (changed_leaf floats capacity tree n p) p (some (n + 1)) []
          (make capacity tree (some n) [] size p) a refl refl (ground arith)
          (λ i. ground (
            arith,
            count-range_from n (capacity - n) i,
            count-range_from (n + 1) (capacity - (n + 1)) i,
            a.in_order.0,
          ))
          (ground (
            arith,
            length-range_from n (capacity - n),
            length-range_from (n + 1) (capacity - (n + 1)),
            a.in_order.0,
          ))
          (ground (arith, a.in_order.0), refl, ground (arith, a.in_order.2))
  ]
    where
      inside : leb capacity n ≡ false
      inside = ground (arith, a.in_order.0, a.in_order.2)

  -- Adding to a full buffer throws and changes nothing. Otherwise it succeeds, takes one leaf that
  -- was free, and leaves every other free.
  pub add_transition_takes : (b : ReplayBuffer F) → Allocated b → Added b (add_transition floats b)
  unfolding add_transition
  add_transition_takes b a = elim (Bool-cases (b.current_buffer_size == b.capacity)) [
    | inl done ↦ inl (ground arith, rw (done) refl)
    | inr room ↦
        takes (b.capacity) (b.sum_tree) (b.next_leaf_index) (b.next_leaf_indices)
          (b.current_buffer_size) (b.max_priority) a room
  ]

  switched :
      (capacity : ℕ) (tree : List F) (next : Option ℕ) (indices : List ℕ) (size : ℕ) (p : F)
      → Allocated (make capacity tree next indices size p)
      → switch_to_queue (make capacity tree next indices size p)
        ≡ make capacity tree none (free_leaves (make capacity tree next indices size p)) size p
  unfolding switch_to_queue
  switched capacity tree none indices size p a = refl
  switched capacity tree (some n) [] size p a = refl
  switched capacity tree (some n) (q ∷ qs) size p a = absurd (ground (arith, a.in_order.1))

  deletes :
      (b switched_b : ReplayBuffer F) (id : ℕ)
      → switch_to_queue b ≡ switched_b
      → (switched_b.current_buffer_size == 0) ≡ false
      → leb (switched_b.capacity) id ≡ false
      → delete_transition floats b id ≡ (
        make
            (switched_b.capacity)
            (changed_leaf floats (switched_b.capacity) (switched_b.sum_tree) id (floats.f0))
            (switched_b.next_leaf_index)
            (switched_b.next_leaf_indices ++ id ∷ [])
            (switched_b.current_buffer_size - 1)
            (switched_b.max_priority),
        ok tt,
      )
  unfolding delete_transition
  deletes b switched_b id same held inside = rw (same, held, inside) refl

  -- Deleting a transition whose leaf is not free succeeds and frees that leaf, behind the leaves that
  -- were free before.
  pub delete_transition_frees :
      (b : ReplayBuffer F) (id : ℕ)
      → Allocated b
      → 0 < b.current_buffer_size
      → id < b.capacity
      → count (is id) (free_leaves b) ≡ 0
      → (after : ReplayBuffer F) × (delete_transition floats b id ≡ (after, ok tt))
        × (free_leaves after ≡ free_leaves b ++ id ∷ [])
        × (after.current_buffer_size + 1 ≡ b.current_buffer_size)
        × Allocated after
  delete_transition_frees b id a some_held inside live =
      let size = b.current_buffer_size - 1 in
      let tree = changed_leaf floats (b.capacity) (b.sum_tree) id (floats.f0) in
      (
        make (b.capacity) tree none (free_leaves b ++ id ∷ []) size (b.max_priority),
        deletes b
            (make (b.capacity) (b.sum_tree) none (free_leaves b) (b.current_buffer_size)
              (b.max_priority))
            id
            (switched (b.capacity) (b.sum_tree) (b.next_leaf_index) (b.next_leaf_indices)
              (b.current_buffer_size) (b.max_priority) a)
            (ground arith) (ground arith),
        refl,
        omega arith,
        record {
          in_order = tt;
          counted = omega (arith, length-append (free_leaves b) (id ∷ []), a.counted);
          once = λ i. ground (arith, count-append (is i) (free_leaves b) (id ∷ []), a.once i, live);
          below = λ i le. ground (arith, count-append (is i) (free_leaves b) (id ∷ []), a.below i);
        },
      )
