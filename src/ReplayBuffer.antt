-- ===== src/ReplayBuffer.antt =====
-- bot/src/rl/replayBuffer.hpp and .inl: the learner's prioritised replay buffer, a tree of sums over
-- the priorities of its transitions. Floats are an interface without laws: nothing here rests on how
-- they round.
pub mod SumTree
pub mod Retrieve
pub mod Indices
pub mod Sample
pub mod Priorities
mod Tests
use hyperbot.Prelude.{
  ℕ, zero, suc, ◌+◌, ◌-◌, ◌*◌, ◌/◌, Bool, true, false, Option, none, some, List, [], ◌∷◌, ◌++◌, ltb,
  leb, ◌==◌, if◌then◌else◌, length, set, get_or, replicate, Result, ok, err, not,
}

pub record Floats (F : Type 0) : Type 0 where
  pub f0 : F
  pub f1 : F
  pub add : F → F → F
  pub sub : F → F → F
  -- `<` and `<=`
  pub lt : F → F → Bool
  pub le : F → F → Bool
  -- pow(abs(p) + epsilon, alpha), for the buffer's two constants.
  pub calculate_priority : F → F

pub record ReplayBuffer (F : Type 0) : Type 0 where
  pub capacity : ℕ
  pub sum_tree : List F
  pub next_leaf_index : Option ℕ
  pub next_leaf_indices : List ℕ
  pub current_buffer_size : ℕ
  pub max_priority : F

pub data BufferError : Type 0 where
  full no_free_index leaf_out_of_range empty size_mismatch too_many right_child_out_of_bounds :
      BufferError
  not_enough no_priority : BufferError

-- The indices from `n` on, `k` of them.
abbrev pub range_from : ℕ → ℕ → List ℕ
range_from n zero = []
range_from n (suc k) = n ∷ range_from (n + 1) k

-- getNextLeafIndex
unfoldable pub get_next_leaf_index : {F : Type 0} → ReplayBuffer F → Result BufferError ℕ
get_next_leaf_index b = elim (b.next_leaf_index) [
  | some n ↦ ok n
  | none ↦ elim (b.next_leaf_indices) [ [] ↦ err no_free_index | n ∷ ns ↦ ok n ]
]

abbrev pub with_indices : {F : Type 0} → ReplayBuffer F → Option ℕ → List ℕ → ReplayBuffer F
with_indices b next indices = record {
  capacity = b.capacity;
  sum_tree = b.sum_tree;
  next_leaf_index = next;
  next_leaf_indices = indices;
  current_buffer_size = b.current_buffer_size;
  max_priority = b.max_priority;
}

abbrev pub with_tree : {F : Type 0} → ReplayBuffer F → List F → ℕ → F → ReplayBuffer F
with_tree b tree size max_priority = record {
  capacity = b.capacity;
  sum_tree = tree;
  next_leaf_index = b.next_leaf_index;
  next_leaf_indices = b.next_leaf_indices;
  current_buffer_size = size;
  max_priority = max_priority;
}

-- advanceNextLeafIndex
unfoldable pub advance_next_leaf_index :
    {F : Type 0} → ReplayBuffer F → ReplayBuffer F × Result BufferError (Unit {0})
advance_next_leaf_index b = elim (b.next_leaf_index) [
  | some n ↦
      if b.current_buffer_size == b.capacity
      then (with_indices b none (b.next_leaf_indices), ok tt)
      else (with_indices b (some (n + 1)) (b.next_leaf_indices), ok tt)
  | none ↦ elim (b.next_leaf_indices) [
    | [] ↦ (b, err no_free_index)
    | n ∷ ns ↦ (with_indices b none ns, ok tt)
  ]
]

-- The start of deleteTransition: from the next index to the queue of free ones.
unfoldable pub switch_to_queue : {F : Type 0} → ReplayBuffer F → ReplayBuffer F
switch_to_queue b = elim (b.next_leaf_index) [
  | none ↦ b
  | some n ↦ with_indices b none (b.next_leaf_indices ++ range_from n (b.capacity - n))
]

-- The id that addTransition returns, unless an error came before.
abbrev with_id :
    {F : Type 0}
    → ℕ
    → ReplayBuffer F × Result BufferError (Unit {0})
    → ReplayBuffer F × Result BufferError ℕ
with_id id (b, err e) = (b, err e)
with_id id (b, ok done) = (b, ok id)

module _ {F : Type 0} (floats : Floats F) where
  -- The constructor, for an alpha and an epsilon in their ranges.
  unfoldable pub new_buffer : ℕ → ReplayBuffer F
  new_buffer capacity = record {
    capacity = capacity;
    sum_tree = replicate (2 * capacity - 1) (floats.f0);
    next_leaf_index = some 0;
    next_leaf_indices = [];
    current_buffer_size = 0;
    max_priority = floats.f1;
  }

  -- sumTree_[i]
  abbrev pub at : List F → ℕ → F
  at tree i = get_or tree i (floats.f0)

  abbrev pub min_of : F → F → F
  min_of x y = if floats.lt y x then y else x

  abbrev pub max_of : F → F → F
  max_of x y = if floats.lt x y then y else x

  -- The sum of a node's children; the right one may be missing.
  unfoldable pub children_sum : List F → ℕ → F
  children_sum tree current =
      let left = at tree (2 * current + 1) in
      if ltb (2 * current + 2) (length tree)
      then floats.add left (at tree (2 * current + 2))
      else left

  -- The loop of propagateUpward. The fuel is more than the index of the node.
  unfoldable pub propagate_from : ℕ → ℕ → List F → List F
  unfolding children_sum
  propagate_from zero current tree = tree
  propagate_from (suc fuel) current tree =
      let changed = set tree current (children_sum tree current) in
      let rest = propagate_from fuel ((current - 1) / 2) changed in
      if current == 0 then changed else rest

  -- propagateUpward
  unfoldable pub propagate_upward : ℕ → List F → List F
  unfolding propagate_from
  propagate_upward tree_index tree =
      if tree_index == 0 then tree else propagate_from tree_index ((tree_index - 1) / 2) tree

  -- updateTreeForChangedLeaf, past its bounds check.
  unfoldable pub changed_leaf : ℕ → List F → ℕ → F → List F
  unfolding propagate_upward
  changed_leaf capacity tree leaf_index priority =
      propagate_upward (leaf_index + capacity - 1) (set tree (leaf_index + capacity - 1) priority)

  -- addTransition
  unfoldable pub add_transition : ReplayBuffer F → ReplayBuffer F × Result BufferError ℕ
  unfolding changed_leaf get_next_leaf_index advance_next_leaf_index
  add_transition b =
      if b.current_buffer_size == b.capacity then (b, err full) else elim (get_next_leaf_index b) [
        | err e ↦ (b, err e)
        | ok leaf_index ↦
            if leb (b.capacity) leaf_index
            then (b, err leaf_out_of_range)
            else with_id leaf_index (
                advance_next_leaf_index (
                  with_tree b (changed_leaf (b.capacity) (b.sum_tree) leaf_index (b.max_priority))
                    (b.current_buffer_size + 1) (b.max_priority)))
      ]

  -- deleteTransition
  unfoldable pub delete_transition :
      ReplayBuffer F → ℕ → ReplayBuffer F × Result BufferError (Unit {0})
  unfolding changed_leaf switch_to_queue
  delete_transition before leaf_index =
      let b = switch_to_queue before in
      if b.current_buffer_size == 0
      then (b, err empty)
      else if leb (b.capacity) leaf_index
      then (b, err leaf_out_of_range)
      else (
        with_indices
            (with_tree b (changed_leaf (b.capacity) (b.sum_tree) leaf_index (floats.f0))
              (b.current_buffer_size - 1) (b.max_priority))
            (b.next_leaf_index) (b.next_leaf_indices ++ leaf_index ∷ []),
        ok tt,
      )

  -- The loop of updatePriorities.
  unfoldable pub update_each :
      ReplayBuffer F → List ℕ → List F → ReplayBuffer F × Result BufferError (Unit {0})
  unfolding changed_leaf
  update_each b [] priorities = (b, ok tt)
  update_each b (id ∷ ids) [] = (b, ok tt)
  update_each b (id ∷ ids) (p ∷ ps) =
      let priority = floats.calculate_priority p in
      let max_priority = max_of (b.max_priority) priority in
      let rest =
        update_each
          (with_tree b (changed_leaf (b.capacity) (b.sum_tree) id priority) (b.current_buffer_size)
            max_priority)
          ids ps in
      if leb (b.capacity) id
      then (with_tree b (b.sum_tree) (b.current_buffer_size) max_priority, err leaf_out_of_range)
      else rest

  -- updatePriorities
  unfoldable pub update_priorities :
      ReplayBuffer F → List ℕ → List F → ReplayBuffer F × Result BufferError (Unit {0})
  unfolding update_each
  update_priorities b ids priorities =
      if not (length ids == length priorities)
      then (b, err size_mismatch)
      else if ltb (b.current_buffer_size) (length ids)
      then (b, err too_many)
      else update_each b ids priorities

  -- The loop of retrieveLeaf: the index of the node it stops at. The fuel is the number of nodes.
  unfoldable pub descend : ℕ → List F → ℕ → F → Result BufferError ℕ
  descend zero tree node value = ok node
  descend (suc fuel) tree node value =
      let left = at tree (2 * node + 1) in
      let go_left = descend fuel tree (2 * node + 1) value in
      let go_right =
        descend fuel tree (2 * node + 2)
          (min_of (floats.sub value left) (at tree (2 * node + 2))) in
      if leb (length tree) (2 * node + 1)
      then ok node
      else if floats.le value left
      then go_left
      else if ltb (2 * node + 2) (length tree)
      then go_right
      else err right_child_out_of_bounds

  -- retrieveLeaf
  unfoldable pub retrieve_leaf : ReplayBuffer F → F → Result BufferError (ℕ × F)
  unfolding descend
  retrieve_leaf b value = elim (descend (length (b.sum_tree)) (b.sum_tree) 0 value) [
    | err e ↦ err e
    | ok node ↦ ok (node - (b.capacity - 1), at (b.sum_tree) node)
  ]

-- What sample needs of the floats besides, for the buffer's beta: the power with the exponent -beta,
-- and the draw from a segment, which is random.
pub record Sampling (F : Type 0) : Type 0 where
  pub mul : F → F → F
  pub div : F → F → F
  pub of_nat : ℕ → F
  pub epsilon : F
  pub power : F → F
  pub draw : F → F → F

-- SampleResult
pub record SampleResult (F : Type 0) : Type 0 where
  pub transition_id : ℕ
  pub weight : F

module _ {F : Type 0} (floats : Floats F) (sampling : Sampling F) where
  abbrev pub weight_of : ReplayBuffer F → F → F → F
  weight_of b total priority =
      let probability = sampling.div priority total in
      sampling.power (
        sampling.mul (sampling.of_nat (b.current_buffer_size))
          (if floats.le probability (floats.f0) then sampling.epsilon else probability))

  -- The first loop of sample, at turn i with n turns left: the results and the largest weight.
  unfoldable pub sample_each :
      ReplayBuffer F → F → F → ℕ → ℕ → F → Result BufferError (List (SampleResult F) × F)
  unfolding retrieve_leaf
  sample_each b total segment i zero max_weight = ok ([], max_weight)
  sample_each b total segment i (suc n) max_weight =
      elim (retrieve_leaf floats b (
        sampling.draw (sampling.mul (sampling.of_nat i) segment)
          (sampling.mul (sampling.of_nat (i + 1)) segment))) [
            | err e ↦ err e
            | ok found ↦
                elim (sample_each b total segment (i + 1) n
                  (max_of floats max_weight (weight_of b total (found.1)))) [
                    | err e ↦ err e
                    | ok rest ↦ ok (
                      record { transition_id = found.0; weight = weight_of b total (found.1) }
                          ∷ rest.0,
                      rest.1,
                    )
                  ]
          ]

  -- The second loop of sample.
  unfoldable pub normalize : F → List (SampleResult F) → List (SampleResult F)
  normalize max_weight [] = []
  normalize max_weight (r ∷ rs) =
      record { transition_id = r.transition_id; weight = sampling.div (r.weight) max_weight }
      ∷ normalize max_weight rs

  abbrev pub normalized : List (SampleResult F) × F → List (SampleResult F)
  normalized (results, max_weight) =
      if floats.lt (floats.f0) max_weight then normalize max_weight results else results

  -- sample
  unfoldable pub sample : ReplayBuffer F → ℕ → Result BufferError (List (SampleResult F))
  unfolding sample_each normalize
  sample b count =
      let total = at floats (b.sum_tree) 0 in
      if ltb (b.current_buffer_size) count
      then err not_enough
      else if floats.le total (floats.f0)
      then err no_priority
      else elim (sample_each b total (sampling.div total (sampling.of_nat count)) 0 count
          (floats.f0)) [ err e ↦ err e | ok r ↦ ok (normalized r) ]
