-- ===== src/ReplayBuffer/Tests.antt =====
-- Witnesses and tests of the replay buffer's theorems, on a buffer of three transitions.
use hyperbot.Prelude.{
  List, zero, suc, ℕ, zero, suc, ◌+◌, ◌-◌, ◌*◌, ◌≡◌, ◌<◌, refl, none, [], ◌∷◌, ◌==◌, length,
  if◌then◌else◌, ok, err, arith,
}
use hyperbot.ReplayBuffer.{
  ReplayBuffer, new_buffer, at, changed_leaf, add_transition, retrieve_leaf, update_priorities,
  too_many, children_sum,
}
use hyperbot.ReplayBuffer.{Sampling, SampleResult, sample}
use hyperbot.ReplayBuffer.Sample.{InBuffer, sample_total}
use hyperbot.ReplayBuffer.Priorities.{Summing}
use hyperbot.ReplayBuffer.SumTree.{IsSumTree, changed_leaf-IsSumTree}
use hyperbot.ReplayBuffer.Retrieve.{exact, retrieve_leaf_total}
use hyperbot.ReplayBuffer.Indices.{Allocated, Added, add_transition_takes, new_buffer-Allocated}

abbrev same : ℕ → ℕ
same p = p

-- Leaves 0, 1 and 2 hold 4, 0 and 2.
abbrev three : ReplayBuffer ℕ
three = record {
  capacity = 3;
  sum_tree = 6 ∷ 2 ∷ 4 ∷ 0 ∷ 2 ∷ [];
  next_leaf_index = none;
  next_leaf_indices = 1 ∷ [];
  current_buffer_size = 2;
  max_priority = 4;
}

three-IsSumTree : IsSumTree (exact same) (6 ∷ 2 ∷ 4 ∷ 0 ∷ 2 ∷ [])
unfolding children_sum
three-IsSumTree zero h = refl
three-IsSumTree (suc zero) h = refl
three-IsSumTree (suc (suc k)) h = absurd (omega arith)

changed_leaf-IsSumTree_example :
    let after = changed_leaf (exact same) 3 (6 ∷ 2 ∷ 4 ∷ 0 ∷ 2 ∷ []) 1 5 in
    IsSumTree (exact same) after
    × (length after ≡ 2 * 3 - 1)
    × ((other : ℕ)
        → at (exact same) after (other + 3 - 1)
          ≡ (if other == 1 then 5 else at (exact same) (6 ∷ 2 ∷ 4 ∷ 0 ∷ 2 ∷ []) (other + 3 - 1)))
changed_leaf-IsSumTree_example =
    changed_leaf-IsSumTree (exact same) 3 1 (6 ∷ 2 ∷ 4 ∷ 0 ∷ 2 ∷ []) 5 refl (omega arith)
      three-IsSumTree

root_is_the_sum : changed_leaf (exact same) 3 (6 ∷ 2 ∷ 4 ∷ 0 ∷ 2 ∷ []) 1 5 ≡ 11 ∷ 7 ∷ 4 ∷ 5 ∷ 2 ∷ []
unfolding changed_leaf
root_is_the_sum = refl

retrieve_leaf_total_example :
    (leaf : ℕ) × (retrieve_leaf (exact same) three 5
      ≡ ok (leaf, at (exact same) (three.sum_tree) (leaf + 3 - 1)))
    × (leaf < 3)
retrieve_leaf_total_example = retrieve_leaf_total (exact same) three 5 (omega arith) refl

new_three : Allocated (new_buffer (exact same) 3)
new_three = new_buffer-Allocated (exact same) 3 (omega arith)

add_transition_takes_example :
    Added
      (exact same)
      (new_buffer (exact same) 3)
      (add_transition (exact same) (new_buffer (exact same) 3))
add_transition_takes_example =
    add_transition_takes (exact same) (new_buffer (exact same) 3) new_three

three-Allocated : Allocated three
three-Allocated = record {
  in_order = tt;
  counted = refl;
  once = λ i. ground arith;
  below = λ i le. ground arith;
}

no_more_than_held :
    update_priorities (exact same) three (0 ∷ 1 ∷ 2 ∷ []) (1 ∷ 1 ∷ 1 ∷ []) ≡ (three, err too_many)
unfolding update_priorities
no_more_than_held = refl

abbrev halves : Sampling ℕ
halves = record {
  mul = ◌*◌;
  div = λ a b. a;
  of_nat = λ n. n;
  epsilon = 1;
  power = λ p. p;
  draw = λ low high. high;
}

sample_total_example :
    (rs : List (SampleResult ℕ)) × (sample (exact same) halves three 2 ≡ ok rs)
    × (length rs ≡ 2)
    × InBuffer 3 rs
sample_total_example =
    sample_total (exact same) halves three 2 (omega arith) refl (omega arith) refl

three-Summing : Summing (exact same) three
three-Summing = record { size = refl; sums = three-IsSumTree }
