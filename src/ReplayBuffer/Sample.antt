-- ===== src/ReplayBuffer/Sample.antt =====
-- What sample gives.
use hyperbot.Prelude.{
  ℕ, zero, suc, ◌+◌, ◌-◌, ◌*◌, ◌≤◌, ◌<◌, ◌≡◌, refl, ap, false, List, [], ◌∷◌, length, ltb,
  Bool-cases, inl, inr, ok, arith,
}
use hyperbot.ReplayBuffer.{
  Floats, Sampling, SampleResult, ReplayBuffer, at, max_of, weight_of, retrieve_leaf, sample_each,
  normalize, normalized, sample,
}
use hyperbot.ReplayBuffer.Retrieve.{retrieve_leaf_total}

module _ {F : Type 0} where
  -- Every result names a leaf of the buffer.
  abbrev pub InBuffer : ℕ → List (SampleResult F) → Type 0
  InBuffer capacity [] = Unit {0}
  InBuffer capacity (r ∷ rs) = (r.transition_id < capacity) × InBuffer capacity rs

module _ {F : Type 0} (floats : Floats F) (sampling : Sampling F) where
  goes_on :
      (b : ReplayBuffer F) (total segment m largest p : F) (i n leaf : ℕ)
      (rs : List (SampleResult F))
      → retrieve_leaf floats b (
          sampling.draw
            (sampling.mul (sampling.of_nat i) segment)
            (sampling.mul (sampling.of_nat (i + 1)) segment))
        ≡ ok (leaf, p)
      → sample_each floats sampling b total segment
          (i + 1)
          n
          (max_of floats m (weight_of floats sampling b total p))
        ≡ ok (rs, largest)
      → sample_each floats sampling b total segment i (suc n) m
        ≡ ok (
          record { transition_id = leaf; weight = weight_of floats sampling b total p } ∷ rs,
          largest,
        )
  unfolding sample_each
  goes_on b total segment m largest p i n leaf rs found rest = rw (sample_each, found, rest) refl

  sample_each_total :
      (b : ReplayBuffer F) (total segment m : F) (i n : ℕ)
      → 0 < b.capacity
      → length (b.sum_tree) ≡ 2 * b.capacity - 1
      → (rs : List (SampleResult F)) × (largest : F) × (sample_each floats sampling b total segment
            i n m
          ≡ ok (rs, largest))
        × (length rs ≡ n)
        × InBuffer (b.capacity) rs
  unfolding sample_each
  sample_each_total b total segment m i zero some_room size = ([], m, refl, refl, tt)
  sample_each_total b total segment m i (suc n) some_room size =
      let (leaf, found, inside) =
        retrieve_leaf_total floats b
          (sampling.draw (sampling.mul (sampling.of_nat i) segment)
            (sampling.mul (sampling.of_nat (i + 1)) segment))
          some_room size in
      let p = at floats (b.sum_tree) (leaf + b.capacity - 1) in
      let (rs, largest, runs, as_many, all_in) =
        sample_each_total b total segment (max_of floats m (weight_of floats sampling b total p))
          (i + 1) n some_room size in
      (
        record { transition_id = leaf; weight = weight_of floats sampling b total p } ∷ rs,
        largest,
        goes_on b total segment m largest p i n leaf rs found runs,
        ap suc as_many,
        (inside, all_in),
      )

  normalize_keeps :
      (capacity : ℕ) (m : F) (rs : List (SampleResult F))
      → InBuffer capacity rs
      → (length (normalize floats sampling m rs) ≡ length rs)
        × InBuffer capacity (normalize floats sampling m rs)
  unfolding normalize
  normalize_keeps capacity m [] h = (refl, tt)
  normalize_keeps capacity m (r ∷ rs) h =
      let (same, all_in) = normalize_keeps capacity m rs (h.1) in (ap suc same, (h.0, all_in))

  sampled :
      (b : ReplayBuffer F) (count : ℕ) (r : List (SampleResult F) × F)
      → ltb (b.current_buffer_size) count ≡ false
      → floats.le (at floats (b.sum_tree) 0) (floats.f0) ≡ false
      → sample_each floats sampling b
          (at floats (b.sum_tree) 0)
          (sampling.div (at floats (b.sum_tree) 0) (sampling.of_nat count))
          0
          count
          (floats.f0)
        ≡ ok r
      → sample floats sampling b count ≡ ok (normalized floats sampling r)
  unfolding sample
  sampled b count r enough some_priority runs = rw (enough, some_priority, runs) refl

  -- In the tree of a buffer with a capacity and a total priority above zero, sampling up to as many
  -- transitions as are held does not throw and gives exactly that many, each of a leaf of the buffer,
  -- whatever is drawn and however floats round.
  pub sample_total :
      (b : ReplayBuffer F) (count : ℕ)
      → 0 < b.capacity
      → length (b.sum_tree) ≡ 2 * b.capacity - 1
      → count ≤ b.current_buffer_size
      → floats.le (at floats (b.sum_tree) 0) (floats.f0) ≡ false
      → (rs : List (SampleResult F)) × (sample floats sampling b count ≡ ok rs)
        × (length rs ≡ count)
        × InBuffer (b.capacity) rs
  sample_total b count some_room size enough some_priority =
      let total = at floats (b.sum_tree) 0 in
      let (rs, largest, runs, as_many, all_in) =
        sample_each_total b total (sampling.div total (sampling.of_nat count)) (floats.f0) 0 count
          some_room size in
      let shown = sampled b count (rs, largest) (ground arith) some_priority runs in
      elim (Bool-cases (floats.lt (floats.f0) largest)) [
        | inl above ↦
            let (same, kept) = normalize_keeps (b.capacity) largest rs all_in in
            (
              normalize floats sampling largest rs,
              rw (shown, above) refl,
              omega (arith, same, as_many),
              kept,
            )
        | inr below ↦ (rs, rw (shown, below) refl, as_many, all_in)
      ]
