-- ===== src/Broker/Timers/Heap.antt =====
-- The heap algorithms can be had: a sorted vector is a heap.
use hyperbot.Prelude.{
  ◌≡◌, refl, Bool, List, [], ◌∷◌, ◌++◌, arith, if◌then◌else◌, Bool-cases, inl, inr,
}
use hyperbot.Prelude.Counts.{count, SameElements, count_none}
use hyperbot.Broker.Timers.{Timer, less, HeapAlgorithms}
use hyperbot.Broker.Timers.Order.{less_trans, less_asym}

module _ {T : Type 0} where
  abbrev pub insert_in : Timer T → List (Timer T) → List (Timer T)
  insert_in x [] = x ∷ []
  insert_in x (t ∷ ts) = let rest = insert_in x ts in if less x t then x ∷ t ∷ ts else t ∷ rest

  abbrev pub sort : List (Timer T) → List (Timer T)
  sort [] = []
  sort (t ∷ ts) = insert_in t (sort ts)

  abbrev pub Sorted : List (Timer T) → Type 0
  Sorted [] = Unit {0}
  Sorted (t ∷ ts) = (count (λ y. less y t) ts ≡ 0) × Sorted ts

  abbrev pub rotate : List (Timer T) → List (Timer T)
  rotate [] = []
  rotate (t ∷ ts) = ts ++ t ∷ []

  insert_in_keeps :
      (p : Timer T → Bool) (x : Timer T) (ts : List (Timer T))
      → count p (insert_in x ts) ≡ count p (x ∷ ts)
  insert_in_keeps p x [] = refl
  insert_in_keeps p x (t ∷ ts) = ground (arith, insert_in_keeps p x ts)

  pub sort_keeps : (ts : List (Timer T)) → SameElements (sort ts) ts
  sort_keeps [] p = refl
  sort_keeps (t ∷ ts) p = omega (arith, insert_in_keeps p t (sort ts), sort_keeps ts p)

  insert_in-Sorted : (x : Timer T) (ts : List (Timer T)) → Sorted ts → Sorted (insert_in x ts)
  insert_in-Sorted x [] s = (refl, tt)
  insert_in-Sorted x (t ∷ ts) s = elim (Bool-cases (less x t)) [
    | inl e ↦ rw (e) (
        (
          ground (
            arith,
            less_asym x t e,
            count_none (λ y. less y t) (λ y. less y x) (λ y h. less_trans y x t h e) ts (s.0),
          ),
          s,
        ))
    | inr e ↦
        rw (e)
          (ground (arith, insert_in_keeps (λ y. less y t) x ts, s.0), insert_in-Sorted x ts (s.1))
  ]

  pub sort-Sorted : (ts : List (Timer T)) → Sorted (sort ts)
  sort-Sorted [] = tt
  sort-Sorted (t ∷ ts) = insert_in-Sorted t (sort ts) (sort-Sorted ts)

  abbrev pub sorted_heaps : HeapAlgorithms (Timer T) less
  sorted_heaps = record {
    push_heap = sort;
    pop_heap = rotate;
    make_heap = sort;
    IsHeap = Sorted;
    empty_heap = tt;
    front_least = λ x xs s. s.0;
    push_heap-IsHeap = λ x xs s. sort-Sorted (xs ++ x ∷ []);
    push_heap_keeps = sort_keeps;
    pop_heap_front = λ x xs s. (xs, refl, s.1, λ p. refl);
    make_heap-IsHeap = sort-Sorted;
    make_heap_keeps = sort_keeps;
  }
