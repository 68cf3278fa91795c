-- ===== src/Broker/Timers/Prune.antt =====
-- What pruneTimers fires (bot/src/broker/timerManager.cpp): the heap as a bag of pending timers.
use hyperbot.Prelude.{
  ℕ, zero, suc, ◌+◌, ◌≤◌, ◌≡◌, refl, sym, ◌∙◌, true, false, List, [], ◌∷◌, ◌++◌, length, leb, arith,
  Bool-cases, inl, inr,
}
use hyperbot.Prelude.Counts.{count, SameElements, count-append}
use hyperbot.Broker.Timers.{
  Timer, less, HeapAlgorithms, pop_back, next_joins, later_joins, push_timers, prune_timers,
}

pub pop_back-append : {A : Type 0} (xs : List A) (x : A) → pop_back (xs ++ x ∷ []) ≡ xs
pop_back-append [] x = refl
pop_back-append (y ∷ []) x = refl
pop_back-append (y ∷ z ∷ zs) x = rw (pop_back-append (z ∷ zs) x) refl

length-count : {A : Type 0} (xs : List A) → count (λ x. true) xs ≡ length xs
length-count [] = refl
length-count (x ∷ xs) = omega (arith, length-count xs)

-- How many join, and which of them by the end of a turn.
abbrev pub joins_count : {A : Type 0} → List (List A) → ℕ
joins_count [] = 0
joins_count (join ∷ joins) = length join + joins_count joins

abbrev pub joined : {A : Type 0} → ℕ → List (List A) → List A
joined zero joins = []
joined (suc turns) joins = next_joins joins ++ joined turns (later_joins joins)

joins_count-next :
    {A : Type 0} (joins : List (List A))
    → joins_count joins ≡ length (next_joins joins) + joins_count (later_joins joins)
joins_count-next [] = refl
joins_count-next (join ∷ joins) = refl

-- If the first of a heap is not due, none is.
none_due :
    {T : Type 0} (t : Timer T) (now : ℕ) (ts : List (Timer T))
    → leb t.end_time now ≡ false
    → count (λ y. less y t) ts ≡ 0
    → count (λ y. leb y.end_time now) ts ≡ 0
unfolding less
none_due t now [] late least = refl
none_due t now (y ∷ ts) late least = ground (arith, none_due t now ts late)

none_due_from :
    {T : Type 0} (t : Timer T) (now : ℕ) (ts : List (Timer T))
    → leb t.end_time now ≡ false
    → count (λ y. less y t) ts ≡ 0
    → count (λ y. leb y.end_time now) (t ∷ ts) ≡ 0
none_due_from t now ts late least = rw (late) (omega (arith, none_due t now ts late least))

module _ {T : Type 0} where
  -- A bag of pending timers: each turn fires one that no other precedes and that is due at the turn's
  -- reading of the clock, whereupon those that join are pending; it ends when none is due.
  abbrev pub Fires :
      (ℕ → ℕ) → List (List (Timer T)) → List (Timer T) → List (Timer T) → List (Timer T) → Type 0
  Fires clock joins pending [] left =
      SameElements pending left × (count (λ t. leb t.end_time (clock 0)) left ≡ 0)
  Fires clock joins pending (t ∷ fired) left =
      (others : List (Timer T)) × SameElements pending (t ∷ others)
      × (count (λ y. less y t) others ≡ 0)
      × (t.end_time ≤ clock 0)
      × Fires (λ n. clock (suc n)) (later_joins joins) (others ++ next_joins joins) fired left

  SameElements-Fires :
      (clock : ℕ → ℕ) (joins : List (List (Timer T))) (xs ys fired left : List (Timer T))
      → SameElements ys xs
      → Fires clock joins xs fired left
      → Fires clock joins ys fired left
  SameElements-Fires clock joins xs ys [] left same (all, none_left) =
      (λ p. same p ∙ all p, none_left)
  SameElements-Fires clock joins xs ys (t ∷ fired) left same (others, all, least, due, rest) =
      (others, λ p. same p ∙ all p, least, due, rest)

  -- What fires and what is left are together what was pending and what has joined.
  Fires-SameElements :
      (clock : ℕ → ℕ) (joins : List (List (Timer T))) (pending fired left : List (Timer T))
      → Fires clock joins pending fired left
      → SameElements (fired ++ left) (pending ++ joined (length fired) joins)
  Fires-SameElements clock joins pending [] left (all, none_left) p =
      omega (arith, all p, count-append p pending [])
  Fires-SameElements clock joins pending (t ∷ fired) left (others, all, least, due, rest) p =
      let js = next_joins joins in
      let ks = joined (length fired) (later_joins joins) in
      omega (
        arith,
        all p,
        Fires-SameElements (λ n. clock (suc n)) (later_joins joins) (others ++ js) fired left rest
            p,
        count-append p (others ++ js) ks,
        count-append p others js,
        count-append p pending (js ++ ks),
        count-append p js ks,
      )

module _ {T : Type 0} (algorithms : HeapAlgorithms (Timer T) less) where
  push_timers-IsHeap :
      (ts js : List (Timer T))
      → algorithms.IsHeap ts
      → algorithms.IsHeap (push_timers algorithms ts js)
  unfolding push_timers
  push_timers-IsHeap ts [] heap = heap
  push_timers-IsHeap ts (j ∷ js) heap =
      push_timers-IsHeap (algorithms.push_heap (ts ++ j ∷ [])) js
        (algorithms.push_heap-IsHeap j ts heap)

  push_timers_keeps :
      (ts js : List (Timer T)) → SameElements (push_timers algorithms ts js) (ts ++ js)
  unfolding push_timers
  push_timers_keeps ts [] p = omega (arith, count-append p ts [])
  push_timers_keeps ts (j ∷ js) p = omega (
    arith,
    push_timers_keeps (algorithms.push_heap (ts ++ j ∷ [])) js p,
    algorithms.push_heap_keeps (ts ++ j ∷ []) p,
    count-append p (algorithms.push_heap (ts ++ j ∷ [])) js,
    count-append p ts (j ∷ []),
    count-append p ts (j ∷ js),
  )

  abbrev Ends :
      (ℕ → ℕ) → List (List (Timer T)) → List (Timer T) → List (Timer T) × List (Timer T) → Type 0
  Ends clock joins ts r = Fires clock joins ts r.0 r.1 × algorithms.IsHeap r.1

  fired :
      (clock : ℕ → ℕ) (joins : List (List (Timer T))) (t : Timer T) (ts us : List (Timer T))
      (r : List (Timer T) × List (Timer T))
      → algorithms.IsHeap (t ∷ ts)
      → SameElements us ts
      → t.end_time ≤ clock 0
      → Ends
          (λ n. clock (suc n))
          (later_joins joins)
          (push_timers algorithms us (next_joins joins))
          r
      → Ends clock joins (t ∷ ts) (t ∷ r.0, r.1)
  fired clock joins t ts us r heap same due (fires, below) = (
    (
      us,
      λ p. omega (arith, same p),
      omega (arith, same (λ y. less y t), algorithms.front_least t ts heap),
      due,
      SameElements-Fires (λ n. clock (suc n)) (later_joins joins)
          (push_timers algorithms us (next_joins joins)) (us ++ next_joins joins) r.0 r.1
          (λ p. sym (push_timers_keeps us (next_joins joins) p)) fires,
    ),
    below,
  )

  -- There is fuel for the turns that are left.
  enough :
      (fuel : ℕ) (joins : List (List (Timer T))) (t : Timer T) (ts us : List (Timer T))
      → SameElements us ts
      → length (t ∷ ts) + joins_count joins ≤ suc fuel
      → length (push_timers algorithms us (next_joins joins)) + joins_count (later_joins joins)
        ≤ fuel
  enough fuel joins t ts us same le = omega (
    arith,
    same (λ x. true),
    push_timers_keeps us (next_joins joins) (λ x. true),
    count-append (λ x. true) us (next_joins joins),
    length-count us,
    length-count ts,
    length-count (next_joins joins),
    length-count (push_timers algorithms us (next_joins joins)),
    joins_count-next joins,
  )

  prune_timers-Ends :
      (fuel : ℕ) (clock : ℕ → ℕ) (joins : List (List (Timer T))) (ts : List (Timer T))
      → algorithms.IsHeap ts
      → length ts + joins_count joins ≤ fuel
      → Ends clock joins ts (prune_timers algorithms fuel clock joins ts)
  unfolding prune_timers
  prune_timers-Ends zero clock joins [] heap le = ((λ p. refl, refl), heap)
  prune_timers-Ends zero clock joins (t ∷ ts) heap le = absurd (omega arith)
  prune_timers-Ends (suc fuel) clock joins [] heap le = ((λ p. refl, refl), heap)
  prune_timers-Ends (suc fuel) clock joins (t ∷ ts) heap le =
      elim (Bool-cases (leb (t.end_time) (clock 0))) [
        | inl e ↦ rw (e) (
            let (us, popped, below, same) = algorithms.pop_heap_front t ts heap in
            let now = push_timers algorithms us (next_joins joins) in
            rw (popped, pop_back-append us t)
              (fired clock joins t ts us
                (prune_timers algorithms fuel (λ n. clock (suc n)) (later_joins joins) now) heap
                same (ground arith)
                (prune_timers-Ends fuel (λ n. clock (suc n)) (later_joins joins) now
                  (push_timers-IsHeap us (next_joins joins) below)
                  (enough fuel joins t ts us same le))))
        | inr e ↦
            rw (e)
              ((λ p. refl, none_due_from t (clock 0) ts e (algorithms.front_least t ts heap)), heap)
      ]

  abbrev pub Pruned :
      (ℕ → ℕ) → List (List (Timer T)) → List (Timer T) → List (Timer T) × List (Timer T) → Type 0
  Pruned clock joins ts r =
      Fires clock joins ts r.0 r.1
      × SameElements (r.0 ++ r.1) (ts ++ joined (length r.0) joins)
      × algorithms.IsHeap r.1

  -- Let whoever takes the lock between the turns of pruneTimers, the callbacks of the timers among
  -- them, register timers and change nothing else of the heap, and let the timers that they register
  -- be finitely many. Then pruneTimers ends within as many turns as there are timers on the heap and
  -- to be registered. Each turn fires a timer that none on the heap precedes and that is due at the
  -- turn's reading of the clock; what is registered after the turn is on the heap for the next one;
  -- it stops at a heap none of whose timers is due at the last reading. What it fires and what it
  -- leaves are together the timers of the heap and those registered meanwhile.
  pub prune_timers-Pruned :
      (fuel : ℕ) (clock : ℕ → ℕ) (joins : List (List (Timer T))) (ts : List (Timer T))
      → algorithms.IsHeap ts
      → length ts + joins_count joins ≤ fuel
      → Pruned clock joins ts (prune_timers algorithms fuel clock joins ts)
  prune_timers-Pruned fuel clock joins ts heap le =
      let (fires, below) = prune_timers-Ends fuel clock joins ts heap le in
      let r = prune_timers algorithms fuel clock joins ts in
      (fires, Fires-SameElements clock joins ts r.0 r.1 fires, below)
