-- ===== src/Broker/Timers/Reach.antt =====
-- The manager's state under any interleaving of its operations: the callers register, trigger and
-- cancel while the thread fires one due timer at a time.
use hyperbot.Prelude.{
  ℕ, suc, ◌^◌, ◌%◌, ◌≤◌, ◌<◌, ◌≡◌, refl, sym, Bool, true, false, List, [], ◌∷◌, arith, inl, inr, ap,
  subst, ◌++◌,
}
use hyperbot.Prelude.Counts.{count, SameElements}
use hyperbot.Broker.Timers.{
  Timer, TimerManager, new_manager, less, HeapAlgorithms, next_id, pop_back, register_timer,
  trigger_instant_timer, cancel_timer, most_recent_timer_is_finished,
}
use hyperbot.Broker.Timers.Register.{timer_of, pushed}
use hyperbot.Broker.Timers.Cancel.{has_id, cancel_timer_removes, Cancelled}
use hyperbot.Broker.Timers.Prune.{pop_back-append}

module _ {T : Type 0} (algorithms : HeapAlgorithms (Timer T) less) where
  -- The states after `n` timers were made.
  pub data Reach : ℕ → TimerManager T → Type 0 where
    started : Reach 0 new_manager
    registered :
        (n : ℕ) (m : TimerManager T) (time_end : ℕ) (payload : T)
        → Reach n m
        → Reach (suc n) ((register_timer algorithms m time_end payload).0)
    triggered :
        (n : ℕ) (m : TimerManager T) (now : ℕ) (payload : T)
        → Reach n m
        → Reach (suc n) (trigger_instant_timer algorithms m now payload)
    cancelled :
        (n : ℕ) (m : TimerManager T) (id : ℕ)
        → Reach n m
        → Reach n ((cancel_timer algorithms m id).0)
    -- One turn of pruneTimers.
    fired :
        (n : ℕ) (m : TimerManager T) (now : ℕ)
        → Reach n m
        → most_recent_timer_is_finished (m.heap) now ≡ true
        → Reach n
            (record { heap = pop_back (algorithms.pop_heap (m.heap)); id_counter = m.id_counter })

  pub record WellFormed (n : ℕ) (m : TimerManager T) : Type 0 where
    pub is_heap : algorithms.IsHeap (m.heap)
    pub counted : m.id_counter ≡ n % 2 ^ 32
    -- No two timers share an id, and no timer has an id that is still to come.
    pub one_each : (id : ℕ) → count (has_id id) (m.heap) ≤ 1
    pub none_ahead : (id : ℕ) → n ≤ id → count (has_id id) (m.heap) ≡ 0

  pub added :
      (n : ℕ) (m : TimerManager T) (t : Timer T)
      → n < 2 ^ 32
      → WellFormed n m
      → t.id ≡ m.id_counter
      → (us : List (Timer T)) → SameElements us (t ∷ m.heap)
      → algorithms.IsHeap us
      → WellFormed (suc n) (record { heap = us; id_counter = next_id (m.id_counter) })
  added n m t small wf same_id us same heap = record {
    is_heap = heap;
    counted = omega (arith, wf.counted);
    one_each = λ id.
        ground
          (arith, wf.counted, same (has_id id), wf.one_each id, wf.none_ahead n, wf.none_ahead id);
    none_ahead = λ id le. ground (arith, wf.counted, same (has_id id), wf.none_ahead id);
  }

  pub removed :
      (n c : ℕ) (m : TimerManager T) (t : Timer T)
      → WellFormed n m
      → c ≡ m.id_counter
      → (us : List (Timer T)) → SameElements (t ∷ us) (m.heap)
      → algorithms.IsHeap us
      → WellFormed n (record { heap = us; id_counter = c })
  removed n c m t wf same_counter us same heap = record {
    is_heap = heap;
    counted = omega (arith, wf.counted);
    one_each = λ id. omega (arith, same (has_id id), wf.one_each id);
    none_ahead = λ id le. omega (arith, same (has_id id), wf.none_ahead id le);
  }

  pub fired_one :
      (n : ℕ) (m : TimerManager T) (now : ℕ)
      → WellFormed n m
      → (ts : List (Timer T)) → m.heap ≡ ts
      → most_recent_timer_is_finished ts now ≡ true
      → WellFormed n
          (record { heap = pop_back (algorithms.pop_heap ts); id_counter = m.id_counter })
  unfolding most_recent_timer_is_finished
  fired_one n m now wf [] same due = absurd (ground arith)
  fired_one n m now wf (t ∷ ts) same due =
      let (us, popped, heap, kept) =
        algorithms.pop_heap_front t ts (subst algorithms.IsHeap same (wf.is_heap)) in
      rw (popped, pop_back-append us t)
        (removed n (m.id_counter) m t wf refl us (λ p. omega (arith, kept p, ap (count p) same))
          heap)

  pub after_cancel :
      (n : ℕ) (m : TimerManager T) (id : ℕ) (r : TimerManager T × Bool × Bool)
      → WellFormed n m
      → Cancelled algorithms m id r
      → WellFormed n (r.0)
  after_cancel n m id r wf (inl (none_there, same)) =
      subst (λ after. WellFormed n (after.0)) (sym same) wf
  after_cancel n m id r wf (inr (after, t, same, same_id, kept, heap, counter)) =
      subst (λ a. WellFormed n (a.0)) (sym same)
        (removed n (after.id_counter) m t wf counter (after.heap) kept heap)

  -- As long as at most 2^32 timers were made, in any interleaving of the operations the pending
  -- timers form a heap, the counter is the number of timers made, no two pending timers share an id
  -- and no pending timer has an id that is still to be given.
  pub reachable-WellFormed : (n : ℕ) (m : TimerManager T) → Reach n m → n ≤ 2 ^ 32 → WellFormed n m
  unfolding register_timer trigger_instant_timer
  reachable-WellFormed n m started small = record {
    is_heap = algorithms.empty_heap;
    counted = refl;
    one_each = λ id. omega arith;
    none_ahead = λ id le. refl;
  }
  reachable-WellFormed n m (registered k before time_end payload r) small =
      let wf = reachable-WellFormed k before r (omega arith) in
      let timer : Timer T = timer_of (before.id_counter) false time_end payload in
      added k before timer (omega arith) wf refl (algorithms.push_heap (before.heap ++ timer ∷ []))
        (pushed algorithms (before.heap) timer)
        (algorithms.push_heap-IsHeap timer (before.heap) (wf.is_heap))
  reachable-WellFormed n m (triggered k before now payload r) small =
      let wf = reachable-WellFormed k before r (omega arith) in
      let timer : Timer T = timer_of (before.id_counter) true now payload in
      added k before timer (omega arith) wf refl (algorithms.push_heap (before.heap ++ timer ∷ []))
        (pushed algorithms (before.heap) timer)
        (algorithms.push_heap-IsHeap timer (before.heap) (wf.is_heap))
  reachable-WellFormed n m (cancelled k before id r) small =
      let wf = reachable-WellFormed n before r small in
      after_cancel n before id (cancel_timer algorithms before id) wf
        (cancel_timer_removes algorithms before id (wf.is_heap))
  reachable-WellFormed n m (fired k before now r due) small =
      fired_one n before now (reachable-WellFormed n before r small) (before.heap) refl due
