-- ===== src/Broker/Timers/Register.antt =====
-- What registerTimer does to the heap and when it wakes the thread.
use hyperbot.Prelude.{ℕ, ◌≤◌, ◌≡◌, refl, Bool, true, false, List, [], ◌∷◌, ◌++◌, ltb, arith}
use hyperbot.Prelude.Counts.{count, SameElements, count-append, count_none}
use hyperbot.Broker.Timers.{
  Timer, TimerManager, less, HeapAlgorithms, front_time, next_id, register_timer,
}

abbrev pub timer_of : {T : Type 0} → ℕ → Bool → ℕ → T → Timer T
timer_of id is_instant end_time payload = record {
  id = id;
  is_instant = is_instant;
  end_time = end_time;
  payload = payload;
}

abbrev pub earlier : {T : Type 0} → ℕ → Timer T → Bool
earlier n t = ltb (t.end_time) n

earlier-less :
    {T : Type 0} (n : ℕ) (f t : Timer T) → n ≤ f.end_time → earlier n t ≡ true → less t f ≡ true
unfolding less
earlier-less n f t le h = ground arith

module _ {T : Type 0} (algorithms : HeapAlgorithms (Timer T) less) where
  -- Nothing in a heap ends before its front.
  pub none_earlier :
      (ts : List (Timer T)) (n : ℕ)
      → algorithms.IsHeap ts
      → n ≤ front_time ts
      → count (earlier n) ts ≡ 0
  none_earlier [] n heap le = refl
  none_earlier (t ∷ ts) n heap le = ground (
    arith,
    count_none (λ y. less y t) (earlier n) (λ y h. earlier-less n t y le h) ts
        (algorithms.front_least t ts heap),
  )

  pub pushed :
      (ts : List (Timer T)) (t : Timer T)
      → SameElements (algorithms.push_heap (ts ++ t ∷ [])) (t ∷ ts)
  pushed ts t p =
      omega (arith, algorithms.push_heap_keeps (ts ++ t ∷ []) p, count-append p ts (t ∷ []))

  front_of_pushed :
      (ts us : List (Timer T)) (t : Timer T)
      → algorithms.IsHeap ts
      → algorithms.IsHeap us
      → SameElements us (t ∷ ts)
      → ltb (front_time us) (front_time ts) ≡ ltb (t.end_time) (front_time ts)
  front_of_pushed ts [] t heap pushed_heap same = absurd (omega (arith, same (λ x. true)))
  front_of_pushed ts (u ∷ us) t heap pushed_heap same = ground (
    arith,
    same (earlier (front_time ts)),
    none_earlier ts (front_time ts) heap,
    none_earlier (u ∷ us) (front_time ts) pushed_heap,
  )

  -- Registering a timer adds it to the heap under the next id, and wakes the thread exactly when it
  -- ends before the front of the heap did (or before the end of time, where nothing was pending).
  pub register_timer_adds :
      (m : TimerManager T) (time_end : ℕ) (payload : T)
      → algorithms.IsHeap (m.heap)
      → let r = register_timer algorithms m time_end payload in
        SameElements ((r.0).heap) (timer_of (m.id_counter) false time_end payload ∷ m.heap)
        × algorithms.IsHeap ((r.0).heap)
        × ((r.0).id_counter ≡ next_id (m.id_counter))
        × (r.1 ≡ m.id_counter)
        × (r.2 ≡ ltb time_end (front_time (m.heap)))
  unfolding register_timer
  register_timer_adds m time_end payload heap =
      let timer = timer_of (m.id_counter) false time_end payload in
      (
        pushed (m.heap) timer,
        algorithms.push_heap-IsHeap timer (m.heap) heap,
        refl,
        refl,
        front_of_pushed (m.heap) (algorithms.push_heap (m.heap ++ timer ∷ [])) timer heap
            (algorithms.push_heap-IsHeap timer (m.heap) heap) (pushed (m.heap) timer),
      )
