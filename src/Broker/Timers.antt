-- ===== src/Broker/Timers.antt =====
-- bot/src/broker/timerManager.cpp and .hpp: the pending timers as a binary heap in a vector, and the
-- operations done under its lock. Times are the clock's ticks since its epoch. The heap algorithms of
-- the standard library are an interface, with what the standard says of them.
pub mod Order
pub mod Heap
pub mod Prune
pub mod Cancel
pub mod Register
pub mod Reach
use hyperbot.Prelude.{
  ℕ, zero, suc, ◌+◌, ◌-◌, ◌^◌, ◌%◌, ◌≡◌, Bool, true, false, Option, none, some, List, [], ◌∷◌, ◌++◌,
  ltb, leb, ◌==◌, if◌then◌else◌,
}
use hyperbot.Prelude.Counts.{count, SameElements}

-- `T` is the payload.
pub record Timer (T : Type 0) : Type 0 where
  pub id : ℕ
  pub is_instant : Bool
  pub end_time : ℕ
  pub payload : T

-- operator<: by end time, then instant timers first, then by age.
unfoldable pub less : {T : Type 0} → Timer T → Timer T → Bool
less a b =
    if a.end_time == b.end_time
    then elim (a.is_instant) [
      | true ↦ elim (b.is_instant) [ true ↦ ltb (a.id) (b.id) | false ↦ true ]
      | false ↦ elim (b.is_instant) [ true ↦ false | false ↦ ltb (a.id) (b.id) ]
    ]
    else ltb (a.end_time) (b.end_time)

-- std::push_heap, std::pop_heap and std::make_heap with std::greater, on a whole vector.
pub record HeapAlgorithms (A : Type 0) (lt : A → A → Bool) : Type 1 where
  pub push_heap : List A → List A
  pub pop_heap : List A → List A
  pub make_heap : List A → List A
  pub IsHeap : List A → Type 0
  pub empty_heap : IsHeap []
  -- The front of a heap is a least element.
  pub front_least : (x : A) (xs : List A) → IsHeap (x ∷ xs) → count (λ y. lt y x) xs ≡ 0
  -- Pushing turns a heap with one more element behind it into a heap.
  pub push_heap-IsHeap : (x : A) (xs : List A) → IsHeap xs → IsHeap (push_heap (xs ++ x ∷ []))
  pub push_heap_keeps : (xs : List A) → SameElements (push_heap xs) xs
  -- Popping moves the front to the end and leaves a heap before it.
  pub pop_heap_front :
      (x : A) (xs : List A)
      → IsHeap (x ∷ xs)
      → (ys : List A) × (pop_heap (x ∷ xs) ≡ ys ++ x ∷ []) × IsHeap ys × SameElements ys xs
  pub make_heap-IsHeap : (xs : List A) → IsHeap (make_heap xs)
  pub make_heap_keeps : (xs : List A) → SameElements (make_heap xs) xs

-- `timerDataHeap_` and `timerIdCounter_`.
pub record TimerManager (T : Type 0) : Type 0 where
  pub heap : List (Timer T)
  pub id_counter : ℕ

abbrev pub new_manager : {T : Type 0} → TimerManager T
new_manager = record { heap = []; id_counter = 0 }

-- TimePoint::max(), of a clock with 64 bits.
abbrev pub time_max : ℕ
time_max = 2 ^ 63 - 1

abbrev pub next_id : ℕ → ℕ
next_id id = (id + 1) % 2 ^ 32

abbrev pub front_time : {T : Type 0} → List (Timer T) → ℕ
front_time [] = time_max
front_time (t ∷ ts) = t.end_time

-- Erases the last element (vector::pop_back).
abbrev pub pop_back {ℓ} : {A : Type ℓ} → List A → List A
pop_back [] = []
pop_back (x ∷ []) = []
pop_back (x ∷ y ∷ ys) = x ∷ pop_back (y ∷ ys)

-- The loop of cancelTimer: the vector without the first timer of that id, if there is one.
unfoldable pub erase_id : {T : Type 0} → ℕ → List (Timer T) → Option (List (Timer T))
erase_id id [] = none
erase_id id (t ∷ ts) =
    let rest = erase_id id ts in
    if t.id == id then some ts else elim rest [ none ↦ none | some us ↦ some (t ∷ us) ]

-- The loop of timerEndTime and of timeRemainingOnTimer.
unfoldable pub timer_end_time : {T : Type 0} → List (Timer T) → ℕ → Option ℕ
timer_end_time [] id = none
timer_end_time (t ∷ ts) id =
    let rest = timer_end_time ts id in if t.id == id then some (t.end_time) else rest

unfoldable pub most_recent_timer_is_finished : {T : Type 0} → List (Timer T) → ℕ → Bool
most_recent_timer_is_finished [] now = false
most_recent_timer_is_finished (t ∷ ts) now = leb (t.end_time) now

-- What is registered after this turn, and after the later ones.
abbrev pub next_joins : {A : Type 0} → List (List A) → List A
next_joins [] = []
next_joins (join ∷ joins) = join

abbrev pub later_joins : {A : Type 0} → List (List A) → List (List A)
later_joins [] = []
later_joins (join ∷ joins) = joins

module _ {T : Type 0} (algorithms : HeapAlgorithms (Timer T) less) where
  -- registerTimer: the manager, the new id, and whether the thread is woken.
  unfoldable pub register_timer : TimerManager T → ℕ → T → TimerManager T × ℕ × Bool
  register_timer m time_end payload =
      let timer : Timer T = record {
        id = m.id_counter;
        is_instant = false;
        end_time = time_end;
        payload = payload;
      } in
      let heap = algorithms.push_heap (m.heap ++ timer ∷ []) in
      (
        record { heap = heap; id_counter = next_id (m.id_counter) },
        m.id_counter,
        ltb (front_time heap) (front_time (m.heap)),
      )

  -- triggerInstantTimer at a reading of the clock.
  unfoldable pub trigger_instant_timer : TimerManager T → ℕ → T → TimerManager T
  trigger_instant_timer m now payload =
      let timer : Timer T = record {
        id = m.id_counter;
        is_instant = true;
        end_time = now;
        payload = payload;
      } in
      record {
        heap = algorithms.push_heap (m.heap ++ timer ∷ []);
        id_counter = next_id (m.id_counter);
      }

  -- cancelTimer: the manager, what it answers, and whether the thread is woken.
  unfoldable pub cancel_timer : TimerManager T → ℕ → TimerManager T × Bool × Bool
  unfolding erase_id
  cancel_timer m id = elim (erase_id id (m.heap)) [
    | none ↦ (m, false, false)
    | some [] ↦ (record { heap = []; id_counter = m.id_counter }, true, false)
    | some (t ∷ ts) ↦
        let heap = algorithms.make_heap (t ∷ ts) in
        (
          record { heap = heap; id_counter = m.id_counter },
          true,
          ltb (front_time heap) (front_time (m.heap)),
        )
  ]

  -- registerTimer, of several timers one after the other.
  unfoldable pub push_timers : List (Timer T) → List (Timer T) → List (Timer T)
  push_timers heap [] = heap
  push_timers heap (t ∷ ts) = push_timers (algorithms.push_heap (heap ++ t ∷ [])) ts

  -- pruneTimers: the timers that fire, in order, and what stays. After each turn its callback (and
  -- whoever else takes the lock) registers timers, of which `joins` has a list for each turn; nothing
  -- else changes the heap meanwhile. The clock is read once a turn, `clock n` at turn n. The fuel
  -- bounds the turns.
  unfoldable pub prune_timers :
      ℕ → (ℕ → ℕ) → List (List (Timer T)) → List (Timer T) → List (Timer T) × List (Timer T)
  unfolding most_recent_timer_is_finished push_timers
  prune_timers zero clock joins ts = ([], ts)
  prune_timers (suc fuel) clock joins [] = ([], [])
  prune_timers (suc fuel) clock joins (t ∷ ts) =
      let now = push_timers (pop_back (algorithms.pop_heap (t ∷ ts))) (next_joins joins) in
      let rest = prune_timers fuel (λ n. clock (suc n)) (later_joins joins) now in
      if most_recent_timer_is_finished (t ∷ ts) (clock 0)
      then (t ∷ rest.0, rest.1)
      else ([], t ∷ ts)
