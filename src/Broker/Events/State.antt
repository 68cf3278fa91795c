-- ===== src/Broker/Events/State.antt =====
-- A consistent broker, and the operations that add or remove a timer.
use hyperbot.Prelude.{
  ℕ, suc, ◌^◌, ◌%◌, ◌≤◌, ◌<◌, ◌≡◌, refl, true, false, none, List, [], ◌∷◌, ◌++◌, arith, Result, ok,
}
use hyperbot.Prelude.Counts.{SameElements}
use hyperbot.Prelude.Map.{lookup, erase, lookup-insert, lookup-erase}
use hyperbot.Broker.Timers.{Timer, less, HeapAlgorithms, trigger_instant_timer}
use hyperbot.Broker.Timers.Register.{timer_of, pushed}
use hyperbot.Broker.Timers.Reach.{WellFormed, added, removed}
use hyperbot.Broker.Events.{
  Event, EventBroker, BrokerError, with_timers, publish_event, publish_delayed_event,
}
use hyperbot.Broker.Events.Mapped.{Mapped, add_instant, remove_instant, add_delayed, remove_delayed}

module _ {B H : Type 0} (algorithms : HeapAlgorithms (Timer (Event B)) less) where
  -- `n` events were published.
  pub record Consistent (n : ℕ) (s : EventBroker B H) : Type 0 where
    pub timers : WellFormed algorithms n (s.timer_manager)
    pub counted : s.event_id_counter ≡ n % 2 ^ 32
    pub mapped : Mapped (s.timer_id_map) (s.timer_manager.heap)
    pub fresh : (event_id : ℕ) → n ≤ event_id → lookup event_id (s.timer_id_map) ≡ none

  pub published :
      (n : ℕ) (s : EventBroker B H) (now code : ℕ) (body : B)
      → n < 2 ^ 32
      → Consistent n s
      → Consistent (suc n) (publish_event algorithms s now code body)
  unfolding publish_event trigger_instant_timer
  published n s now code body small c =
      let timers = s.timer_manager in
      let event : Event B = record {
        event_id = s.event_id_counter;
        event_code = code;
        body = body;
      } in
      let timer : Timer (Event B) = timer_of (timers.id_counter) true now event in
      let us = algorithms.push_heap (timers.heap ++ timer ∷ []) in
      record {
        timers =
            added algorithms n timers timer small (c.timers) refl us
              (pushed algorithms (timers.heap) timer)
              (algorithms.push_heap-IsHeap timer (timers.heap) (c.timers.is_heap));
        counted = omega (arith, c.counted);
        mapped =
            add_instant (s.timer_id_map) (timers.heap) us timer refl
              (pushed algorithms (timers.heap) timer) (c.mapped);
        fresh = λ e le. c.fresh e (omega arith);
      }

  pub delayed :
      (n : ℕ) (s : EventBroker B H) (end_time code : ℕ) (body : B)
      → n < 2 ^ 32
      → Consistent n s
      → Consistent (suc n) ((publish_delayed_event algorithms s end_time code body).0)
  unfolding publish_delayed_event
  delayed n s end_time code body small c =
      let timers = s.timer_manager in
      let event : Event B = record {
        event_id = s.event_id_counter;
        event_code = code;
        body = body;
      } in
      let timer : Timer (Event B) = timer_of (timers.id_counter) false end_time event in
      let us = algorithms.push_heap (timers.heap ++ timer ∷ []) in
      record {
        timers =
            added algorithms n timers timer small (c.timers) refl us
              (pushed algorithms (timers.heap) timer)
              (algorithms.push_heap-IsHeap timer (timers.heap) (c.timers.is_heap));
        counted = omega (arith, c.counted);
        mapped =
            add_delayed (s.timer_id_map) (timers.heap) us timer refl
              (pushed algorithms (timers.heap) timer)
              (c.fresh (s.event_id_counter) (omega (arith, c.counted))) (c.mapped);
        fresh = λ e le. ground (
          arith,
          c.counted,
          lookup-insert (s.timer_id_map) (s.event_id_counter) (timers.id_counter) e,
          c.fresh e,
        );
      }

  -- The broker without one timer, and without its event in the map where it is a delayed one.
  pub without :
      (n counter : ℕ) (s : EventBroker B H) (t : Timer (Event B)) (us : List (Timer (Event B)))
      → Consistent n s
      → counter ≡ s.timer_manager.id_counter
      → SameElements (t ∷ us) (s.timer_manager.heap)
      → algorithms.IsHeap us
      → t.is_instant ≡ false
      → Consistent n (
          with_timers s
            (record { heap = us; id_counter = counter })
            (erase (t.payload.event_id) (s.timer_id_map))
            (s.event_id_counter))
  without n counter s t us c same_counter same heap delayed_one = record {
    timers = removed algorithms n counter (s.timer_manager) t (c.timers) same_counter us same heap;
    counted = c.counted;
    mapped =
        remove_delayed (s.timer_id_map) (s.timer_manager.heap) us t delayed_one same (c.mapped);
    fresh = λ e le. ground (arith, lookup-erase (s.timer_id_map) (t.payload.event_id) e, c.fresh e);
  }

  pub without_instant :
      (n counter : ℕ) (s : EventBroker B H) (t : Timer (Event B)) (us : List (Timer (Event B)))
      → Consistent n s
      → counter ≡ s.timer_manager.id_counter
      → SameElements (t ∷ us) (s.timer_manager.heap)
      → algorithms.IsHeap us
      → t.is_instant ≡ true
      → Consistent n (
          with_timers s
            (record { heap = us; id_counter = counter })
            (s.timer_id_map)
            (s.event_id_counter))
  without_instant n counter s t us c same_counter same heap instant = record {
    timers = removed algorithms n counter (s.timer_manager) t (c.timers) same_counter us same heap;
    counted = c.counted;
    mapped = remove_instant (s.timer_id_map) (s.timer_manager.heap) us t instant same (c.mapped);
    fresh = c.fresh;
  }

  -- What an operation gives: it succeeds, and what it leaves is consistent.
  abbrev pub Succeeds {ℓ} : {A : Type ℓ} → ℕ → Result BrokerError (EventBroker B H × A) → Type ℓ
  Succeeds {A = A} n r =
      (after : EventBroker B H) × (a : A) × (r ≡ ok (after, a)) × Consistent n after
