-- ===== src/Broker/Events/Session.antt =====
-- Cancelling an event, and the broker's state after any sequence of its operations, where
-- publishing a delayed event is one operation.
use hyperbot.Prelude.{
  if◌then◌else◌, ◌==◌, ℕ, suc, ◌^◌, ◌≤◌, ◌≡◌, refl, sym, ap, subst, ◌∙◌, Bool, true, false, none,
  some, List, arith, inl, inr, Result, ok, err, Option-cases, ◌⊎◌,
}
use hyperbot.Prelude.Map.{lookup, erase, lookup-erase}
use hyperbot.Broker.Timers.{Timer, TimerManager, new_manager, less, HeapAlgorithms, cancel_timer}
use hyperbot.Broker.Timers.Cancel.{cancel_timer_removes, Cancelled}
use hyperbot.Broker.Timers.Reach.{reachable-WellFormed, started}
use hyperbot.Broker.Events.{
  Event, EventBroker, new_broker, BrokerError, no_timer_id, with_timers, publish_event,
  publish_delayed_event, cancel_delayed_event, prune_turn, remove_timer_id_mapping, timer_cancelled,
}
use hyperbot.Broker.Events.Mapped.{Held, mapped_timer, mapped_has_timer}
use hyperbot.Broker.Events.State.{Consistent, Succeeds, published, delayed, without}
use hyperbot.Broker.Events.Turn.{turn_of}

value_or : {E : Type 0} {A : Type 0} → Result E A → A → A
value_or (ok a) b = a
value_or (err e) b = b

module _ {B H : Type 0} (algorithms : HeapAlgorithms (Timer (Event B)) less) where
  entry_goes :
      (s : EventBroker B H) (event_id i : ℕ) (timers : TimerManager (Event B))
      → lookup event_id (s.timer_id_map) ≡ some i
      → timer_cancelled s event_id (timers, true, false)
        ≡ ok (with_timers s timers (erase event_id (s.timer_id_map)) (s.event_id_counter), true)
  unfolding timer_cancelled remove_timer_id_mapping
  entry_goes s event_id i timers found = ground arith

  cancel_runs :
      (s : EventBroker B H) (event_id i : ℕ) (timers : TimerManager (Event B))
      → lookup event_id (s.timer_id_map) ≡ some i
      → cancel_timer algorithms (s.timer_manager) i ≡ (timers, true, false)
      → cancel_delayed_event algorithms s event_id
        ≡ ok (with_timers s timers (erase event_id (s.timer_id_map)) (s.event_id_counter), true)
  unfolding cancel_delayed_event
  cancel_runs s event_id i timers found same =
      rw (found, same) (entry_goes s event_id i timers found)

  cancel_with :
      (n : ℕ) (s : EventBroker B H) (event_id i : ℕ)
      → Consistent algorithms n s
      → lookup event_id (s.timer_id_map) ≡ some i
      → Cancelled algorithms (s.timer_manager) i (cancel_timer algorithms (s.timer_manager) i)
      → (after : EventBroker B H) × (cancel_delayed_event algorithms s event_id ≡ ok (after, true))
        × Consistent algorithms n after
        × ((other : ℕ)
            → lookup other (after.timer_id_map)
              ≡ (if event_id == other then none else lookup other (s.timer_id_map)))
  cancel_with n s event_id i c found (inl (none_there, same)) =
      let held = subst (Held (s.timer_manager.heap) event_id) found (c.mapped event_id) in
      absurd (omega (arith, mapped_has_timer (s.timer_manager.heap) event_id i held, none_there))
  cancel_with n s event_id i c found (inr (timers, t, same, same_id, kept, heap, counter)) =
      let held = subst (Held (s.timer_manager.heap) event_id) found (c.mapped event_id) in
      let (delayed_one, same_event) =
        mapped_timer (s.timer_manager.heap) (timers.heap) t event_id i held same_id kept
          (c.timers.one_each i) in
      (
        with_timers s timers (erase event_id (s.timer_id_map)) (s.event_id_counter),
        cancel_runs s event_id i timers found same,
        subst
            (λ e.
              Consistent algorithms n
                (with_timers s timers (erase e (s.timer_id_map)) (s.event_id_counter)))
            same_event
            (without algorithms n (timers.id_counter) s t (timers.heap) c counter kept heap
              delayed_one),
        lookup-erase (s.timer_id_map) event_id,
      )

  pub cancel_delayed_event_cancels :
      (n : ℕ) (s : EventBroker B H) (event_id : ℕ)
      → Consistent algorithms n s
      → ((lookup event_id (s.timer_id_map) ≡ none)
          × (cancel_delayed_event algorithms s event_id ≡ err no_timer_id))
        ⊎ ((after : EventBroker B H) × (cancel_delayed_event algorithms s event_id
              ≡ ok (after, true))
            × Consistent algorithms n after
            × ((other : ℕ)
                → lookup other (after.timer_id_map)
                  ≡ (if event_id == other then none else lookup other (s.timer_id_map))))
  unfolding cancel_delayed_event
  cancel_delayed_event_cancels n s event_id c =
      elim (Option-cases (lookup event_id (s.timer_id_map))) [
        | inl missing ↦ inl (missing, rw (missing) refl)
        | inr (i, found) ↦ inr (
            cancel_with n s event_id i c found
              (cancel_timer_removes algorithms (s.timer_manager) i (c.timers.is_heap)))
      ]

  -- The brokers after `n` published events.
  pub data Session : ℕ → EventBroker B H → Type 0 where
    opened : Session 0 new_broker
    publishes :
        (n : ℕ) (s : EventBroker B H) (now code : ℕ) (body : B)
        → Session n s
        → Session (suc n) (publish_event algorithms s now code body)
    delays :
        (n : ℕ) (s : EventBroker B H) (end_time code : ℕ) (body : B)
        → Session n s
        → Session (suc n) ((publish_delayed_event algorithms s end_time code body).0)
    cancels :
        (n : ℕ) (s after : EventBroker B H) (event_id : ℕ) (answer : Bool)
        → Session n s
        → cancel_delayed_event algorithms s event_id ≡ ok (after, answer)
        → Session n after
    turns :
        (n : ℕ) (s after : EventBroker B H) (now : ℕ) (calls : List (H × Event B))
        → Session n s
        → prune_turn algorithms s now ≡ ok (after, calls)
        → Session n after

  same_broker :
      {A : Type 0} (after other : EventBroker B H) (a b : A)
      → Path (Result BrokerError (EventBroker B H × A)) (ok (after, a)) (ok (other, b))
      → after ≡ other
  unfolding value_or
  same_broker {A = A} after other a b e =
      ap (λ r. (value_or {A = EventBroker B H × A} r (after, a)).0) e

  -- As long as at most 2^32 events were published, the broker is consistent: its map has exactly the
  -- pending delayed events, each with its only timer.
  pub session-Consistent :
      (n : ℕ) (s : EventBroker B H) → Session n s → n ≤ 2 ^ 32 → Consistent algorithms n s
  unfolding lookup
  session-Consistent n s opened small = record {
    timers = reachable-WellFormed algorithms 0 new_manager started (omega arith);
    counted = refl;
    mapped = λ e. refl;
    fresh = λ e le. refl;
  }
  session-Consistent n s (publishes k before now code body r) small =
      published algorithms k before now code body (omega arith)
        (session-Consistent k before r (omega arith))
  session-Consistent n s (delays k before end_time code body r) small =
      delayed algorithms k before end_time code body (omega arith)
        (session-Consistent k before r (omega arith))
  session-Consistent n s (cancels k before after event_id answer r e) small =
      elim (cancel_delayed_event_cancels n before event_id (session-Consistent n before r small)) [
        | inl (missing, fails) ↦ absurd (ground arith)
        | inr (left, runs, c, gone) ↦
            subst (Consistent algorithms n) (same_broker left s true answer (sym runs ∙ e)) c
      ]
  session-Consistent n s (turns k before after now calls r e) small =
      let (left, called, runs, c) =
        turn_of algorithms n before now (session-Consistent n before r small)
          (before.timer_manager.heap) refl in
      subst (Consistent algorithms n) (same_broker left s called calls (sym runs ∙ e)) c

  -- After any such session a turn of the timer thread does not throw: it succeeds and leaves a
  -- consistent broker, whatever the time.
  pub session_turn-Succeeds :
      (n : ℕ) (s : EventBroker B H) (now : ℕ)
      → Session n s
      → n ≤ 2 ^ 32
      → Succeeds algorithms n (prune_turn algorithms s now)
  session_turn-Succeeds n s now r small =
      turn_of algorithms n s now (session-Consistent n s r small) (s.timer_manager.heap) refl
