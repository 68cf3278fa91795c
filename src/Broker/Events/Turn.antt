-- ===== src/Broker/Events/Turn.antt =====
-- One turn of pruneTimers with its callback.
use hyperbot.Prelude.{
  ℕ, ◌≡◌, refl, sym, ap, subst, Bool, true, false, some, List, [], ◌∷◌, ◌++◌, arith, Bool-cases,
  inl, inr, ok,
}
use hyperbot.Prelude.Counts.{count, SameElements}
use hyperbot.Prelude.Map.{lookup, erase}
use hyperbot.Broker.Timers.{Timer, less, HeapAlgorithms, most_recent_timer_is_finished}
use hyperbot.Broker.Timers.Prune.{pop_back-append}
use hyperbot.Broker.Events.{
  Event, EventBroker, with_timers, prune_turn, timer_finished, notify_subscribers,
}
use hyperbot.Broker.Events.Mapped.{delivered_lookup}
use hyperbot.Broker.Events.State.{Consistent, Succeeds, without, without_instant}

module _ {B H : Type 0} (algorithms : HeapAlgorithms (Timer (Event B)) less) where
  abbrev left_with : EventBroker B H → List (Timer (Event B)) → EventBroker B H
  left_with s us =
      with_timers s (record { heap = us; id_counter = s.timer_manager.id_counter }) (s.timer_id_map)
        (s.event_id_counter)

  abbrev forgets : EventBroker B H → Timer (Event B) → List (Timer (Event B)) → EventBroker B H
  forgets s t us =
      with_timers s (record { heap = us; id_counter = s.timer_manager.id_counter })
        (erase (t.payload.event_id) (s.timer_id_map)) (s.event_id_counter)

  finished_instant :
      (s : EventBroker B H) (t : Timer (Event B))
      → t.is_instant ≡ true
      → timer_finished s t ≡ ok (s, notify_subscribers s (t.payload))
  unfolding timer_finished
  finished_instant s t e = ground arith

  finished_delayed :
      (s : EventBroker B H) (t : Timer (Event B)) (i : ℕ)
      → t.is_instant ≡ false
      → lookup (t.payload.event_id) (s.timer_id_map) ≡ some i
      → timer_finished s t ≡ (
          let after =
            with_timers s
              (s.timer_manager)
              (erase (t.payload.event_id) (s.timer_id_map))
              (s.event_id_counter) in
          ok (after, notify_subscribers after (t.payload)))
  unfolding timer_finished
  finished_delayed s t i e found = ground arith

  finished :
      (n : ℕ) (s : EventBroker B H) (t : Timer (Event B)) (us : List (Timer (Event B)))
      → Consistent algorithms n s
      → SameElements (t ∷ us) (s.timer_manager.heap)
      → algorithms.IsHeap us
      → (b : Bool) → t.is_instant ≡ b
      → Succeeds algorithms n (timer_finished (left_with s us) t)
  finished n s t us c same heap true kind = (
    left_with s us,
    notify_subscribers (left_with s us) (t.payload),
    finished_instant (left_with s us) t kind,
    without_instant algorithms n (s.timer_manager.id_counter) s t us c refl same heap kind,
  )
  finished n s t us c same heap false kind =
      let (i, found) =
        delivered_lookup (s.timer_id_map) (s.timer_manager.heap) us t kind same (c.mapped) in
      (
        forgets s t us,
        notify_subscribers (forgets s t us) (t.payload),
        finished_delayed (left_with s us) t i kind found,
        without algorithms n (s.timer_manager.id_counter) s t us c refl same heap kind,
      )

  turn_rests :
      (s : EventBroker B H) (now : ℕ) (ts : List (Timer (Event B)))
      → s.timer_manager.heap ≡ ts
      → most_recent_timer_is_finished ts now ≡ false
      → prune_turn algorithms s now ≡ ok (s, [])
  unfolding prune_turn
  turn_rests s now [] same later = ground arith
  turn_rests s now (t ∷ ts) same later = ground arith

  turn_fires :
      (s : EventBroker B H) (now : ℕ) (t : Timer (Event B)) (ts us : List (Timer (Event B)))
      → s.timer_manager.heap ≡ t ∷ ts
      → most_recent_timer_is_finished (t ∷ ts) now ≡ true
      → algorithms.pop_heap (t ∷ ts) ≡ us ++ t ∷ []
      → prune_turn algorithms s now ≡ timer_finished (left_with s us) t
  unfolding prune_turn
  turn_fires s now t ts us same due popped = ground (arith, popped, pop_back-append us t)

  pub turn_of :
      (n : ℕ) (s : EventBroker B H) (now : ℕ)
      → Consistent algorithms n s
      → (ts : List (Timer (Event B))) → s.timer_manager.heap ≡ ts
      → Succeeds algorithms n (prune_turn algorithms s now)
  unfolding most_recent_timer_is_finished
  turn_of n s now c [] same = (s, [], turn_rests s now [] same refl, c)
  turn_of n s now c (t ∷ ts) same = elim (Bool-cases (most_recent_timer_is_finished (t ∷ ts) now)) [
    | inl due ↦
        let (us, popped, heap, kept) =
          algorithms.pop_heap_front t ts (subst algorithms.IsHeap same (c.timers.is_heap)) in
        subst (Succeeds algorithms n) (sym (turn_fires s now t ts us same due popped)) (
          finished n s t us c (λ p. omega (arith, kept p, ap (count p) same)) heap (t.is_instant)
            refl)
    | inr later ↦ (s, [], turn_rests s now (t ∷ ts) same later, c)
  ]
