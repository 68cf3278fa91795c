-- ===== src/Broker/Tests.antt =====
-- Witnesses and tests of the timers' and the broker's theorems, on sorted vectors as heaps.
use hyperbot.Prelude.{ℕ, ◌+◌, ◌≡◌, refl, true, false, List, [], ◌∷◌, err, arith}
use hyperbot.Prelude.Map.{lookup}
use hyperbot.Broker.Timers.{Timer, TimerManager, new_manager, less, register_timer, prune_timers}
use hyperbot.Broker.Timers.Heap.{sorted_heaps}
use hyperbot.Broker.Timers.Register.{timer_of}
use hyperbot.Broker.Timers.Prune.{Pruned, prune_timers-Pruned}
use hyperbot.Broker.Timers.Reach.{started, registered, WellFormed, reachable-WellFormed}
use hyperbot.Broker.Events.{
  Event, EventBroker, new_broker, no_timer_id, publish_delayed_event, register_delayed_event,
  prune_turn,
}
use hyperbot.Broker.Events.State.{Succeeds}
use hyperbot.Broker.Events.Session.{Session, opened, delays, session_turn-Succeeds}

abbrev soon : Timer ℕ
soon = timer_of 3 false 10 7

abbrev at_once : Timer ℕ
at_once = timer_of 4 true 10 8

abbrev late : Timer ℕ
late = timer_of 1 false 40 9

abbrev two_timers : TimerManager ℕ
two_timers = record { heap = soon ∷ late ∷ []; id_counter = 5 }

-- The callback of the first timer that fires registers another one.
abbrev joins : List (List (Timer ℕ))
joins = (at_once ∷ []) ∷ []

prune_timers-Pruned_example :
    Pruned sorted_heaps
      (λ n. 10 + n)
      joins
      (soon ∷ late ∷ [])
      (prune_timers sorted_heaps 3 (λ n. 10 + n) joins (soon ∷ late ∷ []))
unfolding less
prune_timers-Pruned_example =
    prune_timers-Pruned sorted_heaps 3 (λ n. 10 + n) joins (soon ∷ late ∷ []) (refl, (refl, tt))
      (omega arith)

two_fire :
    prune_timers sorted_heaps 3 (λ n. 10 + n) joins (soon ∷ late ∷ [])
    ≡ (soon ∷ at_once ∷ [], late ∷ [])
unfolding prune_timers less
two_fire = refl

abbrev one_timer : TimerManager ℕ
one_timer = (register_timer sorted_heaps new_manager 5 6).0

reachable-WellFormed_example : WellFormed sorted_heaps 1 one_timer
reachable-WellFormed_example =
    reachable-WellFormed sorted_heaps 1 one_timer (registered 0 new_manager 5 6 started)
      (omega arith)

abbrev one_pending : EventBroker ℕ ℕ
one_pending = (publish_delayed_event sorted_heaps new_broker 20 3 0).0

abbrev one_session : Session sorted_heaps 1 one_pending
one_session = delays 0 new_broker 20 3 0 opened

session_turn-Succeeds_example : Succeeds sorted_heaps 1 (prune_turn sorted_heaps one_pending 25)
session_turn-Succeeds_example =
    session_turn-Succeeds sorted_heaps 1 one_pending 25 one_session (omega arith)

abbrev event : Event ℕ
event = record { event_id = 9; event_code = 3; body = 0 }

abbrev no_events : EventBroker ℕ ℕ
no_events = new_broker

-- A timer that fires between the registration of a delayed event and the entry in the map.
fires_too_early :
    prune_turn sorted_heaps ((register_delayed_event sorted_heaps no_events 20 3 0).0) 25
    ≡ err no_timer_id
unfolding prune_turn register_delayed_event lookup less
fires_too_early = refl
