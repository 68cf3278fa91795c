-- ===== src/Broker/Events/Subscribers.antt =====
-- Who is told of an event.
use hyperbot.Prelude.{
  ℕ, ◌+◌, ◌<◌, ◌≡◌, refl, ap, true, false, none, some, List, [], ◌∷◌, ◌++◌, ◌==◌, arith,
  if◌then◌else◌, Bool-cases, inl, inr, ==_iff, ok,
}
use hyperbot.Prelude.Map.{lookup, insert, lookup-insert}
use hyperbot.Broker.Events.{
  Event, EventSubscription, EventBroker, call_each, subscribers, erase_subscription, unsubscribe_in,
  subscribe_to_event, unsubscribe_from_event, notify_subscribers,
}

module _ {H : Type 0} where
  -- All subscriptions of a list have smaller ids.
  abbrev pub Below : ℕ → List (EventSubscription H) → Type 0
  Below id [] = Unit {0}
  Below id (s ∷ list) = (s.id < id) × Below id list

  abbrev pub AllBelow : ℕ → List (ℕ × List (EventSubscription H)) → Type 0
  AllBelow id [] = Unit {0}
  AllBelow id (entry ∷ m) = Below id (entry.1) × AllBelow id m

  erase_absent :
      (id : ℕ) (list : List (EventSubscription H))
      → Below id list
      → erase_subscription id list ≡ none
  unfolding erase_subscription
  erase_absent id [] below = refl
  erase_absent id (s ∷ list) below = ground (arith, erase_absent id list (below.1), below.0)

  erase_last :
      (list : List (EventSubscription H)) (last : EventSubscription H)
      → Below (last.id) list
      → erase_subscription (last.id) (list ++ last ∷ []) ≡ some list
  unfolding erase_subscription
  erase_last [] last below = ground arith
  erase_last (s ∷ list) last below = ground (arith, erase_last list last (below.1), below.0)

  -- The map with the subscription, and the map without it again.
  unsubscribe-insert :
      (m : List (ℕ × List (EventSubscription H))) (code : ℕ) (last : EventSubscription H)
      → AllBelow (last.id) m
      → (after : List (ℕ × List (EventSubscription H))) × (unsubscribe_in
            (last.id)
            (insert m code (subscribers m code ++ last ∷ []))
          ≡ some after)
        × ((other : ℕ) → subscribers after other ≡ subscribers m other)
  unfolding unsubscribe_in insert lookup
  unsubscribe-insert [] code last below = ((code, []) ∷ [], ground arith, λ other. ground arith)
  unsubscribe-insert (entry ∷ m) code last below = elim (Bool-cases (entry.0 == code)) [
    | inl here ↦ (
      (code, entry.1) ∷ m,
      ground (arith, erase_last (entry.1) last (below.0)),
      λ other. ground arith,
    )
    | inr further ↦
        let (after, removes, same) = unsubscribe-insert m code last (below.1) in
        (
          entry ∷ after,
          ground (arith, erase_absent (last.id) (entry.1) (below.0), removes),
          λ other. ground (arith, same other),
        )
  ]

module _ {B H : Type 0} where
  call_each-append :
      (event : Event B) (xs ys : List (EventSubscription H))
      → call_each event (xs ++ ys) ≡ call_each event xs ++ call_each event ys
  call_each-append event [] ys = refl
  call_each-append event (x ∷ xs) ys = rw (call_each-append event xs ys) refl

  -- After a subscription an event of its code is given to the functions that it was given to before
  -- and then to the new one; any other event is given to the same functions as before.
  pub notify_subscribers-subscribe_to_event :
      (s : EventBroker B H) (code : ℕ) (handle_function : H) (event : Event B)
      → notify_subscribers ((subscribe_to_event s code handle_function).0) event ≡ (
          if code == event.event_code
          then notify_subscribers s event ++ (handle_function, event) ∷ []
          else notify_subscribers s event)
  unfolding subscribe_to_event notify_subscribers
  notify_subscribers-subscribe_to_event s code handle_function event =
      elim (Bool-cases (code == event.event_code)) [
        | inl same ↦ ground (
          arith,
          ap (call_each event) (told event same),
          call_each-append event (subscribers (s.subscription_map) code) (last ∷ []),
          ap (subscribers (s.subscription_map)) ((==_iff code (event.event_code)).0 same),
        )
        | inr other ↦ ground (arith, ap (call_each event) (not_told event other))
      ]
    where
      last : EventSubscription H
      last = record { id = s.subscription_id_counter; handle_function = handle_function }

      list : List (EventSubscription H)
      list = subscribers (s.subscription_map) code ++ last ∷ []

      told :
          (event : Event B)
          → (code == event.event_code) ≡ true
          → subscribers (insert (s.subscription_map) code list) (event.event_code) ≡ list
      told event same =
          ground (arith, lookup-insert (s.subscription_map) code list (event.event_code))

      not_told :
          (event : Event B)
          → (code == event.event_code) ≡ false
          → subscribers (insert (s.subscription_map) code list) (event.event_code)
            ≡ subscribers (s.subscription_map) (event.event_code)
      not_told event other =
          ground (arith, lookup-insert (s.subscription_map) code list (event.event_code))

  -- Where every subscription has an id that the counter has passed, unsubscribing what was just
  -- subscribed succeeds, and then every event is given to the same functions as before, and the master
  -- list is what it was.
  pub unsubscribe_from_event-subscribe_to_event :
      (s : EventBroker B H) (code : ℕ) (handle_function : H)
      → AllBelow (s.subscription_id_counter) (s.subscription_map)
      → Below (s.subscription_id_counter) (s.subscription_master_list)
      → let r = subscribe_to_event s code handle_function in
        (after : EventBroker B H) × (unsubscribe_from_event (r.0) (r.1) ≡ ok after)
        × ((event : Event B) → notify_subscribers after event ≡ notify_subscribers s event)
        × (after.subscription_master_list ≡ s.subscription_master_list)
  unfolding subscribe_to_event unsubscribe_from_event notify_subscribers
  unsubscribe_from_event-subscribe_to_event s code handle_function below listed =
      let last : EventSubscription H = record {
        id = s.subscription_id_counter;
        handle_function = handle_function;
      } in
      let (m, removes, same) = unsubscribe-insert (s.subscription_map) code last below in
      (
        record {
          subscription_id_counter = s.subscription_id_counter + 1;
          subscription_map = m;
          subscription_master_list = s.subscription_master_list;
          event_id_counter = s.event_id_counter;
          timer_manager = s.timer_manager;
          timer_id_map = s.timer_id_map;
        },
        ground (arith, removes, erase_last (s.subscription_master_list) last listed),
        λ event. ap (call_each event) (same (event.event_code)),
        refl,
      )
