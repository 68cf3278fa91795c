-- ===== src/Broker/Events.antt =====
-- bot/src/broker/eventBroker.cpp and .hpp: events published at once or after a delay, and the
-- functions subscribed to them. Locks are not modelled: an operation here is what is done under one.
pub mod Mapped
pub mod State
pub mod Turn
pub mod Session
pub mod Subscribers
use hyperbot.Prelude.{
  ℕ, zero, suc, ◌+◌, ◌^◌, ◌%◌, ◌≡◌, Bool, true, false, Option, none, some, List, [], ◌∷◌, ◌++◌,
  ◌==◌, if◌then◌else◌, Result, ok, err, ◌>>=◌, or_throw,
}
use hyperbot.Prelude.Map.{lookup, insert, erase}
use hyperbot.Broker.Timers.{
  Timer, TimerManager, new_manager, less, HeapAlgorithms, register_timer, trigger_instant_timer,
  cancel_timer, timer_end_time, pop_back, most_recent_timer_is_finished,
}

-- `B` is what a class derived from event::Event adds.
pub record Event (B : Type 0) : Type 0 where
  pub event_id : ℕ
  pub event_code : ℕ
  pub body : B

-- `H` is the function that handles the event.
pub record EventSubscription (H : Type 0) : Type 0 where
  pub id : ℕ
  pub handle_function : H

pub record EventBroker (B H : Type 0) : Type 0 where
  pub subscription_id_counter : ℕ
  pub subscription_map : List (ℕ × List (EventSubscription H))
  pub subscription_master_list : List (EventSubscription H)
  pub event_id_counter : ℕ
  pub timer_manager : TimerManager (Event B)
  pub timer_id_map : List (ℕ × ℕ)

abbrev pub new_broker : {B H : Type 0} → EventBroker B H
new_broker = record {
  subscription_id_counter = 0;
  subscription_map = [];
  subscription_master_list = [];
  event_id_counter = 0;
  timer_manager = new_manager;
  timer_id_map = [];
}

pub data BrokerError : Type 0 where
  no_timer_id not_in_master_list : BrokerError

-- EventSubscription pointers of a code, none where the code is not in the map.
abbrev pub subscribers :
    {H : Type 0} → List (ℕ × List (EventSubscription H)) → ℕ → List (EventSubscription H)
subscribers m code = elim (lookup code m) [ none ↦ [] | some list ↦ list ]

-- erase of the first element with that id, if there is one.
unfoldable pub erase_subscription :
    {H : Type 0} → ℕ → List (EventSubscription H) → Option (List (EventSubscription H))
erase_subscription id [] = none
erase_subscription id (s ∷ list) =
    let rest = erase_subscription id list in
    if s.id == id then some list else elim rest [ none ↦ none | some kept ↦ some (s ∷ kept) ]

-- The two loops of unsubscribeFromEvent.
unfoldable pub unsubscribe_in :
    {H : Type 0}
    → ℕ
    → List (ℕ × List (EventSubscription H))
    → Option (List (ℕ × List (EventSubscription H)))
unfolding erase_subscription
unsubscribe_in id [] = none
unsubscribe_in id (entry ∷ m) =
    let rest = unsubscribe_in id m in
    elim (erase_subscription id (entry.1)) [
      | some kept ↦ some ((entry.0, kept) ∷ m)
      | none ↦ elim rest [ none ↦ none | some kept ↦ some (entry ∷ kept) ]
    ]

module _ {B H : Type 0} where
  unfoldable pub subscribe_to_event : EventBroker B H → ℕ → H → EventBroker B H × ℕ
  subscribe_to_event s code handle_function =
      let subscription : EventSubscription H = record {
        id = s.subscription_id_counter;
        handle_function = handle_function;
      } in
      (
        record {
          subscription_id_counter = s.subscription_id_counter + 1;
          subscription_map =
              insert (s.subscription_map) code
                (subscribers (s.subscription_map) code ++ subscription ∷ []);
          subscription_master_list = s.subscription_master_list ++ subscription ∷ [];
          event_id_counter = s.event_id_counter;
          timer_manager = s.timer_manager;
          timer_id_map = s.timer_id_map;
        },
        s.subscription_id_counter,
      )

  unfoldable pub unsubscribe_from_event : EventBroker B H → ℕ → Result BrokerError (EventBroker B H)
  unfolding unsubscribe_in
  unsubscribe_from_event s id = elim (unsubscribe_in id (s.subscription_map)) [
    | none ↦ ok s
    | some m ↦
        or_throw (erase_subscription id (s.subscription_master_list)) not_in_master_list >>= λ list.
        ok (record {
          subscription_id_counter = s.subscription_id_counter;
          subscription_map = m;
          subscription_master_list = list;
          event_id_counter = s.event_id_counter;
          timer_manager = s.timer_manager;
          timer_id_map = s.timer_id_map;
        })
  ]

  abbrev pub with_timers :
      EventBroker B H → TimerManager (Event B) → List (ℕ × ℕ) → ℕ → EventBroker B H
  with_timers s timers map counter = record {
    subscription_id_counter = s.subscription_id_counter;
    subscription_map = s.subscription_map;
    subscription_master_list = s.subscription_master_list;
    event_id_counter = counter;
    timer_manager = timers;
    timer_id_map = map;
  }

  -- getTimerId
  unfoldable pub get_timer_id : EventBroker B H → ℕ → Result BrokerError ℕ
  get_timer_id s event_id = or_throw (lookup event_id (s.timer_id_map)) no_timer_id

  -- addTimerIdMapping
  unfoldable pub add_timer_id_mapping : EventBroker B H → ℕ → ℕ → EventBroker B H
  add_timer_id_mapping s event_id timer_id =
      with_timers s (s.timer_manager) (insert (s.timer_id_map) event_id timer_id)
        (s.event_id_counter)

  -- removeTimerIdMapping
  unfoldable pub remove_timer_id_mapping :
      EventBroker B H → ℕ → Result BrokerError (EventBroker B H)
  remove_timer_id_mapping s event_id = elim (lookup event_id (s.timer_id_map)) [
    | none ↦ err no_timer_id
    | some timer_id ↦
        ok (with_timers s (s.timer_manager) (erase event_id (s.timer_id_map)) (s.event_id_counter))
  ]

  -- delayedEventEndTime
  unfoldable pub delayed_event_end_time : EventBroker B H → ℕ → Result BrokerError (Option ℕ)
  unfolding get_timer_id
  delayed_event_end_time s event_id =
      get_timer_id s event_id >>= λ id. ok (timer_end_time (s.timer_manager.heap) id)

  -- The second loop of notifySubscribers: the calls of the functions, in order.
  abbrev pub call_each : Event B → List (EventSubscription H) → List (H × Event B)
  call_each event [] = []
  call_each event (subscription ∷ list) =
      (subscription.handle_function, event) ∷ call_each event list

  -- notifySubscribers
  unfoldable pub notify_subscribers : EventBroker B H → Event B → List (H × Event B)
  notify_subscribers s event = call_each event (subscribers (s.subscription_map) (event.event_code))

  -- timerFinished of the manager, with instantTimerFinished and delayedTimerFinished of the broker.
  unfoldable pub timer_finished :
      EventBroker B H → Timer (Event B) → Result BrokerError (EventBroker B H × List (H × Event B))
  unfolding notify_subscribers remove_timer_id_mapping
  timer_finished s timer = elim (timer.is_instant) [
    | true ↦ ok (s, notify_subscribers s (timer.payload))
    | false ↦ remove_timer_id_mapping s (timer.payload.event_id) >>= λ after.
        ok (after, notify_subscribers after (timer.payload))
  ]

  -- cancelDelayedEvent, from what cancelTimer gives.
  unfoldable pub timer_cancelled :
      EventBroker B H
      → ℕ
      → TimerManager (Event B) × Bool × Bool
      → Result BrokerError (EventBroker B H × Bool)
  unfolding remove_timer_id_mapping
  timer_cancelled s event_id (timers, true, woken) =
      remove_timer_id_mapping (with_timers s timers (s.timer_id_map) (s.event_id_counter)) event_id
      >>= λ after. ok (after, true)
  timer_cancelled s event_id (timers, false, woken) =
      ok (with_timers s timers (s.timer_id_map) (s.event_id_counter), false)

  module _ (algorithms : HeapAlgorithms (Timer (Event B)) less) where
    -- publishEvent
    unfoldable pub publish_event : EventBroker B H → ℕ → ℕ → B → EventBroker B H
    publish_event s now code body =
        with_timers s
          (trigger_instant_timer algorithms (s.timer_manager) now
            (record { event_id = s.event_id_counter; event_code = code; body = body }))
          (s.timer_id_map) ((s.event_id_counter + 1) % 2 ^ 32)

    -- publishDelayedEvent up to the registered timer: the broker, the event's id and the timer's.
    unfoldable pub register_delayed_event : EventBroker B H → ℕ → ℕ → B → EventBroker B H × ℕ × ℕ
    unfolding register_timer
    register_delayed_event s end_time code body =
        let r =
          register_timer algorithms (s.timer_manager) end_time
            (record { event_id = s.event_id_counter; event_code = code; body = body }) in
        (
          with_timers s (r.0) (s.timer_id_map) ((s.event_id_counter + 1) % 2 ^ 32),
          s.event_id_counter,
          r.1,
        )

    -- publishDelayedEvent, where no timer fires before the id of the new one is in the map.
    unfoldable pub publish_delayed_event : EventBroker B H → ℕ → ℕ → B → EventBroker B H × ℕ
    unfolding register_delayed_event add_timer_id_mapping
    publish_delayed_event s end_time code body =
        let r = register_delayed_event s end_time code body in
        (add_timer_id_mapping (r.0) (r.1) (r.2), r.1)

    -- cancelDelayedEvent
    unfoldable pub cancel_delayed_event :
        EventBroker B H → ℕ → Result BrokerError (EventBroker B H × Bool)
    unfolding get_timer_id timer_cancelled
    cancel_delayed_event s event_id = get_timer_id s event_id >>= λ id.
        timer_cancelled s event_id (cancel_timer algorithms (s.timer_manager) id)

    -- One turn of pruneTimers, with the manager's callback into the broker.
    unfoldable pub prune_turn :
        EventBroker B H → ℕ → Result BrokerError (EventBroker B H × List (H × Event B))
    unfolding timer_finished most_recent_timer_is_finished
    prune_turn s now = elim (s.timer_manager.heap) [
      | [] ↦ ok (s, [])
      | t ∷ ts ↦
          if most_recent_timer_is_finished (t ∷ ts) now
          then timer_finished
              (with_timers s
                (record {
                  heap = pop_back (algorithms.pop_heap (t ∷ ts));
                  id_counter = s.timer_manager.id_counter;
                })
                (s.timer_id_map) (s.event_id_counter))
              t
          else ok (s, [])
    ]
