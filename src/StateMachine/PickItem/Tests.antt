-- ===== src/StateMachine/PickItem/Tests.antt =====
-- A pick, and its theorem at one log.
use hyperbot.Prelude.{◌≡◌, refl, true, false, Option, none, some, List, [], ◌∷◌, ok, err, OnSuccess}
use hyperbot.Item.{expendable}
use hyperbot.ItemList.{ItemList}
use hyperbot.StateMachine.{done, not_done, inventory}
use hyperbot.StateMachine.Tasks.{Event, item_moved, entity_despawned, pickup, inject, publish}
use hyperbot.StateMachine.PickItem.{entity_not_tracked, Seen, pick_task, on_update}
use hyperbot.StateMachine.PickItem.Landing.{run_pick, Answers, run_pick-Answers}

abbrev items : ItemList
items = none ∷ some (record { ref_item_id = 5; item_info = none; fields = expendable 1 }) ∷ []

abbrev seeing : Option Event → Seen
seeing event = record {
  items = items;
  untouchable = false;
  ref = some 5;
  fresh = 40;
  event = event;
}

abbrev first_seen : Seen
first_seen = seeing none

-- The item arrives before the target despawns.
abbrev rest_seen : List Seen
rest_seen =
    seeing (some (item_moved 1 none (some (record { kind = inventory; slot_num = 1 }))))
    ∷ seeing (some (entity_despawned 70))
    ∷ []

first_run :
    on_update (pick_task 70) 1 first_seen
    ≡ ok (
      record (pick_task 70) { initialized = true; target_ref_id = 5; timeout_event_id = some 40 },
      inject (pickup 70) ∷ publish 1000 ∷ [],
      not_done,
    )
unfolding on_update pick_task
first_run = refl

unknown_run : on_update (pick_task 70) 1 (record first_seen { ref = none }) ≡ err entity_not_tracked
unfolding on_update pick_task
unknown_run = refl

whole_run :
    run_pick (pick_task 70) 1 first_seen rest_seen
    ≡ ok (
      record (pick_task 70) {
        initialized = true;
        target_ref_id = 5;
        waiting_to_despawn = false;
        waiting_to_arrive = false;
      },
      [],
      done,
    )
unfolding run_pick on_update pick_task
whole_run = refl

run_pick-Answers_example :
    OnSuccess (Answers 70 5 1 first_seen rest_seen) (run_pick (pick_task 70) 1 first_seen rest_seen)
run_pick-Answers_example = run_pick-Answers 70 1 5 first_seen rest_seen refl
