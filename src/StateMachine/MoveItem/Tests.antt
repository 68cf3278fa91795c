-- ===== src/StateMachine/MoveItem/Tests.antt =====
-- Moves, and the theorems about them at concrete places.
use hyperbot.Prelude.{ℕ, ◌≤◌, ◌≡◌, refl, true, none, some, [], ◌∷◌, ok, err}
use hyperbot.Item.{Item, equipment}
use hyperbot.ItemList.{ItemList}
use hyperbot.StateMachine.{not_done, Position, inventory, avatar_inventory}
use hyperbot.StateMachine.Tasks.{
  item_move_failed, timeout, inventory_to_avatar, inject, publish, cancel, push_blocked,
}
use hyperbot.StateMachine.MoveItem.{MoveItem, item_is_null, max_attempts, move_task, on_update}
use hyperbot.StateMachine.MoveItem.Attempts.{requests_made, move_task-requests}

abbrev hat : Item
hat = record {
  ref_item_id = 77;
  item_info = none;
  fields = equipment (record {
    opt_level = 0;
    variance = 0;
    durability = 0;
    magic_params = [];
    socket_options = [];
    advanced_elixir_options = [];
  });
}

abbrev items : ItemList
items = none ∷ some hat ∷ none ∷ []

abbrev slot : ℕ → Position
slot n = record { kind = inventory; slot_num = n }

abbrev avatar : ℕ → Position
avatar n = record { kind = avatar_inventory; slot_num = n }

abbrev asked : MoveItem
asked = record {
  source = slot 1;
  destination = avatar 1;
  initialized = true;
  timeout_event_id = some 40;
  attempt_count = 1;
}

first_run :
    on_update (move_task (slot 1) (avatar 1)) 9 items 40 none
    ≡ ok (
      asked,
      push_blocked 0x7034 ∷ inject (inventory_to_avatar 1 1) ∷ publish 1000 ∷ [],
      not_done,
    )
unfolding on_update move_task
first_run = refl

retry_run :
    on_update asked 9 items 41 (some (item_move_failed 9 3))
    ≡ ok (
      record asked { timeout_event_id = some 41; attempt_count = 2 },
      cancel 40 ∷ inject (inventory_to_avatar 1 1) ∷ publish 1000 ∷ [],
      not_done,
    )
unfolding on_update
retry_run = refl

-- An avatar item is looked for in the inventory: at this slot there is none.
avatar_run : on_update (move_task (avatar 0) (slot 13)) 9 items 40 none ≡ err item_is_null
unfolding on_update move_task
avatar_run = refl

move_task-requests_example :
    requests_made (move_task (slot 1) (avatar 1)) 9 (
      (items, 40, none)
      ∷ (items, 41, some (timeout 40))
      ∷ (items, 42, some (timeout 41))
      ∷ (items, 43, some (timeout 42))
      ∷ (items, 44, some (timeout 43))
      ∷ [])
    ≤ max_attempts
move_task-requests_example = move_task-requests (slot 1) (avatar 1) 9 (
    (items, 40, none)
    ∷ (items, 41, some (timeout 40))
    ∷ (items, 42, some (timeout 41))
    ∷ (items, 43, some (timeout 42))
    ∷ (items, 44, some (timeout 43))
    ∷ [])
