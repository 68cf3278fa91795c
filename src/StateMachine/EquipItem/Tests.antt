-- ===== src/StateMachine/EquipItem/Tests.antt =====
-- A hat that is put on, and the theorem at it.
use hyperbot.Prelude.{ℕ, ◌≡◌, refl, Option, none, some, List, [], ◌∷◌, ok, err}
use hyperbot.TypeId.{contains_id, sub_category, top_category}
use hyperbot.Item.{Item, equipment}
use hyperbot.ItemList.{ItemList}
use hyperbot.StateMachine.{done, inventory, avatar_inventory}
use hyperbot.StateMachine.Tasks.{
  Event, item_moved, inventory_to_avatar, inject, publish, cancel, push_blocked,
  send_active_state_machine,
}
use hyperbot.StateMachine.EquipItem.{
  no_such_item, not_an_avatar_hat, equip_task, find_hat, move_hat, on_update,
}
use hyperbot.StateMachine.EquipItem.Delegating.{
  Reading, run_move, run_equip, at_start, at_end, run_equip-run_move,
}

-- An equipment whose type ids are 3, 1, `n` and 1: an avatar hat for 13.
abbrev worn : ℕ → Item
worn n = record {
  ref_item_id = 77;
  item_info = some (record {
    id = 77;
    cash_item = 1;
    bionic = 0;
    type_id1 = 3;
    type_id2 = 1;
    type_id3 = n;
    type_id4 = 1;
    max_stack = 1;
    item_class = 0;
  });
  fields = equipment (record {
    opt_level = 0;
    variance = 0;
    durability = 0;
    magic_params = [];
    socket_options = [];
    advanced_elixir_options = [];
  });
}

abbrev items : ItemList
items = none ∷ some (worn 13) ∷ none ∷ []

abbrev moved_event : Option Event
moved_event = some (
    item_moved 9 (some (record { kind = inventory; slot_num = 1 }))
      (some (record { kind = avatar_inventory; slot_num = 1 })))

abbrev log : List Reading
log = (items, 41, none) ∷ (items, 42, moved_event) ∷ []

hat_found : find_hat items 77 ≡ ok 1
unfolding find_hat contains_id sub_category top_category
hat_found = refl

sword_found : find_hat (some (worn 6) ∷ []) 77 ≡ err not_an_avatar_hat
unfolding find_hat contains_id sub_category top_category
sword_found = refl

missing_run : on_update (equip_task 78) 9 items 40 none ≡ err no_such_item
unfolding on_update equip_task
missing_run = refl

hat_run :
    run_equip (equip_task 77) 9 ((items, 40, none) ∷ log)
    ≡ ok (
      send_active_state_machine
          ∷ push_blocked 0x7034
          ∷ inject (inventory_to_avatar 1 1)
          ∷ publish 1000
          ∷ cancel 40
          ∷ send_active_state_machine
          ∷ [],
      done,
    )
unfolding run_equip on_update equip_task contains_id sub_category top_category
hat_run = refl

run_equip-run_move_example :
    run_equip (equip_task 77) 9 ((items, 40, none) ∷ log)
    ≡ at_start (at_end (run_move (move_hat 1) 9 ((items, 40, none) ∷ log)))
run_equip-run_move_example = run_equip-run_move 77 9 1 items 40 none log hat_found
