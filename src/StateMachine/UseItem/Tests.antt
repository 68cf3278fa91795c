-- ===== src/StateMachine/UseItem/Tests.antt =====
-- A potion that is used, and the theorem about its slot.
use hyperbot.Prelude.{ℕ, ◌≡◌, refl, true, Option, none, some, List, [], ◌∷◌, ok, err}
use hyperbot.Item.{Item, expendable}
use hyperbot.ItemList.{ItemList}
use hyperbot.StateMachine.{not_done, Position, inventory}
use hyperbot.StateMachine.Tasks.{
  Event, item_moved, item_use_failed, use_item, inject, publish, cancel,
}
use hyperbot.StateMachine.UseItem.{UseItem, undefined_index, UseSeen, use_task, on_update}
use hyperbot.StateMachine.UseItem.Following.{run_use}

abbrev potion : Item
potion = record {
  ref_item_id = 5;
  item_info = some (record {
    id = 5;
    cash_item = 0;
    bionic = 0;
    type_id1 = 3;
    type_id2 = 3;
    type_id3 = 1;
    type_id4 = 1;
    max_stack = 50;
    item_class = 0;
  });
  fields = expendable 9;
}

-- 0b0000100011101100
abbrev potion_type : ℕ
potion_type = 0x8EC

abbrev items : ItemList
items = none ∷ some potion ∷ none ∷ []

abbrev place : ℕ → Option Position
place n = some (record { kind = inventory; slot_num = n })

abbrev seeing : ℕ → Option Event → UseSeen
seeing fresh event = record { items = items; can_use = λ t. true; fresh = fresh; event = event }

abbrev ready : UseItem
ready = record {
  initialized = true;
  inventory_index = some 1;
  item_ref_id = some 5;
  item_type_id = potion_type;
  last_known_quantity = 9;
  timeout_event_id = none;
}

-- A reference id that no item has.
missing_run : on_update (use_task none (some 6)) 1 (seeing 40 none) ≡ err undefined_index
unfolding on_update use_task
missing_run = refl

-- The item moves while the request is out, and the request fails: the next one names the new slot.
abbrev log : List UseSeen
log =
    seeing 41 (some (item_moved 1 (place 1) (place 2)))
    ∷ seeing 42 (some (item_use_failed 1 0x185B))
    ∷ []

moved_run :
    run_use ready 1 (seeing 40 none) log
    ≡ ok (
      record ready { inventory_index = some 2; timeout_event_id = some 42 },
      cancel 40 ∷ inject (use_item 2 potion_type) ∷ publish 666 ∷ [],
      not_done,
    )
unfolding run_use on_update
moved_run = refl

-- Another item is moved onto the slot of ours, which goes to the other's slot: the request names the slot
-- of the other item.
swapped_run :
    run_use
      (record ready { timeout_event_id = some 40 })
      1
      (seeing 41 (some (item_moved 1 (place 2) (place 1))))
      (seeing 42 (some (item_use_failed 1 0x185B)) ∷ [])
    ≡ ok (
      record ready { timeout_event_id = some 42 },
      cancel 40 ∷ inject (use_item 1 potion_type) ∷ publish 666 ∷ [],
      not_done,
    )
unfolding run_use on_update
swapped_run = refl
