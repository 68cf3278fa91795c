-- ===== src/StateMachine/BuyingItems/Tests.antt =====
-- Purchases with a stacking, and the theorem about them.
use hyperbot.Prelude.{ℕ, ◌≡◌, refl, true, Option, none, some, List, [], ◌∷◌, ok, err}
use hyperbot.Item.{Item, expendable}
use hyperbot.ItemList.{ItemList}
use hyperbot.StateMachine.{not_done, Position, inventory}
use hyperbot.StateMachine.Tasks.{
  item_moved, within_inventory, buy, inject, spoof_item, block, unblock,
}
use hyperbot.StateMachine.BuyingItems.{
  BuyingItems, not_on_list, ShoppingList, buying_task, on_update,
}
use hyperbot.StateMachine.BuyingItems.Purchases.{Reading}

abbrev potions : ℕ → Item
potions n = record {
  ref_item_id = 5;
  item_info = some (record {
    id = 5;
    cash_item = 0;
    bionic = 0;
    type_id1 = 3;
    type_id2 = 3;
    type_id3 = 1;
    type_id4 = 1;
    max_stack = 50;
    item_class = 0;
  });
  fields = expendable n;
}

abbrev before : ItemList
before = some (potions 20) ∷ none ∷ []

abbrev after : ItemList
after = some (potions 20) ∷ some (potions 50) ∷ []

abbrev stacked : ItemList
stacked = some (potions 50) ∷ some (potions 20) ∷ []

abbrev place : ℕ → Option Position
place n = some (record { kind = inventory; slot_num = n })

abbrev list : ShoppingList
list = (5, record { tab_index = 0; item_index = 3; quantity = 50; max_stack_size = 50 }) ∷ []

abbrev task : BuyingItems
task = (buying_task list).0

abbrev log : List Reading
log =
    (after, some 90, some (item_moved 1 none (place 1)))
    ∷ (stacked, some 90, some (item_moved 1 (place 1) (place 0)))
    ∷ []

first_run :
    on_update task 1 before (some 90) none
    ≡ ok (
      record task { waiting_on_buy_response = true },
      block 0xB034 ∷ inject (buy 0 3 50 90) ∷ [],
      not_done,
    )
unfolding on_update buying_task
first_run = refl

-- What was bought is stacked onto the stack that is not full.
bought_run :
    on_update
      (record task { waiting_on_buy_response = true })
      1
      after
      (some 90)
      (some (item_moved 1 none (place 1)))
    ≡ ok (
      record task { items_to_buy = []; waiting_on_item_movement_response = true },
      unblock 0xB034 ∷ spoof_item 1 ∷ inject (within_inventory 1 0 30) ∷ [],
      not_done,
    )
unfolding on_update buying_task
bought_run = refl

gift_run :
    on_update
      (record task { items_to_buy = [] })
      1
      after
      (some 90)
      (some (item_moved 1 none (place 1)))
    ≡ err not_on_list
unfolding on_update buying_task
gift_run = refl

-- One potion that is picked up onto a stack of twenty takes twenty-one off the list.
abbrev picked_up : ItemList
picked_up = some (potions 21) ∷ none ∷ []

pick_up_run :
    on_update task 1 picked_up (some 90) (some (item_moved 1 none (place 0)))
    ≡ ok (
      record task {
        items_to_buy =
            (5, record { tab_index = 0; item_index = 3; quantity = 29; max_stack_size = 50 }) ∷ [];
        waiting_on_buy_response = true;
      },
      unblock 0xB034 ∷ spoof_item 0 ∷ block 0xB034 ∷ inject (buy 0 3 29 90) ∷ [],
      not_done,
    )
unfolding on_update buying_task
pick_up_run = refl
