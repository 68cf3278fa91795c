-- ===== src/StateMachine/SellingItems/Tests.antt =====
-- Runs of selling, and its theorem at two stacks.
use hyperbot.Prelude.{ℕ, ◌≡◌, refl, true, none, some, List, [], ◌∷◌, ok, err, arith}
use hyperbot.Item.{Item, expendable, as_expendable}
use hyperbot.ItemList.{ItemList, get_item}
use hyperbot.StateMachine.{done, not_done, inventory}
use hyperbot.StateMachine.Tasks.{item_moved, sell, Output, inject}
use hyperbot.StateMachine.SellingItems.{item_disappeared, no_item_to_sell, selling_task, on_update}
use hyperbot.Buyback.Queue.{queue_of}
use hyperbot.PacketProcessor.{SelfState}
use hyperbot.StateMachine.SellingItems.Server.{SoldOut, run_sales-SoldOut}
use hyperbot.StateMachine.SellingItems.Sales.{Sales, sales_over, sale, run_sales, run_sales-Sales}

abbrev potions : ℕ → Item
potions n = record { ref_item_id = 5; item_info = none; fields = expendable n }

abbrev full : ItemList
full = some (potions 30) ∷ none ∷ some (potions 7) ∷ []

abbrev half : ItemList
half = none ∷ none ∷ some (potions 7) ∷ []

abbrev empty : ItemList
empty = none ∷ none ∷ none ∷ []

abbrev two_sales : List Output
two_sales = inject (sell 0 30 90) ∷ inject (sell 2 7 90) ∷ []

-- An item that leaves before it is sold, and a slot without an item.
theft_run :
    on_update
      (selling_task (0 ∷ [])).0
      1
      full
      (some 90)
      (some (item_moved 1 (some (record { kind = inventory; slot_num = 0 })) none))
    ≡ err item_disappeared
unfolding on_update selling_task
theft_run = refl

empty_run : on_update (selling_task (1 ∷ [])).0 1 full (some 90) none ≡ err no_item_to_sell
unfolding on_update selling_task
empty_run = refl

-- An event that is not the answer: the sale is requested a second time.
repeated_run :
    on_update (record (selling_task (0 ∷ [])).0 { waiting_on_a_sell = true }) 1 full (some 90) none
    ≡ ok (
      record (selling_task (0 ∷ [])).0 { waiting_on_a_sell = true },
      inject (sell 0 30 90) ∷ [],
      not_done,
    )
unfolding on_update selling_task as_expendable
repeated_run = refl

two_sales-Sales : Sales 90 (0 ∷ 2 ∷ []) (full ∷ half ∷ empty ∷ []) two_sales
unfolding get_item as_expendable
two_sales-Sales =
    sale 0 (2 ∷ []) full (potions 30) (half ∷ empty ∷ []) (inject (sell 2 7 90) ∷ []) refl
      (sale 2 [] half (potions 7) (empty ∷ []) [] refl (sales_over empty))

run_sales-Sales_example :
    run_sales (selling_task (0 ∷ 2 ∷ [])).0 1 90 (full ∷ half ∷ empty ∷ []) ≡ ok (two_sales, done)
run_sales-Sales_example =
    run_sales-Sales (0 ∷ 2 ∷ []) 1 90 (full ∷ half ∷ empty ∷ []) two_sales two_sales-Sales

abbrev seller : SelfState
seller = record {
  global_id = 1;
  inventory_items = full;
  avatar_items = [];
  storage_items = [];
  guild_items = [];
  cos_items = [];
  buyback = queue_of [];
  storage_gold = 0;
  guild_gold = 0;
}

run_sales-SoldOut_example : SoldOut 90 seller (2 ∷ 0 ∷ [])
run_sales-SoldOut_example =
    run_sales-SoldOut 90 seller (2 ∷ 0 ∷ [])
      (omega arith, (potions 7, refl), refl, (omega arith, (potions 30, refl), refl, tt))
