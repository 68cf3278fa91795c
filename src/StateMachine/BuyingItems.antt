-- ===== src/StateMachine/BuyingItems.antt =====
-- bot/src/state/machine/buyingItems.cpp: buys the items of a list and stacks them. The list is a map
-- sorted by reference id, whose first entry is the front of the list. The dereference of an empty
-- optional or of a null pointer is an error of the model.
pub mod Remaining
pub mod Bought
pub mod Purchases
mod Tests
use hyperbot.Prelude.{
  ℕ, ◌+◌, ◌-◌, ◌%◌, ◌^◌, min, Bool, true, false, ◌&&◌, Option, none, some, List, [], ◌∷◌, ◌++◌,
  ◌==◌, ltb, if◌then◌else◌, length, Result, ok, err, ◌>>=◌, ◌>>◌, throw_if, or_throw,
}
use hyperbot.Prelude.Map.{lookup, insert}
use hyperbot.TypeId.{u16}
use hyperbot.Item.{Item, as_expendable}
use hyperbot.ItemList.{ItemList, get_item, find_items_with_ref_id}
use hyperbot.StateMachine.{Status, done, not_done, Position, inventory, same_kind}
use hyperbot.StateMachine.Tasks.{
  Event, item_moved, Request, within_inventory, buy, Output, inject, spoof_item, push_blocked,
  block, unblock, Update,
}

pub data BuyError : Type 0 where
  slot_out_of_bounds nothing_here not_on_list bought_too_much : BuyError
  not_an_expendable no_item_data not_talking : BuyError

pub record PurchaseRequest : Type 0 where
  pub tab_index : ℕ
  pub item_index : ℕ
  pub quantity : ℕ
  pub max_stack_size : ℕ

abbrev pub ShoppingList : Type 0
ShoppingList = List (ℕ × PurchaseRequest)

pub record BuyingItems : Type 0 where
  pub items_to_buy : ShoppingList
  pub waiting_on_buy_response : Bool
  pub waiting_on_item_movement_response : Bool

-- Opcode::kClientAgentActionDeselectRequest, kClientAgentInventoryOperationRequest and
-- kServerAgentInventoryOperationResponse
abbrev deselect_request : ℕ
deselect_request = 0x704B

abbrev inventory_operation_request : ℕ
inventory_operation_request = 0x7034

abbrev pub inventory_operation_response : ℕ
inventory_operation_response = 0xB034

-- The constructor.
unfoldable pub buying_task : ShoppingList → BuyingItems × List Output
buying_task list = (
  record {
    items_to_buy = list;
    waiting_on_buy_response = false;
    waiting_on_item_movement_response = false;
  },
  push_blocked deselect_request ∷ push_blocked inventory_operation_request ∷ [],
)

abbrev pub item_here : ItemList → ℕ → Result BuyError Item
item_here items slot = elim (get_item items slot) [
  | err e ↦ err slot_out_of_bounds
  | ok found ↦ or_throw found nothing_here
]

abbrev pub count_of : Item → ℕ
count_of item = elim (as_expendable item) [ none ↦ 1 | some q ↦ q ]

-- `itemsToBuy_.erase(it)`
abbrev pub erase_entry : ℕ → ShoppingList → ShoppingList
erase_entry k [] = []
erase_entry k (entry ∷ rest) = if entry.0 == k then rest else entry ∷ erase_entry k rest

-- The list after a purchase.
unfoldable pub take_off : ShoppingList → ℕ → PurchaseRequest → ℕ → ShoppingList
unfolding insert
take_off list ref wanted left =
    if left == 0 then erase_entry ref list else insert list ref (record wanted { quantity = left })

-- An item that was bought lies in a slot.
unfoldable pub item_bought :
    BuyingItems → ItemList → ℕ → Result BuyError (BuyingItems × List Output)
unfolding get_item take_off lookup
item_bought m items slot = do
  item ← item_here items slot
  wanted ← or_throw (lookup item.ref_item_id m.items_to_buy) not_on_list
  throw_if (ltb wanted.quantity (count_of item)) bought_too_much
  ok (
    record m {
      items_to_buy =
          take_off m.items_to_buy item.ref_item_id wanted (wanted.quantity - count_of item);
      waiting_on_buy_response = false;
    },
    unblock inventory_operation_response ∷ spoof_item slot ∷ [],
  )

-- The quantity of a stack, and the most that it holds.
abbrev pub stack_at : ItemList → ℕ → Result BuyError (ℕ × Item)
stack_at items slot = do
  item ← item_here items slot
  quantity ← or_throw (as_expendable item) not_an_expendable
  ok (quantity, item)

abbrev pub max_stack_of : Item → Result BuyError ℕ
max_stack_of item = elim item.item_info [ none ↦ err no_item_data | some info ↦ ok info.max_stack ]

abbrev pub space_left : ℕ → ℕ → ℕ
space_left most quantity = u16 (most + 2 ^ 16 - quantity)

-- The inner loop: the first earlier stack that is not full takes from the later one.
unfoldable pub stack_onto : ItemList → ℕ → List ℕ → Result BuyError (Option Request)
unfolding get_item as_expendable
stack_onto items later [] = ok none
stack_onto items later (earlier ∷ rest) =
    let further = stack_onto items later rest in
    stack_at items earlier >>= λ e. max_stack_of e.1 >>= λ most.
    if e.0 == most
    then further
    else (stack_at items later >>= λ l.
        ok (some (within_inventory later earlier (min l.0 (space_left most e.0)))))

-- The outer loop; the slots come from the last to the first.
unfoldable pub find_stacking : ItemList → List ℕ → Result BuyError (Option Request)
unfolding stack_onto
find_stacking items [] = ok none
find_stacking items (later ∷ rest) =
    let further = find_stacking items rest in
    stack_onto items later rest >>= λ found. elim found [
      | some request ↦ ok (some request)
      | none ↦ further
    ]

abbrev pub reversed : List ℕ → List ℕ
reversed [] = []
reversed (x ∷ xs) = reversed xs ++ x ∷ []

abbrev pub stacking_of : ItemList → Option Item → Result BuyError (Option Request)
stacking_of items none = ok none
stacking_of items (some item) = elim (as_expendable item) [
  | none ↦ ok none
  | some q ↦ find_stacking items (reversed (find_items_with_ref_id items item.ref_item_id))
]

abbrev pub with_stacking : BuyingItems × List Output → Option Request → BuyingItems × List Output
with_stacking (m, outputs) none = (m, outputs)
with_stacking (m, outputs) (some request) =
    (record m { waiting_on_item_movement_response = true }, outputs ++ inject request ∷ [])

-- The item of the slot may be stacked onto another.
unfoldable pub try_stacking :
    ItemList → ℕ → BuyingItems × List Output → Result BuyError (BuyingItems × List Output)
unfolding get_item as_expendable find_items_with_ref_id find_stacking
try_stacking items slot r = elim (get_item items slot) [
  | err e ↦ err slot_out_of_bounds
  | ok found ↦ stacking_of items found >>= λ request. ok (with_stacking r request)
]

abbrev pub from_inventory : Option Position → Bool
from_inventory none = false
from_inventory (some p) = same_kind p.kind inventory

-- An item has come to a slot of the inventory, from another slot or bought.
unfoldable pub item_landed :
    BuyingItems → ItemList → Option Position → ℕ → Result BuyError (BuyingItems × List Output)
unfolding item_bought try_stacking
item_landed m items source slot = do
  r ←
      if from_inventory source
      then ok (record m { waiting_on_item_movement_response = false }, [])
      else item_bought m items slot
  try_stacking items slot r

abbrev pub handle_purchase :
    BuyingItems → ℕ → ItemList → Option Event → Result BuyError (BuyingItems × List Output)
handle_purchase m self items (some (item_moved id source (some d))) =
    if id == self && same_kind d.kind inventory
    then item_landed m items source d.slot_num
    else ok (m, [])
handle_purchase m self items _ = ok (m, [])

-- The first purchase of the list.
unfoldable pub buy_next :
    ShoppingList → BuyingItems → Option ℕ → List Output → Update BuyError BuyingItems
buy_next [] m talking outputs = ok (m, outputs, done)
buy_next ((ref, next) ∷ rest) m talking outputs = or_throw talking not_talking >>= λ npc. ok (
  record m { waiting_on_buy_response = true },
  outputs
      ++ block inventory_operation_response
        ∷ inject
            (buy next.tab_index next.item_index (min next.quantity (u16 next.max_stack_size)) npc)
        ∷ [],
  not_done,
)

abbrev pub proceed_purchase : BuyingItems × List Output → Option ℕ → Update BuyError BuyingItems
proceed_purchase (m, outputs) talking =
    if m.waiting_on_item_movement_response
    then ok (m, outputs, not_done)
    else if m.waiting_on_buy_response
    then ok (m, outputs, not_done)
    else buy_next m.items_to_buy m talking outputs

-- BuyingItems::onUpdate
unfoldable pub on_update :
    BuyingItems → ℕ → ItemList → Option ℕ → Option Event → Update BuyError BuyingItems
unfolding item_landed buy_next
on_update m self items talking event =
    handle_purchase m self items event >>= λ r. proceed_purchase r talking
