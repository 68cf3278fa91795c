-- ===== src/StateMachine/SellingItems.antt =====
-- bot/src/state/machine/sellingItems.cpp: sells the items of some slots, one after the other. Whom
-- the character talks to is an argument; the dereference of an empty optional and an index past the
-- end are errors of the model.
pub mod Sales
pub mod Server
mod Tests
use hyperbot.Prelude.{
  ℕ, ◌+◌, Bool, true, false, not, ◌&&◌, Option, none, some, List, [], ◌∷◌, ◌==◌, if◌then◌else◌,
  length, get_elem?, Result, ok, err, ◌>>=◌, ◌>>◌, throw_if, or_throw,
}
use hyperbot.Item.{Item, as_expendable}
use hyperbot.ItemList.{ItemList, get_item}
use hyperbot.StateMachine.{Status, done, not_done, Position, inventory, same_kind}
use hyperbot.StateMachine.Tasks.{Event, item_moved, sell, Output, inject, push_blocked, Update}

pub data SellError : Type 0 where
  item_disappeared no_item_to_sell slot_out_of_bounds index_out_of_range not_talking : SellError

pub record SellingItems : Type 0 where
  pub slots_to_sell : List ℕ
  pub next_to_sell_index : ℕ
  pub waiting_on_a_sell : Bool

-- Opcode::kClientAgentActionDeselectRequest and kClientAgentInventoryOperationRequest
abbrev pub deselect_request : ℕ
deselect_request = 0x704B

abbrev inventory_operation_request : ℕ
inventory_operation_request = 0x7034

-- The constructor keeps the user from ending the talk and from moving items.
unfoldable pub selling_task : List ℕ → SellingItems × List Output
selling_task slots = (
  record { slots_to_sell = slots; next_to_sell_index = 0; waiting_on_a_sell = false },
  push_blocked deselect_request ∷ push_blocked inventory_operation_request ∷ [],
)

-- `slotsToSell_[nextToSellIndex_]`
abbrev pub current_slot : SellingItems → Result SellError ℕ
current_slot m = or_throw (get_elem? m.slots_to_sell m.next_to_sell_index) index_out_of_range

-- The item of the current slot is gone; the flag is set after the last one.
unfoldable pub sold : SellingItems → Result SellError (SellingItems × Bool)
sold m =
    if m.waiting_on_a_sell
    then ok (
      record m { waiting_on_a_sell = false; next_to_sell_index = m.next_to_sell_index + 1 },
      m.next_to_sell_index + 1 == length m.slots_to_sell,
    )
    else err item_disappeared

unfoldable pub item_left : SellingItems → ℕ → ℕ → Position → Result SellError (SellingItems × Bool)
unfolding sold
item_left m self id p =
    if id == self && same_kind p.kind inventory
    then (do slot ← current_slot m; if p.slot_num == slot then sold m else ok (m, false))
    else ok (m, false)

abbrev pub handle_sale : SellingItems → ℕ → Option Event → Result SellError (SellingItems × Bool)
handle_sale m self (some (item_moved id (some p) none)) = item_left m self id p
handle_sale m self _ = ok (m, false)

abbrev pub quantity_of : Item → ℕ
quantity_of item = elim (as_expendable item) [ none ↦ 1 | some q ↦ q ]

abbrev pub item_to_sell : ItemList → ℕ → Result SellError Item
item_to_sell items slot = elim (get_item items slot) [
  | err e ↦ err slot_out_of_bounds
  | ok found ↦ or_throw found no_item_to_sell
]

unfoldable pub sell_current : SellingItems → ItemList → Option ℕ → Update SellError SellingItems
unfolding get_item
sell_current m items talking = do
  slot ← current_slot m
  item ← item_to_sell items slot
  npc ← or_throw talking not_talking
  ok (
    record m { waiting_on_a_sell = true },
    inject (sell slot (quantity_of item) npc) ∷ [],
    not_done,
  )

abbrev pub unless_finished :
    SellingItems × Bool → ItemList → Option ℕ → Update SellError SellingItems
unless_finished (m, true) items talking = ok (m, [], done)
unless_finished (m, false) items talking = sell_current m items talking

-- SellingItems::onUpdate
unfoldable pub on_update :
    SellingItems → ℕ → ItemList → Option ℕ → Option Event → Update SellError SellingItems
unfolding item_left sell_current
on_update m self items talking event = elim m.slots_to_sell [
  | [] ↦ ok (m, [], done)
  | slot ∷ slots ↦ handle_sale m self event >>= λ handled. unless_finished handled items talking
]
