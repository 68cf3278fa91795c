-- ===== src/StateMachine/UseItem.antt =====
-- bot/src/state/machine/useItem.cpp: uses an item of the inventory. Whether an item of a type can be
-- used now is an argument; the dereference of an empty optional is an error of the model.
pub mod Happening
pub mod Following
mod Tests
use hyperbot.Prelude.{
  ℕ, Bool, true, false, ◌&&◌, ◌||◌, Option, none, some, List, [], ◌∷◌, ◌++◌, ◌==◌, if◌then◌else◌,
  Result, ok, err, ◌>>=◌, ◌>>◌, or_throw,
}
use hyperbot.Item.{Item, as_expendable, type_id}
use hyperbot.ItemList.{ItemList, get_item, find_first_item_with_ref_id}
use hyperbot.StateMachine.{Status, done, not_done, Position, inventory, same_kind}
use hyperbot.StateMachine.Tasks.{
  Event, item_moved, item_use_success, item_use_failed, timeout, use_item, Output, inject, publish,
  Update, cancel_timer,
}

pub data UseError : Type 0 where
  not_set no_such_item slot_out_of_bounds not_an_expendable no_item_data : UseError
  moved_out_of_inventory items_vanished cannot_use_item undefined_index : UseError

pub record UseItem : Type 0 where
  pub initialized : Bool
  pub inventory_index : Option ℕ
  pub item_ref_id : Option ℕ
  pub item_type_id : ℕ
  pub last_known_quantity : ℕ
  pub timeout_event_id : Option ℕ

-- The two constructors, of a slot and of a reference id.
unfoldable pub use_task : Option ℕ → Option ℕ → UseItem
use_task index ref = record {
  initialized = false;
  inventory_index = index;
  item_ref_id = ref;
  item_type_id = 0;
  last_known_quantity = 0;
  timeout_event_id = none;
}

-- The destructor.
unfoldable pub abandon_use : UseItem → List Output
abandon_use m = cancel_timer m.timeout_event_id

-- `inventory.getItem(slot)`
abbrev pub item_in : ItemList → ℕ → Result UseError (Option Item)
item_in items slot = elim (get_item items slot) [
  | err e ↦ err slot_out_of_bounds
  | ok item ↦ ok item
]

-- The slot and the reference id, one of which is given.
abbrev pub located : Option ℕ → Option ℕ → ItemList → Result UseError (ℕ × ℕ)
located (some slot) ref items = do
  found ← item_in items slot
  item ← or_throw found no_such_item
  ok (slot, item.ref_item_id)
located none none items = err no_such_item
located none (some ref) items = do
  slot ← or_throw (find_first_item_with_ref_id items ref) undefined_index
  ok (slot, ref)

abbrev pub type_of : Item → Result UseError ℕ
type_of item = elim (type_id item) [ err e ↦ err no_item_data | ok t ↦ ok t ]

-- UseItem::initialize
unfoldable pub initialize_use : UseItem → ItemList → Result UseError UseItem
unfolding get_item find_first_item_with_ref_id type_id as_expendable
initialize_use m items = do
  (slot, ref) ← located m.inventory_index m.item_ref_id items
  found ← item_in items slot
  item ← or_throw found not_an_expendable
  quantity ← or_throw (as_expendable item) not_an_expendable
  type ← type_of item
  ok (record m {
    initialized = true;
    inventory_index = some slot;
    item_ref_id = some ref;
    item_type_id = type;
    last_known_quantity = quantity;
  })

-- What the event comes to.
pub data HandledUse : Type 0 where
  stop : UseItem → List Output → Status → HandledUse
  go_on : UseItem → List Output → HandledUse

abbrev pub without_timer : UseItem → UseItem
without_timer m = record m { timeout_event_id = none }

-- InventoryErrorCode::kItemDoesNotExist and kCharacterDead
abbrev pub final_reason : ℕ → Bool
final_reason reason = reason == 0x1809 || reason == 0x1889

unfoldable pub use_failed : Option ℕ → UseItem → ℕ → HandledUse
use_failed none m reason = go_on m []
use_failed (some id) m reason =
    if final_reason reason
    then stop (without_timer m) (cancel_timer (some id)) done
    else go_on (without_timer m) (cancel_timer (some id))

abbrev pub is_at : Option ℕ → Option Position → Bool
is_at (some index) (some p) = same_kind p.kind inventory && p.slot_num == index
is_at _ _ = false

-- Our item has moved: within the inventory it is followed.
abbrev pub followed : UseItem → Option Position → Result UseError HandledUse
followed m none = ok (go_on m [])
followed m (some d) =
    if same_kind d.kind inventory
    then ok (go_on (record m { inventory_index = some d.slot_num }) [])
    else err moved_out_of_inventory

-- Whether the slot looks as after a use; an odd count is only logged.
abbrev pub looks_good : ℕ → Option Item → Result UseError (Unit {0})
looks_good quantity none = if quantity == 1 then ok tt else err items_vanished
looks_good quantity (some item) = or_throw (as_expendable item) not_an_expendable >>= λ q. ok tt

abbrev pub is_slot : Option ℕ → ℕ → Bool
is_slot none slot = false
is_slot (some index) slot = slot == index

unfoldable pub use_succeeded : Option ℕ → UseItem → ItemList → ℕ → Result UseError HandledUse
unfolding get_item as_expendable
use_succeeded none m items slot = ok (go_on m [])
use_succeeded (some id) m items slot =
    if is_slot m.inventory_index slot
    then (do
      found ← item_in items slot
      looks_good m.last_known_quantity found
      ok (stop (without_timer m) (cancel_timer (some id)) done))
    else ok (go_on m [])

abbrev is_timer : Option ℕ → ℕ → Bool
is_timer none id = false
is_timer (some own) id = id == own

unfoldable pub handle_use : UseItem → ℕ → ItemList → Option Event → Result UseError HandledUse
unfolding use_failed use_succeeded
handle_use m self items (some (item_use_failed id reason)) =
    ok (if id == self then use_failed m.timeout_event_id m reason else stop m [] not_done)
handle_use m self items (some (item_moved id source destination)) =
    if id == self && is_at m.inventory_index source then followed m destination else ok (go_on m [])
handle_use m self items (some (item_use_success id slot type)) =
    if id == self then use_succeeded m.timeout_event_id m items slot else ok (go_on m [])
handle_use m self items (some (timeout id)) =
    ok (go_on (if is_timer m.timeout_event_id id then without_timer m else m) [])
handle_use m self items _ = ok (go_on m [])

-- A request, unless the last one is still out.
unfoldable pub request_use :
    Option ℕ → UseItem → (ℕ → Bool) → ℕ → List Output → Update UseError UseItem
request_use (some id) m can_use fresh outputs = ok (m, outputs, not_done)
request_use none m can_use fresh outputs =
    if can_use m.item_type_id
    then (or_throw m.inventory_index not_set >>= λ slot. ok (
      record m { timeout_event_id = some fresh },
      outputs ++ inject (use_item slot m.item_type_id) ∷ publish 666 ∷ [],
      not_done,
    ))
    else err cannot_use_item

abbrev pub conclude_use : HandledUse → (ℕ → Bool) → ℕ → Update UseError UseItem
conclude_use (stop m outputs status) can_use fresh = ok (m, outputs, status)
conclude_use (go_on m outputs) can_use fresh =
    request_use m.timeout_event_id m can_use fresh outputs

-- What an update reads.
pub record UseSeen : Type 0 where
  pub items : ItemList
  pub can_use : ℕ → Bool
  pub fresh : ℕ
  pub event : Option Event

unfoldable pub both_set : UseItem → Result UseError (Unit {0})
both_set m = do
  slot ← or_throw m.inventory_index not_set
  ref ← or_throw m.item_ref_id not_set
  ok tt

-- UseItem::onUpdate
unfoldable pub on_update : UseItem → ℕ → UseSeen → Update UseError UseItem
unfolding initialize_use both_set handle_use request_use
on_update m self seen = do
  ready ← if m.initialized then ok m else initialize_use m seen.items
  both_set ready
  handled ← handle_use ready self seen.items seen.event
  conclude_use handled seen.can_use seen.fresh
