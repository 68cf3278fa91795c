-- ===== src/StateMachine/MoveItem.antt =====
-- bot/src/state/machine/moveItem.cpp: moves an item from one place to another, with at most three
-- requests. The warning about the slot that the server will choose is its look-ups alone.
pub mod Attempts
pub mod Waiting
pub mod Finishing
mod Tests
use hyperbot.Prelude.{
  ℕ, zero, suc, ◌+◌, ◌-◌, min, max, Bool, true, false, ◌&&◌, Option, none, some, List, [], ◌∷◌,
  ◌++◌, ◌==◌, leb, if◌then◌else◌, Result, ok, err, ◌>>=◌, ◌>>◌, throw_if, or_throw,
}
use hyperbot.Item.{Item}
use hyperbot.ItemList.{ItemList, get_item, first_free_slot}
use hyperbot.StateMachine.{
  Status, done, not_done, Position, StorageKind, inventory, avatar_inventory, same_kind,
  same_position,
}
use hyperbot.StateMachine.Tasks.{
  Event, item_moved, item_move_failed, timeout, Request, within_inventory, inventory_to_avatar,
  avatar_to_inventory, Output, inject, publish, cancel, push_blocked, Update, is_equipment,
  cancel_timer,
}

pub data MoveError : Type 0 where
  item_is_gone other_item_moved_here failed_too_often timed_out_too_often : MoveError
  slot_out_of_bounds item_is_null not_an_equipment no_free_slot unhandled_storages : MoveError

pub record MoveItem : Type 0 where
  pub source : Position
  pub destination : Position
  pub initialized : Bool
  pub timeout_event_id : Option ℕ
  pub attempt_count : ℕ

abbrev pub max_attempts : ℕ
max_attempts = 3

-- Opcode::kClientAgentInventoryOperationRequest
abbrev pub inventory_operation_request : ℕ
inventory_operation_request = 0x7034

abbrev pub first_inventory_slot : ℕ
first_inventory_slot = 13

-- The constructor.
unfoldable pub move_task : Position → Position → MoveItem
move_task source destination = record {
  source = source;
  destination = destination;
  initialized = false;
  timeout_event_id = none;
  attempt_count = 0;
}

abbrev pub is_at : Option Position → Position → Bool
is_at none p = false
is_at (some q) p = same_position q p

-- What the first part of an update comes to.
pub data Handled (S : Type 0) : Type 0 where
  finish : S → List Output → Handled S
  proceed : S → List Output → Handled S

abbrev pub without_timer : MoveItem → MoveItem
without_timer m = record m { timeout_event_id = none }

-- Our own item moved.
unfoldable pub moved :
    MoveItem → Option Position → Option Position → Result MoveError (Handled MoveItem)
moved m source destination =
    if is_at source m.source
    then elim destination [
      | none ↦ err item_is_gone
      | some d ↦ ok (finish (without_timer m) (cancel_timer m.timeout_event_id))
    ]
    else if is_at destination m.destination
    then err other_item_moved_here
    else ok (proceed m [])

-- The request failed, or its time is over.
unfoldable pub retry : MoveItem → MoveError → List Output → Result MoveError (Handled MoveItem)
retry m error outputs =
    if leb max_attempts m.attempt_count then err error else ok (proceed (without_timer m) outputs)

abbrev pub is_timer : Option ℕ → ℕ → Bool
is_timer none id = false
is_timer (some own) id = own == id

unfoldable pub handle : MoveItem → ℕ → Event → Result MoveError (Handled MoveItem)
unfolding moved retry
handle m self (item_moved id source destination) =
    if id == self then moved m source destination else ok (proceed m [])
handle m self (item_move_failed id code) =
    if id == self
    then retry m failed_too_often (cancel_timer m.timeout_event_id)
    else ok (proceed m [])
handle m self (timeout id) =
    if is_timer m.timeout_event_id id then retry m timed_out_too_often [] else ok (proceed m [])
handle m self _ = ok (proceed m [])

-- The packet for a source and a destination.
unfoldable pub packet_for : Position → Position → Result MoveError Request
packet_for source destination =
    if same_kind source.kind inventory && same_kind destination.kind inventory
    then ok (within_inventory source.slot_num destination.slot_num 1)
    else if same_kind source.kind inventory && same_kind destination.kind avatar_inventory
    then ok (inventory_to_avatar source.slot_num destination.slot_num)
    else if same_kind source.kind avatar_inventory && same_kind destination.kind inventory
    then ok (avatar_to_inventory source.slot_num destination.slot_num)
    else err unhandled_storages

abbrev checked_slot : Option Item → Result MoveError (Unit {0})
checked_slot none = err item_is_null
checked_slot (some item) = or_throw (is_equipment item) not_an_equipment

-- The item is looked up in the inventory, whatever storage the source is in.
unfoldable pub check_item : ItemList → ℕ → Result MoveError (Unit {0})
unfolding get_item
check_item items slot = elim (get_item items slot) [
  | err e ↦ err slot_out_of_bounds
  | ok found ↦ checked_slot found
]

-- The items in a range of slots, which are looked up for a warning.
unfoldable pub look_up_slots : ℕ → ItemList → ℕ → Result MoveError (Unit {0})
unfolding get_item
look_up_slots zero items slot = ok tt
look_up_slots (suc rest) items slot = elim (get_item items slot) [
  | err e ↦ err slot_out_of_bounds
  | ok found ↦ look_up_slots rest items (suc slot)
]

-- The slots from the lower to the higher of two; a slot number has eight bits, and an inventory has
-- fewer slots than 256, so that the loop ends at the latest with an exception.
abbrev look_up_between : ItemList → ℕ → ℕ → Result MoveError (Unit {0})
look_up_between items a b = look_up_slots (max a b + 1 - min a b) items (min a b)

unfoldable pub check_room : ItemList → Position → Position → Result MoveError (Unit {0})
unfolding first_free_slot look_up_slots
check_room items source destination =
    if same_kind source.kind avatar_inventory && same_kind destination.kind inventory
    then elim (first_free_slot items first_inventory_slot) [
      | none ↦ err no_free_slot
      | some slot ↦
          if destination.slot_num == slot
          then ok tt
          else look_up_between items destination.slot_num slot
    ]
    else ok tt

-- One more request, with its timer.
unfoldable pub send : MoveItem → ItemList → ℕ → List Output → Update MoveError MoveItem
unfolding check_item check_room packet_for
send m items fresh outputs = do
  check_item items m.source.slot_num
  check_room items m.source m.destination
  packet ← packet_for m.source m.destination
  ok (
    record m { timeout_event_id = some fresh; attempt_count = m.attempt_count + 1 },
    outputs ++ inject packet ∷ publish 1000 ∷ [],
    not_done,
  )

-- The rest of an update: a request, unless the last one is still out.
unfoldable pub request :
    Option ℕ → MoveItem → ItemList → ℕ → List Output → Update MoveError MoveItem
unfolding send
request (some id) m items fresh outputs = ok (m, outputs, not_done)
request none m items fresh outputs = send m items fresh outputs

-- The first update keeps the user from moving items.
unfoldable pub initialize : MoveItem → MoveItem × List Output
initialize m =
    if m.initialized
    then (m, [])
    else (record m { initialized = true }, push_blocked inventory_operation_request ∷ [])

abbrev pub handle_event : MoveItem → ℕ → Option Event → Result MoveError (Handled MoveItem)
handle_event m self none = ok (proceed m [])
handle_event m self (some event) = handle m self event

unfoldable pub conclude : Handled MoveItem → ItemList → ℕ → List Output → Update MoveError MoveItem
unfolding request
conclude (finish m outputs) items fresh blocked = ok (m, blocked ++ outputs, done)
conclude (proceed m outputs) items fresh blocked =
    request m.timeout_event_id m items fresh (blocked ++ outputs)

-- MoveItem::onUpdate
unfoldable pub on_update : MoveItem → ℕ → ItemList → ℕ → Option Event → Update MoveError MoveItem
unfolding initialize handle conclude
on_update m self items fresh event = do
  handled ← handle_event (initialize m).0 self event
  conclude handled items fresh (initialize m).1
