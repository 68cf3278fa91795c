-- ===== src/StateMachine/EquipItem.antt =====
-- bot/src/state/machine/equipItem.cpp: puts an avatar hat on, by a machine of its own that moves it.
-- The opcodes that the child blocked are given back when it is destroyed (`release`).
pub mod Delegating
mod Tests
use hyperbot.Prelude.{
  ℕ, Bool, true, false, Option, none, some, List, [], ◌∷◌, ◌++◌, Result, ok, err, ◌>>=◌, ◌>>◌,
  or_throw,
}
use hyperbot.TypeId.{TypeCategory}
use hyperbot.TypeId.Categories.{k_avatar_hat}
use hyperbot.Item.{Item, is_one_of}
use hyperbot.ItemList.{ItemList, get_item, find_first_item_with_ref_id}
use hyperbot.StateMachine.{Status, done, not_done, Position, inventory, avatar_inventory}
use hyperbot.StateMachine.Tasks.{Event, Output, send_active_state_machine, Update, is_equipment}
use hyperbot.StateMachine.MoveItem
use hyperbot.StateMachine.MoveItem.{MoveError, move_task}

pub data EquipError : Type 0 where
  no_such_item not_an_equipment not_an_avatar_hat no_item_data : EquipError
  move_error : MoveError → EquipError

pub record EquipItem : Type 0 where
  pub item_ref_id : ℕ
  pub child_state : Option MoveItem.MoveItem

unfoldable pub equip_task : ℕ → EquipItem
equip_task ref = record { item_ref_id = ref; child_state = none }

-- sro::game_constants::kAvatarHatSlot
abbrev pub avatar_hat_slot : ℕ
avatar_hat_slot = 1

abbrev pub hat_check : Item → Result EquipError (Unit {0})
hat_check item = elim (is_one_of item (k_avatar_hat ∷ [])) [
  | err e ↦ err no_item_data
  | ok true ↦ ok tt
  | ok false ↦ err not_an_avatar_hat
]

abbrev pub equipment_check : Option Item → Result EquipError (Unit {0})
equipment_check none = err not_an_equipment
equipment_check (some item) = or_throw (is_equipment item) not_an_equipment >> hat_check item

abbrev pub equipment_at : ItemList → ℕ → Result EquipError (Unit {0})
equipment_at items slot = elim (get_item items slot) [
  | err e ↦ err no_such_item
  | ok found ↦ equipment_check found
]

-- The slot of the hat.
unfoldable pub find_hat : ItemList → ℕ → Result EquipError ℕ
unfolding get_item find_first_item_with_ref_id is_one_of
find_hat items ref = do
  slot ← or_throw (find_first_item_with_ref_id items ref) no_such_item
  equipment_at items slot
  ok slot

-- The machine that moves it.
unfoldable pub move_hat : ℕ → MoveItem.MoveItem
unfolding move_task
move_hat slot =
    move_task (record { kind = inventory; slot_num = slot })
      (record { kind = avatar_inventory; slot_num = avatar_hat_slot })

unfoldable pub child_updated :
    EquipItem → List Output → Update MoveError MoveItem.MoveItem → Update EquipError EquipItem
child_updated m before (err e) = err (move_error e)
child_updated m before (ok (child, outputs, not_done)) =
    ok (record m { child_state = some child }, before ++ outputs, not_done)
child_updated m before (ok (child, outputs, done)) =
    ok (record m { child_state = none }, before ++ outputs ++ send_active_state_machine ∷ [], done)

-- EquipItem::onUpdate; setChildStateMachine tells the user interface too.
unfoldable pub on_update : EquipItem → ℕ → ItemList → ℕ → Option Event → Update EquipError EquipItem
unfolding find_hat move_hat child_updated MoveItem.on_update
on_update m self items fresh event = elim m.child_state [
  | some child ↦ child_updated m [] (MoveItem.on_update child self items fresh event)
  | none ↦ find_hat items m.item_ref_id >>= λ slot.
      child_updated m (send_active_state_machine ∷ [])
        (MoveItem.on_update (move_hat slot) self items fresh event)
]
