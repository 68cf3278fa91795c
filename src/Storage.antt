-- ===== src/Storage.antt =====
-- bot/src/storage/storage.cpp: a storage is its list of slots; its own code is the two moves and the
-- walk over the occupied slots (storage.hpp). Its other members pass the call on to the list.
pub mod Weight
pub mod Stacking
pub mod Moves
pub mod Walk
mod Tests
use hyperbot.Prelude.{
  ℕ, zero, suc, ◌+◌, ◌-◌, Bool, true, false, Option, none, some, List, [], ◌∷◌, min, ltb, ◌==◌,
  if◌then◌else◌, length, set, Result, ok, err, ◌>>=◌, ◌>>◌, throw_if, dec_lt,
}
use hyperbot.TypeId.{u8, u16}
use hyperbot.Item.{Item, ItemInfo, as_expendable, set_quantity, clone_item}
use hyperbot.ItemList.{
  ItemList, ListError, out_of_bounds, item_exists, no_item, no_reference_data, Outcome, present,
  slot_at, has_item, get_item, size, add_item, move_item, swap_items, delete_item, resize, clear,
}

-- `destItem->quantity += min(spaceLeftInStack, quantity)`: the sum is done on int, where the space
-- may be negative, and stored in sixteen bits. `q + min (m - q) n` is `min m (q + n)` on integers.
unfoldable pub stacked : ℕ → ℕ → ℕ → ℕ
stacked max_stack dest_quantity quantity = u16 (min max_stack (dest_quantity + quantity))

-- The rest of a stacking once the destination has its items: the source is read through its pointer,
-- so it is the updated object when both slots are one.
unfoldable pub take_from_source : ItemList → ℕ → ℕ → Outcome ItemList
take_from_source l src quantity = elim (slot_at l src) [
  | none ↦ err no_item
  | some item ↦ elim (as_expendable item) [
    | none ↦ err no_item
    | some q ↦
        if ltb quantity q
        then ok (set l src (some (set_quantity (q - quantity) item)))
        else delete_item l src
  ]
]

unfoldable pub stack_items : ItemList → ℕ → ℕ → ℕ → Item → ℕ → Outcome ItemList
unfolding take_from_source stacked
stack_items l src dest quantity dest_item dest_quantity = elim dest_item.item_info [
  | none ↦ err no_reference_data
  | some info ↦
      if info.max_stack == dest_quantity
      then swap_items l src dest
      else take_from_source
          (set l dest
            (some (set_quantity (stacked info.max_stack dest_quantity quantity) dest_item)))
          src quantity
]

-- Moving into an occupied slot.
unfoldable pub move_onto : ItemList → ℕ → ℕ → ℕ → Item → Item → Outcome ItemList
unfolding stack_items
move_onto l src dest quantity src_item dest_item =
    if src_item.ref_item_id == dest_item.ref_item_id
    then elim (as_expendable dest_item) [
      | none ↦ swap_items l src dest
      | some dest_quantity ↦ elim (as_expendable src_item) [
        | none ↦ swap_items l src dest
        | some _ ↦ stack_items l src dest quantity dest_item dest_quantity
      ]
    ]
    else swap_items l src dest

-- Moving into an open slot: a part of a stack is split off as a copy of the item.
unfoldable pub move_into_open : ItemList → ℕ → ℕ → ℕ → Item → Outcome ItemList
move_into_open l src dest quantity src_item = elim (as_expendable src_item) [
  | none ↦ move_item l src dest
  | some q ↦
      if ltb quantity q
      then add_item (set l src (some (set_quantity (q - quantity) src_item))) dest
          (some (set_quantity quantity (clone_item src_item)))
      else move_item l src dest
]

-- moveItem(srcSlot, destSlot, quantity); without a source item it only logs a warning.
unfoldable pub move_quantity : ItemList → ℕ → ℕ → ℕ → Outcome ItemList
unfolding move_onto move_into_open
move_quantity l src dest quantity = do
  source ← get_item l src
  elim source [
    | none ↦ ok l
    | some src_item ↦ do
      target ← get_item l dest
      elim target [
        | none ↦ move_into_open l src dest quantity src_item
        | some dest_item ↦ move_onto l src dest quantity src_item dest_item
      ]
  ]

-- moveItem(srcSlot, destSlot): the whole item into a free slot.
unfoldable pub move_whole : ItemList → ℕ → ℕ → Outcome ItemList
move_whole l src dest = do
  taken ← has_item l dest
  throw_if taken item_exists
  there ← has_item l src
  if there then move_item l src dest else err no_item

-- StorageIterator::advanceToValid from slot `index` on. The fuel is the number of slots left.
unfoldable pub advance_to_valid : ℕ → ItemList → ℕ → ℕ
advance_to_valid zero l index = index
advance_to_valid (suc fuel) l index =
    let later = advance_to_valid fuel l (index + 1) in
    if ltb index (size l) then if present (slot_at l index) then index else later else index

-- The slots that a loop from begin() to end() visits; `rounds` bounds the number of its rounds.
unfoldable pub visit : ℕ → ItemList → ℕ → List ℕ
unfolding advance_to_valid
visit zero l index = []
visit (suc rounds) l index =
    let later = visit rounds l (advance_to_valid (length l) l (index + 1)) in
    if index == size l then [] else index ∷ later

unfoldable pub iterate : ItemList → List ℕ
unfolding visit
iterate l = visit (length l + 1) l (advance_to_valid (length l) l 0)

-- helpers::initializeInventory: the map's entries in the order of their slots.
unfoldable pub add_all : ItemList → List (ℕ × Item) → Outcome ItemList
add_all l [] = ok l
add_all l ((slot, item) ∷ rest) = add_item l slot (some item) >>= λ m. add_all m rest

unfoldable pub initialize_inventory : ItemList → ℕ → List (ℕ × Item) → Outcome ItemList
unfolding add_all
initialize_inventory l inventory_size items = do
  empty ← resize (clear l) inventory_size
  add_all empty items
