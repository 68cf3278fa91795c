-- ===== src/ItemList/Tests.antt =====
-- Witnesses and tests of the theorems on lists, at a small bag.
use hyperbot.Prelude.{◌≡◌, refl, none, some, [], ◌∷◌, if◌then◌else◌, ◌==◌, arith}
use hyperbot.Item.{Item, expendable}
use hyperbot.ItemList.{
  ItemList, slot_at, move_item, resize, first_free_slot, find_items_with_ref_id,
}
use hyperbot.ItemList.Slots.{move_item_slots, Reach, here, next, resizes}

abbrev potion : Item
potion = record { ref_item_id = 5; item_info = none; fields = expendable 20 }

abbrev bag : ItemList
bag = some potion ∷ none ∷ some potion ∷ []

abbrev bag_filled : ItemList
bag_filled = some potion ∷ some potion ∷ some potion ∷ []

move_item_slots_example :
    slot_at (none ∷ some potion ∷ some potion ∷ []) 1
    ≡ (if ◌==◌ 0 1 then none else if ◌==◌ 1 1 then slot_at bag 0 else slot_at bag 1)
unfolding move_item
move_item_slots_example = move_item_slots bag (none ∷ some potion ∷ some potion ∷ []) 0 1 1 refl

two_slots : Reach [] (none ∷ none ∷ [])
unfolding resize
two_slots = next here (resizes [] (none ∷ none ∷ []) 2 (omega arith) refl)

free_slot : first_free_slot bag 0 ≡ some 1
unfolding first_free_slot
free_slot = refl

both_slots : find_items_with_ref_id bag 5 ≡ 0 ∷ 2 ∷ []
unfolding find_items_with_ref_id
both_slots = refl
