-- ===== src/Item/Classes.antt =====
-- Items by their class: casts, quantities, copies, and the class that type data call for.
use hyperbot.Prelude.{ℕ, ◌≡◌, some, arith}
use hyperbot.Item.{Item, item_type, as_expendable, set_quantity, get_quantity, clone_item}

-- A copy is equal to its original.
pub clone_item-id : (item : Item) → clone_item item ≡ item
unfolding clone_item
clone_item-id item = ground arith

-- A write of the quantity of a stack is read back, keeps the class and the rest of the item, and
-- an item of another class has quantity 1.
pub quantity_laws :
    (item : Item) (p q : ℕ)
    → as_expendable item ≡ some p
    → (as_expendable (set_quantity q item) ≡ some q)
      × (get_quantity (set_quantity q item) ≡ q)
      × (get_quantity item ≡ p)
      × (item_type (set_quantity q item) ≡ item_type item)
      × ((set_quantity q item).item_info ≡ item.item_info)
      × ((set_quantity q item).ref_item_id ≡ item.ref_item_id)
unfolding as_expendable set_quantity get_quantity item_type
quantity_laws item p q h = ground arith
