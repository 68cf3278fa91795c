-- ===== src/Storage/Weight.antt =====
-- How many of an item a list holds, and how a write to one slot changes that.
use hyperbot.Prelude.{
  ℕ, zero, suc, ◌+◌, ◌<◌, ◌≡◌, ◌≢◌, Option, none, some, [], ◌∷◌, ◌==◌, if◌then◌else◌, length, set,
  length-set, arith, ok,
}
use hyperbot.Item.{Item, get_quantity}
use hyperbot.ItemList.{ItemList, slot_at, swap_items, move_item}
use hyperbot.ItemList.Slots.{slot_at-set}

abbrev pub weight : ℕ → Option Item → ℕ
weight ref none = 0
weight ref (some item) = if item.ref_item_id == ref then get_quantity item else 0

-- The quantity of the items with a reference id: 1 for each item that is not a stack.
pub total : ℕ → ItemList → ℕ
total ref [] = 0
total ref (x ∷ xs) = weight ref x + total ref xs

pub total-set :
    (ref : ℕ) (l : ItemList) (i : ℕ) (v : Option Item)
    → i < length l
    → total ref (set l i v) + weight ref (slot_at l i) ≡ total ref l + weight ref v
unfolding total
total-set ref [] i v h = absurd (omega arith)
total-set ref (x ∷ xs) zero v h = omega arith
total-set ref (x ∷ xs) (suc i) v h = omega (arith, total-set ref xs i v (omega arith))

-- Two slots written one after the other.
pub total-set-set :
    (ref : ℕ) (l : ItemList) (i j : ℕ) (v w : Option Item)
    → i < length l
    → j < length l
    → i ≢ j
    → total ref (set (set l i v) j w) + weight ref (slot_at l i) + weight ref (slot_at l j)
      ≡ total ref l + weight ref v + weight ref w
total-set-set ref l i j v w hi hj ne = omega (arith, total-set ref l i v hi, second)
  where
    unmoved : slot_at (set l i v) j ≡ slot_at l j
    unmoved = ground (arith, slot_at-set l i v j)

    second :
        total ref (set (set l i v) j w) + weight ref (slot_at l j)
        ≡ total ref (set l i v) + weight ref w
    second = rw (← unmoved) (total-set ref (set l i v) j w (omega (arith, length-set l i v)))

pub total-swap_items :
    (ref : ℕ) (l m : ItemList) (src dest : ℕ)
    → src ≢ dest
    → swap_items l src dest ≡ ok m
    → total ref m ≡ total ref l
unfolding swap_items
total-swap_items ref l m src dest ne e =
    ground (arith, total-set-set ref l dest src (slot_at l src) (slot_at l dest))

pub total-move_item :
    (ref : ℕ) (l m : ItemList) (src dest : ℕ)
    → src ≢ dest
    → slot_at l dest ≡ none
    → move_item l src dest ≡ ok m
    → total ref m ≡ total ref l
unfolding move_item
total-move_item ref l m src dest ne free e =
    ground (arith, total-set-set ref l dest src (slot_at l src) none)
