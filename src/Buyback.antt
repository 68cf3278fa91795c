-- ===== src/Buyback.antt =====
-- bot/src/storage/buybackQueue.cpp: the last five sold items, oldest first, in a fixed array. A slot
-- is null where no item stands.
pub mod Queue
mod Tests
use hyperbot.Prelude.{
  ℕ, zero, suc, ◌+◌, ◌-◌, ◌^◌, ◌%◌, Bool, Option, none, some, List, [], ◌∷◌, ltb, leb, ◌==◌,
  if◌then◌else◌, length, set, replicate, Result, ok, err, ◌>>=◌, ◌>>◌, throw_if,
}
use hyperbot.TypeId.{u8}
use hyperbot.Item.{Item}
use hyperbot.ItemList.{ItemList, slot_at, present}

abbrev pub capacity : ℕ
capacity = 5

-- `size_` and `items_`.
pub record BuybackQueue : Type 0 where
  pub count : ℕ
  pub items : ItemList

abbrev pub new_queue : BuybackQueue
new_queue = record { count = 0; items = replicate capacity none }

pub data QueueError : Type 0 where
  beyond_bounds beyond_size : QueueError

unfoldable pub check_bounds : BuybackQueue → ℕ → Result QueueError (Unit {0})
check_bounds q slot = throw_if (leb (length q.items) slot) beyond_bounds

unfoldable pub has_item : BuybackQueue → ℕ → Result QueueError Bool
unfolding check_bounds
has_item q slot = do check_bounds q slot; ok (present (slot_at q.items slot))

unfoldable pub get_item : BuybackQueue → ℕ → Result QueueError (Option Item)
unfolding check_bounds
get_item q slot = do
  check_bounds q slot
  throw_if (leb q.count slot) beyond_size
  ok (slot_at q.items slot)

-- The loop of destroyItem: every later item moves one slot down. The fuel is the number of slots.
unfoldable pub shift_down : ℕ → ℕ → ℕ → ItemList → ItemList
shift_down zero size slot items = items
shift_down (suc fuel) size slot items =
    let rest = shift_down fuel size (slot + 1) (set items (slot - 1) (slot_at items slot)) in
    if ltb slot size then rest else items

-- destroyItem: `--size_` is done on eight bits.
unfoldable pub destroy_item : BuybackQueue → ℕ → BuybackQueue
unfolding shift_down
destroy_item q slot =
    let left = u8 (q.count + 2 ^ 8 - 1) in
    record {
      count = left;
      items = set (shift_down (length q.items) q.count (slot + 1) q.items) left none;
    }

unfoldable pub add_item : BuybackQueue → Item → BuybackQueue
unfolding destroy_item
add_item q item =
    let room = if q.count == length q.items then destroy_item q 0 else q in
    record { count = u8 (room.count + 1); items = set room.items room.count (some item) }

unfoldable pub withdraw_item : BuybackQueue → ℕ → Result QueueError (Option Item × BuybackQueue)
unfolding destroy_item check_bounds
withdraw_item q slot = do
  check_bounds q slot
  throw_if (leb q.count slot) beyond_size
  ok (slot_at q.items slot, destroy_item q slot)
