-- ===== src/Storage/Tests.antt =====
-- Witnesses and tests of the theorems on storages: arrows in stacks of 50.
use hyperbot.Prelude.{
  ℕ, ◌+◌, ◌-◌, ◌≡◌, ◌≢◌, refl, none, some, [], ◌∷◌, min, if◌then◌else◌, ok, arith,
}
use hyperbot.Item.{Item, ItemInfo, expendable, as_expendable, set_quantity, clone_item}
use hyperbot.ItemList.{ItemList, size, slot_at, add_item, get_item}
use hyperbot.ItemList.Search.{holds, has_ref}
use hyperbot.Storage.{move_quantity, iterate}
use hyperbot.Storage.Weight.{total}
use hyperbot.Storage.Moves.{move_quantity_conserves}
use hyperbot.Storage.Stacking.{join_balance}
use hyperbot.Storage.Walk.{occupied_slots, iterate-occupied}

abbrev arrow_info : ItemInfo
arrow_info = record {
  id = 62;
  cash_item = 0;
  bionic = 0;
  type_id1 = 3;
  type_id2 = 3;
  type_id3 = 4;
  type_id4 = 1;
  max_stack = 50;
  item_class = 1;
}

abbrev arrows : ℕ → Item
arrows n = record { ref_item_id = 62; item_info = some arrow_info; fields = expendable n }

abbrev quiver : ItemList
quiver = some (arrows 30) ∷ some (arrows 40) ∷ none ∷ []

abbrev quiver_split : ItemList
quiver_split = some (arrows 20) ∷ some (arrows 40) ∷ some (arrows 10) ∷ []

abbrev quiver_moved : ItemList
quiver_moved = none ∷ some (arrows 40) ∷ some (arrows 30) ∷ []

zero-ne-two : ◌≢◌ {A = ℕ} 0 2
zero-ne-two = omega arith

zero-ne-one : ◌≢◌ {A = ℕ} 0 1
zero-ne-one = omega arith

move_quantity_conserves_example : total 62 quiver_split ≡ total 62 quiver
unfolding move_quantity as_expendable set_quantity clone_item add_item get_item
move_quantity_conserves_example =
    move_quantity_conserves 62 quiver quiver_split 0 2 10 zero-ne-two refl refl

-- Asked to move 20 arrows onto a stack with room for 10.
join_balance_example :
    (m : ItemList) × (move_quantity quiver 0 1 20 ≡ ok m)
    × (total 62 m + (if holds (has_ref 62) (slot_at quiver 0) then min 30 20 else 0)
        ≡ total 62 quiver + (if holds (has_ref 62) (slot_at quiver 0) then min (50 - 40) 20 else 0))
unfolding as_expendable
join_balance_example =
    join_balance 62 quiver 0 1 20 50 40 30 zero-ne-one (omega arith) (omega arith) refl
      (omega arith) (omega arith)

-- Ten of the arrows are gone: 30 and 40 have become 10 and 50.
arrows_lost : move_quantity quiver 0 1 20 ≡ ok (some (arrows 10) ∷ some (arrows 50) ∷ none ∷ [])
unfolding move_quantity as_expendable set_quantity get_item
arrows_lost = refl

iterate-occupied_example : iterate quiver ≡ occupied_slots 0 quiver
iterate-occupied_example = iterate-occupied quiver (omega arith)

visited : iterate quiver ≡ 0 ∷ 1 ∷ []
unfolding iterate size
visited = refl
