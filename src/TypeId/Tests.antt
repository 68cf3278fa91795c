-- ===== src/TypeId/Tests.antt =====
-- Witnesses and tests of the type id theorems, at type ids that the game uses.
use hyperbot.Prelude.{ℕ, ◌≡◌, ◌≢◌, refl, ◌↔◌, true, arith}
use hyperbot.TypeId.{TypeCategory, split_type_id, top_category, sub_category, contains_id, contains}
use hyperbot.TypeId.Category.{
  level1, level2, level3, level4, sub_category-IsCategory, top_category-IsCategory, IsCategory,
  top_category_contains,
}
use hyperbot.TypeId.Categories.{k_recovery_potion, k_hp_potion}
use hyperbot.TypeId.Inclusion.{contains_iff_subset}

-- The health potion: 3, 3, 1, 1.
abbrev hp_potion : ℕ
hp_potion = 2284

abbrev k_item : TypeCategory
k_item = record { type_id_data = 12; type_id_mask = 28 }

abbrev k_expendable : TypeCategory
k_expendable = record { type_id_data = 108; type_id_mask = 124 }

k_item-IsCategory : IsCategory level1 k_item
k_item-IsCategory = record { at = refl; fits = omega arith }

k_expendable-IsCategory : IsCategory level2 k_expendable
k_expendable-IsCategory = record { at = refl; fits = omega arith }

split_hp_potion : split_type_id hp_potion ≡ (3, 3, 1, 1)
unfolding split_type_id
split_hp_potion = refl

k_expendable-sub : sub_category (top_category 3) 3 ≡ k_expendable
unfolding sub_category top_category
k_expendable-sub = refl

top_category_contains_example :
    (contains_id (top_category 3) hp_potion ≡ true) ↔ ((split_type_id hp_potion).0 ≡ 3)
top_category_contains_example = top_category_contains 3 hp_potion (omega arith)

level1-ne-level4 : level1 ≢ level4
level1-ne-level4 e = cc

contains_iff_subset_example :
    (contains k_item k_expendable ≡ true)
    ↔ ((t : ℕ) → contains_id k_expendable t ≡ true → contains_id k_item t ≡ true)
contains_iff_subset_example =
    contains_iff_subset level1 level2 k_item k_expendable k_item-IsCategory k_expendable-IsCategory

level3-ne-level4 : level3 ≢ level4
level3-ne-level4 e = ground arith

level2-ne-level4 : level2 ≢ level4
level2-ne-level4 e = ground arith

k_recovery_potion-IsCategory : IsCategory level3 k_recovery_potion
k_recovery_potion-IsCategory =
    sub_category-IsCategory (sub_category (top_category 3) 3) 1 level2 level2-ne-level4 (
      sub_category-IsCategory (top_category 3) 3 level1 level1-ne-level4
        (top_category-IsCategory 3))

hp_potions_hold : contains_id k_hp_potion hp_potion ≡ true
unfolding contains_id sub_category top_category
hp_potions_hold = refl
