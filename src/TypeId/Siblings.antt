-- ===== src/TypeId/Siblings.antt =====
-- Different subcategories of a category share no type id.
use hyperbot.Prelude.{ℕ, ◌%◌, ◌≡◌, ◌≢◌, sym, ◌∙◌, true}
use hyperbot.TypeId.{TypeCategory, sub_category, contains_id}
use hyperbot.TypeId.Category.{Level, level4, IsCategory, part_size, sub_category_contains}

-- A type id in two subcategories of one category, made with the numbers i and j, makes them equal as
-- numbers of the level below.
pub siblings_disjoint :
    (l : Level) (c : TypeCategory) (i j t : ℕ)
    → l ≢ level4
    → IsCategory l c
    → contains_id (sub_category c i) t ≡ true
    → contains_id (sub_category c j) t ≡ true
    → i % part_size l ≡ j % part_size l
siblings_disjoint l c i j t ne w in_i in_j =
    sym ((sub_category_contains c i l t ne w).0 in_i).1
    ∙ ((sub_category_contains c j l t ne w).0 in_j).1
