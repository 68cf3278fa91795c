-- ===== src/TypeId/Category.antt =====
-- What a category contains, in terms of the parts of a type id.
use hyperbot.Prelude.{
  ℕ, ◌+◌, ◌*◌, ◌/◌, ◌%◌, ◌^◌, ◌<◌, ◌≡◌, refl, sym, ap, ◌∙◌, ◌≢◌, ◌↔◌, true, arith,
}
use hyperbot.TypeId.Masks.{
  and_mask1, and_mask2, and_mask3, and_mask4, and_low2, and_low3, and_low4, and_low5, or_above,
}
use hyperbot.TypeId.{
  TypeCategory, top_category, sub_category, contains_id, split_type_id, type_id1_mask,
  type_id2_mask, type_id3_mask, type_id4_mask,
}

-- The four levels, with the bits of a type id that a level fixes: those from 2 to `width`.
pub data Level : Type 0 where
  level1 level2 level3 level4 : Level

abbrev pub mask_of : Level → ℕ
mask_of level1 = type_id1_mask
mask_of level2 = type_id2_mask
mask_of level3 = type_id3_mask
mask_of level4 = type_id4_mask

-- A type id without its two flags and cut off above the level: what the category compares.
abbrev pub prefix : Level → ℕ → ℕ
prefix level1 t = t / 4 % 8
prefix level2 t = t / 4 % 32
prefix level3 t = t / 4 % 512
prefix level4 t = t / 4 % 16384

abbrev pub IsAt : Level → TypeCategory → Type 0
IsAt l c = c.type_id_mask ≡ mask_of l

-- `contains` compares prefixes.
pub contains_id-prefix :
    (l : Level) (c : TypeCategory) (t : ℕ)
    → IsAt l c
    → (contains_id c t ≡ true) ↔ (prefix l t ≡ prefix l c.type_id_data)
unfolding contains_id
contains_id-prefix level1 c t h = rw h (ground (arith, and_mask1 t, and_mask1 c.type_id_data))
contains_id-prefix level2 c t h = rw h (ground (arith, and_mask2 t, and_mask2 c.type_id_data))
contains_id-prefix level3 c t h = rw h (ground (arith, and_mask3 t, and_mask3 c.type_id_data))
contains_id-prefix level4 c t h = rw h (ground (arith, and_mask4 t, and_mask4 c.type_id_data))

abbrev pub width : Level → ℕ
width level1 = 5
width level2 = 7
width level3 = 11
width level4 = 16

-- A category at a level: its mask is the level's, and it fixes no bit above.
pub record IsCategory (l : Level) (c : TypeCategory) : Type 0 where
  pub at : IsAt l c
  pub fits : c.type_id_data < 2 ^ width l

abbrev pub next_level : Level → Level
next_level level1 = level2
next_level level2 = level3
next_level _ = level4

-- The part of a type id that the next level adds.
abbrev pub next_part : Level → ℕ → ℕ
next_part level1 t = t / 32 % 4
next_part level2 t = t / 128 % 16
next_part level3 t = t / 2048 % 32
next_part level4 t = 0

abbrev pub part_size : Level → ℕ
part_size level1 = 4
part_size level2 = 16
part_size level3 = 32
part_size level4 = 1

pub top_category-IsCategory : (t : ℕ) → IsCategory level1 (top_category t)
unfolding top_category
top_category-IsCategory t = record { at = refl; fits = omega (arith, and_low3 t) }

-- The first level holds the type ids whose first part is the given number.
pub top_category_contains :
    (n t : ℕ) → n < 8 → (contains_id (top_category n) t ≡ true) ↔ ((split_type_id t).0 ≡ n)
unfolding top_category contains_id split_type_id
top_category_contains n t h =
    ground (arith, and_low3 n, and_low3 (t / 4), and_mask1 t, and_mask1 (n * 4))

-- The arithmetic of one level: a prefix is the shorter prefix and the part between.
prefix_step :
    (l : Level) (t low k : ℕ)
    → l ≢ level4
    → low < 2 ^ width l
    → k < part_size l
    → (prefix (next_level l) t ≡ prefix (next_level l) (k * 2 ^ width l + low))
      ↔ ((prefix l t ≡ prefix l low) × (next_part l t ≡ k))
prefix_step level1 t low k ne h hk = omega arith
prefix_step level2 t low k ne h hk = omega arith
prefix_step level3 t low k ne h hk = omega arith
prefix_step level4 t low k ne h hk = absurd (ne refl)

part-lt : (l : Level) (n : ℕ) → n % part_size l < part_size l
part-lt level1 n = omega arith
part-lt level2 n = omega arith
part-lt level3 n = omega arith
part-lt level4 n = omega arith

module _ (c : TypeCategory) (n : ℕ) where
  sub_category_data :
      (l : Level)
      → l ≢ level4
      → IsCategory l c
      → (sub_category c n).type_id_data ≡ n % part_size l * 2 ^ width l + c.type_id_data
  unfolding sub_category
  sub_category_data level1 ne w = ground (arith, or_above 5 c.type_id_data (n % 4), and_low2 n)
  sub_category_data level2 ne w = ground (arith, or_above 7 c.type_id_data (n % 16), and_low4 n)
  sub_category_data level3 ne w = ground (arith, or_above 11 c.type_id_data (n % 32), and_low5 n)
  sub_category_data level4 ne w = absurd (ne refl)

  sub_category-IsAt :
      (l : Level) → l ≢ level4 → IsCategory l c → IsAt (next_level l) (sub_category c n)
  unfolding sub_category
  sub_category-IsAt level1 ne w = ground arith
  sub_category-IsAt level2 ne w = ground arith
  sub_category-IsAt level3 ne w = ground arith
  sub_category-IsAt level4 ne w = absurd (ne refl)

  -- A subcategory of a well-formed category is well formed, one level down.
  pub sub_category-IsCategory :
      (l : Level) → l ≢ level4 → IsCategory l c → IsCategory (next_level l) (sub_category c n)
  sub_category-IsCategory level1 ne w = record {
    at = sub_category-IsAt level1 ne w;
    fits = omega (arith, sub_category_data level1 ne w);
  }
  sub_category-IsCategory level2 ne w = record {
    at = sub_category-IsAt level2 ne w;
    fits = omega (arith, sub_category_data level2 ne w);
  }
  sub_category-IsCategory level3 ne w = record {
    at = sub_category-IsAt level3 ne w;
    fits = omega (arith, sub_category_data level3 ne w);
  }
  sub_category-IsCategory level4 ne w = absurd (ne refl)

  -- A subcategory holds exactly the type ids of its parent that have the given number as next part.
  pub sub_category_contains :
      (l : Level) (t : ℕ)
      → l ≢ level4
      → IsCategory l c
      → (contains_id (sub_category c n) t ≡ true)
        ↔ ((contains_id c t ≡ true) × (next_part l t ≡ n % part_size l))
  sub_category_contains l t ne w = (
    λ h.
        let parts = step.0 (below.0 h ∙ ap (prefix (next_level l)) written) in
        (above.1 parts.0, parts.1),
    λ h. below.1 (step.1 (above.0 h.0, h.1) ∙ sym (ap (prefix (next_level l)) written)),
  )
    where
      above : (contains_id c t ≡ true) ↔ (prefix l t ≡ prefix l c.type_id_data)
      above = contains_id-prefix l c t w.at

      below :
          (contains_id (sub_category c n) t ≡ true)
          ↔ (prefix (next_level l) t ≡ prefix (next_level l) (sub_category c n).type_id_data)
      below = contains_id-prefix (next_level l) (sub_category c n) t (sub_category-IsAt l ne w)

      written : (sub_category c n).type_id_data ≡ n % part_size l * 2 ^ width l + c.type_id_data
      written = sub_category_data l ne w

      step :
          (prefix (next_level l) t
            ≡ prefix (next_level l) (n % part_size l * 2 ^ width l + c.type_id_data))
          ↔ ((prefix l t ≡ prefix l c.type_id_data) × (next_part l t ≡ n % part_size l))
      step = prefix_step l t c.type_id_data (n % part_size l) ne w.fits (part-lt l n)
