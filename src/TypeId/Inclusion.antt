-- ===== src/TypeId/Inclusion.antt =====
-- Inclusion of categories.
use hyperbot.Prelude.{ℕ, ◌+◌, ◌^◌, ◌≤◌, ◌<◌, ◌≡◌, refl, ◌∙◌, ◌↔◌, true, arith, dec_le}
use hyperbot.TypeId.Category.{
  Level, level1, level2, level3, level4, mask_of, prefix, width, IsCategory, contains_id-prefix,
}
use hyperbot.TypeId.{TypeCategory, contains_id, contains}

contains-prefix :
    (l m : Level) (c d : TypeCategory)
    → IsCategory l c
    → IsCategory m d
    → (contains c d ≡ true) ↔ ((mask_of l ≤ mask_of m) × (contains_id c d.type_id_data ≡ true))
unfolding contains
contains-prefix l m c d v w = ground (arith, v.at, w.at)

-- One prefix at the larger level settles the smaller one.
prefix_mono :
    (l m : Level) (s t : ℕ)
    → mask_of l ≤ mask_of m
    → prefix m s ≡ prefix m t
    → prefix l s ≡ prefix l t
prefix_mono level1 level1 s t le e = omega arith
prefix_mono level1 _ s t le e = omega arith
prefix_mono level2 level1 s t le e = omega arith
prefix_mono level2 _ s t le e = omega arith
prefix_mono level3 level1 s t le e = omega arith
prefix_mono level3 _ s t le e = omega arith
prefix_mono level4 level1 s t le e = omega arith
prefix_mono level4 _ s t le e = omega arith

-- At a smaller level there are type ids with the same prefix that a larger level tells apart.
prefix_apart :
    (l m : Level) (low goal : ℕ)
    → mask_of m < mask_of l
    → low < 2 ^ width m
    → prefix l low ≡ goal
    → prefix l (low + 2 ^ width m) ≡ goal
    → ⊥
prefix_apart level1 level1 low goal lt fits e f = omega arith
prefix_apart level1 _ low goal lt fits e f = omega arith
prefix_apart level2 level1 low goal lt fits e f = omega arith
prefix_apart level2 _ low goal lt fits e f = omega arith
prefix_apart level3 level1 low goal lt fits e f = omega arith
prefix_apart level3 _ low goal lt fits e f = omega arith
prefix_apart level4 level1 low goal lt fits e f = omega arith
prefix_apart level4 _ low goal lt fits e f = omega arith

prefix_over : (m : Level) (low : ℕ) → prefix m (low + 2 ^ width m) ≡ prefix m low
prefix_over level1 low = omega arith
prefix_over level2 low = omega arith
prefix_over level3 low = omega arith
prefix_over level4 low = omega arith

-- `contains` between categories is inclusion of the type ids that they hold.
pub contains_iff_subset :
    (l m : Level) (c d : TypeCategory)
    → IsCategory l c
    → IsCategory m d
    → (contains c d ≡ true) ↔ ((t : ℕ) → contains_id d t ≡ true → contains_id c t ≡ true)
contains_iff_subset l m c d v w = (subset, included)
  where
    held_by_c : (t : ℕ) → (contains_id c t ≡ true) ↔ (prefix l t ≡ prefix l c.type_id_data)
    held_by_c t = contains_id-prefix l c t v.at

    held_by_d : (t : ℕ) → (contains_id d t ≡ true) ↔ (prefix m t ≡ prefix m d.type_id_data)
    held_by_d t = contains_id-prefix m d t w.at

    subset : contains c d ≡ true → (t : ℕ) → contains_id d t ≡ true → contains_id c t ≡ true
    subset h t held =
        let (le, self) = (contains-prefix l m c d v w).0 h in
        (held_by_c t).1 (
          prefix_mono l m t d.type_id_data le ((held_by_d t).0 held)
          ∙ (held_by_c d.type_id_data).0 self)

    own : contains_id d d.type_id_data ≡ true
    own = (held_by_d d.type_id_data).1 refl

    included : ((t : ℕ) → contains_id d t ≡ true → contains_id c t ≡ true) → contains c d ≡ true
    included all = elim (dec_le (mask_of l) (mask_of m)) [
      | yes le ↦ (contains-prefix l m c d v w).1 (le, all d.type_id_data own)
      | no gt ↦ absurd (
          prefix_apart l m d.type_id_data (prefix l c.type_id_data) (omega arith) w.fits
            ((held_by_c _).0 (all _ own))
            ((held_by_c _).0 (all _ ((held_by_d _).1 (prefix_over m d.type_id_data)))))
    ]
