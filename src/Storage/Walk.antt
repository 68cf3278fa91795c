-- ===== src/Storage/Walk.antt =====
-- The iterator of storage.hpp visits the occupied slots, each once and in order.
use hyperbot.Prelude.{
  ℕ, zero, suc, ◌+◌, ◌^◌, ◌≤◌, ◌<◌, ◌≡◌, refl, ap, none, some, List, [], ◌∷◌, length, drop,
  length-drop, arith,
}
use hyperbot.ItemList.{ItemList, size}
use hyperbot.ItemList.Search.{slot_at-drop, drop-nil}
use hyperbot.Storage.{advance_to_valid, visit, iterate}

-- The occupied slots of a list whose first slot has number `n`.
abbrev pub occupied_slots : ℕ → ItemList → List ℕ
occupied_slots n [] = []
occupied_slots n (none ∷ xs) = occupied_slots (n + 1) xs
occupied_slots n (some item ∷ xs) = n ∷ occupied_slots (n + 1) xs

abbrev skip : ℕ → ItemList → ℕ
skip n [] = n
skip n (none ∷ xs) = skip (n + 1) xs
skip n (some item ∷ xs) = n

module _ (l : ItemList) (small : length l < 2 ^ 8) where
  advance-skip :
      (fuel i : ℕ) (rest : ItemList)
      → drop i l ≡ rest
      → i ≤ length l
      → length rest ≤ fuel
      → advance_to_valid fuel l i ≡ skip i rest
  unfolding advance_to_valid size
  advance-skip zero i [] e le h = refl
  advance-skip zero i (x ∷ xs) e le h = absurd (omega arith)
  advance-skip (suc fuel) i [] e le h = ground (arith, drop-nil i l e)
  advance-skip (suc fuel) i (none ∷ xs) e le h =
      let (here, later, inside) = slot_at-drop i l none xs e in
      ground (arith, here, inside, advance-skip fuel (i + 1) xs later)
  advance-skip (suc fuel) i (some item ∷ xs) e le h =
      let (here, later, inside) = slot_at-drop i l (some item) xs e in ground (arith, here, inside)

  visit-occupied :
      (rounds i : ℕ) (rest : ItemList)
      → drop i l ≡ rest
      → i ≤ length l
      → length rest < rounds
      → visit rounds l (skip i rest) ≡ occupied_slots i rest
  unfolding visit size
  visit-occupied zero i rest e le h = absurd (omega arith)
  visit-occupied (suc rounds) i [] e le h = ground (arith, drop-nil i l e)
  visit-occupied (suc rounds) i (none ∷ xs) e le h =
      let (here, later, inside) = slot_at-drop i l none xs e in
      visit-occupied (suc rounds) (i + 1) xs later (omega arith) (omega arith)
  visit-occupied (suc rounds) i (some item ∷ xs) e le h =
      let (here, later, inside) = slot_at-drop i l (some item) xs e in
      ground (
        arith,
        inside,
        advance-skip (length l) (i + 1) xs later (omega arith)
            (omega (arith, length-drop (i + 1) l, ap length later)),
        visit-occupied rounds (i + 1) xs later (omega arith) (omega arith),
      )

  -- With at most 255 slots, a loop from begin() to end() ends and visits exactly the occupied slots.
  pub iterate-occupied : iterate l ≡ occupied_slots 0 l
  unfolding iterate
  iterate-occupied =
      rw (advance-skip (length l) 0 l refl (omega arith) (omega arith))
        (visit-occupied (length l + 1) 0 l refl (omega arith) (omega arith))
