-- ===== src/ItemList/Slots.antt =====
-- What each operation of a list does to each slot, its errors, and its effect on the size.
use hyperbot.Prelude.{
  ℕ, zero, suc, ◌-◌, ◌^◌, ◌≤◌, ◌<◌, ◌≡◌, refl, ◌↔◌, ◌⊎◌, inl, inr, true, false, ltb, dec_lt, Option,
  none, some, [], ◌∷◌, ◌++◌, leb, ◌==◌, if◌then◌else◌, length, set, replicate, length-set,
  length-append, length-replicate, ok, err, arith,
}
use mathlib.Core.List.{append-nil}
use hyperbot.Item.{Item}
use hyperbot.ItemList.{
  ItemList, out_of_bounds, item_exists, no_item, shrinking, slot_at, present, has_item, get_item,
  add_item, withdraw_item, move_item, swap_items, delete_item, resize, size, clear,
}

pub slot_at-set :
    (l : ItemList) (i : ℕ) (v : Option Item) (j : ℕ)
    → i < length l
    → slot_at (set l i v) j ≡ (if i == j then v else slot_at l j)
slot_at-set [] i v j h = absurd (omega arith)
slot_at-set (x ∷ xs) zero v zero h = refl
slot_at-set (x ∷ xs) zero v (suc j) h = ground arith
slot_at-set (x ∷ xs) (suc i) v zero h = ground arith
slot_at-set (x ∷ xs) (suc i) v (suc j) h = ground (arith, slot_at-set xs i v j)

-- Writing back what a slot holds changes nothing.
pub set-slot_at : (l : ItemList) (i : ℕ) → set l i (slot_at l i) ≡ l
set-slot_at [] i = refl
set-slot_at (x ∷ xs) zero = refl
set-slot_at (x ∷ xs) (suc i) = cc (set-slot_at xs i)

pub set-set : (l : ItemList) (i : ℕ) (v w : Option Item) → set (set l i v) i w ≡ set l i w
set-set [] i v w = refl
set-set (x ∷ xs) zero v w = refl
set-set (x ∷ xs) (suc i) v w = cc (set-set xs i v w)

-- Reads fail exactly past the end, and otherwise agree with one another.
pub reads_checked :
    (l : ItemList) (slot : ℕ)
    → (get_item l slot ≡ (if leb (length l) slot then err out_of_bounds else ok (slot_at l slot)))
      × (has_item l slot
          ≡ (if leb (length l) slot then err out_of_bounds else ok (present (slot_at l slot))))
unfolding get_item has_item
reads_checked l slot = ground arith

-- What was added to a slot is withdrawn from it, and the list is again what it was.
pub withdraw_item-add_item :
    (l m : ItemList) (slot : ℕ) (item : Item)
    → add_item l slot (some item) ≡ ok m
    → withdraw_item m slot ≡ ok (some item, l)
unfolding add_item withdraw_item
withdraw_item-add_item l m slot item h = ground (
  arith,
  slot_at-set l slot (some item) slot,
  length-set l slot (some item),
  set-set l slot (some item) none,
  set-slot_at l slot,
)

-- Adding fails on an occupied slot, and withdrawing on an empty one.
pub add_withdraw_errors :
    (l : ItemList) (slot : ℕ) (item : Option Item)
    → slot < length l
    → ((add_item l slot item ≡ err item_exists) ↔ (present (slot_at l slot) ≡ true))
      × ((withdraw_item l slot ≡ err no_item) ↔ (present (slot_at l slot) ≡ false))
unfolding add_item withdraw_item
add_withdraw_errors l slot item h = ground arith

-- A move empties the source and fills the destination; the other slots keep their items.
pub move_item_slots :
    (l m : ItemList) (src dest j : ℕ)
    → move_item l src dest ≡ ok m
    → slot_at m j ≡ (if src == j then none else if dest == j then slot_at l src else slot_at l j)
unfolding move_item
move_item_slots l m src dest j h = ground (
  arith,
  slot_at-set (set l dest (slot_at l src)) src none j,
  slot_at-set l dest (slot_at l src) j,
  length-set l dest (slot_at l src),
)

-- A swap exchanges the two slots.
pub swap_items_slots :
    (l m : ItemList) (src dest j : ℕ)
    → swap_items l src dest ≡ ok m
    → slot_at m j
      ≡ (if src == j then slot_at l dest else if dest == j then slot_at l src else slot_at l j)
unfolding swap_items
swap_items_slots l m src dest j h = ground (
  arith,
  slot_at-set (set l dest (slot_at l src)) src (slot_at l dest) j,
  slot_at-set l dest (slot_at l src) j,
  length-set l dest (slot_at l src),
)

slot_at-append :
    (l ys : ItemList) (j : ℕ)
    → slot_at (l ++ ys) j ≡ (if ltb j (length l) then slot_at l j else slot_at ys (j - length l))
slot_at-append [] ys j = ground arith
slot_at-append (x ∷ xs) ys zero = ground arith
slot_at-append (x ∷ xs) ys (suc j) = ground (arith, slot_at-append xs ys j)

slot_at-replicate : (n j : ℕ) → slot_at (replicate n none) j ≡ none
slot_at-replicate zero j = refl
slot_at-replicate (suc n) zero = refl
slot_at-replicate (suc n) (suc j) = slot_at-replicate n j

pub slot_at-beyond : (l : ItemList) (j : ℕ) → length l ≤ j → slot_at l j ≡ none
slot_at-beyond [] j h = refl
slot_at-beyond (x ∷ xs) zero h = absurd (omega arith)
slot_at-beyond (x ∷ xs) (suc j) h = slot_at-beyond xs j (omega arith)

longer : (l : ItemList) (n : ℕ) → ¬ (n < length l) → length (l ++ replicate (n - length l) none) ≡ n
longer l n h = omega (
  arith,
  length-append l (replicate (n - length l) none),
  length-replicate {A = Option Item} (n - length l) none,
)

replicate-none : (k : ℕ) → k ≡ 0 → replicate {A = Option Item} k none ≡ []
replicate-none zero e = refl
replicate-none (suc k) e = absurd (omega arith)

-- A resize never shrinks: it fails or gives the asked size, with every item in its slot and the new
-- slots empty. With a uint8_t argument the size stays below 256, and `size` reports it unchanged.
pub resize_grows :
    (l : ItemList) (n : ℕ)
    → n < 2 ^ 8
    → ((n < length l) × (resize l n ≡ err shrinking))
      ⊎ ((m : ItemList) × (resize l n ≡ ok m)
          × (length m ≡ n)
          × (size m ≡ n)
          × ((j : ℕ) → slot_at m j ≡ slot_at l j))
unfolding resize size
resize_grows l n small = elim (dec_lt n (length l)) [
  | yes h ↦ inl (h, ground arith)
  | no h ↦ inr (
    l ++ replicate (n - length l) none,
    ground (arith, append-nil l, replicate-none (n - length l)),
    longer l n h,
    omega (arith, longer l n h),
    λ j. ground (
      arith,
      slot_at-append l (replicate (n - length l) none) j,
      slot_at-replicate (n - length l) (j - length l),
      slot_at-beyond l j,
    ),
  )
]

-- One successful operation; a resize is given a uint8_t.
pub data Step : ItemList → ItemList → Type 0 where
  adds : (l m : ItemList) (slot : ℕ) (item : Option Item) → add_item l slot item ≡ ok m → Step l m
  withdraws :
      (l m : ItemList) (slot : ℕ) (item : Option Item)
      → withdraw_item l slot ≡ ok (item, m)
      → Step l m
  moves : (l m : ItemList) (src dest : ℕ) → move_item l src dest ≡ ok m → Step l m
  swaps : (l m : ItemList) (src dest : ℕ) → swap_items l src dest ≡ ok m → Step l m
  deletes : (l m : ItemList) (slot : ℕ) → delete_item l slot ≡ ok m → Step l m
  resizes : (l m : ItemList) (n : ℕ) → n < 2 ^ 8 → resize l n ≡ ok m → Step l m
  clears : (l : ItemList) → Step l (clear l)

pub data Reach (l : ItemList) : ItemList → Type 0 where
  here : Reach l l
  next : {m k : ItemList} → Reach l m → Step m k → Reach l k

Step-size : {l m : ItemList} → Step l m → length l < 2 ^ 8 → length m < 2 ^ 8
unfolding add_item withdraw_item move_item swap_items delete_item resize clear
Step-size (adds l m slot item e) h = ground (arith, length-set l slot item)
Step-size (withdraws l m slot item e) h = ground (arith, length-set l slot none)
Step-size (moves l m src dest e) h =
    ground
      (arith, length-set l dest (slot_at l src), length-set (set l dest (slot_at l src)) src none)
Step-size (swaps l m src dest e) h = ground (
  arith,
  length-set l dest (slot_at l src),
  length-set (set l dest (slot_at l src)) src (slot_at l dest),
)
Step-size (deletes l m slot e) h = ground (arith, length-set l slot none)
Step-size (resizes l m n small e) h = ground (
  arith,
  length-append l (replicate (n - length l) none),
  length-replicate {A = Option Item} (n - length l) none,
)
Step-size (clears l) h = omega arith

-- From an empty list no sequence of operations makes a list of 256 slots: `size`, which is cut to
-- eight bits, is the true size, and a uint8_t loop over the slots ends.
pub reachable_size : (m : ItemList) → Reach [] m → (length m < 2 ^ 8) × (size m ≡ length m)
unfolding size
reachable_size m r = let bound = go r in (bound, omega arith)
  where
    go : {m : ItemList} → Reach [] m → length m < 2 ^ 8
    go here = omega arith
    go (next r st) = Step-size st (go r)
