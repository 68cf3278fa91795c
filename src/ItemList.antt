-- ===== src/ItemList.antt =====
-- bot/src/storage/itemList.cpp: the slots of a storage. A slot is a shared pointer that may be null;
-- each item stands in one slot only, so a list of optional items is the whole state.
-- Slots are uint8_t; the loops over slots count in ℕ, without a wrap.
pub mod Slots
pub mod Search
mod Tests
use hyperbot.Prelude.{
  ℕ, zero, suc, ◌+◌, ◌-◌, ◌%◌, ◌^◌, Bool, true, false, ◌&&◌, Option, none, some, List, [], ◌∷◌,
  ◌++◌, ltb, leb, ◌==◌, if◌then◌else◌, length, get_elem?, set, drop, replicate, Result, ok, err,
  ◌>>=◌, ◌>>◌, throw_if,
}
use hyperbot.TypeId.{TypeCategory, split_type_id, u8}
use hyperbot.Item.{Item, ItemInfo, is_one_of, ItemError, no_item_data}

pub data ListError : Type 0 where
  out_of_bounds item_exists no_item shrinking no_reference_data : ListError

abbrev pub ItemList : Type 0
ItemList = List (Option Item)

abbrev pub Outcome : Type 0 → Type 0
Outcome = Result ListError

abbrev pub present : Option Item → Bool
present none = false
present (some _) = true

unfoldable pub bounds_check : ItemList → ℕ → Outcome (Unit {0})
bounds_check l slot = throw_if (leb (length l) slot) out_of_bounds

-- `items_[slot]`, behind a bounds check.
abbrev pub slot_at : ItemList → ℕ → Option Item
slot_at [] i = none
slot_at (x ∷ xs) zero = x
slot_at (x ∷ xs) (suc i) = slot_at xs i

unfoldable pub has_item : ItemList → ℕ → Outcome Bool
unfolding bounds_check
has_item l slot = do bounds_check l slot; ok (present (slot_at l slot))

unfoldable pub get_item : ItemList → ℕ → Outcome (Option Item)
unfolding bounds_check
get_item l slot = do bounds_check l slot; ok (slot_at l slot)

unfoldable pub size : ItemList → ℕ
size l = u8 (length l)

unfoldable pub add_item : ItemList → ℕ → Option Item → Outcome ItemList
unfolding has_item
add_item l slot item = do
  bounds_check l slot
  taken ← has_item l slot
  throw_if taken item_exists
  ok (set l slot item)

unfoldable pub withdraw_item : ItemList → ℕ → Outcome (Option Item × ItemList)
unfolding has_item
withdraw_item l slot = do
  bounds_check l slot
  taken ← has_item l slot
  if taken then ok (slot_at l slot, set l slot none) else err no_item

unfoldable pub move_item : ItemList → ℕ → ℕ → Outcome ItemList
unfolding bounds_check
move_item l src dest = do
  bounds_check l src
  bounds_check l dest
  ok (set (set l dest (slot_at l src)) src none)

unfoldable pub swap_items : ItemList → ℕ → ℕ → Outcome ItemList
unfolding bounds_check
swap_items l src dest = do
  bounds_check l src
  bounds_check l dest
  ok (set (set l dest (slot_at l src)) src (slot_at l dest))

unfoldable pub delete_item : ItemList → ℕ → Outcome ItemList
unfolding bounds_check
delete_item l slot = do bounds_check l slot; ok (set l slot none)

unfoldable pub resize : ItemList → ℕ → Outcome ItemList
resize l new_size =
    if ltb new_size (length l)
    then err shrinking
    else if ltb (length l) new_size
    then ok (l ++ replicate (new_size - length l) none)
    else ok l

unfoldable pub clear : ItemList → ItemList
clear l = []

-- The loop of the searches from slot `n` on: the slots whose item passes the test, which may throw.
pub scan : (Item → Outcome Bool) → ℕ → ItemList → Outcome (List ℕ)
scan p n [] = ok []
scan p n (none ∷ xs) = scan p (n + 1) xs
scan p n (some item ∷ xs) =
    let rest = scan p (n + 1) xs in
    p item >>= λ hit. rest >>= λ slots. ok (if hit then n ∷ slots else slots)

abbrev pub one_of : List TypeCategory → Item → Outcome Bool
one_of cs item = elim (is_one_of item cs) [ ok b ↦ ok b | err e ↦ err no_reference_data ]

unfoldable pub find_items_of_category : ItemList → List TypeCategory → Outcome (List ℕ)
unfolding scan
find_items_of_category l cs = scan (one_of cs) 0 l

abbrev pub same_type : ℕ → ItemInfo → Bool
same_type t info =
    let (t1, t2, t3, t4) = split_type_id t in
    info.type_id1 == t1 && (info.type_id2 == t2 && (info.type_id3 == t3 && info.type_id4 == t4))

-- A null `itemInfo` is dereferenced here; the model reports it as an error.
abbrev pub has_type : ℕ → Item → Outcome Bool
has_type t item = elim item.item_info [
  | none ↦ err no_reference_data
  | some info ↦ ok (same_type t info)
]

unfoldable pub find_items_with_type_id : ItemList → ℕ → Outcome (List ℕ)
unfolding scan
find_items_with_type_id l t = scan (has_type t) 0 l

unfoldable pub ref_slots : ℕ → ℕ → ItemList → List ℕ
ref_slots ref n [] = []
ref_slots ref n (none ∷ xs) = ref_slots ref (n + 1) xs
ref_slots ref n (some item ∷ xs) =
    let rest = ref_slots ref (n + 1) xs in if item.ref_item_id == ref then n ∷ rest else rest

unfoldable pub find_items_with_ref_id : ItemList → ℕ → List ℕ
unfolding ref_slots
find_items_with_ref_id l ref = ref_slots ref 0 l

unfoldable pub first_ref_slot : ℕ → ℕ → ItemList → Option ℕ
first_ref_slot ref n [] = none
first_ref_slot ref n (none ∷ xs) = first_ref_slot ref (n + 1) xs
first_ref_slot ref n (some item ∷ xs) =
    let rest = first_ref_slot ref (n + 1) xs in if item.ref_item_id == ref then some n else rest

unfoldable pub find_first_item_with_ref_id : ItemList → ℕ → Option ℕ
unfolding first_ref_slot
find_first_item_with_ref_id l ref = first_ref_slot ref 0 l

unfoldable pub first_free_from : ℕ → ItemList → Option ℕ
first_free_from n [] = none
first_free_from n (none ∷ xs) = some n
first_free_from n (some item ∷ xs) = first_free_from (n + 1) xs

unfoldable pub first_free_slot : ItemList → ℕ → Option ℕ
unfolding first_free_from
first_free_slot l starting_slot = first_free_from starting_slot (drop starting_slot l)
