-- ===== src/ItemList/Search.antt =====
-- The searches of a list: which slots they report, and in which order.
use hyperbot.Prelude.{
  ℕ, zero, suc, ◌+◌, ◌-◌, ◌≤◌, ◌<◌, ◌≡◌, refl, inl, inr, Bool, true, false, Option, none, some,
  List, [], ◌∷◌, leb, ◌==◌, if◌then◌else◌, length, drop, ok, err, arith, Result-cases, dec_lt,
}
use native.Mathlib.Numerals.{add-one}
use hyperbot.TypeId.{TypeCategory}
use hyperbot.Item.{Item}
use hyperbot.ItemList.{
  ItemList, Outcome, slot_at, present, scan, ref_slots, first_ref_slot, first_free_from,
  find_items_with_ref_id, find_first_item_with_ref_id, first_free_slot, has_type,
  find_items_with_type_id, one_of, find_items_of_category,
}

abbrev pub mem : ℕ → List ℕ → Bool
mem n [] = false
mem n (k ∷ ks) = if n == k then true else mem n ks

-- The slots in a report rise, from `low` on.
abbrev pub Rises : ℕ → List ℕ → Type 0
Rises low [] = Unit {0}
Rises low (k ∷ ks) = (low ≤ k) × Rises (suc k) ks

abbrev pub first_of_list : List ℕ → Option ℕ
first_of_list [] = none
first_of_list (k ∷ ks) = some k

abbrev pub holds : (Item → Bool) → Option Item → Bool
holds p none = false
holds p (some item) = p item

abbrev pub has_ref : ℕ → Item → Bool
has_ref ref item = item.ref_item_id == ref

slot_at-cons :
    (x : Option Item) (xs : ItemList) (n k : ℕ)
    → n ≤ k
    → slot_at (x ∷ xs) (k - n) ≡ (if n == k then x else slot_at xs (k - (n + 1)))
slot_at-cons x xs n k h = go (k - n) refl
  where
    go : (d : ℕ) → k - n ≡ d → slot_at (x ∷ xs) d ≡ (if n == k then x else slot_at xs (k - (n + 1)))
    go zero e = ground arith
    go (suc d) e = ground arith

ref_slots-mem :
    (ref n : ℕ) (l : ItemList) (k : ℕ)
    → mem k (ref_slots ref n l)
      ≡ (if leb n k then holds (has_ref ref) (slot_at l (k - n)) else false)
unfolding ref_slots
ref_slots-mem ref n [] k = ground arith
ref_slots-mem ref n (none ∷ xs) k =
    ground (arith, ref_slots-mem ref (n + 1) xs k, slot_at-cons none xs n k)
ref_slots-mem ref n (some item ∷ xs) k =
    ground (arith, ref_slots-mem ref (n + 1) xs k, slot_at-cons (some item) xs n k)

Rises-weaken : (m n : ℕ) (ks : List ℕ) → m ≤ n → Rises n ks → Rises m ks
Rises-weaken m n [] h r = tt
Rises-weaken m n (k ∷ ks) h r = (omega arith, r.1)

Rises-if : (b : Bool) (n : ℕ) (ks : List ℕ) → Rises (n + 1) ks → Rises n (if b then n ∷ ks else ks)
Rises-if true n ks r = (omega arith, rw (← add-one n) r)
Rises-if false n ks r = Rises-weaken n (n + 1) ks (omega arith) r

ref_slots-Rises : (ref n : ℕ) (l : ItemList) → Rises n (ref_slots ref n l)
unfolding ref_slots
ref_slots-Rises ref n [] = tt
ref_slots-Rises ref n (none ∷ xs) =
    Rises-weaken n (n + 1) (ref_slots ref (n + 1) xs) (omega arith) (ref_slots-Rises ref (n + 1) xs)
ref_slots-Rises ref n (some item ∷ xs) =
    Rises-if (item.ref_item_id == ref) n (ref_slots ref (n + 1) xs) (ref_slots-Rises ref (n + 1) xs)

first_ref_slot-first :
    (ref n : ℕ) (l : ItemList) → first_ref_slot ref n l ≡ first_of_list (ref_slots ref n l)
unfolding ref_slots first_ref_slot
first_ref_slot-first ref n [] = refl
first_ref_slot-first ref n (none ∷ xs) = first_ref_slot-first ref (n + 1) xs
first_ref_slot-first ref n (some item ∷ xs) = ground (arith, first_ref_slot-first ref (n + 1) xs)

-- The search by reference id reports exactly the slots whose item has that id, in rising order, and
-- the search for the first such item gives the first of them.
pub find_by_ref :
    (l : ItemList) (ref : ℕ)
    → ((k : ℕ) → mem k (find_items_with_ref_id l ref) ≡ holds (has_ref ref) (slot_at l k))
      × Rises 0 (find_items_with_ref_id l ref)
      × (find_first_item_with_ref_id l ref ≡ first_of_list (find_items_with_ref_id l ref))
unfolding find_items_with_ref_id find_first_item_with_ref_id
find_by_ref l ref = (
  λ k. ground (arith, ref_slots-mem ref 0 l k),
  ref_slots-Rises ref 0 l,
  first_ref_slot-first ref 0 l,
)

abbrev pub accepted : Outcome Bool → Bool
accepted (ok b) = b
accepted (err _) = false

abbrev pub accepts : (Item → Outcome Bool) → Option Item → Bool
accepts p none = false
accepts p (some item) = accepted (p item)

scan-mem :
    (p : Item → Outcome Bool) (n : ℕ) (l : ItemList) (ks : List ℕ) (k : ℕ)
    → scan p n l ≡ ok ks
    → mem k ks ≡ (if leb n k then accepts p (slot_at l (k - n)) else false)
unfolding scan
scan-mem p n [] ks k e = ground arith
scan-mem p n (none ∷ xs) ks k e =
    ground (arith, scan-mem p (n + 1) xs ks k e, slot_at-cons none xs n k)
scan-mem p n (some item ∷ xs) ks k e = elim (Result-cases (p item)) [
  | inl (hit, q) ↦ elim (Result-cases (scan p (n + 1) xs)) [
    | inl (later, r) ↦
        ground (arith, q, r, scan-mem p (n + 1) xs later k r, slot_at-cons (some item) xs n k)
    | inr (x, r) ↦ ground (arith, q, r)
  ]
  | inr (x, q) ↦ ground (arith, q)
]

-- A search by type id that meets no item without reference data reports exactly the slots whose
-- item's four type numbers are those of the id.
pub find_by_type :
    (l : ItemList) (t : ℕ) (slots : List ℕ) (k : ℕ)
    → find_items_with_type_id l t ≡ ok slots
    → mem k slots ≡ accepts (has_type t) (slot_at l k)
unfolding find_items_with_type_id
find_by_type l t slots k e = ground (arith, scan-mem (has_type t) 0 l slots k e)

-- The search by categories reports exactly the slots whose item is of one of them, unless an item
-- without reference data ends it with an error.
pub find_by_category :
    (l : ItemList) (cs : List TypeCategory) (slots : List ℕ) (k : ℕ)
    → find_items_of_category l cs ≡ ok slots
    → mem k slots ≡ accepts (one_of cs) (slot_at l k)
unfolding find_items_of_category
find_by_category l cs slots k e = ground (arith, scan-mem (one_of cs) 0 l slots k e)

-- What the search for a free slot may answer: the least free slot from `start` on, if there is one.
pub data FirstFree (l : ItemList) (start : ℕ) : Option ℕ → Type 0 where
  found :
      (n : ℕ)
      → start ≤ n
      → n < length l
      → slot_at l n ≡ none
      → ((k : ℕ) → start ≤ k → k < n → present (slot_at l k) ≡ true)
      → FirstFree l start (some n)
  full :
      ((k : ℕ) → start ≤ k → k < length l → present (slot_at l k) ≡ true) → FirstFree l start none

pub slot_at-drop :
    (s : ℕ) (l : ItemList) (x : Option Item) (xs : ItemList)
    → drop s l ≡ x ∷ xs
    → (slot_at l s ≡ x) × (drop (s + 1) l ≡ xs) × (s < length l)
slot_at-drop zero [] x xs e = cc
slot_at-drop zero (y ∷ l) x xs e = ground arith
slot_at-drop (suc s) [] x xs e = cc
slot_at-drop (suc s) (y ∷ l) x xs e = ground (arith, slot_at-drop s l x xs e)

pub drop-nil : (s : ℕ) (l : ItemList) → drop s l ≡ [] → length l ≤ s
drop-nil zero [] e = omega arith
drop-nil zero (x ∷ l) e = cc
drop-nil (suc s) [] e = omega arith
drop-nil (suc s) (x ∷ l) e = omega (arith, drop-nil s l e)

occupied :
    (s k : ℕ) (l : ItemList) (item : Item)
    → slot_at l s ≡ some item
    → s ≡ k
    → present (slot_at l k) ≡ true
occupied s k l item e same = rw (← same, e)

FirstFree-step :
    (s : ℕ) (l : ItemList) (item : Item)
    → slot_at l s ≡ some item
    → (r : Option ℕ) → FirstFree l (s + 1) r
    → FirstFree l s r
FirstFree-step s l item e r (found n lo hi free before) = found n (omega arith) hi free (λ k a b.
    elim (dec_lt s k) [
      | yes h ↦ before k (omega arith) b
      | no h ↦ occupied s k l item e (omega arith)
    ])
FirstFree-step s l item e r (full before) = full (λ k a b. elim (dec_lt s k) [
  | yes h ↦ before k (omega arith) b
  | no h ↦ occupied s k l item e (omega arith)
])

first_free_from-FirstFree :
    (s : ℕ) (l rest : ItemList) → drop s l ≡ rest → FirstFree l s (first_free_from s rest)
unfolding first_free_from
first_free_from-FirstFree s l [] e = full (λ k lo hi. absurd (omega (arith, drop-nil s l e)))
first_free_from-FirstFree s l (none ∷ xs) e =
    let (here, _, inside) = slot_at-drop s l none xs e in
    found s (omega arith) inside here (λ k lo hi. absurd (omega arith))
first_free_from-FirstFree s l (some item ∷ xs) e =
    let (here, later, inside) = slot_at-drop s l (some item) xs e in
    FirstFree-step s l item here (first_free_from (s + 1) xs)
      (first_free_from-FirstFree (s + 1) l xs later)

-- A free slot is found exactly as described, from any starting slot.
pub first_free_slot-FirstFree :
    (l : ItemList) (start : ℕ) → FirstFree l start (first_free_slot l start)
unfolding first_free_slot
first_free_slot-FirstFree l start = first_free_from-FirstFree start l (drop start l) refl
