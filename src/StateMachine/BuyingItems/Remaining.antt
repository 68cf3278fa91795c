-- ===== src/StateMachine/BuyingItems/Remaining.antt =====
-- What a shopping list still asks for.
use hyperbot.Prelude.{
  ℕ, ◌+◌, ◌≡◌, refl, ap, Bool, true, false, Option, none, some, [], ◌∷◌, ◌==◌, if◌then◌else◌, arith,
}
use hyperbot.Prelude.Map.{lookup, insert}
use hyperbot.StateMachine.BuyingItems.{PurchaseRequest, ShoppingList, erase_entry, take_off}

-- How many items are still to be bought.
abbrev pub remaining : ShoppingList → ℕ
remaining [] = 0
remaining ((ref, wanted) ∷ rest) = wanted.quantity + remaining rest

abbrev quantity_or : Option PurchaseRequest → ℕ
quantity_or none = 0
quantity_or (some wanted) = wanted.quantity

-- The entry is the front one or a later one.
erased :
    (b : Bool) (entry : ℕ × PurchaseRequest) (rest : ShoppingList) (k : ℕ)
    (wanted : PurchaseRequest)
    → elim b [ true ↦ some entry.1 | false ↦ lookup k rest ] ≡ some wanted
    → (lookup k rest ≡ some wanted
        → remaining (erase_entry k rest) + wanted.quantity ≡ remaining rest)
    → remaining (if b then rest else entry ∷ erase_entry k rest) + wanted.quantity
      ≡ entry.1.quantity + remaining rest
erased true entry rest k wanted e ih = omega (arith, ap quantity_or e)
erased false entry rest k wanted e ih = omega (arith, ih e)

remaining-erase_entry :
    (list : ShoppingList) (k : ℕ) (wanted : PurchaseRequest)
    → lookup k list ≡ some wanted
    → remaining (erase_entry k list) + wanted.quantity ≡ remaining list
unfolding lookup
remaining-erase_entry [] k wanted e = cc
remaining-erase_entry (entry ∷ rest) k wanted e =
    erased (entry.0 == k) entry rest k wanted e (remaining-erase_entry rest k wanted)

inserted :
    (b : Bool) (entry : ℕ × PurchaseRequest) (rest : ShoppingList) (k : ℕ)
    (wanted new : PurchaseRequest)
    → elim b [ true ↦ some entry.1 | false ↦ lookup k rest ] ≡ some wanted
    → (lookup k rest ≡ some wanted
        → remaining (insert rest k new) + wanted.quantity ≡ remaining rest + new.quantity)
    → remaining (elim b [ true ↦ (k, new) ∷ rest | false ↦ entry ∷ insert rest k new ])
        + wanted.quantity
      ≡ entry.1.quantity + remaining rest + new.quantity
inserted true entry rest k wanted new e ih = omega (arith, ap quantity_or e)
inserted false entry rest k wanted new e ih = omega (arith, ih e)

remaining-insert :
    (list : ShoppingList) (k : ℕ) (wanted new : PurchaseRequest)
    → lookup k list ≡ some wanted
    → remaining (insert list k new) + wanted.quantity ≡ remaining list + new.quantity
unfolding lookup insert
remaining-insert [] k wanted new e = cc
remaining-insert (entry ∷ rest) k wanted new e =
    inserted (entry.0 == k) entry rest k wanted new e (remaining-insert rest k wanted new)

taken :
    (b : Bool) (list : ShoppingList) (k left : ℕ) (wanted : PurchaseRequest)
    → (left == 0) ≡ b
    → lookup k list ≡ some wanted
    → remaining
          (if b then erase_entry k list else insert list k (record wanted { quantity = left }))
        + wanted.quantity
      ≡ remaining list + left
taken true list k left wanted empty e =
    let none_left : left ≡ 0 = ground (arith, empty) in
    omega (arith, none_left, remaining-erase_entry list k wanted e)
taken false list k left wanted some_left e =
    remaining-insert list k wanted (record wanted { quantity = left }) e

pub remaining-take_off :
    (list : ShoppingList) (k left : ℕ) (wanted : PurchaseRequest)
    → lookup k list ≡ some wanted
    → remaining (take_off list k wanted left) + wanted.quantity ≡ remaining list + left
unfolding take_off
remaining-take_off list k left wanted e = taken (left == 0) list k left wanted refl e
