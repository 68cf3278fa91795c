-- ===== src/StateMachine/BuyingItems/Bought.antt =====
-- What one update takes off the list is what stands in the slot of its event.
use hyperbot.Prelude.{
  ℕ, ◌+◌, ◌-◌, ◌≡◌, refl, ap, inl, inr, Bool, true, false, ◌&&◌, Option, none, some, List, [], ◌∷◌,
  ◌==◌, ltb, if◌then◌else◌, Bool-cases, ok, err, ◌>>=◌, ◌>>◌, throw_if, or_throw, OnSuccess,
  OnSuccess->>=, arith,
}
use hyperbot.Prelude.Map.{lookup}
use hyperbot.Item.{Item}
use hyperbot.ItemList.{ItemList, Outcome, get_item}
use hyperbot.StateMachine.{Status, done, not_done, Position, inventory, same_kind}
use hyperbot.StateMachine.Tasks.{Event, item_moved, Request, Output, unblock, spoof_item}
use hyperbot.StateMachine.MoveItem.Attempts.{Any, any}
use hyperbot.StateMachine.BuyingItems.Remaining.{remaining, remaining-take_off}
use hyperbot.StateMachine.BuyingItems.{
  BuyingItems, slot_out_of_bounds, nothing_here, not_on_list, bought_too_much, PurchaseRequest,
  ShoppingList, inventory_operation_response, count_of, take_off, item_bought, stacking_of,
  with_stacking, try_stacking, from_inventory, item_landed, handle_purchase, buy_next, on_update,
}

-- How many items stand in a slot, and in the slot to which an event brings an item of ours that does
-- not come from the inventory itself.
abbrev pub count_in : Outcome (Option Item) → ℕ
count_in (err e) = 0
count_in (ok none) = 0
count_in (ok (some item)) = count_of item

abbrev pub standing : ℕ → ItemList → Option Event → ℕ
standing self items (some (item_moved id source (some d))) =
    if id == self && same_kind d.kind inventory
    then (if from_inventory source then 0 else count_in (get_item items d.slot_num))
    else 0
standing self items _ = 0

-- An update's list and what it has bought make up the list before.
abbrev Bought : ℕ → ℕ → BuyingItems × List Output → Type 0
Bought total count (m, outputs) = remaining m.items_to_buy + count ≡ total

spent :
    (left count wanted total : ℕ)
    → ltb wanted count ≡ false
    → left + wanted ≡ total + (wanted - count)
    → left + count ≡ total
spent left count wanted total enough e = ground (arith, enough, e)

on_list :
    (m : BuyingItems) (item : Item) (slot : ℕ) (w : Option PurchaseRequest)
    → lookup item.ref_item_id m.items_to_buy ≡ w
    → OnSuccess (Bought (remaining m.items_to_buy) (count_of item)) (do
      wanted ← or_throw w not_on_list
      throw_if (ltb wanted.quantity (count_of item)) bought_too_much
      ok (
        record m {
          items_to_buy =
              take_off m.items_to_buy item.ref_item_id wanted (wanted.quantity - count_of item);
          waiting_on_buy_response = false;
        },
        unblock inventory_operation_response ∷ spoof_item slot ∷ [],
      ))
on_list m item slot none e = tt
on_list m item slot (some wanted) e = elim (Bool-cases (ltb wanted.quantity (count_of item))) [
  | inl more ↦ rw (more) tt
  | inr enough ↦ rw (enough) (
      spent
        (remaining
          (take_off m.items_to_buy item.ref_item_id wanted (wanted.quantity - count_of item)))
        (count_of item) wanted.quantity (remaining m.items_to_buy) enough
        (remaining-take_off m.items_to_buy item.ref_item_id (wanted.quantity - count_of item) wanted
          e))
]

item_bought-Bought :
    (m : BuyingItems) (items : ItemList) (slot : ℕ)
    → OnSuccess
        (Bought (remaining m.items_to_buy) (count_in (get_item items slot)))
        (item_bought m items slot)
unfolding item_bought
item_bought-Bought m items slot = found_there (get_item items slot)
  where
    found_there :
        (found : Outcome (Option Item))
        → OnSuccess (Bought (remaining m.items_to_buy) (count_in found)) (
            elim found [ err e ↦ err slot_out_of_bounds | ok there ↦ or_throw there nothing_here ]
            >>= λ item. or_throw (lookup item.ref_item_id m.items_to_buy) not_on_list >>= λ wanted.
                throw_if (ltb wanted.quantity (count_of item)) bought_too_much
                >> ok (
                  record m {
                    items_to_buy =
                        take_off m.items_to_buy item.ref_item_id wanted
                          (wanted.quantity - count_of item);
                    waiting_on_buy_response = false;
                  },
                  unblock inventory_operation_response ∷ spoof_item slot ∷ [],
                ))
    found_there (err e) = tt
    found_there (ok none) = tt
    found_there (ok (some item)) = on_list m item slot (lookup item.ref_item_id m.items_to_buy) refl

-- Stacking leaves the list alone.
with_stacking-Bought :
    (total count : ℕ) (r : BuyingItems × List Output) (request : Option Request)
    → Bought total count r
    → Bought total count (with_stacking r request)
with_stacking-Bought total count (m, outputs) none h = h
with_stacking-Bought total count (m, outputs) (some request) h = h

try_stacking-Bought :
    (total count : ℕ) (items : ItemList) (slot : ℕ) (r : BuyingItems × List Output)
    → Bought total count r
    → OnSuccess (Bought total count) (try_stacking items slot r)
unfolding try_stacking
try_stacking-Bought total count items slot r h = found_there (get_item items slot)
  where
    found_there :
        (found : Outcome (Option Item))
        → OnSuccess (Bought total count) (elim found [
          | err e ↦ err slot_out_of_bounds
          | ok there ↦ stacking_of items there >>= λ request. ok (with_stacking r request)
        ])
    found_there (err e) = tt
    found_there (ok there) =
        OnSuccess->>= Any (Bought total count) (stacking_of items there) _ (any _)
          λ request _. with_stacking-Bought total count r request h

landed_from :
    (b : Bool) (m : BuyingItems) (items : ItemList) (slot : ℕ)
    → OnSuccess
        (Bought (remaining m.items_to_buy) (if b then 0 else count_in (get_item items slot)))
        (if b
          then ok (record m { waiting_on_item_movement_response = false }, [])
          else item_bought m items slot)
landed_from true m items slot = omega arith
landed_from false m items slot = item_bought-Bought m items slot

item_landed-Bought :
    (m : BuyingItems) (items : ItemList) (source : Option Position) (slot : ℕ)
    → OnSuccess
        (Bought
          (remaining m.items_to_buy)
          (if from_inventory source then 0 else count_in (get_item items slot)))
        (item_landed m items source slot)
unfolding item_landed
item_landed-Bought m items source slot =
    let count = if from_inventory source then 0 else count_in (get_item items slot) in
    let total = remaining m.items_to_buy in
    OnSuccess->>= (Bought total count) (Bought total count) _ _
      (landed_from (from_inventory source) m items slot)
      λ r h. try_stacking-Bought total count items slot r h

landed_if :
    (b : Bool) (m : BuyingItems) (items : ItemList) (source : Option Position) (slot : ℕ)
    → OnSuccess
        (Bought
          (remaining m.items_to_buy)
          (if b then (if from_inventory source then 0 else count_in (get_item items slot)) else 0))
        (if b then item_landed m items source slot else ok (m, []))
landed_if true m items source slot = item_landed-Bought m items source slot
landed_if false m items source slot = omega arith

handle_purchase-Bought :
    (m : BuyingItems) (self : ℕ) (items : ItemList) (event : Option Event)
    → OnSuccess
        (Bought (remaining m.items_to_buy) (standing self items event))
        (handle_purchase m self items event)
handle_purchase-Bought m self items (some (item_moved id source (some d))) =
    landed_if (id == self && same_kind d.kind inventory) m items source d.slot_num
handle_purchase-Bought m self items _ = omega arith

-- A task that is done has nothing left to buy.
abbrev Finished : Status → ShoppingList → Type 0
Finished done list = remaining list ≡ 0
Finished not_done list = Unit

abbrev pub Spent : ℕ → ℕ → BuyingItems × List Output × Status → Type 0
Spent total count (m, outputs, status) =
    (remaining m.items_to_buy + count ≡ total) × Finished status m.items_to_buy

buy_next-Spent :
    (total count : ℕ) (list : ShoppingList) (m : BuyingItems) (talking : Option ℕ)
    (outputs : List Output)
    → m.items_to_buy ≡ list
    → remaining m.items_to_buy + count ≡ total
    → OnSuccess (Spent total count) (buy_next list m talking outputs)
unfolding buy_next
buy_next-Spent total count [] m talking outputs e h = (h, ap remaining e)
buy_next-Spent total count (entry ∷ rest) m none outputs e h = tt
buy_next-Spent total count (entry ∷ rest) m (some npc) outputs e h = (h, tt)

unless_waiting :
    (moving buying : Bool) (total count : ℕ) (m : BuyingItems) (talking : Option ℕ)
    (outputs : List Output)
    → remaining m.items_to_buy + count ≡ total
    → OnSuccess (Spent total count) (
        if moving
        then ok (m, outputs, not_done)
        else if buying
        then ok (m, outputs, not_done)
        else buy_next m.items_to_buy m talking outputs)
unless_waiting true buying total count m talking outputs h = (h, tt)
unless_waiting false true total count m talking outputs h = (h, tt)
unless_waiting false false total count m talking outputs h =
    buy_next-Spent total count m.items_to_buy m talking outputs refl h

pub on_update-Spent :
    (m : BuyingItems) (self : ℕ) (items : ItemList) (talking : Option ℕ) (event : Option Event)
    → OnSuccess
        (Spent (remaining m.items_to_buy) (standing self items event))
        (on_update m self items talking event)
unfolding on_update
on_update-Spent m self items talking event =
    let total = remaining m.items_to_buy in
    let count = standing self items event in
    OnSuccess->>= (Bought total count) (Spent total count) (handle_purchase m self items event) _
      (handle_purchase-Bought m self items event)
      λ (m', outputs) h.
        unless_waiting m'.waiting_on_item_movement_response m'.waiting_on_buy_response total count
          m' talking outputs h
