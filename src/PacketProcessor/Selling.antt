-- ===== src/PacketProcessor/Selling.antt =====
-- What is sold and bought back at once is where it was.
use hyperbot.Prelude.{
  ℕ, zero, suc, ◌<◌, ◌≡◌, ◌⊎◌, refl, sym, ap, ◌∙◌, inl, inr, true, false, none, some, List, [], ◌∷◌,
  ◌++◌, leb, ◌==◌, length, set, length-set, ok, arith,
}
use hyperbot.Item.{Item, as_expendable}
use hyperbot.ItemList
use hyperbot.ItemList.{ItemList, slot_at, present}
use hyperbot.ItemList.Slots.{slot_at-set}
use hyperbot.Buyback
use hyperbot.Buyback.{BuybackQueue, QueueError, capacity}
use hyperbot.Buyback.Queue.{queue_of}
use hyperbot.StateMachine.{inventory}
use hyperbot.PacketProcessor.{
  SelfState, sell_item, buyback_item, item_moved, at, sell_all, sell_item_at, process_sell,
  buy_back_all, buy_back, process_buyback, process, process_all,
}

-- A queue that is not full, and the item that comes next to it.
add_newest :
    (xs : List Item) (x : Item)
    → length xs < capacity
    → Buyback.add_item (queue_of xs) x ≡ queue_of (xs ++ x ∷ [])
unfolding Buyback.add_item
add_newest [] x h = refl
add_newest (a ∷ []) x h = refl
add_newest (a ∷ b ∷ []) x h = refl
add_newest (a ∷ b ∷ c ∷ []) x h = refl
add_newest (a ∷ b ∷ c ∷ d ∷ []) x h = refl
add_newest (a ∷ b ∷ c ∷ d ∷ e ∷ xs) x h = absurd (omega arith)

abbrev Newest : List Item → Item → Type 0
Newest xs x =
    (Buyback.has_item (queue_of (xs ++ x ∷ [])) (length xs) ≡ ok true)
    × (Buyback.get_item (queue_of (xs ++ x ∷ [])) (length xs) ≡ ok (some x))
    × (Buyback.withdraw_item (queue_of (xs ++ x ∷ [])) (length xs) ≡ ok (some x, queue_of xs))

Newest-back : (xs : List Item) (x : Item) → length xs < capacity → Newest xs x
unfolding Buyback.has_item Buyback.get_item Buyback.withdraw_item
Newest-back [] x h = (refl, refl, refl)
Newest-back (a ∷ []) x h = (refl, refl, refl)
Newest-back (a ∷ b ∷ []) x h = (refl, refl, refl)
Newest-back (a ∷ b ∷ c ∷ []) x h = (refl, refl, refl)
Newest-back (a ∷ b ∷ c ∷ d ∷ []) x h = (refl, refl, refl)
Newest-back (a ∷ b ∷ c ∷ d ∷ e ∷ xs) x h = absurd (omega arith)

-- The slot of an item can be emptied and filled again.
pub withdraw_found :
    (l : ItemList) (src : ℕ) (item : Item)
    → slot_at l src ≡ some item
    → src < length l
    → ItemList.withdraw_item l src ≡ ok (some item, set l src none)
unfolding ItemList.withdraw_item ItemList.has_item ItemList.bounds_check
withdraw_found l src item there inside = ground arith

set_back :
    (l : ItemList) (src : ℕ) (item : Item)
    → slot_at l src ≡ some item
    → set (set l src none) src (some item) ≡ l
set_back [] src item there = refl
set_back (x ∷ xs) zero item there = ground arith
set_back (x ∷ xs) (suc src) item there = ap (◌∷◌ x) (set_back xs src item there)

emptied : (l : ItemList) (src : ℕ) → src < length l → slot_at (set l src none) src ≡ none
emptied l src inside = ground (arith, slot_at-set l src none src)

add_back :
    (l : ItemList) (src : ℕ) (item : Item)
    → slot_at l src ≡ some item
    → src < length l
    → (ItemList.has_item (set l src none) src ≡ ok false)
      × (ItemList.add_item (set l src none) src (some item) ≡ ok l)
unfolding ItemList.add_item ItemList.has_item ItemList.bounds_check
add_back l src item there inside =
    let free = emptied l src inside in
    let in_bounds : leb (length (set l src none)) src ≡ false =
      ground (arith, length-set l src none) in
    (rw (in_bounds, free) refl, rw (in_bounds, free) (ap ok (set_back l src item there)))

-- The item is no stack, or its whole stack is sold.
abbrev pub Whole : Item → ℕ → Type 0
Whole item quantity = (as_expendable item ≡ none) ⊎ (as_expendable item ≡ some quantity)

abbrev with_items : SelfState → ItemList → BuybackQueue → SelfState
with_items s items queue = record s { inventory_items = items; buyback = queue }

sell_all_lem :
    (s : SelfState) (xs : List Item) (src : ℕ) (item : Item)
    → s.buyback ≡ queue_of xs
    → length xs < capacity
    → slot_at s.inventory_items src ≡ some item
    → src < length s.inventory_items
    → sell_all s src
      ≡ ok (with_items s (set s.inventory_items src none) (queue_of (xs ++ item ∷ [])))
unfolding sell_all
sell_all_lem s xs src item queue room there inside =
    rw (withdraw_found s.inventory_items src item there inside) (
      ap (λ q. ok (with_items s (set s.inventory_items src none) q))
        (ap (λ q. Buyback.add_item q item) queue ∙ add_newest xs item room))

pub sells-Whole :
    (s : SelfState) (src quantity : ℕ) (item : Item)
    → Whole item quantity
    → sell_item_at s src quantity item ≡ sell_all s src
unfolding sell_item_at
sells-Whole s src quantity item (inl no_stack) = rw (no_stack, sell_item_at) refl
sells-Whole s src quantity item (inr stack) =
    let all : (quantity == quantity) ≡ true = ground arith in
    rw (stack, sell_item_at) (rw (all) refl)

pub process_sell_lem :
    (s t : SelfState) (src quantity : ℕ) (item : Item)
    → slot_at s.inventory_items src ≡ some item
    → src < length s.inventory_items
    → sell_item_at s src quantity item ≡ ok t
    → process_sell s src quantity ≡ ok (t, item_moved s.global_id (at inventory src) none ∷ [])
unfolding process_sell ItemList.get_item ItemList.bounds_check
process_sell_lem s t src quantity item there inside sold =
    let in_bounds : leb (length s.inventory_items) src ≡ false = ground arith in
    rw (in_bounds, there, sold) refl

buys-Whole :
    (s : SelfState) (src dest quantity : ℕ) (item : Item)
    → Whole item quantity
    → buy_back s src dest quantity (some item) ≡ buy_back_all s src dest
unfolding buy_back
buys-Whole s src dest quantity item (inl no_stack) = ground (arith, no_stack)
buys-Whole s src dest quantity item (inr stack) = ground (arith, stack)

process_buyback_lem :
    (s t : SelfState) (src dest quantity : ℕ) (item : Item)
    → Buyback.has_item s.buyback src ≡ ok true
    → ItemList.has_item s.inventory_items dest ≡ ok false
    → Buyback.get_item s.buyback src ≡ ok (some item)
    → buy_back s src dest quantity (some item) ≡ ok t
    → process_buyback s src dest quantity
      ≡ ok (t, item_moved s.global_id none (at inventory dest) ∷ [])
unfolding process_buyback
process_buyback_lem s t src dest quantity item sold free got bought =
    rw (sold, free, got, bought) refl

buy_back_all_lem :
    (s : SelfState) (l : ItemList) (xs : List Item) (src dest : ℕ) (item : Item)
    → s.buyback ≡ queue_of (xs ++ item ∷ [])
    → Newest xs item
    → src ≡ length xs
    → ItemList.add_item s.inventory_items dest (some item) ≡ ok l
    → buy_back_all s src dest ≡ ok (with_items s l (queue_of xs))
unfolding buy_back_all
buy_back_all_lem s l xs src dest item queue newest last added =
    rw (last, queue, newest.2) (rw (added) refl)

-- An item that is sold whole into a buyback queue with a place left, and bought back at once from the
-- newest place into its old slot, leaves the character's storages and the queue exactly as they were;
-- one event tells that it left the slot, and one that it came back.
pub sell-buyback :
    (s : SelfState) (xs : List Item) (src quantity : ℕ) (item : Item)
    → s.buyback ≡ queue_of xs
    → length xs < capacity
    → slot_at s.inventory_items src ≡ some item
    → src < length s.inventory_items
    → Whole item quantity
    → process_all s (sell_item src quantity ∷ buyback_item (length xs) src quantity ∷ [])
      ≡ ok (
        s,
        item_moved s.global_id (at inventory src) none
            ∷ item_moved s.global_id none (at inventory src)
            ∷ [],
      )
unfolding process_all process
sell-buyback s xs src quantity item queue room there inside whole =
    let gone = with_items s (set s.inventory_items src none) (queue_of (xs ++ item ∷ [])) in
    let newest = Newest-back xs item room in
    let back = add_back s.inventory_items src item there inside in
    let sold = process_sell_lem s gone src quantity item there inside (
      sells-Whole s src quantity item whole ∙ sell_all_lem s xs src item queue room there inside) in
    let bought =
      process_buyback_lem gone (with_items s s.inventory_items (queue_of xs)) (length xs) src
        quantity item newest.0 back.0 newest.1
        (buys-Whole gone (length xs) src quantity item whole
          ∙ buy_back_all_lem gone s.inventory_items xs (length xs) src item refl newest refl
              back.1) in
    rw (sold, bought)
      (ap
        (λ q. ok (
          with_items s s.inventory_items q,
          item_moved s.global_id (at inventory src) none
              ∷ item_moved s.global_id none (at inventory src)
              ∷ [],
        ))
        (sym queue))
