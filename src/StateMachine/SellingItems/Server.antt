-- ===== src/StateMachine/SellingItems/Server.antt =====
-- The task together with bot/src/packetProcessor.cpp: the server grants each sale, and its answer
-- changes the inventory that the task sees next.
use hyperbot.Prelude.{
  ℕ, ◌<◌, ◌≡◌, ◌⊎◌, refl, ◌∙◌, inl, inr, false, Option, none, some, List, [], ◌∷◌, leb,
  if◌then◌else◌, length, set, length-set, member, ok, arith,
}
use hyperbot.Item.{Item, as_expendable}
use hyperbot.ItemList.{ItemList, slot_at, get_item, bounds_check}
use hyperbot.ItemList.Slots.{slot_at-set}
use hyperbot.Buyback
use hyperbot.PacketProcessor.{SelfState, item_moved, at, sell_all, process_sell}
use hyperbot.PacketProcessor.Selling.{Whole, withdraw_found, sells-Whole, process_sell_lem}
use hyperbot.StateMachine.{done, inventory}
use hyperbot.StateMachine.Tasks.{sell, Output, inject}
use hyperbot.StateMachine.SellingItems.{selling_task, quantity_of}
use hyperbot.StateMachine.SellingItems.Sales.{Sales, sales_over, sale, run_sales, run_sales-Sales}

-- The character while its requests are granted: the inventories at the task's updates, the requests, and
-- the character at the end. Each sale publishes the event that the item has left its slot.
pub data Granted (npc : ℕ)
    : SelfState → List ℕ → List ItemList → List Output → SelfState → Type 0 where
  all_sold : (s : SelfState) → Granted npc s [] (s.inventory_items ∷ []) [] s
  one_sold :
      (s s' t : SelfState) (slot : ℕ) (slots : List ℕ) (item : Item) (seen : List ItemList)
      (requests : List Output)
      → get_item s.inventory_items slot ≡ ok (some item)
      → process_sell s slot (quantity_of item)
        ≡ ok (s', item_moved s.global_id (at inventory slot) none ∷ [])
      → Granted npc s' slots seen requests t
      → Granted npc s
          (slot ∷ slots)
          (s.inventory_items ∷ seen)
          (inject (sell slot (quantity_of item) npc) ∷ requests)
          t

-- Different slots that hold items.
abbrev pub Stocked : ItemList → List ℕ → Type 0
Stocked l [] = Unit
Stocked l (slot ∷ slots) =
    (slot < length l)
    × ((item : Item) × (slot_at l slot ≡ some item))
    × (member slot slots ≡ false)
    × Stocked l slots

-- Requests that were granted, after which the slots are empty.
pub record Sold (npc : ℕ) (s : SelfState) (slots : List ℕ) : Type 0 where
  pub seen : List ItemList
  pub requests : List Output
  pub final : SelfState
  pub granted : Granted npc s slots seen requests final
  pub emptied :
      (j : ℕ)
      → slot_at final.inventory_items j
        ≡ (if member j slots then none else slot_at s.inventory_items j)

-- The task puts the requests out and is done.
pub record SoldOut (npc : ℕ) (s : SelfState) (slots : List ℕ) : Type 0 where
  pub sales : Sold npc s slots
  pub runs : run_sales (selling_task slots).0 s.global_id npc sales.seen ≡ ok (sales.requests, done)

Granted-Sales :
    {npc : ℕ} {s t : SelfState} {slots : List ℕ} {seen : List ItemList} {requests : List Output}
    → Granted npc s slots seen requests t
    → Sales npc slots seen requests
Granted-Sales (all_sold s) = sales_over s.inventory_items
Granted-Sales (one_sold s s' t slot slots item seen requests there sold later) =
    sale slot slots s.inventory_items item seen requests there (Granted-Sales later)

none_or_all : (o : Option ℕ) → (o ≡ none) ⊎ (o ≡ some (elim o [ none ↦ 1 | some q ↦ q ]))
none_or_all none = inl refl
none_or_all (some q) = inr refl

quantity_of-Whole : (item : Item) → Whole item (quantity_of item)
quantity_of-Whole item = none_or_all (as_expendable item)

abbrev after_sale : SelfState → ℕ → Item → SelfState
after_sale s slot item = record s {
  inventory_items = set s.inventory_items slot none;
  buyback = Buyback.add_item s.buyback item;
}

sells_slot :
    (s : SelfState) (slot : ℕ) (item : Item)
    → slot < length s.inventory_items
    → slot_at s.inventory_items slot ≡ some item
    → process_sell s slot (quantity_of item)
      ≡ ok (after_sale s slot item, item_moved s.global_id (at inventory slot) none ∷ [])
unfolding sell_all
sells_slot s slot item inside there =
    process_sell_lem s (after_sale s slot item) slot (quantity_of item) item there inside (
      sells-Whole s slot (quantity_of item) item (quantity_of-Whole item)
      ∙ rw (withdraw_found s.inventory_items slot item there inside) refl)

get_item-there :
    (l : ItemList) (slot : ℕ) (item : Item)
    → slot < length l
    → slot_at l slot ≡ some item
    → get_item l slot ≡ ok (some item)
unfolding get_item bounds_check
get_item-there l slot item inside there =
    let in_bounds : leb (length l) slot ≡ false = ground arith in rw (in_bounds, there) refl

Stocked-set :
    (l : ItemList) (slot : ℕ) (slots : List ℕ)
    → slot < length l
    → member slot slots ≡ false
    → Stocked l slots
    → Stocked (set l slot none) slots
Stocked-set l slot [] inside once stocked = tt
Stocked-set l slot (s ∷ slots) inside once (inside', (item, there), once', stocked) = (
  ground (arith, length-set l slot none),
  (item, ground (arith, slot_at-set l slot none s)),
  once',
  Stocked-set l slot slots inside (ground arith) stocked,
)

sell_each :
    (npc : ℕ) (s : SelfState) (slots : List ℕ) → Stocked s.inventory_items slots → Sold npc s slots
sell_each npc s [] stocked = record {
  seen = s.inventory_items ∷ [];
  requests = [];
  final = s;
  granted = all_sold s;
  emptied = λ j. refl;
}
sell_each npc s (slot ∷ slots) (inside, (item, there), once, stocked) =
    let later : Sold npc (after_sale s slot item) slots =
      sell_each npc (after_sale s slot item) slots
        (Stocked-set s.inventory_items slot slots inside once stocked) in
    record {
      seen = s.inventory_items ∷ later.seen;
      requests = inject (sell slot (quantity_of item) npc) ∷ later.requests;
      final = later.final;
      granted =
          one_sold s (after_sale s slot item) later.final slot slots item later.seen later.requests
            (get_item-there s.inventory_items slot item inside there)
            (sells_slot s slot item inside there) later.granted;
      emptied = λ j. ground (arith, later.emptied j, slot_at-set s.inventory_items slot none j);
    }

-- Let a task sell different slots of the inventory that hold items, and let the server grant each sale, with
-- the packet processor handling its answer. Then the processor succeeds on each, publishes
-- the event that the task waits for, and the task requests each slot in order with its whole
-- quantity and is done after the last. At the end these slots are empty and the others are as before.
pub run_sales-SoldOut :
    (npc : ℕ) (s : SelfState) (slots : List ℕ)
    → Stocked s.inventory_items slots
    → SoldOut npc s slots
run_sales-SoldOut npc s slots stocked =
    let all : Sold npc s slots = sell_each npc s slots stocked in
    record {
      sales = all;
      runs =
          run_sales-Sales slots s.global_id npc all.seen all.requests (Granted-Sales all.granted);
    }
