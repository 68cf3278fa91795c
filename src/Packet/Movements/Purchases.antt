-- ===== src/Packet/Movements/Purchases.antt =====
-- bot/src/packetProcessor.cpp, the branch of kBuyItem. What the world state and the shop data know of
-- the purchase that the user asked for (a tracked NPC, its name, the item of its shop, made from
-- scrap) is a parameter: the item, if there is one.
use hyperbot.Prelude.{
  member, ℕ, ◌<◌, ◌≡◌, refl, Option, none, some, List, [], ◌∷◌, map, length, ok, err, ◌>>=◌, arith,
  if◌then◌else◌, false, set, length-set,
}
use hyperbot.Item.{Item, set_quantity}
use hyperbot.ItemList
use hyperbot.ItemList.{ItemList, slot_at}
use hyperbot.ItemList.Slots.{slot_at-set}
use hyperbot.PacketProcessor.{SelfState, Event, item_moved, Process, in_list, at}
use hyperbot.StateMachine.{inventory}
use hyperbot.Packet.Movements.{Movement}

abbrev pub bought_event : SelfState → Movement → Event
bought_event s m = item_moved s.global_id none (at inventory m.dest_slot)

-- Items that are not stackable, one for each slot.
unfoldable pub add_each : ItemList → List ℕ → Item → Process ItemList
add_each l [] item = ok l
add_each l (slot ∷ slots) item = do
  l' ← in_list (ItemList.add_item l slot (some item))
  add_each l' slots item

unfoldable pub add_bought : SelfState → Movement → Item → List ℕ → Process (SelfState × List Event)
unfolding add_each
add_bought s m item (slot ∷ []) = do
  items ← in_list (ItemList.add_item s.inventory_items slot (some (set_quantity m.quantity item)))
  ok (record s { inventory_items = items }, bought_event s m ∷ [])
add_bought s m item slots = do
  items ← add_each s.inventory_items slots item
  ok (record s { inventory_items = items }, map (λ _. bought_event s m) slots)

-- Without a request of the user, or without knowledge of it, nothing is bought. The request is reset.
unfoldable pub process_purchase :
    (Movement → Option Item)
    → SelfState
    → Option Movement
    → Movement
    → Process (SelfState × List Event × Option Movement)
unfolding add_bought
process_purchase shop s none m = ok (s, [], none)
process_purchase shop s (some request) m = elim (shop request) [
  | none ↦ ok (s, [], none)
  | some item ↦ elim (add_bought s m item m.dest_slots) [
    | err e ↦ err e
    | ok (s', events) ↦ ok (s', events, none)
  ]
]

-- One slot gets a stack of the quantity that was bought.
abbrev pub bought_item : Movement → List ℕ → Item → Item
bought_item m (slot ∷ []) item = set_quantity m.quantity item
bought_item m slots item = item

-- Different empty slots of the list.
abbrev pub Free : ItemList → List ℕ → Type 0
Free l [] = Unit
Free l (slot ∷ slots) =
    (slot < length l) × (slot_at l slot ≡ none) × (member slot slots ≡ false) × Free l slots

abbrev pub set_each : ItemList → List ℕ → Item → ItemList
set_each l [] item = l
set_each l (slot ∷ slots) item = set_each (set l slot (some item)) slots item

add_item-free :
    (l : ItemList) (slot : ℕ) (item : Item)
    → slot < length l
    → slot_at l slot ≡ none
    → in_list (ItemList.add_item l slot (some item)) ≡ ok (set l slot (some item))
unfolding ItemList.add_item
add_item-free l slot item h k = ground arith

Free-set :
    (l : ItemList) (slot : ℕ) (item : Item) (slots : List ℕ)
    → slot < length l
    → member slot slots ≡ false
    → Free l slots
    → Free (set l slot (some item)) slots
Free-set l slot item [] h k free = tt
Free-set l slot item (s ∷ slots) h k (inside, empty, once, free) = (
  ground (arith, length-set l slot (some item)),
  ground (arith, slot_at-set l slot (some item) s),
  once,
  Free-set l slot item slots h (ground arith) free,
)

add_each-set_each :
    (l : ItemList) (slots : List ℕ) (item : Item)
    → Free l slots
    → add_each l slots item ≡ ok (set_each l slots item)
unfolding add_each
add_each-set_each l [] item free = refl
add_each-set_each l (slot ∷ slots) item (inside, empty, once, free) =
    rw (add_item-free l slot item inside empty) (
      add_each-set_each (set l slot (some item)) slots item
        (Free-set l slot item slots inside once free))

pub slot_at-set_each :
    (l : ItemList) (slots : List ℕ) (item : Item) (j : ℕ)
    → Free l slots
    → slot_at (set_each l slots item) j ≡ (if member j slots then some item else slot_at l j)
slot_at-set_each l [] item j free = refl
slot_at-set_each l (slot ∷ slots) item j (inside, empty, once, free) = ground (
  arith,
  slot_at-set l slot (some item) j,
  slot_at-set_each (set l slot (some item)) slots item j
      (Free-set l slot item slots inside once free),
)

add_bought-Free :
    (s : SelfState) (m : Movement) (item : Item) (slots : List ℕ)
    → Free s.inventory_items slots
    → add_bought s m item slots
      ≡ ok (
        record s { inventory_items = set_each s.inventory_items slots (bought_item m slots item) },
        map (λ _. bought_event s m) slots,
      )
unfolding add_bought add_each
add_bought-Free s m item [] free = refl
add_bought-Free s m item (slot ∷ []) (inside, empty, once, rest) =
    rw (add_item-free s.inventory_items slot (set_quantity m.quantity item) inside empty) refl
add_bought-Free s m item (slot ∷ slot' ∷ slots) free =
    rw (add_each-set_each s.inventory_items (slot ∷ slot' ∷ slots) item free) refl

pub process_purchase-Free :
    (shop : Movement → Option Item) (s : SelfState) (request m : Movement) (item : Item)
    (slots : List ℕ)
    → shop request ≡ some item
    → m.dest_slots ≡ slots
    → Free s.inventory_items slots
    → process_purchase shop s (some request) m
      ≡ ok (
        record s { inventory_items = set_each s.inventory_items slots (bought_item m slots item) },
        map (λ _. bought_event s m) slots,
        none,
      )
unfolding process_purchase
process_purchase-Free shop s request m item slots known named free =
    rw (known, named, process_purchase) (rw (add_bought-Free s m item slots free) refl)
