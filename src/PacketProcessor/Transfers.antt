-- ===== src/PacketProcessor/Transfers.antt =====
-- Transfers between two storages of the character lose and make no item.
use hyperbot.Prelude.{
  ℕ, ◌+◌, ◌≡◌, refl, ◌∙◌, inl, inr, Bool, true, false, ◌&&◌, Option, none, some, List, [], ◌∷◌, leb,
  ◌==◌, length, length-append, Bool-cases, Option-cases, ok, ◌>>=◌, OnSuccess, OnSuccess->>=,
  OnSuccess-ok, arith,
}
use hyperbot.Prelude.Map.{lookup, insert}
use hyperbot.Item.{Item}
use hyperbot.ItemList
use hyperbot.ItemList.{ItemList, slot_at, present}
use hyperbot.Storage.Weight.{total, total-set, weight}
use hyperbot.PacketProcessor.{
  SelfState, ItemMovement, Event, Process, in_list, transfer, get_cos_inventory, process,
  process_all, chest_deposit_item, chest_withdraw_item, guild_chest_deposit_item,
  guild_chest_withdraw_item, move_item_avatar_to_inventory, move_item_inventory_to_avatar,
  move_item_cos_to_inventory, move_item_inventory_to_cos,
}

withdraw_total :
    (ref : ℕ) (l : ItemList) (slot : ℕ)
    → OnSuccess
        (λ r. total ref r.1 + weight ref r.0 ≡ total ref l)
        (in_list (ItemList.withdraw_item l slot))
unfolding ItemList.withdraw_item ItemList.has_item ItemList.bounds_check
withdraw_total ref l slot = elim (Bool-cases (leb (length l) slot)) [
  | inl beyond ↦ rw (beyond) tt
  | inr inside ↦ elim (Bool-cases (present (slot_at l slot))) [
    | inl there ↦ rw (inside, there) (ground (arith, total-set ref l slot none))
    | inr free ↦ rw (inside, free) tt
  ]
]

add_total :
    (ref : ℕ) (l : ItemList) (slot : ℕ) (item : Option Item)
    → OnSuccess
        (λ m. total ref m ≡ total ref l + weight ref item)
        (in_list (ItemList.add_item l slot item))
unfolding ItemList.add_item ItemList.has_item ItemList.bounds_check
add_total ref l slot item = elim (Bool-cases (leb (length l) slot)) [
  | inl beyond ↦ rw (beyond) tt
  | inr inside ↦ elim (Bool-cases (present (slot_at l slot))) [
    | inl there ↦ rw (inside, there) tt
    | inr free ↦ rw (inside, free) (ground (arith, total-set ref l slot item))
  ]
]

-- Two storages hold together what they held.
abbrev Keeps : ℕ → ItemList → ItemList → ItemList × ItemList → Type 0
Keeps ref from to r = total ref r.0 + total ref r.1 ≡ total ref from + total ref to

transfer-Keeps :
    (ref : ℕ) (from to : ItemList) (src dest : ℕ)
    → OnSuccess (Keeps ref from to) (transfer from to src dest)
unfolding transfer
transfer-Keeps ref from to src dest =
    OnSuccess->>= (λ r. total ref r.1 + weight ref r.0 ≡ total ref from) (Keeps ref from to)
      (in_list (ItemList.withdraw_item from src)) _ (withdraw_total ref from src)
      λ r k.
        OnSuccess->>= (λ m. total ref m ≡ total ref to + weight ref r.0) (Keeps ref from to)
          (in_list (ItemList.add_item to dest r.0)) _ (add_total ref to dest r.0)
          λ m k'. omega arith

-- What the pets hold.
pub cos_total : ℕ → List (ℕ × ItemList) → ℕ
cos_total ref [] = 0
cos_total ref (entry ∷ rest) = total ref entry.1 + cos_total ref rest

-- All that the character owns outside the buyback queue.
pub grand_total : ℕ → SelfState → ℕ
unfolding cos_total
grand_total ref s =
    total ref s.inventory_items
    + (total ref s.avatar_items
        + (total ref s.storage_items + (total ref s.guild_items + cos_total ref s.cos_items)))

cos_total-insert :
    (ref : ℕ) (m : List (ℕ × ItemList)) (id : ℕ) (old new : ItemList)
    → lookup id m ≡ some old
    → cos_total ref (insert m id new) + total ref old ≡ cos_total ref m + total ref new
unfolding cos_total lookup insert
cos_total-insert ref [] id old new found = absurd (cc)
cos_total-insert ref (entry ∷ rest) id old new found = elim (Bool-cases (entry.0 == id)) [
  | inl here ↦ ground (arith, here)
  | inr later ↦ ground (arith, later, cos_total-insert ref rest id old new)
]

-- The movements between two storages of the character.
abbrev pub is_transfer : ItemMovement → Bool
is_transfer (chest_deposit_item src dest) = true
is_transfer (chest_withdraw_item src dest) = true
is_transfer (guild_chest_deposit_item src dest) = true
is_transfer (guild_chest_withdraw_item src dest) = true
is_transfer (move_item_avatar_to_inventory src dest) = true
is_transfer (move_item_inventory_to_avatar src dest) = true
is_transfer (move_item_cos_to_inventory id src dest) = true
is_transfer (move_item_inventory_to_cos id src dest) = true
is_transfer _ = false

abbrev Conserves : ℕ → SelfState → SelfState × List Event → Type 0
Conserves ref s (s', events) =
    (grand_total ref s' ≡ grand_total ref s) × (length events ≡ 1) × (s'.buyback ≡ s.buyback)

-- What holds after a transfer, from what a transfer keeps.
after_transfer :
    (ref : ℕ) (s : SelfState) (from to : ItemList) (src dest : ℕ)
    (f : ItemList × ItemList → Process (SelfState × List Event))
    → ((r : ItemList × ItemList) → Keeps ref from to r → OnSuccess (Conserves ref s) (f r))
    → OnSuccess (Conserves ref s) (transfer from to src dest >>= f)
after_transfer ref s from to src dest f k =
    OnSuccess->>= (Keeps ref from to) (Conserves ref s) (transfer from to src dest) f
      (transfer-Keeps ref from to src dest) k

found_cos :
    (s : SelfState) (id : ℕ)
    → OnSuccess (λ cos. lookup id s.cos_items ≡ some cos) (get_cos_inventory s id)
unfolding get_cos_inventory
found_cos s id = elim (Option-cases (lookup id s.cos_items)) [
  | inl missing ↦ rw (missing) tt
  | inr (cos, there) ↦ rw (there) refl
]

process-Conserves :
    (ref : ℕ) (s : SelfState) (m : ItemMovement)
    → is_transfer m ≡ true
    → OnSuccess (Conserves ref s) (process s m)
unfolding process grand_total
process-Conserves ref s (chest_deposit_item src dest) h =
    after_transfer ref s s.inventory_items s.storage_items src dest _
      λ r k. (omega arith, refl, refl)
process-Conserves ref s (chest_withdraw_item src dest) h =
    after_transfer ref s s.storage_items s.inventory_items src dest _
      λ r k. (omega arith, refl, refl)
process-Conserves ref s (guild_chest_deposit_item src dest) h =
    after_transfer ref s s.inventory_items s.guild_items src dest _ λ r k. (omega arith, refl, refl)
process-Conserves ref s (guild_chest_withdraw_item src dest) h =
    after_transfer ref s s.guild_items s.inventory_items src dest _ λ r k. (omega arith, refl, refl)
process-Conserves ref s (move_item_avatar_to_inventory src dest) h =
    after_transfer ref s s.avatar_items s.inventory_items src dest _
      λ r k. (omega arith, refl, refl)
process-Conserves ref s (move_item_inventory_to_avatar src dest) h =
    after_transfer ref s s.inventory_items s.avatar_items src dest _
      λ r k. (omega arith, refl, refl)
process-Conserves ref s (move_item_cos_to_inventory id src dest) h =
    OnSuccess->>= (λ cos. lookup id s.cos_items ≡ some cos) (Conserves ref s)
      (get_cos_inventory s id) _ (found_cos s id)
      λ cos there.
        after_transfer ref s cos s.inventory_items src dest _
          λ r k. (omega (arith, cos_total-insert ref s.cos_items id cos r.0 there), refl, refl)
process-Conserves ref s (move_item_inventory_to_cos id src dest) h =
    OnSuccess->>= (λ cos. lookup id s.cos_items ≡ some cos) (Conserves ref s)
      (get_cos_inventory s id) _ (found_cos s id)
      λ cos there.
        after_transfer ref s s.inventory_items cos src dest _
          λ r k. (omega (arith, cos_total-insert ref s.cos_items id cos r.1 there), refl, refl)
process-Conserves ref s _ h = cc

abbrev pub all_transfers : List ItemMovement → Bool
all_transfers [] = true
all_transfers (m ∷ rest) = is_transfer m && all_transfers rest

abbrev pub ConservesAll : ℕ → SelfState → ℕ → SelfState × List Event → Type 0
ConservesAll ref s n (s', events) =
    (grand_total ref s' ≡ grand_total ref s) × (length events ≡ n) × (s'.buyback ≡ s.buyback)

all-ConservesAll :
    (ref : ℕ) (s : SelfState) (movements : List ItemMovement)
    → all_transfers movements ≡ true
    → OnSuccess (ConservesAll ref s (length movements)) (process_all s movements)
unfolding process_all
all-ConservesAll ref s [] h = (refl, refl, refl)
all-ConservesAll ref s (m ∷ rest) h =
    OnSuccess->>= (Conserves ref s) (ConservesAll ref s (length (m ∷ rest))) (process s m) _
      (process-Conserves ref s m (ground arith))
      λ (s', events) c.
        OnSuccess->>= (ConservesAll ref s' (length rest)) (ConservesAll ref s (length (m ∷ rest)))
          (process_all s' rest) _ (all-ConservesAll ref s' rest (ground arith))
          λ (s'', later) d.
            (d.0 ∙ c.0, omega (arith, length-append events later, c.1, d.1), d.2 ∙ c.2)

-- A response whose movements are all transfers between the character's storages (inventory, avatar,
-- storage, guild storage and pets), and that is processed without an exception, leaves the total
-- quantity of each item as it was, publishes one event for each movement, and does not touch the
-- buyback queue.
pub process_all-ConservesAll :
    (ref : ℕ) (s s' : SelfState) (movements : List ItemMovement) (events : List Event)
    → all_transfers movements ≡ true
    → process_all s movements ≡ ok (s', events)
    → ConservesAll ref s (length movements) (s', events)
process_all-ConservesAll ref s s' movements events h runs =
    OnSuccess-ok (ConservesAll ref s (length movements)) (process_all s movements) (s', events) runs
      (all-ConservesAll ref s movements h)
