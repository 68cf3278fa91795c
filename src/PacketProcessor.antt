-- ===== src/PacketProcessor.antt =====
-- bot/src/packetProcessor.cpp, serverAgentInventoryOperationResponseReceived: the item movements that
-- the server reports, on the storages of the character (bot/src/entity/self.cpp). Purchases,
-- which read the shop data, are in Packet/Movements/Purchases.
pub mod Transfers
pub mod Selling
pub mod Gold
mod Tests
use hyperbot.Prelude.{
  ℕ, ◌+◌, ◌-◌, ◌^◌, ◌%◌, Bool, true, false, Option, none, some, List, [], ◌∷◌, ◌++◌, ltb, ◌==◌,
  if◌then◌else◌, set, Result, ok, err, ◌>>=◌, ◌>>◌, throw_if, or_throw,
}
use hyperbot.Prelude.Map.{lookup, insert}
use hyperbot.TypeId.{u16}
use hyperbot.Item.{Item, as_expendable, set_quantity, clone_item}
use hyperbot.ItemList
use hyperbot.ItemList.{ItemList, ListError, Outcome, delete_item}
use hyperbot.Storage.{move_quantity}
use hyperbot.Buyback
use hyperbot.Buyback.{BuybackQueue, QueueError}
use hyperbot.StateMachine.{
  Position, StorageKind, inventory, avatar_inventory, cos_inventory, storage, guild_storage,
}

pub data ProcessError : Type 0 where
  list_error : ListError → ProcessError
  queue_error : QueueError → ProcessError
  not_stackable null_item nothing_there no_cos : ProcessError

-- The state of `entity::Self` that the movements touch. Gold is a uint64_t.
pub record SelfState : Type 0 where
  pub global_id : ℕ
  pub inventory_items : ItemList
  pub avatar_items : ItemList
  pub storage_items : ItemList
  pub guild_items : ItemList
  pub cos_items : List (ℕ × ItemList)
  pub buyback : BuybackQueue
  pub storage_gold : ℕ
  pub guild_gold : ℕ

pub data Event : Type 0 where
  item_moved : ℕ → Option Position → Option Position → Event
  item_move_failed : ℕ → ℕ → Event
  storage_gold_updated guild_storage_gold_updated : Event

-- ItemMovement with the kinds that the handler knows: the fields that a kind uses are its own.
pub data ItemMovement : Type 0 where
  update_slots_inventory update_slots_chest update_slots_guild_chest : ℕ → ℕ → ℕ → ItemMovement
  chest_deposit_item chest_withdraw_item : ℕ → ℕ → ItemMovement
  guild_chest_deposit_item guild_chest_withdraw_item : ℕ → ℕ → ItemMovement
  sell_item : ℕ → ℕ → ItemMovement
  buyback_item : ℕ → ℕ → ℕ → ItemMovement
  pick_item : ℕ → Option Item → ItemMovement
  drop_item remove_item_by_server : ℕ → ItemMovement
  add_item_by_server : ℕ → Option Item → ItemMovement
  chest_withdraw_gold chest_deposit_gold : ℕ → ItemMovement
  guild_chest_deposit_gold guild_chest_withdraw_gold : ℕ → ItemMovement
  move_item_avatar_to_inventory move_item_inventory_to_avatar : ℕ → ℕ → ItemMovement
  move_item_cos_to_inventory move_item_inventory_to_cos : ℕ → ℕ → ℕ → ItemMovement
  update_slots_inventory_cos : ℕ → ℕ → ℕ → ℕ → ItemMovement
  pick_item_cos : ℕ → ℕ → Option Item → ItemMovement
  -- kDropGold, kPickItemByOther and the kinds that are only logged
  no_change : ItemMovement

abbrev pub gold_slot : ℕ
gold_slot = 0xFE

abbrev pub Process : Type 0 → Type 0
Process = Result ProcessError

abbrev pub in_list : {A : Type 0} → Outcome A → Process A
in_list (ok a) = ok a
in_list (err e) = err (list_error e)

abbrev pub in_queue : {A : Type 0} → Result QueueError A → Process A
in_queue (ok a) = ok a
in_queue (err e) = err (queue_error e)

abbrev pub at : StorageKind → ℕ → Option Position
at kind slot = some (record { kind = kind; slot_num = slot })

-- Stacking a picked item: its quantity is the total in the slot.
unfoldable pub restack : ItemList → ℕ → Item → Item → Process ItemList
restack l slot existing new =
    if existing.ref_item_id == new.ref_item_id
    then elim (as_expendable new) [
      | none ↦ err not_stackable
      | some q ↦ elim (as_expendable existing) [
        | none ↦ err not_stackable
        | some old ↦ ok (set l slot (some (set_quantity q existing)))
      ]
    ]
    else err not_stackable

-- addItemToInventory
unfoldable pub add_item_to_inventory : ItemList → Option Item → ℕ → Process ItemList
unfolding restack
add_item_to_inventory l none slot = err null_item
add_item_to_inventory l (some new) slot = do
  found ← in_list (ItemList.get_item l slot)
  elim found [
    | some existing ↦ restack l slot existing new
    | none ↦ in_list (ItemList.add_item l slot (some new))
  ]

-- removeItemFromInventory
unfoldable pub remove_item_from_inventory : ItemList → ℕ → Process ItemList
remove_item_from_inventory l slot = do
  there ← in_list (ItemList.has_item l slot)
  if there then in_list (delete_item l slot) else err nothing_there

-- `to.addItem(destSlot, from.withdrawItem(srcSlot))`, of two storages
unfoldable pub transfer : ItemList → ItemList → ℕ → ℕ → Process (ItemList × ItemList)
transfer from to src dest = do
  (item, from') ← in_list (ItemList.withdraw_item from src)
  to' ← in_list (ItemList.add_item to dest item)
  ok (from', to')

-- getCosInventory
unfoldable pub get_cos_inventory : SelfState → ℕ → Process ItemList
get_cos_inventory s id = or_throw (lookup id s.cos_items) no_cos

-- The whole item of a slot goes into the buyback queue.
unfoldable pub sell_all : SelfState → ℕ → Process SelfState
sell_all s src = do
  (sold, left) ← in_list (ItemList.withdraw_item s.inventory_items src)
  item ← or_throw sold null_item
  ok (record s { inventory_items = left; buyback = Buyback.add_item s.buyback item })

-- A part of a stack goes there as a copy; `quantity -= movement.quantity` is done on sixteen bits.
unfoldable pub sell_item_at : SelfState → ℕ → ℕ → Item → Process SelfState
unfolding sell_all
sell_item_at s src quantity item = elim (as_expendable item) [
  | none ↦ sell_all s src
  | some q ↦
      if q == quantity
      then sell_all s src
      else ok (record s {
        inventory_items =
            set s.inventory_items src (some (set_quantity (u16 (q + 2 ^ 16 - quantity)) item));
        buyback = Buyback.add_item s.buyback (set_quantity quantity (clone_item item));
      })
]

-- kSellItem
unfoldable pub process_sell : SelfState → ℕ → ℕ → Process (SelfState × List Event)
unfolding sell_item_at
process_sell s src quantity = do
  found ← in_list (ItemList.get_item s.inventory_items src)
  elim found [
    | none ↦ ok (s, [])
    | some item ↦ do
      s' ← sell_item_at s src quantity item
      ok (s', item_moved s.global_id (at inventory src) none ∷ [])
  ]

-- All of a buyback slot, or a part of its stack as a copy.
unfoldable pub buy_back_all : SelfState → ℕ → ℕ → Process SelfState
buy_back_all s src dest = do
  (item, queue) ← in_queue (Buyback.withdraw_item s.buyback src)
  items ← in_list (ItemList.add_item s.inventory_items dest item)
  ok (record s { inventory_items = items; buyback = queue })

unfoldable pub buy_back_part : SelfState → ℕ → ℕ → ℕ → ℕ → Item → Process SelfState
buy_back_part s src dest quantity q item = do
  items ←
      in_list
        (ItemList.add_item s.inventory_items dest (some (set_quantity quantity (clone_item item))))
  ok (record s {
    inventory_items = items;
    buyback = record s.buyback {
      items = set s.buyback.items src (some (set_quantity (u16 (q + 2 ^ 16 - quantity)) item));
    };
  })

unfoldable pub buy_back : SelfState → ℕ → ℕ → ℕ → Option Item → Process SelfState
unfolding buy_back_all buy_back_part
buy_back s src dest quantity none = buy_back_all s src dest
buy_back s src dest quantity (some item) =
    if ltb 1 quantity
    then elim (as_expendable item) [
      | none ↦ buy_back_all s src dest
      | some q ↦
          if ltb quantity q
          then buy_back_part s src dest quantity q item
          else buy_back_all s src dest
    ]
    else buy_back_all s src dest

unfoldable pub buy_back_into : SelfState → ℕ → ℕ → ℕ → Process (SelfState × List Event)
unfolding buy_back
buy_back_into s src dest quantity = do
  item ← in_queue (Buyback.get_item s.buyback src)
  s' ← buy_back s src dest quantity item
  ok (s', item_moved s.global_id none (at inventory dest) ∷ [])

unfoldable pub buy_back_unless : Bool → SelfState → ℕ → ℕ → ℕ → Process (SelfState × List Event)
unfolding buy_back_into
buy_back_unless true s src dest quantity = ok (s, [])
buy_back_unless false s src dest quantity = buy_back_into s src dest quantity

-- kBuyback: nothing happens without an item in the queue, or into an occupied slot.
unfoldable pub process_buyback : SelfState → ℕ → ℕ → ℕ → Process (SelfState × List Event)
unfolding buy_back_unless
process_buyback s src dest quantity = in_queue (Buyback.has_item s.buyback src) >>= λ sold.
    if sold
    then (in_list (ItemList.has_item s.inventory_items dest) >>= λ taken.
        buy_back_unless taken s src dest quantity)
    else ok (s, [])

-- A uint64_t sum and difference.
abbrev pub add64 : ℕ → ℕ → ℕ
add64 a b = (a + b) % 2 ^ 64

abbrev pub sub64 : ℕ → ℕ → ℕ
sub64 a b = (a + 2 ^ 64 - b) % 2 ^ 64

-- A move in one storage, and a transfer between two, with the event that follows.
abbrev within : StorageKind → ℕ → ℕ → ℕ → List Event
within kind id src dest = item_moved id (at kind src) (at kind dest) ∷ []

abbrev between : StorageKind → StorageKind → ℕ → ℕ → ℕ → List Event
between from to id src dest = item_moved id (at from src) (at to dest) ∷ []

-- The branches of the handler's loop body but kBuyItem.
unfoldable pub process : SelfState → ItemMovement → Process (SelfState × List Event)
unfolding add_item_to_inventory remove_item_from_inventory transfer get_cos_inventory process_sell
    process_buyback
process s (update_slots_inventory src dest quantity) = do
  items ← in_list (move_quantity s.inventory_items src dest quantity)
  ok (record s { inventory_items = items }, within inventory s.global_id src dest)
process s (update_slots_chest src dest quantity) = do
  items ← in_list (move_quantity s.storage_items src dest quantity)
  ok (record s { storage_items = items }, within storage s.global_id src dest)
process s (update_slots_guild_chest src dest quantity) = do
  items ← in_list (move_quantity s.guild_items src dest quantity)
  ok (record s { guild_items = items }, within guild_storage s.global_id src dest)
process s (chest_deposit_item src dest) = do
  (from, to) ← transfer s.inventory_items s.storage_items src dest
  ok (
    record s { inventory_items = from; storage_items = to },
    between inventory storage s.global_id src dest,
  )
process s (chest_withdraw_item src dest) = do
  (from, to) ← transfer s.storage_items s.inventory_items src dest
  ok (
    record s { storage_items = from; inventory_items = to },
    between storage inventory s.global_id src dest,
  )
process s (guild_chest_deposit_item src dest) = do
  (from, to) ← transfer s.inventory_items s.guild_items src dest
  ok (
    record s { inventory_items = from; guild_items = to },
    between inventory guild_storage s.global_id src dest,
  )
process s (guild_chest_withdraw_item src dest) = do
  (from, to) ← transfer s.guild_items s.inventory_items src dest
  ok (
    record s { guild_items = from; inventory_items = to },
    between guild_storage inventory s.global_id src dest,
  )
process s (sell_item src quantity) = process_sell s src quantity
process s (buyback_item src dest quantity) = process_buyback s src dest quantity
process s (pick_item dest item) = if dest == gold_slot then ok (s, []) else (do
  items ← add_item_to_inventory s.inventory_items item dest
  ok (record s { inventory_items = items }, item_moved s.global_id none (at inventory dest) ∷ []))
process s (drop_item src) = do
  items ← remove_item_from_inventory s.inventory_items src
  ok (record s { inventory_items = items }, item_moved s.global_id (at inventory src) none ∷ [])
process s (remove_item_by_server src) = do
  items ← remove_item_from_inventory s.inventory_items src
  ok (record s { inventory_items = items }, item_moved s.global_id (at inventory src) none ∷ [])
process s (add_item_by_server dest item) = do
  items ← add_item_to_inventory s.inventory_items item dest
  ok (record s { inventory_items = items }, item_moved s.global_id none (at inventory dest) ∷ [])
process s (chest_withdraw_gold amount) =
    ok (record s { storage_gold = sub64 s.storage_gold amount }, storage_gold_updated ∷ [])
process s (chest_deposit_gold amount) =
    ok (record s { storage_gold = add64 s.storage_gold amount }, storage_gold_updated ∷ [])
process s (guild_chest_deposit_gold amount) =
    ok (record s { guild_gold = sub64 s.guild_gold amount }, guild_storage_gold_updated ∷ [])
process s (guild_chest_withdraw_gold amount) =
    ok (record s { guild_gold = add64 s.guild_gold amount }, guild_storage_gold_updated ∷ [])
process s (move_item_avatar_to_inventory src dest) = do
  (from, to) ← transfer s.avatar_items s.inventory_items src dest
  ok (
    record s { avatar_items = from; inventory_items = to },
    between avatar_inventory inventory s.global_id src dest,
  )
process s (move_item_inventory_to_avatar src dest) = do
  (from, to) ← transfer s.inventory_items s.avatar_items src dest
  ok (
    record s { inventory_items = from; avatar_items = to },
    between inventory avatar_inventory s.global_id src dest,
  )
process s (move_item_cos_to_inventory id src dest) = do
  cos ← get_cos_inventory s id
  (from, to) ← transfer cos s.inventory_items src dest
  ok (
    record s { cos_items = insert s.cos_items id from; inventory_items = to },
    between cos_inventory inventory s.global_id src dest,
  )
process s (move_item_inventory_to_cos id src dest) = do
  cos ← get_cos_inventory s id
  (from, to) ← transfer s.inventory_items cos src dest
  ok (
    record s { inventory_items = from; cos_items = insert s.cos_items id to },
    between inventory cos_inventory s.global_id src dest,
  )
process s (update_slots_inventory_cos id src dest quantity) = do
  cos ← get_cos_inventory s id
  items ← in_list (move_quantity cos src dest quantity)
  ok (
    record s { cos_items = insert s.cos_items id items },
    within cos_inventory s.global_id src dest,
  )
process s (pick_item_cos id dest item) = do
  cos ← get_cos_inventory s id
  items ← add_item_to_inventory cos item dest
  ok (
    record s { cos_items = insert s.cos_items id items },
    item_moved s.global_id none (at cos_inventory dest) ∷ [],
  )
process s no_change = ok (s, [])

-- The loop over the movements of a response that reports success.
unfoldable pub process_all : SelfState → List ItemMovement → Process (SelfState × List Event)
unfolding process
process_all s [] = ok (s, [])
process_all s (movement ∷ rest) = do
  (s', events) ← process s movement
  (s'', later) ← process_all s' rest
  ok (s'', events ++ later)

-- serverAgentInventoryOperationResponseReceived, of a response with an error code or with movements.
pub data Response : Type 0 where
  failure : ℕ → Response
  success : List ItemMovement → Response

unfoldable pub response_received : SelfState → Response → Process (SelfState × List Event)
unfolding process_all
response_received s (failure code) = ok (s, item_move_failed s.global_id code ∷ [])
response_received s (success movements) = process_all s movements
