-- ===== src/StateMachine/PickItem.antt =====
-- bot/src/state/machine/pickItem.cpp: picks an item off the ground. The reference id of the target
-- is none for an entity that is not tracked, where the source throws.
pub mod Happening
pub mod Landing
mod Tests
use hyperbot.Prelude.{
  ℕ, Bool, true, false, not, ◌&&◌, ◌||◌, Option, none, some, List, [], ◌∷◌, ◌++◌, ◌==◌,
  if◌then◌else◌, Result, ok, err, ◌>>=◌, or_throw,
}
use hyperbot.Item.{Item}
use hyperbot.ItemList.{ItemList, get_item}
use hyperbot.StateMachine.{Status, done, not_done, Position, inventory, same_kind}
use hyperbot.StateMachine.Tasks.{
  Event, item_moved, entity_despawned, pickup_error, timeout, pickup, Output, inject, publish,
  Update, cancel_timer,
}

pub data PickError : Type 0 where
  entity_not_tracked slot_out_of_bounds : PickError

pub record PickItem : Type 0 where
  pub target : ℕ
  pub initialized : Bool
  pub target_ref_id : ℕ
  pub timeout_event_id : Option ℕ
  pub waiting_to_despawn : Bool
  pub waiting_to_arrive : Bool

unfoldable pub pick_task : ℕ → PickItem
pick_task target = record {
  target = target;
  initialized = false;
  target_ref_id = 0;
  timeout_event_id = none;
  waiting_to_despawn = true;
  waiting_to_arrive = true;
}

-- The destructor.
unfoldable pub abandon : PickItem → List Output
abandon m = cancel_timer m.timeout_event_id

-- The first update keeps the reference id of the target.
unfoldable pub initialize : PickItem → Option ℕ → Result PickError PickItem
initialize m ref =
    if m.initialized
    then ok m
    else (or_throw ref entity_not_tracked >>= λ id.
        ok (record m { initialized = true; target_ref_id = id }))

abbrev pub has_ref_id : ℕ → Option Item → Bool
has_ref_id ref none = false
has_ref_id ref (some item) = item.ref_item_id == ref

-- The target is gone from the ground.
unfoldable pub despawned : PickItem → ℕ → PickItem × List Output
despawned m id =
    if m.waiting_to_despawn && id == m.target
    then (
      record m { waiting_to_despawn = false; timeout_event_id = none },
      cancel_timer m.timeout_event_id,
    )
    else (m, [])

-- An item has arrived in a slot of the inventory.
unfoldable pub arrived : PickItem → Option Item → PickItem × List Output
arrived m item =
    if has_ref_id m.target_ref_id item
    then (
      record m { waiting_to_arrive = false; timeout_event_id = none },
      cancel_timer m.timeout_event_id,
    )
    else (m, [])

unfoldable pub item_came :
    PickItem → ℕ → ItemList → ℕ → Position → Result PickError (PickItem × List Output)
unfolding get_item arrived
item_came m self items id p =
    if m.waiting_to_arrive && (id == self && same_kind p.kind inventory)
    then elim (get_item items p.slot_num) [
      | err e ↦ err slot_out_of_bounds
      | ok item ↦ ok (arrived m item)
    ]
    else ok (m, [])

unfoldable pub pick_failed : PickItem → ℕ → ℕ → ℕ → PickItem × List Output
pick_failed m self issuer target =
    if issuer == self && target == m.target
    then (record m { timeout_event_id = none }, cancel_timer m.timeout_event_id)
    else (m, [])

abbrev is_timer : Option ℕ → ℕ → Bool
is_timer none id = false
is_timer (some own) id = id == own

unfoldable pub timed_out : PickItem → ℕ → PickItem
timed_out m id = if is_timer m.timeout_event_id id then record m { timeout_event_id = none } else m

unfoldable pub handle_pick :
    PickItem → ℕ → ItemList → Option Event → Result PickError (PickItem × List Output)
unfolding despawned item_came pick_failed timed_out
handle_pick m self items (some (entity_despawned id)) = ok (despawned m id)
handle_pick m self items (some (item_moved id none (some p))) = item_came m self items id p
handle_pick m self items (some (pickup_error issuer target)) = ok (pick_failed m self issuer target)
handle_pick m self items (some (timeout id)) = ok (timed_out m id, [])
handle_pick m self items _ = ok (m, [])

-- tryPickItem, unless the last request is still out
unfoldable pub try_pick_item : Option ℕ → PickItem → ℕ → List Output → PickItem × List Output
try_pick_item (some id) m fresh outputs = (m, outputs)
try_pick_item none m fresh outputs = (
  record m { timeout_event_id = some fresh },
  outputs ++ inject (pickup m.target) ∷ publish 1000 ∷ [],
)

abbrev with_not_done : PickItem × List Output → PickItem × List Output × Status
with_not_done (m, outputs) = (m, outputs, not_done)

-- The rest of an update, by what the task waits for.
unfoldable pub conclude_pick : PickItem → Bool → ℕ → List Output → PickItem × List Output × Status
unfolding try_pick_item
conclude_pick m untouchable fresh outputs =
    if untouchable
    then (m, outputs, not_done)
    else if not m.waiting_to_despawn && not m.waiting_to_arrive
    then (m, outputs, done)
    else if m.waiting_to_despawn && m.waiting_to_arrive
    then with_not_done (try_pick_item m.timeout_event_id m fresh outputs)
    else (m, outputs, not_done)

-- What an update reads: the inventory, whether the character is untouchable, the target's reference
-- id, the id that the next delayed event gets, and the event.
pub record Seen : Type 0 where
  pub items : ItemList
  pub untouchable : Bool
  pub ref : Option ℕ
  pub fresh : ℕ
  pub event : Option Event

-- PickItem::onUpdate
unfoldable pub on_update : PickItem → ℕ → Seen → Update PickError PickItem
unfolding initialize handle_pick conclude_pick
on_update m self seen = do
  ready ← initialize m seen.ref
  (m', outputs) ← handle_pick ready self seen.items seen.event
  ok (conclude_pick m' seen.untouchable seen.fresh outputs)
