-- ===== src/StateMachine/Tasks.antt =====
-- What the tasks share: the events that they react to (bot/src/event/event.hpp), and what they put
-- out. A delayed event is named by the id that the broker gives it; an update is told the id that
-- the broker would give next.
use hyperbot.Prelude.{ℕ, ◌+◌, Option, none, some, List, [], ◌∷◌, Result}
use hyperbot.Item.{Item, equipment}
use hyperbot.StateMachine.{Status, Position}

-- The events whose class or code a task looks at; `other` is any of the rest.
pub data Event : Type 0 where
  item_moved : ℕ → Option Position → Option Position → Event
  item_move_failed : ℕ → ℕ → Event
  item_use_success : ℕ → ℕ → ℕ → Event
  item_use_failed : ℕ → ℕ → Event
  entity_spawned : ℕ → Event
  entity_despawned : ℕ → Event
  pickup_error : ℕ → ℕ → Event
  stats_changed : Event
  equip_countdown_start : ℕ → Event
  free_pvp_update_success : ℕ → Event
  timeout : ℕ → Event
  other : Event

-- The packets that the tasks send.
pub data Request : Type 0 where
  within_inventory : ℕ → ℕ → ℕ → Request
  inventory_to_avatar : ℕ → ℕ → Request
  avatar_to_inventory : ℕ → ℕ → Request
  buy : ℕ → ℕ → ℕ → ℕ → Request
  sell : ℕ → ℕ → ℕ → Request
  drop_item : ℕ → Request
  use_item : ℕ → ℕ → Request
  pickup : ℕ → Request
  increase_int increase_str : Request
  free_pvp_yellow : Request

pub data Output : Type 0 where
  -- injectPacket to the server
  inject : Request → Output
  -- injectPacket to the client, of an item that appears in a slot
  spoof_item : ℕ → Output
  -- publishDelayedEvent of a timeout, after so many milliseconds, and cancelDelayedEvent
  publish : ℕ → Output
  cancel : ℕ → Output
  -- sendActiveStateMachine, to the user interface
  send_active_state_machine : Output
  -- pushBlockedOpcode, and the proxy's own blockOpcode and unblockOpcode
  push_blocked : ℕ → Output
  block : ℕ → Output
  unblock : ℕ → Output

-- An update: the task afterwards, what it put out, and its status.
abbrev pub Update : Type 0 → Type 0 → Type 0
Update X S = Result X (S × List Output × Status)

-- `dynamic_cast<const storage::ItemEquipment*>`
abbrev pub is_equipment : Item → Option (Unit {0})
is_equipment item = elim item.fields [ equipment f ↦ some tt | _ ↦ none ]

-- A running timer is cancelled.
abbrev pub cancel_timer : Option ℕ → List Output
cancel_timer none = []
cancel_timer (some id) = cancel id ∷ []

-- How many packets an update sends to the server.
abbrev pub injections : List Output → ℕ
injections [] = 0
injections (inject r ∷ rest) = 1 + injections rest
injections (o ∷ rest) = injections rest
