-- ===== src/SkillEngine.antt =====
-- bot/src/state/skillEngine.cpp and .hpp: the cooldowns of skills, by the event that ends each, and the
-- queues of commands.
pub mod Cooldowns
mod Tests
use hyperbot.Prelude.{
  ℕ, Bool, true, false, ◌&&◌, Option, none, some, List, [], ◌∷◌, ◌==◌, if◌then◌else◌, Result, ok,
  err,
}
use hyperbot.Prelude.Map.{lookup, insert, erase}
use hyperbot.Broker.Timers.{Timer, less, HeapAlgorithms}
use hyperbot.Broker.Events.{Event, EventBroker, BrokerError, cancel_delayed_event}

pub data CommandType : Type 0 where
  execute cancel : CommandType

pub data ActionType : Type 0 where
  attack pickup trace cast dispel : ActionType

-- The fields of packet::structures::ActionCommand that are looked at here.
pub record ActionCommand : Type 0 where
  pub command_type : CommandType
  pub action_type : ActionType
  pub ref_skill_id : ℕ

-- AcceptedCommandAndWasExecuted
pub record AcceptedCommand : Type 0 where
  pub command : ActionCommand
  pub was_executed : Bool

-- `skill_cast_id_map` gives the caster and the skill of a cast.
pub record SkillEngine : Type 0 where
  pub skill_cooldown_event_id_map : List (ℕ × ℕ)
  pub skill_cast_id_map : List (ℕ × (ℕ × ℕ))
  pub pending_command_queue : List ActionCommand
  pub accepted_command_queue : List AcceptedCommand

abbrev pub with_cooldowns : SkillEngine → List (ℕ × ℕ) → SkillEngine
with_cooldowns s cooldowns = record {
  skill_cooldown_event_id_map = cooldowns;
  skill_cast_id_map = s.skill_cast_id_map;
  pending_command_queue = s.pending_command_queue;
  accepted_command_queue = s.accepted_command_queue;
}

-- skillCooldownBegin: both branches write the new event.
unfoldable pub skill_cooldown_begin : SkillEngine → ℕ → ℕ → SkillEngine
skill_cooldown_begin s skill event_id = elim (lookup skill (s.skill_cooldown_event_id_map)) [
  | some old ↦ with_cooldowns s (insert (s.skill_cooldown_event_id_map) skill event_id)
  | none ↦ with_cooldowns s (insert (s.skill_cooldown_event_id_map) skill event_id)
]

-- skillCooldownEnded
unfoldable pub skill_cooldown_ended : SkillEngine → ℕ → SkillEngine
skill_cooldown_ended s skill = elim (lookup skill (s.skill_cooldown_event_id_map)) [
  | none ↦ s
  | some event_id ↦ with_cooldowns s (erase skill (s.skill_cooldown_event_id_map))
]

-- skillIsOnCooldown
unfoldable pub skill_is_on_cooldown : SkillEngine → ℕ → Bool
skill_is_on_cooldown s skill = elim (lookup skill (s.skill_cooldown_event_id_map)) [
  | none ↦ false
  | some event_id ↦ true
]

-- getSkillCooldownEndEventId
unfoldable pub get_skill_cooldown_end_event_id : SkillEngine → ℕ → Option ℕ
get_skill_cooldown_end_event_id s skill = lookup skill (s.skill_cooldown_event_id_map)

-- commandIsCastingThisSkill
unfoldable pub is_casting : ℕ → ActionCommand → Bool
is_casting skill c = elim (c.command_type) [
  | cancel ↦ false
  | execute ↦ elim (c.action_type) [ cast ↦ c.ref_skill_id == skill | _ ↦ false ]
]

-- The two loops of alreadyTriedToCastSkill.
unfoldable pub any_pending : ℕ → List ActionCommand → Bool
unfolding is_casting
any_pending skill [] = false
any_pending skill (c ∷ queue) =
    let rest = any_pending skill queue in if is_casting skill c then true else rest

unfoldable pub any_accepted : ℕ → List AcceptedCommand → Bool
unfolding is_casting
any_accepted skill [] = false
any_accepted skill (c ∷ queue) =
    let rest = any_accepted skill queue in if is_casting skill (c.command) then true else rest

-- alreadyTriedToCastSkill
unfoldable pub already_tried_to_cast_skill : SkillEngine → ℕ → Bool
unfolding any_pending any_accepted
already_tried_to_cast_skill s skill =
    if any_pending skill (s.pending_command_queue)
    then true
    else any_accepted skill (s.accepted_command_queue)

-- reset
unfoldable pub reset : SkillEngine → SkillEngine
reset s = record {
  skill_cooldown_event_id_map = s.skill_cooldown_event_id_map;
  skill_cast_id_map = [];
  pending_command_queue = [];
  accepted_command_queue = [];
}

module _ {B H : Type 0} (algorithms : HeapAlgorithms (Timer (Event B)) less) where
  -- The loop of cancelEvents: what cancelDelayedEvent answers is not looked at.
  unfoldable pub cancel_each : List (ℕ × ℕ) → EventBroker B H → Result BrokerError (EventBroker B H)
  cancel_each [] broker = ok broker
  cancel_each (entry ∷ entries) broker = elim (cancel_delayed_event algorithms broker (entry.1)) [
    | err e ↦ err e
    | ok r ↦ cancel_each entries (r.0)
  ]

  unfoldable pub cancel_events :
      SkillEngine → EventBroker B H → Result BrokerError (EventBroker B H)
  unfolding cancel_each
  cancel_events s broker = cancel_each (s.skill_cooldown_event_id_map) broker
