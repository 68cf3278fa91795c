-- ===== src/SkillEngine/Tests.antt =====
-- Witnesses and tests of the skill engine's theorems.
use hyperbot.Prelude.{ℕ, ◌≡◌, refl, true, false, [], ◌∷◌, arith}
use hyperbot.Prelude.Map.{lookup, insert}
use hyperbot.Broker.Timers.Heap.{sorted_heaps}
use hyperbot.Broker.Events.{EventBroker, new_broker, publish_delayed_event}
use hyperbot.Broker.Events.State.{Consistent}
use hyperbot.Broker.Events.Session.{session-Consistent, opened, delays}
use hyperbot.SkillEngine.{
  SkillEngine, ActionCommand, execute, cast, already_tried_to_cast_skill, reset,
  skill_is_on_cooldown,
}
use hyperbot.SkillEngine.Cooldowns.{Pending}

abbrev cast_30 : ActionCommand
cast_30 = record { command_type = execute; action_type = cast; ref_skill_id = 30 }

abbrev engine : SkillEngine
engine = record {
  skill_cooldown_event_id_map = (30, 0) ∷ [];
  skill_cast_id_map = [];
  pending_command_queue = cast_30 ∷ [];
  accepted_command_queue = [];
}

tried : already_tried_to_cast_skill engine 30 ≡ true
unfolding already_tried_to_cast_skill
tried = refl

not_after_reset : already_tried_to_cast_skill (reset engine) 30 ≡ false
unfolding already_tried_to_cast_skill reset
not_after_reset = refl

still_cooling : skill_is_on_cooldown (reset engine) 30 ≡ true
unfolding skill_is_on_cooldown reset lookup
still_cooling = refl

abbrev one_pending : EventBroker ℕ ℕ
one_pending = (publish_delayed_event sorted_heaps new_broker 20 3 0).0

one_pending-Consistent : Consistent sorted_heaps 1 one_pending
one_pending-Consistent =
    session-Consistent sorted_heaps 1 one_pending (delays 0 new_broker 20 3 0 opened) (omega arith)

engine-Pending : Pending (one_pending.timer_id_map) (engine.skill_cooldown_event_id_map)
unfolding publish_delayed_event lookup insert
engine-Pending = ((0, refl), tt)
