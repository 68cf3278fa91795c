-- ===== src/SkillEngine/Cooldowns.antt =====
-- Which skills are on cooldown, and what cancelling their events does.
use hyperbot.Prelude.{
  ℕ, ◌≡◌, refl, ◌∙◌, ap, inl, inr, true, false, Option, none, some, List, [], ◌∷◌, ◌==◌,
  if◌then◌else◌, Bool-cases, ==_iff, ok, arith,
}
use hyperbot.Prelude.Map.{lookup, lookup-insert, lookup-erase}
use hyperbot.Broker.Timers.{Timer, less, HeapAlgorithms}
use hyperbot.Broker.Events.{Event, EventBroker, cancel_delayed_event}
use hyperbot.Broker.Events.State.{Consistent}
use hyperbot.Broker.Events.Session.{cancel_delayed_event_cancels}
use hyperbot.SkillEngine.{
  SkillEngine, skill_cooldown_begin, skill_cooldown_ended, get_skill_cooldown_end_event_id,
  cancel_each, cancel_events,
}

-- A call of the packet processor.
pub data Call : Type 0 where
  begins : ℕ → ℕ → Call
  ends : ℕ → Call

abbrev pub calls : List Call → SkillEngine → SkillEngine
calls [] s = s
calls (begins skill event_id ∷ cs) s = calls cs (skill_cooldown_begin s skill event_id)
calls (ends skill ∷ cs) s = calls cs (skill_cooldown_ended s skill)

-- The event of a skill after some calls, from the one before: that of its last beginning, if it has
-- not ended since.
abbrev pub event_after : List Call → ℕ → Option ℕ → Option ℕ
event_after [] skill before = before
event_after (begins other event_id ∷ cs) skill before =
    event_after cs skill (if other == skill then some event_id else before)
event_after (ends other ∷ cs) skill before =
    event_after cs skill (if other == skill then none else before)

after_begin :
    (s : SkillEngine) (other event_id skill : ℕ)
    → get_skill_cooldown_end_event_id (skill_cooldown_begin s other event_id) skill
      ≡ (if other == skill then some event_id else get_skill_cooldown_end_event_id s skill)
unfolding get_skill_cooldown_end_event_id skill_cooldown_begin
after_begin s other event_id skill =
    ground (arith, lookup-insert (s.skill_cooldown_event_id_map) other event_id skill)

after_end :
    (s : SkillEngine) (other skill : ℕ)
    → get_skill_cooldown_end_event_id (skill_cooldown_ended s other) skill
      ≡ (if other == skill then none else get_skill_cooldown_end_event_id s skill)
unfolding get_skill_cooldown_end_event_id skill_cooldown_ended
after_end s other skill = elim (Bool-cases (other == skill)) [
  | inl same ↦ ground (
    arith,
    lookup-erase (s.skill_cooldown_event_id_map) other skill,
    ap (λ k. lookup k (s.skill_cooldown_event_id_map)) ((==_iff other skill).0 same),
  )
  | inr different ↦ ground (arith, lookup-erase (s.skill_cooldown_event_id_map) other skill)
]

-- After any calls, the event that ends a skill's cooldown is that of the last beginning of this skill,
-- unless the cooldown ended since.
pub calls-event_after :
    (cs : List Call) (s : SkillEngine) (skill : ℕ)
    → get_skill_cooldown_end_event_id (calls cs s) skill
      ≡ event_after cs skill (get_skill_cooldown_end_event_id s skill)
calls-event_after [] s skill = refl
calls-event_after (begins other event_id ∷ cs) s skill =
    calls-event_after cs (skill_cooldown_begin s other event_id) skill
    ∙ ap (event_after cs skill) (after_begin s other event_id skill)
calls-event_after (ends other ∷ cs) s skill =
    calls-event_after cs (skill_cooldown_ended s other) skill
    ∙ ap (event_after cs skill) (after_end s other skill)

-- The event of every entry is in the broker's map.
abbrev pub Pending : List (ℕ × ℕ) → List (ℕ × ℕ) → Type 0
Pending m [] = Unit {0}
Pending m (entry ∷ entries) =
    ((timer_id : ℕ) × (lookup (entry.1) m ≡ some timer_id)) × Pending m entries

abbrev pub Absent : ℕ → List (ℕ × ℕ) → Type 0
Absent event_id [] = Unit {0}
Absent event_id (entry ∷ entries) = ((event_id == entry.1) ≡ false) × Absent event_id entries

-- No two entries have the same event.
abbrev pub Distinct : List (ℕ × ℕ) → Type 0
Distinct [] = Unit {0}
Distinct (entry ∷ entries) = Absent (entry.1) entries × Distinct entries

still-Pending :
    (m after : List (ℕ × ℕ)) (event_id : ℕ) (entries : List (ℕ × ℕ))
    → ((other : ℕ) → lookup other after ≡ (if event_id == other then none else lookup other m))
    → Absent event_id entries
    → Pending m entries
    → Pending after entries
still-Pending m after event_id [] kept absent pending = tt
still-Pending m after event_id (entry ∷ entries) kept absent pending = (
  ((pending.0).0, kept (entry.1) ∙ rw (absent.0) ((pending.0).1)),
  still-Pending m after event_id entries kept (absent.1) (pending.1),
)

module _ {B H : Type 0} (algorithms : HeapAlgorithms (Timer (Event B)) less) where
  one_more :
      (entry : ℕ × ℕ) (entries : List (ℕ × ℕ)) (broker left after : EventBroker B H)
      → cancel_delayed_event algorithms broker (entry.1) ≡ ok (left, true)
      → cancel_each algorithms entries left ≡ ok after
      → cancel_each algorithms (entry ∷ entries) broker ≡ ok after
  unfolding cancel_each
  one_more entry entries broker left after runs rest = rw (cancel_each, runs) rest

  cancel_each_succeeds :
      (n : ℕ) (entries : List (ℕ × ℕ)) (broker : EventBroker B H)
      → Consistent algorithms n broker
      → Pending (broker.timer_id_map) entries
      → Distinct entries
      → (after : EventBroker B H) × (cancel_each algorithms entries broker ≡ ok after)
        × Consistent algorithms n after
  unfolding cancel_each
  cancel_each_succeeds n [] broker c pending distinct = (broker, refl, c)
  cancel_each_succeeds n (entry ∷ entries) broker c pending distinct =
      elim (cancel_delayed_event_cancels algorithms n broker (entry.1) c) [
        | inl (missing, fails) ↦ absurd (ground (arith, missing, (pending.0).1))
        | inr (left, runs, still, kept) ↦
            let (after, rest, consistent) =
              cancel_each_succeeds n entries left still
                (still-Pending (broker.timer_id_map) (left.timer_id_map) (entry.1) entries kept
                  (distinct.0) (pending.1))
                (distinct.1) in
            (after, one_more entry entries broker left after runs rest, consistent)
      ]

  -- Where the broker is consistent and the cooldowns wait for different events that are pending in it,
  -- cancelling them all does not throw and leaves a consistent broker.
  pub cancel_events_succeeds :
      (n : ℕ) (s : SkillEngine) (broker : EventBroker B H)
      → Consistent algorithms n broker
      → Pending (broker.timer_id_map) (s.skill_cooldown_event_id_map)
      → Distinct (s.skill_cooldown_event_id_map)
      → (after : EventBroker B H) × (cancel_events algorithms s broker ≡ ok after)
        × Consistent algorithms n after
  unfolding cancel_events
  cancel_events_succeeds n s broker c pending distinct =
      cancel_each_succeeds n (s.skill_cooldown_event_id_map) broker c pending distinct
