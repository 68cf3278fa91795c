-- ===== src/StateMachine/ApplyStatPoints.antt =====
-- bot/src/state/machine/applyStatPoints.cpp: spends stat points, one request at a time. Whether the
-- broker finds the timer that the task cancels is an argument.
pub mod Points
mod Tests
use hyperbot.Prelude.{
  ℕ, ◌+◌, Bool, true, false, ◌&&◌, Option, none, some, List, [], ◌∷◌, ◌++◌, ◌==◌, ltb,
  if◌then◌else◌, length, Result, ok, err, ◌>>=◌,
}
use hyperbot.StateMachine.{Status, done, not_done}
use hyperbot.StateMachine.Tasks.{
  Event, stats_changed, timeout, Request, increase_int, increase_str, Output, inject, publish,
  cancel, Update,
}

-- StatPointType
pub data StatPointType : Type 0 where
  int_point str_point : StatPointType

pub data StatError : Type 0 where
  timer_not_cancelled : StatError

pub record ApplyStatPoints : Type 0 where
  pub initialized : Bool
  pub stat_point_types : List StatPointType
  pub last_int : Option ℕ
  pub last_str : Option ℕ
  pub timeout_event_id : Option ℕ

-- What an update reads of the character and of the broker.
pub record StatSeen : Type 0 where
  pub int_points : Option ℕ
  pub str_points : Option ℕ
  pub available_stat_points : ℕ
  pub cancels : Bool
  pub fresh : ℕ
  pub event : Option Event

unfoldable pub stat_task : List StatPointType → ApplyStatPoints
stat_task types = record {
  initialized = false;
  stat_point_types = types;
  last_int = none;
  last_str = none;
  timeout_event_id = none;
}

-- `std::reverse`, `back()` and `pop_back()`
abbrev pub reversed {ℓ} : {A : Type ℓ} → List A → List A
reversed [] = []
reversed (x ∷ xs) = reversed xs ++ x ∷ []

abbrev pub back {ℓ} : {A : Type ℓ} → List A → Option A
back [] = none
back (x ∷ []) = some x
back (x ∷ y ∷ ys) = back (y ∷ ys)

abbrev pub pop_back {ℓ} : {A : Type ℓ} → List A → List A
pop_back [] = []
pop_back (x ∷ []) = []
pop_back (x ∷ y ∷ ys) = x ∷ pop_back (y ∷ ys)

-- ApplyStatPoints::initialize, and the flag that it sets; too few points end the task.
unfoldable pub initialize_points : ApplyStatPoints → StatSeen → ApplyStatPoints × Bool
initialize_points m seen =
    if m.initialized
    then (m, false)
    else if ltb seen.available_stat_points (length m.stat_point_types)
    then (
      record m { initialized = true; last_int = seen.int_points; last_str = seen.str_points },
      true,
    )
    else (
      record m {
        initialized = true;
        last_int = seen.int_points;
        last_str = seen.str_points;
        stat_point_types = reversed m.stat_point_types;
      },
      false,
    )

-- ApplyStatPoints::success
abbrev pub succeed :
    Option ℕ → ApplyStatPoints → Bool → Result StatError (ApplyStatPoints × List Output)
succeed none m cancels = ok (m, [])
succeed (some id) m true = ok (record m { timeout_event_id = none }, cancel id ∷ [])
succeed (some id) m false = err timer_not_cancelled

-- One more point than before.
abbrev pub one_more : StatPointType → ℕ → ℕ → ℕ → ℕ → Bool
one_more int_point last_int last_str int str = int == last_int + 1
one_more str_point last_int last_str int str = str == last_str + 1

unfoldable pub gained :
    ApplyStatPoints → StatPointType → Bool → Bool → Result StatError (ApplyStatPoints × List Output)
gained m type more cancels =
    if more
    then succeed m.timeout_event_id (record m { stat_point_types = pop_back m.stat_point_types })
        cancels
    else ok (m, [])

-- The points are compared when both are known, now and before.
abbrev pub compare_points :
    Option StatPointType
    → Option ℕ
    → Option ℕ
    → Option ℕ
    → Option ℕ
    → ApplyStatPoints
    → Bool
    → Result StatError (ApplyStatPoints × List Output)
compare_points (some type) (some last_int) (some last_str) (some int) (some str) m cancels =
    gained m type (one_more type last_int last_str int str) cancels
compare_points _ _ _ _ _ m cancels = ok (m, [])

abbrev with_points : StatSeen → ApplyStatPoints × List Output → ApplyStatPoints × List Output
with_points seen (m, outputs) =
    (record m { last_int = seen.int_points; last_str = seen.str_points }, outputs)

unfoldable pub points_changed :
    ApplyStatPoints → StatSeen → Result StatError (ApplyStatPoints × List Output)
unfolding gained
points_changed m seen =
    compare_points (back m.stat_point_types) m.last_int m.last_str seen.int_points seen.str_points m
      seen.cancels
    >>= λ r. ok (with_points seen r)

abbrev is_timer : Option ℕ → ℕ → Bool
is_timer none id = false
is_timer (some own) id = id == own

unfoldable pub handle_points :
    ApplyStatPoints → StatSeen → Option Event → Result StatError (ApplyStatPoints × List Output)
unfolding points_changed
handle_points m seen (some stats_changed) = points_changed m seen
handle_points m seen (some (timeout id)) =
    ok (if is_timer m.timeout_event_id id then record m { timeout_event_id = none } else m, [])
handle_points m seen _ = ok (m, [])

abbrev pub point_request : StatPointType → Request
point_request int_point = increase_int
point_request str_point = increase_str

-- The rest of an update, by the running timer, the known points, the next point and the points left.
unfoldable pub conclude_points :
    Option ℕ
    → Option ℕ
    → Option ℕ
    → Option StatPointType
    → Bool
    → ApplyStatPoints
    → ℕ
    → List Output
    → ApplyStatPoints × List Output × Status
conclude_points (some id) last_int last_str type none_left m fresh outputs = (m, outputs, not_done)
conclude_points none none last_str type none_left m fresh outputs = (m, outputs, not_done)
conclude_points none (some i) none type none_left m fresh outputs = (m, outputs, not_done)
conclude_points none (some i) (some s) none none_left m fresh outputs = (m, outputs, done)
conclude_points none (some i) (some s) (some type) true m fresh outputs = (m, outputs, done)
conclude_points none (some i) (some s) (some type) false m fresh outputs = (
  record m { timeout_event_id = some fresh },
  outputs ++ inject (point_request type) ∷ publish 200 ∷ [],
  not_done,
)

abbrev concluded : StatSeen → ApplyStatPoints × List Output → ApplyStatPoints × List Output × Status
concluded seen (m, outputs) =
    conclude_points m.timeout_event_id m.last_int m.last_str (back m.stat_point_types)
      (ltb seen.available_stat_points 1) m seen.fresh outputs

abbrev unless_short : ApplyStatPoints × Bool → StatSeen → Update StatError ApplyStatPoints
unless_short (m, true) seen = ok (m, [], done)
unless_short (m, false) seen = handle_points m seen seen.event >>= λ r. ok (concluded seen r)

-- ApplyStatPoints::onUpdate
unfoldable pub on_update : ApplyStatPoints → StatSeen → Update StatError ApplyStatPoints
unfolding initialize_points handle_points conclude_points
on_update m seen = unless_short (initialize_points m seen) seen
