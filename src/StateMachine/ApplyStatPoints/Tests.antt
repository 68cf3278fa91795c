-- ===== src/StateMachine/ApplyStatPoints/Tests.antt =====
-- Stat points that are spent, and the theorem at three of them.
use hyperbot.Prelude.{◌≡◌, refl, true, some, List, [], ◌∷◌, ok}
use hyperbot.StateMachine.{done}
use hyperbot.StateMachine.Tasks.{stats_changed}
use hyperbot.StateMachine.ApplyStatPoints.{
  StatPointType, int_point, str_point, ApplyStatPoints, stat_task, on_update,
}
use hyperbot.StateMachine.ApplyStatPoints.Points.{seeing, spend, requests, spend-requests}

abbrev kinds : List StatPointType
kinds = int_point ∷ str_point ∷ str_point ∷ []

abbrev asked : ApplyStatPoints
asked = record (stat_task (int_point ∷ [])) {
  last_int = some 20;
  last_str = some 30;
  timeout_event_id = some 7;
}

-- Too few points: the task ends at once.
short_run :
    on_update (stat_task kinds) (seeing 20 30 2 7 (some stats_changed))
    ≡ ok (
      record (stat_task kinds) { initialized = true; last_int = some 20; last_str = some 30 },
      [],
      done,
    )
unfolding on_update stat_task
short_run = refl

spend_run :
    spend (stat_task (str_point ∷ [])) 20 30 4 7 (str_point ∷ [])
    ≡ ok (requests (str_point ∷ []) 7, done)
unfolding spend on_update stat_task
spend_run = refl

spend-requests_example : spend (stat_task kinds) 20 30 0 7 kinds ≡ ok (requests kinds 7, done)
spend-requests_example = spend-requests kinds 20 30 0 7
