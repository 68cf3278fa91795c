-- ===== src/StateMachine/ApplyStatPoints/Points.antt =====
-- What a task spends when the server grants every point.
use hyperbot.Prelude.{
  ℕ, ◌+◌, ◌≡◌, refl, ap, ◌∙◌, true, false, Option, none, some, List, [], ◌∷◌, ◌++◌, ltb, length,
  Result, ok, ◌>>=◌, arith,
}
use hyperbot.StateMachine.{Status, done, not_done}
use hyperbot.StateMachine.Tasks.{Event, stats_changed, Output, inject, publish, cancel}
use hyperbot.StateMachine.ApplyStatPoints.{
  StatPointType, int_point, str_point, StatError, ApplyStatPoints, StatSeen, stat_task, reversed,
  back, pop_back, point_request, initialize_points, one_more, gained, points_changed, handle_points,
  conclude_points, concluded, unless_short, on_update,
}

-- The points of a kind that a granted request adds.
abbrev pub int_gain : StatPointType → ℕ
int_gain int_point = 1
int_gain str_point = 0

abbrev pub str_gain : StatPointType → ℕ
str_gain int_point = 0
str_gain str_point = 1

abbrev pub seeing : ℕ → ℕ → ℕ → ℕ → Option Event → StatSeen
seeing i s available fresh event = record {
  int_points = some i;
  str_points = some s;
  available_stat_points = available;
  cancels = true;
  fresh = fresh;
  event = event;
}

-- The server grants points of these kinds, each of which wakes the task; `spare` points are left over.
unfoldable pub granted :
    ApplyStatPoints → ℕ → ℕ → ℕ → ℕ → List StatPointType → Result StatError (List Output × Status)
granted m i s spare fresh [] = ok ([], not_done)
granted m i s spare fresh (k ∷ kinds) =
    on_update m
      (seeing (i + int_gain k) (s + str_gain k) (spare + length kinds) fresh (some stats_changed))
    >>= λ (m', outputs, status). elim status [
      | done ↦ ok (outputs, done)
      | not_done ↦
          granted m' (i + int_gain k) (s + str_gain k) spare (fresh + 1) kinds >>= λ (rest, last).
          ok (outputs ++ rest, last)
    ]

-- The first update, and then the granted points.
unfoldable pub spend :
    ApplyStatPoints → ℕ → ℕ → ℕ → ℕ → List StatPointType → Result StatError (List Output × Status)
unfolding granted
spend m i s spare fresh kinds =
    on_update m (seeing i s (spare + length kinds) fresh none) >>= λ (m', outputs, status).
    elim status [
      | done ↦ ok (outputs, done)
      | not_done ↦
          granted m' i s spare (fresh + 1) kinds >>= λ (rest, last). ok (outputs ++ rest, last)
    ]

-- The requests in order, each with its timer, and the timers cancelled.
abbrev pub requests : List StatPointType → ℕ → List Output
requests [] fresh = []
requests (k ∷ kinds) fresh =
    inject (point_request k) ∷ publish 200 ∷ cancel fresh ∷ requests kinds (fresh + 1)

back-append : (xs : List StatPointType) (k : StatPointType) → back (xs ++ k ∷ []) ≡ some k
back-append [] k = refl
back-append (x ∷ []) k = refl
back-append (x ∷ y ∷ ys) k = back-append (y ∷ ys) k

pop_back-append : (xs : List StatPointType) (k : StatPointType) → pop_back (xs ++ k ∷ []) ≡ xs
pop_back-append [] k = refl
pop_back-append (x ∷ []) k = refl
pop_back-append (x ∷ y ∷ ys) k = ap (λ l. x ∷ l) (pop_back-append (y ∷ ys) k)

-- The task with these kinds still to be granted.
abbrev applying : List StatPointType → ℕ → ℕ → Option ℕ → ApplyStatPoints
applying kinds i s timer = record {
  initialized = true;
  stat_point_types = reversed kinds;
  last_int = some i;
  last_str = some s;
  timeout_event_id = timer;
}

one_more-gain :
    (k : StatPointType) (i s : ℕ) → one_more k i s (i + int_gain k) (s + str_gain k) ≡ true
one_more-gain int_point i s = ground arith
one_more-gain str_point i s = ground arith

-- A granted point takes its kind off the list.
gain :
    (k : StatPointType) (kinds : List StatPointType) (i s available id fresh : ℕ)
    → points_changed
        (applying (k ∷ kinds) i s (some id))
        (seeing (i + int_gain k) (s + str_gain k) available fresh (some stats_changed))
      ≡ ok (applying kinds (i + int_gain k) (s + str_gain k) none, cancel id ∷ [])
unfolding points_changed gained
gain k kinds i s available id fresh = rw (back-append (reversed kinds) k) (
    rw (one_more-gain k i s) (
      ap
        (λ l. ok (
          record (applying [] (i + int_gain k) (s + str_gain k) none) { stat_point_types = l },
          cancel id ∷ [],
        ))
        (pop_back-append (reversed kinds) k)))

step :
    (k : StatPointType) (kinds : List StatPointType) (i s available id fresh : ℕ)
    → on_update
        (applying (k ∷ kinds) i s (some id))
        (seeing (i + int_gain k) (s + str_gain k) available fresh (some stats_changed))
      ≡ ok (
          concluded
            (seeing (i + int_gain k) (s + str_gain k) available fresh (some stats_changed))
            (applying kinds (i + int_gain k) (s + str_gain k) none, cancel id ∷ []))
unfolding on_update initialize_points handle_points
step k kinds i s available id fresh =
    ap
      (λ r. r >>= λ x. ok (
        concluded (seeing (i + int_gain k) (s + str_gain k) available fresh (some stats_changed))
          x))
      (gain k kinds i s available id fresh)

-- A point is left for the next kind.
next_request :
    (k : StatPointType) (kinds : List StatPointType) (i s spare fresh : ℕ) (event : Option Event)
    (outputs : List Output)
    → concluded
        (seeing i s (spare + length (k ∷ kinds)) fresh event)
        (applying (k ∷ kinds) i s none, outputs)
      ≡ (
        applying (k ∷ kinds) i s (some fresh),
        outputs ++ inject (point_request k) ∷ publish 200 ∷ [],
        not_done,
      )
unfolding conclude_points
next_request k kinds i s spare fresh event outputs =
    let left : ltb (spare + length (k ∷ kinds)) 1 ≡ false = ground arith in
    rw (back-append (reversed kinds) k, left) refl

abbrev further :
    ℕ
    → ℕ
    → ℕ
    → ℕ
    → List StatPointType
    → ApplyStatPoints × List Output × Status
    → Result StatError (List Output × Status)
further i s spare fresh kinds (m', outputs, status) = elim status [
  | done ↦ ok (outputs, done)
  | not_done ↦ granted m' i s spare fresh kinds >>= λ (rest, last). ok (outputs ++ rest, last)
]

granted-requests :
    (kinds : List StatPointType) (k : StatPointType) (i s spare id fresh : ℕ)
    → granted (applying (k ∷ kinds) i s (some id)) i s spare fresh (k ∷ kinds)
      ≡ ok (cancel id ∷ requests kinds fresh, done)
unfolding granted
granted-requests [] k i s spare id fresh =
    ap (λ r. r >>= λ x. further (i + int_gain k) (s + str_gain k) spare (fresh + 1) [] x)
      (step k [] i s (spare + 0) id fresh)
    ∙ (unfold conclude_points in refl)
granted-requests (next ∷ kinds) k i s spare id fresh =
    ap
      (λ r. r >>= λ x. further (i + int_gain k) (s + str_gain k) spare (fresh + 1) (next ∷ kinds) x)
      (step k (next ∷ kinds) i s (spare + length (next ∷ kinds)) id fresh
        ∙ ap (λ x. ok x)
            (next_request next kinds (i + int_gain k) (s + str_gain k) spare fresh
              (some stats_changed) (cancel id ∷ [])))
    ∙ ap
        (λ r. r >>= λ (rest, last).
          ok (cancel id ∷ inject (point_request next) ∷ publish 200 ∷ rest, last))
        (granted-requests kinds next (i + int_gain k) (s + str_gain k) spare fresh (fresh + 1))

started :
    (kinds : List StatPointType) (i s spare fresh : ℕ)
    → initialize_points (stat_task kinds) (seeing i s (spare + length kinds) fresh none)
      ≡ (applying kinds i s none, false)
unfolding initialize_points stat_task
started kinds i s spare fresh =
    let enough : ltb (spare + length kinds) (length kinds) ≡ false = ground arith in
    rw (enough) refl

first_update :
    (kinds : List StatPointType) (i s spare fresh : ℕ)
    → on_update (stat_task kinds) (seeing i s (spare + length kinds) fresh none)
      ≡ ok (concluded (seeing i s (spare + length kinds) fresh none) (applying kinds i s none, []))
unfolding on_update handle_points
first_update kinds i s spare fresh =
    ap (λ x. unless_short x (seeing i s (spare + length kinds) fresh none))
      (started kinds i s spare fresh)

-- A task that applies stat points, with enough of them, whose points are known and whose requests the
-- server grants one by one, sends one request for each of its points, in the order given, each with a
-- timer that it cancels when the point is granted, and is done after the last.
pub spend-requests :
    (kinds : List StatPointType) (i s spare fresh : ℕ)
    → spend (stat_task kinds) i s spare fresh kinds ≡ ok (requests kinds fresh, done)
unfolding spend
spend-requests [] i s spare fresh =
    ap (λ r. r >>= λ x. further i s spare (fresh + 1) [] x) (first_update [] i s spare fresh)
    ∙ (unfold conclude_points in refl)
spend-requests (k ∷ kinds) i s spare fresh =
    ap (λ r. r >>= λ x. further i s spare (fresh + 1) (k ∷ kinds) x)
      (first_update (k ∷ kinds) i s spare fresh
        ∙ ap (λ x. ok x) (next_request k kinds i s spare fresh none []))
    ∙ ap (λ r. r >>= λ (rest, last). ok (inject (point_request k) ∷ publish 200 ∷ rest, last))
        (granted-requests kinds k i s spare fresh (fresh + 1))
