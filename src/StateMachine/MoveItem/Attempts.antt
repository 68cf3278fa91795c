-- ===== src/StateMachine/MoveItem/Attempts.antt =====
-- How many requests a move makes, and that it does not wait for ever.
use hyperbot.Prelude.{
  ℕ, ◌+◌, ◌≤◌, ◌<◌, ◌≡◌, refl, inl, inr, Option, none, some, List, [], ◌∷◌, ◌++◌, ◌==◌, leb,
  Bool-cases, Result, ok, err, OnSuccess, OnSuccess->>=, OnSuccess-mono, arith,
}
use hyperbot.ItemList.{ItemList}
use hyperbot.StateMachine.{Status, done, not_done, Position}
use hyperbot.StateMachine.Tasks.{
  Event, item_moved, item_move_failed, item_use_success, timeout, Output, inject, publish,
  cancel_timer, injections,
}
use hyperbot.StateMachine.MoveItem.{
  MoveItem, MoveError, move_task, max_attempts, is_at, is_timer, failed_too_often,
  timed_out_too_often, Handled, finish, proceed, moved, retry, send, handle, handle_event,
  initialize, request, conclude, on_update, check_item, check_room, packet_for,
}

-- A request can be made only while fewer than three have been.
abbrev pub Bounded : Option ℕ → ℕ → Type 0
Bounded none n = n < max_attempts
Bounded (some id) n = n ≤ max_attempts

-- What the first part of an update does to the count of requests.
abbrev Counts : MoveItem → Handled MoveItem → Type 0
Counts m (finish m' outputs) = (injections outputs ≡ 0) × (m'.attempt_count ≡ m.attempt_count)
Counts m (proceed m' outputs) =
    (injections outputs ≡ 0)
    × (m'.attempt_count ≡ m.attempt_count)
    × Bounded m'.timeout_event_id m'.attempt_count

-- What an update does: it counts the requests that it makes, and leaves room for the next.
abbrev Leaves : Status → MoveItem → Type 0
Leaves done m = m.attempt_count ≤ max_attempts
Leaves not_done m = Bounded m.timeout_event_id m.attempt_count

abbrev pub Counted : MoveItem → MoveItem × List Output × Status → Type 0
Counted m (m', outputs, status) =
    (injections outputs + m.attempt_count ≡ m'.attempt_count) × Leaves status m'

pub injections-cancel_timer : (t : Option ℕ) → injections (cancel_timer t) ≡ 0
injections-cancel_timer none = refl
injections-cancel_timer (some id) = refl

pub injections-append :
    (xs ys : List Output) → injections (xs ++ ys) ≡ injections xs + injections ys
injections-append [] ys = omega arith
injections-append (inject r ∷ xs) ys = omega (arith, injections-append xs ys)
injections-append (x ∷ xs) ys = injections-append xs ys

moved-Counts :
    (m : MoveItem) (source destination : Option Position)
    → Bounded m.timeout_event_id m.attempt_count
    → OnSuccess (Counts m) (moved m source destination)
unfolding moved
moved-Counts m source none b = elim (Bool-cases (is_at source m.source)) [
  | inl here ↦ rw (here) tt
  | inr away ↦ rw (away) (refl, refl, b)
]
moved-Counts m source (some d) b = elim (Bool-cases (is_at source m.source)) [
  | inl here ↦ rw (here) (injections-cancel_timer m.timeout_event_id, refl)
  | inr away ↦ elim (Bool-cases (is_at (some d) m.destination)) [
    | inl taken ↦ rw (away, taken) tt
    | inr free ↦ rw (away, free) (refl, refl, b)
  ]
]

retry-Counts :
    (m : MoveItem) (error : MoveError) (outputs : List Output)
    → injections outputs ≡ 0
    → OnSuccess (Counts m) (retry m error outputs)
unfolding retry
retry-Counts m error outputs quiet = elim (Bool-cases (leb max_attempts m.attempt_count)) [
  | inl often ↦ rw (often) tt
  | inr again ↦ rw (again) (quiet, refl, ground arith)
]

handle-Counts :
    (m : MoveItem) (self : ℕ) (event : Option Event)
    → Bounded m.timeout_event_id m.attempt_count
    → OnSuccess (Counts m) (handle_event m self event)
unfolding handle
handle-Counts m self none b = (refl, refl, b)
handle-Counts m self (some (item_moved id source destination)) b = elim (Bool-cases (id == self)) [
  | inl own ↦ rw (own) (moved-Counts m source destination b)
  | inr others ↦ rw (others) (refl, refl, b)
]
handle-Counts m self (some (item_move_failed id code)) b = elim (Bool-cases (id == self)) [
  | inl own ↦ rw (own) (
      retry-Counts m failed_too_often (cancel_timer m.timeout_event_id)
        (injections-cancel_timer m.timeout_event_id))
  | inr others ↦ rw (others) (refl, refl, b)
]
handle-Counts m self (some (timeout id)) b = elim (Bool-cases (is_timer m.timeout_event_id id)) [
  | inl own ↦ rw (own) (retry-Counts m timed_out_too_often [] refl)
  | inr others ↦ rw (others) (refl, refl, b)
]
handle-Counts m self (some (item_use_success id slot ref)) b = (refl, refl, b)
handle-Counts m self (some _) b = (refl, refl, b)

abbrev pub Any {ℓ} : {A : Type ℓ} → A → Type 0
Any a = Unit

pub any {ℓ} : {E : Type 0} {A : Type ℓ} (r : Result E A) → OnSuccess Any r
any (ok a) = tt
any (err e) = tt

send-Counted :
    (m : MoveItem) (items : ItemList) (fresh : ℕ) (outputs : List Output)
    → injections outputs ≡ 0
    → m.attempt_count < max_attempts
    → OnSuccess (Counted m) (send m items fresh outputs)
unfolding send
send-Counted m items fresh outputs quiet lt =
    OnSuccess->>= Any (Counted m) (check_item items m.source.slot_num) _ (any _) λ _ _.
      OnSuccess->>= Any (Counted m) (check_room items m.source m.destination) _ (any _) λ _ _.
        OnSuccess->>= Any (Counted m) (packet_for m.source m.destination) _ (any _) λ packet _. (
          omega (arith, injections-append outputs (inject packet ∷ publish 1000 ∷ []), quiet),
          omega arith,
        )

request-Counted :
    (t : Option ℕ) (m : MoveItem) (items : ItemList) (fresh : ℕ) (outputs : List Output)
    → injections outputs ≡ 0
    → m.timeout_event_id ≡ t
    → Bounded t m.attempt_count
    → OnSuccess (Counted m) (request t m items fresh outputs)
unfolding request
request-Counted (some id) m items fresh outputs quiet e b = (omega (arith, quiet), rw (e) b)
request-Counted none m items fresh outputs quiet e b = send-Counted m items fresh outputs quiet b

pub initialize_kept :
    (m : MoveItem)
    → ((initialize m).0.timeout_event_id ≡ m.timeout_event_id)
      × ((initialize m).0.attempt_count ≡ m.attempt_count)
      × (injections (initialize m).1 ≡ 0)
unfolding initialize
initialize_kept m = elim (Bool-cases m.initialized) [
  | inl before ↦ rw (before) (refl, refl, refl)
  | inr first ↦ rw (first) (refl, refl, refl)
]

Bounded-le : (t : Option ℕ) (n : ℕ) → Bounded t n → n ≤ max_attempts
Bounded-le none n b = omega arith
Bounded-le (some id) n b = b

conclude-Counted :
    (m ready : MoveItem) (h : Handled MoveItem) (items : ItemList) (fresh : ℕ)
    (blocked : List Output)
    → ready.attempt_count ≡ m.attempt_count
    → injections blocked ≡ 0
    → m.attempt_count ≤ max_attempts
    → Counts ready h
    → OnSuccess (Counted m) (conclude h items fresh blocked)
unfolding conclude
conclude-Counted m ready (finish m' outputs) items fresh blocked same quiet le c =
    (omega (arith, injections-append blocked outputs, c.0, c.1), omega (arith, c.1))
conclude-Counted m ready (proceed m' outputs) items fresh blocked same quiet le c =
    OnSuccess-mono (Counted m') (Counted m)
      (request m'.timeout_event_id m' items fresh (blocked ++ outputs))
      (λ r k. (omega (arith, k.0, c.1), k.1))
      (request-Counted m'.timeout_event_id m' items fresh (blocked ++ outputs)
        (omega (arith, injections-append blocked outputs, c.0)) refl c.2)

-- An update never makes a fourth request.
pub on_update-Counted :
    (m : MoveItem) (self : ℕ) (items : ItemList) (fresh : ℕ) (event : Option Event)
    → Bounded m.timeout_event_id m.attempt_count
    → OnSuccess (Counted m) (on_update m self items fresh event)
unfolding on_update
on_update-Counted m self items fresh event b =
    let (timer, count, quiet) = initialize_kept m in
    let ready = (initialize m).0 in
    OnSuccess->>= (Counts ready) (Counted m) (handle_event ready self event) _
      (handle-Counts ready self event (rw (timer, count) b))
      λ h c.
        conclude-Counted m ready h items fresh (initialize m).1 count quiet
          (Bounded-le m.timeout_event_id m.attempt_count b) c

-- What a task meets at an update: the inventory, the id of the next delayed event, and the event.
abbrev pub Step : Type 0
Step = ItemList × ℕ × Option Event

abbrev so_far : Result MoveError (MoveItem × List Output × Status) → (MoveItem → ℕ) → ℕ
so_far (err e) later = 0
so_far (ok (m, outputs, done)) later = injections outputs
so_far (ok (m, outputs, not_done)) later = injections outputs + later m

-- The requests of a task over its life: it ends when it is done, or throws.
abbrev pub requests_made : MoveItem → ℕ → List Step → ℕ
requests_made m self [] = 0
requests_made m self ((items, fresh, event) ∷ steps) =
    so_far (on_update m self items fresh event) (λ m'. requests_made m' self steps)

so_far-le :
    (m : MoveItem) (r : Result MoveError (MoveItem × List Output × Status)) (later : MoveItem → ℕ)
    → OnSuccess (Counted m) r
    → m.attempt_count ≤ max_attempts
    → ((m' : MoveItem)
        → Bounded m'.timeout_event_id m'.attempt_count
        → later m' + m'.attempt_count ≤ max_attempts)
    → so_far r later + m.attempt_count ≤ max_attempts
so_far-le m (err e) later c le k = omega arith
so_far-le m (ok (m', outputs, done)) later c le k = omega (arith, c.0, c.1)
so_far-le m (ok (m', outputs, not_done)) later c le k = omega (arith, c.0, k m' c.1)

requests-Bounded :
    (m : MoveItem) (self : ℕ) (steps : List Step)
    → Bounded m.timeout_event_id m.attempt_count
    → requests_made m self steps + m.attempt_count ≤ max_attempts
requests-Bounded m self [] b = omega (arith, Bounded-le m.timeout_event_id m.attempt_count b)
requests-Bounded m self ((items, fresh, event) ∷ steps) b =
    so_far-le m (on_update m self items fresh event) (λ m'. requests_made m' self steps)
      (on_update-Counted m self items fresh event b)
      (Bounded-le m.timeout_event_id m.attempt_count b) (λ m' b'. requests-Bounded m' self steps b')

-- Whatever events come, in any order, a task that moves an item sends at most three requests to the
-- server before it is done or throws.
pub move_task-requests :
    (source destination : Position) (self : ℕ) (steps : List Step)
    → requests_made (move_task source destination) self steps ≤ max_attempts
unfolding move_task
move_task-requests source destination self steps =
    omega (arith, requests-Bounded (move_task source destination) self steps (omega arith))
