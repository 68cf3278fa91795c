-- ===== src/StateMachine/MoveItem/Waiting.antt =====
-- A move does not wait for ever.
use hyperbot.Prelude.{
  ℕ, zero, suc, ◌+◌, ◌<◌, ◌≡◌, refl, subst, ap, ◌∙◌, inl, inr, true, Option, none, some, List, [],
  ◌++◌, leb, Bool-cases, Result, ok, err, ◌>>=◌, OnSuccess, OnSuccess->>=, OnSuccess-mono, arith,
}
use hyperbot.ItemList.{ItemList}
use hyperbot.StateMachine.{Status, done, not_done}
use hyperbot.StateMachine.Tasks.{Event, timeout, Output}
use hyperbot.StateMachine.MoveItem.{
  MoveItem, MoveError, max_attempts, is_timer, timed_out_too_often, retry, send, handle,
  handle_event, initialize, request, conclude, on_update, check_item, check_room, packet_for,
  without_timer,
}
use hyperbot.StateMachine.MoveItem.Attempts.{Any, any, initialize_kept}

-- The answer never comes: each update after the first is woken by the task's own timer.
abbrev own_timer : Option ℕ → Option Event
own_timer none = none
own_timer (some id) = some (timeout id)

abbrev again :
    Result MoveError (MoveItem × List Output × Status)
    → (MoveItem → Result MoveError MoveItem)
    → Result MoveError MoveItem
again (err e) later = err e
again (ok (m, outputs, done)) later = ok m
again (ok (m, outputs, not_done)) later = later m

pub unanswered : ℕ → MoveItem → ℕ → (ℕ → ItemList) → ℕ → Result MoveError MoveItem
unanswered zero m self items fresh = ok m
unanswered (suc rounds) m self items fresh =
    again (on_update m self (items fresh) fresh (own_timer m.timeout_event_id))
      (λ m'. unanswered rounds m' self items (fresh + 1))

-- After an update that the task's own timer wakes, one request more is out, or the task has thrown.
abbrev Waiting : ℕ → MoveItem × List Output × Status → Type 0
Waiting n (m, outputs, done) = ⊥
Waiting n (m, outputs, not_done) = (m.attempt_count ≡ n) × (id : ℕ) × (m.timeout_event_id ≡ some id)

send-Waiting :
    (m : MoveItem) (items : ItemList) (fresh : ℕ) (outputs : List Output)
    → OnSuccess (Waiting (m.attempt_count + 1)) (send m items fresh outputs)
unfolding send
send-Waiting m items fresh outputs =
    let W = Waiting (m.attempt_count + 1) in
    OnSuccess->>= Any W (check_item items m.source.slot_num) _ (any _) λ _ _.
      OnSuccess->>= Any W (check_room items m.source m.destination) _ (any _) λ _ _.
        OnSuccess->>= Any W (packet_for m.source m.destination) _ (any _)
          λ packet _. (refl, fresh, refl)

is_timer_self : (t : Option ℕ) (id : ℕ) → t ≡ some id → is_timer t id ≡ true
is_timer_self t id e = ap (λ u. is_timer u id) e ∙ ground arith

expires :
    (m : MoveItem) (self id : ℕ)
    → m.timeout_event_id ≡ some id
    → handle_event m self (some (timeout id)) ≡ retry m timed_out_too_often []
unfolding handle
expires m self id running = rw (is_timer_self m.timeout_event_id id running) refl

-- One request more, and fewer than three before it.
abbrev OneMore : ℕ → MoveItem × List Output × Status → Type 0
OneMore n r = (n < max_attempts) × Waiting (n + 1) r

retry-OneMore :
    (m : MoveItem) (items : ItemList) (fresh : ℕ) (blocked : List Output)
    → OnSuccess
        (OneMore m.attempt_count)
        (retry m timed_out_too_often [] >>= λ h. conclude h items fresh blocked)
unfolding retry conclude request
retry-OneMore m items fresh blocked = elim (Bool-cases (leb max_attempts m.attempt_count)) [
  | inl often ↦ rw (often) tt
  | inr again ↦ rw (again) (
      OnSuccess-mono (Waiting (m.attempt_count + 1)) (OneMore m.attempt_count)
        (send (without_timer m) items fresh (blocked ++ [])) (λ r w. (ground arith, w))
        (send-Waiting (without_timer m) items fresh (blocked ++ [])))
]

timed_out :
    (m : MoveItem) (self : ℕ) (items : ItemList) (fresh id : ℕ)
    → m.timeout_event_id ≡ some id
    → OnSuccess (OneMore m.attempt_count) (on_update m self items fresh (some (timeout id)))
unfolding on_update
timed_out m self items fresh id running =
    let (timer, count, quiet) = initialize_kept m in
    let ready = (initialize m).0 in
    rw (expires ready self id (timer ∙ running)) (
      subst
        (λ n.
          OnSuccess (OneMore n)
            (retry ready timed_out_too_often [] >>= λ h. conclude h items fresh (initialize m).1))
        count (retry-OneMore ready items fresh (initialize m).1))
