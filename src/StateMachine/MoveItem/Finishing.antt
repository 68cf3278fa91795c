-- ===== src/StateMachine/MoveItem/Finishing.antt =====
-- When a move is done.
use hyperbot.Prelude.{
  ℕ, ◌≡◌, ◌↔◌, refl, sym, subst, ap, inl, inr, true, Option, none, some, List, [], ◌++◌, ◌==◌,
  ==_iff, leb, Bool-cases, ok, OnSuccess, OnSuccess->>=, OnSuccess-ok, arith,
}
use hyperbot.ItemList.{ItemList}
use hyperbot.StateMachine.{
  Status, done, not_done, Position, StorageKind, inventory, avatar_inventory, cos_inventory,
  storage, guild_storage, no_storage, same_kind, same_position,
}
use hyperbot.StateMachine.Tasks.{
  Event, item_moved, item_move_failed, item_use_success, timeout, Output, cancel_timer,
}
use hyperbot.StateMachine.MoveItem.{
  MoveItem, MoveError, is_timer, failed_too_often, timed_out_too_often, Handled, finish, proceed,
  moved, retry, send, handle, handle_event, initialize, request, conclude, on_update, max_attempts,
  without_timer, check_item, check_room, packet_for,
}
use hyperbot.StateMachine.MoveItem.Attempts.{Any, any}

same_kind_iff : (a b : StorageKind) → (same_kind a b ≡ true) ↔ (a ≡ b)
same_kind_iff inventory b = ground arith
same_kind_iff avatar_inventory b = ground arith
same_kind_iff cos_inventory b = ground arith
same_kind_iff storage b = ground arith
same_kind_iff guild_storage b = ground arith
same_kind_iff no_storage b = ground arith

pub same_position_iff : (a b : Position) → (same_position a b ≡ true) ↔ (a ≡ b)
same_position_iff a b = ground (arith, same_kind_iff a.kind b.kind)

-- The event that the task's item has arrived somewhere.
abbrev pub Arrives : Position → ℕ → Option Event → Type 0
Arrives source self event = (d : Position) × (event ≡ some (item_moved self (some source) (some d)))

abbrev Ends : Position → ℕ → Option Event → Handled MoveItem → Type 0
Ends source self event (finish m outputs) = Arrives source self event
Ends source self event (proceed m outputs) = Unit

abbrev DoneOn : Position → ℕ → Option Event → MoveItem × List Output × Status → Type 0
DoneOn source self event (m, outputs, done) = Arrives source self event
DoneOn source self event (m, outputs, not_done) = Unit

moved-Ends :
    (m : MoveItem) (self : ℕ) (from to : Option Position)
    → OnSuccess (Ends m.source self (some (item_moved self from to))) (moved m from to)
unfolding moved
moved-Ends m self none none = ground arith
moved-Ends m self none (some d) = elim (Bool-cases (same_position d m.destination)) [
  | inl taken ↦ rw (taken) tt
  | inr free ↦ rw (free) tt
]
moved-Ends m self (some s) none = elim (Bool-cases (same_position s m.source)) [
  | inl here ↦ rw (here) tt
  | inr away ↦ rw (away) tt
]
moved-Ends m self (some s) (some d) = elim (Bool-cases (same_position s m.source)) [
  | inl here ↦ rw (here) (
    d,
    ap (λ p. some (item_moved self (some p) (some d))) ((same_position_iff s m.source).0 here),
  )
  | inr away ↦ elim (Bool-cases (same_position d m.destination)) [
    | inl taken ↦ rw (away, taken) tt
    | inr free ↦ rw (away, free) tt
  ]
]

retry-Ends :
    (m : MoveItem) (error : MoveError) (outputs : List Output) (source : Position) (self : ℕ)
    (event : Option Event)
    → OnSuccess (Ends source self event) (retry m error outputs)
unfolding retry
retry-Ends m error outputs source self event =
    elim (Bool-cases (leb max_attempts m.attempt_count)) [
      | inl often ↦ rw (often) tt
      | inr again ↦ rw (again) tt
    ]

handle-Ends :
    (m : MoveItem) (self : ℕ) (event : Option Event)
    → OnSuccess (Ends m.source self event) (handle_event m self event)
unfolding handle
handle-Ends m self none = tt
handle-Ends m self (some (item_moved id from to)) = elim (Bool-cases (id == self)) [
  | inl own ↦ rw (own) (
      subst (λ n. OnSuccess (Ends m.source self (some (item_moved n from to))) (moved m from to))
        (sym ((==_iff id self).0 own)) (moved-Ends m self from to))
  | inr others ↦ rw (others) tt
]
handle-Ends m self (some (item_move_failed id code)) = elim (Bool-cases (id == self)) [
  | inl own ↦ rw (own) (
      retry-Ends m failed_too_often (cancel_timer m.timeout_event_id) m.source self
        (some (item_move_failed id code)))
  | inr others ↦ rw (others) tt
]
handle-Ends m self (some (timeout id)) = elim (Bool-cases (is_timer m.timeout_event_id id)) [
  | inl own ↦ rw (own) (retry-Ends m timed_out_too_often [] m.source self (some (timeout id)))
  | inr others ↦ rw (others) tt
]
handle-Ends m self (some (item_use_success id slot ref)) = tt
handle-Ends m self (some _) = tt

send-DoneOn :
    (m : MoveItem) (items : ItemList) (fresh : ℕ) (outputs : List Output) (source : Position)
    (self : ℕ) (event : Option Event)
    → OnSuccess (DoneOn source self event) (send m items fresh outputs)
unfolding send
send-DoneOn m items fresh outputs source self event =
    let W = DoneOn source self event in
    OnSuccess->>= Any W (check_item items m.source.slot_num) _ (any _) λ _ _.
      OnSuccess->>= Any W (check_room items m.source m.destination) _ (any _)
        λ _ _. OnSuccess->>= Any W (packet_for m.source m.destination) _ (any _) λ packet _. tt

request-DoneOn :
    (t : Option ℕ) (m : MoveItem) (items : ItemList) (fresh : ℕ) (outputs : List Output)
    (source : Position) (self : ℕ) (event : Option Event)
    → OnSuccess (DoneOn source self event) (request t m items fresh outputs)
unfolding request
request-DoneOn (some id) m items fresh outputs source self event = tt
request-DoneOn none m items fresh outputs source self event =
    send-DoneOn m items fresh outputs source self event

conclude-DoneOn :
    (h : Handled MoveItem) (items : ItemList) (fresh : ℕ) (blocked : List Output)
    (source : Position) (self : ℕ) (event : Option Event)
    → Ends source self event h
    → OnSuccess (DoneOn source self event) (conclude h items fresh blocked)
unfolding conclude
conclude-DoneOn (finish m outputs) items fresh blocked source self event a = a
conclude-DoneOn (proceed m outputs) items fresh blocked source self event a =
    request-DoneOn m.timeout_event_id m items fresh (blocked ++ outputs) source self event

initialize-source : (m : MoveItem) → (initialize m).0.source ≡ m.source
unfolding initialize
initialize-source m = elim (Bool-cases m.initialized) [
  | inl before ↦ rw (before) refl
  | inr first ↦ rw (first) refl
]

on_update-DoneOn :
    (m : MoveItem) (self : ℕ) (items : ItemList) (fresh : ℕ) (event : Option Event)
    → OnSuccess (DoneOn m.source self event) (on_update m self items fresh event)
unfolding on_update
on_update-DoneOn m self items fresh event =
    let ready = (initialize m).0 in
    OnSuccess->>= (Ends m.source self event) (DoneOn m.source self event)
      (handle_event ready self event) _
      (subst (λ s. OnSuccess (Ends s self event) (handle_event ready self event))
        (initialize-source m) (handle-Ends ready self event))
      λ h a. conclude-DoneOn h items fresh (initialize m).1 m.source self event a

arrives_done :
    (m : MoveItem) (self : ℕ) (items : ItemList) (fresh : ℕ) (d : Position)
    → (r : MoveItem × List Output) × (on_update m self items fresh
          (some (item_moved self (some m.source) (some d)))
        ≡ ok (r.0, r.1, done))
unfolding on_update handle moved conclude
arrives_done m self items fresh d =
    let ready = (initialize m).0 in
    let own : (self == self) ≡ true = ground arith in
    let here : same_position m.source ready.source ≡ true =
      (same_position_iff m.source ready.source).1 (sym (initialize-source m)) in
    (
      (without_timer ready, (initialize m).1 ++ cancel_timer ready.timeout_event_id),
      rw (own) (rw (here) refl),
    )

-- A task that moves an item is done exactly when the event says that the character's own item has
-- moved away from the source to some place, be it the destination or not.
pub on_update-Arrives :
    (m : MoveItem) (self : ℕ) (items : ItemList) (fresh : ℕ) (event : Option Event)
    → ((r : MoveItem × List Output) × (on_update m self items fresh event ≡ ok (r.0, r.1, done)))
      ↔ Arrives m.source self event
on_update-Arrives m self items fresh event = (
  λ ((m', outputs), runs).
      OnSuccess-ok (DoneOn m.source self event) (on_update m self items fresh event)
        (m', outputs, done) runs (on_update-DoneOn m self items fresh event),
  λ (d, e).
      subst
        (λ v. (r : MoveItem × List Output) × (on_update m self items fresh v ≡ ok (r.0, r.1, done)))
        (sym e) (arrives_done m self items fresh d),
)
