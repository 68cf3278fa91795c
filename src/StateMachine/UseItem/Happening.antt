-- ===== src/StateMachine/UseItem/Happening.antt =====
-- What an event does to a task that uses an item.
use hyperbot.Prelude.{
  ℕ, ◌≡◌, refl, sym, inl, inr, Bool, true, false, ◌&&◌, not, Option, none, some, List, [], ◌∷◌,
  ◌==◌, if◌then◌else◌, Bool-cases, ok, OnSuccess, OnSuccess->>=,
}
use hyperbot.ItemList.{ItemList}
use hyperbot.StateMachine.{Position, inventory, same_kind}
use hyperbot.StateMachine.Tasks.{
  Event, item_moved, item_use_success, item_use_failed, timeout, Request, Output, inject,
}
use hyperbot.StateMachine.MoveItem.Attempts.{Any, any}
use hyperbot.StateMachine.UseItem.{
  UseItem, HandledUse, stop, go_on, item_in, final_reason, use_failed, is_at, looks_good, followed,
  use_succeeded, handle_use,
}

-- The requests among what an update puts out.
abbrev pub requests_of : List Output → List Request
requests_of [] = []
requests_of (inject r ∷ rest) = r ∷ requests_of rest
requests_of (o ∷ rest) = requests_of rest

-- The slot of an item that is moved out of a slot; an item that is moved to nowhere has no other one.
abbrev pub moved_to : ℕ → Option Position → ℕ
moved_to slot none = slot
moved_to slot (some d) = d.slot_num

-- Where an item of ours is after an event: a move of it takes it along, and a move of another item of
-- the inventory onto its slot swaps it to where that one was. (The task throws when it leaves the
-- inventory.)
abbrev pub swapped_to : ℕ → Option Position → ℕ
swapped_to slot none = slot
swapped_to slot (some s) = if same_kind s.kind inventory then s.slot_num else slot

abbrev pub carried : ℕ → ℕ → Option Event → ℕ
carried self slot (some (item_moved id source destination)) =
    if id == self
    then (if is_at (some slot) source
        then moved_to slot destination
        else if is_at (some slot) destination
        then swapped_to slot source
        else slot)
    else slot
carried self slot _ = slot

-- Whether another item of the inventory is moved onto the slot.
abbrev pub from_another : ℕ → Option Position → Bool
from_another slot none = false
from_another slot (some s) = if same_kind s.kind inventory then not (s.slot_num == slot) else false

abbrev pub ousted : ℕ → ℕ → Option Event → Bool
ousted self slot (some (item_moved id source destination)) =
    id == self && is_at (some slot) destination && from_another slot source
ousted self slot _ = false

-- Where the task takes its item to be.
abbrev pub follow : ℕ → ℕ → Option Event → ℕ
follow self slot (some (item_moved id source destination)) =
    if id == self && is_at (some slot) source then moved_to slot destination else slot
follow self slot _ = slot

if_false : (b : Bool) (x : ℕ) → (if b then x else x) ≡ x
if_false true x = refl
if_false false x = refl

last_false : (a b c : Bool) → a ≡ true → (a && b && c) ≡ false → (if b then c else false) ≡ false
last_false true true c e h = h
last_false true false c e h = refl
last_false false b c e h = absurd (cc)

follow_move :
    (slot from : ℕ) (inside ours to_slot : Bool) (d : Option Position)
    → (if to_slot then (if inside then not ours else false) else false) ≡ false
    → (if inside && ours then moved_to slot d else slot) ≡ (
        if inside && ours
        then moved_to slot d
        else if to_slot
        then (if inside then from else slot)
        else slot)
follow_move slot from true true to_slot d h = refl
follow_move slot from true false true d h = absurd (cc)
follow_move slot from true false false d h = refl
follow_move slot from false ours to_slot d h = sym (if_false to_slot slot)

-- As long as no other item is moved onto the slot, the task knows where its item is.
pub follow-carried :
    (self slot : ℕ) (event : Option Event)
    → ousted self slot event ≡ false
    → follow self slot event ≡ carried self slot event
follow-carried self slot (some (item_moved id none d)) h = elim (Bool-cases (id == self)) [
  | inl own ↦ rw (own) (sym (if_false (is_at (some slot) d) slot))
  | inr other ↦ rw (other) refl
]
follow-carried self slot (some (item_moved id (some s) d)) h = elim (Bool-cases (id == self)) [
  | inl own ↦ rw (own) (
      follow_move slot s.slot_num (same_kind s.kind inventory) (s.slot_num == slot)
        (is_at (some slot) d) d (last_false (id == self) _ _ own h))
  | inr other ↦ rw (other) refl
]
follow-carried self slot _ h = refl

module _ (ref type quantity : ℕ) where
  abbrev pub using : ℕ → Option ℕ → UseItem
  using slot timer = record {
    initialized = true;
    inventory_index = some slot;
    item_ref_id = some ref;
    item_type_id = type;
    last_known_quantity = quantity;
    timeout_event_id = timer;
  }

  abbrev pub Stands : ℕ → UseItem → Type 0
  Stands slot m = (timer : Option ℕ) × (m ≡ using slot timer)

  abbrev pub Turns : ℕ → HandledUse → Type 0
  Turns slot (stop m outputs status) = Stands slot m × (requests_of outputs ≡ [])
  Turns slot (go_on m outputs) = Stands slot m × (requests_of outputs ≡ [])

  use_failed-Turns :
      (slot reason : ℕ) (timer : Option ℕ) → Turns slot (use_failed timer (using slot timer) reason)
  unfolding use_failed
  use_failed-Turns slot reason none = ((none, refl), refl)
  use_failed-Turns slot reason (some id) = elim (Bool-cases (final_reason reason)) [
    | inl final ↦ rw (final) ((none, refl), refl)
    | inr other ↦ rw (other) ((none, refl), refl)
  ]

  use_succeeded-Turns :
      (slot used : ℕ) (timer : Option ℕ) (items : ItemList)
      → OnSuccess (Turns slot) (use_succeeded timer (using slot timer) items used)
  unfolding use_succeeded
  use_succeeded-Turns slot used none items = ((none, refl), refl)
  use_succeeded-Turns slot used (some id) items = elim (Bool-cases (used == slot)) [
    | inl ours ↦ rw (ours) (
        OnSuccess->>= Any (Turns slot) (item_in items used) _ (any _) λ found _.
          OnSuccess->>= Any (Turns slot) (looks_good quantity found) _ (any _)
            λ _ _. ((none, refl), refl))
    | inr other ↦ rw (other) ((some id, refl), refl)
  ]

  followed-Turns :
      (slot : ℕ) (timer : Option ℕ) (d : Option Position)
      → OnSuccess (Turns (moved_to slot d)) (followed (using slot timer) d)
  followed-Turns slot timer none = ((timer, refl), refl)
  followed-Turns slot timer (some d) = elim (Bool-cases (same_kind d.kind inventory)) [
    | inl inside ↦ rw (inside) ((timer, refl), refl)
    | inr outside ↦ rw (outside) tt
  ]

  came_now :
      (slot : ℕ) (timer : Option ℕ) (ours : Bool) (d : Option Position)
      → OnSuccess
          (Turns (if ours then moved_to slot d else slot))
          (if ours then followed (using slot timer) d else ok (go_on (using slot timer) []))
  came_now slot timer true d = followed-Turns slot timer d
  came_now slot timer false d = ((timer, refl), refl)

  pub handle_use-Turns :
      (slot : ℕ) (timer : Option ℕ) (self : ℕ) (items : ItemList) (event : Option Event)
      → OnSuccess (Turns (follow self slot event)) (handle_use (using slot timer) self items event)
  unfolding handle_use
  handle_use-Turns slot timer self items (some (item_use_failed id reason)) =
      elim (Bool-cases (id == self)) [
        | inl ours ↦ rw (ours) (use_failed-Turns slot reason timer)
        | inr other ↦ rw (other) ((timer, refl), refl)
      ]
  handle_use-Turns slot timer self items (some (item_moved id source d)) =
      came_now slot timer (id == self && is_at (some slot) source) d
  handle_use-Turns slot timer self items (some (item_use_success id used t)) =
      elim (Bool-cases (id == self)) [
        | inl ours ↦ rw (ours) (use_succeeded-Turns slot used timer items)
        | inr other ↦ rw (other) ((timer, refl), refl)
      ]
  handle_use-Turns slot none self items (some (timeout id)) = ((none, refl), refl)
  handle_use-Turns slot (some own) self items (some (timeout id)) = elim (Bool-cases (id == own)) [
    | inl same ↦ rw (same) ((none, refl), refl)
    | inr other ↦ rw (other) ((some own, refl), refl)
  ]
  handle_use-Turns slot timer self items _ = ((timer, refl), refl)
