-- ===== src/StateMachine/PickItem/Happening.antt =====
-- What an event does to a task that picks an item.
use hyperbot.Prelude.{
  ℕ, ◌≡◌, refl, sym, ap, inl, inr, Bool, true, false, not, ◌&&◌, ◌||◌, Option, none, some, List, [],
  ◌==◌, if◌then◌else◌, Bool-cases, ok, err, OnSuccess,
}
use hyperbot.Item.{Item}
use hyperbot.ItemList.{ItemList, Outcome, get_item}
use hyperbot.StateMachine.{Position, inventory, same_kind}
use hyperbot.StateMachine.Tasks.{
  Event, item_moved, entity_despawned, pickup_error, timeout, Output, injections, cancel_timer,
}
use hyperbot.StateMachine.MoveItem.Attempts.{injections-cancel_timer}
use hyperbot.StateMachine.PickItem.{
  PickItem, slot_out_of_bounds, has_ref_id, despawned, arrived, item_came, pick_failed, timed_out,
  handle_pick,
}

-- The target has left the ground; an item like it has come into the inventory from elsewhere.
abbrev pub gone : ℕ → Option Event → Bool
gone target (some (entity_despawned id)) = id == target
gone target _ = false

abbrev found_ref : ℕ → Outcome (Option Item) → Bool
found_ref ref (err e) = false
found_ref ref (ok item) = has_ref_id ref item

-- A move without a source brings an item with the reference id into the inventory: a pick-up, a purchase
-- or a gift, but no withdrawal from another storage, whose event names the source.
abbrev pub landed : ℕ → ℕ → ItemList → Option Event → Bool
landed self ref items (some (item_moved id none (some p))) =
    (id == self && same_kind p.kind inventory) && found_ref ref (get_item items p.slot_num)
landed self ref items _ = false

or_true : (b : Bool) → (b || true) ≡ true
or_true true = refl
or_true false = refl

module _ (target ref : ℕ) where
  -- The task by what has happened.
  abbrev pub standing : Option ℕ → Bool → Bool → PickItem
  standing timer gone landed = record {
    target = target;
    initialized = true;
    target_ref_id = ref;
    timeout_event_id = timer;
    waiting_to_despawn = not gone;
    waiting_to_arrive = not landed;
  }

  -- An event brings the task from one state to the next, without a request.
  abbrev pub Turns : Bool → Bool → PickItem × List Output → Type 0
  Turns g l (m, outputs) =
      ((timer : Option ℕ) × (m ≡ standing timer g l)) × (injections outputs ≡ 0)

  turn : (timer : Option ℕ) (g l : Bool) → Turns g l (standing timer g l, cancel_timer none)
  turn timer g l = ((timer, refl), refl)

  cancelled : (t : Option ℕ) (g l : Bool) → Turns g l (standing none g l, cancel_timer t)
  cancelled t g l = ((none, refl), injections-cancel_timer t)

  gone_now :
      (timer : Option ℕ) (b g l : Bool)
      → Turns (b || g) l (
          if not g && b
          then (standing none true l, cancel_timer timer)
          else (standing timer g l, []))
  gone_now timer true true l = turn timer true l
  gone_now timer false true l = turn timer true l
  gone_now timer false false l = turn timer false l
  gone_now timer true false l = cancelled timer true l

  despawned-Turns :
      (timer : Option ℕ) (g l : Bool) (id : ℕ)
      → Turns (id == target || g) l (despawned (standing timer g l) id)
  unfolding despawned
  despawned-Turns timer g l id = gone_now timer (id == target) g l

  arrived-Turns :
      (timer : Option ℕ) (g : Bool) (item : Option Item)
      → Turns g (has_ref_id ref item || false) (arrived (standing timer g false) item)
  unfolding arrived
  arrived-Turns timer g none = turn timer g false
  arrived-Turns timer g (some item) = elim (Bool-cases (item.ref_item_id == ref)) [
    | inl ours ↦ rw (ours) (cancelled timer g true)
    | inr other ↦ rw (other) (turn timer g false)
  ]

  came_now :
      (timer : Option ℕ) (g : Bool) (ours : Bool) (found : Outcome (Option Item))
      → OnSuccess (Turns g ((ours && found_ref ref found) || false)) (
          if ours
          then elim found [
            | err e ↦ err slot_out_of_bounds
            | ok item ↦ ok (arrived (standing timer g false) item)
          ]
          else ok (standing timer g false, []))
  came_now timer g false found = turn timer g false
  came_now timer g true (err e) = tt
  came_now timer g true (ok item) = arrived-Turns timer g item

  item_came-Turns :
      (timer : Option ℕ) (g l : Bool) (self : ℕ) (items : ItemList) (id : ℕ) (p : Position)
      → OnSuccess
          (Turns g (
            ((id == self && same_kind p.kind inventory)
              && found_ref ref (get_item items p.slot_num))
            || l))
          (item_came (standing timer g l) self items id p)
  unfolding item_came
  item_came-Turns timer g true self items id p =
      ((timer, ap (λ b. standing timer g b) (sym (or_true _))), refl)
  item_came-Turns timer g false self items id p =
      came_now timer g (id == self && same_kind p.kind inventory) (get_item items p.slot_num)

  failed_now :
      (timer : Option ℕ) (b g l : Bool)
      → Turns g l (if b then (standing none g l, cancel_timer timer) else (standing timer g l, []))
  failed_now timer true g l = cancelled timer g l
  failed_now timer false g l = turn timer g l

  timed_out-Turns :
      (timer : Option ℕ) (g l : Bool) (id : ℕ) → Turns g l (timed_out (standing timer g l) id, [])
  unfolding timed_out
  timed_out-Turns none g l id = turn none g l
  timed_out-Turns (some own) g l id = elim (Bool-cases (id == own)) [
    | inl same ↦ rw (same) (turn none g l)
    | inr other ↦ rw (other) (turn (some own) g l)
  ]

  pub handle_pick-Turns :
      (timer : Option ℕ) (g l : Bool) (self : ℕ) (items : ItemList) (event : Option Event)
      → OnSuccess
          (Turns (gone target event || g) (landed self ref items event || l))
          (handle_pick (standing timer g l) self items event)
  unfolding handle_pick pick_failed
  handle_pick-Turns timer g l self items (some (entity_despawned id)) = despawned-Turns timer g l id
  handle_pick-Turns timer g l self items (some (item_moved id none (some p))) =
      item_came-Turns timer g l self items id p
  handle_pick-Turns timer g l self items (some (pickup_error issuer t)) =
      failed_now timer (issuer == self && t == target) g l
  handle_pick-Turns timer g l self items (some (timeout id)) = timed_out-Turns timer g l id
  handle_pick-Turns timer g l self items _ = turn timer g l
