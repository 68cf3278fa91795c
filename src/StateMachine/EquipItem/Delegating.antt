-- ===== src/StateMachine/EquipItem/Delegating.antt =====
-- Putting a hat on is the move of the hat.
use hyperbot.Prelude.{
  ℕ, ◌≡◌, refl, sym, ap, ◌∙◌, Option, none, some, List, [], ◌∷◌, ◌++◌, Result, ok, err, ◌>>=◌,
}
use hyperbot.ItemList.{ItemList}
use hyperbot.StateMachine.{Status, done, not_done}
use hyperbot.StateMachine.Tasks.{Event, Output, send_active_state_machine, Update}
use hyperbot.StateMachine.MoveItem
use hyperbot.StateMachine.MoveItem.{MoveError}
use hyperbot.StateMachine.EquipItem.{
  EquipItem, EquipError, move_error, equip_task, find_hat, move_hat, child_updated, on_update,
}

-- What the updates read: the inventory, the next timer's id, and the event.
abbrev pub Reading : Type 0
Reading = ItemList × ℕ × Option Event

-- Updates until the task is done: what it puts out, and its status.
abbrev pub and_then :
    {X S : Type 0}
    → Result X (S × List Output × Status)
    → (S → Result X (List Output × Status))
    → Result X (List Output × Status)
and_then (err e) later = err e
and_then (ok (m, outputs, done)) later = ok (outputs, done)
and_then (ok (m, outputs, not_done)) later =
    later m >>= λ (rest, status). ok (outputs ++ rest, status)

unfoldable pub run_move :
    MoveItem.MoveItem → ℕ → List Reading → Result MoveError (List Output × Status)
run_move m self [] = ok ([], not_done)
run_move m self ((items, fresh, event) ∷ log) =
    and_then (MoveItem.on_update m self items fresh event) (λ m'. run_move m' self log)

unfoldable pub run_equip : EquipItem → ℕ → List Reading → Result EquipError (List Output × Status)
run_equip m self [] = ok ([], not_done)
run_equip m self ((items, fresh, event) ∷ log) =
    and_then (on_update m self items fresh event) (λ m'. run_equip m' self log)

-- The user interface is told when the move begins and when it is over.
abbrev pub at_end :
    Result MoveError (List Output × Status) → Result EquipError (List Output × Status)
at_end (err e) = err (move_error e)
at_end (ok (outputs, not_done)) = ok (outputs, not_done)
at_end (ok (outputs, done)) = ok (outputs ++ send_active_state_machine ∷ [], done)

abbrev pub at_start :
    Result EquipError (List Output × Status) → Result EquipError (List Output × Status)
at_start (err e) = err e
at_start (ok (outputs, status)) = ok (send_active_state_machine ∷ outputs, status)

abbrev equipping : ℕ → MoveItem.MoveItem → EquipItem
equipping ref child = record { item_ref_id = ref; child_state = some child }

append_assoc : (xs ys zs : List Output) → (xs ++ ys) ++ zs ≡ xs ++ (ys ++ zs)
append_assoc [] ys zs = refl
append_assoc (x ∷ xs) ys zs = ap (λ t. x ∷ t) (append_assoc xs ys zs)

-- The outputs of a later part go behind those of an update.
later_at_end :
    (outputs : List Output) (r : Result MoveError (List Output × Status))
    → (at_end r >>= λ (rest, status). ok (outputs ++ rest, status))
      ≡ at_end (r >>= λ (rest, status). ok (outputs ++ rest, status))
later_at_end outputs (err e) = refl
later_at_end outputs (ok (rest, not_done)) = refl
later_at_end outputs (ok (rest, done)) =
    ap (λ os. ok (os, done)) (sym (append_assoc outputs rest (send_active_state_machine ∷ [])))

later_at_start :
    (outputs : List Output) (r : Result MoveError (List Output × Status))
    → (at_end r >>= λ (rest, status). ok (send_active_state_machine ∷ outputs ++ rest, status))
      ≡ at_start (at_end (r >>= λ (rest, status). ok (outputs ++ rest, status)))
later_at_start outputs (err e) = refl
later_at_start outputs (ok (rest, not_done)) = refl
later_at_start outputs (ok (rest, done)) =
    ap (λ os. ok (send_active_state_machine ∷ os, done))
      (sym (append_assoc outputs rest (send_active_state_machine ∷ [])))

module _ (ref : ℕ) (move_later : MoveItem.MoveItem → Result MoveError (List Output × Status))
    (equip_later : EquipItem → Result EquipError (List Output × Status))
    (alike : (child : MoveItem.MoveItem)
      → equip_later (equipping ref child) ≡ at_end (move_later child)) where
  step_at_end :
      (old : Option MoveItem.MoveItem) (r : Update MoveError MoveItem.MoveItem)
      → and_then (child_updated (record { item_ref_id = ref; child_state = old }) [] r) equip_later
        ≡ at_end (and_then r move_later)
  unfolding child_updated
  step_at_end old (err e) = refl
  step_at_end old (ok (child, outputs, done)) = refl
  step_at_end old (ok (child, outputs, not_done)) =
      ap (λ r. r >>= λ (rest, status). ok (outputs ++ rest, status)) (alike child)
      ∙ later_at_end outputs (move_later child)

  step_at_start :
      (old : Option MoveItem.MoveItem) (r : Update MoveError MoveItem.MoveItem)
      → and_then
          (child_updated
            (record { item_ref_id = ref; child_state = old })
            (send_active_state_machine ∷ [])
            r)
          equip_later
        ≡ at_start (at_end (and_then r move_later))
  unfolding child_updated
  step_at_start old (err e) = refl
  step_at_start old (ok (child, outputs, done)) = refl
  step_at_start old (ok (child, outputs, not_done)) =
      ap (λ r. r >>= λ (rest, status). ok (send_active_state_machine ∷ outputs ++ rest, status))
        (alike child)
      ∙ later_at_start outputs (move_later child)

equipping_move :
    (ref : ℕ) (child : MoveItem.MoveItem) (self : ℕ) (log : List Reading)
    → run_equip (equipping ref child) self log ≡ at_end (run_move child self log)
unfolding run_equip run_move on_update
equipping_move ref child self [] = refl
equipping_move ref child self ((items, fresh, event) ∷ log) =
    step_at_end ref (λ m. run_move m self log) (λ m. run_equip m self log)
      (λ c. equipping_move ref c self log) (some child)
      (MoveItem.on_update child self items fresh event)

-- When the hat is found in a slot at the first update, then to put it on is, over any further updates,
-- to move it from that slot to the avatar's: the two put out the same, throw for the same reasons and
-- end at the same update, but that the user interface is told before the first output and, when the
-- move is over, after the last.
pub run_equip-run_move :
    (ref self slot : ℕ) (items : ItemList) (fresh : ℕ) (event : Option Event) (log : List Reading)
    → find_hat items ref ≡ ok slot
    → run_equip (equip_task ref) self ((items, fresh, event) ∷ log)
      ≡ at_start (at_end (run_move (move_hat slot) self ((items, fresh, event) ∷ log)))
unfolding run_equip run_move on_update equip_task
run_equip-run_move ref self slot items fresh event log found = rw (found) (
    step_at_start ref (λ m. run_move m self log) (λ m. run_equip m self log)
      (λ c. equipping_move ref c self log) none
      (MoveItem.on_update (move_hat slot) self items fresh event))
