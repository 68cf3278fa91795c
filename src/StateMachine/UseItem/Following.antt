-- ===== src/StateMachine/UseItem/Following.antt =====
-- A task that uses an item follows it through the inventory.
use hyperbot.Prelude.{ℕ, ◌≡◌, ◌⊎◌, false, some, List, [], ◌∷◌, Result, ◌>>=◌}
use hyperbot.StateMachine.{Status}
use hyperbot.StateMachine.Tasks.{use_item, Output}
use hyperbot.StateMachine.UseItem.Happening.{requests_of, follow, carried, ousted, Stands}
use hyperbot.StateMachine.UseItem.{UseItem, UseError, UseSeen, on_update}

abbrev follow_all : ℕ → ℕ → UseSeen → List UseSeen → ℕ
follow_all self slot seen [] = follow self slot seen.event
follow_all self slot seen (next ∷ log) = follow_all self (follow self slot seen.event) next log

-- The updates of a task; a parent would destroy a task that is done.
unfoldable pub run_use :
    UseItem → ℕ → UseSeen → List UseSeen → Result UseError (UseItem × List Output × Status)
run_use m self seen [] = on_update m self seen
run_use m self seen (next ∷ log) =
    on_update m self seen >>= λ (m', outputs, status). run_use m' self next log

-- No request, or one for the item of the slot.
abbrev pub Sends : ℕ → ℕ → List Output → Type 0
Sends slot type outputs =
    (requests_of outputs ≡ []) ⊎ (requests_of outputs ≡ use_item slot type ∷ [])

module _ (ref type quantity : ℕ) where
  abbrev Updated : ℕ → UseItem × List Output × Status → Type 0
  Updated slot (m, outputs, status) = Stands ref type quantity slot m × Sends slot type outputs

-- What the last update of a task leaves and sends.
abbrev pub Follows : ℕ → ℕ → UseItem × List Output × Status → Type 0
Follows slot type (m, outputs, status) = (m.inventory_index ≡ some slot) × Sends slot type outputs

-- Where the updates carry the item of a slot, and that none moves another item onto its slot.
abbrev pub carried_all : ℕ → ℕ → List UseSeen → ℕ
carried_all self slot [] = slot
carried_all self slot (seen ∷ log) = carried_all self (carried self slot seen.event) log

abbrev pub Undisturbed : ℕ → ℕ → List UseSeen → Type 0
Undisturbed self slot [] = Unit
Undisturbed self slot (seen ∷ log) =
    (ousted self slot seen.event ≡ false) × Undisturbed self (carried self slot seen.event) log
