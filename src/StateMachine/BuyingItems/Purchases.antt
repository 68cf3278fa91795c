-- ===== src/StateMachine/BuyingItems/Purchases.antt =====
-- What a task buys over its updates is what its list loses.
use hyperbot.Prelude.{ℕ, ◌+◌, ◌-◌, ◌≡◌, Option, List, [], ◌∷◌, Result, ◌>>=◌}
use hyperbot.ItemList.{ItemList}
use hyperbot.StateMachine.{Status}
use hyperbot.StateMachine.Tasks.{Event, Output}
use hyperbot.StateMachine.BuyingItems.{BuyingItems, BuyError, on_update}
use hyperbot.StateMachine.BuyingItems.Bought.{standing}

-- What an update reads: the inventory, whom the character talks to, and the event.
abbrev pub Reading : Type 0
Reading = ItemList × Option ℕ × Option Event

-- The updates of a task; a parent would destroy a task that is done.
unfoldable pub run_buys :
    BuyingItems → ℕ → Reading → List Reading → Result BuyError (BuyingItems × List Output × Status)
run_buys m self (items, talking, event) [] = on_update m self items talking event
run_buys m self (items, talking, event) (next ∷ log) =
    on_update m self items talking event >>= λ (m', outputs, status). run_buys m' self next log

abbrev total_standing : ℕ → Reading → List Reading → ℕ
total_standing self (items, talking, event) [] = standing self items event
total_standing self (items, talking, event) (next ∷ log) =
    standing self items event + total_standing self next log

-- What an event brings from elsewhere: by how much its slot grows from one inventory to the next.
abbrev pub came : ℕ → ItemList → ItemList → Option Event → ℕ
came self before items event = standing self items event - standing self before event

abbrev pub total_came : ℕ → ItemList → Reading → List Reading → ℕ
total_came self before (items, talking, event) [] = came self before items event
total_came self before (items, talking, event) (next ∷ log) =
    came self before items event + total_came self items next log

-- What comes from elsewhere comes into slots that held nothing at the update before.
abbrev pub IntoEmpty : ℕ → ItemList → Reading → List Reading → Type 0
IntoEmpty self before (items, talking, event) [] = standing self before event ≡ 0
IntoEmpty self before (items, talking, event) (next ∷ log) =
    (standing self before event ≡ 0) × IntoEmpty self items next log
