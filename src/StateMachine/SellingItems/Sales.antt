-- ===== src/StateMachine/SellingItems/Sales.antt =====
-- What a task sells when the server answers every request.
use hyperbot.Prelude.{
  ℕ, zero, suc, ◌+◌, ◌≡◌, refl, ap, ◌∙◌, subst, Bool, true, false, ◌==◌, Option, none, some, List,
  [], ◌∷◌, ◌++◌, length, get_elem?, get_or, drop, Result, ok, err, ◌>>=◌, arith,
}
use hyperbot.Item.{Item}
use hyperbot.ItemList.{ItemList, get_item}
use hyperbot.StateMachine.{Status, done, not_done, inventory}
use hyperbot.StateMachine.Tasks.{Event, item_moved, sell, Output, inject}
use hyperbot.StateMachine.SellingItems.{
  SellingItems, SellError, selling_task, current_slot, sold, item_left, quantity_of, item_to_sell,
  sell_current, handle_sale, unless_finished, on_update,
}

-- The server's answer: the item of the current slot has left the inventory.
abbrev left_slot : ℕ → Result SellError ℕ → Option Event
left_slot self (ok slot) =
    some (item_moved self (some (record { kind = inventory; slot_num = slot })) none)
left_slot self (err e) = none

abbrev pub answer : SellingItems → ℕ → Option Event
answer m self = elim m.waiting_on_a_sell [ true ↦ left_slot self (current_slot m) | false ↦ none ]

-- The task's updates, one for each inventory, until it is done: what it puts out, and its status.
abbrev pub and_then :
    Result SellError (SellingItems × List Output × Status)
    → (SellingItems → Result SellError (List Output × Status))
    → Result SellError (List Output × Status)
and_then (err e) later = err e
and_then (ok (m, outputs, done)) later = ok (outputs, done)
and_then (ok (m, outputs, not_done)) later =
    later m >>= λ (rest, status). ok (outputs ++ rest, status)

pub run_sales : SellingItems → ℕ → ℕ → List ItemList → Result SellError (List Output × Status)
run_sales m self npc [] = ok ([], not_done)
run_sales m self npc (items ∷ rest) =
    and_then (on_update m self items (some npc) (answer m self)) (λ m'. run_sales m' self npc rest)

-- The slots are sold in order, each while an item stands in it: the inventories at the updates, the
-- last of which is the one after the last sale, and the requests.
pub data Sales (npc : ℕ) : List ℕ → List ItemList → List Output → Type 0 where
  sales_over : (items : ItemList) → Sales npc [] (items ∷ []) []
  sale :
      (slot : ℕ) (slots : List ℕ) (items : ItemList) (item : Item) (seen : List ItemList)
      (requests : List Output)
      → get_item items slot ≡ ok (some item)
      → Sales npc slots seen requests
      → Sales npc
          (slot ∷ slots)
          (items ∷ seen)
          (inject (sell slot (quantity_of item) npc) ∷ requests)

-- The task after `before` was sold and while it waits for the sale of a slot.
abbrev selling : List ℕ → ℕ → Bool → SellingItems
selling slots n waiting = record {
  slots_to_sell = slots;
  next_to_sell_index = n;
  waiting_on_a_sell = waiting;
}

same : (n : ℕ) → (n == n) ≡ true
same n = ground arith

cons_injective : (x y : ℕ) (xs ys : List ℕ) → x ∷ xs ≡ y ∷ ys → (x ≡ y) × (xs ≡ ys)
cons_injective x y xs ys e = (ap (λ l. get_or l 0 x) e, ap (drop 1) e)

-- Where the list goes on with `y ∷ ys`.
get_elem?-drop :
    (n : ℕ) (xs : List ℕ) (y : ℕ) (ys : List ℕ)
    → drop n xs ≡ y ∷ ys
    → (get_elem? xs n ≡ some y) × (drop (n + 1) xs ≡ ys) × (length xs ≡ n + 1 + length ys)
get_elem?-drop zero [] y ys e = absurd (omega (arith, ap length e))
get_elem?-drop (suc n) [] y ys e = absurd (omega (arith, ap length e))
get_elem?-drop zero (x ∷ xs) y ys e =
    let (head, tail) = cons_injective x y xs ys e in
    (ap (λ a. some a) head, tail, omega (arith, ap length tail))
get_elem?-drop (suc n) (x ∷ xs) y ys e =
    let (here, rest, long) = get_elem?-drop n xs y ys e in
    let next : suc (n + 1) ≡ suc n + 1 = omega arith in
    (here, subst (λ k. drop k (x ∷ xs) ≡ ys) next rest, omega (arith, long))

-- The answer ends the sale of the current slot.
answered :
    (slots : List ℕ) (n self slot : ℕ)
    → get_elem? slots n ≡ some slot
    → handle_sale (selling slots n true) self (answer (selling slots n true) self)
      ≡ ok (selling slots (n + 1) false, n + 1 == length slots)
unfolding item_left sold
answered slots n self slot e = rw (e, same self, e, same slot) refl

found_item :
    (items : ItemList) (slot : ℕ) (item : Item)
    → get_item items slot ≡ ok (some item)
    → item_to_sell items slot ≡ ok item
found_item items slot item there = rw (there, item_to_sell) refl

-- A request for the current slot.
requested :
    (slots : List ℕ) (n npc slot : ℕ) (waiting : Bool) (items : ItemList) (item : Item)
    → get_elem? slots n ≡ some slot
    → get_item items slot ≡ ok (some item)
    → sell_current (selling slots n waiting) items (some npc)
      ≡ ok (selling slots n true, inject (sell slot (quantity_of item) npc) ∷ [], not_done)
unfolding sell_current
requested slots n npc slot waiting items item e there = rw (e) (
    ap
      (λ r.
        r >>= λ i. ok (selling slots n true, inject (sell slot (quantity_of i) npc) ∷ [], not_done))
      (found_item items slot item there))

-- An update that the answer wakes: the next slot is sold, or all are.
next_update :
    (slots : List ℕ) (n self npc : ℕ) (items : ItemList) (slot : ℕ)
    → get_elem? slots n ≡ some slot
    → on_update (selling slots n true) self items (some npc) (answer (selling slots n true) self)
      ≡ unless_finished (selling slots (n + 1) false, n + 1 == length slots) items (some npc)
unfolding on_update
next_update [] n self npc items slot here = cc
next_update (x ∷ slots) n self npc items slot here =
    ap (λ r. r >>= λ handled. unless_finished handled items (some npc))
      (answered (x ∷ slots) n self slot here)

-- The updates after the request for a slot.
waiting-Sales :
    (slots : List ℕ) (self npc n slot : ℕ) (later : List ℕ) (seen : List ItemList)
    (requests : List Output)
    → drop n slots ≡ slot ∷ later
    → Sales npc later seen requests
    → run_sales (selling slots n true) self npc seen ≡ ok (requests, done)
unfolding run_sales
waiting-Sales slots self npc n slot _ _ _ rest (sales_over items) =
    let (here, over, long) = get_elem?-drop n slots slot [] rest in
    let last : (n + 1 == length slots) ≡ true = ground (arith, long) in
    ap (λ r. and_then r (λ m'. ok ([], not_done)))
      (next_update slots n self npc items slot here
        ∙ ap (λ b. unless_finished (selling slots (n + 1) false, b) items (some npc)) last)
waiting-Sales slots self npc n slot _ _ _ rest
      (sale next later items item seen requests there sales) =
    let (here, over, long) = get_elem?-drop n slots slot (next ∷ later) rest in
    let (here', over', long') = get_elem?-drop (n + 1) slots next later over in
    let more : (n + 1 == length slots) ≡ false = ground (arith, long) in
    ap (λ r. and_then r (λ m'. run_sales m' self npc seen))
      (next_update slots n self npc items slot here
        ∙ ap (λ b. unless_finished (selling slots (n + 1) false, b) items (some npc)) more
        ∙ requested slots (n + 1) npc next false items item here' there)
    ∙ ap
        (λ r. r >>= λ (rest, status). ok (inject (sell next (quantity_of item) npc) ∷ rest, status))
        (waiting-Sales slots self npc (n + 1) next later seen requests over sales)

-- A task that sells the items of some slots, and whose requests are all answered, sells the slots in
-- order, each with all that stands in it at that time, and is done after the last answer: its updates
-- put out these requests and nothing else.
pub run_sales-Sales :
    (slots : List ℕ) (self npc : ℕ) (seen : List ItemList) (requests : List Output)
    → Sales npc slots seen requests
    → run_sales (selling_task slots).0 self npc seen ≡ ok (requests, done)
unfolding run_sales selling_task on_update
run_sales-Sales _ self npc _ _ (sales_over items) = refl
run_sales-Sales _ self npc _ _ (sale slot slots items item seen requests there sales) =
    ap (λ r. and_then r (λ m'. run_sales m' self npc seen))
      (requested (slot ∷ slots) 0 npc slot false items item refl there)
    ∙ ap
        (λ r. r >>= λ (rest, status). ok (inject (sell slot (quantity_of item) npc) ∷ rest, status))
        (waiting-Sales (slot ∷ slots) self npc 0 slot slots seen requests refl sales)
