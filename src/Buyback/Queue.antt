-- ===== src/Buyback/Queue.antt =====
-- The array behaves as a list of at most five items.
use hyperbot.Prelude.{
  ℕ, zero, suc, ◌-◌, ◌≤◌, ◌<◌, ◌≡◌, refl, inl, inr, Option, none, some, List, [], ◌∷◌, ◌++◌, leb,
  if◌then◌else◌, length, length-append, length-map, length-replicate, length-drop, replicate, drop,
  map, Result, Bool, true, false, Bool-cases, throw_if, ◌>>=◌, ok, err, arith, get_elem?,
}
use hyperbot.Item.{Item}
use hyperbot.ItemList.{ItemList, slot_at}
use hyperbot.Buyback.{
  BuybackQueue, capacity, QueueError, beyond_bounds, beyond_size, destroy_item, add_item,
  withdraw_item, check_bounds,
}

-- The queue that holds the items of a list, oldest first.
abbrev pub queue_of : List Item → BuybackQueue
queue_of xs = record {
  count = length xs;
  items = map some xs ++ replicate (capacity - length xs) none;
}

abbrev pub remove_at : ℕ → List Item → List Item
remove_at n [] = []
remove_at zero (x ∷ xs) = xs
remove_at (suc n) (x ∷ xs) = x ∷ remove_at n xs

-- The oldest item gives way when five are held.
abbrev pub push : List Item → Item → List Item
push xs x = if leb capacity (length xs) then drop 1 xs ++ x ∷ [] else xs ++ x ∷ []

destroy_item-remove_at :
    (xs : List Item) (slot : ℕ)
    → slot < length xs
    → length xs ≤ capacity
    → destroy_item (queue_of xs) slot ≡ queue_of (remove_at slot xs)
unfolding destroy_item
destroy_item-remove_at [] slot h le = absurd (omega arith)
destroy_item-remove_at (a ∷ []) zero h le = refl
destroy_item-remove_at (a ∷ b ∷ []) zero h le = refl
destroy_item-remove_at (a ∷ b ∷ []) (suc zero) h le = refl
destroy_item-remove_at (a ∷ b ∷ c ∷ []) zero h le = refl
destroy_item-remove_at (a ∷ b ∷ c ∷ []) (suc zero) h le = refl
destroy_item-remove_at (a ∷ b ∷ c ∷ []) (suc (suc zero)) h le = refl
destroy_item-remove_at (a ∷ b ∷ c ∷ d ∷ []) zero h le = refl
destroy_item-remove_at (a ∷ b ∷ c ∷ d ∷ []) (suc zero) h le = refl
destroy_item-remove_at (a ∷ b ∷ c ∷ d ∷ []) (suc (suc zero)) h le = refl
destroy_item-remove_at (a ∷ b ∷ c ∷ d ∷ []) (suc (suc (suc zero))) h le = refl
destroy_item-remove_at (a ∷ b ∷ c ∷ d ∷ e ∷ []) zero h le = refl
destroy_item-remove_at (a ∷ b ∷ c ∷ d ∷ e ∷ []) (suc zero) h le = refl
destroy_item-remove_at (a ∷ b ∷ c ∷ d ∷ e ∷ []) (suc (suc zero)) h le = refl
destroy_item-remove_at (a ∷ b ∷ c ∷ d ∷ e ∷ []) (suc (suc (suc zero))) h le = refl
destroy_item-remove_at (a ∷ b ∷ c ∷ d ∷ e ∷ []) (suc (suc (suc (suc zero)))) h le = refl
destroy_item-remove_at _ _ h le = absurd (omega arith)

-- Adding to the queue of a list gives the queue of the list with the item at its end, where the
-- oldest of five items is dropped.
pub add_item-push :
    (xs : List Item) (x : Item)
    → length xs ≤ capacity
    → add_item (queue_of xs) x ≡ queue_of (push xs x)
unfolding add_item
add_item-push [] x le = refl
add_item-push (a ∷ []) x le = refl
add_item-push (a ∷ b ∷ []) x le = refl
add_item-push (a ∷ b ∷ c ∷ []) x le = refl
add_item-push (a ∷ b ∷ c ∷ d ∷ []) x le = refl
add_item-push (a ∷ b ∷ c ∷ d ∷ e ∷ []) x le = refl
add_item-push (a ∷ b ∷ c ∷ d ∷ e ∷ f ∷ xs) x le = absurd (omega arith)

-- What a withdrawal does to the queue of a list.
abbrev pub withdrawn : List Item → ℕ → Result QueueError (Option Item × BuybackQueue)
withdrawn xs slot =
    if leb capacity slot
    then err beyond_bounds
    else if leb (length xs) slot
    then err beyond_size
    else ok (get_elem? xs slot, queue_of (remove_at slot xs))

slot_at-queue_of :
    (xs : List Item) (ys : ItemList) (slot : ℕ)
    → slot < length xs
    → slot_at (map some xs ++ ys) slot ≡ get_elem? xs slot
slot_at-queue_of [] ys slot h = absurd (omega arith)
slot_at-queue_of (x ∷ xs) ys zero h = refl
slot_at-queue_of (x ∷ xs) ys (suc slot) h = slot_at-queue_of xs ys slot (omega arith)

length-queue_of : (xs : List Item) → length xs ≤ capacity → length ((queue_of xs).items) ≡ capacity
length-queue_of xs le = omega (
  arith,
  length-append (map some xs) (replicate (capacity - length xs) none),
  length-map xs some,
  length-replicate {A = Option Item} (capacity - length xs) none,
)

from_size :
    (xs : List Item) (slot : ℕ) (b : Bool)
    → length xs ≤ capacity
    → leb (length xs) slot ≡ b
    → ◌>>=◌ {B = Option Item × BuybackQueue}
        (throw_if b beyond_size)
        (λ _. ok (slot_at ((queue_of xs).items) slot, destroy_item (queue_of xs) slot))
      ≡ (if b then err beyond_size else ok (get_elem? xs slot, queue_of (remove_at slot xs)))
from_size xs slot true le e = refl
from_size xs slot false le e =
    let lt : slot < length xs = ground arith in
    rw (
      slot_at-queue_of xs (replicate (capacity - length xs) none) slot lt,
      destroy_item-remove_at xs slot lt le,
    )

-- A withdrawal from the queue of a list answers the item of the slot and removes it from the list;
-- it fails exactly at a slot beyond the array or beyond the items held.
pub withdraw_item-withdrawn :
    (xs : List Item) (slot : ℕ)
    → length xs ≤ capacity
    → withdraw_item (queue_of xs) slot ≡ withdrawn xs slot
unfolding withdraw_item check_bounds
withdraw_item-withdrawn xs slot le = elim (Bool-cases (leb (length ((queue_of xs).items)) slot)) [
  | inl e ↦ rw (e, same e) refl
  | inr e ↦ rw (e, same e) (from_size xs slot (leb (length xs) slot) le refl)
]
  where
    same : {b : Bool} → leb (length ((queue_of xs).items)) slot ≡ b → leb capacity slot ≡ b
    same e = rw (← length-queue_of xs le) e

-- A session of calls on the queue, and on a list that keeps the last five.
pub data Call : Type 0 where
  adds : Item → Call
  withdraws : ℕ → Call

abbrev pub calls : List Call → BuybackQueue → Result QueueError BuybackQueue
calls [] q = ok q
calls (adds x ∷ cs) q = calls cs (add_item q x)
calls (withdraws slot ∷ cs) q = withdraw_item q slot >>= λ r. calls cs (r.1)

abbrev pub list_calls : List Call → List Item → Result QueueError (List Item)
list_calls [] xs = ok xs
list_calls (adds x ∷ cs) xs = list_calls cs (push xs x)
list_calls (withdraws slot ∷ cs) xs =
    let rest = list_calls cs (remove_at slot xs) in
    if leb capacity slot
    then err beyond_bounds
    else if leb (length xs) slot
    then err beyond_size
    else rest

abbrev pub as_queue : Result QueueError (List Item) → Result QueueError BuybackQueue
as_queue (ok xs) = ok (queue_of xs)
as_queue (err e) = err e

length-push : (xs : List Item) (x : Item) → length xs ≤ capacity → length (push xs x) ≤ capacity
length-push xs x le =
    ground (arith, length-append xs (x ∷ []), length-append (drop 1 xs) (x ∷ []), length-drop 1 xs)

length-remove_at : (slot : ℕ) (xs : List Item) → length (remove_at slot xs) ≤ length xs
length-remove_at n [] = omega arith
length-remove_at zero (x ∷ xs) = omega arith
length-remove_at (suc n) (x ∷ xs) = omega (arith, length-remove_at n xs)

-- From a queue that holds a list of at most five items, any session of calls gives the queue that
-- holds what the session gives on the list, or fails where and as it does on the list.
pub calls-list_calls :
    (cs : List Call) (xs : List Item)
    → length xs ≤ capacity
    → calls cs (queue_of xs) ≡ as_queue (list_calls cs xs)
calls-list_calls [] xs le = refl
calls-list_calls (adds x ∷ cs) xs le =
    rw (add_item-push xs x le) (calls-list_calls cs (push xs x) (length-push xs x le))
calls-list_calls (withdraws slot ∷ cs) xs le =
    rw (withdraw_item-withdrawn xs slot le) (elim (Bool-cases (leb capacity slot)) [
      | inl e ↦ rw (e) refl
      | inr e ↦ elim (Bool-cases (leb (length xs) slot)) [
        | inl f ↦ rw (e, f) refl
        | inr f ↦
            rw (e, f)
              (calls-list_calls cs (remove_at slot xs) (omega (arith, length-remove_at slot xs)))
      ]
    ])
