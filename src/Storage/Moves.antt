-- ===== src/Storage/Moves.antt =====
-- Moves of items conserve what a storage holds, except where two stacks are joined.
use hyperbot.Prelude.{
  ℕ, ◌-◌, ◌<◌, ◌≡◌, ◌≢◌, ap, Option, none, some, ◌==◌, if◌then◌else◌, length, length-set, arith, ok,
  true, false, sym, refl, ◌∙◌, Option-cases, inl, inr,
}
use hyperbot.Item.{Item, as_expendable, set_quantity}
use mathlib.Core.Bool.{false≢true}
use hyperbot.ItemList.{
  ItemList, slot_at, present, get_item, has_item, swap_items, move_item, add_item,
}
use hyperbot.Item.Classes.{quantity_laws, clone_item-id}
use hyperbot.ItemList.Slots.{move_item_slots}
use hyperbot.Storage.Weight.{weight, total, total-set-set, total-swap_items, total-move_item}
use hyperbot.Storage.{stack_items, move_onto, move_into_open, move_quantity, move_whole}

-- The stack limit and the two quantities, when a move joins two stacks: both items are expendables
-- with one reference id, and the destination is not full.
abbrev pub joins : Option Item → Option Item → Option (ℕ × ℕ × ℕ)
joins none d = none
joins (some s) none = none
joins (some s) (some d) =
    if s.ref_item_id == d.ref_item_id
    then elim (as_expendable d) [
      | none ↦ none
      | some dq ↦ elim (as_expendable s) [
        | none ↦ none
        | some sq ↦ elim d.item_info [
          | none ↦ none
          | some info ↦ if info.max_stack == dq then none else some (info.max_stack, dq, sq)
        ]
      ]
    ]
    else none

-- The weight of a stack with its quantity written anew.
pub weight-set_quantity :
    (ref p q : ℕ) (item : Item)
    → as_expendable item ≡ some p
    → weight ref (some (set_quantity q item)) ≡ (if item.ref_item_id == ref then q else 0)
weight-set_quantity ref p q item h = ground (arith, quantity_laws item p q h)

pub weight-stack :
    (ref p : ℕ) (item : Item)
    → as_expendable item ≡ some p
    → weight ref (some item) ≡ (if item.ref_item_id == ref then p else 0)
weight-stack ref p item h = ground (arith, quantity_laws item p p h)

-- A stack that is split keeps its sum.
total-split :
    (ref : ℕ) (l m : ItemList) (src dest quantity : ℕ) (item : Item)
    → slot_at l src ≡ some item
    → slot_at l dest ≡ none
    → src < length l
    → src ≢ dest
    → move_into_open l src dest quantity item ≡ ok m
    → total ref m ≡ total ref l
unfolding move_into_open add_item
total-split ref l m src dest quantity item e free h ne done =
    elim (Option-cases (as_expendable item)) [
      | inl plain ↦ ground (arith, plain, total-move_item ref l m src dest ne free)
      | inr (p, stack) ↦ ground (
        arith,
        stack,
        clone_item-id item,
        total-move_item ref l m src dest ne free,
        weight-stack ref p item stack,
        weight-set_quantity ref p (p - quantity) item stack,
        weight-set_quantity ref p quantity item stack,
        length-set l src (some (set_quantity (p - quantity) item)),
        total-set-set ref l src dest (some (set_quantity (p - quantity) item))
            (some (set_quantity quantity item)),
      )
    ]

abbrev pub slots_join : ItemList → ℕ → ℕ → Option (ℕ × ℕ × ℕ)
slots_join l src dest = joins (slot_at l src) (slot_at l dest)

-- Onto another item, where the two are not joined, a move is a swap.
onto-swap :
    (l m : ItemList) (src dest quantity : ℕ) (s d : Item)
    → joins (some s) (some d) ≡ none
    → move_onto l src dest quantity s d ≡ ok m
    → swap_items l src dest ≡ ok m
unfolding move_onto stack_items
onto-swap l m src dest quantity s d apart done = ground arith

-- A successful move between two slots changes no item's total quantity, unless it joins two stacks:
-- whatever it swaps, splits or moves, every reference id keeps its sum.
pub move_quantity_conserves :
    (ref : ℕ) (l m : ItemList) (src dest quantity : ℕ)
    → src ≢ dest
    → slots_join l src dest ≡ none
    → move_quantity l src dest quantity ≡ ok m
    → total ref m ≡ total ref l
unfolding move_quantity get_item
move_quantity_conserves ref l m src dest quantity ne apart done =
    elim (Option-cases (slot_at l src)) [
      | inl e ↦ ground (arith, e)
      | inr (s, e) ↦ elim (Option-cases (slot_at l dest)) [
        | inl f ↦ ground (arith, e, f, total-split ref l m src dest quantity s e f)
        | inr (d, f) ↦
            ground (
              arith,
              e,
              f,
              onto-swap l m src dest quantity s d,
              total-swap_items ref l m src dest ne,
            )
      ]
    ]

present-none : (x : Option Item) → present x ≡ false → x ≡ none
present-none none e = refl
present-none (some item) e = cc

-- The move of a whole item succeeds only from an occupied slot into a free one; it then empties the
-- first, fills the second with its item, and changes no total.
pub move_whole_moves :
    (ref : ℕ) (l m : ItemList) (src dest : ℕ)
    → move_whole l src dest ≡ ok m
    → (present (slot_at l src) ≡ true)
      × (slot_at l dest ≡ none)
      × (slot_at m dest ≡ slot_at l src)
      × (slot_at m src ≡ none)
      × (total ref m ≡ total ref l)
unfolding move_whole has_item
move_whole_moves ref l m src dest done = (
  from,
  into,
  ground (arith, move_item_slots l m src dest dest moved, apart),
  ground (arith, move_item_slots l m src dest src moved),
  total-move_item ref l m src dest apart into moved,
)
  where
    from : present (slot_at l src) ≡ true
    from = ground arith

    into : slot_at l dest ≡ none
    into = present-none (slot_at l dest) (ground arith)

    moved : move_item l src dest ≡ ok m
    moved = ground arith

    apart : src ≢ dest
    apart e =
        false≢true (sym (ap present into) ∙ ap (λ (k : ℕ). present (slot_at l k)) (sym e) ∙ from)
