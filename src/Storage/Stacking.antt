-- ===== src/Storage/Stacking.antt =====
-- What joining two stacks does to the two quantities: the destination takes what fits, but the source
-- gives up the whole requested quantity.
use hyperbot.Prelude.{
  ℕ, Bool, true, false, ◌+◌, ◌-◌, ◌^◌, ◌≤◌, ◌<◌, ◌≡◌, sym, ap, ◌≢◌, Option, none, some, min, ltb,
  ◌==◌, if◌then◌else◌, length, set, length-set, arith, ok, Option-cases, inl, inr,
}
use hyperbot.Item.{Item, ItemInfo, as_expendable, set_quantity}
use hyperbot.ItemList.{ItemList, slot_at, get_item, delete_item}
use hyperbot.ItemList.Search.{holds, has_ref}
use hyperbot.ItemList.Slots.{slot_at-set}
use hyperbot.Storage.Weight.{weight, total, total-set-set}
use hyperbot.Storage.Moves.{slots_join, weight-stack, weight-set_quantity}
use hyperbot.Storage.{stacked, take_from_source, stack_items, move_onto, move_quantity}

-- The two items of a join, with what `slots_join` says of them.
pub record Joined (l : ItemList) (src dest max dq sq : ℕ) : Type 0 where
  pub source : Item
  pub target : Item
  pub info : ItemInfo
  pub at_source : slot_at l src ≡ some source
  pub at_target : slot_at l dest ≡ some target
  pub same_ref : source.ref_item_id ≡ target.ref_item_id
  pub source_stack : as_expendable source ≡ some sq
  pub target_stack : as_expendable target ≡ some dq
  pub target_info : target.item_info ≡ some info
  pub limit : info.max_stack ≡ max
  pub room : max ≢ dq

slots_join-Joined :
    (l : ItemList) (src dest max dq sq : ℕ)
    → slots_join l src dest ≡ some (max, dq, sq)
    → Joined l src dest max dq sq
slots_join-Joined l src dest max dq sq e = elim (Option-cases (slot_at l src)) [
  | inl a ↦ ground (arith, a)
  | inr (s, a) ↦ elim (Option-cases (slot_at l dest)) [
    | inl b ↦ ground (arith, a, b)
    | inr (d, b) ↦ elim (Option-cases d.item_info) [
      | inl c ↦ ground (arith, a, b, c)
      | inr (i, c) ↦ record {
        source = s;
        target = d;
        info = i;
        at_source = a;
        at_target = b;
        same_ref = ground (arith, a, b, c);
        source_stack = ground (arith, a, b, c);
        target_stack = ground (arith, a, b, c);
        target_info = c;
        limit = ground (arith, a, b, c);
        room = ground (arith, a, b, c);
      }
    ]
  ]
]

-- The list after a join, by whether the source keeps a part.
move_quantity-Joined :
    (l : ItemList) (src dest max dq sq quantity : ℕ)
    → src ≢ dest
    → src < length l
    → dest < length l
    → (j : Joined l src dest max dq sq)
    → move_quantity l src dest quantity
      ≡ ok (
          set
            (set l dest (some (set_quantity (stacked max dq quantity) j.target)))
            src
            (if ltb quantity sq then some (set_quantity (sq - quantity) j.source) else none))
unfolding move_quantity get_item move_onto stack_items take_from_source delete_item
move_quantity-Joined l src dest max dq sq quantity ne hs hd j = ground (
  arith,
  slot_at-set l dest (some (set_quantity (stacked max dq quantity) j.target)) src,
  length-set l dest (some (set_quantity (stacked max dq quantity) j.target)),
)

source_weight :
    (ref quantity sq : ℕ) (item : Item)
    → as_expendable item ≡ some sq
    → weight ref (if ltb quantity sq then some (set_quantity (sq - quantity) item) else none)
      ≡ (if has_ref ref item then sq - quantity else 0)
source_weight ref quantity sq item h =
    ground (arith, weight-set_quantity ref sq (sq - quantity) item h)

-- The arithmetic of a join, where the four weights count or not.
balance :
    (counted : Bool) (quantity max dq sq before after : ℕ)
    → dq ≤ max
    → max < 2 ^ 16
    → after + (if counted then dq else 0) + (if counted then sq else 0)
      ≡ before
        + (if counted then stacked max dq quantity else 0)
        + (if counted then sq - quantity else 0)
    → after + (if counted then min sq quantity else 0)
      ≡ before + (if counted then min (max - dq) quantity else 0)
unfolding stacked
balance true quantity max dq sq before after fits small e = omega arith
balance false quantity max dq sq before after fits small e = omega arith

-- Joining two stacks, exactly: the destination gains the smaller of the free space and the asked
-- quantity, while the source loses the smaller of its own and the asked quantity. For the joined
-- reference id the two differ in the sum; every other id keeps its sum.
pub join_balance :
    (ref : ℕ) (l : ItemList) (src dest quantity max dq sq : ℕ)
    → src ≢ dest
    → src < length l
    → dest < length l
    → slots_join l src dest ≡ some (max, dq, sq)
    → dq ≤ max
    → max < 2 ^ 16
    → (m : ItemList) × (move_quantity l src dest quantity ≡ ok m)
      × (total ref m + (if holds (has_ref ref) (slot_at l src) then min sq quantity else 0)
          ≡ total ref l
            + (if holds (has_ref ref) (slot_at l src) then min (max - dq) quantity else 0))
unfolding stacked
join_balance ref l src dest quantity max dq sq ne hs hd join fits small = (
  set (set l dest new_target) src new_source,
  move_quantity-Joined l src dest max dq sq quantity ne hs hd j,
  rw j.at_source (
      balance (has_ref ref j.source) quantity max dq sq (total ref l)
        (total ref (set (set l dest new_target) src new_source)) fits small sums),
)
  where
    j : Joined l src dest max dq sq
    j = slots_join-Joined l src dest max dq sq join

    new_target : Option Item
    new_target = some (set_quantity (stacked max dq quantity) j.target)

    new_source : Option Item
    new_source = if ltb quantity sq then some (set_quantity (sq - quantity) j.source) else none

    written :
        total ref (set (set l dest new_target) src new_source)
          + weight ref (slot_at l dest)
          + weight ref (slot_at l src)
        ≡ total ref l + weight ref new_target + weight ref new_source
    written = total-set-set ref l dest src new_target new_source hd hs (λ e. ne (sym e))

    same : has_ref ref j.target ≡ has_ref ref j.source
    same = ap (λ (r : ℕ). r == ref) (sym j.same_ref)

    old_target : weight ref (slot_at l dest) ≡ (if has_ref ref j.source then dq else 0)
    old_target = rw (j.at_target, ← same) (weight-stack ref dq j.target j.target_stack)

    old_source : weight ref (slot_at l src) ≡ (if has_ref ref j.source then sq else 0)
    old_source = rw j.at_source (weight-stack ref sq j.source j.source_stack)

    changed_target :
        weight ref new_target ≡ (if has_ref ref j.source then stacked max dq quantity else 0)
    changed_target =
        rw (← same) (weight-set_quantity ref dq (stacked max dq quantity) j.target j.target_stack)

    sums :
        total ref (set (set l dest new_target) src new_source)
          + (if has_ref ref j.source then dq else 0)
          + (if has_ref ref j.source then sq else 0)
        ≡ total ref l
          + (if has_ref ref j.source then stacked max dq quantity else 0)
          + (if has_ref ref j.source then sq - quantity else 0)
    sums =
        rw
          (
            ← old_target,
            ← old_source,
            ← changed_target,
            ← source_weight ref quantity sq j.source j.source_stack,
          )
          written
