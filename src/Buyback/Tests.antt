-- ===== src/Buyback/Tests.antt =====
-- Witnesses and tests of the buyback queue's theorems, at a few potions.
use hyperbot.Prelude.{ℕ, ◌≡◌, refl, none, [], ◌∷◌, err, arith}
use hyperbot.Item.{Item, expendable}
use hyperbot.Buyback.{add_item, withdraw_item, beyond_size}
use hyperbot.Buyback.Queue.{
  queue_of, push, as_queue, adds, withdraws, calls, list_calls, add_item-push, calls-list_calls,
}

abbrev potion : ℕ → Item
potion n = record { ref_item_id = n; item_info = none; fields = expendable n }

add_item-push_example :
    add_item (queue_of (potion 1 ∷ potion 2 ∷ potion 3 ∷ potion 4 ∷ potion 5 ∷ [])) (potion 6)
    ≡ queue_of (push (potion 1 ∷ potion 2 ∷ potion 3 ∷ potion 4 ∷ potion 5 ∷ []) (potion 6))
add_item-push_example =
    add_item-push (potion 1 ∷ potion 2 ∷ potion 3 ∷ potion 4 ∷ potion 5 ∷ []) (potion 6)
      (omega arith)

calls-list_calls_example :
    calls (adds (potion 1) ∷ adds (potion 2) ∷ withdraws 0 ∷ []) (queue_of [])
    ≡ as_queue (list_calls (adds (potion 1) ∷ adds (potion 2) ∷ withdraws 0 ∷ []) [])
calls-list_calls_example =
    calls-list_calls (adds (potion 1) ∷ adds (potion 2) ∷ withdraws 0 ∷ []) [] (omega arith)

withdraws_only_held : withdraw_item (queue_of (potion 1 ∷ [])) 1 ≡ err beyond_size
unfolding withdraw_item
withdraws_only_held = refl
