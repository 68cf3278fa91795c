-- ===== src/PacketProcessor/Tests.antt =====
-- Responses of the server, and the theorems about them at a concrete character.
use hyperbot.Prelude.{◌≡◌, refl, inr, none, some, List, [], ◌∷◌, ok, arith}
use hyperbot.Item.{Item, expendable, as_expendable}
use hyperbot.ItemList
use hyperbot.ItemList.{ItemList, slot_at}
use hyperbot.Buyback.Queue.{queue_of}
use hyperbot.StateMachine.{inventory, storage}
use hyperbot.PacketProcessor.{
  SelfState, ItemMovement, Event, item_moved, item_move_failed, at, chest_deposit_item, sell_item,
  buyback_item, chest_deposit_gold, guild_chest_deposit_gold, failure, process_all,
  response_received,
}
use hyperbot.PacketProcessor.Transfers.{ConservesAll, process_all-ConservesAll}
use hyperbot.PacketProcessor.Selling.{sell-buyback}
use hyperbot.PacketProcessor.Gold.{
  Balances, sum_by, deposited, withdrawn, guild_deposited, guild_withdrawn, process_all-Balances,
}

abbrev potions : Item
potions = record { ref_item_id = 5; item_info = none; fields = expendable 20 }

abbrev player : SelfState
player = record {
  global_id = 9;
  inventory_items = none ∷ some potions ∷ none ∷ [];
  avatar_items = none ∷ [];
  storage_items = none ∷ none ∷ [];
  guild_items = none ∷ [];
  cos_items = (3, none ∷ none ∷ []) ∷ [];
  buyback = queue_of [];
  storage_gold = 100;
  guild_gold = 100;
}

abbrev moves : List ItemMovement
moves = chest_deposit_item 1 0 ∷ []

abbrev after_moves : SelfState
after_moves = record player {
  inventory_items = none ∷ none ∷ none ∷ [];
  storage_items = some potions ∷ none ∷ [];
}

abbrev move_events : List Event
move_events = item_moved 9 (at inventory 1) (at storage 0) ∷ []

deposit_run : process_all player moves ≡ ok (after_moves, move_events)
unfolding process_all ItemList.withdraw_item ItemList.add_item
deposit_run = refl

failure_run : response_received player (failure 7) ≡ ok (player, item_move_failed 9 7 ∷ [])
unfolding response_received
failure_run = refl

process_all-ConservesAll_example : ConservesAll 5 player 1 (after_moves, move_events)
process_all-ConservesAll_example =
    process_all-ConservesAll 5 player after_moves moves move_events refl deposit_run

sell-buyback_example :
    process_all player (sell_item 1 20 ∷ buyback_item 0 1 20 ∷ [])
    ≡ ok (player, item_moved 9 (at inventory 1) none ∷ item_moved 9 none (at inventory 1) ∷ [])
sell-buyback_example =
    sell-buyback player [] 1 20 potions refl (omega arith) refl (omega arith)
      (inr (unfold as_expendable in refl))

abbrev gold_moves : List ItemMovement
gold_moves = chest_deposit_gold 30 ∷ guild_chest_deposit_gold 40 ∷ []

gold_run :
    (events : List Event) × (process_all player gold_moves
      ≡ ok (record player { storage_gold = 130; guild_gold = 60 }, events))
unfolding process_all
gold_run = (_, refl)

process_all-Balances_example :
    Balances player
      (sum_by deposited gold_moves)
      (sum_by withdrawn gold_moves)
      (sum_by guild_deposited gold_moves)
      (sum_by guild_withdrawn gold_moves)
      (record player { storage_gold = 130; guild_gold = 60 })
process_all-Balances_example =
    process_all-Balances player (record player { storage_gold = 130; guild_gold = 60 }) gold_moves
      gold_run.0 (omega arith) gold_run.1
