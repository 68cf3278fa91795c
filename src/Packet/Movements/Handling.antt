-- ===== src/Packet/Movements/Handling.antt =====
-- bot/src/packetProcessor.cpp, serverAgentInventoryOperationResponseReceived: which movement of the
-- handler's model a parsed movement is. Purchases read the shop data and have none.
use hyperbot.Prelude.{ℕ, Option, none, some, List, [], ◌∷◌, ◌==◌, if◌then◌else◌}
use hyperbot.PacketProcessor.{
  ItemMovement, Response, failure, success, update_slots_inventory, update_slots_chest,
  update_slots_guild_chest, chest_deposit_item, chest_withdraw_item, guild_chest_deposit_item,
  guild_chest_withdraw_item, sell_item, buyback_item, pick_item, drop_item, remove_item_by_server,
  add_item_by_server, chest_withdraw_gold, chest_deposit_gold, guild_chest_deposit_gold,
  guild_chest_withdraw_gold, move_item_avatar_to_inventory, move_item_inventory_to_avatar,
  move_item_cos_to_inventory, move_item_inventory_to_cos, update_slots_inventory_cos, pick_item_cos,
  no_change,
}
use hyperbot.Item.{ItemInfo, CosJob, Fresh}
use hyperbot.Packet.{Streams, Parser, ◌>>=◌, pure}
use hyperbot.Packet.Items.{RentInfo}
use hyperbot.Packet.Movements.{Movement, OperationResponse, parse_operation_response}

-- The conditions of the handler's branches.
unfoldable pub handled : Movement → Option ItemMovement
handled m =
    if m.type == 0
    then some (update_slots_inventory m.src_slot m.dest_slot m.quantity)
    else if m.type == 1
    then some (update_slots_chest m.src_slot m.dest_slot m.quantity)
    else if m.type == 29
    then some (update_slots_guild_chest m.src_slot m.dest_slot m.quantity)
    else if m.type == 2
    then some (chest_deposit_item m.src_slot m.dest_slot)
    else if m.type == 3
    then some (chest_withdraw_item m.src_slot m.dest_slot)
    else if m.type == 30
    then some (guild_chest_deposit_item m.src_slot m.dest_slot)
    else if m.type == 31
    then some (guild_chest_withdraw_item m.src_slot m.dest_slot)
    else if m.type == 8
    then none
    else if m.type == 9
    then some (sell_item m.src_slot m.quantity)
    else if m.type == 34
    then some (buyback_item m.src_slot m.dest_slot m.quantity)
    else if m.type == 6
    then some (pick_item m.dest_slot m.new_item)
    else if m.type == 7
    then some (drop_item m.src_slot)
    else if m.type == 14
    then some (add_item_by_server m.dest_slot m.new_item)
    else if m.type == 15
    then some (remove_item_by_server m.src_slot)
    else if m.type == 10
    then some no_change
    else if m.type == 11
    then some (chest_withdraw_gold m.gold_amount)
    else if m.type == 12
    then some (chest_deposit_gold m.gold_amount)
    else if m.type == 33
    then some (guild_chest_deposit_gold m.gold_amount)
    else if m.type == 32
    then some (guild_chest_withdraw_gold m.gold_amount)
    else if m.type == 35
    then some (move_item_avatar_to_inventory m.src_slot m.dest_slot)
    else if m.type == 36
    then some (move_item_inventory_to_avatar m.src_slot m.dest_slot)
    else if m.type == 26
    then some (move_item_cos_to_inventory m.global_id m.src_slot m.dest_slot)
    else if m.type == 27
    then some (move_item_inventory_to_cos m.global_id m.src_slot m.dest_slot)
    else if m.type == 16
    then some (update_slots_inventory_cos m.global_id m.src_slot m.dest_slot m.quantity)
    else if m.type == 17
    then some (pick_item_cos m.global_id m.dest_slot m.new_item)
    else some no_change

unfoldable pub handled_all : List Movement → Option (List ItemMovement)
unfolding handled
handled_all [] = some []
handled_all (m ∷ ms) = elim (handled m) [
  | none ↦ none
  | some movement ↦ elim (handled_all ms) [ none ↦ none | some rest ↦ some (movement ∷ rest) ]
]

-- `packet.success()`, and the error code or the movements
unfoldable pub received : OperationResponse → Option Response
unfolding handled_all
received r =
    if r.result == 1
    then elim (handled_all r.item_movements) [ none ↦ none | some ms ↦ some (success ms) ]
    else some (failure r.error_code)

module _ (S : Streams) (fresh : Fresh) (blank_rent : RentInfo) (blank_job : CosJob)
    (item_data : ℕ → Option ItemInfo) (blank : Movement) where
  -- A packet, as the handler receives it.
  abbrev pub response_parser : OperationResponse → Parser S.Stream (Option Response)
  response_parser old =
      parse_operation_response S fresh blank_rent blank_job item_data old blank >>= λ response.
      pure (received response)
