-- ===== src/Packet/Movements.antt =====
-- bot/src/packet/parsing/serverAgentInventoryOperationResponse.cpp, and the kinds of movements of
-- bot/src/packet/enums/packetEnums.hpp. Log lines are left out.
pub mod Reports
pub mod Understanding
pub mod RoundTrip
pub mod Slots
pub mod Handling
pub mod Injected
pub mod Purchases
pub mod Purchasing
mod Tests
use hyperbot.Prelude.{
  ℕ, Bool, true, false, ◌||◌, Option, none, some, List, [], ◌∷◌, ◌++◌, ◌==◌, if◌then◌else◌, Result,
  ok, err,
}
use hyperbot.Item.{Item, ItemInfo, CosJob, Fresh}
use hyperbot.Packet.{
  Streams, ParseError, gold_slot_of_cos, Parser, ◌>>=◌, pure, throw, repeat, read_into, read,
  read_characters,
}
use hyperbot.Packet.Items.{RentInfo, parse_rent_info, parse_generic_item}

-- packet::structures::ItemMovement
pub record Movement : Type 0 where
  pub type : ℕ
  pub src_slot : ℕ
  pub dest_slot : ℕ
  pub quantity : ℕ
  pub gold_pick_amount : ℕ
  pub gold_amount : ℕ
  pub global_id : ℕ
  pub store_tab_number : ℕ
  pub store_slot_number : ℕ
  pub stack_count : ℕ
  pub dest_slots : List ℕ
  pub rent_infos : List RentInfo
  pub buyback_stack_size : ℕ
  pub new_item : Option Item

-- The branches of the parser.
pub data Format : Type 0 where
  slots_and_others slots amount picked source pet_slots_quantity added removed pet_slots : Format
  slots_quantity bought sold bought_back picked_by_other picked_by_pet nothing_more : Format

-- The conditions of the branches, on the number of an ItemMovementType.
unfoldable pub format : ℕ → Format
format n =
    if n == 0 || n == 35 || n == 36
    then slots_and_others
    else if n == 2 || n == 3 || n == 30 || n == 31
    then slots
    else if n == 10 || n == 11 || n == 12 || n == 33 || n == 32 || n == 13
    then amount
    else if n == 6
    then picked
    else if n == 7
    then source
    else if n == 16
    then pet_slots_quantity
    else if n == 14
    then added
    else if n == 15
    then removed
    else if n == 26 || n == 27
    then pet_slots
    else if n == 1 || n == 29
    then slots_quantity
    else if n == 8
    then bought
    else if n == 9
    then sold
    else if n == 34
    then bought_back
    else if n == 28
    then picked_by_other
    else if n == 17
    then picked_by_pet
    else nothing_more

-- ServerAgentInventoryOperationResponse
pub record OperationResponse : Type 0 where
  pub result : ℕ
  pub error_code : ℕ
  pub item_movements : List Movement

-- The primary movement is inserted at the beginning of the others, or pushed back.
abbrev pub place_first : Movement → List Movement → List Movement
place_first m [] = [] ++ (m ∷ [])
place_first m (other ∷ others) = m ∷ other ∷ others

module _ (S : Streams) (fresh : Fresh) (blank_rent : RentInfo) (blank_job : CosJob)
    (item_data : ℕ → Option ItemInfo) where
  abbrev item_parser : Parser S.Stream Item
  item_parser = parse_generic_item S fresh blank_rent blank_job item_data

  unfoldable pub parse_slots : Movement → Parser S.Stream Movement
  parse_slots m =
      read S 1 >>= λ src. read S 1 >>= λ dest. pure (record m { src_slot = src; dest_slot = dest })

  unfoldable pub parse_slots_quantity : Movement → Parser S.Stream Movement
  parse_slots_quantity m = read S 1 >>= λ src. read S 1 >>= λ dest. read S 2 >>= λ quantity.
      pure (record m { src_slot = src; dest_slot = dest; quantity = quantity })

  -- A movement that the primary one forces.
  unfoldable pub parse_secondary : Movement → Parser S.Stream Movement
  unfolding parse_slots_quantity
  parse_secondary blank = read S 1 >>= λ type. parse_slots_quantity (record blank { type = type })

  unfoldable pub parse_new_item : Movement → Parser S.Stream Movement
  parse_new_item m = item_parser >>= λ item. pure (record m { new_item = some item })

  -- Gold is told by the slot.
  unfoldable pub parse_gold_or_item : Movement → ℕ → Parser S.Stream Movement
  unfolding parse_new_item
  parse_gold_or_item m dest =
      if dest == 0xFE
      then (read S 4 >>= λ gold. pure (record m { dest_slot = dest; gold_pick_amount = gold }))
      else parse_new_item (record m { dest_slot = dest })

  unfoldable pub parse_pet_item : Movement → ℕ → Parser S.Stream Movement
  unfolding parse_new_item
  parse_pet_item m dest =
      if dest == 0xFE
      then throw gold_slot_of_cos
      else (parse_new_item (record m { dest_slot = dest }) >>= λ m'.
          read S 2 >>= λ name_length. read_characters S name_length >>= λ owner. pure m')

  unfoldable pub parse_purchase : Movement → Parser S.Stream Movement
  parse_purchase m = read S 1 >>= λ tab. read S 1 >>= λ slot. read S 1 >>= λ stack_count.
      repeat stack_count (read S 1) >>= λ slots. read S 2 >>= λ quantity.
      repeat stack_count (parse_rent_info S blank_rent) >>= λ rents. pure (record m {
        store_tab_number = tab;
        store_slot_number = slot;
        dest_slots = m.dest_slots ++ slots;
        quantity = quantity;
        rent_infos = m.rent_infos ++ rents;
      })

  unfoldable pub parse_sale : Movement → Parser S.Stream Movement
  parse_sale m = read S 1 >>= λ src. read S 2 >>= λ quantity. read S 4 >>= λ npc.
      read S 1 >>= λ size.
      pure (record m {
        src_slot = src;
        quantity = quantity;
        global_id = npc;
        buyback_stack_size = size;
      })

  -- The branch without others.
  unfoldable pub parse_one : Format → Movement → Parser S.Stream Movement
  unfolding parse_slots parse_slots_quantity parse_new_item parse_gold_or_item parse_pet_item
      parse_purchase parse_sale
  parse_one slots_and_others m = parse_slots_quantity m
  parse_one slots m = parse_slots m
  parse_one amount m = read S 8 >>= λ gold. pure (record m { gold_amount = gold })
  parse_one picked m = read S 1 >>= λ dest. parse_gold_or_item m dest
  parse_one source m = read S 1 >>= λ src. pure (record m { src_slot = src })
  parse_one pet_slots_quantity m =
      read S 4 >>= λ id. parse_slots_quantity (record m { global_id = id })
  parse_one added m =
      read S 1 >>= λ dest. read S 1 >>= λ reason. parse_new_item (record m { dest_slot = dest })
  parse_one removed m =
      read S 1 >>= λ src. read S 1 >>= λ reason. pure (record m { src_slot = src })
  parse_one pet_slots m = read S 4 >>= λ id. parse_slots (record m { global_id = id })
  parse_one slots_quantity m = parse_slots_quantity m
  parse_one bought m = parse_purchase m
  parse_one sold m = parse_sale m
  parse_one bought_back m = read S 1 >>= λ dest. read S 1 >>= λ src. read S 2 >>= λ quantity.
      pure (record m { dest_slot = dest; src_slot = src; quantity = quantity })
  parse_one picked_by_other m =
      read S 4 >>= λ id. read S 1 >>= λ dest. parse_gold_or_item (record m { global_id = id }) dest
  parse_one picked_by_pet m =
      read S 4 >>= λ id. read S 1 >>= λ dest. parse_pet_item (record m { global_id = id }) dest
  parse_one nothing_more m = pure m

  -- Whether a count of other movements follows.
  unfoldable pub parse_others : Format → Movement → Parser S.Stream (List Movement)
  unfolding parse_secondary
  parse_others slots_and_others blank = read S 1 >>= λ count. repeat count (parse_secondary blank)
  parse_others _ blank = pure []

  unfoldable pub parse_movements : Movement → Parser S.Stream (List Movement)
  unfolding format parse_one parse_others
  parse_movements blank = read S 1 >>= λ type.
      parse_one (format type) (record blank { type = type }) >>= λ m.
      parse_others (format type) blank >>= λ others. pure (place_first m others)

  -- The constructor ServerAgentInventoryOperationResponse
  unfoldable pub parse_operation_response :
      OperationResponse → Movement → Parser S.Stream OperationResponse
  unfolding parse_movements
  parse_operation_response old blank = read_into S 1 old.result >>= λ result.
      if result == 1
      then (parse_movements blank >>= λ ms.
          pure (record { result = result; error_code = old.error_code; item_movements = ms }))
      else (read_into S 2 old.error_code >>= λ code.
          pure (record { result = result; error_code = code; item_movements = [] }))
