-- ===== src/Packet/Movements/Tests.antt =====
-- Runs of the parser of inventory operations and of its handler on a stream of bytes.
use hyperbot.Prelude.{◌≡◌, refl, none, some, [], ◌∷◌, ok, arith}
use hyperbot.Item.{as_expendable, Item, expendable}
use hyperbot.PacketProcessor.{success, failure, pick_item_cos, add_item_by_server}
use hyperbot.Packet.{written, PacketContainer, number}
use hyperbot.Packet.Bytes.{byte_streams, byte_streams-IsFifo}
use hyperbot.Packet.Items.Encoding.{same_expendable, generic_fields}
use hyperbot.Packet.Items.Building.{add_item_by_server_packet, no_rent}
use hyperbot.Packet.Movements.{parse_movements, Movement, OperationResponse}
use hyperbot.Packet.Movements.Handling.{response_parser}
use hyperbot.Packet.Movements.Reports.{SentItem, picked_by_pet, report_fields}
use hyperbot.Packet.Movements.RoundTrip.{received-parse_operation_response}
use hyperbot.Packet.Movements.Injected.{received-add_item_by_server_packet}
use hyperbot.Buyback.Queue.{queue_of}
use hyperbot.PacketProcessor.{SelfState}
use hyperbot.Packet.Movements.Purchasing.{
  Purchased, purchase_fields, process_purchase-parse_movements,
}
use hyperbot.Packet.Samples.{
  all_fit-Fits, arrows_fields, arrows_info, arrows_made, blank_job, fresh, item_data, rented,
}

abbrev blank_movement : Movement
blank_movement = record {
  type = 0;
  src_slot = 1;
  dest_slot = 2;
  quantity = 3;
  gold_pick_amount = 4;
  gold_amount = 5;
  global_id = 6;
  store_tab_number = 7;
  store_slot_number = 8;
  stack_count = 9;
  dest_slots = [];
  rent_infos = [];
  buyback_stack_size = 10;
  new_item = none;
}

abbrev old_response : OperationResponse
old_response = record { result = 0; error_code = 0; item_movements = [] }

abbrev some_arrows : SentItem fresh blank_job item_data
some_arrows = record {
  ref = 8;
  info = arrows_info;
  blank = record { ref_item_id = 8; item_info = some arrows_info; fields = expendable 9 };
  rent = no_rent;
  fields = expendable 50;
  known = refl;
  made = arrows_made;
  same = same_expendable;
}

abbrev arrows : Item
arrows = record { ref_item_id = 8; item_info = some arrows_info; fields = expendable 50 }

received-parse_operation_response_example :
    (response_parser byte_streams fresh no_rent blank_job item_data blank_movement old_response (
        written byte_streams (
          number 1 1
          ∷ report_fields fresh blank_job item_data
              (picked_by_pet 900 3 refl some_arrows (77 ∷ 101 ∷ []))
              []))
      ≡ ok (some (success (pick_item_cos 900 3 (some arrows) ∷ [])), []))
    × (response_parser byte_streams fresh no_rent blank_job item_data blank_movement old_response
          (written byte_streams (number 1 2 ∷ number 2 6190 ∷ []))
        ≡ ok (some (failure 6190), []))
received-parse_operation_response_example =
    received-parse_operation_response byte_streams byte_streams-IsFifo fresh no_rent blank_job
      item_data blank_movement old_response (picked_by_pet 900 3 refl some_arrows (77 ∷ 101 ∷ [])) 2
      6190 refl
      (all_fit-Fits
        (report_fields fresh blank_job item_data
          (picked_by_pet 900 3 refl some_arrows (77 ∷ 101 ∷ [])) [])
        refl)
      (all_fit-Fits (number 1 2 ∷ number 2 6190 ∷ []) refl) refl

abbrev arrows_packet : PacketContainer byte_streams
arrows_packet = record {
  opcode = 0xB034;
  data_stream = 1 ∷ 14 ∷ 13 ∷ 0 ∷ 0 ∷ 0 ∷ 0 ∷ 0 ∷ 8 ∷ 0 ∷ 0 ∷ 0 ∷ 50 ∷ 0 ∷ [];
  encrypted = 0;
  massive = 0;
}

arrows_built : add_item_by_server_packet byte_streams 13 arrows ≡ ok arrows_packet
unfolding add_item_by_server_packet as_expendable
arrows_built = refl

received-add_item_by_server_packet_example :
    response_parser byte_streams fresh no_rent blank_job item_data blank_movement old_response
      arrows_packet.data_stream
    ≡ ok (some (success (add_item_by_server 13 (some arrows) ∷ [])), [])
received-add_item_by_server_packet_example =
    received-add_item_by_server_packet byte_streams byte_streams-IsFifo fresh no_rent blank_job
      item_data blank_movement old_response 13 arrows_info (expendable 9) (expendable 50)
      arrows_packet refl arrows_fields same_expendable refl arrows_built
      (all_fit-Fits (number 1 13 ∷ generic_fields no_rent 8 (expendable 50) []) refl)

abbrev shopper : SelfState
shopper = record {
  global_id = 9;
  inventory_items = some arrows ∷ none ∷ none ∷ [];
  avatar_items = [];
  storage_items = [];
  guild_items = [];
  cos_items = [];
  buyback = queue_of [];
  storage_gold = 0;
  guild_gold = 0;
}

process_purchase-parse_movements_example :
    Purchased byte_streams
      (1 ∷ 2 ∷ [])
      1
      arrows
      (λ _. some arrows)
      blank_movement
      shopper
      2
      (parse_movements byte_streams fresh no_rent blank_job item_data blank_movement
        (written byte_streams (purchase_fields 0 3 (1 ∷ 2 ∷ []) 1 (no_rent ∷ rented ∷ []) [])))
process_purchase-parse_movements_example =
    process_purchase-parse_movements byte_streams byte_streams-IsFifo fresh no_rent blank_job
      item_data blank_movement 0 3 (1 ∷ 2 ∷ []) 1 (no_rent ∷ rented ∷ []) (λ _. some arrows) shopper
      blank_movement arrows refl refl
      (all_fit-Fits (purchase_fields 0 3 (1 ∷ 2 ∷ []) 1 (no_rent ∷ rented ∷ []) []) refl) refl
      (omega arith, refl, refl, (omega arith, refl, refl, tt))
