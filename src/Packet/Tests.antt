-- ===== src/Packet/Tests.antt =====
-- Runs of the packets' builders and parsers on a stream of bytes.
use hyperbot.Prelude.{◌+◌, ◌/◌, ◌%◌, false, ◌≡◌, refl, some, [], ◌∷◌, ok}
use hyperbot.Item.{cos_ability_summoner}
use hyperbot.Packet.{written, Fits, number}
use hyperbot.Packet.Bytes.{byte_streams, byte_streams-IsFifo}
use hyperbot.Packet.Positions.{Location, Offsets, normalize_position}
use hyperbot.Packet.Commands.{
  ActionCommand, command_fields, target_fields, skill_fields, write_position, command,
  parse_command, item_use, parse_item_use, select_entity, parse_select, deselect_entity,
  parse_deselect, talk, parse_talk,
}
use hyperbot.Packet.Commands.RoundTrip.{parse_command-command, parse_request-request}
use hyperbot.Packet.Items.{cos_life_state, parse_generic_item}
use hyperbot.Packet.Items.Encoding.{same_ability, generic_fields}
use hyperbot.Packet.Items.RoundTrip.{parse_generic_item-written}
use hyperbot.Packet.Items.Building.{no_rent}
use hyperbot.Packet.Samples.{
  all_fit-Fits, blank_job, fresh, item_data, pet, pet_info, pet_made, rented,
}

abbrev nowhere : Location
nowhere = record { region_id = 0; x_offset = 0; y_offset = 0; z_offset = 0 }

abbrev blank_command : ActionCommand
blank_command = record {
  command_type = 0;
  action_type = 0;
  ref_skill_id = 77;
  target_type = 0;
  target_global_id = 0;
  position = nowhere;
}

-- A skill that is cast at a place.
abbrev storm : ActionCommand
storm = record {
  command_type = 1;
  action_type = 4;
  ref_skill_id = 300;
  target_type = 2;
  target_global_id = 5;
  position = record { region_id = 24000; x_offset = 2000; y_offset = 3; z_offset = 4 };
}

-- Offsets that are whole numbers, in regions of 1920.
abbrev whole_offsets : Offsets
whole_offsets = record {
  whole_regions = λ x. x / 1920;
  within_region = λ x. x % 1920;
  is_negative = λ x. false;
  add_region = λ x. x + 1920;
}

storm-Fits : Fits (command_fields storm [])
unfolding command_fields target_fields skill_fields write_position
storm-Fits = all_fit-Fits (command_fields storm []) refl

parse_command-command_example :
    parse_command byte_streams whole_offsets blank_command (command byte_streams storm).data_stream
    ≡ ok (
      record {
        command_type = 1;
        action_type = 4;
        ref_skill_id = 300;
        target_type = 2;
        target_global_id = 0;
        position = record { region_id = 24001; x_offset = 80; y_offset = 3; z_offset = 4 };
      },
      [],
    )
unfolding normalize_position
parse_command-command_example =
    parse_command-command byte_streams byte_streams-IsFifo whole_offsets blank_command storm
      storm-Fits

parse_request-request_example :
    (parse_item_use byte_streams (item_use byte_streams 20 3308).data_stream ≡ ok ((20, 3308), []))
    × (parse_select byte_streams (select_entity byte_streams 70000).data_stream ≡ ok (70000, []))
    × (parse_deselect byte_streams (deselect_entity byte_streams 70000).data_stream
        ≡ ok (70000, []))
    × (parse_talk byte_streams (talk byte_streams 70000 2).data_stream ≡ ok ((70000, 2), []))
parse_request-request_example =
    parse_request-request byte_streams byte_streams-IsFifo 20 3308 70000 2
      (all_fit-Fits (number 1 20 ∷ number 2 3308 ∷ number 4 70000 ∷ number 1 2 ∷ []) refl)

parse_generic_item-written_example :
    parse_generic_item byte_streams fresh no_rent blank_job item_data
      (written byte_streams (generic_fields rented 500 (cos_ability_summoner pet 1234) []))
    ≡ ok (
      record {
        ref_item_id = 500;
        item_info = some pet_info;
        fields = cos_ability_summoner pet 1234;
      },
      [],
    )
unfolding cos_life_state
parse_generic_item-written_example =
    parse_generic_item-written byte_streams byte_streams-IsFifo fresh no_rent blank_job item_data
      500 pet_info
      (record {
        ref_item_id = 500;
        item_info = some pet_info;
        fields = cos_ability_summoner fresh.new_cos 9;
      })
      rented (cos_ability_summoner pet 1234) refl pet_made same_ability
      (all_fit-Fits (generic_fields rented 500 (cos_ability_summoner pet 1234) []) refl)
