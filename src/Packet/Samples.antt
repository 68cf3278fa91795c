-- ===== src/Packet/Samples.antt =====
-- Items, their data and a check of fields, for the runs.
use hyperbot.Prelude.{
  ltb→lt, if◌then◌else◌, ◌==◌, ltb, Bool, true, ◌&&◌, ◌^◌, ◌*◌, ℕ, ◌≡◌, refl, Option, none, some,
  List, [], ◌∷◌, arith,
}
use hyperbot.Item.{
  new_item_by_type_data, new_fields, ItemInfo, CosJob, CosFields, inactive, active, expendable,
  cos_ability_summoner, Fresh,
}
use hyperbot.Packet.{Fits, number, ascii, Field}
use hyperbot.Packet.Items.{RentInfo}

abbrev pub all_fit : List Field → Bool
all_fit [] = true
all_fit (number w x ∷ fields) = ltb x (2 ^ (8 * w)) && all_fit fields
all_fit (ascii s ∷ fields) = all_fit fields

pub all_fit-Fits : (fields : List Field) → all_fit fields ≡ true → Fits fields
all_fit-Fits [] h = tt
all_fit-Fits (number w x ∷ fields) h =
    let both : (ltb x (2 ^ (8 * w)) ≡ true) × (all_fit fields ≡ true) = ground arith in
    (ltb→lt x (2 ^ (8 * w)) both.0, all_fit-Fits fields both.1)
all_fit-Fits (ascii s ∷ fields) h = all_fit-Fits fields h

abbrev pub fresh : Fresh
fresh = record {
  new_equipment = record {
    opt_level = 0;
    variance = 0;
    durability = 0;
    magic_params = [];
    socket_options = [];
    advanced_elixir_options = [];
  };
  new_cos = record { life_state = inactive; ref_obj_id = 0; name = []; jobs = [] };
  new_number = 9;
}

abbrev pub blank_job : CosJob
blank_job = record { category = 0; job_id = 0; time_to_keep = 0; data1 = 0; data2 = 0 }

abbrev pub pet_info : ItemInfo
pet_info = record {
  id = 500;
  cash_item = 0;
  bionic = 0;
  type_id1 = 3;
  type_id2 = 2;
  type_id3 = 1;
  type_id4 = 2;
  max_stack = 1;
  item_class = 0;
}

abbrev pub arrows_info : ItemInfo
arrows_info = record {
  id = 8;
  cash_item = 0;
  bionic = 0;
  type_id1 = 3;
  type_id2 = 3;
  type_id3 = 4;
  type_id4 = 1;
  max_stack = 250;
  item_class = 0;
}

abbrev pub item_data : ℕ → Option ItemInfo
item_data n = if n == 8 then some arrows_info else if n == 500 then some pet_info else none

pub pet_made :
    new_item_by_type_data fresh pet_info
    ≡ some (record {
      ref_item_id = 500;
      item_info = some pet_info;
      fields = cos_ability_summoner fresh.new_cos 9;
    })
unfolding new_item_by_type_data
pet_made = refl

pub arrows_fields : new_fields fresh arrows_info ≡ some (expendable 9)
unfolding new_fields
arrows_fields = refl

pub arrows_made :
    new_item_by_type_data fresh arrows_info
    ≡ some (record { ref_item_id = 8; item_info = some arrows_info; fields = expendable 9 })
unfolding new_item_by_type_data
arrows_made = refl

abbrev pub pet : CosFields
pet = record {
  life_state = active;
  ref_obj_id = 40;
  name = 82 ∷ 101 ∷ [];
  jobs = record { category = 5; job_id = 3; time_to_keep = 60; data1 = 1; data2 = 2 } ∷ [];
}

abbrev pub rented : RentInfo
rented = record {
  rent_type = 2;
  can_delete = 1;
  period_begin_time = 0;
  period_end_time = 0;
  can_recharge = 0;
  meter_rate_time = 30;
  packing_time = 0;
}
