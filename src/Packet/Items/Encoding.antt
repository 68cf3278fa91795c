-- ===== src/Packet/Items/Encoding.antt =====
-- The fields of an item in a packet of the server, as the comments of writeGenericItem
-- (bot/src/packet/building/commonBuilding.cpp) list them, and what a new object of the class becomes
-- by them.
use hyperbot.Prelude.{
  ℕ, Bool, true, false, Option, none, some, List, ◌∷◌, ◌++◌, length, map, ◌==◌, if◌then◌else◌,
}
use hyperbot.Item.{
  ItemMagicParam, SocketOptionData, AdvancedElixirOptionData, CosLifeState, inactive, summoned,
  active, dead, other_state, CosJob, EquipmentFields, CosFields, Fields, equipment,
  cos_growth_summoner, cos_ability_summoner, monster_capsule, magic_cube, expendable, stone,
  magic_pop,
}
use hyperbot.Packet.{Field, number, ascii}
use hyperbot.Packet.Decoding.{each}
use hyperbot.Packet.Items.{RentInfo, cos_life_state, cos_summoner}

abbrev pub rent_type_fields : Bool → Bool → Bool → RentInfo → List Field → List Field
rent_type_fields true _ _ r rest =
    number 2 r.can_delete ∷ number 4 r.period_begin_time ∷ number 4 r.period_end_time ∷ rest
rent_type_fields false true _ r rest =
    number 2 r.can_delete ∷ number 2 r.can_recharge ∷ number 4 r.meter_rate_time ∷ rest
rent_type_fields false false true r rest =
    number 2 r.can_delete
    ∷ number 2 r.can_recharge
    ∷ number 4 r.period_begin_time
    ∷ number 4 r.period_end_time
    ∷ number 4 r.packing_time
    ∷ rest
rent_type_fields false false false r rest = rest

abbrev pub rent_fields : RentInfo → List Field → List Field
rent_fields r rest =
    number 4 r.rent_type
    ∷ rent_type_fields (r.rent_type == 1) (r.rent_type == 2) (r.rent_type == 3) r rest

abbrev pub magic_param_fields : ItemMagicParam → List Field → List Field
magic_param_fields p rest = number 4 p.type ∷ number 4 p.value ∷ rest

abbrev pub socket_option_fields : SocketOptionData → List Field → List Field
socket_option_fields o rest = number 1 o.slot ∷ number 4 o.id ∷ number 4 o.n_param1 ∷ rest

abbrev pub elixir_option_fields : AdvancedElixirOptionData → List Field → List Field
elixir_option_fields o rest = number 1 o.slot ∷ number 4 o.id ∷ number 4 o.opt_value ∷ rest

abbrev pub counted : {A : Type 0} → (A → List Field → List Field) → List A → List Field → List Field
counted encode xs rest = number 1 (length xs) ∷ each encode xs rest

abbrev pub equipment_fields : EquipmentFields → List Field → List Field
equipment_fields e rest =
    number 1 e.opt_level
    ∷ number 8 e.variance
    ∷ number 4 e.durability
    ∷ counted magic_param_fields e.magic_params (
        number 1 1
        ∷ counted socket_option_fields e.socket_options
            (number 1 2 ∷ counted elixir_option_fields e.advanced_elixir_options rest))

abbrev pub job_fields : CosJob → List Field → List Field
job_fields j rest =
    number 1 j.category
    ∷ number 4 j.job_id
    ∷ number 4 j.time_to_keep
    ∷ (if j.category == 5 then number 4 j.data1 ∷ number 1 j.data2 ∷ rest else rest)

abbrev pub state_number : CosLifeState → ℕ
state_number inactive = 1
state_number summoned = 2
state_number active = 3
state_number dead = 4
state_number (other_state n) = n

abbrev pub rent_end_fields : Option ℕ → List Field → List Field
rent_end_fields none rest = rest
rent_end_fields (some seconds) rest = number 4 seconds ∷ rest

abbrev pub summoned_fields : Option ℕ → CosFields → List Field → List Field
summoned_fields special c rest =
    number 4 c.ref_obj_id
    ∷ number 2 (length c.name)
    ∷ ascii c.name
    ∷ rent_end_fields special (counted job_fields c.jobs rest)

abbrev pub cos_fields : Option ℕ → CosFields → List Field → List Field
cos_fields special c rest =
    number 1 (state_number c.life_state)
    ∷ (if state_number c.life_state == 1 then rest else summoned_fields special c rest)

abbrev pub class_fields : Fields → List Field → List Field
class_fields (equipment e) rest = equipment_fields e rest
class_fields (cos_growth_summoner c) rest = cos_fields none c rest
class_fields (cos_ability_summoner c seconds) rest = cos_fields (some seconds) c rest
class_fields (monster_capsule ref) rest = number 4 ref ∷ rest
class_fields (magic_cube q) rest = number 4 q ∷ rest
class_fields (expendable q) rest = number 2 q ∷ rest
class_fields (stone q p) rest = number 2 q ∷ number 1 p ∷ rest
class_fields (magic_pop q ps) rest = number 2 q ∷ counted magic_param_fields ps rest

-- An item: its rent, its id, and the fields of its class.
abbrev pub generic_fields : RentInfo → ℕ → Fields → List Field → List Field
generic_fields rent ref fields rest = rent_fields rent (number 4 ref ∷ class_fields fields rest)

-- Two items of one class.
pub data SameClass : Fields → Fields → Type 0 where
  same_equipment : {e e' : EquipmentFields} → SameClass (equipment e) (equipment e')
  same_growth : {c c' : CosFields} → SameClass (cos_growth_summoner c) (cos_growth_summoner c')
  same_ability :
      {c c' : CosFields} {s s' : ℕ}
      → SameClass (cos_ability_summoner c s) (cos_ability_summoner c' s')
  same_capsule : {r r' : ℕ} → SameClass (monster_capsule r) (monster_capsule r')
  same_cube : {q q' : ℕ} → SameClass (magic_cube q) (magic_cube q')
  same_expendable : {q q' : ℕ} → SameClass (expendable q) (expendable q')
  same_stone : {q q' p p' : ℕ} → SameClass (stone q p) (stone q' p')
  same_pop :
      {q q' : ℕ} {ps ps' : List ItemMagicParam} → SameClass (magic_pop q ps) (magic_pop q' ps')

-- A blank job, with what is sent of another.
abbrev pub fill_job : CosJob → CosJob → CosJob
fill_job blank j =
    if j.category == 5
    then j
    else record blank { category = j.category; job_id = j.job_id; time_to_keep = j.time_to_keep }

abbrev pub fill_cos : CosJob → Option ℕ × CosFields → Option ℕ × CosFields → Option ℕ × CosFields
fill_cos blank_job (special, blank) (special', c) =
    if state_number c.life_state == 1 then (special, record blank { life_state = inactive }) else (
      special',
      record c {
        life_state = cos_life_state (state_number c.life_state);
        jobs = blank.jobs ++ map (fill_job blank_job) c.jobs;
      },
    )

-- A blank object with what is sent of another of its class.
abbrev pub fill : CosJob → Fields → Fields → Fields
fill blank_job (equipment blank) (equipment e) = equipment (record e {
  magic_params = blank.magic_params ++ e.magic_params;
  socket_options = blank.socket_options ++ e.socket_options;
  advanced_elixir_options = blank.advanced_elixir_options ++ e.advanced_elixir_options;
})
fill blank_job (cos_growth_summoner blank) (cos_growth_summoner c) =
    cos_summoner (fill_cos blank_job (none, blank) (none, c))
fill blank_job (cos_ability_summoner blank s) (cos_ability_summoner c s') =
    cos_summoner (fill_cos blank_job (some s, blank) (some s', c))
fill blank_job (magic_pop _ blank) (magic_pop q ps) = magic_pop q (blank ++ ps)
fill blank_job _ f = f

abbrev pub fill_rent_type : Bool → Bool → Bool → RentInfo → RentInfo → RentInfo
fill_rent_type true _ _ blank r = record blank {
  rent_type = r.rent_type;
  can_delete = r.can_delete;
  period_begin_time = r.period_begin_time;
  period_end_time = r.period_end_time;
}
fill_rent_type false true _ blank r = record blank {
  rent_type = r.rent_type;
  can_delete = r.can_delete;
  can_recharge = r.can_recharge;
  meter_rate_time = r.meter_rate_time;
}
fill_rent_type false false true blank r = record r { meter_rate_time = blank.meter_rate_time }
fill_rent_type false false false blank r = record blank { rent_type = r.rent_type }

-- A blank rent with what is sent of another.
abbrev pub fill_rent : RentInfo → RentInfo → RentInfo
fill_rent blank r = fill_rent_type (r.rent_type == 1) (r.rent_type == 2) (r.rent_type == 3) blank r
