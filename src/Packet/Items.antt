-- ===== src/Packet/Items.antt =====
-- bot/src/packet/parsing/commonParsing.cpp: the parsers of items. A `dynamic_cast` that follows the
-- item's `type` succeeds, since each constructor sets the type of its class. The item data are a
-- parameter (they come from the game's archives).
pub mod Encoding
pub mod Equipment
pub mod Summoners
pub mod RoundTrip
pub mod Building
use hyperbot.Prelude.{
  ℕ, Option, none, some, List, [], ◌∷◌, ◌++◌, ◌==◌, if◌then◌else◌, Result, ok, err,
}
use hyperbot.Item.{
  Item, ItemInfo, ItemMagicParam, SocketOptionData, AdvancedElixirOptionData, CosLifeState,
  inactive, summoned, active, dead, other_state, CosJob, EquipmentFields, CosFields, Fields,
  equipment, cos_growth_summoner, cos_ability_summoner, monster_capsule, magic_cube, expendable,
  stone, magic_pop, Fresh, new_item_by_type_data,
}
use hyperbot.Packet.{
  Streams, ParseError, unknown_item, no_item_object, Parser, ◌>>=◌, pure, throw, repeat, read,
  read_characters,
}

-- structures::RentInfo
pub record RentInfo : Type 0 where
  pub rent_type : ℕ
  pub can_delete : ℕ
  pub period_begin_time : ℕ
  pub period_end_time : ℕ
  pub can_recharge : ℕ
  pub meter_rate_time : ℕ
  pub packing_time : ℕ

-- `static_cast<CosLifeState>(n)`
unfoldable pub cos_life_state : ℕ → CosLifeState
cos_life_state n =
    if n == 1
    then inactive
    else if n == 2
    then summoned
    else if n == 3
    then active
    else if n == 4
    then dead
    else other_state n

abbrev pub cos_summoner : Option ℕ × CosFields → Fields
cos_summoner (none, c) = cos_growth_summoner c
cos_summoner (some seconds, c) = cos_ability_summoner c seconds

module _ (S : Streams) where
  -- parseRentInfo: `blank` is the object before, whose numbers are not initialised.
  unfoldable pub parse_rent_info : RentInfo → Parser S.Stream RentInfo
  parse_rent_info blank = read S 4 >>= λ type.
      if type == 1
      then (read S 2 >>= λ can_delete. read S 4 >>= λ begin. read S 4 >>= λ end.
          pure (record blank {
            rent_type = type;
            can_delete = can_delete;
            period_begin_time = begin;
            period_end_time = end;
          }))
      else if type == 2
      then (read S 2 >>= λ can_delete. read S 2 >>= λ can_recharge. read S 4 >>= λ meter.
          pure (record blank {
            rent_type = type;
            can_delete = can_delete;
            can_recharge = can_recharge;
            meter_rate_time = meter;
          }))
      else if type == 3
      then (read S 2 >>= λ can_delete. read S 2 >>= λ can_recharge. read S 4 >>= λ begin.
          read S 4 >>= λ end. read S 4 >>= λ packing. pure (record blank {
            rent_type = type;
            can_delete = can_delete;
            can_recharge = can_recharge;
            period_begin_time = begin;
            period_end_time = end;
            packing_time = packing;
          }))
      else pure (record blank { rent_type = type })

  unfoldable pub parse_magic_param : Parser S.Stream ItemMagicParam
  parse_magic_param = do
    type ← read S 4
    value ← read S 4
    pure (record { type = type; value = value })

  unfoldable pub parse_socket_option : Parser S.Stream SocketOptionData
  parse_socket_option = do
    slot ← read S 1
    id ← read S 4
    param ← read S 4
    pure (record { slot = slot; id = id; n_param1 = param })

  unfoldable pub parse_elixir_option : Parser S.Stream AdvancedElixirOptionData
  parse_elixir_option = do
    slot ← read S 1
    id ← read S 4
    value ← read S 4
    pure (record { slot = slot; id = id; opt_value = value })

  -- A byte for the number, and so many elements.
  unfoldable pub parse_counted : {A : Type 0} → Parser S.Stream A → Parser S.Stream (List A)
  parse_counted p = read S 1 >>= λ n. repeat n p

  -- parseItem(ItemEquipment &)
  unfoldable pub parse_equipment : EquipmentFields → Parser S.Stream EquipmentFields
  unfolding parse_magic_param parse_socket_option parse_elixir_option parse_counted
  parse_equipment e = do
    opt_level ← read S 1
    variance ← read S 8
    durability ← read S 4
    params ← parse_counted parse_magic_param
    socket_type ← read S 1
    sockets ← parse_counted parse_socket_option
    elixir_type ← read S 1
    elixirs ← parse_counted parse_elixir_option
    pure (record {
      opt_level = opt_level;
      variance = variance;
      durability = durability;
      magic_params = e.magic_params ++ params;
      socket_options = e.socket_options ++ sockets;
      advanced_elixir_options = e.advanced_elixir_options ++ elixirs;
    })

  -- The numbers of a job that only category 5 has are not initialised before.
  unfoldable pub parse_job : CosJob → Parser S.Stream CosJob
  parse_job blank = read S 1 >>= λ category. read S 4 >>= λ job_id. read S 4 >>= λ time_to_keep.
      if category == 5
      then (read S 4 >>= λ data1. read S 1 >>= λ data2. pure (record {
        category = category;
        job_id = job_id;
        time_to_keep = time_to_keep;
        data1 = data1;
        data2 = data2;
      }))
      else pure (record blank { category = category; job_id = job_id; time_to_keep = time_to_keep })

  -- The special case for ability pets: only they have the seconds.
  unfoldable pub parse_rent_end : Option ℕ → Parser S.Stream (Option ℕ)
  parse_rent_end none = pure none
  parse_rent_end (some _) = read S 4 >>= λ seconds. pure (some seconds)

  -- parseItemCosSummoner
  unfoldable pub parse_summoned :
      CosJob → Option ℕ → CosFields → Parser S.Stream (Option ℕ × CosFields)
  unfolding parse_job parse_rent_end parse_counted
  parse_summoned blank_job special c = do
    ref ← read S 4
    name_length ← read S 2
    name ← read_characters S name_length
    seconds ← parse_rent_end special
    jobs ← parse_counted (parse_job blank_job)
    pure (seconds, record c { ref_obj_id = ref; name = name; jobs = c.jobs ++ jobs })

  unfoldable pub parse_item_cos_summoner :
      CosJob → Option ℕ → CosFields → Parser S.Stream (Option ℕ × CosFields)
  unfolding parse_summoned cos_life_state
  parse_item_cos_summoner blank_job special c = read S 1 >>= λ state.
      if state == 1
      then pure (special, record c { life_state = inactive })
      else parse_summoned blank_job special (record c { life_state = cos_life_state state })

  -- parseItem(Item *), which calls the overload of the item's class
  unfoldable pub parse_fields : CosJob → Fields → Parser S.Stream Fields
  unfolding parse_equipment parse_item_cos_summoner parse_counted parse_magic_param
  parse_fields blank_job (equipment e) = parse_equipment e >>= λ e'. pure (equipment e')
  parse_fields blank_job (cos_growth_summoner c) =
      parse_item_cos_summoner blank_job none c >>= λ c'. pure (cos_summoner c')
  parse_fields blank_job (cos_ability_summoner c seconds) =
      parse_item_cos_summoner blank_job (some seconds) c >>= λ c'. pure (cos_summoner c')
  parse_fields blank_job (monster_capsule _) = read S 4 >>= λ ref. pure (monster_capsule ref)
  parse_fields blank_job (magic_cube _) = read S 4 >>= λ q. pure (magic_cube q)
  parse_fields blank_job (expendable _) = read S 2 >>= λ q. pure (expendable q)
  parse_fields blank_job (stone _ _) = read S 2 >>= λ q. read S 1 >>= λ p. pure (stone q p)
  parse_fields blank_job (magic_pop _ ps) = read S 2 >>= λ q.
      parse_counted parse_magic_param >>= λ params. pure (magic_pop q (ps ++ params))

  unfoldable pub parse_item : CosJob → Option Item → Parser S.Stream Item
  unfolding parse_fields
  parse_item blank_job none = throw no_item_object
  parse_item blank_job (some item) =
      parse_fields blank_job item.fields >>= λ fields. pure (record item { fields = fields })

  -- parseGenericItem
  unfoldable pub parse_generic_item :
      Fresh → RentInfo → CosJob → (ℕ → Option ItemInfo) → Parser S.Stream Item
  unfolding parse_rent_info parse_item
  parse_generic_item fresh blank_rent blank_job item_data = parse_rent_info blank_rent >>= λ rent.
      read S 4 >>= λ ref. elim (item_data ref) [
        | none ↦ throw unknown_item
        | some info ↦ parse_item blank_job (new_item_by_type_data fresh info)
      ]
