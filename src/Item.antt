-- ===== src/Item.antt =====
-- bot/src/storage/item.hpp and item.cpp: the items of a storage, their classes and reference data.
-- A `dynamic_cast` is a function into `Option`; reference data is a pointer that may be null.
pub mod Classes
mod Tests
use hyperbot.Prelude.{
  ℕ, ◌*◌, ◌-◌, ◌+◌, ◌/◌, Bool, true, false, ◌&&◌, ◌||◌, Option, none, some, List, [], ◌∷◌, bit_and,
  bit_or, ◌==◌, if◌then◌else◌, Result, ok, err,
}
use hyperbot.TypeId.{u16, shl, TypeCategory, contains_id}

-- sro::pk2::ref::Item, the columns that the storage code reads.
pub record ItemInfo : Type 0 where
  pub id : ℕ
  pub cash_item : ℕ
  pub bionic : ℕ
  pub type_id1 : ℕ
  pub type_id2 : ℕ
  pub type_id3 : ℕ
  pub type_id4 : ℕ
  pub max_stack : ℕ
  pub item_class : ℕ

pub data ItemType : Type 0 where
  item_equipment item_cos_growth_summoner item_cos_ability_summoner item_monster_capsule : ItemType
  item_storage item_expendable item_stone item_magic_pop : ItemType

pub record ItemMagicParam : Type 0 where
  pub type : ℕ
  pub value : ℕ

pub record SocketOptionData : Type 0 where
  pub slot : ℕ
  pub id : ℕ
  pub n_param1 : ℕ

pub record AdvancedElixirOptionData : Type 0 where
  pub slot : ℕ
  pub id : ℕ
  pub opt_value : ℕ

-- A byte without an enumerator is a value of the enum as well.
pub data CosLifeState : Type 0 where
  inactive summoned active dead : CosLifeState
  other_state : ℕ → CosLifeState

pub record CosJob : Type 0 where
  pub category : ℕ
  pub job_id : ℕ
  pub time_to_keep : ℕ
  pub data1 : ℕ
  pub data2 : ℕ

pub record EquipmentFields : Type 0 where
  pub opt_level : ℕ
  pub variance : ℕ
  pub durability : ℕ
  pub magic_params : List ItemMagicParam
  pub socket_options : List SocketOptionData
  pub advanced_elixir_options : List AdvancedElixirOptionData

pub record CosFields : Type 0 where
  pub life_state : CosLifeState
  pub ref_obj_id : ℕ
  pub name : List ℕ
  pub jobs : List CosJob

-- The fields that each class adds to `Item`, one constructor for each class.
pub data Fields : Type 0 where
  equipment : EquipmentFields → Fields
  cos_growth_summoner : CosFields → Fields
  cos_ability_summoner : CosFields → ℕ → Fields
  monster_capsule : ℕ → Fields
  magic_cube : ℕ → Fields
  expendable : ℕ → Fields
  stone : ℕ → ℕ → Fields
  magic_pop : ℕ → List ItemMagicParam → Fields

pub record Item : Type 0 where
  pub ref_item_id : ℕ
  pub item_info : Option ItemInfo
  pub fields : Fields

-- `Item::type`, which each constructor sets for its class.
unfoldable pub item_type : Item → ItemType
item_type item = elim item.fields [
  | equipment _ ↦ item_equipment
  | cos_growth_summoner _ ↦ item_cos_growth_summoner
  | cos_ability_summoner _ _ ↦ item_cos_ability_summoner
  | monster_capsule _ ↦ item_monster_capsule
  | magic_cube _ ↦ item_storage
  | expendable _ ↦ item_expendable
  | stone _ _ ↦ item_stone
  | magic_pop _ _ ↦ item_magic_pop
]

abbrev fields_quantity : Fields → Option ℕ
fields_quantity (expendable q) = some q
fields_quantity (stone q _) = some q
fields_quantity (magic_pop q _) = some q
fields_quantity _ = none

abbrev fields_set_quantity : ℕ → Fields → Fields
fields_set_quantity q (expendable _) = expendable q
fields_set_quantity q (stone _ p) = stone q p
fields_set_quantity q (magic_pop _ ps) = magic_pop q ps
fields_set_quantity q f = f

-- `dynamic_cast<ItemExpendable*>(item)`: the quantity, if the item is one.
unfoldable pub as_expendable : Item → Option ℕ
as_expendable item = fields_quantity item.fields

-- `itemExpendable->quantity = q`
unfoldable pub set_quantity : ℕ → Item → Item
set_quantity q item = record item { fields = fields_set_quantity q item.fields }

-- The bits of an `int16_t` read as a number, as far as it is not negative.
unfoldable pub get_quantity : Item → ℕ
unfolding as_expendable
get_quantity item = elim (as_expendable item) [ none ↦ 1 | some q ↦ q ]

pub data ItemError : Type 0 where
  no_item_data : ItemError

-- Item::typeId
unfoldable pub type_id : Item → Result ItemError ℕ
type_id item = elim item.item_info [
  | none ↦ err no_item_data
  | some info ↦ ok (
      u16 (
        bit_or
          (bit_or
            (bit_or
              (bit_or (bit_or (bit_and info.cash_item 0b1) (shl (bit_and info.bionic 0b1) 1))
                (shl (bit_and info.type_id1 0b111) 2))
              (shl (bit_and info.type_id2 0b11) 5))
            (shl (bit_and info.type_id3 0b1111) 7))
          (shl (bit_and info.type_id4 0b11111) 11)))
]

abbrev pub any_contains : List TypeCategory → ℕ → Bool
any_contains [] t = false
any_contains (c ∷ cs) t = if contains_id c t then true else any_contains cs t

-- Item::isOneOf
unfoldable pub is_one_of : Item → List TypeCategory → Result ItemError Bool
unfolding type_id
is_one_of item cs = elim (type_id item) [ err e ↦ err e | ok t ↦ ok (any_contains cs t) ]

-- The fields of a new object are what `fresh` gives: the source leaves numbers uninitialised.
pub record Fresh : Type 0 where
  pub new_equipment : EquipmentFields
  pub new_cos : CosFields
  pub new_number : ℕ

-- newItemByTypeData: the class that the type data calls for; null for a type that is no item.
module _ (fresh : Fresh) where
  open fresh use {new_equipment, new_cos, new_number}

  unfoldable pub new_fields : ItemInfo → Option Fields
  new_fields info =
      if type_id1 == 3
      then if type_id2 == 1
        then some (equipment new_equipment)
        else if type_id2 == 2
        then if type_id3 == 1
          then if type_id4 == 2
            then some (cos_ability_summoner new_cos new_number)
            else some (cos_growth_summoner new_cos)
          else if type_id3 == 2
          then some (monster_capsule new_number)
          else if type_id3 == 3
          then some (magic_cube new_number)
          else none
        else if type_id2 == 3
        then if type_id3 == 11 && (type_id4 == 1 || type_id4 == 2)
          then some (stone new_number new_number)
          else if type_id3 == 14 && type_id4 == 2
          then some (magic_pop new_number [])
          else some (expendable new_number)
        else none
      else none
    where
      open info use {type_id1, type_id2, type_id3, type_id4}

  unfoldable pub new_item_by_type_data : ItemInfo → Option Item
  unfolding new_fields
  new_item_by_type_data info = elim (new_fields info) [
    | none ↦ none
    | some f ↦ some (record { ref_item_id = info.id; item_info = some info; fields = f })
  ]

-- The copy constructors copy every field of their class.
abbrev clone_fields : Fields → Fields
clone_fields (equipment e) = equipment e
clone_fields (cos_growth_summoner c) = cos_growth_summoner c
clone_fields (cos_ability_summoner c seconds) = cos_ability_summoner c seconds
clone_fields (monster_capsule ref) = monster_capsule ref
clone_fields (magic_cube q) = magic_cube q
clone_fields (expendable q) = expendable q
clone_fields (stone q p) = stone q p
clone_fields (magic_pop q ps) = magic_pop q ps

unfoldable pub clone_item : Item → Item
clone_item item = record item { fields = clone_fields item.fields }
