-- ===== src/TypeId.antt =====
-- bot/src/type_id/typeCategory.cpp and the split of helpers.cpp: 16-bit type ids, laid out as
--   | TypeId4: 15..11 | TypeId3: 10..7 | TypeId2: 6..5 | TypeId1: 4..2 | bionic | cash |
-- and categories, which are a type id under a mask.
mod Masks
pub mod Split
pub mod Category
pub mod Inclusion
pub mod Siblings
pub mod Categories
mod Tests
use hyperbot.Prelude.{ℕ, ◌*◌, ◌/◌, ◌%◌, ◌^◌, Bool, false, bit_and, bit_or, ltb, ◌==◌, if◌then◌else◌}
use hyperbot.Prelude.{Result, ok, err}

-- `static_cast<uint16_t>` and `static_cast<uint8_t>`.
abbrev pub u16 : ℕ → ℕ
u16 n = n % 2 ^ 16

abbrev pub u8 : ℕ → ℕ
u8 n = n % 2 ^ 8

abbrev pub shl : ℕ → ℕ → ℕ
shl a k = a * 2 ^ k

abbrev pub shr : ℕ → ℕ → ℕ
shr a k = a / 2 ^ k

-- The arguments are uint16_t; the shifts and `|` are done on int, and the result is truncated.
unfoldable pub make_type_id : ℕ → ℕ → ℕ → ℕ → ℕ
make_type_id t1 t2 t3 t4 =
    u16 (bit_or (bit_or (bit_or (shl t1 2) (shl t2 5)) (shl t3 7)) (shl t4 11))

-- helpers::type_id::splitTypeId
unfoldable pub split_type_id : ℕ → ℕ × ℕ × ℕ × ℕ
split_type_id t = (
  u8 (bit_and (shr t 2) 0b111),
  u8 (bit_and (shr t 5) 0b11),
  u8 (bit_and (shr t 7) 0b1111),
  u8 (shr t 11),
)

abbrev pub type_id1_mask : ℕ
type_id1_mask = 0b11100

abbrev pub type_id2_mask : ℕ
type_id2_mask = 0b1111100

abbrev pub type_id3_mask : ℕ
type_id3_mask = 0b11111111100

abbrev pub type_id4_mask : ℕ
type_id4_mask = 0b1111111111111100

pub record TypeCategory : Type 0 where
  pub type_id_data : ℕ
  pub type_id_mask : ℕ

-- TypeCategory(uint8_t): a category of the first level.
unfoldable pub top_category : ℕ → TypeCategory
top_category t = record {
  type_id_data = u16 (shl (bit_and t 0b111) 2);
  type_id_mask = type_id1_mask;
}

-- TypeCategory(TypeId, TypeId = kTypeId4Mask) with the default mask: one concrete type.
unfoldable pub concrete_category : ℕ → TypeCategory
concrete_category t = record { type_id_data = t; type_id_mask = type_id4_mask }

-- The code's last branch is not guarded: the throw after it is never reached.
unfoldable pub sub_category : TypeCategory → ℕ → TypeCategory
sub_category c next =
    if c.type_id_mask == type_id1_mask
    then record {
      type_id_data = u16 (bit_or c.type_id_data (shl (bit_and next 0b11) 5));
      type_id_mask = type_id2_mask;
    }
    else if c.type_id_mask == type_id2_mask
    then record {
      type_id_data = u16 (bit_or c.type_id_data (shl (bit_and next 0b1111) 7));
      type_id_mask = type_id3_mask;
    }
    else record {
      type_id_data = u16 (bit_or c.type_id_data (shl (bit_and next 0b11111) 11));
      type_id_mask = type_id4_mask;
    }

-- contains(TypeId)
unfoldable pub contains_id : TypeCategory → ℕ → Bool
contains_id c t = bit_and t c.type_id_mask == bit_and c.type_id_data c.type_id_mask

-- contains(TypeCategory)
unfoldable pub contains : TypeCategory → TypeCategory → Bool
unfolding contains_id
contains c d = if ltb d.type_id_mask c.type_id_mask then false else contains_id c d.type_id_data

unfoldable pub is_concrete_item : TypeCategory → Bool
is_concrete_item c = type_id4_mask == c.type_id_mask

pub data CategoryError : Type 0 where
  non_concrete : CategoryError

unfoldable pub get_type_id : TypeCategory → Result CategoryError ℕ
unfolding is_concrete_item
get_type_id c = if is_concrete_item c then ok c.type_id_data else err non_concrete
