-- ===== src/Packet/Positions.antt =====
-- sro::Position, silkroad_lib/src/silkroad_lib/position.cpp and position_math.cpp. A float is its 32
-- bits, and the operations on floats are parameters.
use hyperbot.Prelude.{ℕ, ◌+◌, ◌*◌, ◌/◌, ◌%◌, ◌^◌, Bool, bit_and, bit_or, ltb, if◌then◌else◌}

-- sro::Position
pub record Location : Type 0 where
  pub region_id : ℕ
  pub x_offset : ℕ
  pub y_offset : ℕ
  pub z_offset : ℕ

-- What Position::normalize does with an offset: static_cast<Sector>(floor(x / kRegionSize)),
-- std::fmod(x, kRegionSize), x < 0 and x + kRegionSize.
pub record Offsets : Type 0 where
  pub whole_regions : ℕ → ℕ
  pub within_region : ℕ → ℕ
  pub is_negative : ℕ → Bool
  pub add_region : ℕ → ℕ

-- regionIsDungeon
unfoldable pub is_dungeon : ℕ → Bool
is_dungeon region_id = ltb 0 (bit_and region_id 0x8000)

unfoldable pub x_sector : Location → ℕ
x_sector p = bit_and p.region_id 0xFF

unfoldable pub z_sector : Location → ℕ
z_sector p = bit_and (p.region_id / 2 ^ 8) 0x7F

-- worldRegionIdFromSectors
unfoldable pub region_of_sectors : ℕ → ℕ → ℕ
region_of_sectors x z = bit_or (bit_and x 0xFF) (bit_and z 0xFF * 2 ^ 8 % 2 ^ 16)

unfoldable pub normal_offset : Offsets → ℕ → ℕ
normal_offset o x =
    let rest = o.within_region x in if o.is_negative rest then o.add_region rest else rest

-- Position::normalize. A Sector has eight bits.
unfoldable pub normalize_position : Offsets → Location → Location
unfolding is_dungeon x_sector z_sector region_of_sectors normal_offset
normalize_position o p = if is_dungeon p.region_id then p else record {
  region_id =
      region_of_sectors ((x_sector p + o.whole_regions p.x_offset) % 2 ^ 8)
        ((z_sector p + o.whole_regions p.z_offset) % 2 ^ 8);
  x_offset = normal_offset o p.x_offset;
  y_offset = p.y_offset;
  z_offset = normal_offset o p.z_offset;
}
