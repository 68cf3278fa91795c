-- ===== src/TypeId/Masks.antt =====
-- The masks and shifts of type ids as arithmetic.
use hyperbot.Prelude.{ℕ, ◌+◌, ◌*◌, ◌/◌, ◌%◌, ◌^◌, ◌<◌, ◌≡◌, ◌∙◌, bit_and, bit_or, arith}
use hyperbot.Prelude.Bits.{bit_and_step, bit_and_mask, bit_or_fields, bit_or_comm}
use hyperbot.TypeId.{shl, make_type_id}

-- Dropping the two lowest bits of a mask.
mask_above : (a m : ℕ) → m % 4 ≡ 0 → bit_and a m ≡ bit_and (a / 2 / 2) (m / 2 / 2) * 4
mask_above a m h = omega (arith, bit_and_step a m, bit_and_step (a / 2) (m / 2))

pub and_mask1 : (a : ℕ) → bit_and a 28 ≡ a / 4 % 8 * 4
and_mask1 a = omega (arith, mask_above a 28, bit_and_mask 3 (a / 2 / 2))

pub and_mask2 : (a : ℕ) → bit_and a 124 ≡ a / 4 % 32 * 4
and_mask2 a = omega (arith, mask_above a 124, bit_and_mask 5 (a / 2 / 2))

pub and_mask3 : (a : ℕ) → bit_and a 2044 ≡ a / 4 % 512 * 4
and_mask3 a = omega (arith, mask_above a 2044, bit_and_mask 9 (a / 2 / 2))

pub and_mask4 : (a : ℕ) → bit_and a 65532 ≡ a / 4 % 16384 * 4
and_mask4 a = omega (arith, mask_above a 65532, bit_and_mask 14 (a / 2 / 2))

pub and_low2 : (a : ℕ) → bit_and a 3 ≡ a % 4
and_low2 a = bit_and_mask 2 a

pub and_low3 : (a : ℕ) → bit_and a 7 ≡ a % 8
and_low3 a = bit_and_mask 3 a

pub and_low4 : (a : ℕ) → bit_and a 15 ≡ a % 16
and_low4 a = bit_and_mask 4 a

pub and_low5 : (a : ℕ) → bit_and a 31 ≡ a % 32
and_low5 a = bit_and_mask 5 a

-- A field written above `low`, which fits below it.
pub or_above : (k low a : ℕ) → low < 2 ^ k → bit_or low (shl a k) ≡ a * 2 ^ k + low
or_above k low a h = bit_or_comm low (a * 2 ^ k) ∙ bit_or_fields k a low h

-- The four fields of a type id do not overlap when each is in its range.
pub make_type_id-sum :
    (t1 t2 t3 t4 : ℕ)
    → t1 < 8
    → t2 < 4
    → t3 < 16
    → t4 < 32
    → make_type_id t1 t2 t3 t4 ≡ t1 * 4 + t2 * 32 + t3 * 128 + t4 * 2048
unfolding make_type_id
make_type_id-sum t1 t2 t3 t4 h1 h2 h3 h4 =
    rw
      (
        or_above 5 (t1 * 4) t2 (omega arith),
        or_above 7 (t2 * 2 ^ 5 + t1 * 4) t3 (omega arith),
        or_above 11 (t3 * 2 ^ 7 + (t2 * 2 ^ 5 + t1 * 4)) t4 (omega arith),
      )
      (omega arith)
