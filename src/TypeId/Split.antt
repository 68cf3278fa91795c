-- ===== src/TypeId/Split.antt =====
-- Packing a type id and splitting it again are inverse to each other, up to the two flag bits.
use hyperbot.Prelude.{ℕ, ◌+◌, ◌*◌, ◌-◌, ◌/◌, ◌%◌, ◌^◌, ◌<◌, ◌≡◌, arith}
use hyperbot.TypeId.{make_type_id, split_type_id}
use hyperbot.TypeId.Masks.{make_type_id-sum, and_low2, and_low3, and_low4}

-- The fields of a type id, by division.
pub split_type_id-fields :
    (t : ℕ) → t < 2 ^ 16 → split_type_id t ≡ (t / 4 % 8, t / 32 % 4, t / 128 % 16, t / 2048)
unfolding split_type_id
split_type_id-fields t h = ground (arith, and_low3 (t / 4), and_low2 (t / 32), and_low4 (t / 128))

-- Splitting gives back the four numbers that were packed, when each is in its field's range.
pub split_type_id-make_type_id :
    (t1 t2 t3 t4 : ℕ)
    → t1 < 8
    → t2 < 4
    → t3 < 16
    → t4 < 32
    → split_type_id (make_type_id t1 t2 t3 t4) ≡ (t1, t2, t3, t4)
split_type_id-make_type_id t1 t2 t3 t4 h1 h2 h3 h4 =
    let packed = t1 * 4 + t2 * 32 + t3 * 128 + t4 * 2048 in
    rw (make_type_id-sum t1 t2 t3 t4 h1 h2 h3 h4)
      (ground (arith, split_type_id-fields packed (omega arith)))

-- Packing the split parts of a 16-bit type id gives the id without its cash and bionic bits.
pub make_type_id-split_type_id :
    (t : ℕ)
    → t < 2 ^ 16
    → let (t1, t2, t3, t4) = split_type_id t in make_type_id t1 t2 t3 t4 ≡ t - t % 4
make_type_id-split_type_id t h =
    rw (split_type_id-fields t h)
      (omega (arith, make_type_id-sum (t / 4 % 8) (t / 32 % 4) (t / 128 % 16) (t / 2048)))
