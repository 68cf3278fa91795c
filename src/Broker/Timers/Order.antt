-- ===== src/Broker/Timers/Order.antt =====
-- The order of the timers.
use hyperbot.Prelude.{◌≤◌, ◌≡◌, ◌⊎◌, true, false, arith}
use hyperbot.Broker.Timers.{Timer, less}

module _ {T : Type 0} where
  pub less_trans : (a b c : Timer T) → less a b ≡ true → less b c ≡ true → less a c ≡ true
  unfolding less
  less_trans a b c h k = ground arith

  pub less_asym : (a b : Timer T) → less a b ≡ true → less b a ≡ false
  unfolding less
  less_asym a b h = ground arith

  pub less_total : (a b : Timer T) → (less a b ≡ true) ⊎ (less b a ≡ true) ⊎ (a.id ≡ b.id)
  unfolding less
  less_total a b = ground arith

  pub less_end : (a b : Timer T) → less a b ≡ false → b.end_time ≤ a.end_time
  unfolding less
  less_end a b h = ground arith

-- The order on timers is transitive and has no cycles of two, and relates any two timers with
-- different ids: of timers where a is before b and b is before c, a is before c and not after it,
-- and a fourth timer d with another id than a is before a or after it.
pub less_order :
    {T : Type 0} (a b c d : Timer T)
    → less a b ≡ true
    → less b c ≡ true
    → (less a c ≡ true)
      × (less c a ≡ false)
      × ((less a d ≡ true) ⊎ (less d a ≡ true) ⊎ (a.id ≡ d.id))
less_order a b c d h k =
    (less_trans a b c h k, less_asym a c (less_trans a b c h k), less_total a d)
