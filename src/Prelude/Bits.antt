-- ===== src/Prelude/Bits.antt =====
-- Laws of the native bit operations at variables: each as a recursion on the lowest digit, exclusive
-- or as its own inverse, and masks and joined fields as arithmetic.
use Prim.Native.Nat.{ℕ, zero, suc, ◌+◌, ◌*◌, ◌/◌, ◌%◌, ◌^◌, ◌≤◌, ◌<◌, ◌-◌, min, max, differ, digits}
use Prim.Native.Nat.{bit_and, bit_or, bit_xor, bit_and-bitwise, bit_or-bitwise, bit_xor-bitwise}
use mathlib.Core.Path.{◌≡◌, refl, ap}
use native.Mathlib.Nat.{pow-suc, one-le-pow}
use native.Mathlib.Omega.{arith}

module _ (z : ℕ → ℕ) (f : ℕ → ℕ → ℕ) where
  digits-done : (n b : ℕ) → digits z f n 0 b ≡ z b
  digits-done zero b = refl
  digits-done (suc n) b = refl

  -- Any two counts of digits that cover the first number give the same.
  digits-covered : (a b n m : ℕ) → a ≤ n → a ≤ m → digits z f n a b ≡ digits z f m a b
  digits-covered zero b n m p q = rw (digits-done n b, digits-done m b)
  digits-covered (suc a) b zero m p q = absurd (omega arith)
  digits-covered (suc a) b (suc n) zero p q = absurd (omega arith)
  digits-covered (suc a) b (suc n) (suc m) p q =
      omega (arith, digits-covered (suc a / 2) (b / 2) n m (omega arith) (omega arith))

  digits-suc :
      (a b : ℕ)
      → digits z f (suc a) (suc a) b
        ≡ digits z f (suc a / 2) (suc a / 2) (b / 2) * 2 + f (suc a % 2) (b % 2)
  digits-suc a b =
      omega (arith, digits-covered (suc a / 2) (b / 2) a (suc a / 2) (omega arith) (omega arith))

pub bit_and_step : (a b : ℕ) → bit_and a b ≡ min (a % 2) (b % 2) + 2 * bit_and (a / 2) (b / 2)
bit_and_step zero b = rw (bit_and-bitwise 0 b, bit_and-bitwise (0 / 2) (b / 2)) (omega arith)
bit_and_step (suc a) b =
    rw (bit_and-bitwise (suc a) b, bit_and-bitwise (suc a / 2) (b / 2))
      (omega (arith, digits-suc (λ _. 0) min a b))

pub bit_or_step : (a b : ℕ) → bit_or a b ≡ max (a % 2) (b % 2) + 2 * bit_or (a / 2) (b / 2)
bit_or_step zero b = rw (bit_or-bitwise 0 b, bit_or-bitwise (0 / 2) (b / 2)) (omega arith)
bit_or_step (suc a) b =
    rw (bit_or-bitwise (suc a) b, bit_or-bitwise (suc a / 2) (b / 2))
      (omega (arith, digits-suc (λ d. d) max a b))

differ-bits : (x y : ℕ) → x < 2 → y < 2 → differ x y ≡ (x + y) % 2
differ-bits zero y p q = omega arith
differ-bits (suc zero) zero p q = refl
differ-bits (suc zero) (suc zero) p q = refl
differ-bits (suc zero) (suc (suc y)) p q = absurd (omega arith)
differ-bits (suc (suc x)) y p q = absurd (omega arith)

pub bit_xor_step : (a b : ℕ) → bit_xor a b ≡ bit_xor (a / 2) (b / 2) * 2 + (a % 2 + b % 2) % 2
bit_xor_step zero b = simp bit_xor-bitwise (omega arith)
bit_xor_step (suc a) b = simp bit_xor-bitwise (
    omega (
      arith,
      digits-suc (λ d. d) differ a b,
      differ-bits (suc a % 2) (b % 2) (omega arith) (omega arith),
    ))

-- What is masked twice comes back.
xor_back : (n a b : ℕ) → a ≤ n → b ≤ n → bit_xor (bit_xor a b) b ≡ a
xor_back zero zero zero p q = refl
xor_back zero zero (suc b) p q = absurd (omega arith)
xor_back zero (suc a) b p q = absurd (omega arith)
xor_back (suc n) a b p q = omega (
  arith,
  bit_xor_step a b,
  bit_xor_step (bit_xor a b) b,
  ap (λ (t : ℕ). bit_xor t (b / 2)) (xor-half a b),
  xor_back n (a / 2) (b / 2) (omega arith) (omega arith),
)
  where
    xor-half : (a b : ℕ) → bit_xor a b / 2 ≡ bit_xor (a / 2) (b / 2)
    xor-half a b = omega (arith, bit_xor_step a b)

pub bit_xor-bit_xor : (a b : ℕ) → bit_xor (bit_xor a b) b ≡ a
bit_xor-bit_xor a b = xor_back (a + b) a b (omega arith) (omega arith)

pub bit_xor-lt : (k a b : ℕ) → a < 2 ^ k → b < 2 ^ k → bit_xor a b < 2 ^ k
bit_xor-lt zero zero zero p q = omega arith
bit_xor-lt zero zero (suc b) p q = absurd (omega arith)
bit_xor-lt zero (suc a) b p q = absurd (omega arith)
bit_xor-lt (suc k) a b p q = omega (
  arith,
  pow-suc 2 k,
  bit_xor_step a b,
  bit_xor-lt k (a / 2) (b / 2) (omega (arith, pow-suc 2 k)) (omega (arith, pow-suc 2 k)),
)

bit_or-zero_upto : (n a : ℕ) → a ≤ n → bit_or a 0 ≡ a
bit_or-zero_upto zero zero p = refl
bit_or-zero_upto zero (suc a) p = absurd (omega arith)
bit_or-zero_upto (suc n) a p =
    omega (arith, bit_or_step a 0, bit_or-zero_upto n (a / 2) (omega arith))

pub bit_or-zero : (a : ℕ) → bit_or a 0 ≡ a
bit_or-zero a = bit_or-zero_upto a a (omega arith)

bit_and-zero_upto : (n a : ℕ) → a ≤ n → bit_and a 0 ≡ 0
bit_and-zero_upto zero zero p = refl
bit_and-zero_upto zero (suc a) p = absurd (omega arith)
bit_and-zero_upto (suc n) a p =
    omega (arith, bit_and_step a 0, bit_and-zero_upto n (a / 2) (omega arith))

pub bit_and-zero : (a : ℕ) → bit_and a 0 ≡ 0
bit_and-zero a = bit_and-zero_upto a a (omega arith)

double : (k a : ℕ) → a * 2 ^ suc k ≡ 2 * (a * 2 ^ k)
double k a = omega (arith, ap (λ (t : ℕ). a * t) (pow-suc 2 k))

-- `a | b` of fields that do not overlap is their sum.
pub bit_or_fields : (k a b : ℕ) → b < 2 ^ k → bit_or (a * 2 ^ k) b ≡ a * 2 ^ k + b
bit_or_fields zero a b p = ground (arith, bit_or-zero a)
bit_or_fields (suc k) a b p =
    ground
      (arith, bit_or_step (a * 2 ^ suc k) b, double k a, pow-suc 2 k, bit_or_fields k a (b / 2))

bit_and_low : (k q r : ℕ) → r < 2 ^ k → bit_and (q * 2 ^ k + r) (2 ^ k - 1) ≡ r
bit_and_low zero q r p = omega (arith, bit_and-zero (q * 1 + r))
bit_and_low (suc k) q r p = ground (
  arith,
  double k q,
  pow-suc 2 k,
  one-le-pow k 2,
  bit_and_step (q * 2 ^ suc k + r) (2 ^ suc k - 1),
  bit_and_low k q (r / 2),
)

-- `a & (2 ^ k - 1)`
pub bit_and_mask : (k a : ℕ) → bit_and a (2 ^ k - 1) ≡ a % 2 ^ k
bit_and_mask k a = ground (arith, one-le-pow k 2, bit_and_low k (a / 2 ^ k) (a % 2 ^ k))

or_comm_upto : (n a b : ℕ) → a ≤ n → b ≤ n → bit_or a b ≡ bit_or b a
or_comm_upto zero zero zero p q = refl
or_comm_upto zero zero (suc b) p q = absurd (omega arith)
or_comm_upto zero (suc a) b p q = absurd (omega arith)
or_comm_upto (suc n) a b p q = omega (
  arith,
  bit_or_step a b,
  bit_or_step b a,
  or_comm_upto n (a / 2) (b / 2) (omega arith) (omega arith),
)

pub bit_or_comm : (a b : ℕ) → bit_or a b ≡ bit_or b a
bit_or_comm a b = or_comm_upto (a + b) a b (omega arith) (omega arith)
