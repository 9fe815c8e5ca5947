-- ===== src/Base/Or.antt =====
-- `bit_or` of numbers that share no digit is their sum; masks of low digits are remainders.
use Prim.Native.Nat.{ℕ, zero, suc, ◌+◌, ◌*◌, ◌/◌, ◌%◌, ◌^◌, ◌≤◌, ◌<◌, max, bit_and, bit_or}
use Prim.Native.Nat.{digits, bit_or-bitwise}
use mathlib.Core.Path.{◌≡◌, refl, ap}
use native.Mathlib.Nat.{pow-suc}
use native.Mathlib.Omega.{arith}
use go_hydra.Base.Bits.{and_step, bit_and-one}

abbrev or_digits : ℕ → ℕ → ℕ → ℕ
or_digits n a b = digits (λ y. y) max n a b

or_digits_enough : (n m a b : ℕ) → a ≤ n → a ≤ m → or_digits n a b ≡ or_digits m a b
or_digits_enough zero zero a b p q = refl
or_digits_enough zero (suc m) zero b p q = refl
or_digits_enough zero (suc m) (suc a) b p q = absurd (omega arith)
or_digits_enough (suc n) zero zero b p q = refl
or_digits_enough (suc n) zero (suc a) b p q = absurd (omega arith)
or_digits_enough (suc n) (suc m) zero b p q = refl
or_digits_enough (suc n) (suc m) (suc a) b p q =
    omega (arith, or_digits_enough n m (suc a / 2) (b / 2) (omega arith) (omega arith))

pub zero-or : (b : ℕ) → bit_or 0 b ≡ b
zero-or b = bit_or-bitwise 0 b

pub or_step : (a b : ℕ) → bit_or a b ≡ bit_or (a / 2) (b / 2) * 2 + max (a % 2) (b % 2)
or_step zero b = omega (arith, zero-or b, zero-or (b / 2))
or_step (suc a) b = omega (
  arith,
  bit_or-bitwise (suc a) b,
  bit_or-bitwise (suc a / 2) (b / 2),
  or_digits_enough a (suc a / 2) (suc a / 2) (b / 2) (omega arith) (omega arith),
)

double_shift : (q k : ℕ) → q * 2 ^ suc k ≡ 2 * (q * 2 ^ k)
double_shift q k = omega (arith, ap (λ (t : ℕ). q * t) (pow-suc 2 k))

-- `r | q << k`, where `r` fits in `k` bits.
pub or_above : (k r q : ℕ) → r < 2 ^ k → bit_or r (q * 2 ^ k) ≡ r + q * 2 ^ k
or_above zero zero q h = omega (arith, zero-or (q * 2 ^ 0))
or_above zero (suc r) q h = absurd (omega arith)
or_above (suc k) r q h =
    ground (arith, pow-suc 2 k, double_shift q k, or_step r (q * 2 ^ suc k), or_above k (r / 2) q)

-- `q << k | r`, likewise.
pub or_below : (k q r : ℕ) → r < 2 ^ k → bit_or (q * 2 ^ k) r ≡ q * 2 ^ k + r
or_below zero q zero h = ground (arith, or_zero q)
  where
    or_zero_below : (n a : ℕ) → a ≤ n → bit_or a 0 ≡ a
    or_zero_below n zero p = refl
    or_zero_below zero (suc a) p = absurd (omega arith)
    or_zero_below (suc n) (suc a) p =
        omega (arith, or_step (suc a) 0, or_zero_below n (suc a / 2) (omega arith))

    or_zero : (a : ℕ) → bit_or a 0 ≡ a
    or_zero a = or_zero_below a a (omega arith)
or_below zero q (suc r) h = absurd (omega arith)
or_below (suc k) q r h =
    ground (arith, pow-suc 2 k, double_shift q k, or_step (q * 2 ^ suc k) r, or_below k q (r / 2))

-- `c & 0x3f`.
pub low_six : (a : ℕ) → bit_and a 0x3f ≡ a % 64
low_six a = omega (
  arith,
  and_step a 63,
  and_step (a / 2) 31,
  and_step (a / 2 / 2) 15,
  and_step (a / 2 / 2 / 2) 7,
  and_step (a / 2 / 2 / 2 / 2) 3,
  bit_and-one (a / 2 / 2 / 2 / 2 / 2),
)

pub low_seven_any : (a : ℕ) → bit_and a 0x7f ≡ a % 128
low_seven_any a = omega (arith, and_step a 127, low_six (a / 2))
