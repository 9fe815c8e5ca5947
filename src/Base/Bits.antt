-- ===== src/Base/Bits.antt =====
-- Facts about `bit_and` at the masks that the program uses.
use Prim.Native.Nat.{ℕ, zero, suc, ◌+◌, ◌*◌, ◌/◌, ◌%◌, ◌≤◌, ◌<◌, min, bit_and}
use Prim.Native.Nat.{digits, bit_and-bitwise}
use mathlib.Core.Path.{◌≡◌, refl}
use native.Mathlib.Omega.{arith}
use go_hydra.Base.Tests.{agree_below, all_below}

abbrev and_digits : ℕ → ℕ → ℕ → ℕ
and_digits fuel x y = digits (λ _. zero) min fuel x y

and_digits_enough :
    (fuel more x y : ℕ) → x ≤ fuel → x ≤ more → and_digits fuel x y ≡ and_digits more x y
and_digits_enough zero zero x y enough enough1 = refl
and_digits_enough zero (suc more) zero y enough enough1 = refl
and_digits_enough zero (suc more) (suc x) y enough enough1 = absurd (omega arith)
and_digits_enough (suc fuel) zero zero y enough enough1 = refl
and_digits_enough (suc fuel) zero (suc x) y enough enough1 = absurd (omega arith)
and_digits_enough (suc fuel) (suc more) zero y enough enough1 = refl
and_digits_enough (suc fuel) (suc more) (suc x) y enough enough1 =
    omega (arith, and_digits_enough fuel more (suc x / 2) (y / 2) (omega arith) (omega arith))

pub zero-and : (y : ℕ) → bit_and 0 y ≡ 0
zero-and y = bit_and-bitwise 0 y

pub and_step : (x y : ℕ) → bit_and x y ≡ bit_and (x / 2) (y / 2) * 2 + min (x % 2) (y % 2)
and_step zero y = omega (arith, zero-and y, zero-and (y / 2))
and_step (suc x) y = omega (
  arith,
  bit_and-bitwise (suc x) y,
  bit_and-bitwise (suc x / 2) (y / 2),
  and_digits_enough x (suc x / 2) (suc x / 2) (y / 2) (omega arith) (omega arith),
)

and-zero_below : (fuel x : ℕ) → x ≤ fuel → bit_and x 0 ≡ 0
and-zero_below fuel zero h = refl
and-zero_below zero (suc x) h = absurd (omega arith)
and-zero_below (suc fuel) (suc x) h =
    omega (arith, and_step (suc x) 0, and-zero_below fuel (suc x / 2) (omega arith))

pub and-zero : (x : ℕ) → bit_and x 0 ≡ 0
and-zero x = and-zero_below x x (omega arith)

pub bit_and-one : (x : ℕ) → bit_and x 1 ≡ x % 2
bit_and-one x = omega (arith, and_step x 1, and-zero (x / 2))

-- `c & 0x7f` of a byte.
pub low_seven : (c : ℕ) → c < 256 → bit_and c 0x7f ≡ c % 128
unfolding all_below
low_seven c h = agree_below 256 (λ i. bit_and i 0x7f) (λ i. i % 128) c refl h
