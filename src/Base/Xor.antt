-- ===== src/Base/Xor.antt =====
-- Laws of `bit_xor` at variables, from its definition on the lowest digit up.
use Prim.Native.Nat.{ℕ, zero, suc, ◌+◌, ◌-◌, ◌*◌, ◌/◌, ◌%◌, ◌≤◌, ◌<◌, bit_xor}
use Prim.Native.Nat.{digits, differ, bit_xor-bitwise}
use mathlib.Core.Path.{◌≡◌, refl, ap, ◌∙◌}
use native.Mathlib.Omega.{arith}
use go_hydra.Base.Tests.{agree_below, all_below}

abbrev xor_digits : ℕ → ℕ → ℕ → ℕ
xor_digits n a b = digits (λ y. y) differ n a b

differ_parity : (x y : ℕ) → x < 2 → y < 2 → differ x y ≡ (x + y) % 2
differ_parity zero zero p q = refl
differ_parity zero (suc zero) p q = refl
differ_parity zero (suc (suc y)) p q = absurd (omega arith)
differ_parity (suc zero) zero p q = refl
differ_parity (suc zero) (suc zero) p q = refl
differ_parity (suc zero) (suc (suc y)) p q = absurd (omega arith)
differ_parity (suc (suc x)) y p q = absurd (omega arith)

-- Any two counts of digits that reach past `a` give one result.
xor_digits_enough : (n m a b : ℕ) → a ≤ n → a ≤ m → xor_digits n a b ≡ xor_digits m a b
xor_digits_enough zero zero a b p q = refl
xor_digits_enough zero (suc m) zero b p q = refl
xor_digits_enough zero (suc m) (suc a) b p q = absurd (omega arith)
xor_digits_enough (suc n) zero zero b p q = refl
xor_digits_enough (suc n) zero (suc a) b p q = absurd (omega arith)
xor_digits_enough (suc n) (suc m) zero b p q = refl
xor_digits_enough (suc n) (suc m) (suc a) b p q =
    omega (arith, xor_digits_enough n m (suc a / 2) (b / 2) (omega arith) (omega arith))

pub zero-xor : (b : ℕ) → bit_xor 0 b ≡ b
zero-xor b = bit_xor-bitwise 0 b

pub xor_step : (a b : ℕ) → bit_xor a b ≡ bit_xor (a / 2) (b / 2) * 2 + (a + b) % 2
xor_step zero b = omega (arith, zero-xor b, zero-xor (b / 2))
xor_step (suc a) b = omega (
  arith,
  bit_xor-bitwise (suc a) b,
  bit_xor-bitwise (suc a / 2) (b / 2),
  xor_digits_enough a (suc a / 2) (suc a / 2) (b / 2) (omega arith) (omega arith),
  differ_parity (suc a % 2) (b % 2) (omega arith) (omega arith),
)

-- Each law by halving, with a count above the numbers for fuel.
xor_comm_below : (n a b : ℕ) → a ≤ n → b ≤ n → bit_xor a b ≡ bit_xor b a
xor_comm_below zero zero zero p q = refl
xor_comm_below zero (suc a) b p q = absurd (omega arith)
xor_comm_below zero zero (suc b) p q = absurd (omega arith)
xor_comm_below (suc n) a b p q = omega (
  arith,
  xor_step a b,
  xor_step b a,
  xor_comm_below n (a / 2) (b / 2) (omega arith) (omega arith),
)

pub xor_comm : (a b : ℕ) → bit_xor a b ≡ bit_xor b a
xor_comm a b = xor_comm_below (a + b) a b (omega arith) (omega arith)

pub xor-zero : (a : ℕ) → bit_xor a 0 ≡ a
xor-zero a = xor_comm a 0 ∙ zero-xor a

xor_self_below : (n a : ℕ) → a ≤ n → bit_xor a a ≡ 0
xor_self_below zero zero p = refl
xor_self_below zero (suc a) p = absurd (omega arith)
xor_self_below (suc n) a p = omega (arith, xor_step a a, xor_self_below n (a / 2) (omega arith))

pub xor_self : (a : ℕ) → bit_xor a a ≡ 0
xor_self a = xor_self_below a a (omega arith)

pub xor-div-two : (a b : ℕ) → bit_xor a b / 2 ≡ bit_xor (a / 2) (b / 2)
xor-div-two a b = omega (arith, xor_step a b)

pub xor-mod-two : (a b : ℕ) → bit_xor a b % 2 ≡ (a + b) % 2
xor-mod-two a b = omega (arith, xor_step a b)

xor_assoc_below :
    (n a b c : ℕ) → a ≤ n → b ≤ n → c ≤ n → bit_xor (bit_xor a b) c ≡ bit_xor a (bit_xor b c)
xor_assoc_below zero zero b c p q r = ground (arith, zero-xor b, zero-xor (bit_xor b c))
xor_assoc_below zero (suc a) b c p q r = absurd (omega arith)
xor_assoc_below (suc n) a b c p q r = ground (
  arith,
  xor_step (bit_xor a b) c,
  xor_step a (bit_xor b c),
  xor-div-two a b,
  xor-div-two b c,
  xor-mod-two a b,
  xor-mod-two b c,
  xor_assoc_below n (a / 2) (b / 2) (c / 2) (omega arith) (omega arith) (omega arith),
)

pub xor_assoc : (a b c : ℕ) → bit_xor (bit_xor a b) c ≡ bit_xor a (bit_xor b c)
xor_assoc a b c = xor_assoc_below (a + b + c) a b c (omega arith) (omega arith) (omega arith)

-- The same number on both sides can be cancelled.
pub xor_cancel : (a b : ℕ) → bit_xor (bit_xor a b) b ≡ a
xor_cancel a b = xor_assoc a b b ∙ ap (bit_xor a) (xor_self b) ∙ xor-zero a

pub xor-div-byte : (a b : ℕ) → bit_xor a b / 256 ≡ bit_xor (a / 256) (b / 256)
xor-div-byte a b = ground (
  arith,
  xor-div-two a b,
  xor-div-two (a / 2) (b / 2),
  xor-div-two (a / 4) (b / 4),
  xor-div-two (a / 8) (b / 8),
  xor-div-two (a / 16) (b / 16),
  xor-div-two (a / 32) (b / 32),
  xor-div-two (a / 64) (b / 64),
  xor-div-two (a / 128) (b / 128),
)

-- One more low digit: from the law at `m` to the law at `2 * m`, for numerals.
xor-mod-2 : (a b : ℕ) → bit_xor a b % 2 ≡ bit_xor (a % 2) (b % 2)
xor-mod-2 a b = ground (arith, xor_step a b, xor_step (a % 2) (b % 2), zero-xor 0)

xor-mod-4 : (a b : ℕ) → bit_xor a b % 4 ≡ bit_xor (a % 4) (b % 4)
xor-mod-4 a b = ground (arith, xor_step a b, xor_step (a % 4) (b % 4), xor-mod-2 (a / 2) (b / 2))

xor-mod-8 : (a b : ℕ) → bit_xor a b % 8 ≡ bit_xor (a % 8) (b % 8)
xor-mod-8 a b = ground (arith, xor_step a b, xor_step (a % 8) (b % 8), xor-mod-4 (a / 2) (b / 2))

xor-mod-16 : (a b : ℕ) → bit_xor a b % 16 ≡ bit_xor (a % 16) (b % 16)
xor-mod-16 a b = ground (arith, xor_step a b, xor_step (a % 16) (b % 16), xor-mod-8 (a / 2) (b / 2))

xor-mod-32 : (a b : ℕ) → bit_xor a b % 32 ≡ bit_xor (a % 32) (b % 32)
xor-mod-32 a b =
    ground (arith, xor_step a b, xor_step (a % 32) (b % 32), xor-mod-16 (a / 2) (b / 2))

xor-mod-64 : (a b : ℕ) → bit_xor a b % 64 ≡ bit_xor (a % 64) (b % 64)
xor-mod-64 a b =
    ground (arith, xor_step a b, xor_step (a % 64) (b % 64), xor-mod-32 (a / 2) (b / 2))

xor-mod-128 : (a b : ℕ) → bit_xor a b % 128 ≡ bit_xor (a % 128) (b % 128)
xor-mod-128 a b =
    ground (arith, xor_step a b, xor_step (a % 128) (b % 128), xor-mod-64 (a / 2) (b / 2))

pub xor-mod-byte : (a b : ℕ) → bit_xor a b % 256 ≡ bit_xor (a % 256) (b % 256)
xor-mod-byte a b =
    ground (arith, xor_step a b, xor_step (a % 256) (b % 256), xor-mod-128 (a / 2) (b / 2))

pub xor-IsByte : (a b : ℕ) → a < 256 → b < 256 → bit_xor a b < 256
xor-IsByte a b p q = ground (arith, xor-mod-byte a b)

-- The complement of a byte, as subtraction.
pub xor_complement : (x : ℕ) → x < 256 → bit_xor x (255 - x) ≡ 255
unfolding all_below
xor_complement x h = agree_below 256 (λ i. bit_xor i (255 - i)) (λ i. 255) x refl h
