-- ===== src/Crc/Bounds.antt =====
-- The running state stays a 16-bit or 32-bit word, and a step loses no information.
use native.Mathlib.Nat.{pow-suc}
use go_hydra.Base.{ℕ, zero, suc, ◌/◌, ◌^◌, ◌≤◌, ◌<◌, bit_xor, ◌≡◌, [], ◌∷◌, arith, Bytes, IsBytes}
use go_hydra.Base.Xor.{xor_step, xor_cancel, zero-xor}
use go_hydra.Crc.{
  shift_bit, shift_bits, crc16_poly, crc32_poly, run_by, crc16_init, crc32_init, crc16_compute,
  crc32_compute,
}
use go_hydra.Crc.Bitwise.{shift_bit_even, shift_bit_odd, bitwise_update, compute-bitwise}

pub xor-lt-pow : (k a b : ℕ) → a < 2 ^ k → b < 2 ^ k → bit_xor a b < 2 ^ k
xor-lt-pow zero zero zero p q = omega arith
xor-lt-pow zero zero (suc b) p q = absurd (omega arith)
xor-lt-pow zero (suc a) b p q = absurd (omega arith)
xor-lt-pow (suc k) a b p q = omega (
  arith,
  pow-suc 2 k,
  xor_step a b,
  xor-lt-pow k (a / 2) (b / 2) (omega (arith, pow-suc 2 k)) (omega (arith, pow-suc 2 k)),
)

-- A top bit that only one of the two has stays.
xor_top : (k a b : ℕ) → a < 2 ^ k → 2 ^ k ≤ b → b < 2 ^ suc k → 2 ^ k ≤ bit_xor a b
xor_top zero zero (suc zero) p q r = omega (arith, zero-xor 1)
xor_top zero zero zero p q r = absurd (omega arith)
xor_top zero zero (suc (suc b)) p q r = absurd (omega arith)
xor_top zero (suc a) b p q r = absurd (omega arith)
xor_top (suc k) a b p q r = omega (
  arith,
  pow-suc 2 k,
  xor_step a b,
  xor_top k (a / 2) (b / 2) (omega (arith, pow-suc 2 k)) (omega (arith, pow-suc 2 k))
      (omega (arith, pow-suc 2 k, pow-suc 2 (suc k))),
)

-- A polynomial of width `k + 1`, its top bit set.
module _ (k poly : ℕ) (top : 2 ^ k ≤ poly) (fits : poly < 2 ^ suc k) where
  shift_bit-lt : (c : ℕ) → c < 2 ^ suc k → shift_bit poly c < 2 ^ suc k
  shift_bit-lt c h = ground (
    arith,
    pow-suc 2 k,
    shift_bit_even poly c,
    shift_bit_odd poly c,
    xor-lt-pow (suc k) (c / 2) poly,
  )

  shift_bit-injective :
      (c d : ℕ) → c < 2 ^ suc k → d < 2 ^ suc k → shift_bit poly c ≡ shift_bit poly d → c ≡ d
  shift_bit-injective c d hc hd e = ground (
    arith,
    pow-suc 2 k,
    shift_bit_even poly c,
    shift_bit_odd poly c,
    shift_bit_even poly d,
    shift_bit_odd poly d,
    xor_top k (c / 2) poly,
    xor_top k (d / 2) poly,
    xor_cancel (c / 2) poly,
    xor_cancel (d / 2) poly,
  )

  pub shift_bits-lt : (n c : ℕ) → c < 2 ^ suc k → shift_bits poly n c < 2 ^ suc k
  unfolding shift_bits
  shift_bits-lt zero c h = h
  shift_bits-lt (suc n) c h = shift_bits-lt n (shift_bit poly c) (shift_bit-lt c h)

  pub shift_bits-injective :
      (n c d : ℕ)
      → c < 2 ^ suc k
      → d < 2 ^ suc k
      → shift_bits poly n c ≡ shift_bits poly n d
      → c ≡ d
  unfolding shift_bits
  shift_bits-injective zero c d hc hd e = e
  shift_bits-injective (suc n) c d hc hd e = shift_bit-injective c d hc hd (
      shift_bits-injective n (shift_bit poly c) (shift_bit poly d) (shift_bit-lt c hc)
        (shift_bit-lt d hd) e)

  module _ (wide : 256 ≤ 2 ^ suc k) where
    pub bitwise_update-lt :
        (c b : ℕ) → c < 2 ^ suc k → b < 256 → bitwise_update poly c b < 2 ^ suc k
    unfolding bitwise_update
    bitwise_update-lt c b hc hb =
        shift_bits-lt 8 (bit_xor c b) (xor-lt-pow (suc k) c b hc (omega arith))

    pub bitwise_run-lt :
        (c : ℕ) (p : Bytes)
        → c < 2 ^ suc k
        → IsBytes p
        → run_by (bitwise_update poly) c p < 2 ^ suc k
    bitwise_run-lt c [] hc hp = hc
    bitwise_run-lt c (b ∷ p) hc hp =
        bitwise_run-lt (bitwise_update poly c b) p (bitwise_update-lt c b hc hp.0) hp.1

    pub bitwise_update-injective :
        (c d a b : ℕ)
        → c < 2 ^ suc k
        → d < 2 ^ suc k
        → a < 256
        → b < 256
        → bitwise_update poly c a ≡ bitwise_update poly d b
        → bit_xor c a ≡ bit_xor d b
    unfolding bitwise_update
    bitwise_update-injective c d a b hc hd ha hb e =
        shift_bits-injective 8 (bit_xor c a) (bit_xor d b) (xor-lt-pow (suc k) c a hc (omega arith))
          (xor-lt-pow (suc k) d b hd (omega arith)) e

    -- Two states that differ stay different over the same bytes.
    pub bitwise_run-injective :
        (c d : ℕ) (p : Bytes)
        → c < 2 ^ suc k
        → d < 2 ^ suc k
        → IsBytes p
        → run_by (bitwise_update poly) c p ≡ run_by (bitwise_update poly) d p
        → c ≡ d
    bitwise_run-injective c d [] hc hd hp e = e
    bitwise_run-injective c d (b ∷ p) hc hd hp e = ground (
      arith,
      bitwise_update-injective c d b b hc hd hp.0 hp.0 (
          bitwise_run-injective (bitwise_update poly c b) (bitwise_update poly d b) p
            (bitwise_update-lt c b hc hp.0) (bitwise_update-lt d b hd hp.0) hp.1 e),
      xor_cancel c b,
      xor_cancel d b,
    )

pub crc16_compute-lt : (p : Bytes) → IsBytes p → crc16_compute p < 2 ^ 16
crc16_compute-lt p h = rw ((compute-bitwise p h).0) (
    bitwise_run-lt 15 crc16_poly (omega arith) (omega arith) (omega arith) crc16_init p
      (omega arith) h)

pub crc32_compute-lt : (p : Bytes) → IsBytes p → crc32_compute p < 2 ^ 32
crc32_compute-lt p h = rw ((compute-bitwise p h).1) (
    bitwise_run-lt 31 crc32_poly (omega arith) (omega arith) (omega arith) crc32_init p
      (omega arith) h)
