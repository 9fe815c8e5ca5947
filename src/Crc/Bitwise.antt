-- ===== src/Crc/Bitwise.antt =====
-- The tables against the definition of a CRC bit by bit, and bounds of the running state.
use native.Mathlib.Nat.{pow-suc}
use go_hydra.Base.{
  ℕ, zero, suc, ◌*◌, ◌/◌, ◌%◌, ◌^◌, ◌<◌, bit_xor, ◌≡◌, refl, ap, [], ◌∷◌, arith, Bytes, IsBytes,
}
use go_hydra.Base.Xor.{
  xor-div-two, xor-mod-two, xor-zero, zero-xor, xor_assoc, xor_comm, xor-mod-byte, xor-div-byte,
  xor-IsByte,
}
use go_hydra.Base.Bits.{bit_and-one}
use go_hydra.Crc.{
  shift_bit, shift_bits, crc16_poly, crc32_poly, update_by, run_by, crc16_init, crc32_init,
  crc16_compute, crc32_compute,
}

pub shift_bit_even : (poly c : ℕ) → c % 2 ≡ 0 → shift_bit poly c ≡ c / 2
unfolding shift_bit
shift_bit_even poly c h = ground (arith, bit_and-one c)

pub shift_bit_odd : (poly c : ℕ) → c % 2 ≡ 1 → shift_bit poly c ≡ bit_xor (c / 2) poly
unfolding shift_bit
shift_bit_odd poly c h = ground (arith, bit_and-one c)

-- Bits above the lowest only move down.
shift_bit-xor_double :
    (poly u v : ℕ) → shift_bit poly (bit_xor u (2 * v)) ≡ bit_xor (shift_bit poly u) v
shift_bit-xor_double poly u v = ground (
  arith,
  xor-mod-two u (2 * v),
  xor-div-two u (2 * v),
  shift_bit_even poly (bit_xor u (2 * v)),
  shift_bit_odd poly (bit_xor u (2 * v)),
  shift_bit_even poly u,
  shift_bit_odd poly u,
  xor_assoc (u / 2) poly v,
  xor_assoc (u / 2) v poly,
  xor_comm poly v,
)

shift_bits-xor_above :
    (poly n u v : ℕ) → shift_bits poly n (bit_xor u (2 ^ n * v)) ≡ bit_xor (shift_bits poly n u) v
unfolding shift_bits
shift_bits-xor_above poly zero u v = ground (arith)
shift_bits-xor_above poly (suc n) u v = ground (
  arith,
  pow-suc 2 n,
  ap (λ (t : ℕ). t * v) (pow-suc 2 n),
  shift_bit-xor_double poly u (2 ^ n * v),
  shift_bits-xor_above poly n (shift_bit poly u) v,
)

-- The definition of one byte's step: the byte goes into the low bits, and eight bits are shifted
-- out.
unfoldable pub bitwise_update : ℕ → ℕ → ℕ → ℕ
bitwise_update poly crc b = shift_bits poly 8 (bit_xor crc b)

split_low :
    (crc b : ℕ) → b < 256 → bit_xor crc b ≡ bit_xor (bit_xor (crc % 256) b) (2 ^ 8 * (crc / 256))
split_low crc b h = ground (
  arith,
  xor-mod-byte crc b,
  xor-div-byte crc b,
  xor-div-byte (bit_xor (crc % 256) b) (2 ^ 8 * (crc / 256)),
  xor-mod-byte (bit_xor (crc % 256) b) (2 ^ 8 * (crc / 256)),
  xor-IsByte (crc % 256) b,
  xor-zero (crc / 256),
  zero-xor (crc / 256),
  xor-zero (bit_xor (crc % 256) b),
)

pub update_by-bitwise :
    (poly crc b : ℕ) → b < 256 → update_by (shift_bits poly 8) crc b ≡ bitwise_update poly crc b
unfolding bitwise_update
update_by-bitwise poly crc b h =
    rw (split_low crc b h) (rw (shift_bits-xor_above poly 8 (bit_xor (crc % 256) b) (crc / 256)))

run_by-bitwise :
    (poly crc : ℕ) (p : Bytes)
    → IsBytes p
    → run_by (update_by (shift_bits poly 8)) crc p ≡ run_by (bitwise_update poly) crc p
run_by-bitwise poly crc [] h = refl
run_by-bitwise poly crc (b ∷ p) h =
    rw (update_by-bitwise poly crc b h.0) (run_by-bitwise poly (bitwise_update poly crc b) p h.1)

-- On every byte string the table-driven CRC-16 is the bit by bit CRC of the polynomial 0x8408, and
-- the table-driven CRC-32 that of 0xEDB88320.
pub compute-bitwise :
    (p : Bytes)
    → IsBytes p
    → (crc16_compute p ≡ run_by (bitwise_update crc16_poly) crc16_init p)
      × (crc32_compute p ≡ run_by (bitwise_update crc32_poly) crc32_init p)
unfolding crc16_compute crc32_compute
compute-bitwise p h =
    (run_by-bitwise crc16_poly crc16_init p h, run_by-bitwise crc32_poly crc32_init p h)
