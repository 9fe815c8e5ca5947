-- ===== src/Crc.antt =====
-- crc.go: the table-driven CRC-16 and CRC-32. The arrays are functions of their index.
-- `crc32.MakeTable` is Go's standard library: the table of the reflected IEEE polynomial.
pub mod Bitwise
pub mod Bounds
pub mod Residue
pub mod Detect
mod Runs
use go_hydra.Base.{
  ℕ, zero, suc, ◌-◌, ◌/◌, ◌%◌, ◌^◌, bit_and, bit_xor, List, [], ◌∷◌, not, ◌==◌, if◌then◌else◌,
  Bytes,
}

abbrev pub crc16_init : ℕ
crc16_init = 0xFFFF

abbrev pub crc16_test : ℕ
crc16_test = 0xF0B8

abbrev pub crc16_poly : ℕ
crc16_poly = 0x8408

abbrev pub crc32_init : ℕ
crc32_init = 0xFFFF_FFFF

abbrev pub crc32_test : ℕ
crc32_test = 0xDEBB_20E3

-- `crc32.IEEE`.
abbrev pub crc32_poly : ℕ
crc32_poly = 0xEDB8_8320

-- One round of the loop that fills a table.
pub shift_bit : ℕ → ℕ → ℕ
shift_bit poly c = if not (bit_and c 1 == 0) then bit_xor (c / 2) poly else c / 2

unfoldable pub shift_bits : ℕ → ℕ → ℕ → ℕ
unfolding shift_bit
shift_bits poly zero c = c
shift_bits poly (suc n) c = shift_bits poly n (shift_bit poly c)

unfoldable pub crc16_table : ℕ → ℕ
unfolding shift_bits
crc16_table i = shift_bits crc16_poly 8 i

unfoldable pub crc32_table : ℕ → ℕ
unfolding shift_bits
crc32_table i = shift_bits crc32_poly 8 i

-- `tab[byte(crc)^b] ^ (crc >> 8)`.
abbrev pub update_by : (ℕ → ℕ) → ℕ → ℕ → ℕ
update_by table crc b = bit_xor (table (bit_xor (crc % 256) b)) (crc / 256)

unfoldable pub crc16_update : ℕ → ℕ → ℕ
unfolding crc16_table
crc16_update crc b = update_by crc16_table crc b

unfoldable pub crc32_update : ℕ → ℕ → ℕ
unfolding crc32_table
crc32_update crc b = update_by crc32_table crc b

-- The `range` loops.
abbrev pub run_by : (ℕ → ℕ → ℕ) → ℕ → Bytes → ℕ
run_by update crc [] = crc
run_by update crc (b ∷ p) = run_by update (update crc b) p

unfoldable pub crc16_compute : Bytes → ℕ
unfolding crc16_update
crc16_compute p = run_by crc16_update crc16_init p

unfoldable pub crc32_compute : Bytes → ℕ
unfolding crc32_update
crc32_compute p = run_by crc32_update crc32_init p

-- The bytes that a writer appends: the complement, low byte first.
unfoldable pub crc16_bytes : Bytes → Bytes
unfolding crc16_compute
crc16_bytes body = let crc = 0xFFFF - crc16_compute body in (crc % 256) ∷ (crc / 256 % 256) ∷ []

unfoldable pub crc32_bytes : Bytes → Bytes
unfolding crc32_compute
crc32_bytes body =
    let crc = 0xFFFF_FFFF - crc32_compute body in
    (crc % 256) ∷ (crc / 256 % 256) ∷ (crc / 2 ^ 16 % 256) ∷ (crc / 2 ^ 24 % 256) ∷ []
