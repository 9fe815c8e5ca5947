-- ===== src/Crc/Runs.antt =====
-- Check values of the CRCs, and the theorems at concrete inputs.
use go_hydra.Base.{◌≡◌, ◌≢◌, refl, [], ◌∷◌, ◌++◌, arith, Bytes}
use go_hydra.Crc.{
  crc16_poly, crc32_poly, crc16_init, crc32_init, crc16_test, crc32_test, run_by, crc16_table,
  crc32_table, crc16_compute, crc32_compute, crc16_bytes, crc32_bytes,
}
use go_hydra.Crc.Bitwise.{bitwise_update, compute-bitwise}
use go_hydra.Crc.Residue.{compute-bytes}
use go_hydra.Crc.Detect.{compute_byte}

abbrev digits_1_to_9 : Bytes
digits_1_to_9 = b'1' ∷ b'2' ∷ b'3' ∷ b'4' ∷ b'5' ∷ b'6' ∷ b'7' ∷ b'8' ∷ b'9' ∷ []

table_entries : (crc16_table 1 ≡ 0x1189) × (crc32_table 1 ≡ 0x77073096)
unfolding crc16_table crc32_table
table_entries = (refl, refl)

check_values :
    (crc16_bytes digits_1_to_9 ≡ 0x6E ∷ 0x90 ∷ [])
    × (crc32_bytes digits_1_to_9 ≡ 0x26 ∷ 0x39 ∷ 0xF4 ∷ 0xCB ∷ [])
unfolding crc16_bytes crc32_bytes
check_values = (refl, refl)

compute-bitwise_example :
    (crc16_compute digits_1_to_9 ≡ run_by (bitwise_update crc16_poly) crc16_init digits_1_to_9)
    × (crc32_compute digits_1_to_9 ≡ run_by (bitwise_update crc32_poly) crc32_init digits_1_to_9)
compute-bitwise_example = compute-bitwise digits_1_to_9 (omega arith)

compute-bytes_example :
    (crc16_compute (digits_1_to_9 ++ crc16_bytes digits_1_to_9) ≡ crc16_test)
    × (crc32_compute (digits_1_to_9 ++ crc32_bytes digits_1_to_9) ≡ crc32_test)
compute-bytes_example = compute-bytes digits_1_to_9 (omega arith)

compute_byte_example :
    (crc16_compute (1 ∷ 7 ∷ 3 ∷ []) ≢ crc16_compute (1 ∷ 8 ∷ 3 ∷ []))
    × (crc32_compute (1 ∷ 7 ∷ 3 ∷ []) ≢ crc32_compute (1 ∷ 8 ∷ 3 ∷ []))
compute_byte_example =
    compute_byte (1 ∷ []) (3 ∷ []) 7 8 (omega arith) (omega arith) (omega arith) (omega arith)
      (omega arith)
