-- ===== src/Crc/Detect.antt =====
-- What the receiver's test detects.
use go_hydra.Base.{
  ℕ, suc, ◌^◌, ◌≤◌, ◌<◌, ◌≡◌, ◌≢◌, sym, ◌∙◌, ◌∷◌, ◌++◌, arith, Bytes, IsBytes, IsByte, All-append,
}
use go_hydra.Base.Xor.{xor_cancel, xor_comm}
use go_hydra.Crc.{
  crc16_poly, crc32_poly, run_by, crc16_init, crc32_init, crc16_compute, crc32_compute,
}
use go_hydra.Crc.Bitwise.{bitwise_update, compute-bitwise}
use go_hydra.Crc.Bounds.{
  bitwise_update-lt, bitwise_run-lt, bitwise_update-injective, bitwise_run-injective,
}
use go_hydra.Crc.Residue.{run_by-append}

module _ (k poly : ℕ) (top : 2 ^ k ≤ poly) (fits : poly < 2 ^ suc k) (wide : 256 ≤ 2 ^ suc k) where
  bitwise_run_byte :
      (c : ℕ) (before after : Bytes) (x y : ℕ)
      → c < 2 ^ suc k
      → IsBytes before
      → IsBytes after
      → x < 256
      → y < 256
      → run_by (bitwise_update poly) c (before ++ (x ∷ after))
        ≡ run_by (bitwise_update poly) c (before ++ (y ∷ after))
      → x ≡ y
  bitwise_run_byte c before after x y hc hb ha hx hy e =
      let s = run_by (bitwise_update poly) c before in
      let s-lt = bitwise_run-lt k poly top fits wide c before hc hb in
      let tails =
        sym (run_by-append (bitwise_update poly) c before (x ∷ after))
        ∙ e
        ∙ run_by-append (bitwise_update poly) c before (y ∷ after) in
      let steps =
        bitwise_run-injective k poly top fits wide (bitwise_update poly s x)
          (bitwise_update poly s y) after (bitwise_update-lt k poly top fits wide s x s-lt hx)
          (bitwise_update-lt k poly top fits wide s y s-lt hy) ha tails in
      ground (
        arith,
        bitwise_update-injective k poly top fits wide s s x y s-lt s-lt hx hy steps,
        xor_comm s x,
        xor_comm s y,
        xor_cancel x s,
        xor_cancel y s,
      )

-- Two byte strings that differ in one byte only have different CRC-16s and different CRC-32s.
pub compute_byte :
    (before after : Bytes) (x y : ℕ)
    → IsBytes before
    → IsBytes after
    → IsByte x
    → IsByte y
    → x ≢ y
    → (crc16_compute (before ++ (x ∷ after)) ≢ crc16_compute (before ++ (y ∷ after)))
      × (crc32_compute (before ++ (x ∷ after)) ≢ crc32_compute (before ++ (y ∷ after)))
compute_byte before after x y hb ha hx hy differ =
    let all = λ (z : ℕ) (hz : z < 256). All-append IsByte before (z ∷ after) hb (hz, ha) in
    let at_x = compute-bitwise (before ++ (x ∷ after)) (all x hx) in
    let at_y = compute-bitwise (before ++ (y ∷ after)) (all y hy) in
    (
      λ e. differ (
          bitwise_run_byte 15 crc16_poly (omega arith) (omega arith) (omega arith) crc16_init before
            after x y (omega arith) hb ha hx hy (sym at_x.0 ∙ e ∙ at_y.0)),
      λ e. differ (
          bitwise_run_byte 31 crc32_poly (omega arith) (omega arith) (omega arith) crc32_init before
            after x y (omega arith) hb ha hx hy (sym at_x.1 ∙ e ∙ at_y.1)),
    )
