-- ===== src/Wire/Corrupt.antt =====
-- A frame with one byte changed behind its decoding.
use go_hydra.Base.{
  ℕ, ◌≡◌, ◌≢◌, ◌∙◌, sym, ap, Bool, true, false, ◌∷◌, ◌++◌, none, arith, ◌==◌, if◌then◌else◌, Bytes,
  IsByte, IsBytes,
}
use go_hydra.Crc.{crc16_bytes, crc32_bytes, crc16_compute, crc32_compute, crc16_test, crc32_test}
use go_hydra.Crc.Residue.{compute-bytes}
use go_hydra.Crc.Detect.{compute_byte}
use go_hydra.Reader.{check_body}

check_body-bad :
    (use32 : Bool) (decoded : Bytes)
    → (if use32 then crc32_compute decoded == crc32_test else crc16_compute decoded == crc16_test)
      ≡ false
    → check_body use32 decoded ≡ none
unfolding check_body
check_body-bad use32 decoded bad = ground arith

-- Where one byte of a message with its CRC is changed, whichever byte and whichever CRC is in use,
-- the reader's checks refuse what comes in.
pub check_body-compute_byte :
    (use32 : Bool) (body before after : Bytes) (x y : ℕ)
    → IsBytes body
    → IsBytes before
    → IsBytes after
    → IsByte x
    → IsByte y
    → x ≢ y
    → before ++ (x ∷ after) ≡ body ++ (if use32 then crc32_bytes body else crc16_bytes body)
    → check_body use32 (before ++ (y ∷ after)) ≡ none
check_body-compute_byte true body before after x y h hb ha hx hy differ e =
    let other = (compute_byte before after x y hb ha hx hy differ).1 in
    let good = ap crc32_compute e ∙ (compute-bytes body h).1 in
    let wrong : crc32_compute (before ++ (y ∷ after)) ≢ crc32_test =
      λ same. other (good ∙ sym same) in
    check_body-bad true (before ++ (y ∷ after)) (ground (arith, wrong))
check_body-compute_byte false body before after x y h hb ha hx hy differ e =
    let other = (compute_byte before after x y hb ha hx hy differ).0 in
    let good = ap crc16_compute e ∙ (compute-bytes body h).0 in
    let wrong : crc16_compute (before ++ (y ∷ after)) ≢ crc16_test =
      λ same. other (good ∙ sym same) in
    check_body-bad false (before ++ (y ∷ after)) (ground (arith, wrong))
