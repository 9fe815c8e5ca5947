-- ===== src/Crc/Residue.antt =====
-- The receiver's test: the running state over a body and its own check bytes is a constant.
use go_hydra.Base.{
  ℕ, zero, suc, ◌-◌, ◌/◌, ◌%◌, ◌^◌, ◌<◌, bit_xor, ◌≡◌, refl, sym, ap, ◌∙◌, [], ◌∷◌, ◌++◌, arith,
  Bytes, IsBytes,
}
use go_hydra.Base.Xor.{xor-zero, zero-xor, xor_assoc, xor-mod-byte, xor-div-byte, xor_complement}
use go_hydra.Crc.{
  crc16_test, crc32_test, crc16_table, crc32_table, update_by, run_by, crc16_init, crc32_init,
  crc16_update, crc32_update, crc16_compute, crc32_compute, crc16_bytes, crc32_bytes,
}
use go_hydra.Crc.Bounds.{crc16_compute-lt, crc32_compute-lt}

pub run_by-append :
    (update : ℕ → ℕ → ℕ) (crc : ℕ) (p q : Bytes)
    → run_by update crc (p ++ q) ≡ run_by update (run_by update crc p) q
run_by-append update crc [] q = refl
run_by-append update crc (b ∷ p) q = run_by-append update (update crc b) p q

-- Feeding the complement of the state's low byte: the state falls out of the table's index.
update_by_complement :
    (table : ℕ → ℕ) (k x : ℕ)
    → update_by table (bit_xor k x) (255 - x % 256) ≡ bit_xor (update_by table k 255) (x / 256)
update_by_complement table k x = ground (
  arith,
  xor-mod-byte k x,
  xor-div-byte k x,
  xor_assoc (k % 256) (x % 256) (255 - x % 256),
  xor_complement (x % 256),
  xor_assoc (table (bit_xor (k % 256) 255)) (k / 256) (x / 256),
)

-- One more check byte of the complement, where the state is `bit_xor k x`.
run_complement :
    (table : ℕ → ℕ) (k x : ℕ) (rest : Bytes)
    → run_by (update_by table) (bit_xor k x) ((255 - x % 256) ∷ rest)
      ≡ run_by (update_by table) (bit_xor (update_by table k 255) (x / 256)) rest
run_complement table k x rest =
    ap (λ s. run_by (update_by table) s rest) (update_by_complement table k x)

after_16 :
    (x : ℕ)
    → x < 2 ^ 16
    → run_by crc16_update x (((0xFFFF - x) % 256) ∷ ((0xFFFF - x) / 256 % 256) ∷ []) ≡ crc16_test
unfolding crc16_update
after_16 x h = ground (
  arith,
  zero-xor x,
  update_by_complement crc16_table 0 x,
  update_by_complement crc16_table (update_by crc16_table 0 255) (x / 256),
  xor-zero crc16_test,
)

-- The four check bytes of a 32-bit complement, as complements of bytes.
complement_bytes :
    (x : ℕ)
    → x < 2 ^ 32
    → let crc = 0xFFFF_FFFF - x in
      (crc % 256 ≡ 255 - x % 256)
      × (crc / 256 % 256 ≡ 255 - x / 256 % 256)
      × (crc / 2 ^ 16 % 256 ≡ 255 - x / 256 / 256 % 256)
      × (crc / 2 ^ 24 % 256 ≡ 255 - x / 256 / 256 / 256 % 256)
complement_bytes x h = (omega arith, omega arith, omega arith, omega arith)

-- The complements of the bytes of `x`, lowest first.
abbrev complements : ℕ → ℕ → Bytes
complements zero x = []
complements (suc n) x = (255 - x % 256) ∷ complements n (x / 256)

run_complements :
    (table : ℕ → ℕ) (x : ℕ)
    → let u = λ (k : ℕ). update_by table k 255 in
      run_by (update_by table) (bit_xor 0 x) (complements 4 x)
      ≡ bit_xor (u (u (u (u 0)))) (x / 256 / 256 / 256 / 256)
run_complements table x =
    let u = λ (k : ℕ). update_by table k 255 in
    run_complement table 0 x (complements 3 (x / 256))
    ∙ run_complement table (u 0) (x / 256) (complements 2 (x / 256 / 256))
    ∙ run_complement table (u (u 0)) (x / 256 / 256) (complements 1 (x / 256 / 256 / 256))
    ∙ run_complement table (u (u (u 0))) (x / 256 / 256 / 256) []

run_own_complements :
    (table : ℕ → ℕ) (x : ℕ)
    → x < 2 ^ 32
    → let u = λ (k : ℕ). update_by table k 255 in
      run_by (update_by table) x (complements 4 x) ≡ u (u (u (u 0)))
run_own_complements table x h =
    let u = λ (k : ℕ). update_by table k 255 in
    let above : x / 256 / 256 / 256 / 256 ≡ 0 = omega arith in
    ap (λ (s : ℕ). run_by (update_by table) s (complements 4 x)) (sym (zero-xor x))
    ∙ run_complements table x
    ∙ ap (bit_xor (u (u (u (u 0))))) above
    ∙ xor-zero (u (u (u (u 0))))

after_32 :
    (x : ℕ)
    → x < 2 ^ 32
    → let crc = 0xFFFF_FFFF - x in
      run_by crc32_update x
        ((crc % 256) ∷ (crc / 256 % 256) ∷ (crc / 2 ^ 16 % 256) ∷ (crc / 2 ^ 24 % 256) ∷ [])
      ≡ crc32_test
unfolding crc32_update
after_32 x h =
    let (e0, e1, e2, e3) = complement_bytes x h in
    rw (e0, e1, e2, e3) (run_own_complements crc32_table x h)

-- The body of a frame followed by its own check bytes passes the receiver's test, for both CRCs.
pub compute-bytes :
    (body : Bytes)
    → IsBytes body
    → (crc16_compute (body ++ crc16_bytes body) ≡ crc16_test)
      × (crc32_compute (body ++ crc32_bytes body) ≡ crc32_test)
unfolding crc16_bytes crc32_bytes
compute-bytes body h = (
  run_by-append crc16_update crc16_init body _
      ∙ after_16 (crc16_compute body) (crc16_compute-lt body h),
  run_by-append crc32_update crc32_init body _
      ∙ after_32 (crc32_compute body) (crc32_compute-lt body h),
)
