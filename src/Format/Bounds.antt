-- ===== src/Format/Bounds.antt =====
-- The length and the bytes of `%08x`.
use go_hydra.Base.{ℕ, zero, suc, ◌/◌, ◌%◌, ◌^◌, ◌<◌, ◌≡◌, arith, length, IsByte, IsBytes, IsShort}
use go_hydra.Format.{hex_digit, hex_digits, hex08}

hex_digit-IsByte : (d : ℕ) → d < 16 → IsByte (hex_digit d)
unfolding hex_digit
hex_digit-IsByte d h = ground arith

hex_digits-IsBytes : (n v : ℕ) → IsBytes (hex_digits n v)
unfolding hex_digits
hex_digits-IsBytes zero v = tt
hex_digits-IsBytes (suc n) v =
    (hex_digit-IsByte (v / 16 ^ n % 16) (omega arith), hex_digits-IsBytes n v)

length-hex_digits : (n v : ℕ) → length (hex_digits n v) ≡ n
unfolding hex_digits
length-hex_digits zero v = omega arith
length-hex_digits (suc n) v = omega (arith, length-hex_digits n v)

pub hex08-IsShort : (v : ℕ) → IsShort 8 (hex08 v)
unfolding hex08
hex08-IsShort v = record {
  bytes = hex_digits-IsBytes 8 v;
  size = omega (arith, length-hex_digits 8 v);
}
