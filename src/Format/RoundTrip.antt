-- ===== src/Format/RoundTrip.antt =====
-- `%08x` both ways.
use go_hydra.Base.{
  ℕ, zero, suc, ◌+◌, ◌*◌, ◌/◌, ◌%◌, ◌^◌, ◌<◌, ◌≡◌, ◌≢◌, refl, ◌∙◌, ap, Bool, true, false, not, ◌&&◌,
  ◌∷◌, ◌++◌, Option, none, some, arith, ◌==◌, Bytes, NoNul, all_below, all_below_sound, at_some,
  if_yes, if_no,
}
use go_hydra.Format.{
  hex_digit, hex_digits, hex08, hex_value, skip_space, scan_digits, scan_hex08, is_blank,
}

abbrev is_value : Option ℕ → ℕ → Bool
is_value none d = false
is_value (some x) d = x == d

digit_table :
    all_below 16 (λ d.
      is_value (hex_value (hex_digit d)) d
      && not (hex_digit d == 0x0A)
      && not (is_blank (hex_digit d)))
    ≡ true
unfolding all_below hex_value hex_digit
digit_table = refl

is_value-some : (o : Option ℕ) (d : ℕ) → is_value o d ≡ true → o ≡ some d
is_value-some none d h = cc
is_value-some (some x) d h = ground arith

-- A digit is read as its value, and is no space.
digit_facts :
    (d : ℕ)
    → d < 16
    → (hex_value (hex_digit d) ≡ some d)
      × ((hex_digit d == 0x0A) ≡ false)
      × (is_blank (hex_digit d) ≡ false)
digit_facts d h =
    let facts = all_below_sound 16 _ d h digit_table in
    (is_value-some _ d (ground arith), ground arith, ground arith)

scan_digits-hex_digit :
    (width acc d : ℕ) (s : Bytes)
    → d < 16
    → scan_digits (suc width) acc (hex_digit d ∷ s) ≡ scan_digits width (acc * 16 + d) s
unfolding scan_digits
scan_digits-hex_digit width acc d s h = at_some (hex_value (hex_digit d)) d _ _ (digit_facts d h).0

skip_space-hex_digit :
    (d : ℕ) (s : Bytes) → d < 16 → skip_space (hex_digit d ∷ s) ≡ some (hex_digit d ∷ s)
unfolding skip_space
skip_space-hex_digit d s h =
    let (_, line, blank) = digit_facts d h in if_no _ _ _ line ∙ if_no _ _ _ blank

scan_hex08-hex_digit :
    (d : ℕ) (s : Bytes)
    → d < 16
    → scan_hex08 (hex_digit d ∷ s) ≡ some (scan_digits 8 0 (hex_digit d ∷ s))
unfolding scan_hex08
scan_hex08-hex_digit d s h =
    at_some _ _ _ _ (skip_space-hex_digit d s h)
    ∙ if_yes _ _ _ (at_some (hex_value (hex_digit d)) d _ _ (digit_facts d h).0)

-- A 32-bit number is read as it was written, whatever follows.
pub scan_hex08-hex08 :
    (v : ℕ) (rest : Bytes) → v < 2 ^ 32 → scan_hex08 (hex08 v ++ rest) ≡ some (v, rest)
unfolding hex08
scan_hex08-hex08 v rest h =
    scan_hex08-hex_digit _ _ (omega arith)
    ∙ ap some (
        scan_digits-hex_digit 7 0 (v / 16 ^ 7 % 16) _ (omega arith)
        ∙ scan_digits-hex_digit 6 _ (v / 16 ^ 6 % 16) _ (omega arith)
        ∙ scan_digits-hex_digit 5 _ (v / 16 ^ 5 % 16) _ (omega arith)
        ∙ scan_digits-hex_digit 4 _ (v / 16 ^ 4 % 16) _ (omega arith)
        ∙ scan_digits-hex_digit 3 _ (v / 16 ^ 3 % 16) _ (omega arith)
        ∙ scan_digits-hex_digit 2 _ (v / 16 ^ 2 % 16) _ (omega arith)
        ∙ scan_digits-hex_digit 1 _ (v / 16 ^ 1 % 16) _ (omega arith)
        ∙ scan_digits-hex_digit 0 _ (v / 16 ^ 0 % 16) _ (omega arith)
        ∙ (unfold scan_digits in ap (λ x. (x, rest)) (omega arith)))

hex_digit-ne-0 : (d : ℕ) → hex_digit d ≢ 0
unfolding hex_digit
hex_digit-ne-0 d = ground arith

hex_digits-NoNul : (n v : ℕ) → NoNul (hex_digits n v)
unfolding hex_digits
hex_digits-NoNul zero v = tt
hex_digits-NoNul (suc n) v = (hex_digit-ne-0 (v / 16 ^ n % 16), hex_digits-NoNul n v)

-- No NUL stands in a number.
pub hex08-NoNul : (v : ℕ) → NoNul (hex08 v)
unfolding hex08
hex08-NoNul v = hex_digits-NoNul 8 v
