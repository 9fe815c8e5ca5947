-- ===== src/Caps.antt =====
-- caps.go: capability sets, as the bits of a `uint32`, and their text form.
pub mod Bounds
pub mod RoundTrip
use go_hydra.Base.{
  ℕ, bit_and, bit_or, Bool, true, not, ◌&&◌, List, [], ◌∷◌, ◌++◌, ltb, leb, ◌==◌, if◌then◌else◌,
  ◌-◌, false, Bytes, length,
}
use go_hydra.Format.{split, trim_space}
use go_hydra.Constants.{
  cap_xon, cap_tln, cap_ctl, cap_hic, cap_hi8, cap_brk, cap_asc, cap_uue, cap_c32, cap_dev, cap_fpt,
}

-- `caps&bit != 0`.
unfoldable pub has : ℕ → ℕ → Bool
has caps bit = not (bit_and caps bit == 0)

-- `caps &^ bits`, for 32-bit sets.
abbrev pub clear : ℕ → ℕ → ℕ
clear caps bits = bit_and caps (0xFFFF_FFFF - bits)

pub record CapEntry : Type 0 where
  pub bit : ℕ
  pub code : Bytes

abbrev entry : ℕ → ℕ → ℕ → ℕ → CapEntry
entry bit a b c = record { bit = bit; code = a ∷ b ∷ c ∷ [] }

unfoldable pub cap_order : List CapEntry
cap_order =
    entry cap_xon b'X' b'O' b'N'
    ∷ entry cap_tln b'T' b'L' b'N'
    ∷ entry cap_ctl b'C' b'T' b'L'
    ∷ entry cap_hic b'H' b'I' b'C'
    ∷ entry cap_hi8 b'H' b'I' b'8'
    ∷ entry cap_brk b'B' b'R' b'K'
    ∷ entry cap_asc b'A' b'S' b'C'
    ∷ entry cap_uue b'U' b'U' b'E'
    ∷ entry cap_c32 b'C' b'3' b'2'
    ∷ entry cap_dev b'D' b'E' b'V'
    ∷ entry cap_fpt b'F' b'P' b'T'
    ∷ []

abbrev pub cap_default_supported : ℕ
cap_default_supported = bit_or cap_xon (
    bit_or cap_tln
      (bit_or cap_ctl (bit_or cap_hic (bit_or cap_hi8 (bit_or cap_c32 (bit_or cap_dev cap_fpt))))))

-- `==` of Go strings, as bytes.
unfoldable pub equal : Bytes → Bytes → Bool
equal [] [] = true
equal (x ∷ xs) (y ∷ ys) = x == y && equal xs ys
equal _ _ = false

-- `strings.ToUpper` and `strings.TrimSpace`, on ASCII text. Go also maps U+0131 to I and U+017F to S,
-- and trims U+0085 and U+00A0.
unfoldable pub to_upper : Bytes → Bytes
to_upper [] = []
to_upper (c ∷ cs) = (if leb b'a' c && leb c b'z' then c - 32 else c) ∷ to_upper cs

unfoldable pub find_cap : List CapEntry → Bytes → ℕ
unfolding equal
find_cap [] code = 0
find_cap (e ∷ order) code = if equal e.code code then e.bit else find_cap order code

-- The loop of `parseCaps` over the codes of a list.
unfoldable pub parse_codes : List Bytes → ℕ → ℕ
unfolding find_cap cap_order to_upper trim_space
parse_codes [] caps = caps
parse_codes (code ∷ codes) caps =
    parse_codes codes (bit_or caps (find_cap cap_order (trim_space (to_upper code))))

unfoldable pub parse_caps : Bytes → ℕ
unfolding parse_codes split
parse_caps list = parse_codes (split b',' list) 0

-- The loop of `capsString`; `written` is what the builder holds.
unfoldable pub write_caps : List CapEntry → ℕ → Bytes → Bytes
unfolding has
write_caps [] caps written = written
write_caps (e ∷ order) caps written = write_caps order caps (
    if not (has caps e.bit)
    then written
    else if ltb 0 (length written)
    then written ++ (b',' ∷ e.code)
    else written ++ e.code)

unfoldable pub caps_string : ℕ → Bytes
unfolding write_caps cap_order
caps_string caps = write_caps cap_order caps []
