-- ===== src/Format.antt =====
-- What the program uses of Go's `fmt` and `strings`: the verb `%08x` both ways, `strings.Split`,
-- `strings.Join` and `strings.TrimSpace`, on ASCII text: Go's spaces beyond ASCII are not trimmed or
-- skipped here.
pub mod RoundTrip
pub mod Bounds
pub mod Split
use go_hydra.Base.{
  ℕ, zero, suc, ◌+◌, ◌-◌, ◌*◌, ◌/◌, ◌%◌, ◌^◌, Bool, true, false, ◌&&◌, ◌||◌, List, [], ◌∷◌, ◌++◌,
  Option, none, some, leb, ltb, ◌==◌, if◌then◌else◌, Bytes,
}

unfoldable pub hex_digit : ℕ → ℕ
hex_digit d = if ltb d 10 then b'0' + d else b'a' + (d - 10)

-- The `n` lowest hexadecimal digits of `v`, highest first.
unfoldable pub hex_digits : ℕ → ℕ → Bytes
unfolding hex_digit
hex_digits zero v = []
hex_digits (suc n) v = hex_digit (v / 16 ^ n % 16) ∷ hex_digits n v

-- `%08x` of a `uint32`.
unfoldable pub hex08 : ℕ → Bytes
unfolding hex_digits
hex08 v = hex_digits 8 v

unfoldable pub hex_value : ℕ → Option ℕ
hex_value c =
    if leb b'0' c && leb c b'9'
    then some (c - b'0')
    else if leb b'a' c && leb c b'f'
    then some (c - b'a' + 10)
    else if leb b'A' c && leb c b'F'
    then some (c - b'A' + 10)
    else none

-- Spaces other than a newline, at which `Sscanf` stops with an error.
abbrev is_blank : ℕ → Bool
is_blank c = c == b' ' || (leb 0x09 c && leb c 0x0D)

unfoldable pub skip_space : Bytes → Option Bytes
skip_space [] = some []
skip_space (c ∷ s) =
    let rest = skip_space s in if c == 0x0A then none else if is_blank c then rest else some (c ∷ s)

-- At most `width` digits.
unfoldable pub scan_digits : ℕ → ℕ → Bytes → ℕ × Bytes
unfolding hex_value
scan_digits zero acc s = (acc, s)
scan_digits (suc width) acc [] = (acc, [])
scan_digits (suc width) acc (c ∷ s) = elim (hex_value c) [
  | none ↦ (acc, c ∷ s)
  | some d ↦ scan_digits width (acc * 16 + d) s
]

abbrev starts_digit : Bytes → Bool
starts_digit [] = false
starts_digit (c ∷ s) = elim (hex_value c) [ none ↦ false | some _ ↦ true ]

-- One `%08x` of `Sscanf`: the number and what follows it.
unfoldable pub scan_hex08 : Bytes → Option (ℕ × Bytes)
unfolding skip_space scan_digits
scan_hex08 s = elim (skip_space s) [
  | none ↦ none
  | some t ↦ if starts_digit t then some (scan_digits 8 0 t) else none
]

-- `strings.Split` at one byte: never an empty list.
unfoldable pub split : ℕ → Bytes → List Bytes
split sep [] = [] ∷ []
split sep (c ∷ s) = elim (split sep s) [
  | [] ↦ []
  | field ∷ fields ↦ if c == sep then [] ∷ field ∷ fields else (c ∷ field) ∷ fields
]

unfoldable pub join : Bytes → List Bytes → Bytes
join sep [] = []
join sep (s ∷ []) = s
join sep (s ∷ t ∷ rest) = s ++ (sep ++ join sep (t ∷ rest))

unfoldable pub trim_left : Bytes → Bytes
trim_left [] = []
trim_left (c ∷ s) = let rest = trim_left s in if is_blank c then rest else c ∷ s

unfoldable pub trim_right : Bytes → Bytes
trim_right [] = []
trim_right (c ∷ s) = elim (trim_right s) [
  | [] ↦ if is_blank c then [] else c ∷ []
  | d ∷ t ↦ c ∷ d ∷ t
]

unfoldable pub trim_space : Bytes → Bytes
unfolding trim_left trim_right
trim_space s = trim_right (trim_left s)
