-- ===== src/Encoding/Uue.antt =====
-- encoding.go: the UUE encoding, three bytes to four characters.
use mathlib.Core.Option
use go_hydra.Base.{
  ℕ, ◌+◌, ◌-◌, ◌*◌, ◌/◌, ◌%◌, bit_and, bit_or, [], ◌∷◌, ◌||◌, Option, none, some, ◌>>=◌, ltb,
  if◌then◌else◌, Bytes,
}

abbrev pub uue_base : ℕ
uue_base = b'!'

unfoldable pub uue_char : ℕ → ℕ
uue_char c = bit_and c 0x3f + uue_base

unfoldable pub uue_encode_body : Bytes → Bytes
unfolding uue_char
uue_encode_body (b0 ∷ b1 ∷ b2 ∷ body) =
    uue_char (b0 / 4)
    ∷ uue_char (bit_or (b0 * 16 % 256) (b1 / 16))
    ∷ uue_char (bit_or (b1 * 4 % 256) (b2 / 64))
    ∷ uue_char b2
    ∷ uue_encode_body body
uue_encode_body (b0 ∷ b1 ∷ []) =
    uue_char (b0 / 4) ∷ uue_char (bit_or (b0 * 16 % 256) (b1 / 16)) ∷ uue_char (b1 * 4 % 256) ∷ []
uue_encode_body (b0 ∷ []) = uue_char (b0 / 4) ∷ uue_char (b0 * 16 % 256) ∷ []
uue_encode_body [] = []

-- The closure `dec`.
unfoldable pub uue_value : ℕ → Option ℕ
uue_value c = if ltb c 0x21 || ltb 0x60 c then none else some (bit_and (c - uue_base) 0x3f)

unfoldable pub uue_decode_body : Bytes → Option Bytes
unfolding uue_value
uue_decode_body (a ∷ b ∷ c ∷ d ∷ body) =
    let rest = uue_decode_body body in
    do
      c0 ← uue_value a
      c1 ← uue_value b
      c2 ← uue_value c
      c3 ← uue_value d
      Option.map
          (λ out.
            bit_or (c0 * 4 % 256) (c1 / 16)
            ∷ bit_or (c1 * 16 % 256) (c2 / 4)
            ∷ bit_or (c2 * 64 % 256) c3
            ∷ out)
          rest
uue_decode_body (a ∷ b ∷ c ∷ []) = do
  c0 ← uue_value a
  c1 ← uue_value b
  c2 ← uue_value c
  some (bit_or (c0 * 4 % 256) (c1 / 16) ∷ bit_or (c1 * 16 % 256) (c2 / 4) ∷ [])
uue_decode_body (a ∷ b ∷ []) = do
  c0 ← uue_value a
  c1 ← uue_value b
  some (bit_or (c0 * 4 % 256) (c1 / 16) ∷ [])
uue_decode_body (a ∷ []) = some []
uue_decode_body [] = some []
