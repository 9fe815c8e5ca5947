-- ===== src/Encoding.antt =====
-- encoding.go: the body encodings. Go appends to `out`; here a function returns the bytes that it
-- appends. `HexMode` is how far the decoding loop has read ahead of an escape.
pub mod Asc
pub mod Uue
use mathlib.Core.Option
use go_hydra.Base.{
  ℕ, ◌+◌, ◌-◌, ◌*◌, ◌/◌, ◌%◌, bit_and, bit_or, bit_xor, Bool, true, false, not, ◌&&◌, ◌||◌, List,
  [], ◌∷◌, ◌++◌, Option, none, some, ◌>>=◌, leb, ltb, ◌==◌, if◌then◌else◌, Bytes, get_or,
}
use go_hydra.Constants.{
  dle, char_xon, char_xof, char_cr, char_at, cap_xon, cap_tln, cap_ctl, cap_hic,
}
use go_hydra.Caps.{has}

pub record BinEscaper : Type 0 where
  pub opts : ℕ
  pub lastc : ℕ

-- `reset`.
abbrev pub fresh : ℕ → BinEscaper
fresh opts = record { opts = opts; lastc = 0 }

-- The comparison copy of a byte.
unfoldable pub masked : ℕ → ℕ → ℕ
masked opts c = if has opts cap_hic then bit_and c 0x7f else c

unfoldable pub is_escaped : BinEscaper → ℕ → Bool
is_escaped e n =
    n == dle
    || (has e.opts cap_xon && (n == char_xon || n == char_xof))
    || (has e.opts cap_tln && n == char_cr && e.lastc == char_at)
    || (has e.opts cap_ctl && (ltb n 32 || n == 127))

unfoldable pub put : BinEscaper → ℕ → Bytes × BinEscaper
unfolding masked is_escaped
put e c =
    let n = masked e.opts c in
    (if is_escaped e n then dle ∷ bit_xor c 0x40 ∷ [] else c ∷ [], record e { lastc = n })

unfoldable pub put_all : BinEscaper → Bytes → Bytes
unfolding put
put_all e [] = []
put_all e (c ∷ body) = (put e c).0 ++ put_all (put e c).1 body

abbrev pub hexdigit : Bytes
hexdigit =
    b'0' ∷ b'1' ∷ b'2' ∷ b'3' ∷ b'4' ∷ b'5' ∷ b'6' ∷ b'7' ∷ b'8' ∷ b'9' ∷ b'a' ∷ b'b' ∷ b'c' ∷ b'd'
    ∷ b'e' ∷ b'f' ∷ []

abbrev pub backslash : ℕ
backslash = b'\\'

-- One round of `hexEncodeBody`.
unfoldable pub hex_encode_byte : ℕ → Bytes
hex_encode_byte c =
    if leb 0x80 c
    then backslash ∷ get_or hexdigit (c / 16) 0 ∷ get_or hexdigit (bit_and c 0x0f) 0 ∷ []
    else if ltb c 32 || c == 127
    then dle ∷ bit_xor c 0x40 ∷ []
    else if c == backslash
    then backslash ∷ backslash ∷ []
    else c ∷ []

unfoldable pub hex_encode_body : Bytes → Bytes
unfolding hex_encode_byte
hex_encode_body [] = []
hex_encode_body (c ∷ body) = hex_encode_byte c ++ hex_encode_body body

unfoldable pub hex_nibble : ℕ → Option ℕ
hex_nibble c =
    if leb b'0' c && leb c b'9'
    then some (c - b'0')
    else if leb b'a' c && leb c b'f'
    then some (c - b'a' + 10)
    else none

-- `plain` at the head of the loop, `slash` behind a backslash, `pair d` behind a backslash and `d`.
pub data HexMode : Type 0 where
  plain slash : HexMode
  pair : ℕ → HexMode

unfoldable pub hex_pair : ℕ → ℕ → Option ℕ
unfolding hex_nibble
hex_pair d c = do hi ← hex_nibble d; lo ← hex_nibble c; some (bit_or (hi * 16 % 256) lo)

unfoldable pub hex_decode_from : HexMode → Bytes → Option Bytes
unfolding hex_pair
hex_decode_from plain [] = some []
hex_decode_from slash [] = none
hex_decode_from (pair d) [] = none
hex_decode_from plain (c ∷ body) =
    let literal = Option.map (◌∷◌ c) (hex_decode_from plain body) in
    let escape = hex_decode_from slash body in if not (c == backslash) then literal else escape
hex_decode_from slash (c ∷ body) =
    let literal = Option.map (◌∷◌ backslash) (hex_decode_from plain body) in
    let digits = hex_decode_from (pair c) body in if c == backslash then literal else digits
hex_decode_from (pair d) (c ∷ body) =
    let rest = hex_decode_from plain body in do b ← hex_pair d c; Option.map (◌∷◌ b) rest

unfoldable pub hex_decode_body : Bytes → Option Bytes
unfolding hex_decode_from
hex_decode_body body = hex_decode_from plain body
