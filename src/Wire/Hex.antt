-- ===== src/Wire/Hex.antt =====
-- The body of a HEX frame through the reader and the decoder, whatever options the reader has.
use mathlib.Core.Option
use go_hydra.Base.{
  ℕ, ◌+◌, ◌*◌, ◌/◌, ◌%◌, ◌≤◌, ◌<◌, bit_and, bit_xor, ◌≡◌, ◌≢◌, refl, ◌∙◌, ap, Bool, true, false,
  not, ◌&&◌, ◌||◌, ◌⊎◌, inl, inr, [], ◌∷◌, ◌++◌, append_assoc, append-nil, Option, none, some,
  arith, ltb, leb, ◌==◌, if◌then◌else◌, Bool-cases, all_below, all_below_sound, length,
  length-append, Bytes, IsBytes, get_or,
}
use go_hydra.Constants.{dle, max_encoded_len}
use go_hydra.Encoding.{
  backslash, hexdigit, hex_encode_byte, hex_encode_body, plain, hex_pair, hex_decode_from,
  hex_decode_body,
}
use go_hydra.Reader.{read_packet}
use go_hydra.Wire.Bin.{
  inside, escape_facts, read_dle, read_escape, read_printable, read_packet_next,
}

-- The two digits of a byte.
abbrev high_digit : ℕ → ℕ
high_digit c = get_or hexdigit (c / 16) 0

abbrev low_digit : ℕ → ℕ
low_digit c = get_or hexdigit (bit_and c 0x0f) 0

-- What the reader collects of one encoded byte: the DLE escapes are undone, the rest stays.
pub hex_collected : ℕ → Bytes
hex_collected c =
    if leb 0x80 c
    then backslash ∷ high_digit c ∷ low_digit c ∷ []
    else if ltb c 32 || c == 127
    then c ∷ []
    else if c == backslash
    then backslash ∷ backslash ∷ []
    else c ∷ []

pub hex_collected_body : Bytes → Bytes
hex_collected_body [] = []
hex_collected_body (c ∷ body) = hex_collected c ++ hex_collected_body body

abbrev is_printable : ℕ → Bool
is_printable d = leb 32 d && ltb d 127 && not (d == backslash)

abbrev pair_is : Option ℕ → ℕ → Bool
pair_is none c = false
pair_is (some b) c = b == c

digit_table :
    all_below 256 (λ c.
      not (leb 0x80 c)
      || (is_printable (high_digit c)
          && is_printable (low_digit c)
          && pair_is (hex_pair (high_digit c) (low_digit c)) c))
    ≡ true
unfolding all_below hex_pair
digit_table = refl

pair_is-some : (o : Option ℕ) (c : ℕ) → pair_is o c ≡ true → o ≡ some c
pair_is-some none c h = cc
pair_is-some (some b) c h = ground arith

digit_facts :
    (c : ℕ)
    → c < 256
    → 128 ≤ c
    → (is_printable (high_digit c) ≡ true)
      × (is_printable (low_digit c) ≡ true)
      × (hex_pair (high_digit c) (low_digit c) ≡ some c)
digit_facts c h top =
    let facts = all_below_sound 256 _ c h digit_table in
    let big : leb 0x80 c ≡ true = ground arith in
    let rest = rw big at facts in (ground arith, ground arith, pair_is-some _ c (ground arith))

hex_decode_literal :
    (c : ℕ) (rest : Bytes)
    → c ≢ backslash
    → hex_decode_from plain (c ∷ rest) ≡ Option.map (◌∷◌ c) (hex_decode_from plain rest)
unfolding hex_decode_from
hex_decode_literal c rest h = ground arith

hex_decode_backslash :
    (rest : Bytes)
    → hex_decode_from plain (backslash ∷ backslash ∷ rest)
      ≡ Option.map (◌∷◌ backslash) (hex_decode_from plain rest)
unfolding hex_decode_from
hex_decode_backslash rest = refl

hex_decode_digits :
    (a b c : ℕ) (rest : Bytes)
    → a ≢ backslash
    → hex_pair a b ≡ some c
    → hex_decode_from plain (backslash ∷ a ∷ b ∷ rest)
      ≡ Option.map (◌∷◌ c) (hex_decode_from plain rest)
unfolding hex_decode_from
hex_decode_digits a b c rest h e = elim (Bool-cases (a == backslash)) [
  | inl is_slash ↦ absurd (h (ground arith))
  | inr digit ↦ rw digit (rw e)
]

hex_decode_collected :
    (c : ℕ) (rest : Bytes)
    → c < 256
    → hex_decode_from plain (hex_collected c ++ rest)
      ≡ Option.map (◌∷◌ c) (hex_decode_from plain rest)
unfolding hex_collected
hex_decode_collected c rest h = elim (Bool-cases (leb 0x80 c)) [
  | inl high ↦
      let (hi, _, value) = digit_facts c h (ground arith) in
      rw high (hex_decode_digits (high_digit c) (low_digit c) c rest (ground arith) value)
  | inr low ↦ rw low (elim (Bool-cases (ltb c 32 || c == 127)) [
    | inl control ↦ rw control (hex_decode_literal c rest (ground arith))
    | inr printable ↦ rw printable (elim (Bool-cases (c == backslash)) [
      | inl slashed ↦
          let e : c ≡ backslash = ground arith in rw slashed (rw e (hex_decode_backslash rest))
      | inr other ↦ rw other (hex_decode_literal c rest (ground arith))
    ])
  ])
]

-- Decoding what was collected gives the body back.
pub hex_decode_collected_body :
    (body : Bytes) → IsBytes body → hex_decode_body (hex_collected_body body) ≡ some body
unfolding hex_decode_body hex_collected_body
hex_decode_collected_body [] h = unfold hex_decode_from in refl
hex_decode_collected_body (c ∷ body) h =
    hex_decode_collected c (hex_collected_body body) h.0
    ∙ ap (Option.map (◌∷◌ c)) (hex_decode_collected_body body h.1)

pub length-hex_collected : (c : ℕ) → length (hex_collected c) ≤ 3
unfolding hex_collected
length-hex_collected c = ground arith

-- One encoded byte through the reader.
hex_byte_read :
    (opts format : ℕ) (body : Bytes) (garbage c : ℕ) (rest : Bytes)
    → c < 256
    → length body + 3 ≤ max_encoded_len
    → read_packet opts (inside format body garbage) (hex_encode_byte c ++ rest)
      ≡ read_packet opts (inside format (body ++ hex_collected c) garbage) rest
unfolding hex_encode_byte hex_collected
hex_byte_read opts format body garbage c rest h room = elim (Bool-cases (leb 0x80 c)) [
  | inl high ↦
      let (hi, lo, _) = digit_facts c h (ground arith) in
      rw high (three_read (high_digit c) (low_digit c) hi lo)
  | inr low ↦ rw low (elim (Bool-cases (ltb c 32 || c == 127)) [
    | inl control ↦ rw control (control_read (ground arith) (ground arith))
    | inr printable ↦ rw printable (elim (Bool-cases (c == backslash)) [
      | inl slashed ↦ rw slashed (two_read)
      | inr other ↦ rw other (
          read_printable opts format body garbage c rest (ground arith) (ground arith)
            (omega arith))
    ])
  ])
]
  where
    two_read :
        read_packet opts (inside format body garbage) (backslash ∷ backslash ∷ rest)
        ≡ read_packet opts (inside format (body ++ (backslash ∷ backslash ∷ [])) garbage) rest
    two_read =
        read_printable opts format body garbage backslash (backslash ∷ rest) (omega arith)
          (omega arith) (omega arith)
        ∙ read_printable opts format (body ++ (backslash ∷ [])) garbage backslash rest (omega arith)
            (omega arith) (omega (arith, length-append body (backslash ∷ [])))
        ∙ rw (append_assoc body (backslash ∷ []) (backslash ∷ []))

    three_read :
        (a b : ℕ)
        → is_printable a ≡ true
        → is_printable b ≡ true
        → read_packet opts (inside format body garbage) (backslash ∷ a ∷ b ∷ rest)
          ≡ read_packet opts (inside format (body ++ (backslash ∷ a ∷ b ∷ [])) garbage) rest
    three_read a b ha hb =
        read_printable opts format body garbage backslash (a ∷ b ∷ rest) (omega arith) (omega arith)
          (omega arith)
        ∙ read_printable opts format (body ++ (backslash ∷ [])) garbage a (b ∷ rest) (ground arith)
            (ground arith) (omega (arith, length-append body (backslash ∷ [])))
        ∙ ap (λ (t : Bytes). read_packet opts (inside format t garbage) (b ∷ rest))
            (append_assoc body (backslash ∷ []) (a ∷ []))
        ∙ read_printable opts format (body ++ (backslash ∷ a ∷ [])) garbage b rest (ground arith)
            (ground arith) (omega (arith, length-append body (backslash ∷ a ∷ [])))
        ∙ rw (append_assoc body (backslash ∷ a ∷ []) (b ∷ []))

    control_read :
        c < 128
        → (c % 128 < 32) ⊎ (c % 128 ≡ 127)
        → read_packet opts (inside format body garbage) (dle ∷ bit_xor c 0x40 ∷ rest)
          ≡ read_packet opts (inside format (body ++ (c ∷ [])) garbage) rest
    control_read half control =
        let (small, lo, hi, same_half, back) = escape_facts c h control in
        read_packet_next opts _ _ dle _ (read_dle opts format body garbage)
        ∙ read_packet_next opts _ _ (bit_xor c 0x40) rest (
            read_escape opts format body garbage (bit_xor c 0x40) (inl (omega arith)) lo hi
              (omega arith))
        ∙ rw back

-- A whole encoded body, whatever follows.
pub hex_body_read :
    (opts format : ℕ) (body : Bytes) (garbage : ℕ) (bytes rest : Bytes)
    → IsBytes bytes
    → length body + 3 * length bytes ≤ max_encoded_len
    → read_packet opts (inside format body garbage) (hex_encode_body bytes ++ rest)
      ≡ read_packet opts (inside format (body ++ hex_collected_body bytes) garbage) rest
unfolding hex_encode_body hex_collected_body
hex_body_read opts format body garbage [] rest h room = rw (append-nil body)
hex_body_read opts format body garbage (c ∷ bytes) rest h room =
    rw (append_assoc (hex_encode_byte c) (hex_encode_body bytes) rest) (
      hex_byte_read opts format body garbage c (hex_encode_body bytes ++ rest) h.0 (omega arith)
      ∙ hex_body_read opts format (body ++ hex_collected c) garbage bytes rest h.1
          (omega (arith, length-append body (hex_collected c), length-hex_collected c))
      ∙ rw (append_assoc body (hex_collected c) (hex_collected_body bytes)))
