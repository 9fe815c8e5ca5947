-- ===== src/Wire/Uue.antt =====
-- The UUE body of a frame, decoded, and through the reader.
use go_hydra.Base.{
  ℕ, ◌+◌, ◌*◌, ◌/◌, ◌%◌, ◌≤◌, ◌<◌, bit_or, ◌≡◌, refl, ◌∙◌, ap, [], ◌∷◌, ◌++◌, append_assoc,
  append-nil, some, arith, length, length-append, Bytes, IsBytes, All,
}
use go_hydra.Base.Or.{or_below, low_six}
use go_hydra.Constants.{max_encoded_len}
use go_hydra.Encoding.Uue.{uue_char, uue_value, uue_encode_body, uue_decode_body}
use go_hydra.Reader.{read_packet}
use go_hydra.Wire.Bin.{inside, read_printable}

uue_value-uue_char : (c : ℕ) → uue_value (uue_char c) ≡ some (c % 64)
unfolding uue_value uue_char
uue_value-uue_char c = ground (arith, low_six c, low_six (c % 64))

-- The three ways in which a byte is put together again.
byte0 : (b c0 c1 : ℕ) → c0 ≡ b / 4 → c1 / 16 ≡ b % 4 → b < 256 → bit_or (c0 * 4 % 256) (c1 / 16) ≡ b
byte0 b c0 c1 e0 e1 h =
    let e : c0 * 4 % 256 ≡ b / 4 * 4 = omega arith in
    rw (e, e1) (or_below 2 (b / 4) (b % 4) (omega arith) ∙ omega arith)

byte1 :
    (b c1 c2 : ℕ)
    → c1 % 16 ≡ b / 16
    → c2 / 4 ≡ b % 16
    → b < 256
    → bit_or (c1 * 16 % 256) (c2 / 4) ≡ b
byte1 b c1 c2 e1 e2 h =
    let e : c1 * 16 % 256 ≡ b / 16 * 16 = omega arith in
    rw (e, e2) (or_below 4 (b / 16) (b % 16) (omega arith) ∙ omega arith)

byte2 : (b c2 c3 : ℕ) → c2 % 4 ≡ b / 64 → c3 ≡ b % 64 → b < 256 → bit_or (c2 * 64 % 256) c3 ≡ b
byte2 b c2 c3 e2 e3 h =
    let e : c2 * 64 % 256 ≡ b / 64 * 64 = omega arith in
    rw (e, e3) (or_below 6 (b / 64) (b % 64) (omega arith) ∙ omega arith)

-- The two characters that carry digits of two bytes.
middle1 : (b0 b1 : ℕ) → b1 < 256 → bit_or (b0 * 16 % 256) (b1 / 16) % 64 ≡ b0 % 4 * 16 + b1 / 16
middle1 b0 b1 h =
    let e : b0 * 16 % 256 ≡ b0 % 16 * 16 = omega arith in
    rw e (omega (arith, or_below 4 (b0 % 16) (b1 / 16) (omega arith)))

middle2 : (b1 b2 : ℕ) → b2 < 256 → bit_or (b1 * 4 % 256) (b2 / 64) % 64 ≡ b1 % 16 * 4 + b2 / 64
middle2 b1 b2 h =
    let e : b1 * 4 % 256 ≡ b1 % 64 * 4 = omega arith in
    rw e (omega (arith, or_below 2 (b1 % 64) (b2 / 64) (omega arith)))

-- What was encoded is decoded as it was.
pub uue_decode-encode :
    (body : Bytes) → IsBytes body → uue_decode_body (uue_encode_body body) ≡ some body
unfolding uue_decode_body uue_encode_body
uue_decode-encode [] h = refl
uue_decode-encode (b0 ∷ []) h =
    rw (uue_value-uue_char (b0 / 4), uue_value-uue_char (b0 * 16 % 256))
      (ap (λ x. some (x ∷ [])) (byte0 b0 _ _ (omega (arith, h.0)) (omega arith) h.0))
uue_decode-encode (b0 ∷ b1 ∷ []) h =
    let m = middle1 b0 b1 h.1.0 in
    let x =
      byte0 b0 (b0 / 4 % 64) (bit_or (b0 * 16 % 256) (b1 / 16) % 64) (omega (arith, h.0))
        (omega (arith, h.1.0)) h.0 in
    let y =
      byte1 b1 (bit_or (b0 * 16 % 256) (b1 / 16) % 64) (b1 * 4 % 256 % 64) (omega (arith, h.1.0))
        (omega arith) h.1.0 in
    rw
      (
        uue_value-uue_char (b0 / 4),
        uue_value-uue_char (bit_or (b0 * 16 % 256) (b1 / 16)),
        uue_value-uue_char (b1 * 4 % 256),
      )
      (rw (x, y) refl)
uue_decode-encode (b0 ∷ b1 ∷ b2 ∷ body) h =
    let m1 = middle1 b0 b1 h.1.0 in
    let m2 = middle2 b1 b2 h.1.1.0 in
    let c1 = bit_or (b0 * 16 % 256) (b1 / 16) % 64 in
    let c2 = bit_or (b1 * 4 % 256) (b2 / 64) % 64 in
    let x = byte0 b0 (b0 / 4 % 64) c1 (omega (arith, h.0)) (omega (arith, h.1.0)) h.0 in
    let y = byte1 b1 c1 c2 (omega (arith, h.1.0)) (omega (arith, h.1.1.0)) h.1.0 in
    let z = byte2 b2 c2 (b2 % 64) (omega (arith, h.1.1.0)) refl h.1.1.0 in
    rw
      (
        uue_value-uue_char (b0 / 4),
        uue_value-uue_char (bit_or (b0 * 16 % 256) (b1 / 16)),
        uue_value-uue_char (bit_or (b1 * 4 % 256) (b2 / 64)),
        uue_value-uue_char b2,
        uue_decode-encode body h.1.1.1,
      )
      (rw (x, y, z) refl)

abbrev IsUueChar : ℕ → Type 0
IsUueChar c = (33 ≤ c) × (c ≤ 96)

uue_char-IsUueChar : (c : ℕ) → IsUueChar (uue_char c)
unfolding uue_char
uue_char-IsUueChar c = ground (arith, low_six c)

uue_encode_body-IsUueChar : (body : Bytes) → All IsUueChar (uue_encode_body body)
unfolding uue_encode_body
uue_encode_body-IsUueChar [] = tt
uue_encode_body-IsUueChar (b0 ∷ []) = (uue_char-IsUueChar _, (uue_char-IsUueChar _, tt))
uue_encode_body-IsUueChar (b0 ∷ b1 ∷ []) =
    (uue_char-IsUueChar _, (uue_char-IsUueChar _, (uue_char-IsUueChar _, tt)))
uue_encode_body-IsUueChar (b0 ∷ b1 ∷ b2 ∷ body) =
    let rest = uue_encode_body-IsUueChar body in
    (
      uue_char-IsUueChar _,
      (uue_char-IsUueChar _, (uue_char-IsUueChar _, (uue_char-IsUueChar _, rest))),
    )

length-uue_encode_body : (body : Bytes) → length (uue_encode_body body) ≤ 2 * length body
unfolding uue_encode_body
length-uue_encode_body [] = omega arith
length-uue_encode_body (b0 ∷ []) = omega arith
length-uue_encode_body (b0 ∷ b1 ∷ []) = omega arith
length-uue_encode_body (b0 ∷ b1 ∷ b2 ∷ body) = omega (arith, length-uue_encode_body body)

-- Such characters are collected as they are, whatever options the reader has.
chars_read :
    (opts format : ℕ) (body : Bytes) (garbage : ℕ) (chars rest : Bytes)
    → All IsUueChar chars
    → length body + length chars ≤ max_encoded_len
    → read_packet opts (inside format body garbage) (chars ++ rest)
      ≡ read_packet opts (inside format (body ++ chars) garbage) rest
chars_read opts format body garbage [] rest h room = rw (append-nil body)
chars_read opts format body garbage (c ∷ chars) rest h room =
    read_printable opts format body garbage c (chars ++ rest) (omega (arith, h.0.0))
      (omega (arith, h.0.1)) (omega arith)
    ∙ chars_read opts format (body ++ (c ∷ [])) garbage chars rest h.1
        (omega (arith, length-append body (c ∷ [])))
    ∙ rw (append_assoc body (c ∷ []) chars)

-- A whole encoded body, whatever follows.
pub uue_body_read :
    (opts format : ℕ) (body : Bytes) (garbage : ℕ) (bytes rest : Bytes)
    → length body + 2 * length bytes ≤ max_encoded_len
    → read_packet opts (inside format body garbage) (uue_encode_body bytes ++ rest)
      ≡ read_packet opts (inside format (body ++ uue_encode_body bytes) garbage) rest
uue_body_read opts format body garbage bytes rest room =
    chars_read opts format body garbage (uue_encode_body bytes) rest
      (uue_encode_body-IsUueChar bytes) (omega (arith, length-uue_encode_body bytes))
