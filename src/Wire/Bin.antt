-- ===== src/Wire/Bin.antt =====
-- The DLE-escaped body of a BIN frame, byte by byte through the reader.
use go_hydra.Base.{
  ℕ, ◌+◌, ◌/◌, ◌%◌, ◌≤◌, ◌<◌, bit_xor, ◌≡◌, ◌≢◌, refl, ◌∙◌, ap, true, false, not, ◌&&◌, ◌||◌, ◌⊎◌,
  inl, inr, [], ◌∷◌, ◌++◌, append_assoc, append-nil, arith, ltb, leb, ◌==◌, Bool-cases, all_below,
  all_below_sound, length, length-append, Bytes, IsBytes, All,
}
use go_hydra.Base.Bits.{low_seven}
use go_hydra.Constants.{dle, cap_hi8, max_encoded_len}
use go_hydra.Caps.{has}
use go_hydra.Encoding.{BinEscaper, masked, is_escaped, put, put_all}
use go_hydra.Reader.{Reader, next, is_eaten, read_byte, read_packet}

-- A reader inside a frame, with `body` collected and no DLE pending.
abbrev pub inside : ℕ → Bytes → ℕ → Reader
inside format body garbage = record {
  dles = 0;
  format = format;
  in_packet = true;
  overflow = false;
  body = body;
  garbage = garbage;
}

-- The same behind one DLE.
abbrev pub behind_dle : ℕ → Bytes → ℕ → Reader
behind_dle format body garbage = record (inside format body garbage) { dles = 1 }

escape_table :
    all_below 256 (λ c.
      let d = bit_xor c 0x40 in
      not (ltb (c % 128) 32 || c % 128 == 127)
      || (ltb d 256
          && leb 63 (d % 128)
          && leb (d % 128) 95
          && d / 128 == c / 128
          && bit_xor d 0x40 == c))
    ≡ true
unfolding all_below
escape_table = refl

-- What the escape of a control byte looks like, and that it is undone.
pub escape_facts :
    (c : ℕ)
    → c < 256
    → (c % 128 < 32) ⊎ (c % 128 ≡ 127)
    → let d = bit_xor c 0x40 in
      (d < 256) × (63 ≤ d % 128) × (d % 128 ≤ 95) × (d / 128 ≡ c / 128) × (bit_xor d 0x40 ≡ c)
escape_facts c h control = ground (arith, all_below_sound 256 _ c h escape_table)

pub is_escaped_control : (e : BinEscaper) (n : ℕ) → is_escaped e n ≡ true → (n < 32) ⊎ (n ≡ 127)
unfolding is_escaped
is_escaped_control e n h = ground arith

-- A byte that the escaper lets through is no DLE and passes the reader's noise filter.
plain_passes :
    (e : BinEscaper) (n : ℕ) → is_escaped e n ≡ false → (is_eaten e.opts n ≡ false) × (n ≢ dle)
unfolding is_escaped is_eaten
plain_passes e n h = ground arith

-- A DLE never falls to the filter.
pub read_dle :
    (opts format : ℕ) (body : Bytes) (garbage : ℕ)
    → read_byte opts (inside format body garbage) dle ≡ next (behind_dle format body garbage)
unfolding read_byte
read_dle opts format body garbage = ground arith

-- A byte in the range of escapes, behind a DLE, is collected in its original form.
pub read_escape :
    (opts format : ℕ) (body : Bytes) (garbage d : ℕ)
    → d < 128 ⊎ ((d < 256) × (has opts cap_hi8 ≡ false))
    → 63 ≤ d % 128
    → d % 128 ≤ 95
    → length body < max_encoded_len
    → read_byte opts (behind_dle format body garbage) d
      ≡ next (inside format (body ++ (bit_xor d 0x40 ∷ [])) garbage)
unfolding read_byte
read_escape opts format body garbage d h lo hi room = ground (arith, low_seven d)

-- A byte that is neither filtered nor a DLE is collected as it is.
pub read_plain :
    (opts format : ℕ) (body : Bytes) (garbage c : ℕ)
    → c < 128 ⊎ ((c < 256) × (has opts cap_hi8 ≡ false))
    → is_eaten opts (masked opts c) ≡ false
    → c ≢ dle
    → length body < max_encoded_len
    → read_byte opts (inside format body garbage) c
      ≡ next (inside format (body ++ (c ∷ [])) garbage)
unfolding read_byte
read_plain opts format body garbage c h passes ne room = ground (arith, low_seven c)

pub read_packet_next :
    (opts : ℕ) (r s : Reader) (c : ℕ) (rest : Bytes)
    → read_byte opts r c ≡ next s
    → read_packet opts r (c ∷ rest) ≡ read_packet opts s rest
unfolding read_packet
read_packet_next opts r s c rest e = rw e

-- A printable character is collected under every option set.
pub read_printable :
    (opts format : ℕ) (body : Bytes) (garbage c : ℕ) (rest : Bytes)
    → 32 ≤ c
    → c < 127
    → length body < max_encoded_len
    → read_packet opts (inside format body garbage) (c ∷ rest)
      ≡ read_packet opts (inside format (body ++ (c ∷ [])) garbage) rest
read_printable opts format body garbage c rest lo hi room =
    read_packet_next opts _ _ c rest
      (read_plain opts format body garbage c (inl (omega arith)) passes (omega arith) room)
  where
    same : masked opts c ≡ c
    same = unfold masked in ground (arith, low_seven c)

    passes : is_eaten opts (masked opts c) ≡ false
    passes = rw same (unfold is_eaten in ground arith)

masked_control :
    (opts c : ℕ)
    → c < 256
    → (masked opts c < 32) ⊎ (masked opts c ≡ 127)
    → (c % 128 < 32) ⊎ (c % 128 ≡ 127)
unfolding masked
masked_control opts c h control = ground (arith, low_seven c)

masked-dle : (opts : ℕ) → masked opts dle ≡ dle
unfolding masked
masked-dle opts = ground arith

-- A byte that the link carries: seven bits, or eight where the high bit is not stripped.
abbrev pub Survives : ℕ → ℕ → Type 0
Survives opts c = c < 128 ⊎ ((c < 256) × (has opts cap_hi8 ≡ false))

xor-Survives :
    (opts c : ℕ)
    → Survives opts c
    → bit_xor c 0x40 < 256
    → bit_xor c 0x40 / 128 ≡ c / 128
    → Survives opts (bit_xor c 0x40)
xor-Survives opts c h small same = ground arith

-- One byte of the body, through the escaper and the reader.
put_read :
    (e : BinEscaper) (format : ℕ) (body : Bytes) (garbage c : ℕ) (rest : Bytes)
    → Survives e.opts c
    → length body < max_encoded_len
    → read_packet e.opts (inside format body garbage) ((put e c).0 ++ rest)
      ≡ read_packet e.opts (inside format (body ++ (c ∷ [])) garbage) rest
unfolding put
put_read e format body garbage c rest survives room =
    let h : c < 256 = omega arith in
    elim (Bool-cases (is_escaped e (masked e.opts c))) [
      | inl yes_escaped ↦
          let control =
            masked_control e.opts c h (is_escaped_control e (masked e.opts c) yes_escaped) in
          let (small, lo, hi, same_half, back) = escape_facts c h control in
          rw yes_escaped (
            read_packet_next e.opts _ _ dle _ (read_dle e.opts format body garbage)
            ∙ read_packet_next e.opts _ _ (bit_xor c 0x40) rest (
                read_escape e.opts format body garbage (bit_xor c 0x40)
                  (xor-Survives e.opts c survives small same_half) lo hi room)
            ∙ rw back)
      | inr unescaped ↦
          let (passes, ne) = plain_passes e (masked e.opts c) unescaped in
          rw unescaped (
            read_packet_next e.opts _ _ c rest (
              read_plain e.opts format body garbage c survives passes
                (λ is_dle. ne (ap (masked e.opts) is_dle ∙ masked-dle e.opts)) room))
    ]

-- A whole body, escaped, is collected unescaped, whatever follows and whatever the escaper has seen.
pub put_all_read :
    (e : BinEscaper) (format : ℕ) (body : Bytes) (garbage : ℕ) (bytes rest : Bytes)
    → All (Survives e.opts) bytes
    → length body + length bytes ≤ max_encoded_len
    → read_packet e.opts (inside format body garbage) (put_all e bytes ++ rest)
      ≡ read_packet e.opts (inside format (body ++ bytes) garbage) rest
unfolding put_all
put_all_read e format body garbage [] rest h room = rw (append-nil body)
put_all_read e format body garbage (c ∷ bytes) rest h room =
    rw (append_assoc (put e c).0 (put_all (put e c).1 bytes) rest) (
      put_read e format body garbage c (put_all (put e c).1 bytes ++ rest) h.0 (omega arith)
      ∙ put_all_read (put e c).1 format (body ++ (c ∷ [])) garbage bytes rest h.1
          (omega (arith, length-append body (c ∷ [])))
      ∙ rw (append_assoc body (c ∷ []) bytes))

pub bytes-Survive :
    (opts : ℕ) (bytes : Bytes)
    → IsBytes bytes
    → has opts cap_hi8 ≡ false
    → All (Survives opts) bytes
bytes-Survive opts [] h strip = tt
bytes-Survive opts (c ∷ bytes) h strip = (inr (h.0, strip), bytes-Survive opts bytes h.1 strip)
