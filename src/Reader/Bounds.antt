-- ===== src/Reader/Bounds.antt =====
-- reader.go: what the reader holds, and what it gives, under any bytes.
use go_hydra.Base.{
  ℕ, suc, bit_xor, ◌-◌, ◌≤◌, ◌<◌, ◌≡◌, refl, Bool, false, not, ◌&&◌, [], ◌∷◌, Option, none, some,
  ◌>>=◌, ◌==◌, if◌then◌else◌, arith, length, length-append, Bytes, get_elem?, take, length-take,
}
use go_hydra.Constants.{detect_cancel_count, max_encoded_len, cap_c32, fmt_hex}
use go_hydra.Caps.{has}
use go_hydra.Packet.{Packet}
use go_hydra.Reader.{
  Reader, Outcome, next, packet, cancel, Read, waiting, received, cancelled, resume, collect,
  decode_body, check_body, finish_packet, read_escaped, stripped, outcome, read_byte, read_packet,
}

-- Memory is bounded, and a cancel is found before the count of DLEs reaches five.
pub record IsSmall (r : Reader) : Type 0 where
  pub body_fits : length r.body ≤ max_encoded_len
  pub few_dles : r.dles < detect_cancel_count

-- What the reader has found in `n` bytes.
abbrev pub IsWithin : ℕ → Read → Type 0
IsWithin n (waiting s) = IsSmall s
IsWithin n (received p s rest) =
    IsSmall s × (s.in_packet ≡ false) × (length p.payload ≤ 2058) × (length rest < n)
IsWithin n (cancelled s rest) = IsSmall s × (s.dles ≡ 0) × (length rest < n)

abbrev IsSmallOutcome : Outcome → Type 0
IsSmallOutcome (next s) = IsSmall s
IsSmallOutcome (packet p s) = IsSmall s × (s.in_packet ≡ false) × (length p.payload ≤ 2058)
IsSmallOutcome (cancel s) = IsSmall s × (s.dles ≡ 0)

abbrev HasShort : Option Packet → Type 0
HasShort none = Unit
HasShort (some p) = length p.payload ≤ 2058

collect-IsSmall : (r : Reader) (c : ℕ) → IsSmall r → IsSmall (collect r c)
unfolding collect
collect-IsSmall r c h = ground (arith, length-append r.body (c ∷ []))

typed :
    (o : Option ℕ) (payload : Bytes)
    → length payload ≤ 2058
    → HasShort (do typ ← o; some (record { typ = typ; payload = payload }))
typed none payload h = tt
typed (some typ) payload h = h

check_body-short : (use32 : Bool) (decoded : Bytes) → HasShort (check_body use32 decoded)
unfolding check_body
check_body-short use32 decoded =
    let payload = take (length decoded - (if use32 then 4 else 2) - 1) decoded in
    let size = length-take (length decoded - (if use32 then 4 else 2) - 1) decoded in
    ground (
      arith,
      size,
      typed (get_elem? decoded (length decoded - (if use32 then 4 else 2) - 1)) payload,
    )

checked :
    (o : Option Packet) (s : Reader)
    → IsSmall s
    → s.in_packet ≡ false
    → HasShort o
    → IsSmallOutcome (outcome (o, s))
checked none s h e k = h
checked (some p) s h e k = (h, e, k)

-- A decoded body, or none, behind a frame.
closed-IsSmall :
    (o : Option Bytes) (use32 : Bool) (s : Reader)
    → IsSmall s
    → s.in_packet ≡ false
    → IsSmallOutcome (outcome (do decoded ← o; check_body use32 decoded, s))
closed-IsSmall none use32 s h e = h
closed-IsSmall (some decoded) use32 s h e =
    checked (check_body use32 decoded) s h e (check_body-short use32 decoded)

finish_packet-IsSmall :
    (opts : ℕ) (r : Reader) → IsSmall r → IsSmallOutcome (outcome (finish_packet opts r))
unfolding finish_packet
finish_packet-IsSmall opts r h = ground (
  arith,
  closed-IsSmall (decode_body r.format r.body) (not (r.format == fmt_hex) && has opts cap_c32)
      (record r { in_packet = false; overflow = false })
      (record { body_fits = h.body_fits; few_dles = h.few_dles }) refl,
)

read_escaped-IsSmall :
    (opts : ℕ) (r : Reader) (c : ℕ) → IsSmall r → IsSmallOutcome (read_escaped opts r c)
unfolding read_escaped
read_escaped-IsSmall opts r c h =
    ground (arith, collect-IsSmall r (bit_xor c 0x40) h, finish_packet-IsSmall opts r h)

read_byte-IsSmall :
    (opts : ℕ) (r : Reader) (c : ℕ) → IsSmall r → IsSmallOutcome (read_byte opts r c)
unfolding read_byte
read_byte-IsSmall opts r c h =
    ground (
      arith,
      collect-IsSmall r (stripped opts c) h,
      read_escaped-IsSmall opts r (stripped opts c) h,
    )

IsWithin-suc : (x : Read) (n : ℕ) → IsWithin n x → IsWithin (suc n) x
IsWithin-suc (waiting s) n h = h
IsWithin-suc (received p s rest) n h = (h.0, h.1, h.2, omega (arith, h.3))
IsWithin-suc (cancelled s rest) n h = (h.0, h.1, omega (arith, h.2))

resume-IsWithin :
    (o : Outcome) (bytes : Bytes) (k : Reader → Read)
    → IsSmallOutcome o
    → ((s : Reader) → IsSmall s → IsWithin (length bytes) (k s))
    → IsWithin (suc (length bytes)) (resume o bytes k)
resume-IsWithin (next s) bytes k h step = IsWithin-suc (k s) (length bytes) (step s h)
resume-IsWithin (packet p s) bytes k h step = (h.0, h.1, h.2, omega arith)
resume-IsWithin (cancel s) bytes k h step = (h.0, h.1, omega arith)

-- From any state with at most the size limit collected and fewer than five DLEs counted, under any
-- options and whatever bytes come: where the reader blocks it is in such a state again; a packet that
-- it returns has at most 2058 payload bytes, and a cancel leaves no DLE counted; and either takes at
-- least one byte, and leaves the reader in such a state, behind a packet outside a frame.
pub read_packet-IsWithin :
    (opts : ℕ) (r : Reader) (bytes : Bytes)
    → IsSmall r
    → IsWithin (length bytes) (read_packet opts r bytes)
unfolding read_packet
read_packet-IsWithin opts r [] h = h
read_packet-IsWithin opts r (c ∷ bytes) h =
    resume-IsWithin (read_byte opts r c) bytes (λ s. read_packet opts s bytes)
      (read_byte-IsSmall opts r c h) (λ s h'. read_packet-IsWithin opts s bytes h')
