-- ===== src/Reader.antt =====
-- reader.go: the per-byte state machine of `transportReader`. The transport is the list of bytes
-- that it delivers, and `opts` the option set that the session has stored.
pub mod Fuel
pub mod Bounds
use go_hydra.Base.{
  ℕ, zero, suc, ◌+◌, ◌-◌, bit_and, bit_xor, Bool, true, false, not, ◌&&◌, ◌||◌, List, [], ◌∷◌, ◌++◌,
  Option, none, some, ◌>>=◌, ltb, leb, ◌==◌, if◌then◌else◌, Bytes, length, get_elem?, take,
}
use go_hydra.Constants.{
  dle, char_xon, char_xof, fmt_end, fmt_bin, fmt_hex, fmt_asc, fmt_uue, cap_hi8, cap_xon, cap_ctl,
  cap_c32, detect_cancel_count, max_encoded_len, max_decoded_len,
}
use go_hydra.Caps.{has}
use go_hydra.Crc.{crc16_compute, crc32_compute, crc16_test, crc32_test}
use go_hydra.Encoding.{masked, hex_decode_body}
use go_hydra.Encoding.Asc.{asc_decode_body}
use go_hydra.Encoding.Uue.{uue_decode_body}
use go_hydra.Packet.{Packet}

pub record Reader : Type 0 where
  pub dles : ℕ
  pub format : ℕ
  pub in_packet : Bool
  pub overflow : Bool
  pub body : Bytes
  pub garbage : ℕ

-- `newTransportReader`.
unfoldable pub new_reader : Reader
new_reader = record {
  dles = 0;
  format = 0;
  in_packet = false;
  overflow = false;
  body = [];
  garbage = 0;
}

-- What one byte leads to: the loop goes on, a packet is returned, or the cancel sequence is.
pub data Outcome : Type 0 where
  next : Reader → Outcome
  packet : Packet → Reader → Outcome
  cancel : Reader → Outcome

unfoldable pub collect : Reader → ℕ → Reader
collect r c =
    if not r.in_packet || r.overflow
    then r
    else if leb max_encoded_len (length r.body)
    then record r { overflow = true }
    else record r { body = r.body ++ (c ∷ []) }

-- The decode by format; `none` is a decode error. Another format never gets here, and would leave
-- Go's `decoded` nil.
unfoldable pub decode_body : ℕ → Bytes → Option Bytes
decode_body format body =
    if format == fmt_bin
    then some body
    else if format == fmt_hex
    then hex_decode_body body
    else if format == fmt_asc
    then some (asc_decode_body body)
    else if format == fmt_uue
    then uue_decode_body body
    else some []

-- The checks on a decoded body. The type byte is in range behind the runt check.
unfoldable pub check_body : Bool → Bytes → Option Packet
check_body use32 decoded =
    let crc_len = if use32 then 4 else 2 in
    let body_end = length decoded - crc_len in
    let good =
      if use32 then crc32_compute decoded == crc32_test else crc16_compute decoded == crc16_test in
    if ltb max_decoded_len (length decoded)
    then none
    else if ltb (length decoded) (crc_len + 1)
    then none
    else if not good
    then none
    else do
      typ ← get_elem? decoded (body_end - 1)
      some (record { typ = typ; payload = take (body_end - 1) decoded })

unfoldable pub finish_packet : ℕ → Reader → Option Packet × Reader
unfolding decode_body check_body
finish_packet opts r =
    let closed = record r { in_packet = false; overflow = false } in
    if not r.in_packet
    then (none, record r { garbage = r.garbage + 1 })
    else if r.overflow
    then (none, closed)
    else (
      do
        decoded ← decode_body r.format r.body
        check_body (not (r.format == fmt_hex) && has opts cap_c32) decoded,
      closed,
    )

-- The noise filter.
unfoldable pub is_eaten : ℕ → ℕ → Bool
is_eaten opts n =
    not (n == dle)
    && ((has opts cap_xon && (n == char_xon || n == char_xof))
        || (has opts cap_ctl && (ltb n 32 || n == 127)))

abbrev pub outcome : Option Packet × Reader → Outcome
outcome (none, r) = next r
outcome (some p, r) = packet p r

-- The `switch` on a byte behind a DLE, or on a DLE.
unfoldable pub read_escaped : ℕ → Reader → ℕ → Outcome
unfolding collect finish_packet
read_escaped opts r c =
    if c == dle
    then (if leb detect_cancel_count (r.dles + 1)
        then cancel (record r { dles = 0 })
        else next (record r { dles = r.dles + 1 }))
    else if c == fmt_bin || c == fmt_hex || c == fmt_asc || c == fmt_uue
    then next (record r { format = c; body = []; in_packet = true; overflow = false; dles = 0 })
    else if c == fmt_end
    then outcome (finish_packet opts r)
    else next (record (collect r (bit_xor c 0x40)) { dles = 0 })

abbrev pub stripped : ℕ → ℕ → ℕ
stripped opts raw = if has opts cap_hi8 then bit_and raw 0x7f else raw

unfoldable pub read_byte : ℕ → Reader → ℕ → Outcome
unfolding masked is_eaten read_escaped collect
read_byte opts r raw =
    let c = stripped opts raw in
    if is_eaten opts (masked opts c)
    then next r
    else if ltb 0 r.dles || c == dle
    then read_escaped opts r c
    else if r.in_packet
    then next (collect r c)
    else next (record r { garbage = r.garbage + 1 })

-- `readPacket` on the bytes at hand: `waiting` when it would block for more.
pub data Read : Type 0 where
  waiting : Reader → Read
  received : Packet → Reader → Bytes → Read
  cancelled : Reader → Bytes → Read

abbrev pub resume : Outcome → Bytes → (Reader → Read) → Read
resume (next r) rest k = k r
resume (packet p r) rest k = received p r rest
resume (cancel r) rest k = cancelled r rest

unfoldable pub read_packet : ℕ → Reader → Bytes → Read
unfolding read_byte
read_packet opts r [] = waiting r
read_packet opts r (c ∷ bytes) = resume (read_byte opts r c) bytes (λ r'. read_packet opts r' bytes)

-- `readerLoop` of session.go, each packet pushed in its turn, on the bytes at hand; the fuel bounds
-- the packets.
unfoldable pub reader_loop : ℕ → ℕ → Reader → Bytes → List Packet
unfolding read_packet
reader_loop zero opts r bytes = []
reader_loop (suc fuel) opts r bytes = elim (read_packet opts r bytes) [
  | waiting s ↦ []
  | received p s rest ↦ p ∷ reader_loop fuel opts s rest
  | cancelled s rest ↦ []
]
