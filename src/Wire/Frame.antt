-- ===== src/Wire/Frame.antt =====
-- Whole frames: what the writer puts on the wire for a packet is read as that packet.
use go_hydra.Base.{
  ℕ, ◌+◌, ◌-◌, ◌≤◌, ◌<◌, ◌≡◌, ◌≢◌, refl, ◌∙◌, Bool, true, false, not, ◌&&◌, ◌⊎◌, inl, inr, [], ◌∷◌,
  ◌++◌, append_assoc, some, arith, ◌==◌, if◌then◌else◌, length, length-append, Bytes, IsByte,
  IsBytes, All, All-append, take, take-append, get_elem?, get_elem?-append,
}
use go_hydra.Base.Bits.{low_seven}
use go_hydra.Constants.{dle, fmt_end, fmt_bin, fmt_hex, fmt_asc, fmt_uue, cap_c32, max_payload_size}
use go_hydra.Caps.{has}
use go_hydra.Crc.{crc16_bytes, crc32_bytes, crc16_compute, crc32_compute, crc16_test, crc32_test}
use go_hydra.Crc.Residue.{compute-bytes}
use go_hydra.Packet.{Packet}
use go_hydra.Reader.{
  Reader, Outcome, next, packet, cancel, collect, finish_packet, decode_body, check_body,
  read_escaped, read_byte, read_packet, received, stripped, outcome,
}
use go_hydra.Wire.Bin.{inside, behind_dle, read_dle, read_packet_next}

-- Between frames, or inside an unfinished one with no DLE pending.
pub record IsIdle (r : Reader) : Type 0 where
  pub few_dles : r.dles ≤ 3
  pub outside : (r.in_packet ≡ false) ⊎ (r.dles ≡ 0)

-- No byte of the prefix is a DLE once the reader has stripped it.
abbrev pub NoDle : ℕ → Bytes → Type 0
NoDle opts = All (λ c. stripped opts c ≢ dle)

abbrev Quiet : Outcome → Type 0
Quiet (next r) = IsIdle r
Quiet (packet _ _) = ⊥
Quiet (cancel _) = ⊥

Quiet-next : (o : Outcome) → Quiet o → (s : Reader) × (o ≡ next s) × IsIdle s
Quiet-next (next s) q = (s, refl, q)
Quiet-next (packet _ _) q = absurd q
Quiet-next (cancel _) q = absurd q

read_escaped-Quiet :
    (opts : ℕ) (r : Reader) (c : ℕ)
    → r.dles ≤ 3
    → r.in_packet ≡ false
    → c ≢ dle
    → Quiet (read_escaped opts r c)
unfolding read_escaped
read_escaped-Quiet opts r c few out ne = ground arith

collect-IsIdle : (r : Reader) (c : ℕ) → r.dles ≡ 0 → IsIdle (collect r c)
unfolding collect
collect-IsIdle r c h = ground arith

-- Such a byte yields no packet and leaves the reader idle.
read_noise :
    (opts : ℕ) (r : Reader) (c : ℕ) → IsIdle r → stripped opts c ≢ dle → Quiet (read_byte opts r c)
unfolding read_byte
read_noise opts r c idle ne =
    ground (arith, collect-IsIdle r (stripped opts c), read_escaped-Quiet opts r (stripped opts c))

pub read_noises :
    (opts : ℕ) (noise : Bytes) (r : Reader) (rest : Bytes)
    → IsIdle r
    → NoDle opts noise
    → (s : Reader) × (read_packet opts r (noise ++ rest) ≡ read_packet opts s rest) × IsIdle s
read_noises opts [] r rest idle h = (r, refl, idle)
read_noises opts (c ∷ noise) r rest idle h =
    let (s, e, idle') = Quiet-next (read_byte opts r c) (read_noise opts r c idle h.0) in
    let (t, e', idle'') = read_noises opts noise s rest idle' h.1 in
    (t, read_packet_next opts r s c (noise ++ rest) e ∙ e', idle'')

abbrev pub IsFormat : ℕ → Type 0
IsFormat f = (f ≡ fmt_bin) ⊎ (f ≡ fmt_hex) ⊎ (f ≡ fmt_asc) ⊎ (f ≡ fmt_uue)

-- A DLE and a format byte start a frame from every idle state; what was half collected is dropped.
read_start_dle :
    (opts : ℕ) (r : Reader)
    → IsIdle r
    → read_byte opts r dle ≡ next (record r { dles = r.dles + 1 })
unfolding read_byte
read_start_dle opts r idle = ground (arith, idle.few_dles)

read_start_format :
    (opts f : ℕ) (r : Reader)
    → 0 < r.dles
    → IsFormat f
    → read_byte opts r f ≡ next (inside f [] r.garbage)
unfolding read_byte
read_start_format opts f r some_dle (inl e) = rw e (ground arith)
read_start_format opts f r some_dle (inr (inl e)) = rw e (ground arith)
read_start_format opts f r some_dle (inr (inr (inl e))) = rw e (ground arith)
read_start_format opts f r some_dle (inr (inr (inr e))) = rw e (ground arith)

pub read_start :
    (opts f : ℕ) (r : Reader) (rest : Bytes)
    → IsIdle r
    → IsFormat f
    → read_packet opts r (dle ∷ f ∷ rest) ≡ read_packet opts (inside f [] r.garbage) rest
read_start opts f r rest idle h =
    read_packet_next opts r _ dle (f ∷ rest) (read_start_dle opts r idle)
    ∙ read_packet_next opts _ _ f rest
        (read_start_format opts f (record r { dles = r.dles + 1 }) (omega arith) h)

-- The reader behind a frame.
abbrev pub behind_frame : ℕ → Bytes → ℕ → Reader
behind_frame f body garbage = record (behind_dle f body garbage) { in_packet = false }

read_end :
    (opts f : ℕ) (body : Bytes) (garbage : ℕ)
    → read_byte opts (behind_dle f body garbage) fmt_end
      ≡ outcome (finish_packet opts (behind_dle f body garbage))
unfolding read_byte
read_end opts f body garbage = ground (arith, low_seven fmt_end)

-- The end of a frame whose body decodes to something that passes the checks.
pub read_finish :
    (opts f : ℕ) (body decoded : Bytes) (garbage : ℕ) (rest : Bytes) (p : Packet)
    → decode_body f body ≡ some decoded
    → check_body (not (f == fmt_hex) && has opts cap_c32) decoded ≡ some p
    → read_packet opts (inside f body garbage) (dle ∷ fmt_end ∷ rest)
      ≡ received p (behind_frame f body garbage) rest
read_finish opts f body decoded garbage rest p decodes checks =
    read_packet_next opts _ _ dle (fmt_end ∷ rest) (read_dle opts f body garbage) ∙ finish
  where
    finished :
        finish_packet opts (behind_dle f body garbage) ≡ (some p, behind_frame f body garbage)
    finished = unfold finish_packet in rw (decodes, checks)

    finish :
        read_packet opts (behind_dle f body garbage) (fmt_end ∷ rest)
        ≡ received p (behind_frame f body garbage) rest
    finish = unfold read_packet in rw (read_end opts f body garbage) (rw finished)

-- Cutting `payload || type || crc` at the type byte.
cut_frame :
    (typ : ℕ) (payload crc : Bytes)
    → let decoded = (payload ++ (typ ∷ [])) ++ crc in
      (length decoded ≡ length payload + 1 + length crc)
      × (get_elem? decoded (length payload) ≡ some typ)
      × (take (length payload) decoded ≡ payload)
cut_frame typ payload crc = (
  omega (arith, length-append (payload ++ (typ ∷ [])) crc, length-append payload (typ ∷ [])),
  rw (append_assoc payload (typ ∷ []) crc) (get_elem?-append payload crc typ),
  rw (append_assoc payload (typ ∷ []) crc) (take-append payload (typ ∷ crc)),
)

check_body-cut :
    (use32 : Bool) (typ : ℕ) (payload crc : Bytes)
    → length crc ≡ (if use32 then 4 else 2)
    → length payload ≤ max_payload_size
    → let decoded = (payload ++ (typ ∷ [])) ++ crc in
      (if use32 then crc32_compute decoded else crc16_compute decoded)
        ≡ (if use32 then crc32_test else crc16_test)
      → check_body use32 decoded ≡ some (record { typ = typ; payload = payload })
unfolding check_body
check_body-cut true typ payload crc four room good =
    let (size, elem, front) = cut_frame typ payload crc in
    let index : length ((payload ++ (typ ∷ [])) ++ crc) - 4 - 1 ≡ length payload = omega arith in
    ground (arith, size, elem, front, index)
check_body-cut false typ payload crc two room good =
    let (size, elem, front) = cut_frame typ payload crc in
    let index : length ((payload ++ (typ ∷ [])) ++ crc) - 2 - 1 ≡ length payload = omega arith in
    ground (arith, size, elem, front, index)

-- The checks accept `payload || type || crc`, and take it apart again.
pub check_body-frame :
    (use32 : Bool) (typ : ℕ) (payload : Bytes)
    → IsByte typ
    → IsBytes payload
    → length payload ≤ max_payload_size
    → let body = payload ++ (typ ∷ []) in
      check_body use32 (body ++ (if use32 then crc32_bytes body else crc16_bytes body))
      ≡ some (record { typ = typ; payload = payload })
check_body-frame true typ payload ht hp room =
    let body = payload ++ (typ ∷ []) in
    check_body-cut true typ payload (crc32_bytes body) (unfold crc32_bytes in refl) room
      (compute-bytes body (All-append IsByte payload (typ ∷ []) hp (ht, tt))).1
check_body-frame false typ payload ht hp room =
    let body = payload ++ (typ ∷ []) in
    check_body-cut false typ payload (crc16_bytes body) (unfold crc16_bytes in refl) room
      (compute-bytes body (All-append IsByte payload (typ ∷ []) hp (ht, tt))).0
