-- ===== src/Wire/RoundTrip.antt =====
-- Reading what was written: one packet, and a stream of packets.
use go_hydra.Base.{
  ℕ, zero, suc, ◌≤◌, ◌≡◌, refl, ◌∙◌, ap, false, not, ◌&&◌, ◌⊎◌, inl, inr, List, [], ◌∷◌, ◌++◌,
  append_assoc, some, arith, ◌==◌, if◌then◌else◌, Bool-cases, length, length-append, Bytes, IsByte,
  IsBytes, All, All-append,
}
use go_hydra.Constants.{
  dle, fmt_end, fmt_bin, fmt_hex, fmt_asc, fmt_uue, cap_hi8, cap_c32, max_payload_size,
}
use go_hydra.Caps.{has}
use go_hydra.Crc.{crc16_bytes, crc32_bytes}
use go_hydra.Packet.{Packet}
use go_hydra.Encoding.{fresh}
use go_hydra.Reader.{Reader, read_packet, received, decode_body, reader_loop}
use go_hydra.Writer.{select_format, frame_body, frame_tail, prefix_bytes, encode_body, write_packet}
use go_hydra.Encoding.Asc.{asc_units_from, asc_encode_body}
use go_hydra.Encoding.Uue.{uue_encode_body}
use go_hydra.Wire.Bin.{inside, put_all_read, bytes-Survive}
use go_hydra.Wire.Asc.{asc_decode-units, units-Survive, length-units}
use go_hydra.Wire.Uue.{uue_decode-encode, uue_body_read}
use go_hydra.Wire.Hex.{hex_collected_body, hex_decode_collected_body, hex_body_read}
use go_hydra.Wire.Frame.{
  IsIdle, IsFormat, NoDle, read_noises, read_start, read_finish, behind_frame, check_body-frame,
}

-- A packet that a frame can carry.
pub record IsSendable (p : Packet) : Type 0 where
  pub typ_byte : IsByte p.typ
  pub payload_bytes : IsBytes p.payload
  pub payload_fits : length p.payload ≤ max_payload_size

frame_body-shape :
    (f opts : ℕ) (p : Packet)
    → IsSendable p
    → IsBytes (frame_body f p.typ p.payload opts)
      × (length (frame_body f p.typ p.payload opts) ≤ 2061)
unfolding frame_body crc16_bytes crc32_bytes
frame_body-shape f opts p h =
    let body = p.payload ++ (p.typ ∷ []) in
    let front = All-append IsByte p.payload (p.typ ∷ []) h.payload_bytes (h.typ_byte, tt) in
    let size = length-append p.payload (p.typ ∷ []) in
    elim (Bool-cases (not (f == fmt_hex) && has opts cap_c32)) [
      | inl wide ↦ rw wide (
        All-append IsByte body (crc32_bytes body) front (omega arith),
        omega (arith, length-append body (crc32_bytes body), size),
      )
      | inr narrow ↦ rw narrow (
        All-append IsByte body (crc16_bytes body) front (omega arith),
        omega (arith, length-append body (crc16_bytes body), size),
      )
    ]

abbrev pub ReadsBack : ℕ → Reader → Packet → ℕ → Bytes → Bytes → Type 0
ReadsBack ropts r p opts prefix rest =
    (s : Reader) × (read_packet ropts r (write_packet p.typ p.payload opts prefix ++ rest)
      ≡ received p s (frame_tail p.typ (select_format p.typ opts) ++ rest))
    × IsIdle s

crc_choice :
    (f opts : ℕ) (p : Packet)
    → frame_body f p.typ p.payload opts
      ≡ (p.payload ++ (p.typ ∷ []))
        ++ (if not (f == fmt_hex) && has opts cap_c32
            then crc32_bytes (p.payload ++ (p.typ ∷ []))
            else crc16_bytes (p.payload ++ (p.typ ∷ [])))
unfolding frame_body
crc_choice f opts p = refl

-- From the collected body of a frame to the packet.
finish_frame :
    (ropts f opts : ℕ) (p : Packet) (collected : Bytes) (garbage : ℕ) (rest : Bytes)
    → IsSendable p
    → (not (f == fmt_hex) && has ropts cap_c32) ≡ (not (f == fmt_hex) && has opts cap_c32)
    → decode_body f collected ≡ some (frame_body f p.typ p.payload opts)
    → read_packet ropts (inside f collected garbage) (dle ∷ fmt_end ∷ rest)
      ≡ received p (behind_frame f collected garbage) rest
finish_frame ropts f opts p collected garbage rest h same decodes =
    read_finish ropts f collected (frame_body f p.typ p.payload opts) garbage rest p decodes (
      rw (same, crc_choice f opts p)
        (check_body-frame (not (f == fmt_hex) && has opts cap_c32) p.typ p.payload h.typ_byte
          h.payload_bytes h.payload_fits))

behind_frame-IsIdle : (f : ℕ) (body : Bytes) (garbage : ℕ) → IsIdle (behind_frame f body garbage)
behind_frame-IsIdle f body garbage = record { few_dles = omega arith; outside = inl refl }

module _ (ropts opts : ℕ) (p : Packet) (prefix rest : Bytes) (sendable : IsSendable p) where
  -- The frame behind its prefix, for a body encoding that is collected as `collected`.
  frame_read :
      (f : ℕ) (collected : Bytes) (r : Reader)
      → IsIdle r
      → IsFormat f
      → NoDle ropts (prefix_bytes prefix)
      → select_format p.typ opts ≡ f
      → ((garbage : ℕ) (rest' : Bytes)
          → read_packet ropts
              (inside f [] garbage)
              (encode_body f opts (frame_body f p.typ p.payload opts) ++ rest')
            ≡ read_packet ropts (inside f collected garbage) rest')
      → (not (f == fmt_hex) && has ropts cap_c32) ≡ (not (f == fmt_hex) && has opts cap_c32)
      → decode_body f collected ≡ some (frame_body f p.typ p.payload opts)
      → ReadsBack ropts r p opts prefix rest
  unfolding write_packet
  frame_read f collected r idle format quiet selected collects same decodes =
      let encoded = encode_body f opts (frame_body f p.typ p.payload opts) in
      let tail = frame_tail p.typ f in
      let (s, skipped, idle') =
        read_noises ropts (prefix_bytes prefix) r
          (dle ∷ f ∷ (encoded ++ (dle ∷ fmt_end ∷ tail)) ++ rest) idle quiet in
      (
        behind_frame f collected s.garbage,
        rw
            (
              selected,
              append_assoc (prefix_bytes prefix) (dle ∷ f ∷ (encoded ++ (dle ∷ fmt_end ∷ tail)))
                  rest,
            )
            (skipped
              ∙ read_start ropts f s ((encoded ++ (dle ∷ fmt_end ∷ tail)) ++ rest) idle' format
              ∙ ap (read_packet ropts (inside f [] s.garbage))
                  (append_assoc encoded (dle ∷ fmt_end ∷ tail) rest)
              ∙ collects s.garbage (dle ∷ fmt_end ∷ (tail ++ rest))
              ∙ finish_frame ropts f opts p collected s.garbage (tail ++ rest) sendable same
                  decodes),
        behind_frame-IsIdle f collected s.garbage,
      )

  -- A packet with a type of one byte and at most 2056 bytes of payload, for which the writer's options
  -- select HEX, is read back as it was written, behind a prefix in which the reader sees no DLE, by a
  -- reader with any option set in any idle state, and the reader is idle again behind it.
  pub read-write_hex :
      (r : Reader)
      → IsIdle r
      → NoDle ropts (prefix_bytes prefix)
      → select_format p.typ opts ≡ fmt_hex
      → ReadsBack ropts r p opts prefix rest
  unfolding encode_body decode_body
  read-write_hex r idle quiet selected =
      let body = frame_body fmt_hex p.typ p.payload opts in
      let (bytes, size) = frame_body-shape fmt_hex opts p sendable in
      frame_read fmt_hex (hex_collected_body body) r idle (inr (inl refl)) quiet selected
        (λ garbage rest'. hex_body_read ropts fmt_hex [] garbage body rest' bytes (omega arith))
        refl (hex_decode_collected_body body bytes)

  -- A BIN frame is read as the packet that was written, by a reader with the writer's options.
  read-write_bin :
      (r : Reader)
      → IsIdle r
      → NoDle ropts (prefix_bytes prefix)
      → ropts ≡ opts
      → has opts cap_hi8 ≡ false
      → select_format p.typ opts ≡ fmt_bin
      → ReadsBack ropts r p opts prefix rest
  unfolding encode_body decode_body
  read-write_bin r idle quiet same strip selected =
      let body = frame_body fmt_bin p.typ p.payload opts in
      let (bytes, size) = frame_body-shape fmt_bin opts p sendable in
      frame_read fmt_bin body r idle (inl refl) quiet selected
        (λ garbage rest'. rw same (
          put_all_read (fresh opts) fmt_bin [] garbage body rest'
            (bytes-Survive opts body bytes strip) (omega arith)))
        (rw same refl) refl

  -- The same for an ASC frame.
  pub read-write_asc :
      (r : Reader)
      → IsIdle r
      → NoDle ropts (prefix_bytes prefix)
      → ropts ≡ opts
      → select_format p.typ opts ≡ fmt_asc
      → ReadsBack ropts r p opts prefix rest
  unfolding encode_body decode_body asc_encode_body
  read-write_asc r idle quiet same selected =
      let body = frame_body fmt_asc p.typ p.payload opts in
      let units = asc_units_from 0 0 body in
      let (bytes, size) = frame_body-shape fmt_asc opts p sendable in
      frame_read fmt_asc units r idle (inr (inr (inl refl))) quiet selected
        (λ garbage rest'. rw same (
          put_all_read (fresh opts) fmt_asc [] garbage units rest' (units-Survive opts 0 0 body)
            (omega (arith, length-units 0 0 body))))
        (rw same refl) (ap some (asc_decode-units body bytes))

  -- A UUE frame is read by a reader with the same choice of the CRC.
  pub read-write_uue :
      (r : Reader)
      → IsIdle r
      → NoDle ropts (prefix_bytes prefix)
      → ropts ≡ opts
      → select_format p.typ opts ≡ fmt_uue
      → ReadsBack ropts r p opts prefix rest
  unfolding encode_body decode_body
  read-write_uue r idle quiet same selected =
      let body = frame_body fmt_uue p.typ p.payload opts in
      let (bytes, size) = frame_body-shape fmt_uue opts p sendable in
      frame_read fmt_uue (uue_encode_body body) r idle (inr (inr (inr refl))) quiet selected
        (λ garbage rest'. uue_body_read ropts fmt_uue [] garbage body rest' (omega arith))
        (rw same refl) (uue_decode-encode body bytes)

-- A frame is HEX, ASC or UUE, or BIN on an 8-bit link.
select_format_cases :
    (typ opts : ℕ)
    → (select_format typ opts ≡ fmt_hex)
      ⊎ (select_format typ opts ≡ fmt_asc)
      ⊎ (select_format typ opts ≡ fmt_uue)
      ⊎ ((select_format typ opts ≡ fmt_bin) × (has opts cap_hi8 ≡ false))
unfolding select_format
select_format_cases typ opts = ground arith

-- On a link with any options, a frame written for a packet of at most 2056 payload bytes, behind any
-- prefix without a DLE, is read back as that packet from every idle state of the reader; the reader
-- is idle again behind it.
pub read-write :
    (opts : ℕ) (r : Reader) (p : Packet) (prefix rest : Bytes)
    → IsSendable p
    → IsIdle r
    → NoDle opts (prefix_bytes prefix)
    → ReadsBack opts r p opts prefix rest
read-write opts r p prefix rest sendable idle quiet = elim (select_format_cases p.typ opts) [
  | inl hex ↦ read-write_hex opts opts p prefix rest sendable r idle quiet hex
  | inr (inl asc) ↦ read-write_asc opts opts p prefix rest sendable r idle quiet refl asc
  | inr (inr (inl uue)) ↦ read-write_uue opts opts p prefix rest sendable r idle quiet refl uue
  | inr (inr (inr (bin, strip))) ↦
      read-write_bin opts opts p prefix rest sendable r idle quiet refl strip bin
]

-- The bytes of a stream of packets.
abbrev pub write_packets : ℕ → Bytes → List Packet → Bytes
write_packets opts prefix [] = []
write_packets opts prefix (p ∷ ps) =
    write_packet p.typ p.payload opts prefix ++ write_packets opts prefix ps

frame_tail-NoDle : (opts typ f : ℕ) → NoDle opts (frame_tail typ f)
unfolding frame_tail
frame_tail-NoDle opts typ f = ground arith

reader_loop-suc :
    (fuel opts : ℕ) (r s : Reader) (bytes rest : Bytes) (p : Packet)
    → read_packet opts r bytes ≡ received p s rest
    → reader_loop (suc fuel) opts r bytes ≡ p ∷ reader_loop fuel opts s rest
unfolding reader_loop
reader_loop-suc fuel opts r s bytes rest p e = rw (e, reader_loop)

-- Noise in front of what is to be read changes nothing, but for the idle state it leaves.
reader_loop_noise :
    (fuel opts : ℕ) (r : Reader) (noise rest : Bytes)
    → IsIdle r
    → NoDle opts noise
    → (s : Reader) × (reader_loop fuel opts r (noise ++ rest) ≡ reader_loop fuel opts s rest)
      × IsIdle s
unfolding reader_loop
reader_loop_noise zero opts r noise rest idle quiet = (r, refl, idle)
reader_loop_noise (suc fuel) opts r noise rest idle quiet =
    let (s, e, idle') = read_noises opts noise r rest idle quiet in (s, rw (e, reader_loop), idle')

reader_loop_end : (fuel opts : ℕ) (r : Reader) → reader_loop fuel opts r [] ≡ []
unfolding reader_loop
reader_loop_end zero opts r = refl
reader_loop_end (suc fuel) opts r = refl

-- On a stream of frames, each of a packet with a type of one byte and at most 2056 bytes of payload,
-- behind a prefix in which the reader sees no DLE: the loop of an idle reader with the writer's
-- options returns exactly the packets that were written, in order, with any fuel from their number
-- on.
pub reader_loop-write_packets :
    (opts : ℕ) (prefix : Bytes) (ps : List Packet) (fuel : ℕ) (r : Reader)
    → All IsSendable ps
    → NoDle opts (prefix_bytes prefix)
    → length ps ≤ fuel
    → IsIdle r
    → reader_loop fuel opts r (write_packets opts prefix ps) ≡ ps
reader_loop-write_packets opts prefix [] fuel r h quiet enough idle = reader_loop_end fuel opts r
reader_loop-write_packets opts prefix (p ∷ ps) zero r h quiet enough idle = absurd (omega arith)
reader_loop-write_packets opts prefix (p ∷ ps) (suc fuel) r h quiet enough idle =
    let rest = write_packets opts prefix ps in
    let tail = frame_tail p.typ (select_format p.typ opts) in
    let (s, e, idle') = read-write opts r p prefix rest h.0 idle quiet in
    let (t, e', idle'') =
      reader_loop_noise fuel opts s tail rest idle'
        (frame_tail-NoDle opts p.typ (select_format p.typ opts)) in
    reader_loop-suc fuel opts r s _ (tail ++ rest) p e
    ∙ ap (◌∷◌ p)
        (e' ∙ reader_loop-write_packets opts prefix ps fuel t h.1 quiet (omega arith) idle'')
