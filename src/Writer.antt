-- ===== src/Writer.antt =====
-- writer.go: the bytes that `transportWriter` puts on the wire. The mutex and the buffered writer
-- are not modelled: a call is one atomic write of the bytes below.
use go_hydra.Base.{ℕ, Bool, not, ◌&&◌, ◌||◌, [], ◌∷◌, ◌++◌, ◌==◌, if◌then◌else◌, Bytes, replicate}
use go_hydra.Constants.{
  dle, char_bs, char_cr, char_lf, fmt_end, fmt_bin, fmt_hex, fmt_asc, fmt_uue, pkt_start, pkt_init,
  pkt_initack, pkt_end, pkt_idle, pkt_data, cap_hi8, cap_ctl, cap_uue, cap_asc, cap_c32,
  cancel_count, cancel_pad_count,
}
use go_hydra.Caps.{has}
use go_hydra.Crc.{crc16_bytes, crc32_bytes}
use go_hydra.Encoding.{fresh, put_all, hex_encode_body}
use go_hydra.Encoding.Asc.{asc_encode_body}
use go_hydra.Encoding.Uue.{uue_encode_body}

-- The five supervisory types.
unfoldable pub is_supervisory : ℕ → Bool
is_supervisory typ =
    typ == pkt_start || typ == pkt_init || typ == pkt_initack || typ == pkt_end || typ == pkt_idle

unfoldable pub select_format : ℕ → ℕ → ℕ
unfolding is_supervisory
select_format typ opts =
    if is_supervisory typ
    then fmt_hex
    else if has opts cap_hi8
    then (if has opts cap_ctl && has opts cap_uue
        then fmt_uue
        else if has opts cap_asc
        then fmt_asc
        else fmt_hex)
    else fmt_bin

-- `payload || type || crc`, the CRC complemented and low byte first.
unfoldable pub frame_body : ℕ → ℕ → Bytes → ℕ → Bytes
frame_body format typ payload opts =
    let body = payload ++ (typ ∷ []) in
    body
    ++ (if not (format == fmt_hex) && has opts cap_c32 then crc32_bytes body else crc16_bytes body)

-- The prefix string without its break and delay magics.
unfoldable pub prefix_bytes : Bytes → Bytes
prefix_bytes [] = []
prefix_bytes (c ∷ prefix) =
    let rest = prefix_bytes prefix in
    if c == 221 || c == 222 then rest else (if c == 223 then 0 else c) ∷ rest

unfoldable pub encode_body : ℕ → ℕ → Bytes → Bytes
encode_body format opts body =
    if format == fmt_bin
    then put_all (fresh opts) body
    else if format == fmt_hex
    then hex_encode_body body
    else if format == fmt_asc
    then asc_encode_body (fresh opts) body
    else if format == fmt_uue
    then uue_encode_body body
    else []

-- CR LF behind every frame but DATA and BIN.
unfoldable pub frame_tail : ℕ → ℕ → Bytes
frame_tail typ format =
    if not (typ == pkt_data) && not (format == fmt_bin) then char_cr ∷ char_lf ∷ [] else []

unfoldable pub write_packet : ℕ → Bytes → ℕ → Bytes → Bytes
unfolding select_format frame_body prefix_bytes encode_body frame_tail
write_packet typ payload opts prefix =
    let format = select_format typ opts in
    prefix_bytes prefix
    ++ (dle
        ∷ format
        ∷ (encode_body format opts (frame_body format typ payload opts)
            ++ (dle ∷ fmt_end ∷ frame_tail typ format)))

unfoldable pub write_cancel : Bytes
write_cancel = replicate cancel_count dle ++ replicate cancel_pad_count char_bs
