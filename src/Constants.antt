-- ===== src/Constants.antt =====
-- constants.go: control bytes, frame formats, packet types, capability bits, limits and sentinels.
use go_hydra.Base.{ℕ, ◌+◌, ◌*◌, ◌^◌, bit_or, [], ◌∷◌, Bytes}
use go_hydra.Base.Int.{ℤ, negsuc}

abbrev pub dle : ℕ
dle = 0x18

abbrev pub char_xon : ℕ
char_xon = 0x11

abbrev pub char_xof : ℕ
char_xof = 0x13

abbrev pub char_cr : ℕ
char_cr = 0x0D

abbrev pub char_lf : ℕ
char_lf = 0x0A

abbrev pub char_at : ℕ
char_at = 0x40

abbrev pub char_bs : ℕ
char_bs = 0x08

-- Frame formats.
abbrev pub fmt_end : ℕ
fmt_end = b'a'

abbrev pub fmt_bin : ℕ
fmt_bin = b'b'

abbrev pub fmt_hex : ℕ
fmt_hex = b'c'

abbrev pub fmt_asc : ℕ
fmt_asc = b'd'

abbrev pub fmt_uue : ℕ
fmt_uue = b'e'

-- Packet types.
abbrev pub pkt_start : ℕ
pkt_start = b'A'

abbrev pub pkt_init : ℕ
pkt_init = b'B'

abbrev pub pkt_initack : ℕ
pkt_initack = b'C'

abbrev pub pkt_finfo : ℕ
pkt_finfo = b'D'

abbrev pub pkt_finfoack : ℕ
pkt_finfoack = b'E'

abbrev pub pkt_data : ℕ
pkt_data = b'F'

abbrev pub pkt_dataack : ℕ
pkt_dataack = b'G'

abbrev pub pkt_rpos : ℕ
pkt_rpos = b'H'

abbrev pub pkt_eof : ℕ
pkt_eof = b'I'

abbrev pub pkt_eofack : ℕ
pkt_eofack = b'J'

abbrev pub pkt_end : ℕ
pkt_end = b'K'

abbrev pub pkt_idle : ℕ
pkt_idle = b'L'

abbrev pub pkt_devdata : ℕ
pkt_devdata = b'M'

abbrev pub pkt_devdack : ℕ
pkt_devdack = b'N'

-- Capability bits, `1 << iota`.
abbrev pub cap_xon : ℕ
cap_xon = 1

abbrev pub cap_tln : ℕ
cap_tln = 2

abbrev pub cap_ctl : ℕ
cap_ctl = 4

abbrev pub cap_hic : ℕ
cap_hic = 8

abbrev pub cap_hi8 : ℕ
cap_hi8 = 16

abbrev pub cap_brk : ℕ
cap_brk = 32

abbrev pub cap_asc : ℕ
cap_asc = 64

abbrev pub cap_uue : ℕ
cap_uue = 128

abbrev pub cap_c32 : ℕ
cap_c32 = 256

abbrev pub cap_dev : ℕ
cap_dev = 512

abbrev pub cap_fpt : ℕ
cap_fpt = 1024

abbrev pub cap_assumed : ℕ
cap_assumed = bit_or cap_xon (bit_or cap_tln (bit_or cap_ctl (bit_or cap_hic cap_hi8)))

abbrev pub cap_union : ℕ
cap_union = bit_or cap_asc (bit_or cap_uue (bit_or cap_c32 cap_dev))

abbrev pub cap_escape : ℕ
cap_escape = bit_or cap_xon (bit_or cap_tln (bit_or cap_ctl (bit_or cap_hic cap_hi8)))

-- "hydra\r".
abbrev pub autostart : Bytes
autostart = b'h' ∷ b'y' ∷ b'd' ∷ b'r' ∷ b'a' ∷ 0x0D ∷ []

abbrev pub data_buf_max : ℕ
data_buf_max = 2048

abbrev pub data_offset_prefix : ℕ
data_offset_prefix = 4

abbrev pub max_payload_size : ℕ
max_payload_size = data_buf_max + 8

abbrev pub max_decoded_len : ℕ
max_decoded_len = max_payload_size + 1 + 4

abbrev pub max_encoded_len : ℕ
max_encoded_len = 6183

abbrev pub prefix_max : ℕ
prefix_max = 31

abbrev pub cancel_count : ℕ
cancel_count = 8

abbrev pub cancel_pad_count : ℕ
cancel_pad_count = 10

abbrev pub detect_cancel_count : ℕ
detect_cancel_count = 5

abbrev pub end_initial_count : ℕ
end_initial_count = 2

abbrev pub end_response_count : ℕ
end_response_count = 3

-- Durations in nanoseconds.
abbrev pub second : ℕ
second = 10 ^ 9

abbrev pub default_brain_dead : ℕ
default_brain_dead = 120 * second

abbrev pub default_timeout : ℕ
default_timeout = 10 * second

abbrev pub max_timeout : ℕ
max_timeout = 60 * second

abbrev pub default_max_retries : ℕ
default_max_retries = 10

abbrev pub idle_interval : ℕ
idle_interval = 20 * second

abbrev pub start_interval : ℕ
start_interval = 5 * second

abbrev pub default_good_needed : ℕ
default_good_needed = 1024

abbrev pub max_good_needed : ℕ
max_good_needed = 8192

abbrev pub min_block_size : ℕ
min_block_size = 64

abbrev pub rpos_max_block : ℕ
rpos_max_block = 1024

-- -1 and -2.
abbrev pub ack_have_file : ℤ
ack_have_file = negsuc 0

abbrev pub ack_defer : ℤ
ack_defer = negsuc 1

abbrev pub offset_skip : ℤ
offset_skip = negsuc 1

abbrev pub safe_max_offset : ℕ
safe_max_offset = 0x7FFF_FFFE
