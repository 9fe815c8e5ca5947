-- ===== src/Wire/Runs.antt =====
-- Frames on the wire, and the theorems at concrete inputs.
use go_hydra.Base.{
  Bytes, IsBytes, false, none, ◌++◌, ℕ, ◌≡◌, ◌+◌, refl, [], ◌∷◌, arith, inl, length,
}
use go_hydra.Constants.{cap_assumed, cap_hi8, cap_asc, fmt_asc, pkt_start, pkt_data}
use go_hydra.Caps.{has}
use go_hydra.Crc.{crc16_bytes}
use go_hydra.Encoding.{hex_encode_body}
use go_hydra.Packet.{Packet}
use go_hydra.Reader.{new_reader, reader_loop}
use go_hydra.Reader.{Reader, cancelled, read_packet, check_body}
use go_hydra.Wire.Bin.{behind_dle}
use go_hydra.Wire.Cancel.{read_packet-write_cancel}
use go_hydra.Wire.Corrupt.{check_body-compute_byte}
use go_hydra.Reader.Bounds.{IsWithin, read_packet-IsWithin}
use go_hydra.Writer.{write_cancel, write_packet, prefix_bytes, select_format}
use go_hydra.Wire.Frame.{IsIdle}
use go_hydra.Wire.RoundTrip.{
  ReadsBack, write_packets, read-write_hex, read-write, reader_loop-write_packets,
}

abbrev start_packet : Packet
start_packet = record { typ = pkt_start; payload = [] }

abbrev data_packet : Packet
data_packet = record { typ = pkt_data; payload = 0 ∷ 0 ∷ 0 ∷ 0 ∷ 0x18 ∷ 0x61 ∷ 0xFF ∷ [] }

start_frame :
    write_packet pkt_start [] 0 []
    ≡ 0x18 ∷ b'c' ∷ b'A' ∷ b'\\' ∷ b'f' ∷ b'5' ∷ b'\\' ∷ b'a' ∷ b'3' ∷ 0x18 ∷ b'a' ∷ 0x0D ∷ 0x0A
      ∷ []
unfolding write_packet hex_encode_body crc16_bytes
start_frame = refl

new_reader-IsIdle : IsIdle new_reader
unfolding new_reader
new_reader-IsIdle = record { few_dles = omega arith; outside = inl refl }

abbrev c32_opts : ℕ
c32_opts = 256

read-write_hex_example : ReadsBack cap_assumed new_reader start_packet 0 [] []
unfolding select_format prefix_bytes
read-write_hex_example =
    read-write_hex cap_assumed 0 start_packet [] []
      (record { typ_byte = omega arith; payload_bytes = omega arith; payload_fits = omega arith })
      new_reader new_reader-IsIdle (omega arith) refl

-- A link of seven bits, in ASC.
abbrev asc_opts : ℕ
asc_opts = cap_hi8 + cap_asc

asc_opts-select_format : select_format pkt_data asc_opts ≡ fmt_asc
unfolding select_format has
asc_opts-select_format = refl

read-write_example : ReadsBack asc_opts new_reader data_packet asc_opts (b'p' ∷ []) []
unfolding has prefix_bytes
read-write_example =
    read-write asc_opts new_reader data_packet (b'p' ∷ []) []
      (record { typ_byte = omega arith; payload_bytes = omega arith; payload_fits = omega arith })
      new_reader-IsIdle (omega arith)

reader_loop-write_packets_example :
    reader_loop 2 c32_opts new_reader (write_packets c32_opts [] (data_packet ∷ start_packet ∷ []))
    ≡ data_packet ∷ start_packet ∷ []
unfolding has prefix_bytes
reader_loop-write_packets_example =
    reader_loop-write_packets c32_opts [] (data_packet ∷ start_packet ∷ []) 2 new_reader
      (omega arith) (omega arith) (omega arith) new_reader-IsIdle

-- The thirteen bytes of a frame.
read_packet-IsWithin_example :
    IsWithin
      (length (write_packet pkt_start [] 0 []))
      (read_packet 0 new_reader (write_packet pkt_start [] 0 []))
unfolding new_reader
read_packet-IsWithin_example =
    read_packet-IsWithin 0 new_reader (write_packet pkt_start [] 0 [])
      (record { body_fits = omega arith; few_dles = omega arith })

-- In the middle of a frame, behind one DLE.
read_packet-write_cancel_example :
    (s : Reader) × (left : Bytes) × (read_packet cap_assumed
        (behind_dle fmt_asc (7 ∷ []) 0)
        (write_cancel ++ [])
      ≡ cancelled s left)
read_packet-write_cancel_example =
    read_packet-write_cancel cap_assumed (behind_dle fmt_asc (7 ∷ []) 0) [] (omega arith)

abbrev message : Bytes
message = 1 ∷ 2 ∷ []

message-IsBytes : IsBytes (2 ∷ crc16_bytes message)
unfolding crc16_bytes
message-IsBytes = omega arith

check_body-compute_byte_example : check_body false ([] ++ (9 ∷ 2 ∷ crc16_bytes message)) ≡ none
check_body-compute_byte_example =
    check_body-compute_byte false message [] (2 ∷ crc16_bytes message) 1 9 (omega arith) tt
      message-IsBytes (omega arith) (omega arith) (λ e. omega arith) refl
