-- ===== src/Packet.antt =====
-- packet.go: the payloads that carry numbers. A Go error is `none`.
pub mod Init
pub mod Device
pub mod RoundTrip
pub mod Bounds
mod Runs
use go_hydra.Base.{
  ℕ, ◌+◌, ◌/◌, ◌%◌, ◌*◌, ◌^◌, bit_or, List, [], ◌∷◌, ◌++◌, Option, none, some, ◌>>=◌, ltb, ◌==◌,
  if◌then◌else◌, Bytes, length, get_or, drop,
}
use go_hydra.Base.Int.{ℤ, pos, signed32, unsigned32}
use go_hydra.Constants.{data_offset_prefix}

-- One frame off the wire.
pub record Packet : Type 0 where
  pub typ : ℕ
  pub payload : Bytes

unfoldable pub le32 : Bytes → ℕ → Bytes
le32 out v = out ++ (v % 256 ∷ v / 2 ^ 8 % 256 ∷ v / 2 ^ 16 % 256 ∷ v / 2 ^ 24 % 256 ∷ [])

-- The callers have checked that the four bytes are there.
unfoldable pub read_le32 : Bytes → ℕ → ℕ
read_le32 p off =
    bit_or
      (bit_or (bit_or (get_or p off 0) (get_or p (off + 1) 0 * 2 ^ 8))
        (get_or p (off + 2) 0 * 2 ^ 16))
      (get_or p (off + 3) 0 * 2 ^ 24)

unfoldable pub marshal_offset : ℤ → Bytes
unfolding le32
marshal_offset v = le32 [] (unsigned32 v)

unfoldable pub parse_offset : Bytes → Option ℤ
unfolding read_le32
parse_offset payload =
    if ltb (length payload) 4 then none else some (signed32 (read_le32 payload 0))

unfoldable pub marshal_data : ℤ → Bytes → Bytes
unfolding le32
marshal_data offset bytes = le32 [] (unsigned32 offset) ++ bytes

pub record DataPkt : Type 0 where
  pub offset : ℤ
  pub bytes : Bytes

unfoldable pub parse_data : Bytes → Option DataPkt
unfolding read_le32
parse_data payload =
    if ltb (length payload) data_offset_prefix
    then none
    else some (record {
      offset = signed32 (read_le32 payload 0);
      bytes = drop data_offset_prefix payload;
    })

pub record RposPkt : Type 0 where
  pub offset : ℤ
  pub blocksize : ℕ
  pub id : ℕ

-- The 12-byte form.
unfoldable pub marshal_rpos : RposPkt → Bytes
unfolding le32
marshal_rpos r = le32 (le32 (le32 [] (unsigned32 r.offset)) (r.blocksize % 2 ^ 32)) r.id

-- Both widths of the block size, told apart by the length.
unfoldable pub parse_rpos : Bytes → Option RposPkt
unfolding read_le32
parse_rpos payload =
    if length payload == 12
    then some (record {
      offset = signed32 (read_le32 payload 0);
      blocksize = read_le32 payload 4;
      id = read_le32 payload 8;
    })
    else if length payload == 10
    then some (record {
      offset = signed32 (read_le32 payload 0);
      blocksize = bit_or (get_or payload 4 0) (get_or payload 5 0 * 2 ^ 8);
      id = read_le32 payload 6;
    })
    else none

unfoldable pub marshal_dev_ack : ℕ → Bytes
unfolding le32
marshal_dev_ack id = le32 [] id

unfoldable pub parse_dev_ack : Bytes → Option ℕ
unfolding read_le32
parse_dev_ack payload = if ltb (length payload) 4 then none else some (read_le32 payload 0)
