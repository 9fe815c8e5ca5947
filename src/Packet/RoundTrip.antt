-- ===== src/Packet/RoundTrip.antt =====
-- What is marshalled is parsed back, and what a payload that is too short gives.
use go_hydra.Base.{
  ℕ, ◌/◌, ◌%◌, ◌*◌, ◌^◌, ◌<◌, bit_or, ◌≡◌, [], ◌∷◌, ◌++◌, none, some, arith, Bytes, length,
}
use go_hydra.Base.Or.{or_above}
use go_hydra.Base.Int.{ℤ, unsigned32, IsInt32, signed32-unsigned32, unsigned32-lt}
use go_hydra.Packet.{
  le32, read_le32, marshal_offset, parse_offset, marshal_data, parse_data, marshal_rpos, parse_rpos,
  marshal_dev_ack, parse_dev_ack,
}

-- Four little-endian bytes are put together again.
pub join_le32 :
    (v : ℕ)
    → v < 2 ^ 32
    → bit_or
        (bit_or (bit_or (v % 256) (v / 2 ^ 8 % 256 * 2 ^ 8)) (v / 2 ^ 16 % 256 * 2 ^ 16))
        (v / 2 ^ 24 % 256 * 2 ^ 24)
      ≡ v
join_le32 v h = ground (
  arith,
  or_above 8 (v % 256) (v / 2 ^ 8 % 256) (omega arith),
  or_above 16 (v % 2 ^ 16) (v / 2 ^ 16 % 256) (omega arith),
  or_above 24 (v % 2 ^ 24) (v / 2 ^ 24 % 256) (omega arith),
)

read_le32-le32 : (v : ℕ) (rest : Bytes) → v < 2 ^ 32 → read_le32 (le32 [] v ++ rest) 0 ≡ v
unfolding read_le32 le32
read_le32-le32 v rest h = join_le32 v h

-- An int32 offset, DATA at such an offset, an RPOS and a device acknowledgement survive the wire.
pub parse-marshal :
    (offset : ℤ) (bytes : Bytes) (blocksize id : ℕ)
    → IsInt32 offset
    → blocksize < 2 ^ 32
    → id < 2 ^ 32
    → (parse_offset (marshal_offset offset) ≡ some offset)
      × (parse_data (marshal_data offset bytes) ≡ some (record { offset = offset; bytes = bytes }))
      × (parse_rpos (marshal_rpos (record { offset = offset; blocksize = blocksize; id = id }))
          ≡ some (record { offset = offset; blocksize = blocksize; id = id }))
      × (parse_dev_ack (marshal_dev_ack id) ≡ some id)
unfolding parse_offset marshal_offset parse_data marshal_data parse_rpos marshal_rpos parse_dev_ack
    marshal_dev_ack
parse-marshal offset bytes blocksize id ho hb hi =
    let joined = join_le32 (unsigned32 offset) (unsigned32-lt offset) in
    let back = signed32-unsigned32 offset ho in
    let size = join_le32 (blocksize % 2 ^ 32) (omega arith) in
    let number = join_le32 id hi in
    (
      ground (arith, joined, back),
      ground (arith, joined, back),
      ground (arith, joined, back, size, number),
      ground (arith, number),
    )

-- A payload of fewer than four bytes is refused by each of the four parse functions that read an
-- offset or an id first.
parse_short :
    (payload : Bytes)
    → length payload < 4
    → (parse_offset payload ≡ none)
      × (parse_data payload ≡ none)
      × (parse_rpos payload ≡ none)
      × (parse_dev_ack payload ≡ none)
unfolding parse_offset parse_data parse_rpos parse_dev_ack
parse_short payload h = (ground arith, ground arith, ground arith, ground arith)

-- The minority form of RPOS, with a 16-bit block size, is read with the same meaning.
pub parse_rpos_word :
    (offset : ℤ) (blocksize id : ℕ)
    → IsInt32 offset
    → blocksize < 2 ^ 16
    → id < 2 ^ 32
    → parse_rpos (le32 (le32 [] (unsigned32 offset) ++ (blocksize % 256 ∷ blocksize / 256 ∷ [])) id)
      ≡ some (record { offset = offset; blocksize = blocksize; id = id })
unfolding parse_rpos le32
parse_rpos_word offset blocksize id ho hb hi = ground (
  arith,
  join_le32 (unsigned32 offset) (unsigned32-lt offset),
  signed32-unsigned32 offset ho,
  join_le32 id hi,
  or_above 8 (blocksize % 256) (blocksize / 256),
)
