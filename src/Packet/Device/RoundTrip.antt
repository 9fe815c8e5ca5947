-- ===== src/Packet/Device/RoundTrip.antt =====
-- A device datagram over the wire.
use go_hydra.Base.{NoNul, ◌<◌, ◌^◌, ◌≡◌, ◌∷◌, some, arith, length-append}
use go_hydra.FileInfo.RoundTrip.{cut_nul-append}
use go_hydra.Packet.RoundTrip.{join_le32}
use go_hydra.Packet.Device.{DevDataPkt, marshal_dev_data, parse_dev_data}

-- A datagram with a 32-bit number and a device name without a NUL is parsed as it was marshalled.
pub parse_dev_data-marshal_dev_data :
    (d : DevDataPkt) → d.id < 2 ^ 32 → NoNul d.device → parse_dev_data (marshal_dev_data d) ≡ some d
unfolding parse_dev_data marshal_dev_data
parse_dev_data-marshal_dev_data d h clean =
    let size = length-append d.device (0 ∷ d.payload) in
    ground (arith, join_le32 d.id h, cut_nul-append d.device d.payload clean, size)
