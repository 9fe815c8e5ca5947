-- ===== src/Packet/Bounds.antt =====
-- packet.go and fileinfo.go: the payloads are bytes, of bounded length.
use go_hydra.Base.{ℕ, ◌+◌, [], arith, Bytes, IsShort, append-IsShort, cons-IsShort}
use go_hydra.Base.Int.{ℤ, unsigned32}
use go_hydra.Packet.{RposPkt, le32, marshal_offset, marshal_data, marshal_rpos, marshal_dev_ack}
use go_hydra.Packet.Device.{DevDataPkt, marshal_dev_data}

le32-IsShort : (v : ℕ) → IsShort 4 (le32 [] v)
unfolding le32
le32-IsShort v = record { bytes = omega arith; size = omega arith }

pub marshal_offset-IsShort : (v : ℤ) → IsShort 4 (marshal_offset v)
unfolding marshal_offset
marshal_offset-IsShort v = le32-IsShort (unsigned32 v)

pub marshal_data-IsShort :
    (offset : ℤ) (n : ℕ) (bytes : Bytes)
    → IsShort n bytes
    → IsShort (4 + n) (marshal_data offset bytes)
unfolding marshal_data
marshal_data-IsShort offset n bytes h = append-IsShort (le32-IsShort (unsigned32 offset)) h

pub marshal_rpos-IsShort : (r : RposPkt) → IsShort 12 (marshal_rpos r)
unfolding marshal_rpos le32
marshal_rpos-IsShort r = record { bytes = omega arith; size = omega arith }

pub marshal_dev_ack-IsShort : (id : ℕ) → IsShort 4 (marshal_dev_ack id)
unfolding marshal_dev_ack
marshal_dev_ack-IsShort id = le32-IsShort id

-- A name of three characters and as much data as a DATA packet carries.
abbrev pub IsDatagram : DevDataPkt → Type 0
IsDatagram d = IsShort 3 d.device × IsShort 2048 d.payload

pub marshal_dev_data-IsShort : (d : DevDataPkt) → IsDatagram d → IsShort 2056 (marshal_dev_data d)
unfolding marshal_dev_data
marshal_dev_data-IsShort d h =
    append-IsShort (append-IsShort (le32-IsShort d.id) h.0) (cons-IsShort (omega arith) h.1)
