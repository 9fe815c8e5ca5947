-- ===== src/Batch/Device.antt =====
-- dev.go: the device channel.
use go_hydra.Base.{
  ℕ, ◌+◌, ◌%◌, ◌^◌, Bool, true, false, not, ◌&&◌, ◌||◌, List, [], ◌∷◌, ◌++◌, Option, none, some,
  leb, ltb, ◌==◌, if◌then◌else◌, Bytes, length, take,
}
use go_hydra.Base.Int.{pos, pos_part, ltb_ℤ}
use go_hydra.Constants.{cap_dev, pkt_devdata, pkt_devdack}
use go_hydra.Caps.{has}
use go_hydra.Config.{max_retries}
use go_hydra.Packet.{Packet, marshal_dev_ack, parse_dev_ack}
use go_hydra.Packet.Device.{DevDataPkt, marshal_dev_data, parse_dev_data}
use go_hydra.Batch.{
  rank, rinit, end, DevState, dev_done, dev_data, dev_dack, delivered, Environment, Batch, Ran, ok,
  fail, ◌>>=◌, note, write_with, write,
}

-- Padded to three characters.
abbrev pub pad_device : Bytes → Bytes
pad_device [] = b' ' ∷ b' ' ∷ b' ' ∷ []
pad_device (a ∷ []) = a ∷ b' ' ∷ b' ' ∷ []
pad_device (a ∷ b ∷ []) = a ∷ b ∷ b' ' ∷ []
pad_device dev = dev

unfoldable pub queue_dev : Batch → Bytes → Bytes → Batch
queue_dev b device payload =
    let cut = if ltb 3 (length device) then take 3 device else device in
    record b {
      dev = record b.dev {
        queue = b.dev.queue ++ (record { id = 0; device = pad_device cut; payload = payload } ∷ []);
      };
    }

abbrev pub is_dev_done : DevState → Bool
is_dev_done dev_done = true
is_dev_done _ = false

abbrev pub is_dev_data : DevState → Bool
is_dev_data dev_data = true
is_dev_data _ = false

abbrev pub is_dev_dack : DevState → Bool
is_dev_dack dev_dack = true
is_dev_dack _ = false

abbrev promote_from : List DevDataPkt → Batch → Batch
promote_from [] b = b
promote_from (d ∷ queue) b =
    let id = (b.dev.tx_id + 1) % 2 ^ 32 in
    record b {
      dev = record b.dev {
        queue = queue;
        tx_id = id;
        pending = some (record d { id = id });
        state = dev_data;
      };
    }

abbrev has_pending : Option DevDataPkt → Bool
has_pending none = false
has_pending (some _) = true

unfoldable pub promote : Batch → Batch
promote b =
    if is_dev_done b.dev.state && not (has_pending b.dev.pending)
    then promote_from b.dev.queue b
    else b

-- The datagram in flight. In the sending state there is always one; Go would dereference nil.
unfoldable pub send_pending : Environment → Batch → Ran
unfolding write_with
send_pending env b = elim b.dev.pending [
  | none ↦ ok b
  | some d ↦ do
    b1 ← write env b pkt_devdata (marshal_dev_data d)
    ok (record b1 {
      dev = record b1.dev { timer = some (b1.clock + pos_part b1.cfg.timeout); state = dev_dack };
    })
]

unfoldable pub dev_action : Environment → Batch → Ran
unfolding promote send_pending
dev_action env b =
    let b1 = promote b in
    if not (is_dev_data b1.dev.state)
    then ok b1
    else if leb (rank b1.tx.state) (rank rinit) || leb (rank end) (rank b1.tx.state)
    then ok b1
    else if not (has b1.link.opts cap_dev)
    then ok (record b1 { dev = record b1.dev { pending = none; state = dev_done } })
    else send_pending env b1

unfoldable pub dev_timeout : Batch → Ran
dev_timeout b =
    let retries = b.dev.retries + 1 in
    let b1 = record b { dev = record b.dev { retries = retries } } in
    if ltb_ℤ b.cfg.max_retries (pos retries)
    then fail max_retries b1
    else if is_dev_dack b.dev.state
    then ok (record b1 { dev = record b1.dev { state = dev_data } })
    else ok b1

-- Deliver a datagram that is not a duplicate, and acknowledge in any case.
unfoldable pub dev_rx : Environment → Batch → Packet → Ran
unfolding write_with
dev_rx env b pkt = elim (parse_dev_data pkt.payload) [
  | none ↦ ok b
  | some d ↦
      let name = if ltb 3 (length d.device) then take 3 d.device else d.device in
      let b1 = record b { dev = record b.dev { rx_id = d.id } } in
      let b2 = if env.has_device_handler then note b1 (delivered name d.payload) else b1 in
      let b3 = if d.id == b.dev.rx_id then b else b2 in
      write env b3 pkt_devdack (marshal_dev_ack b3.dev.rx_id)
]

unfoldable pub dev_dack_from : Option DevDataPkt → Batch → ℕ → Batch
dev_dack_from none b id = b
dev_dack_from (some d) b id =
    if id == d.id
    then record b {
      dev = record b.dev { pending = none; retries = 0; timer = none; state = dev_done };
    }
    else b

unfoldable pub dev_on_dack : Batch → Packet → Batch
unfolding dev_dack_from
dev_on_dack b pkt = if not (is_dev_dack b.dev.state) then b else (elim (parse_dev_ack pkt.payload) [
  | none ↦ b
  | some id ↦ dev_dack_from b.dev.pending b id
])
