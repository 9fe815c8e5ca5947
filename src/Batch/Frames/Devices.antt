-- ===== src/Batch/Frames/Devices.antt =====
-- dev.go: every frame fits: the device channel.
use go_hydra.Base.{
  ℕ, ◌≡◌, leb, IsBytes, IsShort, All-append, length, take, not, ◌||◌, ltb, [], ◌∷◌, Option, none,
  some, Bytes, arith, if◌then◌else◌,
}
use go_hydra.Constants.{cap_dev, pkt_devdata}
use go_hydra.Packet.{Packet}
use go_hydra.Packet.Device.{DevDataPkt, marshal_dev_data, parse_dev_data}
use go_hydra.Batch.{rank, rinit, end, Environment, Batch, write}
use go_hydra.Packet.Bounds.{IsDatagram, marshal_dev_data-IsShort, marshal_dev_ack-IsShort}
use go_hydra.Caps.{has}
use go_hydra.Batch.Device.{
  is_dev_data, pad_device, queue_dev, promote, send_pending, dev_action, dev_timeout, dev_rx,
  dev_dack_from, dev_on_dack,
}
use go_hydra.Batch.Loop.{fire_dev_timer}
use go_hydra.Batch.Induction.{
  Holds, bind-Holds, ok-Holds, if-Holds, option-Holds, option-known-Holds,
}
use go_hydra.Batch.Frames.{IsFit, IsPending, IsRequest, write_short-IsFit}

-- A device name on the wire has three characters.
pad_device-IsShort :
    (name : Bytes)
    → IsBytes name
    → IsShort 3 (pad_device (if ltb 3 (length name) then take 3 name else name))
pad_device-IsShort [] h = ground arith
pad_device-IsShort (a ∷ []) h = ground arith
pad_device-IsShort (a ∷ c ∷ []) h = ground arith
pad_device-IsShort (a ∷ c ∷ d ∷ []) h = ground arith
pad_device-IsShort (a ∷ c ∷ d ∷ e ∷ name) h = ground arith

pub queue_dev-IsFit :
    (b : Batch) (name payload : Bytes)
    → IsRequest name payload
    → IsFit b
    → IsFit (queue_dev b name payload)
unfolding queue_dev
queue_dev-IsFit b name payload request h =
    let (frames, app, files, offer, announced, blk, queue, pending) = h in
    let named = pad_device-IsShort name request.0 in
    (
      frames,
      app,
      files,
      offer,
      announced,
      blk,
      All-append IsDatagram b.dev.queue _ queue ((named, request.1), tt),
      pending,
    )

pub dev_on_dack-IsFit : (b : Batch) (pkt : Packet) → IsFit b → IsFit (dev_on_dack b pkt)
unfolding dev_on_dack dev_dack_from
dev_on_dack-IsFit b pkt h = ground arith

pub fire_dev_timer-IsFit : (b : Batch) (now : ℕ) → IsFit b → Holds IsFit (fire_dev_timer b now)
unfolding fire_dev_timer dev_timeout
fire_dev_timer-IsFit b now h = record { at = ground arith }

promote-IsFit : (b : Batch) → IsFit b → IsFit (promote b)
unfolding promote
promote-IsFit b h = ground arith

-- A datagram that is given up.
dropped-IsFit : (b : Batch) → IsFit b → IsFit (record b { dev = record b.dev { pending = none } })
dropped-IsFit b h =
    let (frames, app, files, offer, announced, blk, queue, pending) = h in
    (frames, app, files, offer, announced, blk, queue, tt)

-- The datagram in flight is one of those that were queued.
pending-IsDatagram :
    (o : Option DevDataPkt) (d : DevDataPkt) → IsPending o → o ≡ some d → IsDatagram d
pending-IsDatagram o d h e = ground arith

send_pending-IsFit : (env : Environment) (b : Batch) → IsFit b → Holds IsFit (send_pending env b)
unfolding send_pending
send_pending-IsFit env b h =
    let (frames, app, files, offer, announced, blk, queue, pending) = h in
    option-known-Holds b.dev.pending _ _ (ok-Holds h) λ d e.
      let fit = pending-IsDatagram b.dev.pending d pending e in
      bind-Holds (write env b pkt_devdata (marshal_dev_data d)) _
        (write_short-IsFit env b _ _ _ h (omega arith) (marshal_dev_data-IsShort d fit)
          (omega arith))
        (λ b1 h1. ok-Holds h1)

pub dev_action-IsFit : (env : Environment) (b : Batch) → IsFit b → Holds IsFit (dev_action env b)
unfolding dev_action
dev_action-IsFit env b h =
    let h1 = promote-IsFit b h in
    let b1 = promote b in
    if-Holds (not (is_dev_data b1.dev.state)) _ _ (λ _. ok-Holds h1)
      λ _.
        if-Holds (leb (rank b1.tx.state) (rank rinit) || leb (rank end) (rank b1.tx.state)) _ _
          (λ _. ok-Holds h1)
          λ _.
            if-Holds (not (has b1.link.opts cap_dev)) _ _ (λ _. ok-Holds (dropped-IsFit b1 h1))
              (λ _. send_pending-IsFit env b1 h1)

pub dev_rx-IsFit :
    (env : Environment) (b : Batch) (pkt : Packet) → IsFit b → Holds IsFit (dev_rx env b pkt)
unfolding dev_rx
dev_rx-IsFit env b pkt h = option-Holds (parse_dev_data pkt.payload) _ _ (ok-Holds h) λ d.
    write_short-IsFit env _ _ _ _ (ground arith) (omega arith) (marshal_dev_ack-IsShort _)
      (omega arith)
