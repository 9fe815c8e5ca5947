-- ===== src/Batch/Frames.antt =====
-- session.go `write`: the frames of a batch, against what a frame can carry.
pub mod Sending
pub mod Devices
pub mod Actions
pub mod Receiving
pub mod Always
pub mod OnWire
mod Runs
use go_hydra.Base.{
  ℕ, ◌+◌, ◌≤◌, ◌≡◌, sym, subst, List, [], ◌∷◌, Option, none, some, Bytes, IsByte, IsBytes, IsShort,
  All, arith, length,
}
use mathlib.Core.List.{Memᴰ}
use go_hydra.Config.{FileOffer}
use go_hydra.Packet.Bounds.{IsDatagram}
use go_hydra.Packet.Device.{DevDataPkt}
use go_hydra.BlockSize.Bounds.{IsSound}
use go_hydra.Wire.RoundTrip.{IsSendable}
use go_hydra.Batch.{Event, sent, content, Environment, Batch, write_with}
use go_hydra.Batch.Induction.{Holds, write_with-Holds}

-- Every frame of a log is one that the reader takes.
abbrev pub AllFrames : List Event → Type 0
AllFrames [] = Unit {0}
AllFrames (sent typ payload _ _ ∷ log) =
    IsSendable (record { typ = typ; payload = payload }) × AllFrames log
AllFrames (_ ∷ log) = AllFrames log

-- Behind any event.
AllFrames-tail : (e : Event) (log : List Event) → AllFrames (e ∷ log) → AllFrames log
AllFrames-tail e log h = ground arith

-- Each of them, by its place in the log.
pub AllFrames-at :
    (typ opts : ℕ) (payload prefix : Bytes) (log : List Event)
    → Memᴰ (sent typ payload opts prefix) log
    → AllFrames log
    → IsSendable (record { typ = typ; payload = payload })
AllFrames-at typ opts payload prefix [] m h = elim m [ ]
AllFrames-at typ opts payload prefix (e ∷ log) (Memᴰ.head same) h =
    (subst (λ x. AllFrames (x ∷ log)) (sym same) h).0
AllFrames-at typ opts payload prefix (e ∷ log) (Memᴰ.tail m) h =
    AllFrames-at typ opts payload prefix log m (AllFrames-tail e log h)

-- An offer whose names fit a FINFO packet together.
pub record IsBrief (o : FileOffer) : Type 0 where
  pub name_bytes : IsBytes o.name
  pub path_bytes : IsBytes o.path
  pub fit : length o.name + length o.path ≤ 2013

-- The offer in hand, the FINFO payload kept for retransmission, and the datagram in flight.
abbrev pub IsBriefOffer : Option FileOffer → Type 0
IsBriefOffer none = Unit {0}
IsBriefOffer (some o) = IsBrief o

abbrev pub IsShortPayload : Option Bytes → Type 0
IsShortPayload none = Unit {0}
IsShortPayload (some payload) = IsShort 2056 payload

abbrev pub IsPending : Option DevDataPkt → Type 0
IsPending none = Unit {0}
IsPending (some d) = IsDatagram d

-- What the frames are made of.
abbrev pub IsFit : Batch → Type 0
IsFit b =
    AllFrames b.log
    × IsShort 1947 b.cfg.app_id
    × All IsBrief b.files
    × IsBriefOffer b.tx.offer
    × IsShortPayload b.tx.last_finfo
    × IsSound b.tx.blk
    × All IsDatagram b.dev.queue
    × IsPending b.dev.pending

-- A source gives at most what is asked for, as `io.ReadFull` does.
pub record IsReading (env : Environment) : Type 0 where
  pub gives :
      (log : List Event) (n : ℕ) (block : Bytes)
      → env.source log n ≡ content block
      → IsShort n block

-- A request as `SendDevice` queues it, with any name.
abbrev pub IsRequest : Bytes → Bytes → Type 0
IsRequest name payload = IsBytes name × IsShort 2048 payload

pub IsShort-IsSendable :
    {n typ : ℕ} {payload : Bytes}
    → IsByte typ
    → IsShort n payload
    → n ≤ 2056
    → IsSendable (record { typ = typ; payload = payload })
IsShort-IsSendable byte h le = record {
  typ_byte = byte;
  payload_bytes = h.bytes;
  payload_fits = omega (arith, h.size);
}

-- A frame that is written.
pub write_with-IsFit :
    (env : Environment) (b : Batch) (typ : ℕ) (payload : Bytes) (opts : ℕ)
    → IsFit b
    → IsSendable (record { typ = typ; payload = payload })
    → Holds IsFit (write_with env b typ payload opts)
write_with-IsFit env b typ payload opts h fit =
    let (frames, app, files, offer, announced, blk, queue, pending) = h in
    write_with-Holds env b typ payload opts h
      ((fit, frames), app, files, offer, announced, blk, queue, pending)

-- The same, by the length of the payload.
pub write_short-IsFit :
    {n : ℕ} (env : Environment) (b : Batch) (typ : ℕ) (payload : Bytes) (opts : ℕ)
    → IsFit b
    → IsByte typ
    → IsShort n payload
    → n ≤ 2056
    → Holds IsFit (write_with env b typ payload opts)
write_short-IsFit env b typ payload opts h byte short le =
    write_with-IsFit env b typ payload opts h (IsShort-IsSendable byte short le)
