-- ===== src/Batch/Logging.antt =====
-- session.go `logPkt` and `trace`: what is put in a record; how it is printed is the logger's.
use go_hydra.Base.{
  ℕ, Bool, true, ◌||◌, not, ◌∷◌, [], Option, none, some, ◌==◌, ◌≡◌, ap, if◌then◌else◌, Bytes,
  length, arith,
}
use go_hydra.Base.Int.{ℤ, IsInt32}
use go_hydra.Constants.{pkt_data, pkt_dataack, pkt_finfoack, pkt_eof}
use go_hydra.Packet.{parse_offset, marshal_offset}
use go_hydra.Packet.RoundTrip.{parse-marshal}
use go_hydra.Batch.{rank, RxState, rx_init, rx_finfo, rx_data, rx_done, Batch}

record LogRecord : Type 0 where
  pub dir : Bytes
  pub typ : ℕ
  pub len : ℕ
  pub offset : Option ℤ

-- The record of a packet, where there is a logger: with its offset, where it has one.
unfoldable log_pkt : Bool → Bytes → ℕ → Bytes → Option LogRecord
log_pkt has_logger dir typ payload =
    let has_offset =
      typ == pkt_data || typ == pkt_dataack || typ == pkt_finfoack || typ == pkt_eof in
    if not has_logger
    then none
    else some (record {
      dir = dir;
      typ = typ;
      len = length payload;
      offset = if has_offset then parse_offset payload else none;
    })

-- The record of an EOF shows the offset that it was made of.
log_pkt-marshal_offset :
    (dir : Bytes) (offset : ℤ)
    → IsInt32 offset
    → log_pkt true dir pkt_eof (marshal_offset offset)
      ≡ some (record { dir = dir; typ = pkt_eof; len = 4; offset = some offset })
unfolding log_pkt marshal_offset
log_pkt-marshal_offset dir offset h =
    ap (λ o. some (record { dir = dir; typ = pkt_eof; len = 4; offset = o }))
      (parse-marshal offset [] 0 0 h (omega arith) (omega arith)).0

abbrev rx_rank : RxState → ℕ
rx_rank rx_init = 0
rx_rank rx_finfo = 1
rx_rank rx_data = 2
rx_rank rx_done = 3

record TraceLine : Type 0 where
  pub role : Bytes
  pub tx : ℕ
  pub rx : ℕ
  pub text : Bytes

-- A line of the trace, where it is on; `text` is the formatted message.
unfoldable trace : Bool → Batch → Bytes → Option TraceLine
trace trace_on b text =
    if not trace_on
    then none
    else some (record {
      role = if b.cfg.originator then b'O' ∷ b'R' ∷ b'G' ∷ [] else b'A' ∷ b'N' ∷ b'S' ∷ [];
      tx = rank b.tx.state;
      rx = rx_rank b.rx.state;
      text = text;
    })
