-- ===== src/Batch/Phases/Receiving.antt =====
-- session.go: how the transmitter, the receiver and the negotiation keep in step: the operations of the receiver.
use go_hydra.Base.{◌≡◌, Bool, true, false, not, ◌||◌, ◌∷◌, Option, some, leb, Bytes, arith, length}
use go_hydra.Base.Int.{ℤ, pos, ltb_ℤ, eqb_ℤ}
use go_hydra.Config.{FileInfo, Error}
use go_hydra.Packet.{Packet, parse_offset, parse_data}
use go_hydra.FileInfo.{parse_finfo}
use go_hydra.Batch.{
  end, rank, RxState, rx_init, rx_finfo, rx_data, rx_done, Answer, announced, stored, Environment,
  Batch, note, write_with, feed_braindead,
}
use go_hydra.Batch.Receive.{
  negotiate, take_init, rx_on_init, take_answer, accept_finfo, take_announcement, take_finfo,
  rx_on_finfo, rx_close_file, request_skip, ask_rpos, bad_position, take_stored, take_block,
  rx_on_data, take_eof, rx_on_eof_in, to_info, is_rx_data,
}
use go_hydra.Batch.Loop.{is_rx_init}
use go_hydra.Batch.Induction.{
  Holds, ok-Holds, bind-Holds, if-Holds, option-Holds, option-ind, write_with-Holds,
}
use go_hydra.Batch.Phases.{IsInPhase}

take_init-IsInPhase :
    (b : Batch) (pkt : Packet) → IsInPhase b → Holds IsInPhase (take_init b.rx.state b pkt)
unfolding take_init negotiate
take_init-IsInPhase b pkt h = record { at = ground arith }

pub rx_on_init-IsInPhase :
    (env : Environment) (b : Batch) (pkt : Packet)
    → IsInPhase b
    → Holds IsInPhase (rx_on_init env b pkt)
unfolding rx_on_init
rx_on_init-IsInPhase env b pkt h =
    bind-Holds (take_init b.rx.state b pkt) _ (take_init-IsInPhase b pkt h)
      λ b1 h1. write_with-Holds env b1 _ _ _ h1 h1

take_answer-IsInPhase :
    (b : Batch) (info : FileInfo) (a : Answer)
    → leb (rank end) (rank b.tx.state) ≡ false
    → IsInPhase b
    → is_rx_init b.rx.state ≡ false
    → IsInPhase (take_answer b info a).0
unfolding take_answer
take_answer-IsInPhase b info a e h i = ground arith

accept_finfo-IsInPhase :
    (env : Environment) (b : Batch) (payload : Bytes)
    → leb (rank end) (rank b.tx.state) ≡ false
    → IsInPhase b
    → is_rx_init b.rx.state ≡ false
    → IsInPhase (accept_finfo env b payload).0
unfolding accept_finfo
accept_finfo-IsInPhase env b payload e h i =
    option-ind (λ (p : Batch × ℤ). IsInPhase p.0) (parse_finfo payload) _ _ h
      λ m.
        let info = to_info b m in
        ground (
          arith,
          take_answer-IsInPhase (note b (announced info)) info
              (env.accept_file (announced info ∷ b.log) info) e h i,
        )

take_finfo-IsInPhase :
    (env : Environment) (b : Batch) (payload : Bytes)
    → IsInPhase b
    → IsInPhase (take_finfo b.rx.state env b payload).0
unfolding take_finfo take_announcement feed_braindead
take_finfo-IsInPhase env b payload h =
    ground (arith, accept_finfo-IsInPhase env (feed_braindead b) payload)

pub rx_on_finfo-IsInPhase :
    (env : Environment) (b : Batch) (pkt : Packet)
    → IsInPhase b
    → Holds IsInPhase (rx_on_finfo env b pkt)
unfolding rx_on_finfo
rx_on_finfo-IsInPhase env b pkt h =
    let h1 = take_finfo-IsInPhase env b pkt.payload h in write_with-Holds env _ _ _ _ h1 h1

rx_close_file-IsInPhase :
    (b : Batch) (e : Option Error) → IsInPhase b → IsInPhase (rx_close_file b e)
unfolding rx_close_file
rx_close_file-IsInPhase b e h = ground arith

request_skip-IsInPhase :
    (env : Environment) (b : Batch) (e : Error)
    → IsInPhase b
    → Holds IsInPhase (request_skip env b e)
unfolding request_skip
request_skip-IsInPhase env b e h =
    let h1 = rx_close_file-IsInPhase b (some e) h in write_with-Holds env _ _ _ _ h1 h1

ask_rpos-IsInPhase :
    (env : Environment) (b : Batch) (is_eof : Bool)
    → IsInPhase b
    → Holds IsInPhase (ask_rpos env b is_eof)
unfolding ask_rpos write_with
ask_rpos-IsInPhase env b is_eof h = record { at = ground arith }

bad_position-IsInPhase :
    (env : Environment) (b : Batch) (offset : ℤ) (is_eof : Bool)
    → IsInPhase b
    → Holds IsInPhase (bad_position env b offset is_eof)
unfolding bad_position ask_rpos write_with
bad_position-IsInPhase env b offset is_eof h = record { at = ground arith }

take_stored-IsInPhase :
    (env : Environment) (b : Batch) (bytes : Bytes)
    → IsInPhase b
    → Holds IsInPhase (take_stored env b bytes)
unfolding take_stored request_skip rx_close_file write_with
take_stored-IsInPhase env b bytes h = record { at = ground arith }

take_block-IsInPhase :
    (env : Environment) (b : Batch) (bytes : Bytes)
    → IsInPhase b
    → Holds IsInPhase (take_block env b bytes)
unfolding take_block feed_braindead
take_block-IsInPhase env b bytes h =
    let b0 = feed_braindead b in
    let b1 = record b0 { rx = record b0.rx { blk_len = length bytes } } in
    if-Holds (not b.rx.writer) _ _ (λ _. take_stored-IsInPhase env b1 bytes h)
      λ _.
        option-Holds (env.store b.log bytes) _ _
          (take_stored-IsInPhase env (note b1 (stored bytes)) bytes h)
          (λ e. request_skip-IsInPhase env b1 e h)

pub rx_on_data-IsInPhase :
    (env : Environment) (b : Batch) (pkt : Packet)
    → IsInPhase b
    → Holds IsInPhase (rx_on_data env b pkt)
unfolding rx_on_data
rx_on_data-IsInPhase env b pkt h =
    if-Holds (not (is_rx_data b.rx.state)) _ _ (λ _. ok-Holds h)
      λ _. option-Holds (parse_data pkt.payload) _ _ (ok-Holds h) λ d.
        if-Holds (not (eqb_ℤ d.offset b.rx.position) || ltb_ℤ d.offset (pos 0)) _ _
          (λ _. bad_position-IsInPhase env b d.offset false h)
          (λ _. take_block-IsInPhase env b d.bytes h)

take_eof-IsInPhase :
    (env : Environment) (b : Batch) (offset : ℤ)
    → leb (rank end) (rank b.tx.state) ≡ false
    → IsInPhase b
    → is_rx_init b.rx.state ≡ false
    → Holds IsInPhase (take_eof env b offset)
unfolding take_eof feed_braindead rx_close_file
take_eof-IsInPhase env b offset e h i =
    if-Holds (ltb_ℤ offset (pos 0)) _ _
      (λ _. write_with-Holds env _ _ _ _ (ground arith) (ground arith))
      λ _.
        if-Holds (not (eqb_ℤ offset b.rx.position)) _ _
          (λ _. bad_position-IsInPhase env b offset true h)
          (λ _. write_with-Holds env _ _ _ _ (ground arith) (ground arith))

pub rx_on_eof_in-IsInPhase :
    (s : RxState) (env : Environment) (b : Batch) (pkt : Packet)
    → s ≡ b.rx.state
    → IsInPhase b
    → Holds IsInPhase (rx_on_eof_in s env b pkt)
unfolding rx_on_eof_in
rx_on_eof_in-IsInPhase rx_data env b pkt e h =
    option-Holds (parse_offset pkt.payload) _ _ (ok-Holds h)
      (λ offset. take_eof-IsInPhase env b offset (ground arith) h (ground arith))
rx_on_eof_in-IsInPhase rx_finfo env b pkt e h = write_with-Holds env b _ _ _ h h
rx_on_eof_in-IsInPhase rx_init env b pkt e h = ok-Holds h
rx_on_eof_in-IsInPhase rx_done env b pkt e h = ok-Holds h
