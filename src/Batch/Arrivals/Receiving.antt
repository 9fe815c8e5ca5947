-- ===== src/Batch/Arrivals/Receiving.antt =====
-- rx.go: each file that is announced is reported once: the operations of the receiver.
use go_hydra.Base.{◌≡◌, Bool, true, false, not, ◌||◌, Option, some, Bytes, arith, length}
use go_hydra.Base.Int.{ℤ, pos, ltb_ℤ, eqb_ℤ}
use go_hydra.Config.{FileInfo, Error}
use go_hydra.Constants.{safe_max_offset}
use go_hydra.Packet.{Packet, parse_offset, parse_data}
use go_hydra.FileInfo.{parse_finfo}
use go_hydra.Batch.{
  RxState, rx_init, rx_finfo, rx_data, rx_done, Answer, announced, stored, Environment, Batch, note,
  write_with, feed_braindead,
}
use go_hydra.Batch.Receive.{
  negotiate, take_init, rx_on_init, take_answer, accept_finfo, take_announcement, take_finfo,
  rx_on_finfo, rx_close_file, request_skip, ask_rpos, bad_position, take_stored, take_block,
  rx_on_data, take_eof, rx_on_eof_in, to_info, is_rx_data,
}
use go_hydra.Batch.Induction.{
  Holds, ok-Holds, bind-Holds, if-Holds, option-Holds, option-ind, if-ind, write_with-Holds,
}
use go_hydra.Batch.Arrivals.{IsRxCounted}

abbrev is_rx_finfo : RxState → Bool
is_rx_finfo rx_finfo = true
is_rx_finfo _ = false

take_init-IsRxCounted :
    (b : Batch) (pkt : Packet) → IsRxCounted b → Holds IsRxCounted (take_init b.rx.state b pkt)
unfolding take_init negotiate
take_init-IsRxCounted b pkt h = record { at = ground arith }

pub rx_on_init-IsRxCounted :
    (env : Environment) (b : Batch) (pkt : Packet)
    → IsRxCounted b
    → Holds IsRxCounted (rx_on_init env b pkt)
unfolding rx_on_init
rx_on_init-IsRxCounted env b pkt h =
    bind-Holds (take_init b.rx.state b pkt) _ (take_init-IsRxCounted b pkt h)
      λ b1 h1. write_with-Holds env b1 _ _ _ h1 h1

take_answer-IsRxCounted :
    (b : Batch) (info : FileInfo) (a : Answer)
    → is_rx_finfo b.rx.state ≡ true
    → IsRxCounted b
    → IsRxCounted (take_answer (note b (announced info)) info a).0
unfolding take_answer
take_answer-IsRxCounted b info a s h = ground arith

accept_finfo-IsRxCounted :
    (env : Environment) (b : Batch) (payload : Bytes)
    → is_rx_finfo b.rx.state ≡ true
    → IsRxCounted b
    → IsRxCounted (accept_finfo env b payload).0
unfolding accept_finfo
accept_finfo-IsRxCounted env b payload s h =
    option-ind (λ (p : Batch × ℤ). IsRxCounted p.0) (parse_finfo payload) _ _ h
      λ m.
        let info = to_info b m in
        let b1 = note b (announced info) in
        if-ind (λ (p : Batch × ℤ). IsRxCounted p.0) (ltb_ℤ (pos safe_max_offset) info.size) _ _
          (λ _. ground arith)
          (λ _. take_answer-IsRxCounted b info (env.accept_file b1.log info) s h)

take_finfo-IsRxCounted :
    (env : Environment) (b : Batch) (payload : Bytes)
    → IsRxCounted b
    → IsRxCounted (take_finfo b.rx.state env b payload).0
unfolding take_finfo take_announcement feed_braindead
take_finfo-IsRxCounted env b payload h =
    ground (arith, accept_finfo-IsRxCounted env (feed_braindead b) payload)

pub rx_on_finfo-IsRxCounted :
    (env : Environment) (b : Batch) (pkt : Packet)
    → IsRxCounted b
    → Holds IsRxCounted (rx_on_finfo env b pkt)
unfolding rx_on_finfo
rx_on_finfo-IsRxCounted env b pkt h =
    let h1 = take_finfo-IsRxCounted env b pkt.payload h in write_with-Holds env _ _ _ _ h1 h1

rx_close_file-IsRxCounted :
    (b : Batch) (e : Option Error) → IsRxCounted b → IsRxCounted (rx_close_file b e)
unfolding rx_close_file
rx_close_file-IsRxCounted b e h = ground arith

request_skip-IsRxCounted :
    (env : Environment) (b : Batch) (e : Error)
    → IsRxCounted b
    → Holds IsRxCounted (request_skip env b e)
unfolding request_skip
request_skip-IsRxCounted env b e h =
    let h1 = rx_close_file-IsRxCounted b (some e) h in write_with-Holds env _ _ _ _ h1 h1

ask_rpos-IsRxCounted :
    (env : Environment) (b : Batch) (is_eof : Bool)
    → IsRxCounted b
    → Holds IsRxCounted (ask_rpos env b is_eof)
unfolding ask_rpos write_with
ask_rpos-IsRxCounted env b is_eof h = record { at = ground arith }

bad_position-IsRxCounted :
    (env : Environment) (b : Batch) (offset : ℤ) (is_eof : Bool)
    → IsRxCounted b
    → Holds IsRxCounted (bad_position env b offset is_eof)
unfolding bad_position ask_rpos write_with
bad_position-IsRxCounted env b offset is_eof h = record { at = ground arith }

take_stored-IsRxCounted :
    (env : Environment) (b : Batch) (bytes : Bytes)
    → IsRxCounted b
    → Holds IsRxCounted (take_stored env b bytes)
unfolding take_stored request_skip rx_close_file write_with
take_stored-IsRxCounted env b bytes h = record { at = ground arith }

take_block-IsRxCounted :
    (env : Environment) (b : Batch) (bytes : Bytes)
    → IsRxCounted b
    → Holds IsRxCounted (take_block env b bytes)
unfolding take_block feed_braindead
take_block-IsRxCounted env b bytes h =
    let b0 = feed_braindead b in
    let b1 = record b0 { rx = record b0.rx { blk_len = length bytes } } in
    if-Holds (not b.rx.writer) _ _ (λ _. take_stored-IsRxCounted env b1 bytes h)
      λ _.
        option-Holds (env.store b.log bytes) _ _
          (take_stored-IsRxCounted env (note b1 (stored bytes)) bytes h)
          (λ e. request_skip-IsRxCounted env b1 e h)

pub rx_on_data-IsRxCounted :
    (env : Environment) (b : Batch) (pkt : Packet)
    → IsRxCounted b
    → Holds IsRxCounted (rx_on_data env b pkt)
unfolding rx_on_data
rx_on_data-IsRxCounted env b pkt h =
    if-Holds (not (is_rx_data b.rx.state)) _ _ (λ _. ok-Holds h)
      λ _. option-Holds (parse_data pkt.payload) _ _ (ok-Holds h) λ d.
        if-Holds (not (eqb_ℤ d.offset b.rx.position) || ltb_ℤ d.offset (pos 0)) _ _
          (λ _. bad_position-IsRxCounted env b d.offset false h)
          (λ _. take_block-IsRxCounted env b d.bytes h)

take_eof-IsRxCounted :
    (env : Environment) (b : Batch) (offset : ℤ)
    → IsRxCounted b
    → Holds IsRxCounted (take_eof env b offset)
unfolding take_eof feed_braindead rx_close_file
take_eof-IsRxCounted env b offset h =
    if-Holds (ltb_ℤ offset (pos 0)) _ _
      (λ _. write_with-Holds env _ _ _ _ (ground arith) (ground arith))
      λ _.
        if-Holds (not (eqb_ℤ offset b.rx.position)) _ _
          (λ _. bad_position-IsRxCounted env b offset true h)
          (λ _. write_with-Holds env _ _ _ _ (ground arith) (ground arith))

pub rx_on_eof_in-IsRxCounted :
    (s : RxState) (env : Environment) (b : Batch) (pkt : Packet)
    → s ≡ b.rx.state
    → IsRxCounted b
    → Holds IsRxCounted (rx_on_eof_in s env b pkt)
unfolding rx_on_eof_in
rx_on_eof_in-IsRxCounted rx_data env b pkt e h =
    option-Holds (parse_offset pkt.payload) _ _ (ok-Holds h)
      (λ offset. take_eof-IsRxCounted env b offset h)
rx_on_eof_in-IsRxCounted rx_finfo env b pkt e h = write_with-Holds env b _ _ _ h h
rx_on_eof_in-IsRxCounted rx_init env b pkt e h = ok-Holds h
rx_on_eof_in-IsRxCounted rx_done env b pkt e h = ok-Holds h
