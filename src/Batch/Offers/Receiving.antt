-- ===== src/Batch/Offers/Receiving.antt =====
-- tx.go: each file that is offered is reported once: the operations of the receiver.
use go_hydra.Base.{
  ◌≡◌, Bool, true, false, not, ◌||◌, ◌&&◌, Option, none, some, Bytes, arith, if◌then◌else◌, length,
}
use go_hydra.Base.Int.{ℤ, pos, ltb_ℤ, eqb_ℤ, leb_ℤ}
use go_hydra.Config.{FileInfo, Error}
use go_hydra.Constants.{safe_max_offset}
use go_hydra.Packet.{Packet, parse_offset, parse_data}
use go_hydra.Packet.Init.{parse_init, InitPkt}
use go_hydra.FileInfo.{is_finfo_eob, parse_finfo}
use go_hydra.Batch.{
  RxState, rx_init, rx_finfo, rx_data, rx_done, Answer, announced, stored, Environment, Batch, note,
  write_with, feed_braindead,
}
use go_hydra.Batch.Receive.{
  negotiate, take_init, rx_on_init, take_answer, accept_finfo, take_announcement, take_finfo,
  rx_on_finfo, rx_close_file, request_skip, ask_rpos, bad_position, take_stored, take_block,
  rx_on_data, take_eof, rx_on_eof_in, to_info, matches_refused, before_timer, is_rx_data,
}
use go_hydra.Batch.Induction.{
  Holds, ok-Holds, bind-Holds, if-Holds, option-Holds, option-ind, if-ind, write_with-Holds,
}
use go_hydra.Batch.Offers.{IsTxCounted}

negotiate-IsTxCounted :
    (b : Batch) (p : InitPkt) → IsTxCounted b → Holds IsTxCounted (negotiate b p)
unfolding negotiate
negotiate-IsTxCounted b p h = record { at = ground arith }

take_init-IsTxCounted :
    (s : RxState) (b : Batch) (pkt : Packet) → IsTxCounted b → Holds IsTxCounted (take_init s b pkt)
unfolding take_init
take_init-IsTxCounted rx_init b pkt h =
    option-Holds (parse_init pkt.payload) _ _ (ok-Holds h)
      λ p. bind-Holds (negotiate b p) _ (negotiate-IsTxCounted b p h) (λ b1 h1. ok-Holds h1)
take_init-IsTxCounted rx_finfo b pkt h = ok-Holds h
take_init-IsTxCounted rx_data b pkt h = ok-Holds h
take_init-IsTxCounted rx_done b pkt h = ok-Holds h

pub rx_on_init-IsTxCounted :
    (env : Environment) (b : Batch) (pkt : Packet)
    → IsTxCounted b
    → Holds IsTxCounted (rx_on_init env b pkt)
unfolding rx_on_init
rx_on_init-IsTxCounted env b pkt h =
    bind-Holds (take_init b.rx.state b pkt) _ (take_init-IsTxCounted b.rx.state b pkt h)
      λ b1 h1. write_with-Holds env b1 _ _ _ h1 h1

take_answer-IsTxCounted :
    (b : Batch) (info : FileInfo) (a : Answer)
    → IsTxCounted b
    → IsTxCounted (take_answer b info a).0
unfolding take_answer
take_answer-IsTxCounted b info a h =
    let Q = λ (p : Batch × ℤ). IsTxCounted p.0 in
    let bad_offset =
      ltb_ℤ a.offset (pos 0)
      || ltb_ℤ (pos safe_max_offset) a.offset
      || (ltb_ℤ (pos 0) info.size && ltb_ℤ info.size a.offset) in
    option-ind Q a.err _ _
      (if-ind Q (not a.has_writer) _ _ (λ _. h) (λ _. if-ind Q bad_offset _ _ (λ _. h) (λ _. h)))
      (λ e. if-ind IsTxCounted a.has_writer _ _ (λ _. h) (λ _. h))

accept_finfo-IsTxCounted :
    (env : Environment) (b : Batch) (payload : Bytes)
    → IsTxCounted b
    → IsTxCounted (accept_finfo env b payload).0
unfolding accept_finfo
accept_finfo-IsTxCounted env b payload h =
    option-ind (λ (p : Batch × ℤ). IsTxCounted p.0) (parse_finfo payload) _ _ h
      λ m.
        let info = to_info b m in
        let b1 = note b (announced info) in
        if-ind (λ (p : Batch × ℤ). IsTxCounted p.0) (ltb_ℤ (pos safe_max_offset) info.size) _ _
          (λ _. h) (λ _. take_answer-IsTxCounted b1 info (env.accept_file b1.log info) h)

take_finfo-IsTxCounted :
    (s : RxState) (env : Environment) (b : Batch) (payload : Bytes)
    → IsTxCounted b
    → IsTxCounted (take_finfo s env b payload).0
unfolding take_finfo take_announcement feed_braindead
take_finfo-IsTxCounted rx_finfo env b payload h =
    if-ind (λ (p : Batch × ℤ). IsTxCounted p.0) (is_finfo_eob payload) _ _ (λ _. h)
      λ _.
        option-ind (λ (p : Batch × ℤ). IsTxCounted p.0) (matches_refused b.rx.last_refused payload)
          _ _ (accept_finfo-IsTxCounted env (feed_braindead b) payload h) (λ ack. h)
take_finfo-IsTxCounted rx_data env b payload h = h
take_finfo-IsTxCounted rx_done env b payload h = h
take_finfo-IsTxCounted rx_init env b payload h = h

pub rx_on_finfo-IsTxCounted :
    (env : Environment) (b : Batch) (pkt : Packet)
    → IsTxCounted b
    → Holds IsTxCounted (rx_on_finfo env b pkt)
unfolding rx_on_finfo
rx_on_finfo-IsTxCounted env b pkt h =
    let h1 = take_finfo-IsTxCounted b.rx.state env b pkt.payload h in
    write_with-Holds env _ _ _ _ h1 h1

rx_close_file-IsTxCounted :
    (b : Batch) (e : Option Error) → IsTxCounted b → IsTxCounted (rx_close_file b e)
unfolding rx_close_file
rx_close_file-IsTxCounted b e h = ground arith

request_skip-IsTxCounted :
    (env : Environment) (b : Batch) (e : Error)
    → IsTxCounted b
    → Holds IsTxCounted (request_skip env b e)
unfolding request_skip
request_skip-IsTxCounted env b e h =
    let h1 = rx_close_file-IsTxCounted b (some e) h in write_with-Holds env _ _ _ _ h1 h1

ask_rpos-IsTxCounted :
    (env : Environment) (b : Batch) (is_eof : Bool)
    → IsTxCounted b
    → Holds IsTxCounted (ask_rpos env b is_eof)
unfolding ask_rpos write_with
ask_rpos-IsTxCounted env b is_eof h = record { at = ground arith }

bad_position-IsTxCounted :
    (env : Environment) (b : Batch) (offset : ℤ) (is_eof : Bool)
    → IsTxCounted b
    → Holds IsTxCounted (bad_position env b offset is_eof)
unfolding bad_position
bad_position-IsTxCounted env b offset is_eof h =
    let rewound = leb_ℤ offset b.rx.last_sync in
    let b1 = record b {
      rx = record b.rx {
        timer = if rewound then none else b.rx.timer;
        retries = if rewound then 0 else b.rx.retries;
        last_sync = offset;
      };
    } in
    if-Holds (before_timer b1.clock b1.rx.timer) _ _ (λ _. ok-Holds h)
      (λ _. ask_rpos-IsTxCounted env b1 is_eof h)

take_stored-IsTxCounted :
    (env : Environment) (b : Batch) (bytes : Bytes)
    → IsTxCounted b
    → Holds IsTxCounted (take_stored env b bytes)
unfolding take_stored request_skip rx_close_file write_with
take_stored-IsTxCounted env b bytes h = record { at = ground arith }

take_block-IsTxCounted :
    (env : Environment) (b : Batch) (bytes : Bytes)
    → IsTxCounted b
    → Holds IsTxCounted (take_block env b bytes)
unfolding take_block feed_braindead
take_block-IsTxCounted env b bytes h =
    let b0 = feed_braindead b in
    let b1 = record b0 { rx = record b0.rx { blk_len = length bytes } } in
    if-Holds (not b.rx.writer) _ _ (λ _. take_stored-IsTxCounted env b1 bytes h)
      λ _.
        option-Holds (env.store b.log bytes) _ _
          (take_stored-IsTxCounted env (note b1 (stored bytes)) bytes h)
          (λ e. request_skip-IsTxCounted env b1 e h)

pub rx_on_data-IsTxCounted :
    (env : Environment) (b : Batch) (pkt : Packet)
    → IsTxCounted b
    → Holds IsTxCounted (rx_on_data env b pkt)
unfolding rx_on_data
rx_on_data-IsTxCounted env b pkt h =
    if-Holds (not (is_rx_data b.rx.state)) _ _ (λ _. ok-Holds h)
      λ _. option-Holds (parse_data pkt.payload) _ _ (ok-Holds h) λ d.
        if-Holds (not (eqb_ℤ d.offset b.rx.position) || ltb_ℤ d.offset (pos 0)) _ _
          (λ _. bad_position-IsTxCounted env b d.offset false h)
          (λ _. take_block-IsTxCounted env b d.bytes h)

take_eof-IsTxCounted :
    (env : Environment) (b : Batch) (offset : ℤ)
    → IsTxCounted b
    → Holds IsTxCounted (take_eof env b offset)
unfolding take_eof feed_braindead rx_close_file
take_eof-IsTxCounted env b offset h =
    if-Holds (ltb_ℤ offset (pos 0)) _ _
      (λ _. write_with-Holds env _ _ _ _ (ground arith) (ground arith))
      λ _.
        if-Holds (not (eqb_ℤ offset b.rx.position)) _ _
          (λ _. bad_position-IsTxCounted env b offset true h)
          (λ _. write_with-Holds env _ _ _ _ (ground arith) (ground arith))

pub rx_on_eof_in-IsTxCounted :
    (s : RxState) (env : Environment) (b : Batch) (pkt : Packet)
    → s ≡ b.rx.state
    → IsTxCounted b
    → Holds IsTxCounted (rx_on_eof_in s env b pkt)
unfolding rx_on_eof_in
rx_on_eof_in-IsTxCounted rx_data env b pkt e h =
    option-Holds (parse_offset pkt.payload) _ _ (ok-Holds h)
      (λ offset. take_eof-IsTxCounted env b offset h)
rx_on_eof_in-IsTxCounted rx_finfo env b pkt e h = write_with-Holds env b _ _ _ h h
rx_on_eof_in-IsTxCounted rx_init env b pkt e h = ok-Holds h
rx_on_eof_in-IsTxCounted rx_done env b pkt e h = ok-Holds h
