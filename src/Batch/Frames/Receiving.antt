-- ===== src/Batch/Frames/Receiving.antt =====
-- rx.go: every frame fits: the operations of the receiver.
use go_hydra.Base.{
  Bool, true, false, not, ◌||◌, ◌&&◌, if◌then◌else◌, ltb, Option, none, some, Bytes, nil-IsShort,
  arith, ◌+◌, length,
}
use go_hydra.Base.Int.{ℤ, pos, ltb_ℤ, leb_ℤ, eqb_ℤ, add_ℕ}
use go_hydra.Config.{FileInfo, Error, file_too_large, sender_skip}
use go_hydra.Constants.{safe_max_offset}
use go_hydra.Packet.{Packet, parse_offset, parse_data}
use go_hydra.Packet.Bounds.{marshal_offset-IsShort, marshal_rpos-IsShort}
use go_hydra.FileInfo.{parse_finfo}
use go_hydra.Batch.{
  rank, rend, RxState, rx_init, rx_finfo, rx_data, rx_done, Answer, announced, stored, Environment,
  Batch, note, feed_braindead,
}
use go_hydra.Batch.Receive.{
  negotiate, take_init, rx_on_init, take_answer, accept_finfo, take_announcement, take_finfo,
  rx_on_finfo, rx_close_file, request_skip, ask_rpos, bad_position, take_stored, take_block,
  rx_on_data, take_eof, rx_on_eof_in, to_info, is_rx_data, before_timer,
}
use go_hydra.Batch.Induction.{
  Holds, ok-Holds, fail-Holds, bind-Holds, if-Holds, option-Holds, option-ind, if-ind,
}
use go_hydra.Batch.Frames.{IsFit, write_short-IsFit}

take_init-IsFit : (b : Batch) (pkt : Packet) → IsFit b → Holds IsFit (take_init b.rx.state b pkt)
unfolding take_init negotiate
take_init-IsFit b pkt h = record { at = ground arith }

pub rx_on_init-IsFit :
    (env : Environment) (b : Batch) (pkt : Packet) → IsFit b → Holds IsFit (rx_on_init env b pkt)
unfolding rx_on_init
rx_on_init-IsFit env b pkt h =
    bind-Holds (take_init b.rx.state b pkt) _ (take_init-IsFit b pkt h)
      λ b1 h1. write_short-IsFit env b1 _ _ _ h1 (omega arith) nil-IsShort (omega arith)

take_answer-IsFit :
    (b : Batch) (info : FileInfo) (a : Answer) → IsFit b → IsFit (take_answer b info a).0
unfolding take_answer
take_answer-IsFit b info a h = ground arith

accept_finfo-IsFit :
    (env : Environment) (b : Batch) (payload : Bytes)
    → IsFit b
    → IsFit (accept_finfo env b payload).0
unfolding accept_finfo
accept_finfo-IsFit env b payload h =
    option-ind (λ (p : Batch × ℤ). IsFit p.0) (parse_finfo payload) _ _ h
      λ m.
        let info = to_info b m in
        let b1 = note b (announced info) in
        if-ind (λ (p : Batch × ℤ). IsFit p.0) (ltb_ℤ (pos safe_max_offset) info.size) _ _ (λ _. h)
          (λ _. take_answer-IsFit b1 info (env.accept_file b1.log info) h)

take_finfo-IsFit :
    (env : Environment) (b : Batch) (payload : Bytes)
    → IsFit b
    → IsFit (take_finfo b.rx.state env b payload).0
unfolding take_finfo take_announcement feed_braindead
take_finfo-IsFit env b payload h = ground (arith, accept_finfo-IsFit env (feed_braindead b) payload)

pub rx_on_finfo-IsFit :
    (env : Environment) (b : Batch) (pkt : Packet) → IsFit b → Holds IsFit (rx_on_finfo env b pkt)
unfolding rx_on_finfo
rx_on_finfo-IsFit env b pkt h =
    let h1 = take_finfo-IsFit env b pkt.payload h in
    write_short-IsFit env _ _ _ _ h1 (omega arith) (marshal_offset-IsShort _) (omega arith)

rx_close_file-IsFit : (b : Batch) (e : Option Error) → IsFit b → IsFit (rx_close_file b e)
unfolding rx_close_file
rx_close_file-IsFit b e h = ground arith

request_skip-IsFit :
    (env : Environment) (b : Batch) (e : Error) → IsFit b → Holds IsFit (request_skip env b e)
unfolding request_skip
request_skip-IsFit env b e h =
    let h1 = rx_close_file-IsFit b (some e) h in
    write_short-IsFit env _ _ _ _ h1 (omega arith) (marshal_rpos-IsShort _) (omega arith)

ask_rpos-IsFit :
    (env : Environment) (b : Batch) (is_eof : Bool) → IsFit b → Holds IsFit (ask_rpos env b is_eof)
unfolding ask_rpos
ask_rpos-IsFit env b is_eof h =
    let one_way =
      not is_eof
      && ltb 4 b.rx.retries
      && ltb (rank b.tx.state) (rank rend)
      && not b.cfg.originator
      && not b.tx.hdxlink in
    let retries = (if one_way then 0 else b.rx.retries) + 1 in
    if-Holds (ltb_ℤ b.cfg.max_retries (pos retries)) _ _ (λ _. fail-Holds h)
      (λ _. write_short-IsFit env _ _ _ _ h (omega arith) (marshal_rpos-IsShort _) (omega arith))

bad_position-IsFit :
    (env : Environment) (b : Batch) (offset : ℤ) (is_eof : Bool)
    → IsFit b
    → Holds IsFit (bad_position env b offset is_eof)
unfolding bad_position
bad_position-IsFit env b offset is_eof h =
    let rewound = leb_ℤ offset b.rx.last_sync in
    let b1 = record b {
      rx = record b.rx {
        timer = if rewound then none else b.rx.timer;
        retries = if rewound then 0 else b.rx.retries;
        last_sync = offset;
      };
    } in
    if-Holds (before_timer b1.clock b1.rx.timer) _ _ (λ _. ok-Holds h)
      (λ _. ask_rpos-IsFit env b1 is_eof h)

take_stored-IsFit :
    (env : Environment) (b : Batch) (bytes : Bytes)
    → IsFit b
    → Holds IsFit (take_stored env b bytes)
unfolding take_stored
take_stored-IsFit env b bytes h =
    let b1 = record b {
      rx = record b.rx {
        retries = 0;
        timer = none;
        last_sync = b.rx.position;
        position = add_ℕ b.rx.position (length bytes);
      };
    } in
    if-Holds (ltb_ℤ (pos safe_max_offset) b1.rx.position) _ _
      (λ _. request_skip-IsFit env b1 file_too_large h)
      (λ _.
        if-Holds (ltb 0 b.link.rx_window) _ _
          (λ _.
            write_short-IsFit env _ _ _ _ h (omega arith) (marshal_offset-IsShort _) (omega arith))
          (λ _. ok-Holds h))

take_block-IsFit :
    (env : Environment) (b : Batch) (bytes : Bytes) → IsFit b → Holds IsFit (take_block env b bytes)
unfolding take_block feed_braindead
take_block-IsFit env b bytes h =
    let b0 = feed_braindead b in
    let b1 = record b0 { rx = record b0.rx { blk_len = length bytes } } in
    if-Holds (not b.rx.writer) _ _ (λ _. take_stored-IsFit env b1 bytes h)
      λ _.
        option-Holds (env.store b.log bytes) _ _
          (take_stored-IsFit env (note b1 (stored bytes)) bytes h)
          (λ e. request_skip-IsFit env b1 e h)

pub rx_on_data-IsFit :
    (env : Environment) (b : Batch) (pkt : Packet) → IsFit b → Holds IsFit (rx_on_data env b pkt)
unfolding rx_on_data
rx_on_data-IsFit env b pkt h =
    if-Holds (not (is_rx_data b.rx.state)) _ _ (λ _. ok-Holds h)
      λ _. option-Holds (parse_data pkt.payload) _ _ (ok-Holds h) λ d.
        if-Holds (not (eqb_ℤ d.offset b.rx.position) || ltb_ℤ d.offset (pos 0)) _ _
          (λ _. bad_position-IsFit env b d.offset false h) (λ _. take_block-IsFit env b d.bytes h)

take_eof-IsFit :
    (env : Environment) (b : Batch) (offset : ℤ) → IsFit b → Holds IsFit (take_eof env b offset)
unfolding take_eof feed_braindead
take_eof-IsFit env b offset h =
    let skipped = rx_close_file-IsFit b (some sender_skip) h in
    let closed = rx_close_file-IsFit b none h in
    if-Holds (ltb_ℤ offset (pos 0)) _ _
      (λ _. write_short-IsFit env _ _ _ _ skipped (omega arith) nil-IsShort (omega arith))
      λ _.
        if-Holds (not (eqb_ℤ offset b.rx.position)) _ _
          (λ _. bad_position-IsFit env b offset true h)
          (λ _. write_short-IsFit env _ _ _ _ closed (omega arith) nil-IsShort (omega arith))

pub rx_on_eof_in-IsFit :
    (s : RxState) (env : Environment) (b : Batch) (pkt : Packet)
    → IsFit b
    → Holds IsFit (rx_on_eof_in s env b pkt)
unfolding rx_on_eof_in
rx_on_eof_in-IsFit rx_data env b pkt h =
    option-Holds (parse_offset pkt.payload) _ _ (ok-Holds h)
      (λ offset. take_eof-IsFit env b offset h)
rx_on_eof_in-IsFit rx_finfo env b pkt h =
    write_short-IsFit env b _ _ _ h (omega arith) nil-IsShort (omega arith)
rx_on_eof_in-IsFit rx_init env b pkt h = ok-Holds h
rx_on_eof_in-IsFit rx_done env b pkt h = ok-Holds h
