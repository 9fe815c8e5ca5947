-- ===== src/Batch/Storage/Receiving.antt =====
-- rx.go: a file is written without gaps: the operations of the receiver.
use go_hydra.Base.{
  ℕ, ◌≡◌, Bool, true, false, not, ◌||◌, ltb, Bool-cases, inl, inr, Option, none, some, Bytes, arith,
  ◌+◌, ◌%◌, ◌^◌, length,
}
use go_hydra.Base.Int.{ℤ, pos, negsuc, ltb_ℤ, eqb_ℤ, add_ℕ, pos_part}
use go_hydra.Config.{FileInfo, Error, file_too_large}
use go_hydra.Constants.{safe_max_offset}
use go_hydra.Packet.{Packet, parse_offset, parse_data}
use go_hydra.FileInfo.{parse_finfo}
use go_hydra.Batch.{
  RxState, rx_init, rx_finfo, rx_data, rx_done, Answer, announced, stored, rx_progress, Environment,
  Batch, note, write_with, feed_braindead,
}
use go_hydra.Batch.Receive.{
  negotiate, take_init, rx_on_init, take_answer, accept_finfo, take_announcement, take_finfo,
  rx_on_finfo, rx_close_file, request_skip, ask_rpos, bad_position, take_stored, take_block,
  rx_on_data, take_eof, rx_on_eof_in, to_info, is_rx_data,
}
use go_hydra.Batch.Induction.{
  Holds, ok-Holds, bind-Holds, if-Holds, option-Holds, option-ind, if-ind, write_with-Holds,
}
use go_hydra.Batch.Storage.{IsContiguous}

take_init-IsContiguous :
    (b : Batch) (pkt : Packet) → IsContiguous b → Holds IsContiguous (take_init b.rx.state b pkt)
unfolding take_init negotiate
take_init-IsContiguous b pkt h = record { at = ground arith }

pub rx_on_init-IsContiguous :
    (env : Environment) (b : Batch) (pkt : Packet)
    → IsContiguous b
    → Holds IsContiguous (rx_on_init env b pkt)
unfolding rx_on_init
rx_on_init-IsContiguous env b pkt h =
    bind-Holds (take_init b.rx.state b pkt) _ (take_init-IsContiguous b pkt h)
      λ b1 h1. write_with-Holds env b1 _ _ _ h1 h1

take_answer-IsContiguous :
    (b : Batch) (info : FileInfo) (a : Answer)
    → IsContiguous b
    → IsContiguous (take_answer b info a).0
unfolding take_answer
take_answer-IsContiguous b info a h = ground arith

accept_finfo-IsContiguous :
    (env : Environment) (b : Batch) (payload : Bytes)
    → IsContiguous b
    → IsContiguous (accept_finfo env b payload).0
unfolding accept_finfo
accept_finfo-IsContiguous env b payload h =
    option-ind (λ (p : Batch × ℤ). IsContiguous p.0) (parse_finfo payload) _ _ h
      λ m.
        let info = to_info b m in
        let b1 = note b (announced info) in
        if-ind (λ (p : Batch × ℤ). IsContiguous p.0) (ltb_ℤ (pos safe_max_offset) info.size) _ _
          (λ _. h) (λ _. take_answer-IsContiguous b1 info (env.accept_file b1.log info) h)

take_finfo-IsContiguous :
    (env : Environment) (b : Batch) (payload : Bytes)
    → IsContiguous b
    → IsContiguous (take_finfo b.rx.state env b payload).0
unfolding take_finfo take_announcement feed_braindead
take_finfo-IsContiguous env b payload h =
    ground (arith, accept_finfo-IsContiguous env (feed_braindead b) payload)

pub rx_on_finfo-IsContiguous :
    (env : Environment) (b : Batch) (pkt : Packet)
    → IsContiguous b
    → Holds IsContiguous (rx_on_finfo env b pkt)
unfolding rx_on_finfo
rx_on_finfo-IsContiguous env b pkt h =
    let h1 = take_finfo-IsContiguous env b pkt.payload h in write_with-Holds env _ _ _ _ h1 h1

rx_close_file-IsContiguous :
    (b : Batch) (e : Option Error) → IsContiguous b → IsContiguous (rx_close_file b e)
unfolding rx_close_file
rx_close_file-IsContiguous b e h = ground arith

rx_close_file-closed : (b : Batch) (e : Option Error) → (rx_close_file b e).rx.open_file ≡ false
unfolding rx_close_file
rx_close_file-closed b e = ground arith

closed-IsContiguous : (b : Batch) → b.rx.open_file ≡ false → IsContiguous b
closed-IsContiguous b e = ground arith

request_skip-IsContiguous :
    (env : Environment) (b : Batch) (e : Error) → Holds IsContiguous (request_skip env b e)
unfolding request_skip
request_skip-IsContiguous env b e =
    let b1 = rx_close_file b (some e) in
    let b2 = record b1 {
      rx = record b1.rx {
        position = negsuc 1;
        retries = 1;
        sync_id = (b1.rx.sync_id + 1) % 2 ^ 32;
        timer = some (b1.clock + pos_part b1.cfg.timeout);
      };
    } in
    let h : IsContiguous b2 = closed-IsContiguous b2 (rx_close_file-closed b (some e)) in
    write_with-Holds env b2 _ _ _ h h

ask_rpos-IsContiguous :
    (env : Environment) (b : Batch) (is_eof : Bool)
    → IsContiguous b
    → Holds IsContiguous (ask_rpos env b is_eof)
unfolding ask_rpos write_with
ask_rpos-IsContiguous env b is_eof h = record { at = ground arith }

bad_position-IsContiguous :
    (env : Environment) (b : Batch) (offset : ℤ) (is_eof : Bool)
    → IsContiguous b
    → Holds IsContiguous (bad_position env b offset is_eof)
unfolding bad_position ask_rpos write_with
bad_position-IsContiguous env b offset is_eof h = record { at = ground arith }

-- The position that the block in hand leads to has to fit.
abbrev moved : Batch → ℕ → Batch
moved b n = record b { rx = record b.rx { position = add_ℕ b.rx.position n } }

take_stored-IsContiguous :
    (env : Environment) (b : Batch) (bytes : Bytes)
    → IsContiguous (moved b (length bytes))
    → Holds IsContiguous (take_stored env b bytes)
unfolding take_stored
take_stored-IsContiguous env b bytes h =
    let b1 = record b {
      rx = record b.rx {
        retries = 0;
        timer = none;
        last_sync = b.rx.position;
        position = add_ℕ b.rx.position (length bytes);
      };
    } in
    let b2 = note b1 (rx_progress b1.rx.info b1.rx.position) in
    if-Holds (ltb_ℤ (pos safe_max_offset) b1.rx.position) _ _
      (λ _. request_skip-IsContiguous env b1 file_too_large)
      (λ _.
        if-Holds (ltb 0 b2.link.rx_window) _ _ (λ _. write_with-Holds env b2 _ _ _ h h)
          (λ _. ok-Holds h))

unwritten : (b : Batch) (n : ℕ) → not b.rx.writer ≡ true → IsContiguous b → IsContiguous (moved b n)
unwritten b n w h = ground arith

written_on :
    (b : Batch) (bytes : Bytes)
    → IsContiguous b
    → IsContiguous (moved (note b (stored bytes)) (length bytes))
written_on b bytes h = elim (Bool-cases b.rx.open_file) [
  | inl e ↦ (ground arith, h.1, h.2)
  | inr e ↦ (ground arith, h.1, h.2)
]

take_block-IsContiguous :
    (env : Environment) (b : Batch) (bytes : Bytes)
    → IsContiguous b
    → Holds IsContiguous (take_block env b bytes)
unfolding take_block feed_braindead
take_block-IsContiguous env b bytes h =
    let b0 = feed_braindead b in
    let b1 = record b0 { rx = record b0.rx { blk_len = length bytes } } in
    if-Holds (not b.rx.writer) _ _
      (λ w. take_stored-IsContiguous env b1 bytes (unwritten b (length bytes) w h))
      λ _.
        option-Holds (env.store b.log bytes) _ _
          (take_stored-IsContiguous env (note b1 (stored bytes)) bytes (written_on b bytes h))
          (λ e. request_skip-IsContiguous env b1 e)

pub rx_on_data-IsContiguous :
    (env : Environment) (b : Batch) (pkt : Packet)
    → IsContiguous b
    → Holds IsContiguous (rx_on_data env b pkt)
unfolding rx_on_data
rx_on_data-IsContiguous env b pkt h =
    if-Holds (not (is_rx_data b.rx.state)) _ _ (λ _. ok-Holds h)
      λ _. option-Holds (parse_data pkt.payload) _ _ (ok-Holds h) λ d.
        if-Holds (not (eqb_ℤ d.offset b.rx.position) || ltb_ℤ d.offset (pos 0)) _ _
          (λ _. bad_position-IsContiguous env b d.offset false h)
          (λ _. take_block-IsContiguous env b d.bytes h)

take_eof-IsContiguous :
    (env : Environment) (b : Batch) (offset : ℤ)
    → IsContiguous b
    → Holds IsContiguous (take_eof env b offset)
unfolding take_eof feed_braindead rx_close_file
take_eof-IsContiguous env b offset h =
    if-Holds (ltb_ℤ offset (pos 0)) _ _
      (λ _. write_with-Holds env _ _ _ _ (ground arith) (ground arith))
      λ _.
        if-Holds (not (eqb_ℤ offset b.rx.position)) _ _
          (λ _. bad_position-IsContiguous env b offset true h)
          (λ _. write_with-Holds env _ _ _ _ (ground arith) (ground arith))

pub rx_on_eof_in-IsContiguous :
    (s : RxState) (env : Environment) (b : Batch) (pkt : Packet)
    → s ≡ b.rx.state
    → IsContiguous b
    → Holds IsContiguous (rx_on_eof_in s env b pkt)
unfolding rx_on_eof_in
rx_on_eof_in-IsContiguous rx_data env b pkt e h =
    option-Holds (parse_offset pkt.payload) _ _ (ok-Holds h)
      (λ offset. take_eof-IsContiguous env b offset h)
rx_on_eof_in-IsContiguous rx_finfo env b pkt e h = write_with-Holds env b _ _ _ h h
rx_on_eof_in-IsContiguous rx_init env b pkt e h = ok-Holds h
rx_on_eof_in-IsContiguous rx_done env b pkt e h = ok-Holds h
