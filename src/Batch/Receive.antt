-- ===== src/Batch/Receive.antt =====
-- rx.go: the receive machine.
use go_hydra.Base.{
  ℕ, ◌+◌, ◌/◌, ◌%◌, ◌^◌, Bool, true, false, not, ◌&&◌, ◌||◌, [], ◌∷◌, Option, none, some, ltb, ◌==◌,
  if◌then◌else◌, Bytes, length, take, bit_and, bit_or,
}
use go_hydra.Base.Int.{ℤ, pos, negsuc, pos_part, ltb_ℤ, leb_ℤ, eqb_ℤ, add_ℕ}
use go_hydra.Constants.{
  ack_have_file, ack_defer, safe_max_offset, cap_escape, cap_union, prefix_max, pkt_initack,
  pkt_finfoack, pkt_dataack, pkt_rpos, pkt_eofack,
}
use go_hydra.Caps.{equal}
use go_hydra.BlockSize.{ladder}
use go_hydra.Config.{
  Error, skip, file_too_large, max_retries, handler_contract, incompatible, resume_out_of_range,
  sender_skip, FileInfo, local_supported, local_desired,
}
use go_hydra.FileInfo.{FileMeta, parse_finfo, is_finfo_eob}
use go_hydra.Packet.{Packet, marshal_offset, parse_offset, parse_data, marshal_rpos}
use go_hydra.Packet.Init.{InitPkt, parse_init}
use go_hydra.Batch.{
  rank, rend, RxState, rx_init, rx_finfo, rx_data, rx_done, announced, accepted, stored, rx_closed,
  rx_progress, rx_completed, Answer, Environment, Batch, Ran, ok, fail, ◌>>=◌, note, write_with,
  write, feed_braindead,
}

unfoldable pub merge_window : ℕ → ℕ → ℕ
merge_window peer local = if ltb 0 local && (peer == 0 || ltb local peer) then local else peer

-- A window that cannot be an offset is junk.
abbrev sane_window : ℕ → ℕ
sane_window w = if ltb safe_max_offset w then 0 else w

unfoldable pub effective_caps : Batch → InitPkt → ℕ
effective_caps b p =
    bit_and (bit_and (bit_or (bit_or (local_desired b.cfg) cap_union) p.desired) p.supported)
      (local_supported b.cfg)

unfoldable pub negotiate : Batch → InitPkt → Ran
unfolding merge_window effective_caps
negotiate b p =
    let eff = effective_caps b p in
    let vital = bit_and (local_desired b.cfg) cap_escape in
    if not (bit_and eff vital == vital)
    then fail incompatible b
    else ok (record b {
      link = record b.link {
        rx_window = merge_window (sane_window p.tx_window) (pos_part b.cfg.rx_window_bytes);
        tx_window = merge_window (sane_window p.rx_window) (pos_part b.cfg.tx_window_bytes);
        prefix = if ltb prefix_max (length p.prefix) then take prefix_max p.prefix else p.prefix;
        opts = eff;
        rx_opts = eff;
        negotiated = true;
      };
    })

abbrev pub set_rx_state : Batch → RxState → Batch
set_rx_state b s = record b { rx = record b.rx { state = s } }

-- The negotiation, which runs once.
unfoldable pub take_init : RxState → Batch → Packet → Ran
unfolding negotiate
take_init rx_init b pkt = elim (parse_init pkt.payload) [
  | none ↦ ok b
  | some p ↦ do b1 ← negotiate b p; ok (set_rx_state b1 rx_finfo)
]
take_init _ b pkt = ok b

unfoldable pub rx_on_init : Environment → Batch → Packet → Ran
unfolding take_init write_with
rx_on_init env b pkt = do b1 ← take_init b.rx.state b pkt; write env b1 pkt_initack []

-- `Close` on the writer that comes with a refusal, if there is one.
abbrev close_if : Bool → Batch → Batch
close_if writer b = if writer then note b rx_closed else b

-- A refusal: the writer closed, the handler told, the answer sent.
abbrev refuse : Batch → Bool → FileInfo → Error → ℤ → Batch × ℤ
refuse b writer info e ack = (note (close_if writer b) (rx_completed info 0 (some e)), ack)

-- FINFOACK(-1) where the handler has the file, FINFOACK(-2) for a later batch.
abbrev pub refusal_ack : Error → ℤ
refusal_ack skip = ack_have_file
refusal_ack _ = ack_defer

-- The answer of `AcceptFile`.
unfoldable pub take_answer : Batch → FileInfo → Answer → Batch × ℤ
take_answer b info a = elim a.err [
  | some e ↦ refuse b a.has_writer info e (refusal_ack e)
  | none ↦
      if not a.has_writer
      then refuse b false info handler_contract ack_defer
      else if ltb_ℤ a.offset (pos 0)
          || ltb_ℤ (pos safe_max_offset) a.offset
          || (ltb_ℤ (pos 0) info.size && ltb_ℤ info.size a.offset)
      then refuse b true info resume_out_of_range ack_defer
      else (
        record b {
          rx = record b.rx {
            files_rcvd = b.rx.files_rcvd + 1;
            writer = true;
            open_file = true;
            info = info;
            position = a.offset;
            retries = 0;
            sync_id = 0;
            last_sync = pos 0;
            timer = none;
            state = rx_data;
          };
          log = accepted info a.offset ∷ b.log;
        },
        a.offset,
      )
]

abbrev pub to_info : Batch → FileMeta → FileInfo
to_info b m = record {
  name = m.name;
  path = m.path;
  size = m.size;
  mod_time = if eqb_ℤ m.mtime (pos 0) then none else some m.mtime;
  file_num = if m.count == 0 then 0 else if b.rx.files_rcvd == 0 then 1 else m.count;
  file_total = if m.count == 0 then 0 else if b.rx.files_rcvd == 0 then m.count else 0;
}

unfoldable pub accept_finfo : Environment → Batch → Bytes → Batch × ℤ
unfolding take_answer
accept_finfo env b payload = elim (parse_finfo payload) [
  | none ↦ (b, ack_defer)
  | some m ↦
      let info = to_info b m in
      let b1 = note b (announced info) in
      if ltb_ℤ (pos safe_max_offset) info.size
      then refuse b1 false info file_too_large ack_defer
      else take_answer b1 info (env.accept_file b1.log info)
]

abbrev pub matches_refused : Option (Bytes × ℤ) → Bytes → Option ℤ
matches_refused none payload = none
matches_refused (some (old, ack)) payload = if equal payload old then some ack else none

-- The new announcement, and the cache of the last refusal.
unfoldable pub take_announcement : Environment → Batch → Bytes → Batch × ℤ
unfolding accept_finfo
take_announcement env b payload =
    let (b1, ack) = accept_finfo env b payload in
    (
      record b1 {
        rx = record b1.rx {
          last_refused = if ltb_ℤ ack (pos 0) then some (payload, ack) else none;
        };
      },
      ack,
    )

unfoldable pub take_finfo : RxState → Environment → Batch → Bytes → Batch × ℤ
unfolding take_announcement feed_braindead
take_finfo rx_finfo env b payload =
    let b1 = feed_braindead b in
    if is_finfo_eob payload
    then (set_rx_state b1 rx_done, pos 0)
    else (elim (matches_refused b.rx.last_refused payload) [
      | some ack ↦ (b1, ack)
      | none ↦ take_announcement env b1 payload
    ])
take_finfo rx_data env b payload = (b, b.rx.position)
take_finfo rx_done env b payload = (b, if is_finfo_eob payload then pos 0 else ack_defer)
take_finfo rx_init env b payload = (b, pos 0)

unfoldable pub rx_on_finfo : Environment → Batch → Packet → Ran
unfolding take_finfo write_with
rx_on_finfo env b pkt =
    let (b1, ack) = take_finfo b.rx.state env b pkt.payload in
    write env b1 pkt_finfoack (marshal_offset ack)

-- At most once for a file that was opened.
unfoldable pub rx_close_file : Batch → Option Error → Batch
rx_close_file b e =
    let log1 = if b.rx.writer then rx_closed ∷ b.log else b.log in
    if not b.rx.open_file then b else record b {
      rx = record b.rx { open_file = false; writer = false };
      log = rx_completed b.rx.info (pos_part b.rx.position) e ∷ log1;
    }

-- RPOS(-2) on a local failure.
unfoldable pub request_skip : Environment → Batch → Error → Ran
unfolding rx_close_file write_with
request_skip env b e =
    let b1 = rx_close_file b (some e) in
    let b2 = record b1 {
      rx = record b1.rx {
        position = negsuc 1;
        retries = 1;
        sync_id = (b1.rx.sync_id + 1) % 2 ^ 32;
        timer = some (b1.clock + pos_part b1.cfg.timeout);
      };
    } in
    write env b2 pkt_rpos
      (marshal_rpos (record { offset = negsuc 1; blocksize = 0; id = b2.rx.sync_id }))

abbrev pub before_timer : ℕ → Option ℕ → Bool
before_timer now none = false
before_timer now (some t) = ltb now t

-- The RPOS of an out-of-sync offset, behind the rate limit.
unfoldable pub ask_rpos : Environment → Batch → Bool → Ran
unfolding write_with ladder
ask_rpos env b is_eof =
    let one_way =
      not is_eof
      && ltb 4 b.rx.retries
      && ltb (rank b.tx.state) (rank rend)
      && not b.cfg.originator
      && not b.tx.hdxlink in
    let retries = (if one_way then 0 else b.rx.retries) + 1 in
    let b1 = record b {
      tx = record b.tx { hdxlink = b.tx.hdxlink || one_way };
      rx = record b.rx { retries = retries };
    } in
    let b2 = record b1 {
      rx = record b1.rx {
        sync_id = if retries == 1 then (b1.rx.sync_id + 1) % 2 ^ 32 else b1.rx.sync_id;
        blk_len = b1.rx.blk_len / 2;
        timer = some (b1.clock + pos_part b1.cfg.timeout);
      };
    } in
    if ltb_ℤ b.cfg.max_retries (pos retries)
    then fail max_retries b1
    else write env b2 pkt_rpos (
        marshal_rpos (record {
          offset = b2.rx.position;
          blocksize = ladder b2.rx.blk_len;
          id = b2.rx.sync_id;
        }))

unfoldable pub bad_position : Environment → Batch → ℤ → Bool → Ran
unfolding ask_rpos
bad_position env b offset is_eof =
    let rewound = leb_ℤ offset b.rx.last_sync in
    let b1 = record b {
      rx = record b.rx {
        timer = if rewound then none else b.rx.timer;
        retries = if rewound then 0 else b.rx.retries;
        last_sync = offset;
      };
    } in
    if before_timer b1.clock b1.rx.timer then ok b1 else ask_rpos env b1 is_eof

-- A block at the expected offset, once it has been stored.
unfoldable pub take_stored : Environment → Batch → Bytes → Ran
unfolding request_skip write_with
take_stored env b bytes =
    let b1 = record b {
      rx = record b.rx {
        retries = 0;
        timer = none;
        last_sync = b.rx.position;
        position = add_ℕ b.rx.position (length bytes);
      };
    } in
    let b2 = note b1 (rx_progress b1.rx.info b1.rx.position) in
    if ltb_ℤ (pos safe_max_offset) b1.rx.position
    then request_skip env b1 file_too_large
    else if ltb 0 b2.link.rx_window
    then write env b2 pkt_dataack (marshal_offset b2.rx.position)
    else ok b2

unfoldable pub take_block : Environment → Batch → Bytes → Ran
unfolding take_stored feed_braindead request_skip
take_block env b bytes =
    let b0 = feed_braindead b in
    let b1 = record b0 { rx = record b0.rx { blk_len = length bytes } } in
    if not b1.rx.writer then take_stored env b1 bytes else (elim (env.store b1.log bytes) [
      | some e ↦ request_skip env b1 e
      | none ↦ take_stored env (note b1 (stored bytes)) bytes
    ])

abbrev pub is_rx_data : RxState → Bool
is_rx_data rx_data = true
is_rx_data _ = false

unfoldable pub rx_on_data : Environment → Batch → Packet → Ran
unfolding take_block bad_position
rx_on_data env b pkt =
    if not (is_rx_data b.rx.state) then ok b else (elim (parse_data pkt.payload) [
      | none ↦ ok b
      | some d ↦
          if not (eqb_ℤ d.offset b.rx.position) || ltb_ℤ d.offset (pos 0)
          then bad_position env b d.offset false
          else take_block env b d.bytes
    ])

-- The end of the file in hand, acknowledged.
unfoldable pub take_eof : Environment → Batch → ℤ → Ran
unfolding rx_close_file bad_position write_with feed_braindead
take_eof env b offset =
    if ltb_ℤ offset (pos 0)
    then (let b1 = rx_close_file b (some sender_skip) in
        let b2 = record b1 { rx = record b1.rx { position = pos 0; state = rx_finfo } } in
        write env (feed_braindead b2) pkt_eofack [])
    else if not (eqb_ℤ offset b.rx.position)
    then bad_position env b offset true
    else write env (feed_braindead (set_rx_state (rx_close_file b none) rx_finfo)) pkt_eofack []

unfoldable pub rx_on_eof_in : RxState → Environment → Batch → Packet → Ran
unfolding take_eof write_with
rx_on_eof_in rx_data env b pkt = elim (parse_offset pkt.payload) [
  | none ↦ ok b
  | some offset ↦ take_eof env b offset
]
rx_on_eof_in rx_finfo env b pkt = write env b pkt_eofack []
rx_on_eof_in _ env b pkt = ok b

abbrev pub rx_on_eof : Environment → Batch → Packet → Ran
rx_on_eof env b pkt = rx_on_eof_in b.rx.state env b pkt
