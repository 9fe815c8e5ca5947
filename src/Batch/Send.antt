-- ===== src/Batch/Send.antt =====
-- tx.go: the transmit machine.
use go_hydra.Base.{
  ℕ, ◌+◌, ◌/◌, Bool, true, false, not, ◌&&◌, ◌||◌, List, [], ◌∷◌, Option, none, some, leb, ltb,
  ◌==◌, if◌then◌else◌, Bytes, length,
}
use go_hydra.Base.Int.{ℤ, pos, negsuc, pos_part, ltb_ℤ}
use go_hydra.Constants.{
  start_interval, offset_skip, safe_max_offset, cap_escape, cap_fpt, pkt_start, pkt_init, pkt_finfo,
  pkt_data, pkt_eof, pkt_end,
}
use go_hydra.Caps.{has, clear}
use go_hydra.BlockSize.{good, rpos}
use go_hydra.Config.{
  Error, skip, defer, file_too_large, max_retries, handler_contract, resume_out_of_range, FileOffer,
  FileInfo, local_supported, local_desired, idle,
}
use go_hydra.Filename.{tx_wire_name}
use go_hydra.FileInfo.{marshal_finfo, finfo_eob}
use go_hydra.Packet.{Packet, marshal_offset, parse_offset, marshal_data, RposPkt, parse_rpos}
use go_hydra.Packet.Init.{marshal_init}
use go_hydra.Batch.{
  TxState, start, swait, init, init_ack, finfo, finfo_ack, xdata, data_ack, xwait, eof, eof_ack,
  rend, end, end_ack, done, rank, autostarted, offered, no_more_files, offer_closed, sought,
  tx_progress, tx_completed, content, broken, Environment, Batch, Ran, ok, fail, ◌>>=◌, note,
  write_with, write_raw, write, feed_braindead, arm, arm_tx, set_tx_state, settle, give_up,
}

abbrev pub offer_info : FileOffer → FileInfo
offer_info o = record {
  name = o.name;
  path = o.path;
  size = o.size;
  mod_time = o.mod_time;
  file_num = 0;
  file_total = 0;
}

-- `closeOffer` on the offer in hand: its hook runs once.
unfoldable pub close_offer : Batch → Batch
close_offer b = elim b.tx.offer [
  | none ↦ b
  | some o ↦
      if o.has_close
      then record b {
        tx = record b.tx { offer = some (record o { has_close = false }) };
        log = offer_closed o ∷ b.log;
      }
      else b
]

-- An offer that is refused before it is announced.
unfoldable pub reject_offer : Batch → FileOffer → Error → Batch
reject_offer b o e =
    let b1 = if o.has_close then note b (offer_closed o) else b in
    note b1 (tx_completed (offer_info o) 0 (some e))

-- The loop of `sendFinfo` over the answers of `NextFile`.
unfoldable pub pick_offer : List FileOffer → Batch → Batch
unfolding reject_offer
pick_offer [] b = record b {
  tx = record b.tx { batch_ended = true };
  files = [];
  log = no_more_files ∷ b.log;
}
pick_offer (o ∷ files) b =
    let b1 = record b { files = files; log = offered o ∷ b.log } in
    let too_large = ltb_ℤ o.size (pos 0) || ltb_ℤ (pos safe_max_offset) o.size in
    let rest =
      pick_offer files
        (reject_offer b1 o (if too_large then file_too_large else handler_contract)) in
    if too_large || not o.has_reader
    then rest
    else record b1 { tx = record b1.tx { offer = some o } }

abbrev pub unix_time : Option ℤ → ℤ
unix_time none = pos 0
unix_time (some t) = t

-- The file to announce: the one in hand, or the next one.
unfoldable pub next_offer : Option FileOffer → Batch → Batch
unfolding pick_offer
next_offer (some _) b = b
next_offer none b = if b.tx.batch_ended then b else pick_offer b.files b

-- The FINFO payload of that file, or of the end of the batch, cached for retransmission.
unfoldable pub announce : Option FileOffer → Batch → Batch
unfolding tx_wire_name marshal_finfo
announce none b = record b { tx = record b.tx { eob = true; last_finfo = some finfo_eob } }
announce (some o) b = record b {
  tx = record b.tx {
    eob = false;
    info = offer_info o;
    seeker = o.is_seeker;
    position = 0;
    skip = false;
    err = none;
    last_finfo = some (
        marshal_finfo
          (record {
            mtime = unix_time o.mod_time;
            size = o.size;
            txid = 0;
            count = 0;
            name = tx_wire_name o.name;
            path = o.path;
          })
          (has b.link.opts cap_fpt));
  };
}

unfoldable pub prepare_finfo : Batch → Batch
unfolding next_offer announce
prepare_finfo b = let b1 = next_offer b.tx.offer b in announce b1.tx.offer b1

abbrev pub payload_or_empty : Option Bytes → Bytes
payload_or_empty none = []
payload_or_empty (some p) = p

unfoldable pub prepare_if : Option Bytes → Batch → Batch
unfolding prepare_finfo
prepare_if none b = prepare_finfo b
prepare_if (some _) b = b

unfoldable pub send_finfo : Environment → Batch → Ran
unfolding prepare_if
send_finfo env b =
    let b1 = prepare_if b.tx.last_finfo b in
    write env b1 pkt_finfo (payload_or_empty b1.tx.last_finfo)

unfoldable pub send_init : Environment → Batch → Ran
unfolding write_with
send_init env b =
    write_with env b pkt_init
      (marshal_init (record {
        app_id = b.cfg.app_id;
        supported = local_supported b.cfg;
        desired = local_desired b.cfg;
        tx_window = pos_part b.cfg.tx_window_bytes;
        rx_window = pos_part b.cfg.rx_window_bytes;
        prefix = [];
      }))
      (clear b.link.opts cap_escape)

abbrev productive_in : Batch → TxState → Batch
productive_in b s = record b { tx = record b.tx { state = s; productive = true } }

-- The file in hand is given up, and the loop goes on at once.
abbrev abandon : Batch → Option Error → Batch
abandon b e = record b { tx = record b.tx { err = e; skip = true; state = eof; productive = true } }

-- The block that was read, behind its checks.
unfoldable pub send_block : Environment → Batch → Bytes → Ran
unfolding write_with good arm_tx
send_block env b block =
    let n = length block in
    if n == 0
    then ok (productive_in b eof)
    else if ltb safe_max_offset (b.tx.position + n)
    then ok (abandon b (some file_too_large))
    else do
      b1 ← write env b pkt_data (marshal_data (pos b.tx.position) block)
      let position = b1.tx.position + n
      let b2 = record b1 {
        tx = record b1.tx { position = position; blk = good b1.tx.blk n };
        log = tx_progress b1.tx.info position ∷ b1.log;
      }
      if ltb 0 b2.link.tx_window && leb (b2.tx.last_ack + b2.link.tx_window) position
          then ok (set_tx_state (arm_tx b2) data_ack)
          else ok (record b2 { tx = record b2.tx { productive = true } })

unfoldable pub send_data : Environment → Batch → Ran
unfolding send_block
send_data env b =
    if b.tx.skip then ok (productive_in b eof) else (elim (env.source b.log b.tx.blk.cur) [
      | broken e ↦ ok (abandon b (some e))
      | content block ↦ send_block env b block
    ])

unfoldable pub tx_action_in : TxState → Environment → Batch → Ran
unfolding write_with send_init send_finfo send_data arm_tx
tx_action_in start env b = do
  b1 ← write_raw env b autostarted
  b2 ← write env b1 pkt_start []
  ok (set_tx_state (arm b2 start_interval) swait)
tx_action_in init env b = do
  b1 ← send_init env b
  ok (set_tx_state (arm b1 (pos_part b.cfg.timeout / 2)) init_ack)
tx_action_in finfo env b = do
  b1 ← send_finfo env b
  ok (set_tx_state (arm_tx (record b1 { tx = record b1.tx { finfo_ack_wait = true } })) finfo_ack)
tx_action_in xdata env b = send_data env b
tx_action_in eof env b = do
  b1 ← write env b pkt_eof (marshal_offset (if b.tx.skip then offset_skip else pos b.tx.position))
  ok (set_tx_state (arm_tx (record b1 { tx = record b1.tx { eof_ack_wait = true } })) eof_ack)
tx_action_in end env b = do
  b1 ← write env b pkt_end []
  b2 ← write env b1 pkt_end []
  ok (set_tx_state (arm b2 (pos_part b.cfg.timeout / 2)) end_ack)
tx_action_in _ env b = ok b

abbrev pub tx_action : Environment → Batch → Ran
tx_action env b = tx_action_in b.tx.state env b

unfoldable pub finish_tx_file : Batch → Batch
unfolding close_offer
finish_tx_file b =
    let b1 = close_offer b in
    record b1 {
      tx = record b1.tx {
        offer = none;
        seeker = false;
        skip = false;
        err = none;
        last_finfo = none;
        retries = 0;
        timer = none;
        finfo_ack_wait = false;
        eof_ack_wait = false;
        files_sent = b1.tx.files_sent + 1;
        state = finfo;
      };
    }

-- Close, report and drop the file in hand.
abbrev pub complete_tx : Batch → ℕ → Option Error → Batch
complete_tx b n e = let b1 = close_offer b in finish_tx_file (note b1 (tx_completed b1.tx.info n e))

-- The seek to `offset`: the file is read from there in state `resumed`, or is given up.
unfoldable pub seek_to : Environment → Batch → ℕ → TxState → Batch
seek_to env b offset resumed =
    if not b.tx.seeker
    then give_up b (some resume_out_of_range)
    else (elim (env.seek b.log offset) [
      | some e ↦ give_up (note b (sought offset)) (some e)
      | none ↦ record b {
        tx = record b.tx { position = offset; state = resumed };
        log = sought offset ∷ b.log;
      }
    ])

-- FINFOACK, once the answer has been parsed: the offset is `none` for the end of the batch.
unfoldable pub take_finfo_ack : Environment → Batch → Option ℤ → Batch
unfolding seek_to finish_tx_file close_offer feed_braindead
take_finfo_ack env b answer =
    let b0 = record b { tx = record b.tx { finfo_ack_wait = false } } in
    let b1 = feed_braindead b0 in
    let b2 = record b1 { tx = record b1.tx { retries = 0; timer = none; last_finfo = none } } in
    elim answer [
      | none ↦ set_tx_state (arm b2 (idle b2.cfg)) rend
      | some (pos n) ↦
          let b3 = record b2 { tx = record b2.tx { position = n; last_ack = n } } in
          if ltb_ℤ b2.tx.info.size (pos n)
          then give_up b2 (some resume_out_of_range)
          else if ltb 0 n
          then seek_to env b3 n xdata
          else set_tx_state b3 xdata
      | some (negsuc n) ↦ complete_tx b2 0 (some (if n == 0 then skip else defer))
    ]

abbrev pub in_finfo : TxState → Bool
in_finfo finfo = true
in_finfo finfo_ack = true
in_finfo _ = false

unfoldable pub tx_finfo_ack : Environment → Batch → Packet → Batch
unfolding take_finfo_ack
tx_finfo_ack env b pkt =
    if not b.tx.finfo_ack_wait || not (in_finfo b.tx.state)
    then b
    else if b.tx.eob
    then take_finfo_ack env b none
    else (elim (parse_offset pkt.payload) [
      | none ↦ b
      | some offset ↦ take_finfo_ack env b (some offset)
    ])

-- The states in which a file's data is under way.
abbrev pub transferring : TxState → Bool
transferring xdata = true
transferring data_ack = true
transferring xwait = true
transferring eof = true
transferring eof_ack = true
transferring _ = false

abbrev pub is_data_ack : TxState → Bool
is_data_ack data_ack = true
is_data_ack _ = false

unfoldable pub tx_data_ack : Batch → Packet → Batch
tx_data_ack b pkt =
    if not (transferring b.tx.state) || b.link.tx_window == 0
    then b
    else (elim (parse_offset pkt.payload) [
      | none ↦ b
      | some ack ↦
          let last_ack = if ltb_ℤ (pos b.tx.last_ack) ack then pos_part ack else b.tx.last_ack in
          let b1 = record b { tx = record b.tx { peer_acked = true; last_ack = last_ack } } in
          if is_data_ack b.tx.state && ltb b.tx.position (last_ack + b.link.tx_window)
          then settle b1 xdata
          else b1
    ])

abbrev or_skip : Option Error → Option Error
or_skip none = some skip
or_skip (some e) = some e

abbrev resumed_from : TxState → TxState
resumed_from xwait = xwait
resumed_from _ = xdata

-- A new resync: the transmitter goes where the receiver asks.
unfoldable pub take_rpos : Environment → Batch → RposPkt → Batch
unfolding rpos seek_to
take_rpos env b rp =
    let b1 = record b { tx = record b.tx { sync_id = rp.id; retries = 1; timer = none } } in
    elim rp.offset [
      | negsuc _ ↦ give_up b1 (or_skip b1.tx.err)
      | pos n ↦
          let b2 = record b1 { tx = record b1.tx { blk = rpos b1.tx.blk rp.blocksize } } in
          if ltb_ℤ b2.tx.info.size (pos n)
          then give_up b2 (some resume_out_of_range)
          else seek_to env b2 n (resumed_from b2.tx.state)
    ]

unfoldable pub tx_rpos : Environment → Batch → Packet → Ran
unfolding take_rpos
tx_rpos env b pkt = if not (transferring b.tx.state) then ok b else (elim (parse_rpos pkt.payload) [
  | none ↦ ok b
  | some rp ↦
      let b1 = record b { tx = record b.tx { retries = b.tx.retries + 1 } } in
      if rp.id == b.tx.sync_id
      then (if ltb_ℤ b.cfg.max_retries (pos b1.tx.retries) then fail max_retries b1 else ok b1)
      else ok (take_rpos env b rp)
])

abbrev in_eof : TxState → Bool
in_eof eof = true
in_eof eof_ack = true
in_eof _ = false

unfoldable pub tx_eof_ack : Batch → Batch
unfolding finish_tx_file close_offer feed_braindead
tx_eof_ack b =
    let b1 = feed_braindead (record b { tx = record b.tx { eof_ack_wait = false } }) in
    if not b.tx.eof_ack_wait || not (in_eof b.tx.state)
    then b
    else complete_tx b1 b1.tx.position (if b1.tx.skip then or_skip b1.tx.err else none)

abbrev is_xwait : TxState → Bool
is_xwait xwait = true
is_xwait _ = false

unfoldable pub tx_idle : Batch → Batch
unfolding feed_braindead
tx_idle b =
    if is_xwait b.tx.state
    then settle (record b { tx = record b.tx { hdxlink = false } }) xdata
    else if leb (rank finfo) (rank b.tx.state) && ltb (rank b.tx.state) (rank rend)
    then feed_braindead b
    else b

abbrev in_end : TxState → Bool
in_end end = true
in_end end_ack = true
in_end _ = false

unfoldable pub tx_end : Environment → Batch → Ran
unfolding write_with
tx_end env b = if not (in_end b.tx.state) then ok b else do
  b1 ← write env b pkt_end []
  b2 ← write env b1 pkt_end []
  b3 ← write env b2 pkt_end []
  ok (record b3 { tx = record b3.tx { timer = none; state = done } })
