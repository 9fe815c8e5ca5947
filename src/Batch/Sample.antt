-- ===== src/Batch/Sample.antt =====
-- A whole batch with a remote that answers.
use go_hydra.Base.{
  ℕ, ◌≡◌, refl, Bool, true, false, List, [], ◌∷◌, Option, none, some, Bytes, leb, ◌==◌, ◌&&◌, ◌++◌,
  take, get_elem?,
}
use go_hydra.Base.Int.{pos}
use go_hydra.Constants.{
  pkt_start, pkt_init, pkt_initack, pkt_finfo, pkt_finfoack, pkt_eof, pkt_eofack, pkt_end, pkt_data,
}
use go_hydra.Config.{
  Config, Error, FileOffer, FileInfo, defaults, local_supported, local_desired, baud_timeout,
  connection_lost,
}
use go_hydra.Caps.{clear}
use go_hydra.FileInfo.{FileMeta, marshal_finfo, finfo_eob}
use go_hydra.Packet.{Packet, marshal_offset, marshal_data}
use go_hydra.Packet.Init.{InitPkt, marshal_init}
use go_hydra.Batch.{
  Event, sent, tx_progress, Answer, Source, content, Environment, Batch, Ran, ok, new_batch,
  feed_braindead, rank, finfo, end, rx_init, rx_done,
}
use go_hydra.Batch.Receive.{negotiate, effective_caps}
use go_hydra.Batch.Loop.{Item, arrived, Pass, inbox, stopped, is_rx_done, run, run_loop, Ended}
use go_hydra.Batch.Induction.{state_of}
use go_hydra.Batch.Offers.{offers}
use go_hydra.Batch.Arrivals.{rx_reports}

abbrev pub cfg : Config
cfg = record {
  originator = true;
  effective_baud = pos 0;
  app_id = b'0' ∷ [];
  supported = [];
  desired = [];
  tx_window_bytes = pos 0;
  rx_window_bytes = pos 4096;
  timeout = pos 20;
  brain_dead = pos 120;
  max_retries = pos 10;
  max_block_size = pos 2048;
  idle_override = pos 0;
}

abbrev pub offered_file : FileOffer
offered_file = record {
  name = b'a' ∷ [];
  path = [];
  size = pos 3;
  mod_time = none;
  has_reader = true;
  is_seeker = false;
  has_close = true;
}

-- The file has three bytes, which the first read gives.
abbrev pub read_once : ℕ → List Event → Source
read_once n [] = content (take n (1 ∷ 2 ∷ 3 ∷ []))
read_once n (tx_progress _ _ ∷ log) = content []
read_once n (_ ∷ log) = read_once n log

abbrev pub env : Environment
env = record {
  transport = λ log. none;
  source = λ log n. read_once n log;
  seek = λ log n. none;
  accept_file = λ log info. record { has_writer = true; offset = pos 0; err = none };
  store = λ log bytes. none;
  has_device_handler = false;
}

abbrev pub peer_init : InitPkt
peer_init = record {
  app_id = b'1' ∷ [];
  supported = local_supported cfg;
  desired = local_desired cfg;
  tx_window = 0;
  rx_window = 4096;
  prefix = [];
}

abbrev pub items : List Packet → List Item
items [] = []
items (p ∷ pkts) = arrived p ∷ items pkts

abbrev pub pass : List Packet → Pass
pass pkts = record { now = 1; drained = items pkts; ctx_err = none; wake = inbox [] }

abbrev pub packet : ℕ → Bytes → Packet
packet typ payload = record { typ = typ; payload = payload }

abbrev pub opening : List Pass
opening =
    pass (packet pkt_start [] ∷ [])
    ∷ pass (packet pkt_init (marshal_init peer_init) ∷ packet pkt_initack [] ∷ [])
    ∷ []

-- The remote takes our file, and announces one of its own, of which it sends two bytes.
abbrev pub remote_file : FileMeta
remote_file = record {
  mtime = pos 0;
  size = pos 2;
  txid = 0;
  count = 1;
  name = b'z' ∷ [];
  path = [];
}

abbrev pub transfer : List Pass
transfer =
    pass (
      packet pkt_finfoack (marshal_offset (pos 0))
      ∷ packet pkt_finfo (marshal_finfo remote_file false)
      ∷ [])
    ∷ pass (packet pkt_data (marshal_data (pos 0) (7 ∷ 8 ∷ [])) ∷ [])
    ∷ pass []
    ∷ []

abbrev pub closing : List Pass
closing =
    pass (packet pkt_eofack [] ∷ packet pkt_eof (marshal_offset (pos 2)) ∷ [])
    ∷ pass (packet pkt_finfoack (marshal_offset (pos 0)) ∷ packet pkt_finfo finfo_eob ∷ [])
    ∷ pass (packet pkt_end [] ∷ [])
    ∷ []

abbrev pub whole_batch : List Pass
whole_batch = opening ++ (transfer ++ closing)

abbrev pub start_batch : Batch
start_batch = new_batch cfg (offered_file ∷ [])

abbrev pub has_no_error : Option Error → Bool
has_no_error none = true
has_no_error (some e) = false

abbrev pub is_clean : Ended → Bool
is_clean r =
    has_no_error r.err
    && leb 15 (rank r.batch.tx.state)
    && (offers r.batch.log == 1)
    && (rx_reports r.batch.log == 1)

abbrev pub mid_batch : Batch
mid_batch = state_of (run_loop env (opening ++ transfer) (feed_braindead start_batch))

-- The connection is lost when only the last END is missing.
abbrev pub lost : List Pass
lost = record { now = 1; drained = []; ctx_err = none; wake = stopped (connection_lost 0) } ∷ []

abbrev pub until_lost : List Pass
until_lost = opening ++ (transfer ++ (take 2 closing ++ lost))

abbrev pub lost_batch : Batch
lost_batch = (run env until_lost start_batch).batch

-- The whole batch ends without an error and with one report each way; in its middle the receive
-- file is open, behind two bytes; and it is in its closing exchange when the connection is
-- lost. Where it is lost at once, the run ends with that error, outside its closing exchange. The
-- fifth event from the middle backwards is the DATA frame of our file.
pub runs :
    (is_clean (run env whole_batch start_batch) ≡ true)
    × (mid_batch.rx.open_file ≡ true)
    × (mid_batch.rx.position ≡ pos 2)
    × (leb
          (rank end)
          (rank (state_of (run_loop env until_lost (feed_braindead start_batch))).tx.state)
        ≡ true)
    × (leb (rank end) (rank lost_batch.tx.state) && is_rx_done lost_batch.rx.state ≡ true)
    × ((run env lost start_batch).err ≡ some (connection_lost 0))
    × (leb (rank end) (rank (run env lost start_batch).batch.tx.state) ≡ false)
    × ((run env whole_batch start_batch).err ≡ none)
    × (get_elem? mid_batch.log 4
        ≡ some (sent pkt_data (marshal_data (pos 0) (1 ∷ 2 ∷ 3 ∷ [])) 1792 []))
unfolding go_hydra.Caps.has go_hydra.Caps.cap_order go_hydra.Caps.equal go_hydra.Caps.to_upper
    go_hydra.Caps.find_cap go_hydra.Caps.parse_codes go_hydra.Caps.parse_caps
    go_hydra.Caps.write_caps go_hydra.Config.local_supported go_hydra.Config.local_desired
    go_hydra.Config.idle go_hydra.Format.hex_digit go_hydra.Format.hex_digits go_hydra.Format.hex08
    go_hydra.Format.hex_value go_hydra.Format.skip_space go_hydra.Format.scan_digits
    go_hydra.Format.scan_hex08 go_hydra.Format.split go_hydra.Format.join go_hydra.Format.trim_left
    go_hydra.Format.trim_right go_hydra.Format.trim_space go_hydra.FileInfo.marshal_finfo
    go_hydra.FileInfo.is_finfo_eob go_hydra.FileInfo.cut_nul go_hydra.FileInfo.parse_finfo
    go_hydra.Packet.le32 go_hydra.Packet.read_le32 go_hydra.Packet.marshal_offset
    go_hydra.Packet.parse_offset go_hydra.Packet.marshal_data go_hydra.Packet.parse_data
    go_hydra.Packet.marshal_rpos go_hydra.Packet.parse_rpos go_hydra.Packet.marshal_dev_ack
    go_hydra.Packet.parse_dev_ack go_hydra.Packet.Init.marshal_init
    go_hydra.Packet.Init.parse_windows go_hydra.Packet.Init.parse_init
    go_hydra.BlockSize.new_block_sizer go_hydra.BlockSize.good go_hydra.BlockSize.ladder
    go_hydra.BlockSize.rpos go_hydra.Filename.replace_all go_hydra.Filename.strip_slashes
    go_hydra.Filename.last_element go_hydra.Filename.base go_hydra.Filename.sanitize_filename
    go_hydra.Filename.tx_wire_name go_hydra.Batch.new_batch go_hydra.Batch.write_with
    go_hydra.Batch.feed_braindead go_hydra.Batch.arm_tx go_hydra.Batch.Send.close_offer
    go_hydra.Batch.Send.reject_offer go_hydra.Batch.Send.pick_offer go_hydra.Batch.Send.next_offer
    go_hydra.Batch.Send.announce go_hydra.Batch.Send.prepare_finfo go_hydra.Batch.Send.prepare_if
    go_hydra.Batch.Send.send_finfo go_hydra.Batch.Send.send_init go_hydra.Batch.Send.send_block
    go_hydra.Batch.Send.send_data go_hydra.Batch.Send.tx_action_in
    go_hydra.Batch.Send.finish_tx_file go_hydra.Batch.Send.seek_to
    go_hydra.Batch.Send.take_finfo_ack go_hydra.Batch.Send.tx_finfo_ack
    go_hydra.Batch.Send.tx_eof_ack go_hydra.Batch.Send.tx_end go_hydra.Batch.Receive.merge_window
    go_hydra.Batch.Receive.effective_caps go_hydra.Batch.Receive.negotiate
    go_hydra.Batch.Receive.take_init go_hydra.Batch.Receive.rx_on_init
    go_hydra.Batch.Receive.take_answer go_hydra.Batch.Receive.accept_finfo
    go_hydra.Batch.Receive.take_announcement go_hydra.Batch.Receive.take_finfo
    go_hydra.Batch.Receive.rx_on_finfo go_hydra.Batch.Receive.rx_close_file
    go_hydra.Batch.Receive.take_stored go_hydra.Batch.Receive.take_block
    go_hydra.Batch.Receive.rx_on_data go_hydra.Batch.Receive.take_eof
    go_hydra.Batch.Receive.rx_on_eof_in go_hydra.Batch.Device.promote
    go_hydra.Batch.Device.send_pending go_hydra.Batch.Device.dev_action go_hydra.Batch.Loop.sync_in
    go_hydra.Batch.Loop.on_start go_hydra.Batch.Loop.on_initack go_hydra.Batch.Loop.handle_packet
    go_hydra.Batch.Loop.tx_timeout go_hydra.Batch.Loop.fire_dev_timer
    go_hydra.Batch.Loop.fire_timers go_hydra.Batch.Loop.drain go_hydra.Batch.Loop.take_wake
    go_hydra.Batch.Loop.pump_rest go_hydra.Batch.Loop.pump go_hydra.Batch.Loop.turn
    go_hydra.Batch.Loop.run_loop go_hydra.Batch.Loop.teardown go_hydra.Batch.Loop.run
runs = (refl, refl, refl, refl, refl, refl, refl, refl, refl)
