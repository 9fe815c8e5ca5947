-- ===== src/Batch/Runs.antt =====
-- The theorems at a batch with a remote that answers.
use go_hydra.Base.{
  if◌then◌else◌, ℕ, List, Bytes, ◌+◌, length, ◌≡◌, refl, true, [], ◌∷◌, none, some, false, arith,
  leb, ◌++◌, ◌≢◌,
}
use go_hydra.Base.Int.{pos}
use go_hydra.Config.{Config, local_supported, local_desired}
use go_hydra.Packet.Init.{InitPkt}
use go_hydra.Batch.{
  Environment, Batch, ok, ◌>>=◌, new_batch, feed_braindead, rank, finfo, end, rx_init, rx_done,
  rx_data, xdata,
}
use go_hydra.Packet.{Packet, marshal_data, parse_data}
use go_hydra.Batch.Receive.{rx_on_data, negotiate, effective_caps}
use go_hydra.Batch.Loop.{run, run_loop, teardown, drain, Item, arrived, Pass, timer}
use go_hydra.Batch.Silence.{IsDue, is_over}
use go_hydra.Batch.Silence.Always.{run_loop-is_over}
use go_hydra.Batch.Delivery.{deliveries, stream, behind, AreNumbered, IsListening, drain-stream}
use go_hydra.Packet.Device.{DevDataPkt}
use go_hydra.Batch.Transfer.{packets, contents, joined, IsReceiving, IsWilling}
use go_hydra.Batch.Transfer.Sending.{send_blocks, IsSending}
use go_hydra.Constants.{pkt_data}
use go_hydra.Batch.Transfer.Ending.{
  last_received, last_delivered, last_frame, eofack_packet, end_file, drain-end_file,
}
use go_hydra.Batch.Transfer.Window.{Exchange, IsFlowing, windowed_transfer}
use go_hydra.Batch.Transfer.Whole.{drain-send_blocks}
use go_hydra.Batch.Induction.{state_of}
use go_hydra.Batch.Offers.{offers, tx_reports}
use go_hydra.Batch.Arrivals.{announcements, rx_reports}
use go_hydra.Batch.Storage.{written}
use go_hydra.Batch.Storage.Placing.{grown}
use go_hydra.Batch.Storage.Always.{run_loop-position}
use go_hydra.Batch.Negotiation.{IsAnnounced, negotiate-agree}
use go_hydra.Batch.Phases.Always.{run_loop-phases}
use go_hydra.Batch.Completion.{run-reports, run_loop-teardown}
use go_hydra.Batch.Loop.{expired, fire_timers, nearest_deadline}
use go_hydra.Batch.Deadline.{fire_timers-nearest_deadline}
use go_hydra.Batch.Sample.{
  cfg, offered_file, env, peer_init, opening, transfer, whole_batch, start_batch, mid_batch, runs,
  until_lost,
}

run-reports_example :
    let log = (run env whole_batch start_batch).batch.log in
    (offers log ≡ tx_reports log) × (announcements log ≡ rx_reports log)
run-reports_example = run-reports env whole_batch cfg (offered_file ∷ [])

run_loop-phases_example :
    let b = state_of (run_loop env opening (feed_braindead start_batch)) in
    (leb (rank finfo) (rank b.tx.state) ≡ true → b.rx.state ≢ rx_init)
    × (b.rx.state ≢ rx_init → b.link.negotiated ≡ true)
    × (leb (rank end) (rank b.tx.state) ≡ true → b.rx.state ≡ rx_done)
run_loop-phases_example = run_loop-phases env opening cfg (offered_file ∷ [])

-- In the middle of the batch, behind two bytes: a block at offset 2.
abbrev next_block : Packet
next_block = record { typ = pkt_data; payload = marshal_data (pos 2) (7 ∷ []) }

run_loop-position_example :
    (mid_batch.rx.position ≡ written mid_batch.log)
    × (contents (state_of (rx_on_data env mid_batch next_block)).log
        ≡ grown env mid_batch (parse_data next_block.payload))
run_loop-position_example =
    run_loop-position env (opening ++ transfer) cfg (offered_file ∷ []) next_block runs.1

-- A remote with other windows than ours.
abbrev peer_cfg : Config
peer_cfg = record cfg { tx_window_bytes = pos 512; rx_window_bytes = pos 0 }

abbrev our_init : InitPkt
our_init = record peer_init { tx_window = 0; rx_window = 4096 }

abbrev their_init : InitPkt
their_init = record peer_init { tx_window = 512; rx_window = 0 }

abbrev remote : Batch
remote = new_batch peer_cfg []

negotiates :
    (negotiate start_batch their_init ≡ ok (state_of (negotiate start_batch their_init)))
    × (negotiate remote our_init ≡ ok (state_of (negotiate remote our_init)))
unfolding negotiate effective_caps new_batch local_supported local_desired
negotiates = (refl, refl)

our_init-IsAnnounced : IsAnnounced start_batch our_init
unfolding new_batch
our_init-IsAnnounced = record {
  tx_window = refl;
  rx_window = refl;
  tx_sane = omega arith;
  rx_sane = omega arith;
}

their_init-IsAnnounced : IsAnnounced remote their_init
unfolding new_batch
their_init-IsAnnounced = record {
  tx_window = refl;
  rx_window = refl;
  tx_sane = omega arith;
  rx_sane = omega arith;
}

negotiate-agree_example :
    let a1 = state_of (negotiate start_batch their_init) in
    let b1 = state_of (negotiate remote our_init) in
    (a1.link.tx_window ≡ b1.link.rx_window) × (a1.link.rx_window ≡ b1.link.tx_window)
negotiate-agree_example =
    negotiate-agree start_batch (state_of (negotiate start_batch their_init)) remote
      (state_of (negotiate remote our_init)) our_init their_init our_init-IsAnnounced
      their_init-IsAnnounced negotiates.0 negotiates.1

run_loop-teardown_example :
    let b = state_of (run_loop env until_lost (feed_braindead start_batch)) in
    (teardown b none ≡ b)
    × (offers b.log ≡ tx_reports b.log)
    × (announcements b.log ≡ rx_reports b.log)
run_loop-teardown_example = run_loop-teardown env until_lost cfg (offered_file ∷ []) runs.3 none

-- Nothing has come for longer than the brain-dead time.
abbrev quiet_pass : ℕ → Pass
quiet_pass now = record { now = now; drained = []; ctx_err = none; wake = timer now }

start_batch-IsDue : IsDue 120 (feed_braindead start_batch)
unfolding feed_braindead new_batch
start_batch-IsDue = refl

run_loop-is_over_example :
    is_over (
      run_loop env
        ((quiet_pass 30 ∷ quiet_pass 90 ∷ []) ++ (quiet_pass 121 ∷ []))
        (feed_braindead start_batch))
    ≡ true
run_loop-is_over_example =
    run_loop-is_over 120 env (quiet_pass 30 ∷ quiet_pass 90 ∷ []) [] (quiet_pass 121)
      (feed_braindead start_batch) start_batch-IsDue refl refl (omega arith)

abbrev listener : Environment
listener = record env { has_device_handler = true }

listener-IsListening : IsListening listener
listener-IsListening = record { has_handler = refl; takes_all = λ log. refl }

abbrev chat : ℕ → DevDataPkt
chat n = record { id = n; device = b'C' ∷ b'O' ∷ b'N' ∷ []; payload = n ∷ [] }

abbrev chats : List (ℕ × DevDataPkt)
chats = (2, chat 1) ∷ (0, chat 2) ∷ []

chats-AreNumbered : AreNumbered start_batch.dev.rx_id chats
unfolding new_batch
chats-AreNumbered = (
  omega arith,
  record { number = omega arith; clean = omega arith; short = omega arith },
  (omega arith, record { number = omega arith; clean = omega arith; short = omega arith }, tt),
)

drain-stream_example :
    (b1 : Batch) × (drain listener (stream chats) start_batch ≡ ok b1)
    × (deliveries b1.log ≡ behind chats (deliveries start_batch.log))
drain-stream_example =
    drain-stream listener listener-IsListening chats start_batch chats-AreNumbered

abbrev sender : Batch
sender = record start_batch { tx = record start_batch.tx { state = xdata } }

abbrev receiver : Batch
receiver = record start_batch {
  rx = record start_batch.rx { state = rx_data; writer = true; open_file = true };
}

sender-IsSending : IsSending 0 sender
unfolding new_batch
sender-IsSending = record { state = refl; position = refl; streams = refl }

receiver-IsReceiving : IsReceiving 0 receiver
unfolding new_batch
receiver-IsReceiving = record { state = refl; writer = refl; position = refl }

env-IsWilling : IsWilling env
env-IsWilling = record { takes_all = λ log. refl; stores_all = λ log bytes. refl }

abbrev two_blocks : List Bytes
two_blocks = (1 ∷ 2 ∷ []) ∷ (3 ∷ []) ∷ []

drain-send_blocks_example :
    (s : Batch) × (r : Batch) × (items : List Item) × (send_blocks env two_blocks sender ≡ ok s)
    × (packets s.log ≡ packets sender.log ++ items)
    × (drain env items receiver ≡ ok r)
    × (contents r.log ≡ contents receiver.log ++ joined two_blocks)
    × IsSending (0 + length (joined two_blocks)) s
    × IsReceiving (0 + length (joined two_blocks)) r
drain-send_blocks_example =
    drain-send_blocks env env two_blocks 0 sender receiver env-IsWilling env-IsWilling
      sender-IsSending receiver-IsReceiving ((λ e. cc), ((λ e. cc), tt)) (omega arith)

-- The same ends under a window of two bytes.
abbrev windowed_sender : Batch
windowed_sender = record sender { link = record sender.link { tx_window = 2 } }

abbrev windowed_receiver : Batch
windowed_receiver = record receiver { link = record receiver.link { rx_window = 2 } }

windowed_sender-IsFlowing : IsFlowing 2 0 windowed_sender
unfolding new_batch
windowed_sender-IsFlowing = record {
  state = refl;
  position = refl;
  window = refl;
  both_ways = refl;
  acked = refl;
}

windowed_receiver-IsReceiving : IsReceiving 0 windowed_receiver
unfolding new_batch
windowed_receiver-IsReceiving = record { state = refl; writer = refl; position = refl }

windowed_transfer_example :
    (s : Batch) × (r : Batch) × Exchange env env two_blocks windowed_sender windowed_receiver s r
    × (contents r.log ≡ contents windowed_receiver.log ++ joined two_blocks)
    × IsFlowing 2 (0 + length (joined two_blocks)) s
    × IsReceiving (0 + length (joined two_blocks)) r
windowed_transfer_example =
    windowed_transfer env env two_blocks 2 0 windowed_sender windowed_receiver env-IsWilling
      env-IsWilling windowed_sender-IsFlowing windowed_receiver-IsReceiving refl
      ((λ e. cc), ((λ e. cc), tt)) (omega arith)

sender-whole : (sender.tx.skip ≡ false) × (receiver.rx.open_file ≡ true)
unfolding new_batch
sender-whole = (refl, refl)

drain-end_file_example :
    let total = 0 + length (joined two_blocks) in
    (s : Batch) × (r : Batch) × (items : List Item) × ((send_blocks env two_blocks sender
        >>= end_file env)
      ≡ ok s)
    × (packets s.log ≡ packets sender.log ++ items)
    × (drain env items receiver ≡ ok r)
    × (contents r.log ≡ contents receiver.log ++ joined two_blocks)
    × (r.rx.open_file ≡ false)
    × (last_received r.log ≡ some (receiver.rx.info, total, none))
    × (last_frame r.log ≡ some eofack_packet)
    × (s2 : Batch) × (drain env (arrived eofack_packet ∷ []) s ≡ ok s2)
    × (last_delivered s2.log ≡ some (sender.tx.info, total, none))
    × (s2.tx.state ≡ finfo)
drain-end_file_example =
    drain-end_file env env two_blocks 0 sender receiver env-IsWilling env-IsWilling sender-IsSending
      sender-whole.0 receiver-IsReceiving sender-whole.1 ((λ e. cc), ((λ e. cc), tt)) (omega arith)

fire_timers-nearest_deadline_example :
    ((fire_timers env mid_batch 500).0 ≡ expired (nearest_deadline mid_batch) 500)
    × ((if expired (nearest_deadline mid_batch) 500
          then ok mid_batch
          else (fire_timers env mid_batch 500).1)
        ≡ ok mid_batch)
fire_timers-nearest_deadline_example = fire_timers-nearest_deadline env mid_batch 500
