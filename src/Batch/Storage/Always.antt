-- ===== src/Batch/Storage/Always.antt =====
-- rx.go: a file is written without gaps: every run.
use go_hydra.Base.{◌≡◌, refl, true, List, arith}
use go_hydra.Config.{Config, FileOffer}
use go_hydra.Batch.{Environment, Batch, new_batch, feed_braindead}
use go_hydra.Batch.Loop.{Pass, run_loop}
use go_hydra.Batch.Induction.{Holds, state_of, IsKept, AnyRequest, any_passes, run_loop-Holds}
use go_hydra.Packet.{Packet, parse_data}
use go_hydra.Batch.Receive.{rx_on_data, is_rx_data}
use go_hydra.Batch.Transfer.{contents}
use go_hydra.Batch.Storage.Placing.{grown, rx_on_data-grown}
use go_hydra.Batch.Storage.{written, IsContiguous}
use go_hydra.Batch.Storage.Sending.{
  on_start-IsContiguous, on_initack-IsContiguous, sync-IsContiguous, tx_idle-IsContiguous,
  tx_data_ack-IsContiguous, tx_finfo_ack-IsContiguous, tx_eof_ack-IsContiguous,
  queue_dev-IsContiguous, dev_on_dack-IsContiguous, tx_rpos-IsContiguous, tx_end-IsContiguous,
  tx_timeout-IsContiguous, fire_dev_timer-IsContiguous, dev_action-IsContiguous,
  dev_rx-IsContiguous, tx_action_in-IsContiguous,
}
use go_hydra.Batch.Storage.Receiving.{
  rx_on_init-IsContiguous, rx_on_finfo-IsContiguous, rx_on_data-IsContiguous,
  rx_on_eof_in-IsContiguous,
}

IsContiguous-IsKept : (env : Environment) → IsKept env AnyRequest IsContiguous
IsContiguous-IsKept env = record {
  timed = λ b now h. h;
  rested = λ b h. h;
  untimed = λ b h. h;
  synced = sync-IsContiguous;
  queued = λ b name payload _ h. queue_dev-IsContiguous b name payload h;
  started = on_start-IsContiguous;
  init_taken = rx_on_init-IsContiguous env;
  initack_taken = on_initack-IsContiguous;
  finfo_taken = rx_on_finfo-IsContiguous env;
  finfoack_taken = tx_finfo_ack-IsContiguous env;
  data_taken = rx_on_data-IsContiguous env;
  dataack_taken = tx_data_ack-IsContiguous;
  rpos_taken = tx_rpos-IsContiguous env;
  eof_taken = λ b pkt h. rx_on_eof_in-IsContiguous b.rx.state env b pkt refl h;
  eofack_taken = tx_eof_ack-IsContiguous;
  idle_taken = tx_idle-IsContiguous;
  end_taken = tx_end-IsContiguous env;
  dev_taken = dev_rx-IsContiguous env;
  dev_dack_taken = dev_on_dack-IsContiguous;
  acted = λ b h. tx_action_in-IsContiguous b.tx.state env b refl h;
  dev_acted = dev_action-IsContiguous env;
  tx_timed_out = tx_timeout-IsContiguous env;
  dev_timed_out = fire_dev_timer-IsContiguous;
}

run_loop-IsContiguous :
    (env : Environment) (passes : List Pass) (cfg : Config) (files : List FileOffer)
    → Holds IsContiguous (run_loop env passes (feed_braindead (new_batch cfg files)))
unfolding feed_braindead new_batch
run_loop-IsContiguous env passes cfg files =
    run_loop-Holds env AnyRequest IsContiguous (IsContiguous-IsKept env) passes _
      (any_passes passes) (refl, refl, refl)

position_when_open :
    (b : Batch) → IsContiguous b → b.rx.open_file ≡ true → b.rx.position ≡ written b.log
position_when_open b h e = ground arith

ready_when_open :
    (b : Batch)
    → IsContiguous b
    → b.rx.open_file ≡ true
    → (is_rx_data b.rx.state ≡ true) × (b.rx.writer ≡ true)
ready_when_open b h e = ground arith

-- At any point where a run stops with a receive file open: the receive position is the offset that
-- the handler accepted plus the lengths of the blocks stored in the file since; and whatever packet
-- `rxData` is given next, the contents of the file grow by its block where the payload parses, the
-- packet's offset is that position and not negative, and the file takes the block. In every other
-- case, so for a block that is repeated or out of place, they stay as they are.
pub run_loop-position :
    (env : Environment) (passes : List Pass) (cfg : Config) (files : List FileOffer) (pkt : Packet)
    → let b = state_of (run_loop env passes (feed_braindead (new_batch cfg files))) in
      b.rx.open_file ≡ true
      → (b.rx.position ≡ written b.log)
        × (contents (state_of (rx_on_data env b pkt)).log ≡ grown env b (parse_data pkt.payload))
run_loop-position env passes cfg files pkt e =
    let b = state_of (run_loop env passes (feed_braindead (new_batch cfg files))) in
    let h = (run_loop-IsContiguous env passes cfg files).at in
    let ready = ready_when_open b h e in
    let at = position_when_open b h e in (at, rx_on_data-grown env b pkt ready.0 ready.1 at)
