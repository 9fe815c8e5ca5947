-- ===== src/Batch/Frames/Always.antt =====
-- session.go `write`: every frame of every run fits.
use go_hydra.Base.{List, IsShort, All}
use go_hydra.Config.{Config, FileOffer}
use go_hydra.BlockSize.Bounds.{new_block_sizer-IsSound}
use go_hydra.Batch.{Environment, new_batch, feed_braindead}
use go_hydra.Batch.Loop.{Pass, run_loop}
use go_hydra.Batch.Induction.{state_of, IsPass, IsKept, run_loop-Holds}
use go_hydra.Batch.Frames.{AllFrames, IsBrief, IsFit, IsReading, IsRequest}
use go_hydra.Batch.Frames.Sending.{
  on_start-IsFit, on_initack-IsFit, sync-IsFit, tx_idle-IsFit, tx_data_ack-IsFit,
  tx_finfo_ack-IsFit, tx_eof_ack-IsFit, tx_rpos-IsFit, tx_end-IsFit, tx_timeout-IsFit,
}
use go_hydra.Batch.Frames.Devices.{
  queue_dev-IsFit, dev_on_dack-IsFit, fire_dev_timer-IsFit, dev_action-IsFit, dev_rx-IsFit,
}
use go_hydra.Batch.Frames.Actions.{tx_action_in-IsFit}
use go_hydra.Batch.Frames.Receiving.{
  rx_on_init-IsFit, rx_on_finfo-IsFit, rx_on_data-IsFit, rx_on_eof_in-IsFit,
}

IsFit-IsKept : (env : Environment) → IsReading env → IsKept env IsRequest IsFit
IsFit-IsKept env reads = record {
  timed = λ b now h. h;
  rested = λ b h. h;
  untimed = λ b h. h;
  synced = sync-IsFit;
  queued = queue_dev-IsFit;
  started = on_start-IsFit;
  init_taken = rx_on_init-IsFit env;
  initack_taken = on_initack-IsFit;
  finfo_taken = rx_on_finfo-IsFit env;
  finfoack_taken = tx_finfo_ack-IsFit env;
  data_taken = rx_on_data-IsFit env;
  dataack_taken = tx_data_ack-IsFit;
  rpos_taken = tx_rpos-IsFit env;
  eof_taken = λ b pkt h. rx_on_eof_in-IsFit b.rx.state env b pkt h;
  eofack_taken = tx_eof_ack-IsFit;
  idle_taken = tx_idle-IsFit;
  end_taken = tx_end-IsFit env;
  dev_taken = dev_rx-IsFit env;
  dev_dack_taken = dev_on_dack-IsFit;
  acted = λ b h. tx_action_in-IsFit b.tx.state env b reads h;
  dev_acted = dev_action-IsFit env;
  tx_timed_out = tx_timeout-IsFit env;
  dev_timed_out = fire_dev_timer-IsFit;
}

-- Where sources give at most what is asked for, the application id has at most 1947 bytes, the names
-- of each offer at most 2013 together, and device requests are as `SendDevice` queues them: every
-- frame that a run writes, at any point where it stops, has a type of one byte and at most 2056
-- bytes of payload.
pub run_loop-AllFrames :
    (env : Environment) (passes : List Pass) (cfg : Config) (files : List FileOffer)
    → IsReading env
    → IsShort 1947 cfg.app_id
    → All IsBrief files
    → All (IsPass IsRequest) passes
    → AllFrames (state_of (run_loop env passes (feed_braindead (new_batch cfg files)))).log
unfolding feed_braindead new_batch
run_loop-AllFrames env passes cfg files reads app brief requests =
    (run_loop-Holds env IsRequest IsFit (IsFit-IsKept env reads) passes
      (feed_braindead (new_batch cfg files)) requests
      (
        tt,
        app,
        brief,
        tt,
        tt,
        new_block_sizer-IsSound cfg.effective_baud cfg.max_block_size,
        tt,
        tt,
      )).at.0
