-- ===== src/Batch/Arrivals/Always.antt =====
-- rx.go: each file that is announced is reported once: every run.
use go_hydra.Base.{refl, List}
use go_hydra.Config.{Config, FileOffer}
use go_hydra.Batch.{Environment, new_batch, feed_braindead}
use go_hydra.Batch.Loop.{Pass, run_loop}
use go_hydra.Batch.Induction.{Holds, IsKept, AnyRequest, any_passes, run_loop-Holds}
use go_hydra.Batch.Arrivals.{IsRxCounted}
use go_hydra.Batch.Arrivals.Sending.{
  on_start-IsRxCounted, on_initack-IsRxCounted, sync-IsRxCounted, tx_idle-IsRxCounted,
  tx_data_ack-IsRxCounted, tx_finfo_ack-IsRxCounted, tx_eof_ack-IsRxCounted, queue_dev-IsRxCounted,
  dev_on_dack-IsRxCounted, tx_rpos-IsRxCounted, tx_end-IsRxCounted, tx_timeout-IsRxCounted,
  fire_dev_timer-IsRxCounted, dev_action-IsRxCounted, dev_rx-IsRxCounted, tx_action_in-IsRxCounted,
}
use go_hydra.Batch.Arrivals.Receiving.{
  rx_on_init-IsRxCounted, rx_on_finfo-IsRxCounted, rx_on_data-IsRxCounted, rx_on_eof_in-IsRxCounted,
}

IsRxCounted-IsKept : (env : Environment) → IsKept env AnyRequest IsRxCounted
IsRxCounted-IsKept env = record {
  timed = λ b now h. h;
  rested = λ b h. h;
  untimed = λ b h. h;
  synced = sync-IsRxCounted;
  queued = λ b name payload _ h. queue_dev-IsRxCounted b name payload h;
  started = on_start-IsRxCounted;
  init_taken = rx_on_init-IsRxCounted env;
  initack_taken = on_initack-IsRxCounted;
  finfo_taken = rx_on_finfo-IsRxCounted env;
  finfoack_taken = tx_finfo_ack-IsRxCounted env;
  data_taken = rx_on_data-IsRxCounted env;
  dataack_taken = tx_data_ack-IsRxCounted;
  rpos_taken = tx_rpos-IsRxCounted env;
  eof_taken = λ b pkt h. rx_on_eof_in-IsRxCounted b.rx.state env b pkt refl h;
  eofack_taken = tx_eof_ack-IsRxCounted;
  idle_taken = tx_idle-IsRxCounted;
  end_taken = tx_end-IsRxCounted env;
  dev_taken = dev_rx-IsRxCounted env;
  dev_dack_taken = dev_on_dack-IsRxCounted;
  acted = λ b h. tx_action_in-IsRxCounted b.tx.state env b refl h;
  dev_acted = dev_action-IsRxCounted env;
  tx_timed_out = tx_timeout-IsRxCounted env;
  dev_timed_out = fire_dev_timer-IsRxCounted;
}

pub run_loop-IsRxCounted :
    (env : Environment) (passes : List Pass) (cfg : Config) (files : List FileOffer)
    → Holds IsRxCounted (run_loop env passes (feed_braindead (new_batch cfg files)))
unfolding feed_braindead new_batch
run_loop-IsRxCounted env passes cfg files =
    run_loop-Holds env AnyRequest IsRxCounted (IsRxCounted-IsKept env) passes _ (any_passes passes)
      (refl, refl)
