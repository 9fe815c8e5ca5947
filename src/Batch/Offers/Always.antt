-- ===== src/Batch/Offers/Always.antt =====
-- tx.go: each file that is offered is reported once: every run.
use go_hydra.Base.{refl, List}
use go_hydra.Config.{Config, FileOffer}
use go_hydra.Batch.{Environment, new_batch, feed_braindead}
use go_hydra.Batch.Loop.{Pass, run_loop}
use go_hydra.Batch.Induction.{Holds, IsKept, AnyRequest, any_passes, run_loop-Holds}
use go_hydra.Batch.Offers.{IsTxCounted}
use go_hydra.Batch.Offers.Sending.{
  on_start-IsTxCounted, on_initack-IsTxCounted, sync-IsTxCounted, tx_idle-IsTxCounted,
  tx_data_ack-IsTxCounted, tx_finfo_ack-IsTxCounted, tx_eof_ack-IsTxCounted, queue_dev-IsTxCounted,
  dev_on_dack-IsTxCounted, tx_rpos-IsTxCounted, tx_end-IsTxCounted, tx_timeout-IsTxCounted,
  fire_dev_timer-IsTxCounted, dev_action-IsTxCounted, dev_rx-IsTxCounted, tx_action_in-IsTxCounted,
}
use go_hydra.Batch.Offers.Receiving.{
  rx_on_init-IsTxCounted, rx_on_finfo-IsTxCounted, rx_on_data-IsTxCounted, rx_on_eof_in-IsTxCounted,
}

IsTxCounted-IsKept : (env : Environment) → IsKept env AnyRequest IsTxCounted
IsTxCounted-IsKept env = record {
  timed = λ b now h. h;
  rested = λ b h. h;
  untimed = λ b h. h;
  synced = sync-IsTxCounted;
  queued = λ b name payload _ h. queue_dev-IsTxCounted b name payload h;
  started = on_start-IsTxCounted;
  init_taken = rx_on_init-IsTxCounted env;
  initack_taken = on_initack-IsTxCounted;
  finfo_taken = rx_on_finfo-IsTxCounted env;
  finfoack_taken = tx_finfo_ack-IsTxCounted env;
  data_taken = rx_on_data-IsTxCounted env;
  dataack_taken = tx_data_ack-IsTxCounted;
  rpos_taken = tx_rpos-IsTxCounted env;
  eof_taken = λ b pkt h. rx_on_eof_in-IsTxCounted b.rx.state env b pkt refl h;
  eofack_taken = tx_eof_ack-IsTxCounted;
  idle_taken = tx_idle-IsTxCounted;
  end_taken = tx_end-IsTxCounted env;
  dev_taken = dev_rx-IsTxCounted env;
  dev_dack_taken = dev_on_dack-IsTxCounted;
  acted = λ b h. tx_action_in-IsTxCounted b.tx.state env b refl h;
  dev_acted = dev_action-IsTxCounted env;
  tx_timed_out = tx_timeout-IsTxCounted env;
  dev_timed_out = fire_dev_timer-IsTxCounted;
}

pub run_loop-IsTxCounted :
    (env : Environment) (passes : List Pass) (cfg : Config) (files : List FileOffer)
    → Holds IsTxCounted (run_loop env passes (feed_braindead (new_batch cfg files)))
unfolding feed_braindead new_batch
run_loop-IsTxCounted env passes cfg files =
    run_loop-Holds env AnyRequest IsTxCounted (IsTxCounted-IsKept env) passes _ (any_passes passes)
      (refl, refl)
