-- ===== src/Batch/Phases/Always.antt =====
-- session.go: how the transmitter, the receiver and the negotiation keep in step: every run.
use go_hydra.Base.{◌≡◌, ◌≢◌, refl, true, List, leb, arith}
use go_hydra.Config.{Config, FileOffer}
use go_hydra.Batch.{
  finfo, end, rank, rx_init, rx_done, Environment, Batch, new_batch, feed_braindead,
}
use go_hydra.Batch.Loop.{Pass, run_loop}
use go_hydra.Batch.Induction.{Holds, state_of, IsKept, AnyRequest, any_passes, run_loop-Holds}
use go_hydra.Batch.Phases.{IsInPhase}
use go_hydra.Batch.Phases.Sending.{
  on_start-IsInPhase, on_initack-IsInPhase, sync-IsInPhase, tx_idle-IsInPhase,
  tx_data_ack-IsInPhase, tx_finfo_ack-IsInPhase, tx_eof_ack-IsInPhase, queue_dev-IsInPhase,
  dev_on_dack-IsInPhase, tx_rpos-IsInPhase, tx_end-IsInPhase, tx_timeout-IsInPhase,
  fire_dev_timer-IsInPhase, dev_action-IsInPhase, dev_rx-IsInPhase, tx_action_in-IsInPhase,
}
use go_hydra.Batch.Phases.Receiving.{
  rx_on_init-IsInPhase, rx_on_finfo-IsInPhase, rx_on_data-IsInPhase, rx_on_eof_in-IsInPhase,
}

IsInPhase-IsKept : (env : Environment) → IsKept env AnyRequest IsInPhase
IsInPhase-IsKept env = record {
  timed = λ b now h. h;
  rested = λ b h. h;
  untimed = λ b h. h;
  synced = sync-IsInPhase;
  queued = λ b name payload _ h. queue_dev-IsInPhase b name payload h;
  started = on_start-IsInPhase;
  init_taken = rx_on_init-IsInPhase env;
  initack_taken = on_initack-IsInPhase;
  finfo_taken = rx_on_finfo-IsInPhase env;
  finfoack_taken = tx_finfo_ack-IsInPhase env;
  data_taken = rx_on_data-IsInPhase env;
  dataack_taken = tx_data_ack-IsInPhase;
  rpos_taken = tx_rpos-IsInPhase env;
  eof_taken = λ b pkt h. rx_on_eof_in-IsInPhase b.rx.state env b pkt refl h;
  eofack_taken = tx_eof_ack-IsInPhase;
  idle_taken = tx_idle-IsInPhase;
  end_taken = tx_end-IsInPhase env;
  dev_taken = dev_rx-IsInPhase env;
  dev_dack_taken = dev_on_dack-IsInPhase;
  acted = λ b h. tx_action_in-IsInPhase b.tx.state env b refl h;
  dev_acted = dev_action-IsInPhase env;
  tx_timed_out = tx_timeout-IsInPhase env;
  dev_timed_out = fire_dev_timer-IsInPhase;
}

in_phase-facts :
    (b : Batch)
    → IsInPhase b
    → (leb (rank finfo) (rank b.tx.state) ≡ true → b.rx.state ≢ rx_init)
      × (b.rx.state ≢ rx_init → b.link.negotiated ≡ true)
      × (leb (rank end) (rank b.tx.state) ≡ true → b.rx.state ≡ rx_done)
in_phase-facts b h = (λ e r. ground arith, λ r. ground arith, λ e. ground arith)

pub run_loop-IsInPhase :
    (env : Environment) (passes : List Pass) (cfg : Config) (files : List FileOffer)
    → Holds IsInPhase (run_loop env passes (feed_braindead (new_batch cfg files)))
unfolding feed_braindead new_batch
run_loop-IsInPhase env passes cfg files =
    run_loop-Holds env AnyRequest IsInPhase (IsInPhase-IsKept env) passes _ (any_passes passes) refl

-- Whatever the environment does and wherever a run stops, failed or not: the transmitter announces
-- or sends files only when the receiver has left its initial state, which it does by a successful
-- negotiation only; and the transmitter is in its closing states only when the receiver is done,
-- that is when the remote has announced the end of its batch.
pub run_loop-phases :
    (env : Environment) (passes : List Pass) (cfg : Config) (files : List FileOffer)
    → let b = state_of (run_loop env passes (feed_braindead (new_batch cfg files))) in
      (leb (rank finfo) (rank b.tx.state) ≡ true → b.rx.state ≢ rx_init)
      × (b.rx.state ≢ rx_init → b.link.negotiated ≡ true)
      × (leb (rank end) (rank b.tx.state) ≡ true → b.rx.state ≡ rx_done)
run_loop-phases env passes cfg files =
    in_phase-facts (state_of (run_loop env passes (feed_braindead (new_batch cfg files))))
      (run_loop-IsInPhase env passes cfg files).at
