-- ===== src/Batch/Completion.antt =====
-- session.go: the reports of a whole batch, its teardown included.
use go_hydra.Base.{◌≡◌, subst, true, leb, List, Option, none, some, arith}
use go_hydra.Config.{Config, Error, FileOffer}
use go_hydra.Batch.{rank, end, Event, Environment, Batch, Ran, ok, fail, new_batch, feed_braindead}
use go_hydra.Batch.Send.{close_offer}
use go_hydra.Batch.Receive.{rx_close_file}
use go_hydra.Batch.Loop.{Pass, run_loop, teardown, finish, run}
use go_hydra.Batch.Induction.{state_of}
use go_hydra.Batch.Phases.{IsInPhase}
use go_hydra.Batch.Phases.Always.{run_loop-IsInPhase}
use go_hydra.Batch.Offers.{offers, tx_reports, IsTxCounted}
use go_hydra.Batch.Offers.Always.{run_loop-IsTxCounted}
use go_hydra.Batch.Arrivals.{announcements, rx_reports, IsRxCounted}
use go_hydra.Batch.Arrivals.Always.{run_loop-IsRxCounted}

abbrev IsAllReported : List Event → Type 0
IsAllReported log = (offers log ≡ tx_reports log) × (announcements log ≡ rx_reports log)

teardown-IsAllReported :
    (b : Batch) (e : Option Error)
    → IsTxCounted b
    → IsRxCounted b
    → IsAllReported (teardown b e).log
unfolding teardown rx_close_file close_offer
teardown-IsAllReported b e t r = ground arith

finish-IsAllReported :
    (r : Ran)
    → IsTxCounted (state_of r)
    → IsRxCounted (state_of r)
    → IsAllReported (finish r).batch.log
finish-IsAllReported (ok b) t r = teardown-IsAllReported b none t r
finish-IsAllReported (fail e b) t r = teardown-IsAllReported b (some e) t r

-- Whatever the environment and the remote do and however a run ends, by success, by an error or by
-- an abort between two passes: over the whole batch, the sending side makes as many completion
-- reports as files were offered, and the receiving side as many as files were announced.
pub run-reports :
    (env : Environment) (passes : List Pass) (cfg : Config) (files : List FileOffer)
    → let log = (run env passes (new_batch cfg files)).batch.log in
      (offers log ≡ tx_reports log) × (announcements log ≡ rx_reports log)
unfolding run
run-reports env passes cfg files =
    finish-IsAllReported (run_loop env passes (feed_braindead (new_batch cfg files)))
      (run_loop-IsTxCounted env passes cfg files).at (run_loop-IsRxCounted env passes cfg files).at

-- Behind the last file there is nothing for the teardown to report.
closing-teardown :
    (b : Batch) (e : Option Error)
    → IsInPhase b
    → IsTxCounted b
    → IsRxCounted b
    → leb (rank end) (rank b.tx.state) ≡ true
    → teardown b e ≡ b
unfolding teardown rx_close_file close_offer
closing-teardown b e p t r c = ground arith

-- Wherever a run stops with the transmitter in its closing states: the teardown changes nothing, so
-- no file was open in either direction, and each side has made all its reports before it.
pub run_loop-teardown :
    (env : Environment) (passes : List Pass) (cfg : Config) (files : List FileOffer)
    → let b = state_of (run_loop env passes (feed_braindead (new_batch cfg files))) in
      leb (rank end) (rank b.tx.state) ≡ true
      → (e : Option Error)
      → (teardown b e ≡ b)
        × (offers b.log ≡ tx_reports b.log)
        × (announcements b.log ≡ rx_reports b.log)
run_loop-teardown env passes cfg files c e =
    let b = state_of (run_loop env passes (feed_braindead (new_batch cfg files))) in
    let t = (run_loop-IsTxCounted env passes cfg files).at in
    let r = (run_loop-IsRxCounted env passes cfg files).at in
    let same = closing-teardown b e (run_loop-IsInPhase env passes cfg files).at t r c in
    let all = teardown-IsAllReported b e t r in
    (
      same,
      subst (λ x. offers x.log ≡ tx_reports x.log) same all.0,
      subst (λ x. announcements x.log ≡ rx_reports x.log) same all.1,
    )
