-- ===== src/Batch/Phases.antt =====
-- session.go: how the transmitter, the receiver and the negotiation keep in step.
pub mod Sending
pub mod Receiving
pub mod Always
use go_hydra.Base.{◌≡◌, Bool, true, not, ◌&&◌, ◌||◌, leb}
use go_hydra.Batch.{TxState, finfo, end, rank, RxState, Batch}
use go_hydra.Batch.Loop.{is_rx_init, is_rx_done}

-- The receiver is past the negotiation before the transmitter announces a file, and is done before
-- the transmitter ends.
abbrev pub in_phase : TxState → RxState → Bool → Bool
in_phase t r negotiated =
    (is_rx_done r || not (leb (rank end) (rank t)))
    && (not (is_rx_init r) || not (leb (rank finfo) (rank t)))
    && (negotiated || is_rx_init r)

abbrev pub IsInPhase : Batch → Type 0
IsInPhase b = in_phase b.tx.state b.rx.state b.link.negotiated ≡ true
