-- ===== src/Batch/Negotiation.antt =====
-- rx.go: the window negotiation, seen from both ends.
use go_hydra.Base.{ℕ, ◌≡◌, ◌≤◌, arith}
use go_hydra.Base.Int.{pos_part}
use go_hydra.Constants.{safe_max_offset}
use go_hydra.Packet.Init.{InitPkt}
use go_hydra.Batch.{Batch, ok}
use go_hydra.Batch.Receive.{merge_window, negotiate}

merge_window_comm : (m n : ℕ) → merge_window m n ≡ merge_window n m
unfolding merge_window
merge_window_comm m n = ground arith

-- The windows that an INIT of this batch announces, if they can be offsets.
pub record IsAnnounced (b : Batch) (p : InitPkt) : Type 0 where
  pub tx_window : p.tx_window ≡ pos_part b.cfg.tx_window_bytes
  pub rx_window : p.rx_window ≡ pos_part b.cfg.rx_window_bytes
  pub tx_sane : p.tx_window ≤ safe_max_offset
  pub rx_sane : p.rx_window ≤ safe_max_offset

negotiate-windows :
    (b b1 : Batch) (p : InitPkt)
    → p.tx_window ≤ safe_max_offset
    → p.rx_window ≤ safe_max_offset
    → negotiate b p ≡ ok b1
    → (b1.link.rx_window ≡ merge_window p.tx_window (pos_part b.cfg.rx_window_bytes))
      × (b1.link.tx_window ≡ merge_window p.rx_window (pos_part b.cfg.tx_window_bytes))
unfolding negotiate
negotiate-windows b b1 p t r e = ground arith

-- Where both ends accept each other's INIT and the configured windows fit an offset, each end's
-- transmit window is the other end's receive window.
pub negotiate-agree :
    (a a1 b b1 : Batch) (p q : InitPkt)
    → IsAnnounced a p
    → IsAnnounced b q
    → negotiate a q ≡ ok a1
    → negotiate b p ≡ ok b1
    → (a1.link.tx_window ≡ b1.link.rx_window) × (a1.link.rx_window ≡ b1.link.tx_window)
negotiate-agree a a1 b b1 p q ha hb ea eb =
    let wa = negotiate-windows a a1 q hb.tx_sane hb.rx_sane ea in
    let wb = negotiate-windows b b1 p ha.tx_sane ha.rx_sane eb in
    ground
      (arith, merge_window_comm p.tx_window q.rx_window, merge_window_comm p.rx_window q.tx_window)
