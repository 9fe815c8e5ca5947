-- ===== src/Batch/Arrivals.antt =====
-- rx.go: each file that is announced is reported once.
pub mod Sending
pub mod Receiving
pub mod Always
use go_hydra.Base.{ℕ, ◌≡◌, Bool, true, false, not, ◌||◌, List, [], ◌∷◌, ◌+◌}
use go_hydra.Batch.{announced, rx_completed, Event, Batch}
use go_hydra.Batch.Receive.{is_rx_data}

-- Files that the remote has announced, and reports of `FileCompleted` on the receiving side.
abbrev pub announcements : List Event → ℕ
announcements [] = 0
announcements (announced _ ∷ log) = announcements log + 1
announcements (_ ∷ log) = announcements log

abbrev pub rx_reports : List Event → ℕ
rx_reports [] = 0
rx_reports (rx_completed _ _ _ ∷ log) = rx_reports log + 1
rx_reports (_ ∷ log) = rx_reports log

abbrev pub open_count : Bool → ℕ
open_count true = 1
open_count false = 0

abbrev pub IsRxCounted : Batch → Type 0
IsRxCounted b =
    (announcements b.log ≡ rx_reports b.log + open_count b.rx.open_file)
    × ((is_rx_data b.rx.state || not b.rx.open_file) ≡ true)
