-- ===== src/Batch/Storage.antt =====
-- rx.go: a file is written without gaps.
pub mod Sending
pub mod Receiving
pub mod Placing
pub mod Always
use go_hydra.Base.{◌≡◌, true, not, ◌||◌, List, [], ◌∷◌, if◌then◌else◌, length}
use go_hydra.Base.Int.{ℤ, pos, add_ℕ}
use go_hydra.Batch.{stored, accepted, Event, Batch}
use go_hydra.Batch.Receive.{is_rx_data}

-- The position behind the last byte that was written: the offset that was accepted last, and what
-- has been stored since.
abbrev pub written : List Event → ℤ
written [] = pos 0
written (accepted _ offset ∷ log) = offset
written (stored bytes ∷ log) = add_ℕ (written log) (length bytes)
written (_ ∷ log) = written log

abbrev pub IsContiguous : Batch → Type 0
IsContiguous b =
    ((if b.rx.open_file then written b.log else b.rx.position) ≡ b.rx.position)
    × ((not b.rx.open_file || b.rx.writer) ≡ true)
    × ((not b.rx.open_file || is_rx_data b.rx.state) ≡ true)
