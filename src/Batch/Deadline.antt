-- ===== src/Batch/Deadline.antt =====
-- session.go: the wait of the event loop against the timers that it waits for.
use go_hydra.Base.{ℕ, ◌≡◌, if◌then◌else◌, arith}
use go_hydra.Batch.{Environment, Batch, ok}
use go_hydra.Batch.Loop.{expired, fire_dev_timer, fire_timers, nearest_deadline}

-- At any time the timers fire exactly where the deadline that bounds the wait has passed; where it
-- has not, they leave the batch as it is.
pub fire_timers-nearest_deadline :
    (env : Environment) (b : Batch) (now : ℕ)
    → ((fire_timers env b now).0 ≡ expired (nearest_deadline b) now)
      × ((if expired (nearest_deadline b) now then ok b else (fire_timers env b now).1) ≡ ok b)
unfolding fire_timers nearest_deadline fire_dev_timer
fire_timers-nearest_deadline env b now = ground arith
