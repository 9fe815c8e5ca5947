-- ===== src/Batch/Frames/OnWire.antt =====
-- Every frame of every run, read at the other end.
use go_hydra.Base.{ℕ, List, Bytes, IsShort, All}
use mathlib.Core.List.{Memᴰ}
use go_hydra.Config.{Config, FileOffer}
use go_hydra.Reader.{Reader}
use go_hydra.Writer.{prefix_bytes}
use go_hydra.Wire.Frame.{IsIdle, NoDle}
use go_hydra.Wire.RoundTrip.{ReadsBack, read-write}
use go_hydra.Batch.{sent, Environment, new_batch, feed_braindead}
use go_hydra.Batch.Loop.{Pass, run_loop}
use go_hydra.Batch.Induction.{state_of, IsPass}
use go_hydra.Batch.Frames.{AllFrames-at, IsBrief, IsReading, IsRequest}
use go_hydra.Batch.Frames.Always.{run_loop-AllFrames}

-- Where sources give at most what is asked for, the application id has at most 1947 bytes, the names
-- of each offer at most 2013 together, and device requests are as `SendDevice` queues them: what the
-- writer makes of any frame of any run, whose prefix has no DLE, is read back as that packet by
-- every idle reader with the options of the frame, whatever follows.
pub run_loop-ReadsBack :
    (env : Environment) (passes : List Pass) (cfg : Config) (files : List FileOffer) (typ opts : ℕ)
    (payload prefix rest : Bytes) (r : Reader)
    → IsReading env
    → IsShort 1947 cfg.app_id
    → All IsBrief files
    → All (IsPass IsRequest) passes
    → Memᴰ
        (sent typ payload opts prefix)
        (state_of (run_loop env passes (feed_braindead (new_batch cfg files)))).log
    → NoDle opts (prefix_bytes prefix)
    → IsIdle r
    → ReadsBack opts r (record { typ = typ; payload = payload }) opts prefix rest
run_loop-ReadsBack env passes cfg files typ opts payload prefix rest r reads app brief requests m
      quiet idle =
    let log = (state_of (run_loop env passes (feed_braindead (new_batch cfg files)))).log in
    let frames = run_loop-AllFrames env passes cfg files reads app brief requests in
    read-write opts r (record { typ = typ; payload = payload }) prefix rest
      (AllFrames-at typ opts payload prefix log m frames) idle quiet
