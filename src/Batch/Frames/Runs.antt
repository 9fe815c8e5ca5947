-- ===== src/Batch/Frames/Runs.antt =====
-- The theorems on frames at a batch with a remote that answers.
use go_hydra.Base.{
  inl, zero, suc, take, All, IsShort, mem_of_get_elem?, ℕ, List, Bytes, ◌≡◌, refl, [], ◌∷◌, arith,
  ◌++◌,
}
use go_hydra.Base.Int.{pos}
use go_hydra.Reader.{new_reader}
use go_hydra.Writer.{prefix_bytes}
use go_hydra.Wire.Frame.{IsIdle}
use go_hydra.Packet.{marshal_data}
use go_hydra.Constants.{pkt_data}
use go_hydra.Wire.RoundTrip.{ReadsBack}
use go_hydra.Batch.{Event, content}
use go_hydra.Batch.Induction.{IsPass}
use go_hydra.Batch.Frames.{AllFrames, IsBrief, IsReading, IsRequest}
use go_hydra.Batch.Frames.Always.{run_loop-AllFrames}
use go_hydra.Batch.Frames.OnWire.{run_loop-ReadsBack}
use go_hydra.Batch.Sample.{read_once, cfg, offered_file, env, opening, transfer, mid_batch, runs}

new_reader-IsIdle : IsIdle new_reader
unfolding new_reader
new_reader-IsIdle = record { few_dles = omega arith; outside = inl refl }

-- The sample's remote only sends packets.
sample-IsPass : All (IsPass IsRequest) (opening ++ transfer)
sample-IsPass = omega arith

few-IsShort : (n : ℕ) → IsShort n (take n (1 ∷ 2 ∷ 3 ∷ []))
few-IsShort zero = ground arith
few-IsShort (suc zero) = ground arith
few-IsShort (suc (suc zero)) = ground arith
few-IsShort (suc (suc (suc zero))) = ground arith
few-IsShort (suc (suc (suc (suc n)))) = ground arith

read_once-IsShort :
    (n : ℕ) (log : List Event) (block : Bytes) → read_once n log ≡ content block → IsShort n block
read_once-IsShort n [] block e = ground (arith, few-IsShort n)
read_once-IsShort n (x ∷ log) block e = ground (arith, read_once-IsShort n log block)

env-IsReading : IsReading env
env-IsReading = record { gives = λ log n block e. read_once-IsShort n log block e }

offered_file-IsBrief : IsBrief offered_file
offered_file-IsBrief = record { name_bytes = omega arith; path_bytes = tt; fit = omega arith }

app_id-IsShort : IsShort 1947 cfg.app_id
app_id-IsShort = record { bytes = omega arith; size = omega arith }

run_loop-AllFrames_example : AllFrames mid_batch.log
run_loop-AllFrames_example =
    run_loop-AllFrames env (opening ++ transfer) cfg (offered_file ∷ []) env-IsReading
      app_id-IsShort (offered_file-IsBrief, tt) sample-IsPass

run_loop-ReadsBack_example :
    ReadsBack 1792 new_reader
      (record { typ = pkt_data; payload = marshal_data (pos 0) (1 ∷ 2 ∷ 3 ∷ []) })
      1792
      []
      []
unfolding prefix_bytes
run_loop-ReadsBack_example =
    run_loop-ReadsBack env (opening ++ transfer) cfg (offered_file ∷ []) pkt_data 1792
      (marshal_data (pos 0) (1 ∷ 2 ∷ 3 ∷ [])) [] [] new_reader env-IsReading app_id-IsShort
      (offered_file-IsBrief, tt) sample-IsPass (mem_of_get_elem? mid_batch.log 4 _ runs.8) tt
      new_reader-IsIdle
