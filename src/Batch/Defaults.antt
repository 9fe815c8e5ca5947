-- ===== src/Batch/Defaults.antt =====
-- hydra.go `noSend` and `noRecv`: the handlers of a session that has none.
use go_hydra.Base.{◌≡◌, refl, false, List, [], none, some, arith}
use go_hydra.Base.Int.{pos}
use go_hydra.Constants.{ack_defer}
use go_hydra.Config.{defer, FileOffer, FileInfo}
use go_hydra.FileInfo.{finfo_eob}
use go_hydra.Batch.{Answer, rx_completed, Batch, note}
use go_hydra.Batch.Send.{pick_offer, next_offer, announce, prepare_finfo}
use go_hydra.Batch.Receive.{take_answer}

-- What `NextFile` of `noSend` has to offer, and what `AcceptFile` of `noRecv` answers.
abbrev no_send : List FileOffer
no_send = []

abbrev no_recv : Answer
no_recv = record { has_writer = false; offset = pos 0; err = some defer }

-- Every file is put off to a later batch, and nothing is opened.
no_recv_defers :
    (b : Batch) (info : FileInfo)
    → take_answer b info no_recv ≡ (note b (rx_completed info 0 (some defer)), ack_defer)
unfolding take_answer
no_recv_defers b info = refl

-- The first FINFO is the end of the batch.
no_send_ends :
    (b : Batch)
    → b.files ≡ no_send
    → b.tx.offer ≡ none
    → b.tx.batch_ended ≡ false
    → (prepare_finfo b).tx.last_finfo ≡ some finfo_eob
unfolding prepare_finfo next_offer announce pick_offer
no_send_ends b files offer more = ground arith
