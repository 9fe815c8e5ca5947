-- ===== src/Batch/Transfer/Whole.antt =====
-- tx.go and rx.go: the blocks of a file from end to end.
use go_hydra.Base.{ℕ, ◌+◌, ◌≤◌, ◌≡◌, ◌≢◌, List, [], ◌++◌, Bytes, All, length}
use go_hydra.Constants.{safe_max_offset}
use go_hydra.Batch.{Environment, Batch, ok}
use go_hydra.Batch.Loop.{Item, drain}
use go_hydra.Batch.Transfer.{
  packets, contents, joined, data_items, IsReceiving, IsWilling, drain-data_items,
}
use go_hydra.Batch.Transfer.Sending.{send_blocks, IsSending, send_blocks-packets}

-- A sender that streams a file and a receiver in the middle of it, both at offset `p`, with
-- transports and a file that take everything, and blocks up to the largest offset: both ends take
-- every step without an error, and where the packets that the sender's blocks put on the link are
-- what the receiver drains, its file has grown by exactly those blocks, and both are at the offset
-- behind them.
pub drain-send_blocks :
    (here there : Environment) (blocks : List Bytes) (p : ℕ) (sender receiver : Batch)
    → IsWilling here
    → IsWilling there
    → IsSending p sender
    → IsReceiving p receiver
    → All (λ block. block ≢ []) blocks
    → p + length (joined blocks) ≤ safe_max_offset
    → (s : Batch) × (r : Batch) × (items : List Item) × (send_blocks here blocks sender ≡ ok s)
      × (packets s.log ≡ packets sender.log ++ items)
      × (drain there items receiver ≡ ok r)
      × (contents r.log ≡ contents receiver.log ++ joined blocks)
      × IsSending (p + length (joined blocks)) s
      × IsReceiving (p + length (joined blocks)) r
drain-send_blocks here there blocks p sender receiver willing willing' hs hr full room =
    let (s, e, sends, log, _) = send_blocks-packets here willing blocks p sender hs full room in
    let (r, e', receives, log', _) = drain-data_items there willing' blocks p receiver hr room in
    (s, r, data_items p blocks, e, log, e', log', sends, receives)
