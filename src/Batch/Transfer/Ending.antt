-- ===== src/Batch/Transfer/Ending.antt =====
-- tx.go and rx.go: the end of a file: EOF, its acknowledgement, and the reports at both ends.
use go_hydra.Base.{
  at_some, if_no, ℕ, ◌+◌, ◌≤◌, ◌≡◌, ◌≢◌, refl, ◌∙◌, ap, true, false, not, if◌then◌else◌, List, [],
  ◌∷◌, ◌++◌, append_assoc, Option, none, some, Bytes, All, arith, length,
}
use go_hydra.Base.Int.{pos, eqb_ℤ, ltb_ℤ}
use go_hydra.Constants.{pkt_eof, pkt_eofack, safe_max_offset, offset_skip}
use go_hydra.Config.{Error, FileInfo}
use go_hydra.Packet.{Packet, marshal_offset}
use go_hydra.Packet.RoundTrip.{parse-marshal}
use go_hydra.Batch.{
  Event, sent, tx_completed, rx_completed, eof, eof_ack, finfo, rx_finfo, Environment, Batch, Ran,
  ok, fail, ◌>>=◌, note, write_with, set_tx_state, feed_braindead, arm_tx,
}
use go_hydra.Batch.Send.{
  send_block, tx_action_in, tx_action, tx_eof_ack, finish_tx_file, close_offer,
}
use go_hydra.Batch.Receive.{rx_close_file, take_eof, rx_on_eof_in, rx_on_eof, set_rx_state}
use go_hydra.Batch.Device.{queue_dev}
use go_hydra.Batch.Loop.{Item, arrived, requested, drain, handle_packet, sync, sync_in}
use go_hydra.Batch.Induction.{bind-ok}
use go_hydra.Batch.Transfer.{
  packets, contents, joined, data_items, IsReceiving, IsWilling, write_taken, sync-rx,
  drain-data_items,
}
use go_hydra.Batch.Transfer.Sending.{send_blocks, IsSending, send_blocks-packets}

-- The newest report on a file, of the receiving and of the sending side, and the newest frame.
abbrev pub last_received : List Event → Option (FileInfo × ℕ × Option Error)
last_received [] = none
last_received (rx_completed info n e ∷ log) = some (info, n, e)
last_received (_ ∷ log) = last_received log

abbrev pub last_delivered : List Event → Option (FileInfo × ℕ × Option Error)
last_delivered [] = none
last_delivered (tx_completed info n e ∷ log) = some (info, n, e)
last_delivered (_ ∷ log) = last_delivered log

abbrev pub last_frame : List Event → Option Packet
last_frame [] = none
last_frame (sent typ payload _ _ ∷ log) = some (record { typ = typ; payload = payload })
last_frame (_ ∷ log) = last_frame log

abbrev pub eof_packet : ℕ → Packet
eof_packet p = record { typ = pkt_eof; payload = marshal_offset (pos p) }

abbrev pub eofack_packet : Packet
eofack_packet = record { typ = pkt_eofack; payload = [] }

-- `send_block` on a read that gives nothing, and then the action of the state that it goes to, without
-- what the event loop does between the two: its device action, `sync` and `pump`.
abbrev pub end_file : Environment → Batch → Ran
end_file env b = send_block env b [] >>= tx_action env

-- The sender has sent the EOF of a file of `p` bytes.
pub record IsEnding (p : ℕ) (b : Batch) : Type 0 where
  pub state : b.tx.state ≡ eof_ack
  pub waits : b.tx.eof_ack_wait ≡ true
  pub skip : b.tx.skip ≡ false
  pub position : b.tx.position ≡ p

-- The file is closed, and reported without an error.
rx_close_file-told :
    (b : Batch) (p : ℕ)
    → IsReceiving p b
    → b.rx.open_file ≡ true
    → let b1 = rx_close_file b none in
      (b1.rx.open_file ≡ false)
      × (last_received b1.log ≡ some (b.rx.info, p, none))
      × (contents b1.log ≡ contents b.log)
unfolding rx_close_file
rx_close_file-told b p h opened = ground arith

module _ (env : Environment) (willing : IsWilling env) where
  end_file-IsEnding :
      (b : Batch) (p : ℕ)
      → IsSending p b
      → b.tx.skip ≡ false
      → (b1 : Batch) × (end_file env b ≡ ok b1)
        × IsEnding p b1
        × (b1.tx.info ≡ b.tx.info)
        × (packets b1.log ≡ packets b.log ++ (arrived (eof_packet p) ∷ []))
  unfolding send_block tx_action_in arm_tx write_with
  end_file-IsEnding b p h kept =
      let b1 = record b { tx = record b.tx { state = eof; productive = true } } in
      let payload = marshal_offset (if b1.tx.skip then offset_skip else pos b1.tx.position) in
      let b2 = note b1 (sent pkt_eof payload b1.link.opts b1.link.prefix) in
      let same : payload ≡ marshal_offset (pos p) =
        ap marshal_offset (if_no _ _ _ kept ∙ ap pos h.position) in
      (
        set_tx_state (arm_tx (record b2 { tx = record b2.tx { eof_ack_wait = true } })) eof_ack,
        bind-ok _ b2 _ (write_taken env willing b1 pkt_eof payload b1.link.opts),
        record { state = refl; waits = refl; skip = kept; position = h.position },
        refl,
        ap (λ x. packets b.log ++ (arrived (record { typ = pkt_eof; payload = x }) ∷ [])) same,
      )

  rx_on_eof-closed :
      (b : Batch) (p : ℕ)
      → IsReceiving p b
      → b.rx.open_file ≡ true
      → p ≤ safe_max_offset
      → (b1 : Batch) × (rx_on_eof env b (eof_packet p) ≡ ok b1)
        × (b1.rx.open_file ≡ false)
        × (b1.rx.state ≡ rx_finfo)
        × (last_received b1.log ≡ some (b.rx.info, p, none))
        × (last_frame b1.log ≡ some eofack_packet)
        × (contents b1.log ≡ contents b.log)
  unfolding rx_on_eof_in take_eof feed_braindead
  rx_on_eof-closed b p h opened room =
      let (there, told, same) = rx_close_file-told b p h opened in
      let b1 = feed_braindead (set_rx_state (rx_close_file b none) rx_finfo) in
      let parsed = (parse-marshal (pos p) [] 0 0 (omega arith) (omega arith) (omega arith)).0 in
      let forward : ltb_ℤ (pos p) (pos 0) ≡ false = ground arith in
      let here : not (eqb_ℤ (pos p) b.rx.position) ≡ false = rw h.position (ground arith) in
      (
        note b1 (sent pkt_eofack [] b1.link.opts b1.link.prefix),
        ap (λ s. rx_on_eof_in s env b (eof_packet p)) h.state
            ∙ at_some _ _ _ _ parsed
            ∙ if_no _ _ _ forward
            ∙ if_no _ _ _ here
            ∙ write_taken env willing b1 pkt_eofack [] b1.link.opts,
        there,
        refl,
        told,
        refl,
        same,
      )

tx_eof_ack-reported :
    (b : Batch) (p : ℕ)
    → IsEnding p b
    → (last_delivered (tx_eof_ack b).log ≡ some (b.tx.info, p, none))
      × ((tx_eof_ack b).tx.state ≡ finfo)
unfolding tx_eof_ack finish_tx_file close_offer feed_braindead
tx_eof_ack-reported b p h = ground arith

bind_after :
    (r : Ran) (f g h : Batch → Ran)
    → ((b : Batch) → h b ≡ (f b >>= g))
    → (r >>= h) ≡ ((r >>= f) >>= g)
bind_after (ok b) f g h same = same b
bind_after (fail e b) f g h same = refl

drain-append :
    (env : Environment) (items more : List Item) (b : Batch)
    → drain env (items ++ more) b ≡ (drain env items b >>= drain env more)
unfolding drain
drain-append env [] more b = refl
drain-append env (arrived pkt ∷ items) more b =
    bind_after (handle_packet env b pkt) _ _ _ (λ b1. drain-append env items more (sync b1))
drain-append env (requested name payload ∷ items) more b =
    drain-append env items more (queue_dev b name payload)

drain_eof :
    (env : Environment) (b b1 : Batch) (p : ℕ)
    → rx_on_eof env b (eof_packet p) ≡ ok b1
    → drain env (arrived (eof_packet p) ∷ []) b ≡ ok (sync b1)
unfolding drain handle_packet
drain_eof env b b1 p e = rw e refl

drain_eofack :
    (env : Environment) (b : Batch)
    → drain env (arrived eofack_packet ∷ []) b ≡ ok (sync (tx_eof_ack b))
unfolding drain handle_packet
drain_eofack env b = refl

-- At FINFO the sender waits for nothing that `sync` looks at.
sync-finfo : (b : Batch) → b.tx.state ≡ finfo → sync b ≡ b
unfolding sync_in
sync-finfo b e = ground arith

-- A sender that streams a file and a receiver in the middle of it, both at offset `p`, with
-- transports and a file that take everything, and the last blocks up to the largest offset. The
-- sender sends them, comes to the end of the file and sends EOF; the receiver drains these packets;
-- the sender drains the answer. Every step succeeds; the receiver's file has grown by exactly the
-- blocks, is closed and reported with its whole length and no error, and the answer is EOFACK; the
-- sender reports the same length and no error, and is at FINFO for the next file.
pub drain-end_file :
    (here there : Environment) (blocks : List Bytes) (p : ℕ) (sender receiver : Batch)
    → IsWilling here
    → IsWilling there
    → IsSending p sender
    → sender.tx.skip ≡ false
    → IsReceiving p receiver
    → receiver.rx.open_file ≡ true
    → All (λ block. block ≢ []) blocks
    → p + length (joined blocks) ≤ safe_max_offset
    → let total = p + length (joined blocks) in
      (s : Batch) × (r : Batch) × (items : List Item) × ((send_blocks here blocks sender
          >>= end_file here)
        ≡ ok s)
      × (packets s.log ≡ packets sender.log ++ items)
      × (drain there items receiver ≡ ok r)
      × (contents r.log ≡ contents receiver.log ++ joined blocks)
      × (r.rx.open_file ≡ false)
      × (last_received r.log ≡ some (receiver.rx.info, total, none))
      × (last_frame r.log ≡ some eofack_packet)
      × (s2 : Batch) × (drain here (arrived eofack_packet ∷ []) s ≡ ok s2)
      × (last_delivered s2.log ≡ some (sender.tx.info, total, none))
      × (s2.tx.state ≡ finfo)
drain-end_file here there blocks p sender receiver willing willing' hs kept hr opened full room =
    let total = p + length (joined blocks) in
    let (s0, e0, sends, log0, same) =
      send_blocks-packets here willing blocks p sender hs full room in
    let (s, e1, ending, info, log1) =
      end_file-IsEnding here willing s0 total sends (same.skip ∙ kept) in
    let (r0, e2, receives, stored, file) =
      drain-data_items there willing' blocks p receiver hr room in
    let (r, e3, closed, state, told, answer, still) =
      rx_on_eof-closed there willing' r0 total receives (file.opened ∙ opened) room in
    let (rx, log) = sync-rx there willing' r in
    let (delivered, next) = tx_eof_ack-reported s total ending in
    let last = arrived (eof_packet total) ∷ [] in
    let items = data_items p blocks in
    let (_, log') = sync-rx here willing (tx_eof_ack s) in
    (
      s,
      sync r,
      items ++ last,
      ap (λ x. x >>= end_file here) e0 ∙ e1,
      log1 ∙ ap (λ x. x ++ last) log0 ∙ append_assoc (packets sender.log) items last,
      drain-append there items last receiver
          ∙ ap (λ x. x >>= drain there last) e2
          ∙ drain_eof there r0 r total e3,
      ap contents log ∙ still ∙ stored,
      ap (λ x. x.open_file) rx ∙ closed,
      ap last_received log ∙ told ∙ ap (λ x. some (x, total, none)) file.info,
      ap last_frame log ∙ answer,
      sync (tx_eof_ack s),
      drain_eofack here s,
      ap last_delivered log' ∙ delivered ∙ ap (λ x. some (x, total, none)) (info ∙ same.info),
      ap (λ x. x.tx.state) (sync-finfo (tx_eof_ack s) next) ∙ next,
    )
