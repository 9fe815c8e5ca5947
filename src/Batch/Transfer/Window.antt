-- ===== src/Batch/Transfer/Window.antt =====
-- tx.go and rx.go: the blocks of a file under a window, acknowledged one by one.
use go_hydra.Base.{
  if_yes, if_no, ℕ, ◌+◌, ◌≤◌, ◌<◌, ◌≡◌, ◌≢◌, refl, ◌∙◌, sym, ap, subst, true, false, not, ◌&&◌, ◌⊎◌,
  Bool-cases, inl, inr, List, [], ◌∷◌, ◌++◌, append_assoc, append-nil, Bytes, All, arith, ◌==◌, ltb,
  leb, length, length-append,
}
use go_hydra.Base.Int.{pos}
use go_hydra.Constants.{pkt_data, pkt_dataack, safe_max_offset}
use go_hydra.Packet.{marshal_data, marshal_offset}
use go_hydra.Packet.RoundTrip.{parse-marshal}
use go_hydra.Batch.{
  sent, tx_progress, xdata, data_ack, Environment, Batch, ok, note, arm_tx, set_tx_state,
}
use go_hydra.BlockSize.{good}
use go_hydra.Batch.Send.{send_block, tx_data_ack}
use go_hydra.Batch.Loop.{Item, arrived, drain, handle_packet, sync, sync_in}
use go_hydra.Batch.Induction.{bind-ok}
use go_hydra.Batch.Transfer.{
  packets, acks_of, contents, joined, data_packet, IsReceiving, IsWilling, write_taken, sync-rx,
  take_block-IsReceiving, rx_on_data-IsReceiving, drain_packet,
}
use go_hydra.Batch.Transfer.Sending.{length-nonempty}

-- The blocks of a file in turn: the sender sends one, the receiver drains its frames, and the sender
-- drains what the receiver has answered.
pub data Exchange (here there : Environment)
    : List Bytes → Batch → Batch → Batch → Batch → Type 0 where
  finished : {s r : Batch} → Exchange here there [] s r s r
  exchanged :
      {block : Bytes} {blocks : List Bytes} {s s1 s2 s3 r r1 r2 : Batch} (items acks : List Item)
      → send_block here s block ≡ ok s1
      → packets s1.log ≡ packets s.log ++ items
      → drain there items r ≡ ok r1
      → packets r1.log ≡ packets r.log ++ acks
      → drain here acks s1 ≡ ok s2
      → Exchange here there blocks s2 r1 s3 r2
      → Exchange here there (block ∷ blocks) s r s3 r2

-- The sender may send at offset `p` under the window `w`: what it has sent is acknowledged.
pub record IsFlowing (w p : ℕ) (b : Batch) : Type 0 where
  pub state : b.tx.state ≡ xdata
  pub position : b.tx.position ≡ p
  pub window : b.link.tx_window ≡ w
  pub both_ways : b.tx.hdxlink ≡ false
  pub acked : (ltb 0 w && not (b.tx.last_ack == p)) ≡ false

-- It has sent up to `p`, and its acknowledgement may be missing from `q` on.
record IsSent (w q p : ℕ) (b : Batch) : Type 0 where
  state : (b.tx.state ≡ xdata) ⊎ ((b.tx.state ≡ data_ack) × (0 < w))
  position : b.tx.position ≡ p
  window : b.link.tx_window ≡ w
  both_ways : b.tx.hdxlink ≡ false
  acked : (ltb 0 w && not (b.tx.last_ack == q)) ≡ false

-- An acknowledgement of all that has been sent lets the sender go on.
tx_data_ack-IsFlowing :
    (b : Batch) (w q p : ℕ)
    → IsSent w q p b
    → 0 < w
    → q < p
    → p ≤ safe_max_offset
    → IsFlowing w p (tx_data_ack b (record { typ = pkt_dataack; payload = marshal_offset (pos p) }))
unfolding tx_data_ack
tx_data_ack-IsFlowing b w q p h windowed ahead room =
    let parsed = (parse-marshal (pos p) [] 0 0 (omega arith) (omega arith) (omega arith)).0 in
    ground (arith, parsed)

sync-IsFlowing : (b : Batch) (w p : ℕ) → IsFlowing w p b → IsFlowing w p (sync b)
unfolding sync_in
sync-IsFlowing b w p h = ground arith

sync-rx_window : (b : Batch) → (sync b).link.rx_window ≡ b.link.rx_window
unfolding sync_in
sync-rx_window b = ground arith

module _ (env : Environment) (willing : IsWilling env) where
  send_block-IsSent :
      (b : Batch) (w p : ℕ) (block : Bytes)
      → IsFlowing w p b
      → block ≢ []
      → p + length block ≤ safe_max_offset
      → (b1 : Batch) × (send_block env b block ≡ ok b1)
        × IsSent w p (p + length block) b1
        × (packets b1.log ≡ packets b.log ++ (arrived (data_packet p block) ∷ []))
  unfolding send_block arm_tx
  send_block-IsSent b w p block h some_bytes room =
      let n = length block in
      let payload = marshal_data (pos b.tx.position) block in
      let b1 = note b (sent pkt_data payload b.link.opts b.link.prefix) in
      let position = b1.tx.position + n in
      let b2 = record b1 {
        tx = record b1.tx { position = position; blk = good b1.tx.blk n };
        log = tx_progress b1.tx.info position ∷ b1.log;
      } in
      let fits : ltb safe_max_offset (b.tx.position + n) ≡ false = ground (arith, h.position) in
      let full = ltb 0 b2.link.tx_window && leb (b2.tx.last_ack + b2.link.tx_window) position in
      let sends =
        if_no _ _ _ (length-nonempty block some_bytes)
        ∙ if_no _ _ _ fits
        ∙ bind-ok _ b1 _ (write_taken env willing b pkt_data payload b.link.opts) in
      let told = ap (λ x. packets b.log ++ (arrived (data_packet x block) ∷ [])) h.position in
      let moved = ap (λ x. x + n) h.position in
      elim (Bool-cases full) [
        | inl waits ↦ (
          set_tx_state (arm_tx b2) data_ack,
          sends ∙ if_yes _ _ _ waits,
          record {
            state = inr (refl, ground (arith, waits, h.window));
            position = moved;
            window = h.window;
            both_ways = h.both_ways;
            acked = h.acked;
          },
          told,
        )
        | inr goes_on ↦ (
          record b2 { tx = record b2.tx { productive = true } },
          sends ∙ if_no _ _ _ goes_on,
          record {
            state = inl h.state;
            position = moved;
            window = h.window;
            both_ways = h.both_ways;
            acked = h.acked;
          },
          told,
        )
      ]

  -- What the receiver answers lets the sender go on, whatever the window.
  drain_acks-IsFlowing :
      (b : Batch) (w q p : ℕ)
      → IsSent w q p b
      → q < p
      → p ≤ safe_max_offset
      → (b1 : Batch) × (drain env (acks_of w p) b ≡ ok b1) × IsFlowing w p b1
  unfolding drain handle_packet
  drain_acks-IsFlowing b w q p h ahead room = elim (Bool-cases (ltb 0 w)) [
    | inl windowed ↦
        let b1 = tx_data_ack b (record { typ = pkt_dataack; payload = marshal_offset (pos p) }) in
        let flows = tx_data_ack-IsFlowing b w q p h (ground arith) ahead room in
        (
          sync b1,
          ap (λ items. drain env items b) (if_yes _ _ _ windowed),
          sync-IsFlowing b1 w p flows,
        )
    | inr streams ↦ (b, ap (λ items. drain env items b) (if_no _ _ _ streams), ground arith)
  ]

  -- The receiver's part.
  drain_block-IsReceiving :
      (b : Batch) (p : ℕ) (block : Bytes)
      → IsReceiving p b
      → p + length block ≤ safe_max_offset
      → (b1 : Batch) × (drain env (arrived (data_packet p block) ∷ []) b ≡ ok b1)
        × IsReceiving (p + length block) b1
        × (contents b1.log ≡ contents b.log ++ block)
        × (b1.link.rx_window ≡ b.link.rx_window)
        × (packets b1.log ≡ packets b.log ++ acks_of b.link.rx_window (p + length block))
  unfolding drain
  drain_block-IsReceiving b p block h room =
      let (b1, e, after, one, kept, answered) =
        take_block-IsReceiving env willing b p block h room in
      let (rx, log) = sync-rx env willing b1 in
      (
        sync b1,
        drain_packet env willing b b1 (data_packet p block) []
            (rx_on_data-IsReceiving env willing b p block h room ∙ e),
        record {
          state = ap (λ x. x.state) rx ∙ after.state;
          writer = ap (λ x. x.writer) rx ∙ after.writer;
          position = ap (λ x. x.position) rx ∙ after.position;
        },
        ap contents log ∙ one,
        sync-rx_window b1 ∙ answered.window,
        ap packets log ∙ answered.acks,
      )

length-some : (block : Bytes) → block ≢ [] → 0 < length block
length-some [] h = absurd (h refl)
length-some (c ∷ block) h = omega arith

-- A sender and a receiver at the same offset, with the same window at both ends, be it none, and
-- with transports and a file that take everything: any blocks up to the largest offset, none empty,
-- can be exchanged one by one, and behind each the sender may send again. At the end the receiver's
-- file has grown by exactly the blocks, and both ends are at the offset behind them.
pub windowed_transfer :
    (here there : Environment) (blocks : List Bytes) (w p : ℕ) (sender receiver : Batch)
    → IsWilling here
    → IsWilling there
    → IsFlowing w p sender
    → IsReceiving p receiver
    → receiver.link.rx_window ≡ w
    → All (λ block. block ≢ []) blocks
    → p + length (joined blocks) ≤ safe_max_offset
    → (s : Batch) × (r : Batch) × Exchange here there blocks sender receiver s r
      × (contents r.log ≡ contents receiver.log ++ joined blocks)
      × IsFlowing w (p + length (joined blocks)) s
      × IsReceiving (p + length (joined blocks)) r
windowed_transfer here there [] w p sender receiver ours theirs hs hr agreed full room = (
  sender,
  receiver,
  finished,
  sym (append-nil (contents receiver.log)),
  subst (λ n. IsFlowing w n sender) (omega arith) hs,
  subst (λ n. IsReceiving n receiver) (omega arith) hr,
)
windowed_transfer here there (block ∷ blocks) w p sender receiver ours theirs hs hr agreed full
      room =
    let size = length-append block (joined blocks) in
    let q = p + length block in
    let fits : q ≤ safe_max_offset = omega (arith, size) in
    let (s1, e1, is_sent, items) = send_block-IsSent here ours sender w p block hs full.0 fits in
    let (r1, e2, receives, grown, window, acks) =
      drain_block-IsReceiving there theirs receiver p block hr fits in
    let (s2, e3, flows) =
      drain_acks-IsFlowing here ours s1 w p q is_sent (omega (arith, length-some block full.0))
        fits in
    let (s, r, rest, all_grown, at_end, at_end') =
      windowed_transfer here there blocks w q s2 r1 ours theirs flows receives (window ∙ agreed)
        full.1 (omega (arith, size)) in
    (
      s,
      r,
      exchanged (arrived (data_packet p block) ∷ []) (acks_of w q) e1 items e2
          (acks ∙ ap (λ x. packets receiver.log ++ acks_of x q) agreed) e3 rest,
      all_grown
          ∙ ap (λ x. x ++ joined blocks) grown
          ∙ append_assoc (contents receiver.log) block (joined blocks),
      subst (λ n. IsFlowing w n s) (omega (arith, size)) at_end,
      subst (λ n. IsReceiving n r) (omega (arith, size)) at_end',
    )
