-- ===== src/Batch/Transfer/Sending.antt =====
-- tx.go: the blocks of a file, as DATA packets in the log.
use go_hydra.Base.{
  if_no, ℕ, ◌+◌, ◌≤◌, ◌≡◌, ◌≢◌, refl, ◌∙◌, sym, ap, subst, true, false, ◌&&◌, List, [], ◌∷◌, ◌++◌,
  append_assoc, append-nil, Bytes, All, arith, ◌==◌, ltb, leb, length, length-append,
}
use go_hydra.Base.Int.{pos}
use go_hydra.Constants.{pkt_data, safe_max_offset}
use go_hydra.Packet.{marshal_data}
use go_hydra.Batch.{sent, tx_progress, Environment, Batch, Ran, ok, ◌>>=◌, xdata, note}
use go_hydra.BlockSize.{good}
use go_hydra.Batch.Send.{send_block}
use go_hydra.Batch.Loop.{arrived}
use go_hydra.Batch.Induction.{bind-ok}
use go_hydra.Batch.Transfer.{packets, joined, data_items, data_packet, IsWilling, write_taken}

-- `send_block` on blocks that have been read, one behind the other, without the reads and without what
-- the event loop does between two of them.
abbrev pub send_blocks : Environment → List Bytes → Batch → Ran
send_blocks env [] b = ok b
send_blocks env (block ∷ blocks) b = send_block env b block >>= send_blocks env blocks

-- The transmitter is in the middle of a file, at offset `p`, and streams.
pub record IsSending (p : ℕ) (b : Batch) : Type 0 where
  pub state : b.tx.state ≡ xdata
  pub position : b.tx.position ≡ p
  pub streams : b.link.tx_window ≡ 0

-- The offer in hand has stayed the same.
pub record IsSameOffer (b b1 : Batch) : Type 0 where
  pub skip : b1.tx.skip ≡ b.tx.skip
  pub info : b1.tx.info ≡ b.tx.info

pub length-nonempty : (block : Bytes) → block ≢ [] → (length block == 0) ≡ false
length-nonempty [] h = absurd (h refl)
length-nonempty (c ∷ block) h = ground arith

module _ (env : Environment) (willing : IsWilling env) where
  send_block-IsSending :
      (b : Batch) (p : ℕ) (block : Bytes)
      → IsSending p b
      → block ≢ []
      → p + length block ≤ safe_max_offset
      → (b1 : Batch) × (send_block env b block ≡ ok b1)
        × IsSending (p + length block) b1
        × (packets b1.log ≡ packets b.log ++ (arrived (data_packet p block) ∷ []))
        × IsSameOffer b b1
  unfolding send_block
  send_block-IsSending b p block h some_bytes room =
      let n = length block in
      let payload = marshal_data (pos b.tx.position) block in
      let b1 = note b (sent pkt_data payload b.link.opts b.link.prefix) in
      let position = b1.tx.position + n in
      let b2 = record b1 {
        tx = record b1.tx { position = position; blk = good b1.tx.blk n };
        log = tx_progress b1.tx.info position ∷ b1.log;
      } in
      let fits : ltb safe_max_offset (b.tx.position + n) ≡ false = ground (arith, h.position) in
      let streams : (ltb 0 b2.link.tx_window && leb (b2.tx.last_ack + b2.link.tx_window) position)
          ≡ false =
        ground (arith, h.streams) in
      (
        record b2 { tx = record b2.tx { productive = true } },
        if_no _ _ _ (length-nonempty block some_bytes)
            ∙ if_no _ _ _ fits
            ∙ bind-ok _ b1 _ (write_taken env willing b pkt_data payload b.link.opts)
            ∙ if_no _ _ _ streams,
        record { state = h.state; position = ap (λ x. x + n) h.position; streams = h.streams },
        ap (λ x. packets b.log ++ (arrived (data_packet x block) ∷ [])) h.position,
        record { skip = refl; info = refl },
      )

  pub send_blocks-packets :
      (blocks : List Bytes) (p : ℕ) (b : Batch)
      → IsSending p b
      → All (λ block. block ≢ []) blocks
      → p + length (joined blocks) ≤ safe_max_offset
      → (b1 : Batch) × (send_blocks env blocks b ≡ ok b1)
        × IsSending (p + length (joined blocks)) b1
        × (packets b1.log ≡ packets b.log ++ data_items p blocks)
        × IsSameOffer b b1
  send_blocks-packets [] p b h full room = (
    b,
    refl,
    subst (λ n. IsSending n b) (omega arith) h,
    sym (append-nil (packets b.log)),
    record { skip = refl; info = refl },
  )
  send_blocks-packets (block ∷ blocks) p b h full room =
      let size = length-append block (joined blocks) in
      let (b1, e, after, one, kept) =
        send_block-IsSending b p block h full.0 (omega (arith, size)) in
      let (b2, e2, after2, rest, kept2) =
        send_blocks-packets blocks (p + length block) b1 after full.1 (omega (arith, size)) in
      (
        b2,
        ap (λ r. r >>= send_blocks env blocks) e ∙ e2,
        subst (λ n. IsSending n b2) (omega (arith, size)) after2,
        rest
            ∙ ap (λ x. x ++ data_items (p + length block) blocks) one
            ∙ append_assoc (packets b.log) (arrived (data_packet p block) ∷ [])
                (data_items (p + length block) blocks),
        record { skip = kept2.skip ∙ kept.skip; info = kept2.info ∙ kept.info },
      )
