-- ===== src/Batch/Transfer.antt =====
-- tx.go and rx.go: the blocks of a file, from the sender's log into the receiver's file.
pub mod Sending
pub mod Whole
pub mod OverWire
pub mod Ending
pub mod Window
use go_hydra.Base.{
  at_some, if_yes, if_no, ℕ, ◌+◌, ◌≤◌, ◌≡◌, refl, ◌∙◌, sym, ap, subst, Bool, true, false, not, ◌||◌,
  Bool-cases, inl, inr, List, [], ◌∷◌, ◌++◌, append_assoc, append-nil, none, some, Bytes, arith,
  ltb, length, length-append, if◌then◌else◌,
}
use go_hydra.Base.Int.{pos, eqb_ℤ, ltb_ℤ, add_ℕ}
use go_hydra.Constants.{pkt_data, pkt_dataack, safe_max_offset}
use go_hydra.Packet.{Packet, marshal_data, parse_data, marshal_offset}
use go_hydra.Config.{Error}
use go_hydra.Packet.RoundTrip.{parse-marshal}
use go_hydra.Batch.{
  Event, accepted, stored, sent, rx_progress, rx_data, Environment, Batch, Ran, ok, note,
  write_with, feed_braindead,
}
use go_hydra.Batch.Receive.{take_stored, take_block, rx_on_data, is_rx_data}
use go_hydra.Batch.Loop.{Item, arrived, handle_packet, sync_in, sync, drain}

-- What the file in hand holds: the blocks stored since it was accepted.
abbrev pub contents : List Event → Bytes
contents [] = []
contents (stored bytes ∷ log) = contents log ++ bytes
contents (accepted _ _ ∷ log) = []
contents (_ ∷ log) = contents log

abbrev pub joined : List Bytes → Bytes
joined [] = []
joined (block ∷ blocks) = block ++ joined blocks

abbrev pub data_packet : ℕ → Bytes → Packet
data_packet p block = record { typ = pkt_data; payload = marshal_data (pos p) block }

-- The DATA packets of some blocks, the first at offset `p`.
abbrev pub data_items : ℕ → List Bytes → List Item
data_items p [] = []
data_items p (block ∷ blocks) = arrived (data_packet p block) ∷ data_items (p + length block) blocks

-- The packets that have been sent, oldest first.
abbrev pub packets : List Event → List Item
packets [] = []
packets (sent typ payload _ _ ∷ log) =
    packets log ++ (arrived (record { typ = typ; payload = payload }) ∷ [])
packets (_ ∷ log) = packets log

-- The acknowledgements of a receiver with window `w`, at offset `p`.
abbrev pub acks_of : ℕ → ℕ → List Item
acks_of w p =
    if ltb 0 w
    then arrived (record { typ = pkt_dataack; payload = marshal_offset (pos p) }) ∷ []
    else []

-- The receiver is in the middle of a file, at offset `p`.
pub record IsReceiving (p : ℕ) (b : Batch) : Type 0 where
  pub state : b.rx.state ≡ rx_data
  pub writer : b.rx.writer ≡ true
  pub position : b.rx.position ≡ pos p

-- The file in hand has stayed the same.
pub record IsSameFile (b b1 : Batch) : Type 0 where
  pub opened : b1.rx.open_file ≡ b.rx.open_file
  pub info : b1.rx.info ≡ b.rx.info

-- It has been acknowledged up to `p`, as the window asks.
pub record IsAnswered (p : ℕ) (b b1 : Batch) : Type 0 where
  pub window : b1.link.rx_window ≡ b.link.rx_window
  pub acks : packets b1.log ≡ packets b.log ++ acks_of b.link.rx_window p

-- A transport that takes every frame and a file that takes every block.
pub record IsWilling (env : Environment) : Type 0 where
  pub takes_all : (log : List Event) → env.transport log ≡ none
  pub stores_all : (log : List Event) (bytes : Bytes) → env.store log bytes ≡ none

parse_data_packet :
    (p : ℕ) (block : Bytes)
    → p ≤ safe_max_offset
    → parse_data (marshal_data (pos p) block) ≡ some (record { offset = pos p; bytes = block })
parse_data_packet p block h =
    (parse-marshal (pos p) block 0 0 (omega arith) (omega arith) (omega arith)).1

module _ (env : Environment) (willing : IsWilling env) where
  pub write_taken :
      (b : Batch) (typ : ℕ) (payload : Bytes) (opts : ℕ)
      → write_with env b typ payload opts ≡ ok (note b (sent typ payload opts b.link.prefix))
  unfolding write_with
  write_taken b typ payload opts = rw (willing.takes_all b.log, write_with) refl

  stored_taken :
      (log : List Event) (block : Bytes) (r : Ran) (f : Error → Ran)
      → (elim (env.store log block) [ some e ↦ f e | none ↦ r ]) ≡ r
  stored_taken log block r f = rw (willing.stores_all log block) refl

  -- A stored block at offset `p`: the position moves on, and the acknowledgement is no block.
  take_stored-IsReceiving :
      (b : Batch) (p : ℕ) (block : Bytes)
      → IsReceiving p b
      → p + length block ≤ safe_max_offset
      → (b1 : Batch) × (take_stored env b block ≡ ok b1)
        × IsReceiving (p + length block) b1
        × (contents b1.log ≡ contents b.log)
        × IsSameFile b b1
        × IsAnswered (p + length block) b b1
  unfolding take_stored
  take_stored-IsReceiving b p block h room =
      let moved : add_ℕ b.rx.position (length block) ≡ pos (p + length block) =
        ap (λ x. add_ℕ x (length block)) h.position in
      let small : ltb_ℤ (pos safe_max_offset) (add_ℕ b.rx.position (length block)) ≡ false =
        rw moved (ground arith) in
      let b1 = record b {
        rx = record b.rx {
          retries = 0;
          timer = none;
          last_sync = b.rx.position;
          position = add_ℕ b.rx.position (length block);
        };
      } in
      let b2 = note b1 (rx_progress b1.rx.info b1.rx.position) in
      let there : IsReceiving (p + length block) b2 = record {
        state = h.state;
        writer = h.writer;
        position = moved;
      } in
      let ack = marshal_offset b2.rx.position in
      elim (Bool-cases (ltb 0 b.link.rx_window)) [
        | inl w ↦ (
          note b2 (sent pkt_dataack ack b2.link.opts b2.link.prefix),
          if_no _ _ _ small ∙ if_yes _ _ _ w ∙ write_taken b2 pkt_dataack ack b2.link.opts,
          record { state = h.state; writer = h.writer; position = moved },
          refl,
          record { opened = refl; info = refl },
          record {
            window = refl;
            acks =
                ap
                  (λ x.
                    packets b.log
                    ++ (arrived (record { typ = pkt_dataack; payload = marshal_offset x }) ∷ []))
                  moved
                ∙ ap (λ x. packets b.log ++ x) (sym (if_yes _ _ _ w));
          },
        )
        | inr w ↦ (
          b2,
          if_no _ _ _ small ∙ if_no _ _ _ w,
          there,
          refl,
          record { opened = refl; info = refl },
          record {
            window = refl;
            acks =
                sym (append-nil (packets b.log))
                ∙ ap (λ x. packets b.log ++ x) (sym (if_no _ _ _ w));
          },
        )
      ]

  pub take_block-IsReceiving :
      (b : Batch) (p : ℕ) (block : Bytes)
      → IsReceiving p b
      → p + length block ≤ safe_max_offset
      → (b1 : Batch) × (take_block env b block ≡ ok b1)
        × IsReceiving (p + length block) b1
        × (contents b1.log ≡ contents b.log ++ block)
        × IsSameFile b b1
        × IsAnswered (p + length block) b b1
  unfolding take_block feed_braindead
  take_block-IsReceiving b p block h room =
      let b0 = feed_braindead b in
      let b1 = record b0 { rx = record b0.rx { blk_len = length block } } in
      let b2 = note b1 (stored block) in
      let there : IsReceiving p b2 = record {
        state = h.state;
        writer = h.writer;
        position = h.position;
      } in
      let (b3, e, after, same, kept, answered) = take_stored-IsReceiving b2 p block there room in
      let has_writer : not b1.rx.writer ≡ false = ap not h.writer in
      let chosen = if_no _ _ _ has_writer in
      (
        b3,
        chosen ∙ stored_taken b1.log block _ _ ∙ e,
        after,
        same,
        record { opened = kept.opened; info = kept.info },
        record { window = answered.window; acks = answered.acks },
      )

  pub rx_on_data-IsReceiving :
      (b : Batch) (p : ℕ) (block : Bytes)
      → IsReceiving p b
      → p + length block ≤ safe_max_offset
      → rx_on_data env b (data_packet p block) ≡ take_block env b block
  unfolding rx_on_data
  rx_on_data-IsReceiving b p block h room =
      let parsed = parse_data_packet p block (omega arith) in
      let in_data : not (is_rx_data b.rx.state) ≡ false = ap (λ x. not (is_rx_data x)) h.state in
      let here : (not (eqb_ℤ (pos p) b.rx.position) || ltb_ℤ (pos p) (pos 0)) ≡ false =
        rw h.position (ground arith) in
      if_no _ _ _ in_data ∙ at_some _ _ _ _ parsed ∙ if_no _ _ _ here

  pub drain_packet :
      (b b1 : Batch) (pkt : Packet) (items : List Item)
      → rx_on_data env b (record { typ = pkt_data; payload = pkt.payload }) ≡ ok b1
      → drain env (arrived (record { typ = pkt_data; payload = pkt.payload }) ∷ items) b
        ≡ drain env items (sync b1)
  unfolding drain handle_packet
  drain_packet b b1 pkt items e = rw e refl

  pub sync-rx : (b : Batch) → ((sync b).rx ≡ b.rx) × ((sync b).log ≡ b.log)
  unfolding sync_in
  sync-rx b = ground arith

  -- The packets of some blocks, received one behind the other.
  pub drain-data_items :
      (blocks : List Bytes) (p : ℕ) (b : Batch)
      → IsReceiving p b
      → p + length (joined blocks) ≤ safe_max_offset
      → (b1 : Batch) × (drain env (data_items p blocks) b ≡ ok b1)
        × IsReceiving (p + length (joined blocks)) b1
        × (contents b1.log ≡ contents b.log ++ joined blocks)
        × IsSameFile b b1
  drain-data_items [] p b h room = (
    b,
    unfold drain in refl,
    subst (λ n. IsReceiving n b) (omega arith) h,
    sym (append-nil (contents b.log)),
    record { opened = refl; info = refl },
  )
  drain-data_items (block ∷ blocks) p b h room =
      let size = length-append block (joined blocks) in
      let (b1, e, after, one, kept, _) = take_block-IsReceiving b p block h (omega (arith, size)) in
      let (rx, log) = sync-rx b1 in
      let there : IsReceiving (p + length block) (sync b1) = record {
        state = ap (λ x. x.state) rx ∙ after.state;
        writer = ap (λ x. x.writer) rx ∙ after.writer;
        position = ap (λ x. x.position) rx ∙ after.position;
      } in
      let (b2, e2, after2, rest, kept2) =
        drain-data_items blocks (p + length block) (sync b1) there (omega (arith, size)) in
      (
        b2,
        drain_packet b b1 (data_packet p block) (data_items (p + length block) blocks)
              (rx_on_data-IsReceiving b p block h (omega (arith, size)) ∙ e)
            ∙ e2,
        subst (λ n. IsReceiving n b2) (omega (arith, size)) after2,
        rest
            ∙ ap (λ x. x ++ joined blocks) (ap contents log ∙ one)
            ∙ append_assoc (contents b.log) block (joined blocks),
        record {
          opened = kept2.opened ∙ ap (λ x. x.open_file) rx ∙ kept.opened;
          info = kept2.info ∙ ap (λ x. x.info) rx ∙ kept.info;
        },
      )
