-- ===== src/Batch/Offers/Sending.antt =====
-- tx.go: each file that is offered is reported once: the operations of the sender and the loop.
use go_hydra.Base.{
  ℕ, ◌≡◌, refl, Bool, true, false, not, ◌||◌, ◌==◌, List, [], ◌∷◌, Option, none, some, Bytes, arith,
  if◌then◌else◌, ◌+◌,
}
use go_hydra.Base.Int.{ℤ, pos, negsuc, ltb_ℤ}
use go_hydra.Config.{FileOffer, Error, file_too_large, handler_contract}
use go_hydra.Constants.{safe_max_offset, pkt_finfo}
use go_hydra.Packet.{Packet, RposPkt, parse_offset, parse_rpos}
use go_hydra.Packet.Device.{parse_dev_data}
use go_hydra.Batch.{
  TxState, start, swait, init, init_ack, rinit, finfo, finfo_ack, xdata, data_ack, xwait, eof,
  eof_ack, rend, end, end_ack, done, offered, Environment, Batch, note, write_with, write,
  feed_braindead, arm_tx,
}
use go_hydra.Batch.Send.{
  close_offer, reject_offer, pick_offer, prepare_finfo, send_finfo, next_offer, announce,
  prepare_if, payload_or_empty, send_init, send_block, send_data, tx_action_in, finish_tx_file,
  seek_to, take_finfo_ack, tx_finfo_ack, tx_data_ack, take_rpos, tx_rpos, tx_eof_ack, tx_idle,
  tx_end, transferring, in_finfo,
}
use go_hydra.Batch.Device.{
  queue_dev, promote, send_pending, dev_action, dev_timeout, dev_rx, dev_dack_from, dev_on_dack,
}
use go_hydra.Batch.Loop.{sync_in, sync, on_start, on_initack, tx_timeout, fire_dev_timer}
use go_hydra.Batch.Induction.{
  Holds, ok-Holds, fail-Holds, bind-turns-Holds, if-Holds, option-Holds, option-ind, if-ind,
  source-ind, write_with-Holds,
}
use go_hydra.Batch.Offers.{offers, tx_reports, in_hand, is_held, IsTxCounted}

pub on_start-IsTxCounted : (b : Batch) → IsTxCounted b → IsTxCounted (on_start b)
unfolding on_start feed_braindead
on_start-IsTxCounted b h = ground arith

pub on_initack-IsTxCounted : (b : Batch) → IsTxCounted b → IsTxCounted (on_initack b)
unfolding on_initack feed_braindead
on_initack-IsTxCounted b h = ground arith

pub sync-IsTxCounted : (b : Batch) → IsTxCounted b → IsTxCounted (sync b)
unfolding sync_in
sync-IsTxCounted b h = ground arith

pub tx_idle-IsTxCounted : (b : Batch) → IsTxCounted b → IsTxCounted (tx_idle b)
unfolding tx_idle feed_braindead
tx_idle-IsTxCounted b h = ground arith

pub tx_data_ack-IsTxCounted :
    (b : Batch) (pkt : Packet) → IsTxCounted b → IsTxCounted (tx_data_ack b pkt)
unfolding tx_data_ack
tx_data_ack-IsTxCounted b pkt h = ground arith

take_end-IsTxCounted :
    (env : Environment) (b : Batch)
    → b.tx.eob ≡ true
    → IsTxCounted b
    → IsTxCounted (take_finfo_ack env b none)
unfolding take_finfo_ack feed_braindead
take_end-IsTxCounted env b last h = ground arith

take_offset-IsTxCounted :
    (env : Environment) (b : Batch) (n : ℕ)
    → b.tx.eob ≡ false
    → b.tx.finfo_ack_wait ≡ true
    → IsTxCounted b
    → IsTxCounted (take_finfo_ack env b (some (pos n)))
unfolding take_finfo_ack seek_to finish_tx_file close_offer feed_braindead
take_offset-IsTxCounted env b n more waiting h = ground arith

take_refusal-IsTxCounted :
    (env : Environment) (b : Batch) (n : ℕ)
    → b.tx.eob ≡ false
    → b.tx.finfo_ack_wait ≡ true
    → IsTxCounted b
    → IsTxCounted (take_finfo_ack env b (some (negsuc n)))
unfolding take_finfo_ack finish_tx_file close_offer feed_braindead
take_refusal-IsTxCounted env b n more waiting h = ground arith

take_answered-IsTxCounted :
    (env : Environment) (b : Batch) (offset : ℤ)
    → b.tx.eob ≡ false
    → b.tx.finfo_ack_wait ≡ true
    → IsTxCounted b
    → IsTxCounted (take_finfo_ack env b (some offset))
take_answered-IsTxCounted env b (pos n) more waiting h =
    take_offset-IsTxCounted env b n more waiting h
take_answered-IsTxCounted env b (negsuc n) more waiting h =
    take_refusal-IsTxCounted env b n more waiting h

awaiting : (a c : Bool) → (not a || c) ≡ false → a ≡ true
awaiting true c h = refl
awaiting false c h = cc

pub tx_finfo_ack-IsTxCounted :
    (env : Environment) (b : Batch) (pkt : Packet)
    → IsTxCounted b
    → IsTxCounted (tx_finfo_ack env b pkt)
unfolding tx_finfo_ack
tx_finfo_ack-IsTxCounted env b pkt h =
    if-ind IsTxCounted (not b.tx.finfo_ack_wait || not (in_finfo b.tx.state)) _ _ (λ _. h)
      (λ waits.
        if-ind IsTxCounted b.tx.eob _ _ (λ last. take_end-IsTxCounted env b last h)
          (λ more.
            option-ind IsTxCounted (parse_offset pkt.payload) _ _ h
              (λ offset. take_answered-IsTxCounted env b offset more (awaiting _ _ waits) h)))

pub tx_eof_ack-IsTxCounted : (b : Batch) → IsTxCounted b → IsTxCounted (tx_eof_ack b)
unfolding tx_eof_ack finish_tx_file close_offer feed_braindead
tx_eof_ack-IsTxCounted b h = ground arith

take_rpos-IsTxCounted :
    (env : Environment) (b : Batch) (rp : RposPkt)
    → transferring b.tx.state ≡ true
    → IsTxCounted b
    → IsTxCounted (take_rpos env b rp)
unfolding take_rpos seek_to
take_rpos-IsTxCounted env b rp t h = ground arith

pub queue_dev-IsTxCounted :
    (b : Batch) (name payload : Bytes) → IsTxCounted b → IsTxCounted (queue_dev b name payload)
unfolding queue_dev
queue_dev-IsTxCounted b name payload h = h

pub dev_on_dack-IsTxCounted :
    (b : Batch) (pkt : Packet) → IsTxCounted b → IsTxCounted (dev_on_dack b pkt)
unfolding dev_on_dack dev_dack_from
dev_on_dack-IsTxCounted b pkt h = ground arith

pub tx_rpos-IsTxCounted :
    (env : Environment) (b : Batch) (pkt : Packet)
    → IsTxCounted b
    → Holds IsTxCounted (tx_rpos env b pkt)
unfolding tx_rpos
tx_rpos-IsTxCounted env b pkt h =
    if-Holds (not (transferring b.tx.state)) _ _ (λ _. ok-Holds h)
      λ t. option-Holds (parse_rpos pkt.payload) _ _ (ok-Holds h) λ rp.
        if-Holds (rp.id == b.tx.sync_id) _ _
          (λ _.
            if-Holds (ltb_ℤ b.cfg.max_retries (pos (b.tx.retries + 1))) _ _ (λ _. fail-Holds h)
              (λ _. ok-Holds h))
          (λ _. ok-Holds (take_rpos-IsTxCounted env b rp (ground arith) h))

pub tx_end-IsTxCounted :
    (env : Environment) (b : Batch) → IsTxCounted b → Holds IsTxCounted (tx_end env b)
unfolding tx_end write_with
tx_end-IsTxCounted env b h = record { at = ground arith }

pub tx_timeout-IsTxCounted :
    (env : Environment) (b : Batch) → IsTxCounted b → Holds IsTxCounted (tx_timeout env b)
unfolding tx_timeout write_with
tx_timeout-IsTxCounted env b h = record { at = ground arith }

pub fire_dev_timer-IsTxCounted :
    (b : Batch) (now : ℕ) → IsTxCounted b → Holds IsTxCounted (fire_dev_timer b now)
unfolding fire_dev_timer dev_timeout
fire_dev_timer-IsTxCounted b now h = record { at = ground arith }

pub dev_action-IsTxCounted :
    (env : Environment) (b : Batch) → IsTxCounted b → Holds IsTxCounted (dev_action env b)
unfolding dev_action promote send_pending write_with
dev_action-IsTxCounted env b h = record { at = ground arith }

pub dev_rx-IsTxCounted :
    (env : Environment) (b : Batch) (pkt : Packet)
    → IsTxCounted b
    → Holds IsTxCounted (dev_rx env b pkt)
unfolding dev_rx
dev_rx-IsTxCounted env b pkt h =
    option-Holds (parse_dev_data pkt.payload) _ _ (ok-Holds h)
      λ d. write_with-Holds env _ _ _ _ (ground arith) (ground arith)

-- Before the next file is taken: all that was offered has been reported.
abbrev IsSettled : Batch → Type 0
IsSettled b = (offers b.log ≡ tx_reports b.log) × (b.tx.offer ≡ none) × (b.tx.state ≡ finfo)

reject_offer-IsSettled :
    (b : Batch) (o : FileOffer) (e : Error)
    → IsSettled b
    → IsSettled (reject_offer (note b (offered o)) o e)
unfolding reject_offer
reject_offer-IsSettled b o e h = ground arith

-- What `pick_offer` leaves: a file in hand, or the end of the batch.
abbrev IsPicked : Batch → Type 0
IsPicked b = (offers b.log ≡ tx_reports b.log + in_hand b.tx.offer) × (b.tx.state ≡ finfo)

pick_offer-IsPicked :
    (files : List FileOffer) (b : Batch) → IsSettled b → IsPicked (pick_offer files b)
unfolding pick_offer
pick_offer-IsPicked [] b h = ground arith
pick_offer-IsPicked (o ∷ files) b h =
    let b1 = record b { files = files; log = offered o ∷ b.log } in
    let too_large = ltb_ℤ o.size (pos 0) || ltb_ℤ (pos safe_max_offset) o.size in
    let e = if too_large then file_too_large else handler_contract in
    if-ind IsPicked (too_large || not o.has_reader) _ _
      (λ _.
        pick_offer-IsPicked files (reject_offer b1 o e)
          (reject_offer-IsSettled (record b { files = files }) o e h))
      (λ _. ground arith)

next_offer-IsPicked :
    (o : Option FileOffer) (b : Batch) → b.tx.offer ≡ o → IsPicked b → IsPicked (next_offer o b)
unfolding next_offer
next_offer-IsPicked (some o) b e h = h
next_offer-IsPicked none b e h =
    if-ind IsPicked b.tx.batch_ended _ _ (λ _. h)
      (λ _. pick_offer-IsPicked b.files b (ground arith))

-- A FINFO that is ready to be sent, for a file in hand or for the end of the batch.
abbrev IsReady : Batch → Type 0
IsReady b =
    IsPicked b
    × ((b.tx.eob || is_held b.tx.offer) ≡ true)
    × ((not b.tx.eob || not (is_held b.tx.offer)) ≡ true)

announce-IsReady :
    (o : Option FileOffer) (b : Batch) → b.tx.offer ≡ o → IsPicked b → IsReady (announce o b)
unfolding announce
announce-IsReady none b e h = (h, refl, ground arith)
announce-IsReady (some o) b e h = (h, ground arith, refl)

prepare_if-IsReady :
    (p : Option Bytes) (b : Batch)
    → b.tx.last_finfo ≡ p
    → b.tx.state ≡ finfo
    → IsTxCounted b
    → IsReady (prepare_if p b)
unfolding prepare_if prepare_finfo
prepare_if-IsReady none b e s h =
    let b1 = next_offer b.tx.offer b in
    announce-IsReady b1.tx.offer b1 refl (next_offer-IsPicked b.tx.offer b refl (h.0, s))
prepare_if-IsReady (some p) b e s h = ground arith

act_start-IsTxCounted :
    (env : Environment) (b : Batch)
    → b.tx.state ≡ start
    → IsTxCounted b
    → Holds IsTxCounted (tx_action_in start env b)
unfolding tx_action_in write_with
act_start-IsTxCounted env b e h = record { at = ground arith }

act_init-IsTxCounted :
    (env : Environment) (b : Batch)
    → b.tx.state ≡ init
    → IsTxCounted b
    → Holds IsTxCounted (tx_action_in init env b)
unfolding tx_action_in send_init write_with
act_init-IsTxCounted env b e h = record { at = ground arith }

act_eof-IsTxCounted :
    (env : Environment) (b : Batch)
    → b.tx.state ≡ eof
    → IsTxCounted b
    → Holds IsTxCounted (tx_action_in eof env b)
unfolding tx_action_in write_with arm_tx
act_eof-IsTxCounted env b e h = record { at = ground arith }

act_end-IsTxCounted :
    (env : Environment) (b : Batch)
    → b.tx.state ≡ end
    → IsTxCounted b
    → Holds IsTxCounted (tx_action_in end env b)
unfolding tx_action_in write_with
act_end-IsTxCounted env b e h = record { at = ground arith }

send_finfo-IsTxCounted :
    (env : Environment) (b : Batch)
    → b.tx.state ≡ finfo
    → IsTxCounted b
    → Holds IsTxCounted (tx_action_in finfo env b)
unfolding tx_action_in send_finfo arm_tx
send_finfo-IsTxCounted env b e h =
    let b1 = prepare_if b.tx.last_finfo b in
    let r = prepare_if-IsReady b.tx.last_finfo b refl e h in
    bind-turns-Holds {P = IsReady} (write env b1 pkt_finfo (payload_or_empty b1.tx.last_finfo)) _
      (write_with-Holds env b1 _ _ _ r r) (λ b2 r2. ground arith) (λ b2 r2. ok-Holds (ground arith))

send_block-IsTxCounted :
    (env : Environment) (b : Batch) (block : Bytes)
    → b.tx.state ≡ xdata
    → IsTxCounted b
    → Holds IsTxCounted (send_block env b block)
unfolding send_block write_with arm_tx
send_block-IsTxCounted env b block e h = record { at = ground arith }

send_data-IsTxCounted :
    (env : Environment) (b : Batch)
    → b.tx.state ≡ xdata
    → IsTxCounted b
    → Holds IsTxCounted (send_data env b)
unfolding send_data
send_data-IsTxCounted env b e h =
    if-Holds b.tx.skip _ _ (λ _. ok-Holds (ground arith))
      λ _.
        source-ind (Holds IsTxCounted) (env.source b.log b.tx.blk.cur) _ _
          (λ block. send_block-IsTxCounted env b block e h) (λ x. ok-Holds (ground arith))

-- The action of each state may count on that state.
pub tx_action_in-IsTxCounted :
    (s : TxState) (env : Environment) (b : Batch)
    → b.tx.state ≡ s
    → IsTxCounted b
    → Holds IsTxCounted (tx_action_in s env b)
unfolding tx_action_in
tx_action_in-IsTxCounted start env b e h = act_start-IsTxCounted env b e h
tx_action_in-IsTxCounted init env b e h = act_init-IsTxCounted env b e h
tx_action_in-IsTxCounted finfo env b e h = send_finfo-IsTxCounted env b e h
tx_action_in-IsTxCounted xdata env b e h = send_data-IsTxCounted env b e h
tx_action_in-IsTxCounted eof env b e h = act_eof-IsTxCounted env b e h
tx_action_in-IsTxCounted end env b e h = act_end-IsTxCounted env b e h
tx_action_in-IsTxCounted swait env b e h = ok-Holds h
tx_action_in-IsTxCounted init_ack env b e h = ok-Holds h
tx_action_in-IsTxCounted rinit env b e h = ok-Holds h
tx_action_in-IsTxCounted finfo_ack env b e h = ok-Holds h
tx_action_in-IsTxCounted data_ack env b e h = ok-Holds h
tx_action_in-IsTxCounted xwait env b e h = ok-Holds h
tx_action_in-IsTxCounted eof_ack env b e h = ok-Holds h
tx_action_in-IsTxCounted rend env b e h = ok-Holds h
tx_action_in-IsTxCounted end_ack env b e h = ok-Holds h
tx_action_in-IsTxCounted done env b e h = ok-Holds h
