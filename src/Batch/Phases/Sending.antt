-- ===== src/Batch/Phases/Sending.antt =====
-- session.go: how the transmitter, the receiver and the negotiation keep in step: the operations of the sender and the loop.
use go_hydra.Base.{
  ℕ, ◌≡◌, refl, true, false, leb, ltb, Option, none, some, not, ◌||◌, ◌==◌, List, [], ◌∷◌, Bytes,
  arith, if◌then◌else◌, ◌+◌,
}
use go_hydra.Base.Int.{ℤ, pos, negsuc, ltb_ℤ}
use go_hydra.Config.{FileOffer, Error, skip, defer, file_too_large, handler_contract}
use go_hydra.Constants.{safe_max_offset}
use go_hydra.Packet.{Packet, RposPkt, parse_offset, parse_rpos}
use go_hydra.Packet.Device.{parse_dev_data}
use go_hydra.Batch.{
  TxState, start, swait, init, init_ack, rinit, finfo, finfo_ack, xdata, data_ack, xwait, eof,
  eof_ack, rend, end, end_ack, done, offered, rank, set_tx_state, Environment, Batch, write_with,
  feed_braindead, arm_tx,
}
use go_hydra.Batch.Send.{
  close_offer, reject_offer, pick_offer, prepare_finfo, send_finfo, send_init, send_block,
  send_data, tx_action_in, finish_tx_file, seek_to, take_finfo_ack, tx_finfo_ack, tx_data_ack,
  take_rpos, tx_rpos, tx_eof_ack, tx_idle, tx_end, transferring, in_finfo, complete_tx,
}
use go_hydra.Batch.Device.{
  queue_dev, promote, send_pending, dev_action, dev_timeout, dev_rx, dev_dack_from, dev_on_dack,
}
use go_hydra.Batch.Loop.{sync_in, sync, on_start, on_initack, tx_timeout, fire_dev_timer}
use go_hydra.Batch.Induction.{
  Holds, ok-Holds, fail-Holds, if-Holds, option-Holds, if-ind, option-ind, source-ind,
  write_with-Holds,
}
use go_hydra.Batch.Phases.{IsInPhase}

pub on_start-IsInPhase : (b : Batch) → IsInPhase b → IsInPhase (on_start b)
unfolding on_start feed_braindead
on_start-IsInPhase b h = ground arith

pub on_initack-IsInPhase : (b : Batch) → IsInPhase b → IsInPhase (on_initack b)
unfolding on_initack feed_braindead
on_initack-IsInPhase b h = ground arith

pub sync-IsInPhase : (b : Batch) → IsInPhase b → IsInPhase (sync b)
unfolding sync_in
sync-IsInPhase b h = ground arith

pub tx_idle-IsInPhase : (b : Batch) → IsInPhase b → IsInPhase (tx_idle b)
unfolding tx_idle feed_braindead
tx_idle-IsInPhase b h = ground arith

pub tx_data_ack-IsInPhase : (b : Batch) (pkt : Packet) → IsInPhase b → IsInPhase (tx_data_ack b pkt)
unfolding tx_data_ack
tx_data_ack-IsInPhase b pkt h = ground arith

seek_to-IsInPhase :
    (env : Environment) (b : Batch) (n : ℕ)
    → in_finfo b.tx.state ≡ true
    → IsInPhase b
    → IsInPhase (seek_to env b n xdata)
unfolding seek_to
seek_to-IsInPhase env b n s h = ground arith

complete_tx-IsInPhase :
    (b : Batch) (n : ℕ) (e : Option Error)
    → in_finfo b.tx.state ≡ true
    → IsInPhase b
    → IsInPhase (complete_tx b n e)
unfolding finish_tx_file close_offer
complete_tx-IsInPhase b n e s h = ground arith

-- Any state from FINFO to before END will do behind a FINFOACK.
moved-IsInPhase :
    (b : Batch) (s : TxState)
    → in_finfo b.tx.state ≡ true
    → leb (rank end) (rank s) ≡ false
    → IsInPhase b
    → IsInPhase (set_tx_state b s)
moved-IsInPhase b s f e h = ground arith

take_finfo_ack-IsInPhase :
    (env : Environment) (b : Batch) (answer : Option ℤ)
    → in_finfo b.tx.state ≡ true
    → IsInPhase b
    → IsInPhase (take_finfo_ack env b answer)
unfolding take_finfo_ack feed_braindead
take_finfo_ack-IsInPhase env b none s h = moved-IsInPhase b rend s refl h
take_finfo_ack-IsInPhase env b (some (pos n)) s h =
    let b1 = feed_braindead b in
    let b3 = record b1 {
      tx = record b1.tx {
        finfo_ack_wait = false;
        retries = 0;
        timer = none;
        last_finfo = none;
        position = n;
        last_ack = n;
      };
    } in
    if-ind IsInPhase (ltb_ℤ b.tx.info.size (pos n)) _ _ (λ _. moved-IsInPhase b eof s refl h)
      (λ _.
        if-ind IsInPhase (ltb 0 n) _ _ (λ _. seek_to-IsInPhase env b3 n s h)
          (λ _. moved-IsInPhase b xdata s refl h))
take_finfo_ack-IsInPhase env b (some (negsuc n)) s h =
    let b1 = feed_braindead b in
    let b2 = record b1 {
      tx = record b1.tx { finfo_ack_wait = false; retries = 0; timer = none; last_finfo = none };
    } in
    complete_tx-IsInPhase b2 0 (some (if n == 0 then skip else defer)) s h

pub tx_finfo_ack-IsInPhase :
    (env : Environment) (b : Batch) (pkt : Packet)
    → IsInPhase b
    → IsInPhase (tx_finfo_ack env b pkt)
unfolding tx_finfo_ack
tx_finfo_ack-IsInPhase env b pkt h =
    if-ind IsInPhase (not b.tx.finfo_ack_wait || not (in_finfo b.tx.state)) _ _ (λ _. h)
      (λ e.
        let s : in_finfo b.tx.state ≡ true = ground arith in
        if-ind IsInPhase b.tx.eob _ _ (λ _. take_finfo_ack-IsInPhase env b none s h)
          (λ _.
            option-ind IsInPhase (parse_offset pkt.payload) _ _ h
              (λ o. take_finfo_ack-IsInPhase env b (some o) s h)))

pub tx_eof_ack-IsInPhase : (b : Batch) → IsInPhase b → IsInPhase (tx_eof_ack b)
unfolding tx_eof_ack finish_tx_file close_offer feed_braindead
tx_eof_ack-IsInPhase b h = ground arith

take_rpos-IsInPhase :
    (env : Environment) (b : Batch) (rp : RposPkt)
    → transferring b.tx.state ≡ true
    → IsInPhase b
    → IsInPhase (take_rpos env b rp)
unfolding take_rpos seek_to
take_rpos-IsInPhase env b rp t h = ground arith

pub queue_dev-IsInPhase :
    (b : Batch) (name payload : Bytes) → IsInPhase b → IsInPhase (queue_dev b name payload)
unfolding queue_dev
queue_dev-IsInPhase b name payload h = h

pub dev_on_dack-IsInPhase : (b : Batch) (pkt : Packet) → IsInPhase b → IsInPhase (dev_on_dack b pkt)
unfolding dev_on_dack dev_dack_from
dev_on_dack-IsInPhase b pkt h = ground arith

pub tx_rpos-IsInPhase :
    (env : Environment) (b : Batch) (pkt : Packet)
    → IsInPhase b
    → Holds IsInPhase (tx_rpos env b pkt)
unfolding tx_rpos
tx_rpos-IsInPhase env b pkt h =
    if-Holds (not (transferring b.tx.state)) _ _ (λ _. ok-Holds h)
      λ t. option-Holds (parse_rpos pkt.payload) _ _ (ok-Holds h) λ rp.
        if-Holds (rp.id == b.tx.sync_id) _ _
          (λ _.
            if-Holds (ltb_ℤ b.cfg.max_retries (pos (b.tx.retries + 1))) _ _ (λ _. fail-Holds h)
              (λ _. ok-Holds h))
          (λ _. ok-Holds (take_rpos-IsInPhase env b rp (ground arith) h))

pub tx_end-IsInPhase :
    (env : Environment) (b : Batch) → IsInPhase b → Holds IsInPhase (tx_end env b)
unfolding tx_end write_with
tx_end-IsInPhase env b h = record { at = ground arith }

pub tx_timeout-IsInPhase :
    (env : Environment) (b : Batch) → IsInPhase b → Holds IsInPhase (tx_timeout env b)
unfolding tx_timeout write_with
tx_timeout-IsInPhase env b h = record { at = ground arith }

pub fire_dev_timer-IsInPhase :
    (b : Batch) (now : ℕ) → IsInPhase b → Holds IsInPhase (fire_dev_timer b now)
unfolding fire_dev_timer dev_timeout
fire_dev_timer-IsInPhase b now h = record { at = ground arith }

pub dev_action-IsInPhase :
    (env : Environment) (b : Batch) → IsInPhase b → Holds IsInPhase (dev_action env b)
unfolding dev_action promote send_pending write_with
dev_action-IsInPhase env b h = record { at = ground arith }

pub dev_rx-IsInPhase :
    (env : Environment) (b : Batch) (pkt : Packet)
    → IsInPhase b
    → Holds IsInPhase (dev_rx env b pkt)
unfolding dev_rx
dev_rx-IsInPhase env b pkt h =
    option-Holds (parse_dev_data pkt.payload) _ _ (ok-Holds h)
      λ d. write_with-Holds env _ _ _ _ (ground arith) (ground arith)

abbrev IsAnnouncing : Batch → Type 0
IsAnnouncing b = IsInPhase b × (b.tx.state ≡ finfo)

reject_offer-IsAnnouncing :
    (b : Batch) (o : FileOffer) (e : Error) → IsAnnouncing b → IsAnnouncing (reject_offer b o e)
unfolding reject_offer
reject_offer-IsAnnouncing b o e h = ground arith

pick_offer-IsAnnouncing :
    (files : List FileOffer) (b : Batch) → IsAnnouncing b → IsAnnouncing (pick_offer files b)
unfolding pick_offer
pick_offer-IsAnnouncing [] b h = h
pick_offer-IsAnnouncing (o ∷ files) b h =
    let b1 = record b { files = files; log = offered o ∷ b.log } in
    let too_large = ltb_ℤ o.size (pos 0) || ltb_ℤ (pos safe_max_offset) o.size in
    let e = if too_large then file_too_large else handler_contract in
    if-ind IsAnnouncing (too_large || not o.has_reader) _ _
      (λ _.
        pick_offer-IsAnnouncing files (reject_offer b1 o e) (reject_offer-IsAnnouncing b1 o e h))
      (λ _. h)

prepare_finfo-IsAnnouncing : (b : Batch) → IsAnnouncing b → IsAnnouncing (prepare_finfo b)
unfolding prepare_finfo
prepare_finfo-IsAnnouncing b h = ground (arith, pick_offer-IsAnnouncing b.files b h)

act_start-IsInPhase :
    (env : Environment) (b : Batch)
    → b.tx.state ≡ start
    → IsInPhase b
    → Holds IsInPhase (tx_action_in start env b)
unfolding tx_action_in write_with
act_start-IsInPhase env b e h = record { at = ground arith }

act_init-IsInPhase :
    (env : Environment) (b : Batch)
    → b.tx.state ≡ init
    → IsInPhase b
    → Holds IsInPhase (tx_action_in init env b)
unfolding tx_action_in send_init write_with
act_init-IsInPhase env b e h = record { at = ground arith }

act_eof-IsInPhase :
    (env : Environment) (b : Batch)
    → b.tx.state ≡ eof
    → IsInPhase b
    → Holds IsInPhase (tx_action_in eof env b)
unfolding tx_action_in write_with arm_tx
act_eof-IsInPhase env b e h = record { at = ground arith }

act_end-IsInPhase :
    (env : Environment) (b : Batch)
    → b.tx.state ≡ end
    → IsInPhase b
    → Holds IsInPhase (tx_action_in end env b)
unfolding tx_action_in write_with
act_end-IsInPhase env b e h = record { at = ground arith }

send_finfo-IsInPhase :
    (env : Environment) (b : Batch)
    → b.tx.state ≡ finfo
    → IsInPhase b
    → Holds IsInPhase (tx_action_in finfo env b)
unfolding tx_action_in send_finfo write_with arm_tx
send_finfo-IsInPhase env b e h = record { at = ground (arith, prepare_finfo-IsAnnouncing b (h, e)) }

send_block-IsInPhase :
    (env : Environment) (b : Batch) (block : Bytes)
    → b.tx.state ≡ xdata
    → IsInPhase b
    → Holds IsInPhase (send_block env b block)
unfolding send_block write_with arm_tx
send_block-IsInPhase env b block e h = record { at = ground arith }

send_data-IsInPhase :
    (env : Environment) (b : Batch)
    → b.tx.state ≡ xdata
    → IsInPhase b
    → Holds IsInPhase (send_data env b)
unfolding send_data
send_data-IsInPhase env b e h =
    if-Holds b.tx.skip _ _ (λ _. ok-Holds (ground arith))
      λ _.
        source-ind (Holds IsInPhase) (env.source b.log b.tx.blk.cur) _ _
          (λ block. send_block-IsInPhase env b block e h) (λ x. ok-Holds (ground arith))

-- The action of each state may count on that state.
pub tx_action_in-IsInPhase :
    (s : TxState) (env : Environment) (b : Batch)
    → b.tx.state ≡ s
    → IsInPhase b
    → Holds IsInPhase (tx_action_in s env b)
unfolding tx_action_in
tx_action_in-IsInPhase start env b e h = act_start-IsInPhase env b e h
tx_action_in-IsInPhase init env b e h = act_init-IsInPhase env b e h
tx_action_in-IsInPhase finfo env b e h = send_finfo-IsInPhase env b e h
tx_action_in-IsInPhase xdata env b e h = send_data-IsInPhase env b e h
tx_action_in-IsInPhase eof env b e h = act_eof-IsInPhase env b e h
tx_action_in-IsInPhase end env b e h = act_end-IsInPhase env b e h
tx_action_in-IsInPhase swait env b e h = ok-Holds h
tx_action_in-IsInPhase init_ack env b e h = ok-Holds h
tx_action_in-IsInPhase rinit env b e h = ok-Holds h
tx_action_in-IsInPhase finfo_ack env b e h = ok-Holds h
tx_action_in-IsInPhase data_ack env b e h = ok-Holds h
tx_action_in-IsInPhase xwait env b e h = ok-Holds h
tx_action_in-IsInPhase eof_ack env b e h = ok-Holds h
tx_action_in-IsInPhase rend env b e h = ok-Holds h
tx_action_in-IsInPhase end_ack env b e h = ok-Holds h
tx_action_in-IsInPhase done env b e h = ok-Holds h
