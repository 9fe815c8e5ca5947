-- ===== src/Batch/Arrivals/Sending.antt =====
-- rx.go: each file that is announced is reported once: the operations of the sender and the loop.
use go_hydra.Base.{
  ℕ, ◌≡◌, true, false, not, ◌||◌, ◌==◌, ltb, List, [], ◌∷◌, Option, none, some, Bytes, arith,
  if◌then◌else◌, ◌+◌,
}
use go_hydra.Base.Int.{ℤ, pos, negsuc, ltb_ℤ}
use go_hydra.Config.{FileOffer, Error, file_too_large, handler_contract, skip, defer}
use go_hydra.Constants.{safe_max_offset}
use go_hydra.Packet.{Packet, RposPkt, parse_offset, parse_rpos}
use go_hydra.Packet.Device.{parse_dev_data}
use go_hydra.Batch.{
  TxState, start, swait, init, init_ack, rinit, finfo, finfo_ack, xdata, data_ack, xwait, eof,
  eof_ack, rend, end, end_ack, done, offered, Environment, Batch, write_with, feed_braindead,
  arm_tx,
}
use go_hydra.Batch.Send.{
  close_offer, reject_offer, pick_offer, prepare_finfo, send_finfo, send_init, send_block,
  send_data, tx_action_in, finish_tx_file, seek_to, take_finfo_ack, tx_finfo_ack, tx_data_ack,
  take_rpos, tx_rpos, take_finfo_ack, complete_tx, in_finfo, tx_eof_ack, tx_idle, tx_end,
  transferring,
}
use go_hydra.Batch.Device.{
  queue_dev, promote, send_pending, dev_action, dev_timeout, dev_rx, dev_dack_from, dev_on_dack,
}
use go_hydra.Batch.Loop.{sync_in, sync, on_start, on_initack, tx_timeout, fire_dev_timer}
use go_hydra.Batch.Induction.{
  Holds, ok-Holds, fail-Holds, if-Holds, option-Holds, option-ind, if-ind, source-ind,
  write_with-Holds,
}
use go_hydra.Batch.Arrivals.{IsRxCounted}

pub on_start-IsRxCounted : (b : Batch) → IsRxCounted b → IsRxCounted (on_start b)
unfolding on_start feed_braindead
on_start-IsRxCounted b h = ground arith

pub on_initack-IsRxCounted : (b : Batch) → IsRxCounted b → IsRxCounted (on_initack b)
unfolding on_initack feed_braindead
on_initack-IsRxCounted b h = ground arith

pub sync-IsRxCounted : (b : Batch) → IsRxCounted b → IsRxCounted (sync b)
unfolding sync_in
sync-IsRxCounted b h = ground arith

pub tx_idle-IsRxCounted : (b : Batch) → IsRxCounted b → IsRxCounted (tx_idle b)
unfolding tx_idle feed_braindead
tx_idle-IsRxCounted b h = ground arith

pub tx_data_ack-IsRxCounted :
    (b : Batch) (pkt : Packet) → IsRxCounted b → IsRxCounted (tx_data_ack b pkt)
unfolding tx_data_ack
tx_data_ack-IsRxCounted b pkt h = ground arith

seek_to-IsRxCounted :
    (env : Environment) (b : Batch) (n : ℕ) (s : TxState)
    → IsRxCounted b
    → IsRxCounted (seek_to env b n s)
unfolding seek_to
seek_to-IsRxCounted env b n s h = ground arith

complete_tx-IsRxCounted :
    (b : Batch) (n : ℕ) (e : Option Error) → IsRxCounted b → IsRxCounted (complete_tx b n e)
unfolding finish_tx_file close_offer
complete_tx-IsRxCounted b n e h = ground arith

take_finfo_ack-IsRxCounted :
    (env : Environment) (b : Batch) (answer : Option ℤ)
    → IsRxCounted b
    → IsRxCounted (take_finfo_ack env b answer)
unfolding take_finfo_ack feed_braindead
take_finfo_ack-IsRxCounted env b none h = h
take_finfo_ack-IsRxCounted env b (some (pos n)) h =
    let b1 = feed_braindead b in
    let b3 = record b1 {
      tx = record b1.tx {
        finfo_ack_wait = false;
        retries = 0;
        timer = none;
        last_finfo = none;
        position = n;
        last_ack = n;
      };
    } in
    if-ind IsRxCounted (ltb_ℤ b.tx.info.size (pos n)) _ _ (λ _. h)
      (λ _. if-ind IsRxCounted (ltb 0 n) _ _ (λ _. seek_to-IsRxCounted env b3 n xdata h) (λ _. h))
take_finfo_ack-IsRxCounted env b (some (negsuc n)) h =
    let b1 = feed_braindead b in
    let b2 = record b1 {
      tx = record b1.tx { finfo_ack_wait = false; retries = 0; timer = none; last_finfo = none };
    } in
    complete_tx-IsRxCounted b2 0 (some (if n == 0 then skip else defer)) h

pub tx_finfo_ack-IsRxCounted :
    (env : Environment) (b : Batch) (pkt : Packet)
    → IsRxCounted b
    → IsRxCounted (tx_finfo_ack env b pkt)
unfolding tx_finfo_ack
tx_finfo_ack-IsRxCounted env b pkt h =
    if-ind IsRxCounted (not b.tx.finfo_ack_wait || not (in_finfo b.tx.state)) _ _ (λ _. h)
      λ _.
        if-ind IsRxCounted b.tx.eob _ _ (λ _. take_finfo_ack-IsRxCounted env b none h)
          λ _.
            option-ind IsRxCounted (parse_offset pkt.payload) _ _ h
              (λ o. take_finfo_ack-IsRxCounted env b (some o) h)

pub tx_eof_ack-IsRxCounted : (b : Batch) → IsRxCounted b → IsRxCounted (tx_eof_ack b)
unfolding tx_eof_ack finish_tx_file close_offer feed_braindead
tx_eof_ack-IsRxCounted b h = ground arith

take_rpos-IsRxCounted :
    (env : Environment) (b : Batch) (rp : RposPkt)
    → transferring b.tx.state ≡ true
    → IsRxCounted b
    → IsRxCounted (take_rpos env b rp)
unfolding take_rpos seek_to
take_rpos-IsRxCounted env b rp t h = ground arith

pub queue_dev-IsRxCounted :
    (b : Batch) (name payload : Bytes) → IsRxCounted b → IsRxCounted (queue_dev b name payload)
unfolding queue_dev
queue_dev-IsRxCounted b name payload h = h

pub dev_on_dack-IsRxCounted :
    (b : Batch) (pkt : Packet) → IsRxCounted b → IsRxCounted (dev_on_dack b pkt)
unfolding dev_on_dack dev_dack_from
dev_on_dack-IsRxCounted b pkt h = ground arith

pub tx_rpos-IsRxCounted :
    (env : Environment) (b : Batch) (pkt : Packet)
    → IsRxCounted b
    → Holds IsRxCounted (tx_rpos env b pkt)
unfolding tx_rpos
tx_rpos-IsRxCounted env b pkt h =
    if-Holds (not (transferring b.tx.state)) _ _ (λ _. ok-Holds h)
      λ t. option-Holds (parse_rpos pkt.payload) _ _ (ok-Holds h) λ rp.
        if-Holds (rp.id == b.tx.sync_id) _ _
          (λ _.
            if-Holds (ltb_ℤ b.cfg.max_retries (pos (b.tx.retries + 1))) _ _ (λ _. fail-Holds h)
              (λ _. ok-Holds h))
          (λ _. ok-Holds (take_rpos-IsRxCounted env b rp (ground arith) h))

pub tx_end-IsRxCounted :
    (env : Environment) (b : Batch) → IsRxCounted b → Holds IsRxCounted (tx_end env b)
unfolding tx_end write_with
tx_end-IsRxCounted env b h = record { at = ground arith }

pub tx_timeout-IsRxCounted :
    (env : Environment) (b : Batch) → IsRxCounted b → Holds IsRxCounted (tx_timeout env b)
unfolding tx_timeout write_with
tx_timeout-IsRxCounted env b h = record { at = ground arith }

pub fire_dev_timer-IsRxCounted :
    (b : Batch) (now : ℕ) → IsRxCounted b → Holds IsRxCounted (fire_dev_timer b now)
unfolding fire_dev_timer dev_timeout
fire_dev_timer-IsRxCounted b now h = record { at = ground arith }

pub dev_action-IsRxCounted :
    (env : Environment) (b : Batch) → IsRxCounted b → Holds IsRxCounted (dev_action env b)
unfolding dev_action promote send_pending write_with
dev_action-IsRxCounted env b h = record { at = ground arith }

pub dev_rx-IsRxCounted :
    (env : Environment) (b : Batch) (pkt : Packet)
    → IsRxCounted b
    → Holds IsRxCounted (dev_rx env b pkt)
unfolding dev_rx
dev_rx-IsRxCounted env b pkt h =
    option-Holds (parse_dev_data pkt.payload) _ _ (ok-Holds h)
      λ d. write_with-Holds env _ _ _ _ (ground arith) (ground arith)

abbrev IsAnnouncing : Batch → Type 0
IsAnnouncing b = IsRxCounted b × (b.tx.state ≡ finfo)

reject_offer-IsAnnouncing :
    (b : Batch) (o : FileOffer) (e : Error) → IsAnnouncing b → IsAnnouncing (reject_offer b o e)
unfolding reject_offer
reject_offer-IsAnnouncing b o e h = ground arith

pick_offer-IsAnnouncing :
    (files : List FileOffer) (b : Batch) → IsAnnouncing b → IsAnnouncing (pick_offer files b)
unfolding pick_offer
pick_offer-IsAnnouncing [] b h = h
pick_offer-IsAnnouncing (o ∷ files) b h =
    let b1 = record b { files = files; log = offered o ∷ b.log } in
    let too_large = ltb_ℤ o.size (pos 0) || ltb_ℤ (pos safe_max_offset) o.size in
    let e = if too_large then file_too_large else handler_contract in
    if-ind IsAnnouncing (too_large || not o.has_reader) _ _
      (λ _.
        pick_offer-IsAnnouncing files (reject_offer b1 o e) (reject_offer-IsAnnouncing b1 o e h))
      (λ _. h)

prepare_finfo-IsAnnouncing : (b : Batch) → IsAnnouncing b → IsAnnouncing (prepare_finfo b)
unfolding prepare_finfo
prepare_finfo-IsAnnouncing b h = ground (arith, pick_offer-IsAnnouncing b.files b h)

act_start-IsRxCounted :
    (env : Environment) (b : Batch)
    → b.tx.state ≡ start
    → IsRxCounted b
    → Holds IsRxCounted (tx_action_in start env b)
unfolding tx_action_in write_with
act_start-IsRxCounted env b e h = record { at = ground arith }

act_init-IsRxCounted :
    (env : Environment) (b : Batch)
    → b.tx.state ≡ init
    → IsRxCounted b
    → Holds IsRxCounted (tx_action_in init env b)
unfolding tx_action_in send_init write_with
act_init-IsRxCounted env b e h = record { at = ground arith }

act_eof-IsRxCounted :
    (env : Environment) (b : Batch)
    → b.tx.state ≡ eof
    → IsRxCounted b
    → Holds IsRxCounted (tx_action_in eof env b)
unfolding tx_action_in write_with arm_tx
act_eof-IsRxCounted env b e h = record { at = ground arith }

act_end-IsRxCounted :
    (env : Environment) (b : Batch)
    → b.tx.state ≡ end
    → IsRxCounted b
    → Holds IsRxCounted (tx_action_in end env b)
unfolding tx_action_in write_with
act_end-IsRxCounted env b e h = record { at = ground arith }

send_finfo-IsRxCounted :
    (env : Environment) (b : Batch)
    → b.tx.state ≡ finfo
    → IsRxCounted b
    → Holds IsRxCounted (tx_action_in finfo env b)
unfolding tx_action_in send_finfo write_with arm_tx
send_finfo-IsRxCounted env b e h = record {
  at = ground (arith, prepare_finfo-IsAnnouncing b (h, e));
}

send_block-IsRxCounted :
    (env : Environment) (b : Batch) (block : Bytes)
    → b.tx.state ≡ xdata
    → IsRxCounted b
    → Holds IsRxCounted (send_block env b block)
unfolding send_block write_with arm_tx
send_block-IsRxCounted env b block e h = record { at = ground arith }

send_data-IsRxCounted :
    (env : Environment) (b : Batch)
    → b.tx.state ≡ xdata
    → IsRxCounted b
    → Holds IsRxCounted (send_data env b)
unfolding send_data
send_data-IsRxCounted env b e h =
    if-Holds b.tx.skip _ _ (λ _. ok-Holds (ground arith))
      λ _.
        source-ind (Holds IsRxCounted) (env.source b.log b.tx.blk.cur) _ _
          (λ block. send_block-IsRxCounted env b block e h) (λ x. ok-Holds (ground arith))

-- The action of each state may count on that state.
pub tx_action_in-IsRxCounted :
    (s : TxState) (env : Environment) (b : Batch)
    → b.tx.state ≡ s
    → IsRxCounted b
    → Holds IsRxCounted (tx_action_in s env b)
unfolding tx_action_in
tx_action_in-IsRxCounted start env b e h = act_start-IsRxCounted env b e h
tx_action_in-IsRxCounted init env b e h = act_init-IsRxCounted env b e h
tx_action_in-IsRxCounted finfo env b e h = send_finfo-IsRxCounted env b e h
tx_action_in-IsRxCounted xdata env b e h = send_data-IsRxCounted env b e h
tx_action_in-IsRxCounted eof env b e h = act_eof-IsRxCounted env b e h
tx_action_in-IsRxCounted end env b e h = act_end-IsRxCounted env b e h
tx_action_in-IsRxCounted swait env b e h = ok-Holds h
tx_action_in-IsRxCounted init_ack env b e h = ok-Holds h
tx_action_in-IsRxCounted rinit env b e h = ok-Holds h
tx_action_in-IsRxCounted finfo_ack env b e h = ok-Holds h
tx_action_in-IsRxCounted data_ack env b e h = ok-Holds h
tx_action_in-IsRxCounted xwait env b e h = ok-Holds h
tx_action_in-IsRxCounted eof_ack env b e h = ok-Holds h
tx_action_in-IsRxCounted rend env b e h = ok-Holds h
tx_action_in-IsRxCounted end_ack env b e h = ok-Holds h
tx_action_in-IsRxCounted done env b e h = ok-Holds h
