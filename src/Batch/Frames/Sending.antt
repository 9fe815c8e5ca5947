-- ===== src/Batch/Frames/Sending.antt =====
-- tx.go and session.go: every frame fits: the operations of the sender and the loop.
use go_hydra.Base.{ℕ, false, not, ◌||◌, ◌==◌, ltb, Option, none, some, arith, if◌then◌else◌, ◌+◌}
use go_hydra.Base.Int.{ℤ, pos, negsuc, ltb_ℤ}
use go_hydra.Config.{Error, skip, defer}
use go_hydra.Packet.{Packet, RposPkt, parse_offset, parse_rpos}
use go_hydra.Batch.{TxState, xdata, Environment, Batch, write_with, feed_braindead}
use go_hydra.Batch.Send.{
  close_offer, finish_tx_file, seek_to, take_finfo_ack, tx_finfo_ack, tx_data_ack, take_rpos,
  tx_rpos, take_finfo_ack, complete_tx, in_finfo, tx_eof_ack, tx_idle, tx_end, transferring,
}
use go_hydra.Batch.Loop.{sync_in, sync, on_start, on_initack, tx_timeout}
use go_hydra.Batch.Induction.{
  Holds, ok-Holds, fail-Holds, if-Holds, option-Holds, option-ind, if-ind,
}
use go_hydra.Batch.Frames.{IsFit}

pub on_start-IsFit : (b : Batch) → IsFit b → IsFit (on_start b)
unfolding on_start feed_braindead
on_start-IsFit b h = ground arith

pub on_initack-IsFit : (b : Batch) → IsFit b → IsFit (on_initack b)
unfolding on_initack feed_braindead
on_initack-IsFit b h = ground arith

pub sync-IsFit : (b : Batch) → IsFit b → IsFit (sync b)
unfolding sync_in
sync-IsFit b h = ground arith

pub tx_idle-IsFit : (b : Batch) → IsFit b → IsFit (tx_idle b)
unfolding tx_idle feed_braindead
tx_idle-IsFit b h = ground arith

pub tx_data_ack-IsFit : (b : Batch) (pkt : Packet) → IsFit b → IsFit (tx_data_ack b pkt)
unfolding tx_data_ack
tx_data_ack-IsFit b pkt h = ground arith

seek_to-IsFit :
    (env : Environment) (b : Batch) (n : ℕ) (s : TxState) → IsFit b → IsFit (seek_to env b n s)
unfolding seek_to
seek_to-IsFit env b n s h = ground arith

complete_tx-IsFit : (b : Batch) (n : ℕ) (e : Option Error) → IsFit b → IsFit (complete_tx b n e)
unfolding finish_tx_file close_offer
complete_tx-IsFit b n e h = ground arith

-- Behind a FINFOACK, nothing is kept for retransmission.
forget-IsFit : (b : Batch) → IsFit b → IsFit (record b { tx = record b.tx { last_finfo = none } })
forget-IsFit b h =
    let (frames, app, files, offer, announced, blk, queue, pending) = h in
    (frames, app, files, offer, tt, blk, queue, pending)

take_finfo_ack-IsFit :
    (env : Environment) (b : Batch) (answer : Option ℤ)
    → IsFit b
    → IsFit (take_finfo_ack env b answer)
unfolding take_finfo_ack feed_braindead
take_finfo_ack-IsFit env b none h = forget-IsFit b h
take_finfo_ack-IsFit env b (some (pos n)) h =
    let b1 = feed_braindead b in
    let b3 = record b1 {
      tx = record b1.tx {
        finfo_ack_wait = false;
        retries = 0;
        timer = none;
        last_finfo = none;
        position = n;
        last_ack = n;
      };
    } in
    let h1 = forget-IsFit b h in
    if-ind IsFit (ltb_ℤ b.tx.info.size (pos n)) _ _ (λ _. h1)
      (λ _. if-ind IsFit (ltb 0 n) _ _ (λ _. seek_to-IsFit env b3 n xdata h1) (λ _. h1))
take_finfo_ack-IsFit env b (some (negsuc n)) h =
    let b1 = feed_braindead b in
    let b2 = record b1 {
      tx = record b1.tx { finfo_ack_wait = false; retries = 0; timer = none; last_finfo = none };
    } in
    complete_tx-IsFit b2 0 (some (if n == 0 then skip else defer)) (forget-IsFit b h)

pub tx_finfo_ack-IsFit :
    (env : Environment) (b : Batch) (pkt : Packet) → IsFit b → IsFit (tx_finfo_ack env b pkt)
unfolding tx_finfo_ack
tx_finfo_ack-IsFit env b pkt h =
    if-ind IsFit (not b.tx.finfo_ack_wait || not (in_finfo b.tx.state)) _ _ (λ _. h)
      λ _.
        if-ind IsFit b.tx.eob _ _ (λ _. take_finfo_ack-IsFit env b none h)
          λ _.
            option-ind IsFit (parse_offset pkt.payload) _ _ h
              (λ o. take_finfo_ack-IsFit env b (some o) h)

pub tx_eof_ack-IsFit : (b : Batch) → IsFit b → IsFit (tx_eof_ack b)
unfolding tx_eof_ack finish_tx_file close_offer feed_braindead
tx_eof_ack-IsFit b h = ground arith

take_rpos-IsFit :
    (env : Environment) (b : Batch) (rp : RposPkt) → IsFit b → IsFit (take_rpos env b rp)
unfolding take_rpos seek_to
take_rpos-IsFit env b rp h = ground arith

pub tx_rpos-IsFit :
    (env : Environment) (b : Batch) (pkt : Packet) → IsFit b → Holds IsFit (tx_rpos env b pkt)
unfolding tx_rpos
tx_rpos-IsFit env b pkt h =
    if-Holds (not (transferring b.tx.state)) _ _ (λ _. ok-Holds h)
      λ _. option-Holds (parse_rpos pkt.payload) _ _ (ok-Holds h) λ rp.
        if-Holds (rp.id == b.tx.sync_id) _ _
          (λ _.
            if-Holds (ltb_ℤ b.cfg.max_retries (pos (b.tx.retries + 1))) _ _ (λ _. fail-Holds h)
              (λ _. ok-Holds h))
          (λ _. ok-Holds (take_rpos-IsFit env b rp h))

pub tx_end-IsFit : (env : Environment) (b : Batch) → IsFit b → Holds IsFit (tx_end env b)
unfolding tx_end write_with
tx_end-IsFit env b h = record { at = ground arith }

pub tx_timeout-IsFit : (env : Environment) (b : Batch) → IsFit b → Holds IsFit (tx_timeout env b)
unfolding tx_timeout write_with
tx_timeout-IsFit env b h = record { at = ground arith }
