-- ===== src/Batch/Silence.antt =====
-- session.go: a batch that hears nothing from the remote.
pub mod Always
use go_hydra.Base.{
  ℕ, ◌≡◌, refl, Bool, true, false, not, ◌||◌, ◌&&◌, List, [], ◌∷◌, ◌++◌, Option, none, some, Bytes,
  arith, ◌<◌, ltb, ◌+◌, ◌==◌, if◌then◌else◌,
}
use go_hydra.Base.Int.{pos, ltb_ℤ}
use go_hydra.Config.{FileOffer, Error, file_too_large, handler_contract, brain_dead}
use go_hydra.Constants.{safe_max_offset, pkt_finfo}
use go_hydra.Batch.{
  TxState, start, swait, init, init_ack, rinit, finfo, finfo_ack, xdata, data_ack, xwait, eof,
  eof_ack, rend, end, end_ack, done, offered, Environment, Batch, Ran, ok, fail, ◌>>=◌, note,
  write_with, arm_tx,
}
use go_hydra.Batch.Send.{
  reject_offer, pick_offer, next_offer, announce, prepare_if, prepare_finfo, send_finfo, send_init,
  send_block, send_data, tx_action_in, tx_action,
}
use go_hydra.Batch.Device.{queue_dev, promote, send_pending, dev_action, dev_timeout}
use go_hydra.Batch.Loop.{
  Item, arrived, requested, Wake, inbox, device, timer, stopped, Pass, sync_in, sync, tx_timeout,
  fire_dev_timer, fire_timers, expired, drain, take_wake, not_productive, pump_rest, pump, turn,
  run_loop, is_tx_done,
}
use go_hydra.Batch.Induction.{
  Holds, ok-Holds, fail-Holds, bind-Holds, if-Holds, option-Holds, if-ind, source-ind,
  write_with-Holds,
}

-- Nothing comes from the remote: device requests and timers only.
abbrev pub is_quiet : List Item → Bool
is_quiet [] = true
is_quiet (arrived pkt ∷ items) = false
is_quiet (requested name payload ∷ items) = is_quiet items

abbrev pub is_quiet_wake : Wake → Bool
is_quiet_wake (inbox items) = is_quiet items
is_quiet_wake _ = true

abbrev pub are_quiet : List Pass → Bool
are_quiet [] = true
are_quiet (p ∷ passes) = is_quiet p.drained && is_quiet_wake p.wake && are_quiet passes

-- The loop is over: with an error, or with the batch done.
abbrev pub is_over : Ran → Bool
is_over (ok b) = is_tx_done b.tx.state
is_over (fail e b) = true

-- The brain-dead timer runs out behind `t`.
abbrev pub IsDue : ℕ → Batch → Type 0
IsDue t b = b.link.braindead ≡ some t

module _ (t : ℕ) where
  pub sync-IsDue : (b : Batch) → IsDue t b → IsDue t (sync b)
  unfolding sync_in
  sync-IsDue b h = ground arith

  pub dev_action-IsDue :
      (env : Environment) (b : Batch) → IsDue t b → Holds (IsDue t) (dev_action env b)
  unfolding dev_action promote send_pending write_with
  dev_action-IsDue env b h = record { at = ground arith }

  pub tx_timeout-IsDue :
      (env : Environment) (b : Batch) → IsDue t b → Holds (IsDue t) (tx_timeout env b)
  unfolding tx_timeout write_with
  tx_timeout-IsDue env b h = record { at = ground arith }

  pub fire_dev_timer-IsDue :
      (b : Batch) (now : ℕ) → IsDue t b → Holds (IsDue t) (fire_dev_timer b now)
  unfolding fire_dev_timer dev_timeout
  fire_dev_timer-IsDue b now h = record { at = ground arith }

  reject_offer-IsDue :
      (b : Batch) (o : FileOffer) (e : Error) → IsDue t b → IsDue t (reject_offer b o e)
  unfolding reject_offer
  reject_offer-IsDue b o e h = ground arith

  pick_offer-IsDue : (files : List FileOffer) (b : Batch) → IsDue t b → IsDue t (pick_offer files b)
  unfolding pick_offer
  pick_offer-IsDue [] b h = h
  pick_offer-IsDue (o ∷ files) b h =
      let b1 = record b { files = files; log = offered o ∷ b.log } in
      let too_large = ltb_ℤ o.size (pos 0) || ltb_ℤ (pos safe_max_offset) o.size in
      let e = if too_large then file_too_large else handler_contract in
      if-ind (IsDue t) (too_large || not o.has_reader) _ _
        (λ _. pick_offer-IsDue files (reject_offer b1 o e) (reject_offer-IsDue b1 o e h)) (λ _. h)

  prepare_finfo-IsDue : (b : Batch) → IsDue t b → IsDue t (prepare_finfo b)
  unfolding prepare_finfo
  prepare_finfo-IsDue b h = ground (arith, pick_offer-IsDue b.files b h)

  send_finfo-IsDue :
      (env : Environment) (b : Batch) → IsDue t b → Holds (IsDue t) (tx_action_in finfo env b)
  unfolding tx_action_in send_finfo write_with arm_tx
  send_finfo-IsDue env b h = record { at = ground (arith, prepare_finfo-IsDue b h) }

  send_block-IsDue :
      (env : Environment) (b : Batch) (block : Bytes)
      → IsDue t b
      → Holds (IsDue t) (send_block env b block)
  unfolding send_block write_with arm_tx
  send_block-IsDue env b block h = record { at = ground arith }

  send_data-IsDue : (env : Environment) (b : Batch) → IsDue t b → Holds (IsDue t) (send_data env b)
  unfolding send_data
  send_data-IsDue env b h =
      if-Holds b.tx.skip _ _ (λ _. ok-Holds h)
        λ _.
          source-ind (Holds (IsDue t)) (env.source b.log b.tx.blk.cur) _ _
            (λ block. send_block-IsDue env b block h) (λ x. ok-Holds h)

  act_start-IsDue :
      (env : Environment) (b : Batch) → IsDue t b → Holds (IsDue t) (tx_action_in start env b)
  unfolding tx_action_in write_with
  act_start-IsDue env b h = record { at = ground arith }

  act_init-IsDue :
      (env : Environment) (b : Batch) → IsDue t b → Holds (IsDue t) (tx_action_in init env b)
  unfolding tx_action_in send_init write_with
  act_init-IsDue env b h = record { at = ground arith }

  act_eof-IsDue :
      (env : Environment) (b : Batch) → IsDue t b → Holds (IsDue t) (tx_action_in eof env b)
  unfolding tx_action_in write_with arm_tx
  act_eof-IsDue env b h = record { at = ground arith }

  act_end-IsDue :
      (env : Environment) (b : Batch) → IsDue t b → Holds (IsDue t) (tx_action_in end env b)
  unfolding tx_action_in write_with
  act_end-IsDue env b h = record { at = ground arith }

  pub tx_action-IsDue :
      (s : TxState) (env : Environment) (b : Batch)
      → IsDue t b
      → Holds (IsDue t) (tx_action_in s env b)
  unfolding tx_action_in
  tx_action-IsDue start env b h = act_start-IsDue env b h
  tx_action-IsDue init env b h = act_init-IsDue env b h
  tx_action-IsDue finfo env b h = send_finfo-IsDue env b h
  tx_action-IsDue xdata env b h = send_data-IsDue env b h
  tx_action-IsDue eof env b h = act_eof-IsDue env b h
  tx_action-IsDue end env b h = act_end-IsDue env b h
  tx_action-IsDue swait env b h = ok-Holds h
  tx_action-IsDue init_ack env b h = ok-Holds h
  tx_action-IsDue rinit env b h = ok-Holds h
  tx_action-IsDue finfo_ack env b h = ok-Holds h
  tx_action-IsDue data_ack env b h = ok-Holds h
  tx_action-IsDue xwait env b h = ok-Holds h
  tx_action-IsDue eof_ack env b h = ok-Holds h
  tx_action-IsDue rend env b h = ok-Holds h
  tx_action-IsDue end_ack env b h = ok-Holds h
  tx_action-IsDue done env b h = ok-Holds h
