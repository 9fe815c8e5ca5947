-- ===== src/Batch/Silence/Always.antt =====
-- session.go: silence ends every run.
use go_hydra.Base.{
  ℕ, ◌≡◌, refl, ap, true, ◌&&◌, Bool-cases, inl, inr, List, [], ◌∷◌, ◌++◌, none, arith, ◌<◌,
  if◌then◌else◌,
}
use go_hydra.Config.{brain_dead}
use go_hydra.Batch.{Environment, Batch, Ran, ok, fail, ◌>>=◌}
use go_hydra.Batch.Send.{tx_action}
use go_hydra.Batch.Device.{queue_dev, dev_action}
use go_hydra.Batch.Loop.{
  Item, arrived, requested, Wake, inbox, device, timer, stopped, Pass, sync, tx_timeout,
  fire_dev_timer, fire_timers, expired, drain, take_wake, not_productive, pump_rest, pump, turn,
  run_loop, is_tx_done,
}
use go_hydra.Batch.Induction.{
  Holds, ok-Holds, fail-Holds, bind-Holds, if-Holds, option-Holds, if-ind, option-ind,
}
use go_hydra.Batch.Silence.{
  is_quiet, is_quiet_wake, are_quiet, is_over, IsDue, sync-IsDue, dev_action-IsDue,
  tx_timeout-IsDue, fire_dev_timer-IsDue, tx_action-IsDue,
}

bind-is_over :
    {P : Batch → Type 0} (r : Ran) (f : Batch → Ran)
    → Holds P r
    → ((b : Batch) → P b → is_over (f b) ≡ true)
    → is_over (r >>= f) ≡ true
bind-is_over (ok b) f h k = k b h.at
bind-is_over (fail e b) f h k = refl

module _ (t : ℕ) (env : Environment) where
  drain-IsDue :
      (items : List Item) (b : Batch)
      → is_quiet items ≡ true
      → IsDue t b
      → Holds (IsDue t) (drain env items b)
  unfolding drain queue_dev
  drain-IsDue [] b q h = ok-Holds h
  drain-IsDue (arrived pkt ∷ items) b q h = cc
  drain-IsDue (requested name payload ∷ items) b q h =
      drain-IsDue items (queue_dev b name payload) q h

  fired-IsDue :
      (b : Batch) (now : ℕ)
      → IsDue t b
      → Holds (IsDue t) (
          if expired b.tx.timer now
          then tx_timeout env (record b { tx = record b.tx { timer = none } })
          else ok b)
  fired-IsDue b now h =
      if-Holds (expired b.tx.timer now) _ _
        (λ _. tx_timeout-IsDue t env (record b { tx = record b.tx { timer = none } }) h)
        (λ _. ok-Holds h)

  fire_timers-IsDue : (b : Batch) (now : ℕ) → IsDue t b → Holds (IsDue t) (fire_timers env b now).1
  unfolding fire_timers
  fire_timers-IsDue b now h = elim (Bool-cases (expired b.link.braindead now)) [
    | inl e ↦ rw e (fail-Holds h)
    | inr e ↦ rw e (
        bind-Holds
          (if expired b.tx.timer now
            then tx_timeout env (record b { tx = record b.tx { timer = none } })
            else ok b)
          (λ b1. fire_dev_timer b1 now) (fired-IsDue b now h)
          (λ b1 h1. fire_dev_timer-IsDue t b1 now h1))
  ]

  take_wake-IsDue :
      (b : Batch) (wake : Wake)
      → is_quiet_wake wake ≡ true
      → IsDue t b
      → Holds (IsDue t) (take_wake env b wake)
  unfolding take_wake queue_dev
  take_wake-IsDue b (inbox items) q h = drain-IsDue items b q h
  take_wake-IsDue b (device name payload) q h = ok-Holds h
  take_wake-IsDue b (timer now) q h = fire_timers-IsDue (record b { clock = now }) now h
  take_wake-IsDue b (stopped e) q h = fail-Holds h

  pump_rest-IsDue :
      (b : Batch) (pass : Pass)
      → is_quiet_wake pass.wake ≡ true
      → IsDue t b
      → Holds (IsDue t) (pump_rest env b pass)
  unfolding pump_rest
  pump_rest-IsDue b pass q h =
      if-Holds (is_tx_done b.tx.state) _ _ (λ _. ok-Holds h)
        (λ _.
          if-Holds b.tx.productive _ _
            (λ _.
              option-Holds pass.ctx_err _ _ (fire_timers-IsDue (not_productive b) pass.now h)
                (λ _. fail-Holds h))
            (λ _.
              if-Holds (fire_timers env b pass.now).0 _ _ (λ _. fire_timers-IsDue b pass.now h)
                (λ _. take_wake-IsDue b pass.wake q h)))

  late_fires :
      (b : Batch) (now : ℕ)
      → t < now
      → IsDue t b
      → fire_timers env b now ≡ (true, fail brain_dead b)
  unfolding fire_timers
  late_fires b now late h =
      let due : expired b.link.braindead now ≡ true = ground arith in rw due refl

  -- Behind the deadline, the rest of `pump` never waits.
  pump_rest-is_over :
      (b : Batch) (pass : Pass) → t < pass.now → IsDue t b → is_over (pump_rest env b pass) ≡ true
  unfolding pump_rest
  pump_rest-is_over b pass late h =
      let Over = λ (r : Ran). is_over r ≡ true in
      let over =
        λ (c : Batch) (due : IsDue t c). ap (λ x. is_over x.1) (late_fires c pass.now late due) in
      let fired = ap (λ x. x.0) (late_fires b pass.now late h) in
      if-ind Over (is_tx_done b.tx.state) _ _ (λ e. e)
        (λ _.
          if-ind Over b.tx.productive _ _
            (λ _. option-ind Over pass.ctx_err _ _ (over (not_productive b) h) (λ _. refl))
            (λ _.
              if-ind Over (fire_timers env b pass.now).0 _ _ (λ _. over b h) (λ e. cc (e, fired))))

  module _ (pass : Pass) (quiet : is_quiet pass.drained && is_quiet_wake pass.wake ≡ true) where
    drained-IsDue :
        (b : Batch)
        → IsDue t b
        → Holds (IsDue t) (drain env pass.drained (record b { clock = pass.now }))
    drained-IsDue b h = drain-IsDue pass.drained (record b { clock = pass.now }) (ground arith) h

    pump-IsDue : (b : Batch) → IsDue t b → Holds (IsDue t) (pump env b pass)
    unfolding pump
    pump-IsDue b h =
        bind-Holds (drain env pass.drained (record b { clock = pass.now })) _ (drained-IsDue b h)
          (λ b1 h1. pump_rest-IsDue b1 pass (ground arith) h1)

    turn-IsDue : (b : Batch) → IsDue t b → Holds (IsDue t) (turn env b pass)
    unfolding turn
    turn-IsDue b h = bind-Holds (dev_action env b) _ (dev_action-IsDue t env b h) (λ b1 h1.
        bind-Holds (tx_action env b1) _ (tx_action-IsDue t b1.tx.state env b1 h1) (λ b2 h2.
          if-Holds (is_tx_done (sync b2).tx.state) _ _ (λ _. ok-Holds (sync-IsDue t b2 h2))
            (λ _. pump-IsDue (sync b2) (sync-IsDue t b2 h2))))

    pump-is_over : (b : Batch) → t < pass.now → IsDue t b → is_over (pump env b pass) ≡ true
    unfolding pump
    pump-is_over b late h =
        bind-is_over (drain env pass.drained (record b { clock = pass.now })) _ (drained-IsDue b h)
          (λ b1 h1. pump_rest-is_over b1 pass late h1)

    turn-is_over : (b : Batch) → t < pass.now → IsDue t b → is_over (turn env b pass) ≡ true
    unfolding turn
    turn-is_over b late h = bind-is_over (dev_action env b) _ (dev_action-IsDue t env b h) (λ b1 h1.
        bind-is_over (tx_action env b1) _ (tx_action-IsDue t b1.tx.state env b1 h1) (λ b2 h2.
          if-ind (λ r. is_over r ≡ true) (is_tx_done (sync b2).tx.state) _ _ (λ e. e)
            (λ _. pump-is_over (sync b2) late (sync-IsDue t b2 h2))))

-- A loop that is over stays as it is.
run_loop-done :
    (env : Environment) (passes : List Pass) (b : Batch)
    → is_tx_done b.tx.state ≡ true
    → run_loop env passes b ≡ ok b
unfolding run_loop
run_loop-done env [] b e = refl
run_loop-done env (p ∷ passes) b e = rw e refl

over-is_over :
    (env : Environment) (passes : List Pass) (r : Ran)
    → is_over r ≡ true
    → is_over (r >>= run_loop env passes) ≡ true
over-is_over env passes (ok b) e = rw (run_loop-done env passes b e) e
over-is_over env passes (fail x b) e = refl

-- Where the brain-dead timer is set to run out at `t`, and nothing but device requests and timers
-- comes up to a pass of the loop later than `t`: with that pass the run is over, with an error or
-- with the batch done, whatever comes behind it.
pub run_loop-is_over :
    (t : ℕ) (env : Environment) (before after : List Pass) (late : Pass) (b : Batch)
    → IsDue t b
    → are_quiet before ≡ true
    → is_quiet late.drained && is_quiet_wake late.wake ≡ true
    → t < late.now
    → is_over (run_loop env (before ++ (late ∷ after)) b) ≡ true
unfolding run_loop
run_loop-is_over t env [] after late b due quiet q behind =
    if-ind (λ r. is_over r ≡ true) (is_tx_done b.tx.state) _ _ (λ e. e)
      (λ _. over-is_over env after (turn env b late) (turn-is_over t env late q b behind due))
run_loop-is_over t env (p ∷ before) after late b due quiet q behind =
    if-ind (λ r. is_over r ≡ true) (is_tx_done b.tx.state) _ _ (λ e. e)
      (λ _.
        bind-is_over (turn env b p) _ (turn-IsDue t env p (ground arith) b due)
          (λ b1 due1. run_loop-is_over t env before after late b1 due1 (ground arith) q behind))
