-- ===== src/Batch/Induction.antt =====
-- session.go: induction over a run of the event loop.
use go_hydra.Base.{
  ℕ, ◌≡◌, refl, ◌==◌, Bool, true, false, Option, some, Bool-cases, inl, inr, List, [], ◌∷◌, none,
  Bytes, All, if◌then◌else◌,
}
use go_hydra.Constants.{
  pkt_start, pkt_init, pkt_initack, pkt_finfo, pkt_finfoack, pkt_data, pkt_dataack, pkt_rpos,
  pkt_eof, pkt_eofack, pkt_end, pkt_idle, pkt_devdata, pkt_devdack,
}
use go_hydra.Packet.{Packet}
use go_hydra.Config.{Error}
use go_hydra.Batch.{
  Source, content, broken, Environment, Batch, Ran, ok, fail, ◌>>=◌, note, sent, write_with,
}
use go_hydra.Batch.Send.{tx_action, tx_finfo_ack, tx_data_ack, tx_rpos, tx_eof_ack, tx_idle, tx_end}
use go_hydra.Batch.Receive.{rx_on_init, rx_on_finfo, rx_on_data, rx_on_eof}
use go_hydra.Batch.Device.{queue_dev, dev_action, dev_rx, dev_on_dack}
use go_hydra.Batch.Loop.{
  on_start, on_initack, sync, handle_packet, expired, tx_timeout, fire_dev_timer, fire_timers, Item,
  arrived, requested, drain, Wake, inbox, device, timer, stopped, Pass, take_wake, is_tx_done,
  not_productive, pump_rest, pump, turn, run_loop,
}

-- A property of the state a step leaves, failed or not.
abbrev pub state_of : Ran → Batch
state_of (ok b) = b
state_of (fail e b) = b

pub record Holds (P : Batch → Type 0) (r : Ran) : Type 0 where
  pub at : P (state_of r)

pub ok-Holds : {P : Batch → Type 0} {b : Batch} → P b → Holds P (ok b)
ok-Holds h = record { at = h }

pub fail-Holds : {P : Batch → Type 0} {e : Error} {b : Batch} → P b → Holds P (fail e b)
fail-Holds h = record { at = h }

pub bind-Holds :
    {P : Batch → Type 0} (r : Ran) (f : Batch → Ran)
    → Holds P r
    → ((b : Batch) → P b → Holds P (f b))
    → Holds P (r >>= f)
bind-Holds (ok b) f h k = k b h.at
bind-Holds (fail e b) f h k = fail-Holds h.at

-- The same, where the second step turns one property into another.
pub bind-turns-Holds :
    {P Q : Batch → Type 0} (r : Ran) (f : Batch → Ran)
    → Holds P r
    → ((b : Batch) → P b → Q b)
    → ((b : Batch) → P b → Holds Q (f b))
    → Holds Q (r >>= f)
bind-turns-Holds (ok b) f h t k = k b h.at
bind-turns-Holds (fail e b) f h t k = fail-Holds (t b h.at)

pub if-Holds :
    {P : Batch → Type 0} (c : Bool) (r s : Ran)
    → (c ≡ true → Holds P r)
    → (c ≡ false → Holds P s)
    → Holds P (if c then r else s)
if-Holds true r s h k = h refl
if-Holds false r s h k = k refl

pub option-Holds :
    {A : Type 0} {P : Batch → Type 0} (o : Option A) (r : Ran) (f : A → Ran)
    → Holds P r
    → ((a : A) → Holds P (f a))
    → Holds P (elim o [ none ↦ r | some a ↦ f a ])
option-Holds none r f h k = h
option-Holds (some a) r f h k = k a

-- The same, where what is there matters.
pub option-known-Holds :
    {A : Type 0} {P : Batch → Type 0} (o : Option A) (r : Ran) (f : A → Ran)
    → Holds P r
    → ((a : A) → o ≡ some a → Holds P (f a))
    → Holds P (elim o [ none ↦ r | some a ↦ f a ])
option-known-Holds none r f h k = h
option-known-Holds (some a) r f h k = k a refl

-- Both branches of a test.
pub if-ind :
    {B : Type 0} (Q : B → Type 0) (c : Bool) (r s : B)
    → (c ≡ true → Q r)
    → (c ≡ false → Q s)
    → Q (if c then r else s)
if-ind Q true r s h k = h refl
if-ind Q false r s h k = k refl

-- Both ends of a fallible answer.
pub option-ind :
    {A B : Type 0} (Q : B → Type 0) (o : Option A) (r : B) (f : A → B)
    → Q r
    → ((a : A) → Q (f a))
    → Q (elim o [ none ↦ r | some a ↦ f a ])
option-ind Q none r f h k = h
option-ind Q (some a) r f h k = k a

-- A step that has succeeded.
pub bind-ok : (r : Ran) (b : Batch) (f : Batch → Ran) → r ≡ ok b → (r >>= f) ≡ f b
bind-ok r b f e = rw e refl

-- Both answers of a file.
pub source-ind :
    {B : Type 0} (Q : B → Type 0) (s : Source) (f : Bytes → B) (g : Error → B)
    → ((block : Bytes) → Q (f block))
    → ((e : Error) → Q (g e))
    → Q (elim s [ content block ↦ f block | broken e ↦ g e ])
source-ind Q (content block) f g h k = h block
source-ind Q (broken e) f g h k = k e

-- The same, where the block that was read matters.
pub source-known-Holds :
    {P : Batch → Type 0} (s : Source) (f : Bytes → Ran) (g : Error → Ran)
    → ((block : Bytes) → s ≡ content block → Holds P (f block))
    → ((e : Error) → Holds P (g e))
    → Holds P (elim s [ content block ↦ f block | broken e ↦ g e ])
source-known-Holds (content block) f g h k = h block refl
source-known-Holds (broken e) f g h k = k e

-- A frame is written: the property may not look at the log of frames.
pub write_with-Holds :
    {P : Batch → Type 0} (env : Environment) (b : Batch) (typ : ℕ) (payload : Bytes) (opts : ℕ)
    → P b
    → P (note b (sent typ payload opts b.link.prefix))
    → Holds P (write_with env b typ payload opts)
unfolding write_with
write_with-Holds env b typ payload opts h k =
    option-Holds (env.transport b.log) _ _ (ok-Holds k) (λ _. fail-Holds h)

-- What is asked of the device requests of a run.
abbrev pub Request : Type 1
Request = Bytes → Bytes → Type 0

abbrev pub AnyRequest : Request
AnyRequest name payload = Unit {0}

abbrev pub IsItem : Request → Item → Type 0
IsItem R (arrived pkt) = Unit {0}
IsItem R (requested name payload) = R name payload

abbrev pub IsWake : Request → Wake → Type 0
IsWake R (inbox items) = All (IsItem R) items
IsWake R (device name payload) = R name payload
IsWake R (timer now) = Unit {0}
IsWake R (stopped e) = Unit {0}

abbrev pub IsPass : Request → Pass → Type 0
IsPass R pass = All (IsItem R) pass.drained × IsWake R pass.wake

any_items : (items : List Item) → All (IsItem AnyRequest) items
any_items [] = tt
any_items (arrived pkt ∷ items) = (tt, any_items items)
any_items (requested name payload ∷ items) = (tt, any_items items)

any_wake : (wake : Wake) → IsWake AnyRequest wake
any_wake (inbox items) = any_items items
any_wake (device name payload) = tt
any_wake (timer now) = tt
any_wake (stopped e) = tt

pub any_passes : (passes : List Pass) → All (IsPass AnyRequest) passes
any_passes [] = tt
any_passes (pass ∷ passes) = ((any_items pass.drained, any_wake pass.wake), any_passes passes)

-- What the steps of the loop have to keep, where the device requests are as `R` asks.
pub record IsKept (env : Environment) (R : Request) (P : Batch → Type 0) : Type 0 where
  pub timed : (b : Batch) (now : ℕ) → P b → P (record b { clock = now })
  pub rested : (b : Batch) → P b → P (not_productive b)
  pub untimed : (b : Batch) → P b → P (record b { tx = record b.tx { timer = none } })
  pub synced : (b : Batch) → P b → P (sync b)
  pub queued :
      (b : Batch) (name payload : Bytes) → R name payload → P b → P (queue_dev b name payload)
  pub started : (b : Batch) → P b → P (on_start b)
  pub init_taken : (b : Batch) (pkt : Packet) → P b → Holds P (rx_on_init env b pkt)
  pub initack_taken : (b : Batch) → P b → P (on_initack b)
  pub finfo_taken : (b : Batch) (pkt : Packet) → P b → Holds P (rx_on_finfo env b pkt)
  pub finfoack_taken : (b : Batch) (pkt : Packet) → P b → P (tx_finfo_ack env b pkt)
  pub data_taken : (b : Batch) (pkt : Packet) → P b → Holds P (rx_on_data env b pkt)
  pub dataack_taken : (b : Batch) (pkt : Packet) → P b → P (tx_data_ack b pkt)
  pub rpos_taken : (b : Batch) (pkt : Packet) → P b → Holds P (tx_rpos env b pkt)
  pub eof_taken : (b : Batch) (pkt : Packet) → P b → Holds P (rx_on_eof env b pkt)
  pub eofack_taken : (b : Batch) → P b → P (tx_eof_ack b)
  pub idle_taken : (b : Batch) → P b → P (tx_idle b)
  pub end_taken : (b : Batch) → P b → Holds P (tx_end env b)
  pub dev_taken : (b : Batch) (pkt : Packet) → P b → Holds P (dev_rx env b pkt)
  pub dev_dack_taken : (b : Batch) (pkt : Packet) → P b → P (dev_on_dack b pkt)
  pub acted : (b : Batch) → P b → Holds P (tx_action env b)
  pub dev_acted : (b : Batch) → P b → Holds P (dev_action env b)
  pub tx_timed_out : (b : Batch) → P b → Holds P (tx_timeout env b)
  pub dev_timed_out : (b : Batch) (now : ℕ) → P b → Holds P (fire_dev_timer b now)

module _ (env : Environment) (R : Request) (P : Batch → Type 0) (kept : IsKept env R P) where
  handle_packet-Holds : (b : Batch) (pkt : Packet) → P b → Holds P (handle_packet env b pkt)
  unfolding handle_packet
  handle_packet-Holds b pkt h =
      if-Holds (pkt.typ == pkt_start) _ _ (λ _. ok-Holds (kept.started b h))
        λ _.
          if-Holds (pkt.typ == pkt_init) _ _ (λ _. kept.init_taken b pkt h)
            λ _.
              if-Holds (pkt.typ == pkt_initack) _ _ (λ _. ok-Holds (kept.initack_taken b h))
                λ _.
                  if-Holds (pkt.typ == pkt_finfo) _ _ (λ _. kept.finfo_taken b pkt h)
                    λ _.
                      if-Holds (pkt.typ == pkt_finfoack) _ _
                        (λ _. ok-Holds (kept.finfoack_taken b pkt h))
                        λ _.
                          if-Holds (pkt.typ == pkt_data) _ _ (λ _. kept.data_taken b pkt h)
                            λ _.
                              if-Holds (pkt.typ == pkt_dataack) _ _
                                (λ _. ok-Holds (kept.dataack_taken b pkt h))
                                λ _.
                                  if-Holds (pkt.typ == pkt_rpos) _ _ (λ _. kept.rpos_taken b pkt h)
                                    λ _.
                                      if-Holds (pkt.typ == pkt_eof) _ _
                                        (λ _. kept.eof_taken b pkt h)
                                        λ _.
                                          if-Holds (pkt.typ == pkt_eofack) _ _
                                            (λ _. ok-Holds (kept.eofack_taken b h))
                                            λ _.
                                              if-Holds (pkt.typ == pkt_idle) _ _
                                                (λ _. ok-Holds (kept.idle_taken b h))
                                                λ _.
                                                  if-Holds (pkt.typ == pkt_end) _ _
                                                    (λ _. kept.end_taken b h)
                                                    λ _.
                                                      if-Holds (pkt.typ == pkt_devdata) _ _
                                                        (λ _. kept.dev_taken b pkt h)
                                                        λ _.
                                                          if-Holds (pkt.typ == pkt_devdack) _ _
                                                            (λ _.
                                                            ok-Holds (kept.dev_dack_taken b pkt h))
                                                            (λ _. ok-Holds h)

  drain-Holds :
      (items : List Item) (b : Batch) → All (IsItem R) items → P b → Holds P (drain env items b)
  unfolding drain
  drain-Holds [] b fit h = ok-Holds h
  drain-Holds (arrived pkt ∷ items) b fit h =
      bind-Holds (handle_packet env b pkt) (λ b1. drain env items (sync b1))
        (handle_packet-Holds b pkt h)
        (λ b1 h1. drain-Holds items (sync b1) fit.1 (kept.synced b1 h1))
  drain-Holds (requested name payload ∷ items) b fit h =
      drain-Holds items (queue_dev b name payload) fit.1 (kept.queued b name payload fit.0 h)

  fired-Holds :
      (b : Batch) (now : ℕ)
      → P b
      → Holds P (
          if expired b.tx.timer now
          then tx_timeout env (record b { tx = record b.tx { timer = none } })
          else ok b)
  fired-Holds b now h =
      if-Holds _ _ _
        (λ _. kept.tx_timed_out (record b { tx = record b.tx { timer = none } }) (kept.untimed b h))
        (λ _. ok-Holds h)

  fire_timers-Holds : (b : Batch) (now : ℕ) → P b → Holds P (fire_timers env b now).1
  unfolding fire_timers
  fire_timers-Holds b now h = elim (Bool-cases (expired b.link.braindead now)) [
    | inl e ↦ rw e (fail-Holds h)
    | inr e ↦ rw e (
        bind-Holds
          (if expired b.tx.timer now
            then tx_timeout env (record b { tx = record b.tx { timer = none } })
            else ok b)
          (λ b1. fire_dev_timer b1 now) (fired-Holds b now h)
          (λ b1 h1. kept.dev_timed_out b1 now h1))
  ]

  take_wake-Holds : (b : Batch) (wake : Wake) → IsWake R wake → P b → Holds P (take_wake env b wake)
  unfolding take_wake
  take_wake-Holds b (inbox items) fit h = drain-Holds items b fit h
  take_wake-Holds b (device name payload) fit h = ok-Holds (kept.queued b name payload fit h)
  take_wake-Holds b (timer now) fit h =
      fire_timers-Holds (record b { clock = now }) now (kept.timed b now h)
  take_wake-Holds b (stopped e) fit h = fail-Holds h

  pump_rest-Holds : (b : Batch) (pass : Pass) → IsPass R pass → P b → Holds P (pump_rest env b pass)
  unfolding pump_rest
  pump_rest-Holds b pass fit h =
      let fires = fire_timers-Holds (not_productive b) pass.now (kept.rested b h) in
      if-Holds (is_tx_done b.tx.state) _ _ (λ _. ok-Holds (kept.rested b h))
        (λ _.
          if-Holds b.tx.productive _ _
            (λ _. option-Holds pass.ctx_err _ _ fires (λ _. fail-Holds (kept.rested b h)))
            (λ _.
              if-Holds (fire_timers env b pass.now).0 _ _ (λ _. fire_timers-Holds b pass.now h)
                (λ _. take_wake-Holds b pass.wake fit.1 h)))

  pump-Holds : (b : Batch) (pass : Pass) → IsPass R pass → P b → Holds P (pump env b pass)
  unfolding pump
  pump-Holds b pass fit h =
      bind-Holds (drain env pass.drained (record b { clock = pass.now }))
        (λ b1. pump_rest env b1 pass)
        (drain-Holds pass.drained (record b { clock = pass.now }) fit.0 (kept.timed b pass.now h))
        (λ b1 h1. pump_rest-Holds b1 pass fit h1)

  pump_unless_done :
      (b : Batch) (pass : Pass)
      → IsPass R pass
      → P b
      → Holds P (if is_tx_done b.tx.state then ok b else pump env b pass)
  pump_unless_done b pass fit h = if-Holds _ _ _ (λ _. ok-Holds h) (λ _. pump-Holds b pass fit h)

  turn-Holds : (b : Batch) (pass : Pass) → IsPass R pass → P b → Holds P (turn env b pass)
  unfolding turn
  turn-Holds b pass fit h = bind-Holds (dev_action env b) _ (kept.dev_acted b h) (λ b1 h1.
      bind-Holds (tx_action env b1) _ (kept.acted b1 h1)
        (λ b2 h2. pump_unless_done (sync b2) pass fit (kept.synced b2 h2)))

  -- What every step keeps holds wherever the loop stops.
  pub run_loop-Holds :
      (passes : List Pass) (b : Batch)
      → All (IsPass R) passes
      → P b
      → Holds P (run_loop env passes b)
  unfolding run_loop
  run_loop-Holds [] b fit h = ok-Holds h
  run_loop-Holds (pass ∷ passes) b fit h =
      if-Holds _ _ _ (λ _. ok-Holds h)
        (λ _.
          bind-Holds (turn env b pass) _ (turn-Holds b pass fit.0 h)
            (λ b1 h1. run_loop-Holds passes b1 fit.1 h1))
