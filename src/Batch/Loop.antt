-- ===== src/Batch/Loop.antt =====
-- session.go: the dispatch, the cross-machine transitions, the timers and the event loop of a batch.
use go_hydra.Base.{
  ℕ, ◌+◌, Bool, true, false, not, ◌&&◌, ◌||◌, List, [], ◌∷◌, Option, none, some, ltb, ◌==◌,
  if◌then◌else◌, Bytes,
}
use go_hydra.Base.Int.{pos, ltb_ℤ}
use go_hydra.Constants.{
  pkt_start, pkt_init, pkt_initack, pkt_finfo, pkt_finfoack, pkt_data, pkt_dataack, pkt_rpos,
  pkt_eof, pkt_eofack, pkt_end, pkt_idle, pkt_devdata, pkt_devdack,
}
use go_hydra.Config.{Error, brain_dead, session_aborted, max_retries, idle}
use go_hydra.Packet.{Packet}
use go_hydra.Batch.{
  TxState, start, swait, init, init_ack, rinit, finfo, finfo_ack, xdata, data_ack, xwait, eof,
  eof_ack, rend, end, end_ack, done, RxState, rx_init, rx_done, tx_completed, Environment, Batch,
  Ran, ok, fail, ◌>>=◌, note, write_with, write, feed_braindead, arm, set_tx_state, settle,
}
use go_hydra.Batch.Send.{
  close_offer, tx_action_in, tx_action, tx_finfo_ack, tx_data_ack, tx_rpos, tx_eof_ack, tx_idle,
  tx_end, is_data_ack,
}
use go_hydra.Batch.Receive.{rx_on_init, rx_on_finfo, rx_on_data, rx_on_eof, rx_close_file}
use go_hydra.Batch.Device.{queue_dev, dev_action, dev_timeout, dev_rx, dev_on_dack, is_dev_done}

abbrev pub is_rx_init : RxState → Bool
is_rx_init rx_init = true
is_rx_init _ = false

abbrev pub is_rx_done : RxState → Bool
is_rx_done rx_done = true
is_rx_done _ = false

-- The `switch` of `sync`.
unfoldable pub sync_in : TxState → Batch → Batch
sync_in start b = if not (is_rx_init b.rx.state) then settle b init else b
sync_in swait b = if not (is_rx_init b.rx.state) then settle b init else b
sync_in rinit b = if not (is_rx_init b.rx.state) then settle b finfo else b
sync_in xdata b =
    if b.tx.hdxlink && not (is_rx_done b.rx.state)
    then set_tx_state (arm b (idle b.cfg)) xwait
    else b
sync_in xwait b = if is_rx_done b.rx.state then settle b xdata else b
sync_in rend b = if is_rx_done b.rx.state && is_dev_done b.dev.state then settle b end else b
sync_in _ b = b

abbrev pub sync : Batch → Batch
sync b = sync_in b.tx.state b

abbrev is_start : TxState → Bool
is_start start = true
is_start swait = true
is_start _ = false

abbrev is_init : TxState → Bool
is_init init = true
is_init init_ack = true
is_init _ = false

-- START and INITACK, handled in place.
unfoldable pub on_start : Batch → Batch
unfolding feed_braindead
on_start b = if is_start b.tx.state then settle (feed_braindead b) init else b

unfoldable pub on_initack : Batch → Batch
unfolding feed_braindead
on_initack b = if is_init b.tx.state then settle (feed_braindead b) rinit else b

unfoldable pub handle_packet : Environment → Batch → Packet → Ran
handle_packet env b pkt =
    if pkt.typ == pkt_start
    then ok (on_start b)
    else if pkt.typ == pkt_init
    then rx_on_init env b pkt
    else if pkt.typ == pkt_initack
    then ok (on_initack b)
    else if pkt.typ == pkt_finfo
    then rx_on_finfo env b pkt
    else if pkt.typ == pkt_finfoack
    then ok (tx_finfo_ack env b pkt)
    else if pkt.typ == pkt_data
    then rx_on_data env b pkt
    else if pkt.typ == pkt_dataack
    then ok (tx_data_ack b pkt)
    else if pkt.typ == pkt_rpos
    then tx_rpos env b pkt
    else if pkt.typ == pkt_eof
    then rx_on_eof env b pkt
    else if pkt.typ == pkt_eofack
    then ok (tx_eof_ack b)
    else if pkt.typ == pkt_idle
    then ok (tx_idle b)
    else if pkt.typ == pkt_end
    then tx_end env b
    else if pkt.typ == pkt_devdata
    then dev_rx env b pkt
    else if pkt.typ == pkt_devdack
    then ok (dev_on_dack b pkt)
    else ok b

abbrev is_idle_state : TxState → Bool
is_idle_state xwait = true
is_idle_state rend = true
is_idle_state _ = false

abbrev is_end_ack : TxState → Bool
is_end_ack end_ack = true
is_end_ack _ = false

-- The state that a timeout goes back to.
abbrev pub fallback : TxState → TxState
fallback swait = start
fallback init_ack = init
fallback finfo_ack = finfo
fallback data_ack = xdata
fallback eof_ack = eof
fallback end_ack = end
fallback s = s

unfoldable pub tx_timeout : Environment → Batch → Ran
unfolding write_with
tx_timeout env b =
    if is_idle_state b.tx.state
    then (do b1 ← write env b pkt_idle []; ok (arm b1 (idle b1.cfg)))
    else if is_data_ack b.tx.state && not b.tx.peer_acked
    then ok (set_tx_state (record b { link = record b.link { tx_window = 0 } }) xdata)
    else (let retries = b.tx.retries + 1 in
        let b1 = record b { tx = record b.tx { retries = retries } } in
        if ltb_ℤ b.cfg.max_retries (pos retries)
        then (if is_end_ack b.tx.state then ok (set_tx_state b1 done) else fail max_retries b1)
        else ok (set_tx_state b1 (fallback b.tx.state)))

-- `now.After(timer)` of a timer that is armed.
abbrev pub expired : Option ℕ → ℕ → Bool
expired none now = false
expired (some t) now = ltb t now

unfoldable pub fire_dev_timer : Batch → ℕ → Ran
unfolding dev_timeout
fire_dev_timer b now =
    if expired b.dev.timer now
    then dev_timeout (record b { dev = record b.dev { timer = none } })
    else ok b

unfoldable pub fire_timers : Environment → Batch → ℕ → Bool × Ran
unfolding tx_timeout fire_dev_timer
fire_timers env b now =
    let tx_due = expired b.tx.timer now in
    let fired =
      if tx_due then tx_timeout env (record b { tx = record b.tx { timer = none } }) else ok b in
    if expired b.link.braindead now
    then (true, fail brain_dead b)
    else (tx_due || expired b.dev.timer now, do b1 ← fired; fire_dev_timer b1 now)

-- The earlier of two deadlines; an unarmed timer has none.
abbrev earlier : Option ℕ → Option ℕ → Option ℕ
earlier d none = d
earlier none (some t) = some t
earlier (some d) (some t) = some (if ltb t d then t else d)

-- The deadline that bounds the wait of `pump`.
unfoldable pub nearest_deadline : Batch → Option ℕ
nearest_deadline b = earlier (earlier b.link.braindead b.tx.timer) b.dev.timer

-- What `drain` finds: a packet in the inbox, or a `SendDevice` request.
pub data Item : Type 0 where
  arrived : Packet → Item
  requested : Bytes → Bytes → Item

unfoldable pub drain : Environment → List Item → Batch → Ran
unfolding handle_packet queue_dev
drain env [] b = ok b
drain env (arrived pkt ∷ items) b = do b1 ← handle_packet env b pkt; drain env items (sync b1)
drain env (requested device payload ∷ items) b = drain env items (queue_dev b device payload)

-- What ends the wait of a pass.
pub data Wake : Type 0 where
  inbox : List Item → Wake
  device : Bytes → Bytes → Wake
  timer : ℕ → Wake
  stopped : Error → Wake

-- What the outside does in one pass of the loop: the time, what is drained first (at most 256
-- items), the context's error, and what ends the wait. A read error, an abort and a cancelled
-- context all are `stopped`.
pub record Pass : Type 0 where
  pub now : ℕ
  pub drained : List Item
  pub ctx_err : Option Error
  pub wake : Wake

unfoldable pub take_wake : Environment → Batch → Wake → Ran
unfolding drain fire_timers queue_dev
take_wake env b (inbox items) = drain env items b
take_wake env b (device name payload) = ok (queue_dev b name payload)
take_wake env b (timer now) = (fire_timers env (record b { clock = now }) now).1
take_wake env b (stopped e) = fail e b

abbrev pub is_tx_done : TxState → Bool
is_tx_done done = true
is_tx_done _ = false

abbrev pub not_productive : Batch → Batch
not_productive b = record b { tx = record b.tx { productive = false } }

-- The part of `pump` behind its drain.
unfoldable pub pump_rest : Environment → Batch → Pass → Ran
unfolding fire_timers take_wake
pump_rest env b pass =
    let b1 = not_productive b in
    let (fired, ran) = fire_timers env b pass.now in
    if is_tx_done b.tx.state
    then ok b1
    else if b.tx.productive
    then (elim pass.ctx_err [ some e ↦ fail e b1 | none ↦ (fire_timers env b1 pass.now).1 ])
    else if fired
    then ran
    else take_wake env b pass.wake

unfoldable pub pump : Environment → Batch → Pass → Ran
unfolding drain pump_rest
pump env b pass = do
  b1 ← drain env pass.drained (record b { clock = pass.now })
  pump_rest env b1 pass

-- One turn of the loop of `run`.
unfoldable pub turn : Environment → Batch → Pass → Ran
unfolding dev_action tx_action_in pump
turn env b pass = do
  b1 ← dev_action env b
  b2 ← tx_action env b1
  let b3 = sync b2
  if is_tx_done b3.tx.state then ok b3 else pump env b3 pass

-- The loop over what the outside does; where that list ends, the loop still waits.
unfoldable pub run_loop : Environment → List Pass → Batch → Ran
unfolding turn
run_loop env [] b = ok b
run_loop env (pass ∷ passes) b =
    if is_tx_done b.tx.state then ok b else (do b1 ← turn env b pass; run_loop env passes b1)

-- The report on what is half open; a nil error becomes `ErrSessionAborted`.
unfoldable pub teardown : Batch → Option Error → Batch
unfolding rx_close_file close_offer
teardown b err =
    let e = elim err as (λ _. Error) [ none ↦ session_aborted | some x ↦ x ] in
    let b1 = rx_close_file b (some e) in
    elim b1.tx.offer [
      | none ↦ b1
      | some _ ↦
          let b2 = close_offer b1 in
          let b3 = note b2 (tx_completed b2.tx.info b2.tx.position (some e)) in
          record b3 { tx = record b3.tx { offer = none } }
    ]

-- How a run of the batch ends: the error and the state behind the teardown. `none` for the error is
-- a clean batch, or, where the list of passes ended too early, an abort.
pub record Ended : Type 0 where
  pub err : Option Error
  pub batch : Batch

abbrev pub finish : Ran → Ended
finish (ok b) = record { err = none; batch = teardown b none }
finish (fail e b) = record { err = some e; batch = teardown b (some e) }

unfoldable pub run : Environment → List Pass → Batch → Ended
unfolding run_loop teardown feed_braindead
run env passes b = finish (run_loop env passes (feed_braindead b))
