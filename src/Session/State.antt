-- ===== src/Session/State.antt =====
-- session.go: the session's state, the steps of its teardown, and a run of one batch. Fields that Go
-- guards by `sync.Once` or an atomic are plain fields, and every function here is one atomic step or
-- a sequence of such.
use go_hydra.Base.{
  ℕ, ◌+◌, Bool, true, false, not, ◌&&◌, ◌||◌, List, [], ◌∷◌, ◌++◌, Option, none, some, leb, ltb,
  if◌then◌else◌, Bytes, length, take,
}
use go_hydra.Constants.{cap_assumed, cap_dev, data_buf_max}
use go_hydra.Caps.{has}
use go_hydra.Config.{
  Error, session_aborted, session_closed, run_active, transport_not_closable, dev_unsupported,
  dev_busy, peer_cancel, inbox_overflow, connection_lost, FileOffer, Config, defaults,
}
use go_hydra.Packet.{Packet}
use go_hydra.Batch.{rank, end, Environment, Batch, new_batch}
use go_hydra.Batch.Loop.{Pass, is_rx_done, Ended, run}
use go_hydra.Session.Inbox.{new_inbox, reset, push, Request, Queues}

-- `closable` tells whether the configuration or the transport gives a closer, `closer` whether `Run`
-- has taken it. `cancels` and `closes` count what went to the transport.
pub record Session : Type 0 where
  pub cfg : Config
  pub closable : Bool
  pub closer : Bool
  pub err : Option Error
  pub aborted : Bool
  pub close_done : Bool
  pub cancels : ℕ
  pub closes : ℕ
  pub started : Bool
  pub writer_ready : Bool
  pub active : Bool
  pub negotiated : Bool
  pub eff_opts : ℕ
  pub rx_opts : ℕ
  pub queues : Queues
  pub read_err : Option Error

unfoldable pub new_session : Config → Bool → Session
unfolding defaults
new_session cfg closable = record {
  cfg = defaults cfg;
  closable = closable;
  closer = false;
  err = none;
  aborted = false;
  close_done = false;
  cancels = 0;
  closes = 0;
  started = false;
  writer_ready = false;
  active = false;
  negotiated = false;
  eff_opts = 0;
  rx_opts = 0;
  queues = record { inbox = new_inbox; requests = [] };
  read_err = none;
}

-- The first error stays.
abbrev pub first_error : Option Error → Error → Option Error
first_error none e = some e
first_error (some e) e' = some e

abbrev pub record_error : Error → Session → Session
record_error e s = record s { err = first_error s.err e }

abbrev pub trigger_abort : Session → Session
trigger_abort s = record s { aborted = true }

-- The bounded wait is left out: the sequence is on its way in either case.
abbrev pub courtesy_cancel : Session → Session
courtesy_cancel s = if s.writer_ready then record s { cancels = s.cancels + 1 } else s

-- The closer runs once, and not at all where `Run` has not taken it yet.
abbrev pub close_transport : Session → Session
close_transport s =
    if s.close_done
    then s
    else record s { close_done = true; closes = if s.closer then s.closes + 1 else s.closes }

pub data Action : Type 0 where
  note_error : Error → Action
  set_abort : Action
  send_cancel : Action
  close_now : Action

abbrev pub perform : Action → Session → Session
perform (note_error e) s = record_error e s
perform set_abort s = trigger_abort s
perform send_cancel s = courtesy_cancel s
perform close_now s = close_transport s

abbrev pub perform_all : List Action → Session → Session
perform_all [] s = s
perform_all (a ∷ actions) s = perform_all actions (perform a s)

abbrev pub is_transport_err : Error → Bool
is_transport_err (connection_lost n) = true
is_transport_err _ = false

abbrev pub is_peer_cancel : Error → Bool
is_peer_cancel peer_cancel = true
is_peer_cancel _ = false

-- `Abort`, and `Close` without its wait for the reader.
abbrev pub abort_actions : List Action
abort_actions = note_error session_aborted ∷ set_abort ∷ send_cancel ∷ close_now ∷ []

abbrev pub close_actions : List Action
close_actions = note_error session_closed ∷ set_abort ∷ close_now ∷ []

-- The end of a `Run` that failed.
abbrev pub fail_actions : Error → List Action
fail_actions e =
    note_error e
    ∷ set_abort
    ∷ (if is_peer_cancel e || is_transport_err e
        then close_now ∷ []
        else send_cancel ∷ close_now ∷ [])

-- What `Run` does before its batch: it returns at once, with the closer perhaps taken, or it has begun.
pub data Begin : Type 0 where
  returns : Option Error → Session → Begin
  begun : Session → Begin

-- The reader started once, and the state of the last batch reset.
abbrev pub fresh_batch : Session → Session
fresh_batch s = record s {
  closer = true;
  started = true;
  writer_ready = true;
  active = true;
  negotiated = false;
  eff_opts = 0;
  rx_opts = cap_assumed;
  queues = record s.queues { inbox = reset s.queues.inbox };
}

unfoldable pub begin_run : Session → Begin
begin_run s =
    if s.active
    then returns (some run_active) s
    else if not s.closable
    then returns (some transport_not_closable) s
    else if s.aborted
    then returns s.err (record s { closer = true })
    else begun (fresh_batch s)

-- The session behind that part.
unfoldable pub entered : Begin → Session
entered (returns e s) = s
entered (begun s) = s

unfoldable pub end_phase_hangup : Batch → Error → Bool
end_phase_hangup b e =
    leb (rank end) (rank b.tx.state) && is_rx_done b.rx.state && is_transport_err e

-- `Run` behind its batch: what it returns, and the session it leaves.
unfoldable pub conclude : Option Error → Batch → Session → Option Error × Session
unfolding end_phase_hangup
conclude none b s = (none, s)
conclude (some e) b s =
    let s1 = perform_all (fail_actions e) s in
    if end_phase_hangup b e then (none, s) else (s1.err, s1)

-- The batch has been negotiating through the session's fields.
abbrev pub left_by : Session → Batch → Session
left_by s b = record s {
  active = false;
  negotiated = b.link.negotiated;
  eff_opts = b.link.opts;
  rx_opts = b.link.rx_opts;
}

unfoldable pub finish_run : Session → Ended → Option Error × Session
unfolding conclude
finish_run s ended = conclude ended.err ended.batch (left_by s ended.batch)

-- `Run`, alone on its session: from the outcome of its first part, and whole.
unfoldable pub run_from : Begin → Environment → List Pass → List FileOffer → Option Error × Session
unfolding finish_run run
run_from (returns e s1) env passes files = (e, s1)
run_from (begun s1) env passes files = finish_run s1 (run env passes (new_batch s1.cfg files))

unfoldable pub run_session :
    Environment → List Pass → List FileOffer → Session → Option Error × Session
unfolding begin_run run_from
run_session env passes files s = run_from (begin_run s) env passes files

-- The end of the reader's goroutine; the channel `readErr` has room for one error.
abbrev pub report_read : Error → Session → Session
report_read e s = record s { read_err = first_error s.read_err e }

-- `readerLoop` on a packet: whether the loop goes on.
unfoldable pub deliver : Packet → Session → Session × Bool
unfolding push
deliver p s =
    let (inbox, fits) = push s.queues.inbox p in
    let s1 = record s { queues = record s.queues { inbox = inbox } } in
    if fits then (s1, true) else (report_read inbox_overflow s, false)

abbrev pub dev_queue_cap : ℕ
dev_queue_cap = 8

-- `SendDevice`: the error it returns, if any, and the session.
unfoldable pub send_device : Bytes → Bytes → Session → Option Error × Session
send_device device payload s =
    let clamped =
      if ltb data_buf_max (length payload) then take data_buf_max payload else payload in
    let request : Request = record { device = device; payload = clamped } in
    if s.negotiated && not (has s.eff_opts cap_dev)
    then (some dev_unsupported, s)
    else if s.aborted
    then (some session_aborted, s)
    else if leb dev_queue_cap (length s.queues.requests)
    then (some dev_busy, s)
    else (
      none,
      record s { queues = record s.queues { requests = s.queues.requests ++ (request ∷ []) } },
    )
