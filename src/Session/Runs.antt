-- ===== src/Session/Runs.antt =====
-- Sessions at concrete inputs.
use go_hydra.Base.{◌≡◌, ◌≤◌, ◌+◌, ◌⊎◌, refl, true, false, [], ◌∷◌, none, some, arith, length}
use go_hydra.Constants.{pkt_start}
use go_hydra.Config.{Error, session_aborted, session_closed, connection_lost}
use go_hydra.Packet.{Packet}
use go_hydra.Batch.{feed_braindead, rx_done}
use go_hydra.Batch.Loop.{run_loop}
use go_hydra.Batch.Induction.{state_of}
use go_hydra.Batch.Offers.{offers, tx_reports}
use go_hydra.Batch.Arrivals.{announcements, rx_reports}
use go_hydra.Batch.Sample.{
  cfg, env, offered_file, start_batch, lost_batch, lost, until_lost, whole_batch, runs,
}
use go_hydra.Session.Inbox.{Queues, drain_queues, drain_budget}
use go_hydra.Session.Drain.{items_of, IsServed, drain_queues-drain}
use go_hydra.Session.Wakeup
use go_hydra.Session.State.{
  Session, new_session, abort_actions, close_actions, perform_all, run_session, send_device,
  end_phase_hangup, record_error, note_error, set_abort, send_cancel, close_now, begin_run,
  run_from, finish_run, conclude,
}
use go_hydra.Session.Life.{run_session-final, run_session-open, hangup_complete, close_before_run}
use go_hydra.Session.Teardown
use go_hydra.Session.Device.{IsBounded, send_device-IsBounded}

abbrev empty_packet : Packet
empty_packet = record { typ = pkt_start; payload = [] }

abbrev one_of_each : Queues
one_of_each = record {
  inbox = record { queue = empty_packet ∷ []; signal = true };
  requests = record { device = b'c' ∷ []; payload = 1 ∷ [] } ∷ [];
}

drain_queues-drain_example :
    IsServed 256 env
      (items_of (empty_packet ∷ []) one_of_each.requests)
      true
      start_batch
      (drain_queues env one_of_each start_batch)
drain_queues-drain_example = drain_queues-drain env one_of_each start_batch

-- The loop finds nothing, a packet comes, and the loop blocks before the reader signals.
abbrev start : Wakeup.System
start = record {
  inbox = record { queue = []; signal = false };
  pushing = false;
  place = Wakeup.acting;
}

abbrev opened : Wakeup.System
opened = record start { place = Wakeup.draining true drain_budget }

abbrev dried : Wakeup.System
dried = record start { place = Wakeup.drained }

abbrev appended : Wakeup.System
appended = record dried {
  inbox = record { queue = empty_packet ∷ []; signal = false };
  pushing = true;
}

abbrev blocked : Wakeup.System
blocked = record appended { place = Wakeup.waiting }

no_lost_wakeup_example : (false ≡ true) ⊎ (false ≡ true) ⊎ (true ≡ true)
no_lost_wakeup_example =
    Wakeup.no_lost_wakeup {s = start} {t = blocked} refl
      (Wakeup.next
        (Wakeup.next
          (Wakeup.next (Wakeup.next Wakeup.here (Wakeup.enter refl refl))
            (Wakeup.dry true 255 refl refl refl))
          (Wakeup.append empty_packet refl (omega arith) refl))
        (Wakeup.block refl refl))
      refl

-- A session whose configuration is already the one of the sample batches.
abbrev session : Session
session = record (new_session cfg true) { cfg = cfg }

session-is_free : (session.active ≡ false) × (session.closable ≡ true) × (session.aborted ≡ false)
unfolding new_session
session-is_free = (refl, refl, refl)

loses : (run_session env lost (offered_file ∷ []) session).0 ≡ some (connection_lost 0)
unfolding run_session run_from begin_run finish_run conclude end_phase_hangup new_session
loses = ground (arith, runs.5, runs.6)

run_session-final_example :
    let after = (run_session env lost (offered_file ∷ []) session).1 in
    run_session env whole_batch [] after ≡ (some (connection_lost 0), after)
run_session-final_example =
    run_session-final env env lost whole_batch (offered_file ∷ []) [] session (connection_lost 0)
      session-is_free.0 session-is_free.1 loses

succeeds : (run_session env whole_batch (offered_file ∷ []) session).0 ≡ none
unfolding run_session run_from begin_run finish_run conclude end_phase_hangup new_session
succeeds = ground (arith, runs.7)

run_session-open_example :
    let after = (run_session env whole_batch (offered_file ∷ []) session).1 in
    (after.active ≡ false)
    × (after.aborted ≡ false)
    × (after.err ≡ session.err)
    × (after.closes ≡ session.closes)
    × (after.cancels ≡ session.cancels)
run_session-open_example =
    run_session-open env whole_batch (offered_file ∷ []) session session-is_free.0 session-is_free.1
      session-is_free.2 succeeds

hangs_up : end_phase_hangup lost_batch (connection_lost 0) ≡ true
unfolding end_phase_hangup
hangs_up = ground (arith, runs.4)

hangup_complete_example :
    let b = state_of (run_loop env until_lost (feed_braindead start_batch)) in
    (b.rx.state ≡ rx_done)
    × (lost_batch ≡ b)
    × (offers b.log ≡ tx_reports b.log)
    × (announcements b.log ≡ rx_reports b.log)
hangup_complete_example =
    hangup_complete env until_lost cfg (offered_file ∷ []) (connection_lost 0) hangs_up

close_before_run_example :
    let s = perform_all close_actions (new_session cfg true) in
    let r = run_session env whole_batch [] s in
    (r.0 ≡ some session_closed)
    × (run_session env whole_batch [] r.1 ≡ r)
    × (r.1.closes ≡ 0)
    × ((perform_all close_actions r.1).closes ≡ 0)
    × ((perform_all abort_actions r.1).closes ≡ 0)
close_before_run_example = close_before_run cfg env whole_batch []

-- An `Abort` has recorded its error when a `Close` begins.
abbrev quiet : Teardown.System
quiet = record { session = new_session cfg true; threads = [] }

abbrev called : Teardown.System
called = record quiet { threads = abort_actions ∷ [] }

abbrev noted : Teardown.System
noted = record {
  session = record_error session_aborted (new_session cfg true);
  threads = (set_abort ∷ send_cancel ∷ close_now ∷ []) ∷ [];
}

abbrev closing_too : Teardown.System
closing_too = record noted { threads = close_actions ∷ noted.threads }

teardown_order_example :
    (closing_too.session.aborted ≡ true → (e : Error) × (closing_too.session.err ≡ some e))
    × (closing_too.session.closes ≤ 1)
    × ((e : Error)
        → closing_too.session.err ≡ some e
        → Teardown.are_done closing_too.threads ≡ true
        → closing_too.session.close_done ≡ true)
unfolding new_session
teardown_order_example =
    Teardown.teardown_order {s = quiet} {t = closing_too} (refl, refl, refl, refl, refl)
      (Teardown.next
        (Teardown.next (Teardown.next Teardown.here (Teardown.call Teardown.aborts refl)) (
          Teardown.act [] [] (note_error session_aborted)
            ((set_abort ∷ send_cancel ∷ close_now ∷ [])) refl refl))
        (Teardown.call Teardown.closes_it refl))

first_error_stays_example : closing_too.session.err ≡ some session_aborted
unfolding new_session
first_error_stays_example =
    Teardown.first_error_stays {s = noted} {t = closing_too} session_aborted refl
      (Teardown.next Teardown.here (Teardown.call Teardown.closes_it refl))

session-IsBounded : IsBounded session
unfolding new_session
session-IsBounded = record { few = omega arith; small = tt }

send_device-IsBounded_example :
    let r = send_device (b'c' ∷ []) (1 ∷ 2 ∷ []) session in
    IsBounded r.1
    × ((r.1 ≡ session)
        ⊎ ((r.0 ≡ none) × (length r.1.queues.requests ≡ length session.queues.requests + 1)))
send_device-IsBounded_example =
    send_device-IsBounded (b'c' ∷ []) (1 ∷ 2 ∷ []) session session-IsBounded
