-- ===== src/Session/Life.antt =====
-- session.go: the life of a session over its runs.
use go_hydra.Base.{
  ◌≡◌, ◌⊎◌, refl, sym, ◌∙◌, subst, true, false, Bool-cases, Option-cases, inl, inr, List, Option,
  none, some, leb, arith, ap,
}
use go_hydra.Config.{Config, Error, session_closed, FileOffer}
use go_hydra.Batch.{
  rank, end, rx_done, Environment, Batch, Ran, ok, fail, new_batch, feed_braindead,
}
use go_hydra.Batch.Loop.{Pass, run, run_loop, teardown, finish}
use go_hydra.Batch.Send.{close_offer}
use go_hydra.Batch.Receive.{rx_close_file}
use go_hydra.Batch.Induction.{state_of, if-ind}
use go_hydra.Batch.Offers.{offers, tx_reports}
use go_hydra.Batch.Arrivals.{announcements, rx_reports}
use go_hydra.Batch.Completion.{run_loop-teardown}
use go_hydra.Batch.Phases.Always.{run_loop-phases}
use go_hydra.Session.State.{
  Session, new_session, abort_actions, close_actions, first_error, perform_all, fail_actions, Begin,
  returns, begun, fresh_batch, left_by, begin_run, end_phase_hangup, conclude, finish_run, run_from,
  run_session,
}

-- A session that is torn down: what `Run` will return is settled.
abbrev IsOver : Session → Error → Type 0
IsOver s e =
    (s.active ≡ false)
    × (s.closable ≡ true)
    × (s.aborted ≡ true)
    × (s.err ≡ some e)
    × (s.closer ≡ true)

-- A failed run tears the session down, behind its first error.
fail_actions-perform_all :
    (e : Error) (s : Session)
    → let s1 = perform_all (fail_actions e) s in
      (s1.active ≡ s.active)
      × (s1.aborted ≡ true)
      × (s1.err ≡ first_error s.err e)
      × (s1.closable ≡ s.closable)
      × (s1.closer ≡ s.closer)
fail_actions-perform_all e s = ground arith

first_error-some : (o : Option Error) (e : Error) → (x : Error) × (first_error o e ≡ some x)
first_error-some none e = (e, refl)
first_error-some (some x) e = (x, refl)

-- What a run returns: no error, or the error that the session keeps.
abbrev IsSettled : Option Error × Session → Type 0
IsSettled r = (r.0 ≡ none) ⊎ ((e : Error) × (r.0 ≡ some e) × IsOver r.1 e)

conclude-IsSettled :
    (err : Option Error) (b : Batch) (s : Session)
    → s.active ≡ false
    → s.closable ≡ true
    → s.closer ≡ true
    → IsSettled (conclude err b s)
unfolding conclude
conclude-IsSettled none b s idle c k = inl refl
conclude-IsSettled (some x) b s idle c k =
    let (e, first) = first_error-some s.err x in
    let facts = fail_actions-perform_all x s in
    if-ind IsSettled (end_phase_hangup b x) _ _ (λ _. inl refl)
      (λ _.
        inr (
          e,
          facts.2 ∙ first,
          (facts.0 ∙ idle, facts.3 ∙ c, facts.1, facts.2 ∙ first, facts.4 ∙ k),
        ))

begin_run-cases :
    (s : Session)
    → s.active ≡ false
    → s.closable ≡ true
    → ((s.aborted ≡ true) × (begin_run s ≡ returns s.err (record s { closer = true })))
      ⊎ ((s.aborted ≡ false) × (begin_run s ≡ begun (fresh_batch s)))
unfolding begin_run
begin_run-cases s idle c = elim (Bool-cases s.aborted) [
  | inl a ↦ inl (a, simp (idle, c, a))
  | inr a ↦ inr (a, simp (idle, c, a))
]

over-run_session :
    (env : Environment) (passes : List Pass) (files : List FileOffer) (s : Session) (e : Error)
    → IsOver s e
    → run_session env passes files s ≡ (some e, s)
unfolding run_session begin_run
over-run_session env passes files s e h = ground arith

run_session-IsSettled :
    (env : Environment) (passes : List Pass) (files : List FileOffer) (s : Session)
    → s.active ≡ false
    → s.closable ≡ true
    → IsSettled (run_session env passes files s)
unfolding run_session run_from finish_run
run_session-IsSettled env passes files s idle c =
    let s1 = fresh_batch s in
    let ended = run env passes (new_batch s1.cfg files) in
    let Q = λ (x : Begin). IsSettled (run_from x env passes files) in
    elim (begin_run-cases s idle c) [
      | inl (a, e) ↦ subst Q (sym e) (elim (Option-cases s.err) [
        | inl n ↦ inl n
        | inr (x, n) ↦ inr (x, n, (idle, c, a, n, refl))
      ])
      | inr (a, e) ↦
          subst Q (sym e)
            (conclude-IsSettled ended.err ended.batch (left_by s1 ended.batch) refl c refl)
    ]

-- On a closable session with no run in progress: where `Run` has returned an error, every later
-- `Run`, whatever the remote and the files then are, returns the same error and changes nothing.
pub run_session-final :
    (env env' : Environment) (passes passes' : List Pass) (files files' : List FileOffer)
    (s : Session) (e : Error)
    → s.active ≡ false
    → s.closable ≡ true
    → (run_session env passes files s).0 ≡ some e
    → let after = (run_session env passes files s).1 in
      run_session env' passes' files' after ≡ (some e, after)
run_session-final env env' passes passes' files files' s e idle c h =
    elim (run_session-IsSettled env passes files s idle c) [
      | inl n ↦ cc
      | inr (x, hx, over) ↦
          let same : x ≡ e = cc in
          let after = (run_session env passes files s).1 in
          subst (λ y. run_session env' passes' files' after ≡ (some y, after)) same
            (over-run_session env' passes' files' after x over)
    ]

-- What a run may not touch if it returns no error.
abbrev IsOpen : Session → Session → Type 0
IsOpen s after =
    (after.active ≡ false)
    × (after.aborted ≡ false)
    × (after.err ≡ s.err)
    × (after.closes ≡ s.closes)
    × (after.cancels ≡ s.cancels)

conclude-IsOpen :
    (err : Option Error) (b : Batch) (s : Session)
    → s.active ≡ false
    → s.aborted ≡ false
    → (conclude err b s).0 ≡ none
    → IsOpen s (conclude err b s).1
unfolding conclude
conclude-IsOpen none b s idle a h = (idle, a, refl, refl, refl)
conclude-IsOpen (some x) b s idle a h = elim (Bool-cases (end_phase_hangup b x)) [
  | inl e ↦ rw e (idle, a, refl, refl, refl)
  | inr e ↦
      let (y, first) = first_error-some s.err x in
      let facts = fail_actions-perform_all x s in
      let h' : (perform_all (fail_actions x) s).err ≡ none = rw e at h in cc (facts.2, first, h')
]

-- Where `Run` returns no error on a session that is open, it leaves the transport as it was: not
-- closed, no cancel sequence sent, nothing recorded, and the session free for the next batch.
pub run_session-open :
    (env : Environment) (passes : List Pass) (files : List FileOffer) (s : Session)
    → s.active ≡ false
    → s.closable ≡ true
    → s.aborted ≡ false
    → (run_session env passes files s).0 ≡ none
    → let after = (run_session env passes files s).1 in
      (after.active ≡ false)
      × (after.aborted ≡ false)
      × (after.err ≡ s.err)
      × (after.closes ≡ s.closes)
      × (after.cancels ≡ s.cancels)
unfolding run_session run_from finish_run
run_session-open env passes files s idle c a =
    let s1 = fresh_batch s in
    let ended = run env passes (new_batch s1.cfg files) in
    let Q = λ (x : Begin).
      (run_from x env passes files).0 ≡ none → IsOpen s (run_from x env passes files).1 in
    elim (begin_run-cases s idle c) [
      | inl (a', e) ↦ cc
      | inr (_, e) ↦
          subst Q (sym e) (conclude-IsOpen ended.err ended.batch (left_by s1 ended.batch) refl a)
    ]

teardown-state :
    (b : Batch) (e : Option Error)
    → ((teardown b e).tx.state ≡ b.tx.state) × ((teardown b e).rx.state ≡ b.rx.state)
unfolding teardown rx_close_file close_offer
teardown-state b e = ground arith

finish-state : (r : Ran) → (e : Option Error) × ((finish r).batch ≡ teardown (state_of r) e)
finish-state (ok b) = (none, refl)
finish-state (fail e b) = (some e, refl)

-- A connection that is lost in the closing exchange is hidden only when all is done: the receiver
-- has heard the remote's end of batch, the teardown found nothing open, and every file offered or
-- announced has been reported.
pub hangup_complete :
    (env : Environment) (passes : List Pass) (cfg : Config) (files : List FileOffer) (e : Error)
    → let b = state_of (run_loop env passes (feed_braindead (new_batch cfg files))) in
      let torn = (run env passes (new_batch cfg files)).batch in
      end_phase_hangup torn e ≡ true
      → (b.rx.state ≡ rx_done)
        × (torn ≡ b)
        × (offers b.log ≡ tx_reports b.log)
        × (announcements b.log ≡ rx_reports b.log)
unfolding run end_phase_hangup
hangup_complete env passes cfg files e h =
    let r = run_loop env passes (feed_braindead (new_batch cfg files)) in
    let (x, torn) = finish-state r in
    let states = teardown-state (state_of r) x in
    let closing : leb (rank end) (rank (state_of r).tx.state) ≡ true =
      ground (arith, ap (λ y. rank y.tx.state) torn, states) in
    let all = run_loop-teardown env passes cfg files closing x in
    ((run_loop-phases env passes cfg files).2 closing, torn ∙ all.0, all.1, all.2)

-- `Close` before the first `Run`: no run will ever begin, each returns the error that `Close` has
-- recorded, and the transport is not closed, neither then nor by a `Close` or `Abort` behind it.
pub close_before_run :
    (cfg : Config) (env : Environment) (passes : List Pass) (files : List FileOffer)
    → let s = perform_all close_actions (new_session cfg true) in
      let r = run_session env passes files s in
      (r.0 ≡ some session_closed)
      × (run_session env passes files r.1 ≡ r)
      × (r.1.closes ≡ 0)
      × ((perform_all close_actions r.1).closes ≡ 0)
      × ((perform_all abort_actions r.1).closes ≡ 0)
unfolding run_session run_from begin_run new_session
close_before_run cfg env passes files = (refl, refl, refl, refl, refl)
