-- ===== src/Session/Teardown.antt =====
-- session.go: any number of `Abort`, `Close` and failing `Run` calls at once, action by action.
use go_hydra.Base.{
  ◌≡◌, ◌≤◌, refl, Bool, true, false, not, ◌&&◌, ◌||◌, List, [], ◌∷◌, ◌++◌, Option, none, some,
  if◌then◌else◌, arith, subst,
}
use go_hydra.Config.{Error}
use go_hydra.Session.State.{
  Session, Action, note_error, set_abort, send_cancel, close_now, perform, abort_actions,
  close_actions, fail_actions, begin_run, entered,
}

-- Each goroutine that tears the session down, by the actions it has left.
pub record System : Type 0 where
  pub session : Session
  pub threads : List (List Action)

pub data Caller : Type 0 where
  aborts closes_it : Caller
  fails : Error → Caller

abbrev pub program : Caller → List Action
program aborts = abort_actions
program closes_it = close_actions
program (fails e) = fail_actions e

-- A call begins, a goroutine does its next action, or `Run` does its first part, up to its batch.
pub data Step (s t : System) : Type 0 where
  call : (c : Caller) → t ≡ record s { threads = program c ∷ s.threads } → Step s t
  act :
      (before after : List (List Action)) (a : Action) (rest : List Action)
      → s.threads ≡ before ++ ((a ∷ rest) ∷ after)
      → t ≡ record { session = perform a s.session; threads = before ++ (rest ∷ after) }
      → Step s t
  begin : t ≡ record s { session = entered (begin_run s.session) } → Step s t

pub data Reach (s : System) : System → Type 0 where
  here : Reach s s
  next : {t u : System} → Reach s t → Step t u → Reach s u

-- Whether a goroutine is about to set the abort flag on an error that it has recorded.
abbrev owes_error : List Action → Bool
owes_error [] = false
owes_error (note_error e ∷ _) = false
owes_error (set_abort ∷ _) = true
owes_error (_ ∷ rest) = owes_error rest

abbrev will_close : List Action → Bool
will_close [] = false
will_close (close_now ∷ _) = true
will_close (_ ∷ rest) = will_close rest

abbrev has_error : Option Error → Bool
has_error none = false
has_error (some e) = true

abbrev any_owes : List (List Action) → Bool
any_owes [] = false
any_owes (th ∷ ths) = owes_error th || any_owes ths

abbrev any_closes : List (List Action) → Bool
any_closes [] = false
any_closes (th ∷ ths) = will_close th || any_closes ths

any_owes-append : (xs ys : List (List Action)) → any_owes (xs ++ ys) ≡ (any_owes xs || any_owes ys)
any_owes-append [] ys = refl
any_owes-append (x ∷ xs) ys = ground (arith, any_owes-append xs ys)

any_closes-append :
    (xs ys : List (List Action)) → any_closes (xs ++ ys) ≡ (any_closes xs || any_closes ys)
any_closes-append [] ys = refl
any_closes-append (x ∷ xs) ys = ground (arith, any_closes-append xs ys)

-- The shape of a program: it records, sets the flag, and closes at its end.
abbrev is_sound : List Action → Bool
is_sound [] = true
is_sound (note_error e ∷ rest) = will_close rest && is_sound rest
is_sound (set_abort ∷ rest) = will_close rest && not (owes_error rest) && is_sound rest
is_sound (send_cancel ∷ rest) = will_close rest && not (owes_error rest) && is_sound rest
is_sound (close_now ∷ rest) = not (owes_error rest) && is_sound rest

abbrev all_sound : List (List Action) → Bool
all_sound [] = true
all_sound (th ∷ ths) = is_sound th && all_sound ths

all_sound-append :
    (xs ys : List (List Action)) → all_sound (xs ++ ys) ≡ (all_sound xs && all_sound ys)
all_sound-append [] ys = refl
all_sound-append (x ∷ xs) ys = ground (arith, all_sound-append xs ys)

pub record IsOrderly (t : System) : Type 0 where
  pub sound : all_sound t.threads ≡ true
  pub recorded : (not (t.session.aborted || any_owes t.threads) || has_error t.session.err) ≡ true
  pub closing :
      (not (has_error t.session.err) || t.session.close_done || any_closes t.threads) ≡ true
  pub once : t.session.closes ≤ (if t.session.close_done then 1 else 0)

program-is_sound :
    (c : Caller)
    → (is_sound (program c) ≡ true)
      × (owes_error (program c) ≡ false)
      × (will_close (program c) ≡ true)
program-is_sound aborts = (refl, refl, refl)
program-is_sound closes_it = (refl, refl, refl)
program-is_sound (fails e) = (ground arith, refl, ground arith)

call-IsOrderly :
    (s : System) (c : Caller)
    → IsOrderly s
    → IsOrderly (record s { threads = program c ∷ s.threads })
call-IsOrderly s c h =
    let p = program-is_sound c in
    record { sound = ground arith; recorded = ground arith; closing = ground arith; once = h.once }

begin-IsOrderly :
    (s : System) → IsOrderly s → IsOrderly (record s { session = entered (begin_run s.session) })
unfolding begin_run entered
begin-IsOrderly s h = ground arith

-- What a list of goroutines says, with one of them in front.
module _ (before after : List (List Action)) (th : List Action) where
  owes_split :
      any_owes (before ++ (th ∷ after)) ≡ (owes_error th || any_owes before || any_owes after)
  owes_split = ground (arith, any_owes-append before (th ∷ after))

  closes_split :
      any_closes (before ++ (th ∷ after)) ≡ (will_close th || any_closes before || any_closes after)
  closes_split = ground (arith, any_closes-append before (th ∷ after))

  sound_split :
      all_sound (before ++ (th ∷ after)) ≡ (is_sound th && all_sound before && all_sound after)
  sound_split = ground (arith, all_sound-append before (th ∷ after))

-- The goroutine `th` among others of which only these facts count.
record IsOrderlyWith (s : Session) (th : List Action) (owes closes sound : Bool) : Type 0 where
  all_are : (is_sound th && sound) ≡ true
  recorded : (not (s.aborted || owes_error th || owes) || has_error s.err) ≡ true
  closing : (not (has_error s.err) || s.close_done || will_close th || closes) ≡ true
  once : s.closes ≤ (if s.close_done then 1 else 0)

perform-IsOrderlyWith :
    (a : Action) (rest : List Action) (s : Session) (owes closes sound : Bool)
    → IsOrderlyWith s (a ∷ rest) owes closes sound
    → IsOrderlyWith (perform a s) rest owes closes sound
perform-IsOrderlyWith (note_error e) rest s owes closes sound h = ground arith
perform-IsOrderlyWith set_abort rest s owes closes sound h = ground arith
perform-IsOrderlyWith send_cancel rest s owes closes sound h = ground arith
perform-IsOrderlyWith close_now rest s owes closes sound h = ground arith

module _ (s : Session) (before after : List (List Action)) (th : List Action) where
  abbrev Here : Type 0
  Here =
      IsOrderlyWith s th (any_owes before || any_owes after) (any_closes before || any_closes after)
        (all_sound before && all_sound after)

  abbrev There : Type 0
  There = IsOrderly (record { session = s; threads = before ++ (th ∷ after) })

  to_front : There → Here
  to_front h =
      let o = owes_split before after th in
      let c = closes_split before after th in
      let z = sound_split before after th in
      record {
        all_are = ground (arith, h.sound);
        recorded = ground (arith, h.recorded);
        closing = ground (arith, h.closing);
        once = h.once;
      }

  from_front : Here → There
  from_front h =
      let o = owes_split before after th in
      let c = closes_split before after th in
      let z = sound_split before after th in
      record {
        sound = ground (arith, h.all_are);
        recorded = ground (arith, h.recorded);
        closing = ground (arith, h.closing);
        once = h.once;
      }

Step-IsOrderly : (s t : System) → Step s t → IsOrderly s → IsOrderly t
Step-IsOrderly s t (call c e) h = rw e (call-IsOrderly s c h)
Step-IsOrderly s t (begin e) h = rw e (begin-IsOrderly s h)
Step-IsOrderly s t (act before after a rest same e) h =
    let h1 : IsOrderly (record s { threads = before ++ ((a ∷ rest) ∷ after) }) =
      subst (λ x. IsOrderly (record s { threads = x })) same h in
    rw e (
      from_front (perform a s.session) before after rest (
        perform-IsOrderlyWith a rest s.session _ _ _
          (to_front s.session before after (a ∷ rest) h1)))

Reach-IsOrderly : {s t : System} → IsOrderly s → Reach s t → IsOrderly t
Reach-IsOrderly h here = h
Reach-IsOrderly h (next {t} {u} r st) = Step-IsOrderly t u st (Reach-IsOrderly h r)

recorded_error : (o : Option Error) → has_error o ≡ true → (e : Error) × (o ≡ some e)
recorded_error none h = cc
recorded_error (some e) h = (e, refl)

-- The first error stays.
Step-err : (s t : System) (x : Error) → Step s t → s.session.err ≡ some x → t.session.err ≡ some x
unfolding begin_run entered
Step-err s t x (call c e) h = ground arith
Step-err s t x (begin e) h = ground arith
Step-err s t x (act before after (note_error y) rest same e) h = ground arith
Step-err s t x (act before after set_abort rest same e) h = ground arith
Step-err s t x (act before after send_cancel rest same e) h = ground arith
Step-err s t x (act before after close_now rest same e) h = ground arith

Reach-err : {s t : System} (x : Error) → s.session.err ≡ some x → Reach s t → t.session.err ≡ some x
Reach-err x h here = h
Reach-err x h (next {t} {u} r st) = Step-err t u x st (Reach-err x h r)

abbrev pub are_done : List (List Action) → Bool
are_done [] = true
are_done ([] ∷ ths) = are_done ths
are_done ((a ∷ th) ∷ ths) = false

are_done-any_closes : (ths : List (List Action)) → are_done ths ≡ true → any_closes ths ≡ false
are_done-any_closes [] h = refl
are_done-any_closes ([] ∷ ths) h = are_done-any_closes ths h
are_done-any_closes ((a ∷ th) ∷ ths) h = cc

-- A session before any of this.
abbrev IsFresh : System → Type 0
IsFresh s =
    (s.threads ≡ [])
    × (s.session.err ≡ none)
    × (s.session.aborted ≡ false)
    × (s.session.close_done ≡ false)
    × (s.session.closes ≡ 0)

IsFresh-IsOrderly : (s : System) → IsFresh s → IsOrderly s
IsFresh-IsOrderly s h = ground arith

-- With any number of `Abort`, `Close` and failing `Run` calls on a fresh session, in every
-- interleaving of their actions with one another and with runs that begin or are refused: where the abort
-- flag is seen, an error is recorded; the transport is closed at most once; and when an error is
-- recorded and no call is under way, the closing has been done.
pub teardown_order :
    {s t : System}
    → IsFresh s
    → Reach s t
    → (t.session.aborted ≡ true → (e : Error) × (t.session.err ≡ some e))
      × (t.session.closes ≤ 1)
      × ((e : Error)
          → t.session.err ≡ some e
          → are_done t.threads ≡ true
          → t.session.close_done ≡ true)
teardown_order {s} {t} f r =
    let h = Reach-IsOrderly (IsFresh-IsOrderly s f) r in
    (
      λ a. recorded_error t.session.err (ground (arith, h.recorded)),
      ground (arith, h.once),
      λ e he d. ground (arith, h.closing, are_done-any_closes t.threads d),
    )

-- The error that is recorded first is the one that is kept, in every interleaving.
pub first_error_stays :
    {s t : System} (e : Error) → s.session.err ≡ some e → Reach s t → t.session.err ≡ some e
first_error_stays e h r = Reach-err e h r
