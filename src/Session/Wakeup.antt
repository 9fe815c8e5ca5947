-- ===== src/Session/Wakeup.antt =====
-- session.go: the wake-up of the event loop, under every interleaving with the reader.
use go_hydra.Base.{
  ℕ, zero, suc, ◌≡◌, Bool, true, false, not, ◌||◌, ◌⊎◌, List, [], ◌∷◌, ◌++◌, ◌<◌, length, arith,
}
use go_hydra.Packet.{Packet}
use go_hydra.Session.Inbox.{Inbox, inbox_cap, kick, reset, drain_budget}

-- Where the event loop is: running its actions, in a drain with its rounds left, behind the drain
-- that opens `pump`, or blocked in the `select`. The first argument of `draining` tells the drain
-- that opens `pump` from the one behind a wake-up.
pub data Place : Type 0 where
  acting : Place
  draining : Bool → ℕ → Place
  drained : Place
  waiting : Place

abbrev pub behind : Bool → Place
behind true = drained
behind false = acting

-- `pushing` holds while the reader has appended a packet and not yet set the signal.
pub record System : Type 0 where
  pub inbox : Inbox
  pub pushing : Bool
  pub place : Place

abbrev pub is_empty : List Packet → Bool
is_empty [] = true
is_empty (_ ∷ _) = false

-- One atomic step of the reader or of the event loop.
pub data Step (s t : System) : Type 0 where
  append :
      (p : Packet)
      → s.pushing ≡ false
      → length s.inbox.queue < inbox_cap
      → t
        ≡ record s { inbox = record s.inbox { queue = s.inbox.queue ++ (p ∷ []) }; pushing = true }
      → Step s t
  signal : s.pushing ≡ true → t ≡ record s { inbox = kick s.inbox; pushing = false } → Step s t
  discard : s.place ≡ acting → t ≡ record s { inbox = reset s.inbox } → Step s t
  enter : s.place ≡ acting → t ≡ record s { place = draining true drain_budget } → Step s t
  pop :
      (opens : Bool) (n : ℕ) (p : Packet) (queue : List Packet)
      → s.place ≡ draining opens (suc n)
      → s.inbox.queue ≡ p ∷ queue
      → t ≡ record s { inbox = record s.inbox { queue = queue }; place = draining opens n }
      → Step s t
  request :
      (opens : Bool) (n : ℕ)
      → s.place ≡ draining opens (suc n)
      → s.inbox.queue ≡ []
      → t ≡ record s { place = draining opens n }
      → Step s t
  dry :
      (opens : Bool) (n : ℕ)
      → s.place ≡ draining opens (suc n)
      → s.inbox.queue ≡ []
      → t ≡ record s { place = behind opens }
      → Step s t
  spent :
      (opens : Bool)
      → s.place ≡ draining opens zero
      → t ≡ record s { inbox = kick s.inbox; place = behind opens }
      → Step s t
  leave : s.place ≡ drained → t ≡ record s { place = acting } → Step s t
  block : s.place ≡ drained → t ≡ record s { place = waiting } → Step s t
  wake :
      s.place ≡ waiting
      → s.inbox.signal ≡ true
      → t ≡ record s {
        inbox = record s.inbox { signal = false };
        place = draining false drain_budget;
      }
      → Step s t
  other_event : s.place ≡ waiting → t ≡ record s { place = acting } → Step s t

pub data Reach (s : System) : System → Type 0 where
  here : Reach s s
  next : {t u : System} → Reach s t → Step t u → Reach s u

abbrev is_behind_drain : Place → Bool
is_behind_drain drained = true
is_behind_drain waiting = true
is_behind_drain _ = false

abbrev IsAwake : System → Type 0
IsAwake s =
    (not (is_behind_drain s.place) || is_empty s.inbox.queue || s.inbox.signal || s.pushing) ≡ true

Step-IsAwake : (s t : System) → Step s t → IsAwake s → IsAwake t
Step-IsAwake s t (append p a b e) h = ground arith
Step-IsAwake s t (signal a e) h = ground arith
Step-IsAwake s t (discard a e) h = ground arith
Step-IsAwake s t (enter a e) h = ground arith
Step-IsAwake s t (pop opens n p queue a b e) h = ground arith
Step-IsAwake s t (request opens n a b e) h = ground arith
Step-IsAwake s t (dry opens n a b e) h = ground arith
Step-IsAwake s t (spent opens a e) h = ground arith
Step-IsAwake s t (leave a e) h = ground arith
Step-IsAwake s t (block a e) h = ground arith
Step-IsAwake s t (wake a b e) h = ground arith
Step-IsAwake s t (other_event a e) h = ground arith

Reach-IsAwake : {s t : System} → IsAwake s → Reach s t → IsAwake t
Reach-IsAwake h here = h
Reach-IsAwake h (next {t} {u} r st) = Step-IsAwake t u st (Reach-IsAwake h r)

-- In every interleaving of the reader's pushes with the event loop, from a loop that runs its
-- actions: where the loop is blocked and a packet is queued, the wake-up signal is set, or the
-- reader is about to set it.
pub no_lost_wakeup :
    {s t : System}
    → s.place ≡ acting
    → Reach s t
    → t.place ≡ waiting
    → (is_empty t.inbox.queue ≡ true) ⊎ (t.inbox.signal ≡ true) ⊎ (t.pushing ≡ true)
no_lost_wakeup {s} {t} e r w =
    let h0 : IsAwake s = ground arith in let h = Reach-IsAwake h0 r in ground arith
