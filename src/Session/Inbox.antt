-- ===== src/Session/Inbox.antt =====
-- session.go: the queue from the reader to the event loop, and the drain of it.
use go_hydra.Base.{
  ℕ, zero, suc, Bool, true, false, List, [], ◌∷◌, ◌++◌, Option, none, some, leb, if◌then◌else◌,
  Bytes, length,
}
use go_hydra.Packet.{Packet}
use go_hydra.Batch.{Environment, Batch, Ran, ok, fail}
use go_hydra.Batch.Device.{queue_dev}
use go_hydra.Batch.Loop.{handle_packet, sync}

abbrev pub inbox_cap : ℕ
inbox_cap = 4096

-- `signal` tells whether the channel `sig`, of capacity one, holds its token.
pub record Inbox : Type 0 where
  pub queue : List Packet
  pub signal : Bool

abbrev pub new_inbox : Inbox
new_inbox = record { queue = []; signal = false }

abbrev pub kick : Inbox → Inbox
kick box = record box { signal = true }

-- The queue and whether the packet found room.
unfoldable pub push : Inbox → Packet → Inbox × Bool
push box p =
    if leb inbox_cap (length box.queue)
    then (box, false)
    else (kick (record box { queue = box.queue ++ (p ∷ []) }), true)

abbrev pub reset : Inbox → Inbox
reset box = record box { queue = [] }

unfoldable pub try_pop_from : List Packet → Inbox → Option Packet × Inbox
try_pop_from [] box = (none, box)
try_pop_from (p ∷ queue) box = (some p, record box { queue = queue })

abbrev pub try_pop : Inbox → Option Packet × Inbox
try_pop box = try_pop_from box.queue box

-- A `devRequest`.
pub record Request : Type 0 where
  pub device : Bytes
  pub payload : Bytes

-- What the event loop drains.
pub record Queues : Type 0 where
  pub inbox : Inbox
  pub requests : List Request

abbrev pub drain_budget : ℕ
drain_budget = 256

-- The loop of `drain`, by the rounds it has left. Where a packet fails, the rest stays queued.
unfoldable pub drain_rounds :
    ℕ → Environment → List Packet → List Request → Bool → Batch → Ran × Queues
drain_rounds zero env packets requests signal b =
    (ok b, record { inbox = record { queue = packets; signal = true }; requests = requests })
drain_rounds (suc n) env (p ∷ packets) requests signal b = elim (handle_packet env b p) [
  | ok b1 ↦ drain_rounds n env packets requests signal (sync b1)
  | fail e b1 ↦ (
    fail e b1,
    record { inbox = record { queue = packets; signal = signal }; requests = requests },
  )
]
drain_rounds (suc n) env [] (r ∷ requests) signal b =
    drain_rounds n env [] requests signal (queue_dev b r.device r.payload)
drain_rounds (suc n) env [] [] signal b =
    (ok b, record { inbox = record { queue = []; signal = signal }; requests = [] })

-- `drain`, with nothing arriving meanwhile.
abbrev pub drain_queues : Environment → Queues → Batch → Ran × Queues
drain_queues env q b = drain_rounds drain_budget env q.inbox.queue q.requests q.inbox.signal b
