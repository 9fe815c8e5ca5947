-- ===== src/Session/Device.antt =====
-- session.go: what `SendDevice` accepts.
use go_hydra.Base.{
  ℕ, ◌≡◌, ◌≤◌, ◌+◌, ◌⊎◌, inl, inr, refl, not, ◌&&◌, [], ◌∷◌, Option, none, ltb, leb, if◌then◌else◌,
  Bytes, length, length-append, length-take, take, All, All-append, arith,
}
use go_hydra.Constants.{data_buf_max, cap_dev}
use go_hydra.Caps.{has}
use go_hydra.Config.{Error}
use go_hydra.Batch.Induction.{if-ind}
use go_hydra.Session.Inbox.{Request}
use go_hydra.Session.State.{Session, send_device, dev_queue_cap}

abbrev FitsBuffer : Request → Type 0
FitsBuffer r = length r.payload ≤ data_buf_max

abbrev clamped : Bytes → Bytes
clamped payload = if ltb data_buf_max (length payload) then take data_buf_max payload else payload

length-clip : (n : ℕ) (xs : Bytes) → length (if ltb n (length xs) then take n xs else xs) ≤ n
length-clip n xs = ground (arith, length-take n xs)

length-clamped : (payload : Bytes) → length (clamped payload) ≤ data_buf_max
length-clamped payload = length-clip data_buf_max payload

-- The queue keeps its bounds.
pub record IsBounded (s : Session) : Type 0 where
  pub few : length s.queues.requests ≤ dev_queue_cap
  pub small : All FitsBuffer s.queues.requests

-- The outcomes of a call: an error and the session as it was, or one request more.
abbrev IsServed : Session → Option Error × Session → Type 0
IsServed s r =
    IsBounded r.1
    × ((r.1 ≡ s) ⊎ ((r.0 ≡ none) × (length r.1.queues.requests ≡ length s.queues.requests + 1)))

-- Whatever the device's name and the payload: a call keeps the queue at eight datagrams of at most
-- 2048 bytes each, and either leaves the session as it was or returns no error and adds one.
pub send_device-IsBounded :
    (device payload : Bytes) (s : Session)
    → IsBounded s
    → let r = send_device device payload s in
      IsBounded r.1
      × ((r.1 ≡ s) ⊎ ((r.0 ≡ none) × (length r.1.queues.requests ≡ length s.queues.requests + 1)))
unfolding send_device
send_device-IsBounded device payload s h =
    let request : Request = record { device = device; payload = clamped payload } in
    let queue = s.queues.requests in
    let added = length-append queue (request ∷ []) in
    if-ind (IsServed s) (s.negotiated && not (has s.eff_opts cap_dev)) _ _ (λ _. (h, inl refl))
      (λ _.
        if-ind (IsServed s) s.aborted _ _ (λ _. (h, inl refl))
          (λ _.
            if-ind (IsServed s) (leb dev_queue_cap (length queue)) _ _ (λ _. (h, inl refl))
              (λ room. (
                record {
                  few = ground arith;
                  small =
                      All-append FitsBuffer queue (request ∷ []) h.small
                        (length-clamped payload, tt);
                },
                inr (refl, omega (arith, added)),
              ))))
