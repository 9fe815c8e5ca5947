-- ===== src/Session/Drain.antt =====
-- session.go: the drain of the queues is the drain of a list of items.
use go_hydra.Base.{
  ℕ, zero, suc, ◌≤◌, ◌≡◌, ◌∙◌, ◌⊎◌, inl, inr, refl, ap, sym, Bool, true, List, [], ◌∷◌, take, drop,
  length, arith,
}
use go_hydra.Config.{Error}
use go_hydra.Packet.{Packet}
use go_hydra.Batch.{Environment, Batch, Ran, ok, fail, ◌>>=◌}
use go_hydra.Batch.Device.{queue_dev}
use go_hydra.Batch.Loop.{Item, arrived, requested, drain, handle_packet, sync}
use go_hydra.Session.Inbox.{Request, Queues, drain_rounds, drain_queues, drain_budget}

abbrev pub requests_of : List Request → List Item
requests_of [] = []
requests_of (r ∷ rs) = requested r.device r.payload ∷ requests_of rs

-- What the queues hold, in the order in which it is served: the packets first.
abbrev pub items_of : List Packet → List Request → List Item
items_of [] rs = requests_of rs
items_of (p ∷ ps) rs = arrived p ∷ items_of ps rs

-- The last of the items that have been served has failed, behind items that have not.
pub record IsFailed (env : Environment) (items : List Item) (b : Batch) (r : Ran) (served : ℕ)
    : Type 0 where
  pub before : ℕ
  pub last : served ≡ suc before
  pub so_far : Batch
  pub passed : drain env (take before items) b ≡ ok so_far
  pub err : Error
  pub state : Batch
  pub failed : r ≡ fail err state

-- What a drain of at most `n` of the items that are queued comes to.
pub record IsServed (n : ℕ) (env : Environment) (items : List Item) (signal : Bool) (b : Batch)
    (r : Ran × Queues) : Type 0 where
  -- The items that have been taken off the queues.
  pub served : ℕ
  pub in_budget : served ≤ n
  pub outcome : r.0 ≡ drain env (take n items) b
  pub taken : r.0 ≡ drain env (take served items) b
  pub left : items_of r.1.inbox.queue r.1.requests ≡ drop served items
  pub stopped :
      ((served ≡ n) × (r.1.inbox.signal ≡ true))
      ⊎ (r.1.inbox.signal ≡ signal) × ((served ≡ length items) ⊎ IsFailed env items b r.0 served)

-- Behind an item that is served first.
behind_item :
    (env : Environment) (i : Item) (items : List Item) (b b1 : Batch) (r : Ran) (k : ℕ)
    → ((is : List Item) → drain env is b1 ≡ drain env (i ∷ is) b)
    → (k ≡ length items) ⊎ IsFailed env items b1 r k
    → (suc k ≡ length (i ∷ items)) ⊎ IsFailed env (i ∷ items) b r (suc k)
behind_item env i items b b1 r k same (inl all) = inl (omega arith)
behind_item env i items b b1 r k same (inr f) = inr (record {
  before = suc f.before;
  last = ap suc f.last;
  so_far = f.so_far;
  passed = sym (same (take f.before items)) ∙ f.passed;
  err = f.err;
  state = f.state;
  failed = f.failed;
})

-- The same for the whole reason why a drain stops.
behind_stop :
    (n : ℕ) (env : Environment) (i : Item) (items : List Item) (b b1 : Batch) (r : Ran)
    (before after : Bool) (k : ℕ)
    → ((is : List Item) → drain env is b1 ≡ drain env (i ∷ is) b)
    → ((k ≡ n) × (after ≡ true))
      ⊎ (after ≡ before) × ((k ≡ length items) ⊎ IsFailed env items b1 r k)
    → ((suc k ≡ suc n) × (after ≡ true))
      ⊎ (after ≡ before) × ((suc k ≡ length (i ∷ items)) ⊎ IsFailed env (i ∷ items) b r (suc k))
behind_stop n env i items b b1 r before after k same (inl h) = inl (ap suc h.0, h.1)
behind_stop n env i items b b1 r before after k same (inr h) =
    inr (h.0, behind_item env i items b b1 r k same h.1)

-- One served packet, with the rest of the drain behind it.
behind_packet :
    (n : ℕ) (env : Environment) (p : Packet) (ps : List Packet) (rs : List Request) (signal : Bool)
    (b : Batch) (ran : Ran)
    → ran ≡ handle_packet env b p
    → ((b1 : Batch)
        → IsServed n env
            (items_of ps rs)
            signal
            (sync b1)
            (drain_rounds n env ps rs signal (sync b1)))
    → IsServed (suc n) env (items_of (p ∷ ps) rs) signal b (elim ran [
      | ok b1 ↦ drain_rounds n env ps rs signal (sync b1)
      | fail e b1 ↦
          (fail e b1, record { inbox = record { queue = ps; signal = signal }; requests = rs })
    ])
unfolding drain
behind_packet n env p ps rs signal b (ok b1) same h =
    let s = h b1 in
    let items = items_of ps rs in
    let through : (is : List Item) → drain env is (sync b1) ≡ drain env (arrived p ∷ is) b =
      λ is. ap (λ r. r >>= λ b2. drain env is (sync b2)) same in
    record {
      served = suc s.served;
      in_budget = omega (arith, s.in_budget);
      outcome = s.outcome ∙ through (take n items);
      taken = s.taken ∙ through (take s.served items);
      left = s.left;
      stopped =
          behind_stop n env (arrived p) items b (sync b1) _ signal _ s.served through s.stopped;
    }
behind_packet n env p ps rs signal b (fail e b1) same h = record {
  served = 1;
  in_budget = omega arith;
  outcome = ap (λ r. r >>= λ b2. drain env (take n (items_of ps rs)) (sync b2)) same;
  taken = ap (λ r. r >>= λ b2. drain env [] (sync b2)) same;
  left = refl;
  stopped = inr (
    refl,
    inr (record {
      before = 0;
      last = refl;
      so_far = b;
      passed = refl;
      err = e;
      state = b1;
      failed = refl;
    }),
  );
}

drain_rounds-IsServed :
    (n : ℕ) (env : Environment) (ps : List Packet) (rs : List Request) (signal : Bool) (b : Batch)
    → IsServed n env (items_of ps rs) signal b (drain_rounds n env ps rs signal b)
unfolding drain_rounds drain
drain_rounds-IsServed zero env ps rs signal b = record {
  served = 0;
  in_budget = omega arith;
  outcome = refl;
  taken = refl;
  left = refl;
  stopped = inl (refl, refl);
}
drain_rounds-IsServed (suc n) env (p ∷ ps) rs signal b =
    behind_packet n env p ps rs signal b (handle_packet env b p) refl
      (λ b1. drain_rounds-IsServed n env ps rs signal (sync b1))
drain_rounds-IsServed (suc n) env [] (r ∷ rs) signal b =
    let s = drain_rounds-IsServed n env [] rs signal (queue_dev b r.device r.payload) in
    record {
      served = suc s.served;
      in_budget = omega (arith, s.in_budget);
      outcome = s.outcome;
      taken = s.taken;
      left = s.left;
      stopped =
          behind_stop n env (requested r.device r.payload) (requests_of rs) b
            (queue_dev b r.device r.payload) _ signal _ s.served (λ is. refl) s.stopped;
    }
drain_rounds-IsServed (suc n) env [] [] signal b = record {
  served = 0;
  in_budget = omega arith;
  outcome = refl;
  taken = refl;
  left = refl;
  stopped = inr (refl, inl refl);
}

-- With nothing arriving meanwhile, a drain of the queues serves some number of their items, at most
-- 256, the packets in the order of arrival, then the device requests. It does to the batch what the
-- drain of the first 256 items does, which is what the drain of those that it has served does, and
-- the others stay queued, in order. It stops for one of three reasons: 256 items are served, and the
-- signal is set; or all are served, or the one served last has failed behind others that have not,
-- and the signal is as it was.
pub drain_queues-drain :
    (env : Environment) (q : Queues) (b : Batch)
    → IsServed 256 env (items_of q.inbox.queue q.requests) q.inbox.signal b (drain_queues env q b)
drain_queues-drain env q b =
    drain_rounds-IsServed drain_budget env q.inbox.queue q.requests q.inbox.signal b
