-- ===== src/Batch/Delivery.antt =====
-- dev.go: a device datagram that comes again is delivered once.
use go_hydra.Base.{
  at_some, ℕ, zero, suc, ◌<◌, ◌≤◌, ◌^◌, ◌≡◌, ◌≢◌, refl, ◌∙◌, sym, ap, subst, true, false, List, [],
  ◌∷◌, none, Bytes, All, arith, ◌==◌, ltb, length,
}
use go_hydra.Constants.{pkt_devdata, pkt_devdack}
use go_hydra.Packet.{Packet, marshal_dev_ack}
use go_hydra.Packet.Device.{DevDataPkt, marshal_dev_data}
use go_hydra.Packet.Device.RoundTrip.{parse_dev_data-marshal_dev_data}
use go_hydra.Batch.{Event, delivered, sent, Environment, Batch, ok, note, write_with}
use go_hydra.Batch.Device.{dev_rx}
use go_hydra.Batch.Loop.{Item, arrived, handle_packet, sync_in, sync, drain}

-- What `DeviceData` has been called with, newest first.
abbrev pub deliveries : List Event → List (Bytes × Bytes)
deliveries [] = []
deliveries (delivered name payload ∷ log) = (name, payload) ∷ deliveries log
deliveries (_ ∷ log) = deliveries log

abbrev pub dev_packet : DevDataPkt → Packet
dev_packet d = record { typ = pkt_devdata; payload = marshal_dev_data d }

-- `n` copies of a datagram, in front of further packets.
abbrev pub copies : ℕ → DevDataPkt → List Item → List Item
copies zero d items = items
copies (suc n) d items = arrived (dev_packet d) ∷ copies n d items

-- Each datagram once, and then `n` times again.
abbrev pub stream : List (ℕ × DevDataPkt) → List Item
stream [] = []
stream ((n, d) ∷ ds) = arrived (dev_packet d) ∷ copies n d (stream ds)

-- The datagrams of a stream in front of what was delivered before, newest first.
abbrev pub behind : List (ℕ × DevDataPkt) → List (Bytes × Bytes) → List (Bytes × Bytes)
behind [] before = before
behind ((_, d) ∷ ds) before = behind ds ((d.device, d.payload) ∷ before)

-- What the sender gives: a 32-bit number, and a name of three characters without a NUL.
pub record IsDatagram (d : DevDataPkt) : Type 0 where
  pub number : d.id < 2 ^ 32
  pub clean : All (λ c. c ≢ 0) d.device
  pub short : length d.device ≤ 3

-- Each datagram has another number than the one before it.
abbrev pub AreNumbered : ℕ → List (ℕ × DevDataPkt) → Type 0
AreNumbered last [] = Unit
AreNumbered last ((_, d) ∷ ds) = (d.id ≢ last) × IsDatagram d × AreNumbered d.id ds

-- An environment with a device handler and a transport that takes every frame.
pub record IsListening (env : Environment) : Type 0 where
  pub has_handler : env.has_device_handler ≡ true
  pub takes_all : (log : List Event) → env.transport log ≡ none

module _ (env : Environment) (listening : IsListening env) where
  dev_rx_new :
      (b : Batch) (d : DevDataPkt)
      → IsDatagram d
      → d.id ≢ b.dev.rx_id
      → let b1 =
          note (record b { dev = record b.dev { rx_id = d.id } }) (delivered d.device d.payload) in
        dev_rx env b (dev_packet d)
        ≡ ok (note b1 (sent pkt_devdack (marshal_dev_ack d.id) b.link.opts b.link.prefix))
  unfolding dev_rx write_with
  dev_rx_new b d h other =
      let parsed = parse_dev_data-marshal_dev_data d h.number h.clean in
      let differs : (d.id == b.dev.rx_id) ≡ false = ground arith in
      let short : ltb 3 (length d.device) ≡ false = ground (arith, h.short) in
      let log = delivered d.device d.payload ∷ b.log in
      at_some _ d _ _ parsed
      ∙ rw (differs, short, listening.has_handler, listening.takes_all log) refl

  write_taken :
      (b : Batch) (payload : Bytes)
      → write_with env b pkt_devdack payload b.link.opts
        ≡ ok (note b (sent pkt_devdack payload b.link.opts b.link.prefix))
  unfolding write_with
  write_taken b payload = rw (listening.takes_all b.log, write_with) refl

  dev_rx_again :
      (b : Batch) (d : DevDataPkt)
      → IsDatagram d
      → d.id ≡ b.dev.rx_id
      → dev_rx env b (dev_packet d)
        ≡ ok (note b (sent pkt_devdack (marshal_dev_ack b.dev.rx_id) b.link.opts b.link.prefix))
  unfolding dev_rx write_with
  dev_rx_again b d h same =
      let parsed = parse_dev_data-marshal_dev_data d h.number h.clean in
      let equal : (d.id == b.dev.rx_id) ≡ true = ground arith in
      at_some _ d _ _ parsed ∙ rw equal (write_taken b (marshal_dev_ack b.dev.rx_id))

  drain_packet :
      (b b1 : Batch) (d : DevDataPkt) (items : List Item)
      → dev_rx env b (dev_packet d) ≡ ok b1
      → drain env (arrived (dev_packet d) ∷ items) b ≡ drain env items (sync b1)
  unfolding drain handle_packet
  drain_packet b b1 d items e = rw e refl

  sync-dev : (b : Batch) → ((sync b).dev.rx_id ≡ b.dev.rx_id) × ((sync b).log ≡ b.log)
  unfolding sync_in
  sync-dev b = ground arith

  -- Further copies change nothing that was delivered.
  drain-copies :
      (n : ℕ) (d : DevDataPkt) (items : List Item) (b : Batch)
      → IsDatagram d
      → d.id ≡ b.dev.rx_id
      → (b1 : Batch) × (drain env (copies n d items) b ≡ drain env items b1)
        × (b1.dev.rx_id ≡ d.id)
        × (deliveries b1.log ≡ deliveries b.log)
  drain-copies zero d items b h same = (b, refl, sym same, refl)
  drain-copies (suc n) d items b h same =
      let b1 = note b (sent pkt_devdack (marshal_dev_ack b.dev.rx_id) b.link.opts b.link.prefix) in
      let (id, log) = sync-dev b1 in
      let (b2, e, id2, log2) = drain-copies n d items (sync b1) h (same ∙ sym id) in
      (
        b2,
        drain_packet b b1 d (copies n d items) (dev_rx_again b d h same) ∙ e,
        id2,
        log2 ∙ ap deliveries log,
      )

  drain_new :
      (n : ℕ) (d : DevDataPkt) (items : List Item) (b : Batch)
      → IsDatagram d
      → d.id ≢ b.dev.rx_id
      → (b1 : Batch) × (drain env (arrived (dev_packet d) ∷ copies n d items) b
          ≡ drain env items b1)
        × (b1.dev.rx_id ≡ d.id)
        × (deliveries b1.log ≡ (d.device, d.payload) ∷ deliveries b.log)
  drain_new n d items b h other =
      let b0 =
        note (record b { dev = record b.dev { rx_id = d.id } }) (delivered d.device d.payload) in
      let b1 = note b0 (sent pkt_devdack (marshal_dev_ack d.id) b.link.opts b.link.prefix) in
      let (id, log) = sync-dev b1 in
      let (b2, e, id2, log2) = drain-copies n d items (sync b1) h (sym id) in
      (
        b2,
        drain_packet b b1 d (copies n d items) (dev_rx_new b d h other) ∙ e,
        id2,
        log2 ∙ ap deliveries log,
      )

  -- With a device handler and a transport that takes every frame: of a stream of datagrams, each
  -- with another number than the one before it and sent any number of times, each is delivered once,
  -- in order, and the drain goes on.
  pub drain-stream :
      (ds : List (ℕ × DevDataPkt)) (b : Batch)
      → AreNumbered b.dev.rx_id ds
      → (b1 : Batch) × (drain env (stream ds) b ≡ ok b1)
        × (deliveries b1.log ≡ behind ds (deliveries b.log))
  drain-stream [] b h = (b, unfold drain in refl, refl)
  drain-stream ((n, d) ∷ ds) b h =
      let (b1, e, id, log) = drain_new n d (stream ds) b h.1 h.0 in
      let h1 : AreNumbered b1.dev.rx_id ds = subst (λ x. AreNumbered x ds) (sym id) h.2 in
      let (b2, e2, log2) = drain-stream ds b1 h1 in (b2, e ∙ e2, log2 ∙ ap (behind ds) log)
