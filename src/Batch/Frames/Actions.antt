-- ===== src/Batch/Frames/Actions.antt =====
-- tx.go: every frame fits: the actions of the sender.
use go_hydra.Base.{
  ℕ, Bool, ◌≡◌, refl, leb, ◌&&◌, IsShort, nil-IsShort, IsShort-mono, All, length, not, ◌||◌, ◌==◌,
  ltb, List, [], ◌∷◌, Option, none, some, Bytes, arith, if◌then◌else◌, ◌+◌,
}
use go_hydra.Base.Int.{pos, ltb_ℤ}
use go_hydra.Config.{FileOffer, Error, file_too_large, handler_contract}
use go_hydra.Constants.{safe_max_offset, cap_fpt, offset_skip, pkt_data, pkt_eof}
use go_hydra.Batch.{
  TxState, start, swait, init, init_ack, rinit, finfo, finfo_ack, xdata, data_ack, xwait, eof,
  eof_ack, rend, end, end_ack, done, offered, Environment, Batch, write_with, arm_tx, write,
}
use go_hydra.Packet.{marshal_offset, marshal_data}
use go_hydra.Packet.Bounds.{marshal_offset-IsShort, marshal_data-IsShort}
use go_hydra.Packet.Init.Bounds.{marshal_init-IsShort}
use go_hydra.FileInfo.{FileMeta, marshal_finfo, finfo_eob}
use go_hydra.FileInfo.Bounds.{marshal_finfo-IsShort}
use go_hydra.Filename.{tx_wire_name}
use go_hydra.Filename.Bounds.{tx_wire_name-IsShort}
use go_hydra.BlockSize.{good}
use go_hydra.BlockSize.Bounds.{good-IsSound}
use go_hydra.Caps.{has}
use go_hydra.Batch.Send.{
  next_offer, announce, unix_time, prepare_if, payload_or_empty, reject_offer, pick_offer,
  prepare_finfo, send_finfo, send_init, send_block, send_data, tx_action_in,
}
use go_hydra.Batch.Induction.{Holds, bind-Holds, ok-Holds, if-Holds, if-ind, source-known-Holds}
use go_hydra.Batch.Frames.{
  IsFit, IsBrief, IsBriefOffer, IsShortPayload, IsReading, write_short-IsFit,
}

reject_offer-IsFit : (b : Batch) (o : FileOffer) (e : Error) → IsFit b → IsFit (reject_offer b o e)
unfolding reject_offer
reject_offer-IsFit b o e h = ground arith

pick_offer-IsFit :
    (files : List FileOffer) (b : Batch) → All IsBrief files → IsFit b → IsFit (pick_offer files b)
unfolding pick_offer
pick_offer-IsFit [] b brief h =
    let (frames, app, files, offer, announced, blk, queue, pending) = h in
    (frames, app, tt, offer, announced, blk, queue, pending)
pick_offer-IsFit (o ∷ files) b brief h =
    let (frames, app, files', offer, announced, blk, queue, pending) = h in
    let b1 = record b { files = files; log = offered o ∷ b.log } in
    let h1 : IsFit b1 = (frames, app, brief.1, offer, announced, blk, queue, pending) in
    let too_large = ltb_ℤ o.size (pos 0) || ltb_ℤ (pos safe_max_offset) o.size in
    let e = if too_large then file_too_large else handler_contract in
    if-ind IsFit (too_large || not o.has_reader) _ _
      (λ _. pick_offer-IsFit files (reject_offer b1 o e) brief.1 (reject_offer-IsFit b1 o e h1))
      (λ _. (frames, app, brief.1, brief.0, announced, blk, queue, pending))

next_offer-IsFit : (o : Option FileOffer) (b : Batch) → IsFit b → IsFit (next_offer o b)
unfolding next_offer
next_offer-IsFit (some _) b h = h
next_offer-IsFit none b h =
    let (frames, app, files, offer, announced, blk, queue, pending) = h in
    if-ind IsFit b.tx.batch_ended _ _ (λ _. h) (λ _. pick_offer-IsFit b.files b files h)

-- The names of an offer that is not too long fit a FINFO packet.
announced-IsShort :
    (o : FileOffer) (m : FileMeta) (fpt : Bool)
    → IsBrief o
    → m.name ≡ tx_wire_name o.name
    → m.path ≡ o.path
    → IsShort 2056 (marshal_finfo m fpt)
announced-IsShort o m fpt brief en ep =
    let name : IsShort (length o.name + 1) m.name = rw en (
      tx_wire_name-IsShort (length o.name) o.name
        (record { bytes = brief.name_bytes; size = omega arith })) in
    let path : IsShort (length o.path) m.path =
      rw ep (record { bytes = brief.path_bytes; size = omega arith }) in
    IsShort-mono (marshal_finfo-IsShort m fpt (length o.name + 1) (length o.path) name path)
      (omega (arith, brief.fit))

finfo_eob-IsShort : IsShort 2056 finfo_eob
finfo_eob-IsShort = record { bytes = omega arith; size = omega arith }

-- What is announced of an offer.
abbrev announced_meta : FileOffer → FileMeta
announced_meta o = record {
  mtime = unix_time o.mod_time;
  size = o.size;
  txid = 0;
  count = 0;
  name = tx_wire_name o.name;
  path = o.path;
}

announce-IsFit :
    (o : Option FileOffer) (b : Batch) → IsBriefOffer o → IsFit b → IsFit (announce o b)
unfolding announce
announce-IsFit none b brief h =
    let (frames, app, files, offer, announced, blk, queue, pending) = h in
    (frames, app, files, offer, finfo_eob-IsShort, blk, queue, pending)
announce-IsFit (some o) b brief h =
    let (frames, app, files, offer, announced, blk, queue, pending) = h in
    (
      frames,
      app,
      files,
      offer,
      announced-IsShort o (announced_meta o) (has b.link.opts cap_fpt) brief refl refl,
      blk,
      queue,
      pending,
    )

prepare_finfo-IsFit : (b : Batch) → IsFit b → IsFit (prepare_finfo b)
unfolding prepare_finfo
prepare_finfo-IsFit b h =
    let b1 = next_offer b.tx.offer b in
    let h1 : IsFit b1 = next_offer-IsFit b.tx.offer b h in
    let (frames, app, files, offer, announced, blk, queue, pending) = h1 in
    announce-IsFit b1.tx.offer b1 offer h1

prepare_if-IsFit : (o : Option Bytes) (b : Batch) → IsFit b → IsFit (prepare_if o b)
unfolding prepare_if
prepare_if-IsFit none b h = prepare_finfo-IsFit b h
prepare_if-IsFit (some _) b h = h

payload_or_empty-IsShort : (o : Option Bytes) → IsShortPayload o → IsShort 2056 (payload_or_empty o)
payload_or_empty-IsShort none h = IsShort-mono nil-IsShort (omega arith)
payload_or_empty-IsShort (some payload) h = h

send_finfo-IsFit : (env : Environment) (b : Batch) → IsFit b → Holds IsFit (send_finfo env b)
unfolding send_finfo
send_finfo-IsFit env b h =
    let b1 = prepare_if b.tx.last_finfo b in
    let h1 : IsFit b1 = prepare_if-IsFit b.tx.last_finfo b h in
    let (frames, app, files, offer, announced, blk, queue, pending) = h1 in
    write_short-IsFit env b1 _ _ _ h1 (omega arith)
      (payload_or_empty-IsShort b1.tx.last_finfo announced) (omega arith)

act_start-IsFit : (env : Environment) (b : Batch) → IsFit b → Holds IsFit (tx_action_in start env b)
unfolding tx_action_in write_with
act_start-IsFit env b h = record { at = ground arith }

send_init-IsFit : (env : Environment) (b : Batch) → IsFit b → Holds IsFit (send_init env b)
unfolding send_init
send_init-IsFit env b h =
    let (frames, app, files, offer, announced, blk, queue, pending) = h in
    write_short-IsFit env b _ _ _ h (omega arith) (marshal_init-IsShort _ 1947 0 app nil-IsShort)
      (omega arith)

act_end-IsFit : (env : Environment) (b : Batch) → IsFit b → Holds IsFit (tx_action_in end env b)
unfolding tx_action_in write_with
act_end-IsFit env b h = record { at = ground arith }

-- A block that is on the wire.
sent_block-IsFit :
    (b : Batch) (n : ℕ) → IsFit b → IsFit (record b { tx = record b.tx { blk = good b.tx.blk n } })
sent_block-IsFit b n h =
    let (frames, app, files, offer, announced, blk, queue, pending) = h in
    (frames, app, files, offer, announced, good-IsSound b.tx.blk n blk, queue, pending)

send_block-IsFit :
    (env : Environment) (b : Batch) (block : Bytes)
    → IsShort b.tx.blk.cur block
    → IsFit b
    → Holds IsFit (send_block env b block)
unfolding send_block arm_tx
send_block-IsFit env b block short h =
    let (frames, app, files, offer, announced, blk, queue, pending) = h in
    let n = length block in
    let payload = marshal_data-IsShort (pos b.tx.position) b.tx.blk.cur block short in
    if-Holds (n == 0) _ _ (λ _. ok-Holds h)
      λ _.
        if-Holds (ltb safe_max_offset (b.tx.position + n)) _ _ (λ _. ok-Holds h)
          λ _.
            bind-Holds (write env b pkt_data (marshal_data (pos b.tx.position) block)) _
              (write_short-IsFit env b _ _ _ h (omega arith) payload (omega (arith, blk.fits)))
              λ b1 h1.
                let h2 = sent_block-IsFit b1 n h1 in
                let position = b1.tx.position + n in
                let full =
                  ltb 0 b1.link.tx_window && leb (b1.tx.last_ack + b1.link.tx_window) position in
                if-Holds full _ _ (λ _. ok-Holds h2) (λ _. ok-Holds h2)

send_data-IsFit :
    (env : Environment) (b : Batch) → IsReading env → IsFit b → Holds IsFit (send_data env b)
unfolding send_data
send_data-IsFit env b reads h =
    if-Holds b.tx.skip _ _ (λ _. ok-Holds h)
      λ _.
        source-known-Holds (env.source b.log b.tx.blk.cur) _ _
          (λ block e. send_block-IsFit env b block (reads.gives b.log b.tx.blk.cur block e) h)
          (λ _. ok-Holds h)

pub tx_action_in-IsFit :
    (s : TxState) (env : Environment) (b : Batch)
    → IsReading env
    → IsFit b
    → Holds IsFit (tx_action_in s env b)
unfolding tx_action_in arm_tx
tx_action_in-IsFit start env b reads h = act_start-IsFit env b h
tx_action_in-IsFit init env b reads h =
    bind-Holds (send_init env b) _ (send_init-IsFit env b h) (λ b1 h1. ok-Holds h1)
tx_action_in-IsFit finfo env b reads h =
    bind-Holds (send_finfo env b) _ (send_finfo-IsFit env b h) (λ b1 h1. ok-Holds h1)
tx_action_in-IsFit xdata env b reads h = send_data-IsFit env b reads h
tx_action_in-IsFit eof env b reads h =
    let offset = if b.tx.skip then offset_skip else pos b.tx.position in
    bind-Holds (write env b pkt_eof (marshal_offset offset)) _
      (write_short-IsFit env b _ _ _ h (omega arith) (marshal_offset-IsShort offset) (omega arith))
      (λ b1 h1. ok-Holds h1)
tx_action_in-IsFit end env b reads h = act_end-IsFit env b h
tx_action_in-IsFit swait env b reads h = ok-Holds h
tx_action_in-IsFit init_ack env b reads h = ok-Holds h
tx_action_in-IsFit rinit env b reads h = ok-Holds h
tx_action_in-IsFit finfo_ack env b reads h = ok-Holds h
tx_action_in-IsFit data_ack env b reads h = ok-Holds h
tx_action_in-IsFit xwait env b reads h = ok-Holds h
tx_action_in-IsFit eof_ack env b reads h = ok-Holds h
tx_action_in-IsFit rend env b reads h = ok-Holds h
tx_action_in-IsFit end_ack env b reads h = ok-Holds h
tx_action_in-IsFit done env b reads h = ok-Holds h
