-- ===== src/Batch/Storage/Placing.antt =====
-- rx.go: what a DATA packet does to the file in hand.
use go_hydra.Base.{
  ◌≡◌, ◌∙◌, refl, ap, Bool, true, false, not, ◌&&◌, ◌||◌, ltb, if◌then◌else◌, if_no, Option, none,
  some, Bytes, ◌++◌, arith, length,
}
use go_hydra.Base.Int.{ℤ, pos, ltb_ℤ, eqb_ℤ, add_ℕ}
use go_hydra.Config.{Error, file_too_large}
use go_hydra.Constants.{safe_max_offset}
use go_hydra.Packet.{Packet, DataPkt, parse_data}
use go_hydra.Batch.{
  Environment, Batch, Ran, ok, note, stored, rx_progress, write_with, feed_braindead,
}
use go_hydra.Batch.Receive.{
  rx_close_file, request_skip, ask_rpos, bad_position, take_stored, take_block, rx_on_data,
  is_rx_data,
}
use go_hydra.Batch.Induction.{Holds, state_of, ok-Holds, if-Holds, write_with-Holds}
use go_hydra.Batch.Storage.{written}
use go_hydra.Batch.Transfer.{contents}

abbrev Keeps : Bytes → Batch → Type 0
Keeps bytes b = contents b.log ≡ bytes

-- The file takes the block.
abbrev pub takes : Environment → Batch → Bytes → Bool
takes env b bytes = elim (env.store b.log bytes) [ none ↦ true | some e ↦ false ]

-- What the file in hand holds behind a DATA packet: the block is appended where its offset is the
-- end of what has been written, and the file takes it.
abbrev pub grown : Environment → Batch → Option DataPkt → Bytes
grown env b none = contents b.log
grown env b (some d) =
    if eqb_ℤ d.offset (written b.log) && not (ltb_ℤ d.offset (pos 0)) && takes env b d.bytes
    then contents b.log ++ d.bytes
    else contents b.log

rx_close_file-Keeps :
    (b : Batch) (e : Option Error) → contents (rx_close_file b e).log ≡ contents b.log
unfolding rx_close_file
rx_close_file-Keeps b e = ground arith

request_skip-Keeps :
    (env : Environment) (b : Batch) (e : Error) (bytes : Bytes)
    → Keeps bytes b
    → Holds (Keeps bytes) (request_skip env b e)
unfolding request_skip
request_skip-Keeps env b e bytes h =
    let h1 = rx_close_file-Keeps b (some e) ∙ h in write_with-Holds env _ _ _ _ h1 h1

bad_position-Keeps :
    (env : Environment) (b : Batch) (offset : ℤ)
    → Holds (Keeps (contents b.log)) (bad_position env b offset false)
unfolding bad_position ask_rpos write_with
bad_position-Keeps env b offset = record { at = ground arith }

take_stored-Keeps :
    (env : Environment) (b : Batch) (block bytes : Bytes)
    → Keeps bytes b
    → Holds (Keeps bytes) (take_stored env b block)
unfolding take_stored
take_stored-Keeps env b block bytes h =
    let b1 = record b {
      rx = record b.rx {
        retries = 0;
        timer = none;
        last_sync = b.rx.position;
        position = add_ℕ b.rx.position (length block);
      };
    } in
    let b2 = note b1 (rx_progress b1.rx.info b1.rx.position) in
    if-Holds (ltb_ℤ (pos safe_max_offset) b1.rx.position) _ _
      (λ _. request_skip-Keeps env b1 file_too_large bytes h)
      (λ _.
        if-Holds (ltb 0 b2.link.rx_window) _ _ (λ _. write_with-Holds env b2 _ _ _ h h)
          (λ _. ok-Holds h))

-- The end of a block that the file has been asked to take.
asked :
    (env : Environment) (b : Batch) (block : Bytes) (o : Option Error)
    → contents
        (state_of (elim o [
          | some e ↦ request_skip env b e
          | none ↦ take_stored env (note b (stored block)) block
        ])).log
      ≡ (if (elim o [ none ↦ true | some e ↦ false ])
          then contents b.log ++ block
          else contents b.log)
asked env b block none = (take_stored-Keeps env (note b (stored block)) block _ refl).at
asked env b block (some e) = (request_skip-Keeps env b e _ refl).at

-- A block for an open writer.
take_block-grown :
    (env : Environment) (b : Batch) (block : Bytes)
    → b.rx.writer ≡ true
    → contents (state_of (take_block env b block)).log
      ≡ (if takes env b block then contents b.log ++ block else contents b.log)
unfolding take_block feed_braindead
take_block-grown env b block w =
    let b0 = feed_braindead b in
    let b1 = record b0 { rx = record b0.rx { blk_len = length block } } in
    ap (λ r. contents (state_of r).log) (if_no _ _ _ (ap not w))
    ∙ asked env b1 block (env.store b.log block)

-- The tests on a DATA packet, for any outcomes behind them.
sorted :
    (b : Batch) (here before_start taken : Bool) (bad block : Ran) (bytes : Bytes)
    → contents (state_of bad).log ≡ contents b.log
    → contents (state_of block).log ≡ (if taken then bytes else contents b.log)
    → contents (state_of (if not here || before_start then bad else block)).log
      ≡ (if here && not before_start && taken then bytes else contents b.log)
sorted b false before_start taken bad block bytes h k = h
sorted b true true taken bad block bytes h k = h
sorted b true false taken bad block bytes h k = k

-- The payload, parsed or not.
parsed :
    (env : Environment) (b : Batch) (o : Option DataPkt)
    → b.rx.writer ≡ true
    → b.rx.position ≡ written b.log
    → contents
        (state_of (elim o [
          | none ↦ ok b
          | some d ↦
              if not (eqb_ℤ d.offset b.rx.position) || ltb_ℤ d.offset (pos 0)
              then bad_position env b d.offset false
              else take_block env b d.bytes
        ])).log
      ≡ grown env b o
parsed env b none w at = refl
parsed env b (some d) w at = rw (← at) (
    sorted b (eqb_ℤ d.offset b.rx.position) (ltb_ℤ d.offset (pos 0)) (takes env b d.bytes)
      (bad_position env b d.offset false) (take_block env b d.bytes) (contents b.log ++ d.bytes)
      (bad_position-Keeps env b d.offset).at (take_block-grown env b d.bytes w))

-- A DATA packet in the data state with a writer, where the position is the end of what has been
-- written.
pub rx_on_data-grown :
    (env : Environment) (b : Batch) (pkt : Packet)
    → is_rx_data b.rx.state ≡ true
    → b.rx.writer ≡ true
    → b.rx.position ≡ written b.log
    → contents (state_of (rx_on_data env b pkt)).log ≡ grown env b (parse_data pkt.payload)
unfolding rx_on_data
rx_on_data-grown env b pkt s w at =
    ap (λ r. contents (state_of r).log) (if_no _ _ _ (ap not s))
    ∙ parsed env b (parse_data pkt.payload) w at
