-- ===== src/Batch/Offers.antt =====
-- tx.go: each file that is offered is reported once.
pub mod Sending
pub mod Receiving
pub mod Always
use go_hydra.Base.{
  ℕ, ◌≡◌, Bool, true, false, not, ◌&&◌, ◌||◌, List, [], ◌∷◌, Option, none, some, Bytes, ◌+◌,
}
use go_hydra.Config.{FileOffer}
use go_hydra.Batch.{TxState, rend, end, end_ack, done, offered, tx_completed, Event, Tx, Batch}
use go_hydra.Batch.Send.{transferring}

-- Files taken from `NextFile`, and reports of `FileCompleted` on the sending side.
abbrev pub offers : List Event → ℕ
offers [] = 0
offers (offered _ ∷ log) = offers log + 1
offers (_ ∷ log) = offers log

abbrev pub tx_reports : List Event → ℕ
tx_reports [] = 0
tx_reports (tx_completed _ _ _ ∷ log) = tx_reports log + 1
tx_reports (_ ∷ log) = tx_reports log

abbrev pub in_hand : Option FileOffer → ℕ
in_hand none = 0
in_hand (some _) = 1

abbrev pub is_held : Option FileOffer → Bool
is_held none = false
is_held (some _) = true

abbrev is_cached : Option Bytes → Bool
is_cached none = false
is_cached (some _) = true

-- The states behind the last file.
abbrev pub is_closing : TxState → Bool
is_closing rend = true
is_closing end = true
is_closing end_ack = true
is_closing done = true
is_closing _ = false

-- Where the transmitter works on a file, it has one, and behind the last one it has none.
abbrev pub has_its_file : Tx → Bool
has_its_file t =
    (not (transferring t.state) || is_held t.offer)
    && (not t.finfo_ack_wait || t.eob || is_held t.offer)
    && (not (is_cached t.last_finfo) || t.eob || is_held t.offer)
    && (not t.eob || not (is_held t.offer))
    && (not (is_closing t.state) || not (is_held t.offer))

abbrev pub IsTxCounted : Batch → Type 0
IsTxCounted b = (offers b.log ≡ tx_reports b.log + in_hand b.tx.offer) × (has_its_file b.tx ≡ true)
