-- ===== src/Wire/Cancel.antt =====
-- The cancel sequence, which the reader finds wherever it is.
use go_hydra.Base.{
  ℕ, zero, suc, ◌+◌, ◌≤◌, ◌<◌, ◌≡◌, refl, ◌∙◌, ◌∷◌, ◌++◌, arith, Bool-cases, inl, inr, leb, Bytes,
  replicate,
}
use go_hydra.Base.Bits.{low_seven}
use go_hydra.Constants.{dle, detect_cancel_count, cancel_count, cancel_pad_count, char_bs}
use go_hydra.Reader.{Reader, next, cancel, cancelled, read_byte, read_packet}
use go_hydra.Writer.{write_cancel}
use go_hydra.Wire.Bin.{read_packet_next}

read_dle_more :
    (opts : ℕ) (r : Reader)
    → r.dles + 1 < detect_cancel_count
    → read_byte opts r dle ≡ next (record r { dles = r.dles + 1 })
unfolding read_byte
read_dle_more opts r few = ground (arith, low_seven dle)

read_dle_last :
    (opts : ℕ) (r : Reader)
    → detect_cancel_count ≤ r.dles + 1
    → read_byte opts r dle ≡ cancel (record r { dles = 0 })
unfolding read_byte
read_dle_last opts r many = ground (arith, low_seven dle)

read_packet_cancel :
    (opts : ℕ) (r s : Reader) (rest : Bytes)
    → read_byte opts r dle ≡ cancel s
    → read_packet opts r (dle ∷ rest) ≡ cancelled s rest
unfolding read_packet
read_packet_cancel opts r s rest e = rw e refl

-- Some DLEs, with those that the reader has seen enough for a cancel.
read_dles :
    (opts k : ℕ) (r : Reader) (rest : Bytes)
    → r.dles < detect_cancel_count
    → detect_cancel_count ≤ r.dles + k
    → (s : Reader) × (left : Bytes) × (read_packet opts r (replicate k dle ++ rest)
        ≡ cancelled s left)
read_dles opts zero r rest few many = absurd (omega arith)
read_dles opts (suc k) r rest few many = elim (Bool-cases (leb detect_cancel_count (r.dles + 1))) [
  | inl enough ↦ (
    record r { dles = 0 },
    replicate k dle ++ rest,
    read_packet_cancel opts r _ _ (read_dle_last opts r (ground arith)),
  )
  | inr more ↦
      let r1 = record r { dles = r.dles + 1 } in
      let (s, left, e) = read_dles opts k r1 rest (ground arith) (omega arith) in
      (s, left, read_packet_next opts r r1 dle _ (read_dle_more opts r (ground arith)) ∙ e)
]

-- Whatever options it has and wherever it is in a frame or between frames, a reader that has not
-- just seen a cancel finds one in the sequence that the writer sends.
pub read_packet-write_cancel :
    (opts : ℕ) (r : Reader) (rest : Bytes)
    → r.dles < detect_cancel_count
    → (s : Reader) × (left : Bytes) × (read_packet opts r (write_cancel ++ rest) ≡ cancelled s left)
unfolding write_cancel
read_packet-write_cancel opts r rest few =
    read_dles opts cancel_count r (replicate cancel_pad_count char_bs ++ rest) few (omega arith)
