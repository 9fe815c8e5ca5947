-- ===== src/Reader/Fuel.antt =====
-- reader.go and readerLoop of session.go: the loop on a finite stream ends.
use go_hydra.Base.{ℕ, zero, suc, ◌<◌, ◌≤◌, ◌≡◌, refl, ap, List, [], ◌∷◌, Bytes, arith, length}
use go_hydra.Packet.{Packet}
use go_hydra.Reader.{
  Reader, Outcome, next, packet, cancel, Read, waiting, received, cancelled, resume, read_byte,
  read_packet, reader_loop,
}

-- What a read leaves is shorter than `n`.
abbrev LeavesLess : Read → ℕ → Type 0
LeavesLess (waiting r) n = Unit
LeavesLess (received p r rest) n = length rest < n
LeavesLess (cancelled r rest) n = Unit

LeavesLess-suc : (x : Read) (n : ℕ) → LeavesLess x n → LeavesLess x (suc n)
LeavesLess-suc (waiting r) n h = tt
LeavesLess-suc (received p r rest) n h = omega arith
LeavesLess-suc (cancelled r rest) n h = tt

resume-LeavesLess :
    (o : Outcome) (bytes : Bytes) (k : Reader → Read)
    → ((r : Reader) → LeavesLess (k r) (length bytes))
    → LeavesLess (resume o bytes k) (suc (length bytes))
resume-LeavesLess (next r) bytes k h = LeavesLess-suc (k r) (length bytes) (h r)
resume-LeavesLess (packet p r) bytes k h = omega arith
resume-LeavesLess (cancel r) bytes k h = tt

read_packet-LeavesLess :
    (opts : ℕ) (r : Reader) (bytes : Bytes) → LeavesLess (read_packet opts r bytes) (length bytes)
unfolding read_packet
read_packet-LeavesLess opts r [] = tt
read_packet-LeavesLess opts r (c ∷ bytes) =
    resume-LeavesLess (read_byte opts r c) bytes (λ s. read_packet opts s bytes)
      (λ s. read_packet-LeavesLess opts s bytes)

-- One turn of the loop, with either fuel behind it.
same_turn :
    (x : Read) (n : ℕ) (f g : Reader → Bytes → List Packet)
    → LeavesLess x n
    → ((s : Reader) (rest : Bytes) → length rest < n → f s rest ≡ g s rest)
    → (elim x as (λ _. List Packet) [
      | waiting s ↦ []
      | received p s rest ↦ p ∷ f s rest
      | cancelled s rest ↦ []
    ])
      ≡ (elim x as (λ _. List Packet) [
        | waiting s ↦ []
        | received p s rest ↦ p ∷ g s rest
        | cancelled s rest ↦ []
      ])
same_turn (waiting s) n f g h same = refl
same_turn (received p s rest) n f g h same = ap (◌∷◌ p) (same s rest h)
same_turn (cancelled s rest) n f g h same = refl

-- The reader's loop on a finite stream returns the same packets with every fuel from the number of
-- bytes on: it reads all that there is.
reader_loop-length :
    (n m opts : ℕ) (r : Reader) (bytes : Bytes)
    → length bytes ≤ n
    → length bytes ≤ m
    → reader_loop n opts r bytes ≡ reader_loop m opts r bytes
unfolding reader_loop
reader_loop-length zero zero opts r bytes hn hm = refl
reader_loop-length zero (suc m) opts r [] hn hm = unfold read_packet in refl
reader_loop-length (suc n) zero opts r [] hn hm = unfold read_packet in refl
reader_loop-length zero (suc m) opts r (c ∷ bytes) hn hm = absurd (omega arith)
reader_loop-length (suc n) zero opts r (c ∷ bytes) hn hm = absurd (omega arith)
reader_loop-length (suc n) (suc m) opts r bytes hn hm =
    same_turn (read_packet opts r bytes) (length bytes) (reader_loop n opts) (reader_loop m opts)
      (read_packet-LeavesLess opts r bytes)
      (λ s rest less. reader_loop-length n m opts s rest (omega arith) (omega arith))
