-- ===== src/Wire/Asc.antt =====
-- The ASC body of a frame, decoded, and through the escaper and the reader.
use go_hydra.Base.{
  ℕ, suc, ◌+◌, ◌-◌, ◌*◌, ◌/◌, ◌%◌, ◌^◌, ◌≤◌, ◌<◌, bit_and, bit_or, ◌≡◌, refl, ◌∙◌, ap, [], ◌∷◌,
  arith, length, Bytes, IsBytes, All, ltb, leb, inl, inr, subst, Bool-cases, true, false, zero,
}
use go_hydra.Base.Or.{or_above, low_seven_any}
use go_hydra.Encoding.Asc.{asc_units_from, asc_decode_from, asc_decode_body}
use go_hydra.Wire.Bin.{Survives}

-- The encoder's accumulator behind a byte, and the decoder's behind a unit.
put_byte :
    (n acc b : ℕ)
    → acc < 2 ^ n
    → b * 2 ^ n < 2 ^ 32
    → bit_or acc (b * 2 ^ n % 2 ^ 32) ≡ acc + b * 2 ^ n
put_byte n acc b room fits =
    let e : b * 2 ^ n % 2 ^ 32 ≡ b * 2 ^ n = omega arith in rw e (or_above n acc b room)

put_unit :
    (m acc u : ℕ)
    → acc < 2 ^ m
    → u < 128
    → u * 2 ^ m < 2 ^ 32
    → bit_or acc (bit_and u 0x7f * 2 ^ m % 2 ^ 32) ≡ acc + u * 2 ^ m
put_unit m acc u room seven fits =
    let e : bit_and u 0x7f ≡ u = omega (arith, low_seven_any u) in rw e (put_byte m acc u room fits)

-- A unit that completes an octet.
decode_octet :
    (m acc u : ℕ) (rest : Bytes)
    → 1 ≤ m
    → acc < 2 ^ m
    → u < 128
    → u * 2 ^ m < 2 ^ 32
    → asc_decode_from acc m (u ∷ rest)
      ≡ (acc + u * 2 ^ m) % 256 ∷ asc_decode_from ((acc + u * 2 ^ m) / 256) (m - 1) rest
unfolding asc_decode_from
decode_octet m acc u rest some_bit room seven fits =
    let e : leb 8 (m + 7) ≡ true = ground arith in
    let f : m + 7 - 8 ≡ m - 1 = omega arith in rw (put_unit m acc u room seven fits, e, f) refl

-- A byte `b` put behind the `n` bits `high` that wait in the encoder, while the decoder has `low`:
-- the unit completes the octet of both, and `b` is split one bit further.
record IsShifted (n low high b : ℕ) : Type 0 where
  byte_fits : b * 2 ^ n < 2 ^ 32
  unit_fits : (high + b * 2 ^ n) % 128 * 2 ^ (8 - n) < 2 ^ 32
  octet : (low + (high + b * 2 ^ n) % 128 * 2 ^ (8 - n)) % 256 ≡ low + high * 2 ^ (8 - n)
  lower : (low + (high + b * 2 ^ n) % 128 * 2 ^ (8 - n)) / 256 ≡ b % 2 ^ (7 - n)
  upper : (high + b * 2 ^ n) / 128 ≡ b / 2 ^ (7 - n)
  lower_fits : b % 2 ^ (7 - n) < 2 ^ (7 - n)
  upper_fits : b / 2 ^ (7 - n) < 2 ^ (n + 1)
  whole : b % 2 ^ (7 - n) + b / 2 ^ (7 - n) * 2 ^ (7 - n) ≡ b

shift :
    (n low high b : ℕ)
    → 1 ≤ n
    → n ≤ 6
    → low < 2 ^ (8 - n)
    → high < 2 ^ n
    → b < 256
    → IsShifted n low high b
shift zero low high b lo hi room1 room2 h = absurd (omega arith)
shift (suc zero) low high b lo hi room1 room2 h = ground arith
shift (suc (suc zero)) low high b lo hi room1 room2 h = ground arith
shift (suc (suc (suc zero))) low high b lo hi room1 room2 h = ground arith
shift (suc (suc (suc (suc zero)))) low high b lo hi room1 room2 h = ground arith
shift (suc (suc (suc (suc (suc zero))))) low high b lo hi room1 room2 h = ground arith
shift (suc (suc (suc (suc (suc (suc zero)))))) low high b lo hi room1 room2 h = ground arith
shift (suc (suc (suc (suc (suc (suc (suc n))))))) low high b lo hi room1 room2 h =
    absurd (omega arith)

-- The units of the next byte: one, and where it fills the accumulator a second.
module _ (n high b : ℕ) (body : Bytes) (room : high < 2 ^ n) (fits : b * 2 ^ n < 2 ^ 32) where
  units_further :
      n ≤ 5
      → asc_units_from high n (b ∷ body)
        ≡ (high + b * 2 ^ n) % 128 ∷ asc_units_from ((high + b * 2 ^ n) / 128) (n + 1) body
  unfolding asc_units_from
  units_further few =
      let e : leb 7 (n + 1) ≡ false = ground arith in
      rw (put_byte n high b room fits, e, low_seven_any (high + b * 2 ^ n)) refl

  units_full :
      6 ≤ n
      → asc_units_from high n (b ∷ body)
        ≡ (high + b * 2 ^ n) % 128 ∷ (high + b * 2 ^ n) / 128 % 128 ∷ asc_units_from 0 0 body
  unfolding asc_units_from
  units_full many =
      let e : leb 7 (n + 1) ≡ true = ground arith in
      rw
        (
          put_byte n high b room fits,
          e,
          low_seven_any (high + b * 2 ^ n),
          low_seven_any ((high + b * 2 ^ n) / 128),
        )
        refl

units_end : (n high : ℕ) → 1 ≤ n → asc_units_from high n [] ≡ high % 128 ∷ []
unfolding asc_units_from
units_end n high lo = ground (arith, low_seven_any high)

abbrev Aligned : Bytes → Type 0
Aligned body = asc_decode_from 0 0 (asc_units_from 0 0 body) ≡ body

-- Between two bytes, with `n` bits of the last one in the encoder and the others in the decoder.
abbrev Pending : Bytes → Type 0
Pending body =
    (n low high : ℕ)
    → 1 ≤ n
    → n ≤ 6
    → low < 2 ^ (8 - n)
    → high < 2 ^ n
    → asc_decode_from low (8 - n) (asc_units_from high n body) ≡ (low + high * 2 ^ (8 - n)) ∷ body

end-Pending : Pending []
unfolding asc_decode_from
end-Pending n low high lo hi room1 room2 =
    let s = shift n low high 0 lo hi room1 room2 (omega arith) in
    let none_more : high + 0 * 2 ^ n ≡ high = omega arith in
    let fits = rw none_more at s.unit_fits in
    let octet = rw none_more at s.octet in
    rw (units_end n high lo) (
      decode_octet (8 - n) low (high % 128) [] (omega arith) room1 (omega arith) fits
      ∙ ap (λ x. x ∷ []) octet)

-- With at most five bits waiting: one unit, which completes the octet in the decoder.
further-Pending :
    (b : ℕ) (body : Bytes) (n low high : ℕ)
    → b < 256
    → Pending body
    → 1 ≤ n
    → n ≤ 5
    → low < 2 ^ (8 - n)
    → high < 2 ^ n
    → asc_decode_from low (8 - n) (asc_units_from high n (b ∷ body))
      ≡ (low + high * 2 ^ (8 - n)) ∷ b ∷ body
further-Pending b body n low high h pending lo hi room1 room2 =
    let s = shift n low high b lo (omega arith) room1 room2 h in
    let same : 8 - (n + 1) ≡ 7 - n = omega arith in
    let less : 8 - n - 1 ≡ 7 - n = omega arith in
    let rest =
      rw same at
        (pending (n + 1) (b % 2 ^ (7 - n)) (b / 2 ^ (7 - n)) (omega arith) (omega arith)) in
    rw (units_further n high b body room2 s.byte_fits hi) (
      decode_octet (8 - n) low _ _ (omega arith) room1 (omega arith) s.unit_fits
      ∙ rw (s.octet, s.lower, s.upper, less)
          (ap (◌∷◌ (low + high * 2 ^ (8 - n)))
            (rest s.lower_fits s.upper_fits ∙ ap (λ x. x ∷ body) s.whole)))

-- With six bits waiting: two units, which complete two octets.
full-Pending :
    (b : ℕ) (body : Bytes) (low high : ℕ)
    → b < 256
    → Aligned body
    → low < 4
    → high < 64
    → asc_decode_from low 2 (asc_units_from high 6 (b ∷ body)) ≡ (low + high * 4) ∷ b ∷ body
full-Pending b body low high h aligned room1 room2 =
    let s = shift 6 low high b (omega arith) (omega arith) room1 room2 h in
    let byte : (b % 2 + b / 2 % 128 * 2 ^ 1) % 256 ≡ b = omega arith in
    let none_left : (b % 2 + b / 2 % 128 * 2 ^ 1) / 256 ≡ 0 = omega arith in
    rw (units_full 6 high b body room2 s.byte_fits (omega arith)) (
      decode_octet 2 low _ _ (omega arith) room1 (omega arith) s.unit_fits
      ∙ rw (s.octet, s.lower, s.upper)
          (ap (◌∷◌ (low + high * 4)) (
            decode_octet 1 (b % 2) (b / 2 % 128) _ (omega arith) (omega arith) (omega arith)
              (omega arith)
            ∙ rw (byte, none_left) (ap (◌∷◌ b) aligned))))

step-Pending : (b : ℕ) (body : Bytes) → b < 256 → Aligned body → Pending body → Pending (b ∷ body)
step-Pending b body h aligned pending n low high lo hi room1 room2 = elim (Bool-cases (leb n 5)) [
  | inl few ↦ further-Pending b body n low high h pending lo (ground arith) room1 room2
  | inr many ↦
      let six : 6 ≡ n = ground arith in
      let At = λ (k : ℕ).
        low < 2 ^ (8 - k)
        → high < 2 ^ k
        → asc_decode_from low (8 - k) (asc_units_from high k (b ∷ body))
          ≡ (low + high * 2 ^ (8 - k)) ∷ b ∷ body in
      subst At six (full-Pending b body low high h aligned) room1 room2
]

-- The first unit completes nothing.
decode_first :
    (u : ℕ) (rest : Bytes) → u < 128 → asc_decode_from 0 0 (u ∷ rest) ≡ asc_decode_from u 7 rest
unfolding asc_decode_from
decode_first u rest seven =
    rw (put_unit 0 0 u (omega arith) seven (omega arith))
      (ap (λ x. asc_decode_from x 7 rest) (omega arith))

start-Aligned : (b : ℕ) (body : Bytes) → b < 256 → Pending body → Aligned (b ∷ body)
start-Aligned b body h pending =
    let whole : b % 128 + b / 128 * 2 ^ 7 ≡ b = omega arith in
    let first : 0 + b * 2 ^ 0 ≡ b = omega arith in
    rw (units_further 0 0 b body (omega arith) (omega arith) (omega arith), first)
      (decode_first (b % 128) _ (omega arith)
        ∙ pending 1 (b % 128) (b / 128) (omega arith) (omega arith) (omega arith) (omega arith)
        ∙ ap (λ x. x ∷ body) whole)

asc_both : (body : Bytes) → IsBytes body → Aligned body × Pending body
asc_both [] h = (unfold asc_decode_from asc_units_from in refl, end-Pending)
asc_both (b ∷ body) h =
    let (aligned, pending) = asc_both body h.1 in
    (start-Aligned b body h.0 pending, step-Pending b body h.0 aligned pending)

-- What was encoded is decoded as it was.
pub asc_decode-units :
    (body : Bytes) → IsBytes body → asc_decode_body (asc_units_from 0 0 body) ≡ body
unfolding asc_decode_body
asc_decode-units body h = (asc_both body h).0

low_unit : (x : ℕ) → bit_and x 0x7f < 128
low_unit x = omega (arith, low_seven_any x)

-- Every unit has seven bits, so it survives every link.
pub units-Survive :
    (opts acc n : ℕ) (body : Bytes) → All (Survives opts) (asc_units_from acc n body)
unfolding asc_units_from
units-Survive opts acc n [] = elim (Bool-cases (ltb 0 n)) [
  | inl e ↦ rw e (inl (low_unit acc), tt)
  | inr e ↦ rw e tt
]
units-Survive opts acc n (b ∷ body) = elim (Bool-cases (leb 7 (n + 1))) [
  | inl e ↦ rw e (inl (low_unit _), (inl (low_unit _), units-Survive opts 0 0 body))
  | inr e ↦ rw e (inl (low_unit _), units-Survive opts _ (n + 1) body)
]

pub length-units :
    (acc n : ℕ) (body : Bytes) → length (asc_units_from acc n body) ≤ 2 * length body + 1
unfolding asc_units_from
length-units acc n [] = ground arith
length-units acc n (b ∷ body) = elim (Bool-cases (leb 7 (n + 1))) [
  | inl e ↦ rw e (omega (arith, length-units 0 0 body))
  | inr e ↦ rw e (omega (arith, length-units (bit_or acc (b * 2 ^ n % 2 ^ 32) / 128) (n + 1) body))
]
