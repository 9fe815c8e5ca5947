-- ===== src/Encoding/Asc.antt =====
-- encoding.go: the ASC encoding, seven bits to a unit, lowest first.
use go_hydra.Base.{
  ℕ, ◌+◌, ◌-◌, ◌*◌, ◌/◌, ◌%◌, ◌^◌, bit_and, bit_or, [], ◌∷◌, leb, ltb, if◌then◌else◌, Bytes,
}
use go_hydra.Encoding.{BinEscaper, put_all}

-- The units that `ascEncodeBody` hands to the escaper, from the state `acc`, `n` of its loop.
unfoldable pub asc_units_from : ℕ → ℕ → Bytes → Bytes
asc_units_from acc n [] = if ltb 0 n then bit_and acc 0x7f ∷ [] else []
asc_units_from acc n (b ∷ body) =
    let acc' = bit_or acc (b * 2 ^ n % 2 ^ 32) in
    let flushed = asc_units_from 0 0 body in
    let further = asc_units_from (acc' / 128) (n + 1) body in
    bit_and acc' 0x7f ∷ (if leb 7 (n + 1) then bit_and (acc' / 128) 0x7f ∷ flushed else further)

unfoldable pub asc_encode_body : BinEscaper → Bytes → Bytes
unfolding asc_units_from
asc_encode_body esc body = put_all esc (asc_units_from 0 0 body)

unfoldable pub asc_decode_from : ℕ → ℕ → Bytes → Bytes
asc_decode_from acc n [] = []
asc_decode_from acc n (p ∷ body) =
    let acc' = bit_or acc (bit_and p 0x7f * 2 ^ n % 2 ^ 32) in
    let octet = asc_decode_from (acc' / 256) (n + 7 - 8) body in
    let further = asc_decode_from acc' (n + 7) body in
    if leb 8 (n + 7) then (acc' % 256) ∷ octet else further

unfoldable pub asc_decode_body : Bytes → Bytes
unfolding asc_decode_from
asc_decode_body body = asc_decode_from 0 0 body
