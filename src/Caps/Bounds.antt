-- ===== src/Caps/Bounds.antt =====
-- The text of a capability set is short.
use go_hydra.Base.{
  ℕ, ◌+◌, ◌*◌, not, List, [], ◌∷◌, ◌++◌, arith, ltb, if◌then◌else◌, Bytes, All, IsShort,
  append-IsShort, cons-IsShort, IsShort-mono, length,
}
use go_hydra.Caps.{CapEntry, has, cap_order, write_caps, caps_string}

-- Three bytes, as every code of the table has.
abbrev IsCode : CapEntry → Type 0
IsCode e = IsShort 3 e.code

cap_order-IsCode : All IsCode cap_order
unfolding cap_order
cap_order-IsCode = ground arith

abbrev write_one : CapEntry → ℕ → Bytes → Bytes
write_one e caps written =
    if not (has caps e.bit)
    then written
    else if ltb 0 (length written)
    then written ++ (b',' ∷ e.code)
    else written ++ e.code

write_one-IsShort :
    (e : CapEntry) (caps n : ℕ) (written : Bytes)
    → IsCode e
    → IsShort n written
    → IsShort (n + 4) (write_one e caps written)
write_one-IsShort e caps n written code h =
    let comma : IsShort (n + 4) (written ++ (b',' ∷ e.code)) =
      append-IsShort h (cons-IsShort (omega arith) code) in
    let bare : IsShort (n + 4) (written ++ e.code) =
      IsShort-mono (append-IsShort h code) (omega arith) in
    ground arith

write_caps-IsShort :
    (order : List CapEntry) (caps n : ℕ) (written : Bytes)
    → All IsCode order
    → IsShort n written
    → IsShort (n + 4 * length order) (write_caps order caps written)
unfolding write_caps
write_caps-IsShort [] caps n written codes h = IsShort-mono h (omega arith)
write_caps-IsShort (e ∷ order) caps n written codes h =
    IsShort-mono
      (write_caps-IsShort order caps (n + 4) (write_one e caps written) codes.1
        (write_one-IsShort e caps n written codes.0 h))
      (omega arith)

pub caps_string-IsShort : (caps : ℕ) → IsShort 44 (caps_string caps)
unfolding caps_string cap_order
caps_string-IsShort caps =
    write_caps-IsShort cap_order caps 0 [] cap_order-IsCode
      (record { bytes = tt; size = omega arith })
