-- ===== src/Caps/RoundTrip.antt =====
-- caps.go: the text of a capability set is parsed as that set.
use go_hydra.Base.{
  ℕ, ◌<◌, ◌≡◌, ◌≢◌, refl, Bool, true, false, not, ltb, if◌then◌else◌, List, [], ◌∷◌, arith, Bytes,
  NoNul, All, All-append, length, all_below, agree_below,
}
use go_hydra.Caps.{CapEntry, has, cap_order, write_caps, caps_string, parse_caps}

-- Of each of the 2048 sets of known capabilities.
pub parse_caps-caps_string : (caps : ℕ) → caps < 2048 → parse_caps (caps_string caps) ≡ caps
unfolding all_below parse_caps caps_string
parse_caps-caps_string caps h =
    agree_below 2048 (λ c. parse_caps (caps_string c)) (λ c. c) caps refl h

either-NoNul :
    (c d : Bool) (xs ys zs : Bytes)
    → NoNul xs
    → NoNul ys
    → NoNul zs
    → NoNul (if c then xs else if d then ys else zs)
either-NoNul true d xs ys zs hx hy hz = hx
either-NoNul false true xs ys zs hx hy hz = hy
either-NoNul false false xs ys zs hx hy hz = hz

write_caps-NoNul :
    (order : List CapEntry) (caps : ℕ) (written : Bytes)
    → All (λ e. NoNul e.code) order
    → NoNul written
    → NoNul (write_caps order caps written)
unfolding write_caps
write_caps-NoNul [] caps written codes h = h
write_caps-NoNul (e ∷ order) caps written codes h =
    let comma : NoNul (b',' ∷ e.code) = (omega arith, codes.0) in
    write_caps-NoNul order caps _ codes.1 (
      either-NoNul (not (has caps e.bit)) (ltb 0 (length written)) written _ _ h
        (All-append (λ c. c ≢ 0) written (b',' ∷ e.code) h comma)
        (All-append (λ c. c ≢ 0) written e.code h codes.0))

cap_order-NoNul : All (λ e. NoNul e.code) cap_order
unfolding cap_order
cap_order-NoNul = ground arith

-- No NUL stands in the text.
pub caps_string-NoNul : (caps : ℕ) → NoNul (caps_string caps)
unfolding caps_string
caps_string-NoNul caps = write_caps-NoNul cap_order caps [] cap_order-NoNul tt
