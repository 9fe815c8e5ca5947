-- ===== src/Filename/Bounds.antt =====
-- hydra.go and tx.go: a name on the wire is bytes, and no longer than the name that was given.
use go_hydra.Base.{
  ℕ, ◌+◌, [], ◌∷◌, ◌++◌, arith, Bytes, IsByte, IsShort, nil-IsShort, append-IsShort, IsShort-mono,
  length,
}
use go_hydra.Filename.{
  replace_all, slash, strip_slashes, last_element, base, sanitize_filename, tx_wire_name,
}

replace_all-IsShort :
    (old new n : ℕ) (s : Bytes) → IsByte new → IsShort n s → IsShort n (replace_all old new s)
unfolding replace_all
replace_all-IsShort old new n [] b h = h
replace_all-IsShort old new n (c ∷ s) b h =
    let rest =
      replace_all-IsShort old new (length s) s b
        (record { bytes = h.bytes.1; size = omega arith }) in
    ground arith

strip_slashes-IsShort : (n : ℕ) (s : Bytes) → IsShort n s → IsShort n (strip_slashes s)
unfolding strip_slashes
strip_slashes-IsShort n [] h = h
strip_slashes-IsShort n (c ∷ s) h =
    let rest =
      strip_slashes-IsShort (length s) s (record { bytes = h.bytes.1; size = omega arith }) in
    ground arith

last_element-IsShort :
    (m n : ℕ) (element s : Bytes)
    → IsShort m element
    → IsShort n s
    → IsShort (m + n) (last_element element s)
unfolding last_element
last_element-IsShort m n element [] he hs = IsShort-mono he (omega arith)
last_element-IsShort m n element (c ∷ s) he hs =
    let rest : IsShort (length s) s = record { bytes = hs.bytes.1; size = omega arith } in
    let last : IsShort 1 (c ∷ []) = record { bytes = (hs.bytes.0, tt); size = omega arith } in
    let fresh =
      IsShort-mono {n = m + n} (last_element-IsShort 0 (length s) [] s nil-IsShort rest)
        (omega (arith, hs.size)) in
    let more =
      IsShort-mono {n = m + n}
        (last_element-IsShort (m + 1) (length s) (element ++ (c ∷ [])) s (append-IsShort he last)
          rest)
        (omega (arith, hs.size)) in
    ground arith

base-IsShort : (n : ℕ) (path : Bytes) → IsShort (n + 1) path → IsShort (n + 1) (base path)
unfolding base
base-IsShort n path h =
    let stripped = strip_slashes-IsShort (n + 1) path h in
    let element = last_element-IsShort 0 (n + 1) [] (strip_slashes path) nil-IsShort stripped in
    ground arith

sanitize_filename-IsShort :
    (n : ℕ) (name : Bytes) → IsShort (n + 1) name → IsShort (n + 1) (sanitize_filename name)
unfolding sanitize_filename
sanitize_filename-IsShort n name h =
    let slashed = replace_all-IsShort b'\\' slash (n + 1) name (omega arith) h in
    let s = base-IsShort n (replace_all b'\\' slash name) slashed in
    let clean =
      replace_all-IsShort 0 b'_' (n + 1) (base (replace_all b'\\' slash name)) (omega arith) s in
    ground arith

pub tx_wire_name-IsShort :
    (n : ℕ) (name : Bytes) → IsShort (n + 1) name → IsShort (n + 1) (tx_wire_name name)
unfolding tx_wire_name
tx_wire_name-IsShort n name h =
    replace_all-IsShort b' ' b'_' (n + 1) (sanitize_filename name) (omega arith)
      (sanitize_filename-IsShort n name h)
