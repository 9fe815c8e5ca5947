-- ===== src/Filename.antt =====
-- hydra.go `SanitizeFilename` and tx.go `txWireName`. Paths are those of Unix.
pub mod Bounds
use go_hydra.Base.{ℕ, ◌||◌, [], ◌∷◌, ◌++◌, ◌==◌, if◌then◌else◌, Bytes}
use go_hydra.Caps.{equal}
use go_hydra.FileInfo.{is_empty}

-- `strings.ReplaceAll` of one byte by another.
unfoldable pub replace_all : ℕ → ℕ → Bytes → Bytes
replace_all old new [] = []
replace_all old new (c ∷ s) = (if c == old then new else c) ∷ replace_all old new s

abbrev pub slash : ℕ
slash = b'/'

unfoldable pub strip_slashes : Bytes → Bytes
strip_slashes [] = []
strip_slashes (c ∷ s) = elim (strip_slashes s) [
  | [] ↦ if c == slash then [] else c ∷ []
  | d ∷ t ↦ c ∷ d ∷ t
]

-- What stands behind the last slash; `element` is what has been read of it.
unfoldable pub last_element : Bytes → Bytes → Bytes
last_element element [] = element
last_element element (c ∷ s) = last_element (if c == slash then [] else element ++ (c ∷ [])) s

-- `filepath.Base`: "" gives ".", and slashes alone give "/".
unfoldable pub base : Bytes → Bytes
unfolding strip_slashes last_element
base path =
    let element = last_element [] (strip_slashes path) in
    if is_empty path then b'.' ∷ [] else if is_empty element then slash ∷ [] else element

unfoldable pub sanitize_filename : Bytes → Bytes
unfolding replace_all base equal
sanitize_filename name =
    let s = replace_all 0 b'_' (base (replace_all b'\\' slash name)) in
    if is_empty s || equal s (b'.' ∷ []) || equal s (b'.' ∷ b'.' ∷ []) then b'_' ∷ [] else s

unfoldable pub tx_wire_name : Bytes → Bytes
unfolding sanitize_filename
tx_wire_name name = replace_all b' ' b'_' (sanitize_filename name)
