-- ===== src/FileInfo/Bounds.antt =====
-- fileinfo.go: the FINFO payload is bytes, of bounded length.
use go_hydra.Base.{
  ℕ, ◌+◌, Bool, not, ◌&&◌, [], ◌∷◌, ◌++◌, arith, if◌then◌else◌, Bytes, IsShort, append-IsShort,
  cons-IsShort,
}
use go_hydra.Base.Int.{unsigned32}
use go_hydra.Caps.{equal}
use go_hydra.Format.Bounds.{hex08-IsShort}
use go_hydra.FileInfo.{FileMeta, is_empty, marshal_finfo}

path_behind-IsShort :
    (c : Bool) (n : ℕ) (path : Bytes)
    → IsShort n path
    → IsShort (n + 1) (if c then path ++ (0 ∷ []) else [])
path_behind-IsShort c n path h =
    let whole : IsShort (n + 1) (path ++ (0 ∷ [])) =
      append-IsShort h (record { bytes = omega arith; size = omega arith }) in
    let nothing : IsShort (n + 1) [] = record { bytes = tt; size = omega arith } in ground arith

pub marshal_finfo-IsShort :
    (p : FileMeta) (fpt : Bool) (m n : ℕ)
    → IsShort m p.name
    → IsShort n p.path
    → IsShort (8 + (8 + (8 + (8 + (8 + (m + (1 + (n + 1)))))))) (marshal_finfo p fpt)
unfolding marshal_finfo
marshal_finfo-IsShort p fpt m n name path =
    let with_path = fpt && not (is_empty p.path) && not (equal p.path p.name) in
    append-IsShort (hex08-IsShort (unsigned32 p.mtime)) (
      append-IsShort (hex08-IsShort (unsigned32 p.size)) (
        append-IsShort (hex08-IsShort 0) (
          append-IsShort (hex08-IsShort p.txid) (
            append-IsShort (hex08-IsShort p.count) (
              append-IsShort name
                (cons-IsShort (omega arith) (path_behind-IsShort with_path n p.path path)))))))
