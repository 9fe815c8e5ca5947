-- ===== src/FileInfo.antt =====
-- fileinfo.go: the FINFO payload.
pub mod RoundTrip
pub mod Bounds
mod Runs
use go_hydra.Base.{
  ℕ, ◌+◌, Bool, true, false, not, ◌&&◌, [], ◌∷◌, ◌++◌, Option, none, some, ◌>>=◌, ltb, ◌==◌,
  if◌then◌else◌, Bytes, length, take, drop,
}
use go_hydra.Base.Int.{ℤ, pos, unsigned32}
use go_hydra.Caps.{equal}
use go_hydra.Format.{hex08, scan_hex08}

pub record FileMeta : Type 0 where
  pub mtime : ℤ
  pub size : ℤ
  pub txid : ℕ
  pub count : ℕ
  pub name : Bytes
  pub path : Bytes

abbrev pub finfo_header_len : ℕ
finfo_header_len = 40

abbrev pub is_empty : Bytes → Bool
is_empty [] = true
is_empty (c ∷ s) = false

unfoldable pub marshal_finfo : FileMeta → Bool → Bytes
unfolding hex08 equal
marshal_finfo m fpt =
    hex08 (unsigned32 m.mtime)
    ++ (hex08 (unsigned32 m.size)
        ++ (hex08 0
            ++ (hex08 m.txid
                ++ (hex08 m.count
                    ++ (m.name
                        ++ (0
                            ∷ (if fpt && not (is_empty m.path) && not (equal m.path m.name)
                                then m.path ++ (0 ∷ [])
                                else [])))))))

abbrev pub finfo_eob : Bytes
finfo_eob = 0 ∷ []

unfoldable pub is_finfo_eob : Bytes → Bool
is_finfo_eob [] = true
is_finfo_eob (c ∷ payload) = c == 0

-- The part before the first NUL and the part behind it; `none` where there is no NUL.
unfoldable pub cut_nul : Bytes → Option (Bytes × Bytes)
cut_nul [] = none
cut_nul (c ∷ b) = elim (cut_nul b) [
  | none ↦ if c == 0 then some ([], b) else none
  | some (before, after) ↦ if c == 0 then some ([], b) else some (c ∷ before, after)
]

abbrev path_of : Option (Bytes × Bytes) → Bytes
path_of none = []
path_of (some (path, _)) = path

unfoldable pub parse_finfo : Bytes → Option FileMeta
unfolding scan_hex08 cut_nul
parse_finfo payload = if ltb (length payload) (finfo_header_len + 1) then none else do
  (mtime, s1) ← scan_hex08 (take finfo_header_len payload)
  (size, s2) ← scan_hex08 s1
  (reserved, s3) ← scan_hex08 s2
  (txid, s4) ← scan_hex08 s3
  (count, s5) ← scan_hex08 s4
  (name, rest) ← cut_nul (drop finfo_header_len payload)
  if is_empty name
      then none
      else some (record {
        mtime = pos mtime;
        size = pos size;
        txid = txid;
        count = count;
        name = name;
        path = path_of (cut_nul rest);
      })
