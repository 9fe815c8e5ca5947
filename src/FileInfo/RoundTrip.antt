-- ===== src/FileInfo/RoundTrip.antt =====
-- The FINFO payload both ways.
use go_hydra.Base.{
  ℕ, ◌+◌, ◌^◌, ◌<◌, ◌≡◌, ◌≢◌, refl, ◌∙◌, ap, Bool, true, false, not, ◌&&◌, [], ◌∷◌, ◌++◌, some,
  arith, ltb, Bytes, NoNul, All, length, length-append, if◌then◌else◌, if_no, bind_some,
}
use go_hydra.Base.Int.{pos, unsigned32, unsigned32-lt}
use go_hydra.Caps.{equal}
use go_hydra.Format.{hex08}
use go_hydra.Format.RoundTrip.{scan_hex08-hex08}
use go_hydra.FileInfo.{
  FileMeta, is_empty, path_of, marshal_finfo, cut_nul, parse_finfo, finfo_header_len,
}

-- A name without a NUL is cut at the NUL behind it.
pub cut_nul-append :
    (name rest : Bytes) → NoNul name → cut_nul (name ++ (0 ∷ rest)) ≡ some (name, rest)
unfolding cut_nul
cut_nul-append [] rest h = ground arith
cut_nul-append (c ∷ name) rest h = ground (arith, cut_nul-append name rest h.1)

-- Where the path goes along: the remote has FPT, and the path says more than the name.
abbrev pub has_path : FileMeta → Bool → Bool
has_path m fpt = fpt && not (is_empty m.path) && not (equal m.path m.name)

path_behind :
    (c : Bool) (path : Bytes)
    → All (λ x. x ≢ 0) path
    → path_of (cut_nul (if c then path ++ (0 ∷ []) else [])) ≡ (if c then path else [])
path_behind true path h = ap path_of (cut_nul-append path [] h)
path_behind false path h = unfold cut_nul in refl

-- A header of five numbers, and names.
parse_header :
    (t n reserved id count : ℕ) (name rest : Bytes)
    → t < 2 ^ 32
    → n < 2 ^ 32
    → reserved < 2 ^ 32
    → id < 2 ^ 32
    → count < 2 ^ 32
    → is_empty name ≡ false
    → NoNul name
    → parse_finfo (
        hex08 t
        ++ (hex08 n ++ (hex08 reserved ++ (hex08 id ++ (hex08 count ++ (name ++ (0 ∷ rest)))))))
      ≡ some (record {
        mtime = pos t;
        size = pos n;
        txid = id;
        count = count;
        name = name;
        path = path_of (cut_nul rest);
      })
unfolding parse_finfo hex08
parse_header t n reserved id count name rest ht hn hr hi hc named clean =
    let payload =
      hex08 t
      ++ (hex08 n ++ (hex08 reserved ++ (hex08 id ++ (hex08 count ++ (name ++ (0 ∷ rest)))))) in
    let long : ltb (length payload) (finfo_header_len + 1) ≡ false =
      ground (arith, length-append name (0 ∷ rest)) in
    if_no _ _ _ long
    ∙ bind_some _ _ _
        (scan_hex08-hex08 t (hex08 n ++ (hex08 reserved ++ (hex08 id ++ hex08 count))) ht)
    ∙ bind_some _ _ _ (scan_hex08-hex08 n (hex08 reserved ++ (hex08 id ++ hex08 count)) hn)
    ∙ bind_some _ _ _ (scan_hex08-hex08 reserved (hex08 id ++ hex08 count) hr)
    ∙ bind_some _ _ _ (scan_hex08-hex08 id (hex08 count) hi)
    ∙ bind_some _ _ _ (scan_hex08-hex08 count [] hc)
    ∙ bind_some _ _ _ (cut_nul-append name rest clean)
    ∙ if_no _ _ _ named

-- A file whose numbers have 32 bits and whose names have no NUL.
pub record IsPlain (m : FileMeta) (mtime size : ℕ) : Type 0 where
  pub time : m.mtime ≡ pos mtime
  pub bytes : m.size ≡ pos size
  pub mtime_fits : mtime < 2 ^ 32
  pub size_fits : size < 2 ^ 32
  pub txid_fits : m.txid < 2 ^ 32
  pub count_fits : m.count < 2 ^ 32
  pub named : is_empty m.name ≡ false
  pub name_clean : NoNul m.name
  pub path_clean : NoNul m.path

-- A file with 32-bit numbers and a name, both names without a NUL, is parsed as it was announced,
-- with its path where FPT is on and the path is neither empty nor the name.
pub parse_finfo-marshal_finfo :
    (m : FileMeta) (mtime size : ℕ) (fpt : Bool)
    → IsPlain m mtime size
    → parse_finfo (marshal_finfo m fpt)
      ≡ some (record m { path = if has_path m fpt then m.path else [] })
unfolding marshal_finfo
parse_finfo-marshal_finfo m mtime size fpt h =
    let tail = if has_path m fpt then m.path ++ (0 ∷ []) else [] in
    let behind : path_of (cut_nul tail) ≡ (if has_path m fpt then m.path else []) =
      path_behind (has_path m fpt) m.path h.path_clean in
    let time : pos (unsigned32 m.mtime) ≡ m.mtime = ground (arith, h.time) in
    let bytes : pos (unsigned32 m.size) ≡ m.size = ground (arith, h.bytes) in
    parse_header (unsigned32 m.mtime) (unsigned32 m.size) 0 m.txid m.count m.name tail
      (unsigned32-lt m.mtime) (unsigned32-lt m.size) (omega arith) h.txid_fits h.count_fits h.named
      h.name_clean
    ∙ rw (behind, time, bytes) refl
