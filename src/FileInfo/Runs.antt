-- ===== src/FileInfo/Runs.antt =====
-- FINFO payloads at concrete inputs.
use go_hydra.Base.{◌≡◌, refl, true, [], ◌∷◌, some, arith, if◌then◌else◌}
use go_hydra.Base.Int.{pos}
use go_hydra.FileInfo.{FileMeta, marshal_finfo, parse_finfo}
use go_hydra.FileInfo.RoundTrip.{IsPlain, has_path, parse_finfo-marshal_finfo}

abbrev report : FileMeta
report = record {
  mtime = pos 1700000000;
  size = pos 70000;
  txid = 0;
  count = 3;
  name = b'a' ∷ b'.' ∷ b'b' ∷ [];
  path = b'd' ∷ b'/' ∷ b'a' ∷ b'.' ∷ b'b' ∷ [];
}

report-IsPlain : IsPlain report 1700000000 70000
report-IsPlain = record {
  time = refl;
  bytes = refl;
  mtime_fits = omega arith;
  size_fits = omega arith;
  txid_fits = omega arith;
  count_fits = omega arith;
  named = refl;
  name_clean = omega arith;
  path_clean = omega arith;
}

parse_finfo-marshal_finfo_example :
    parse_finfo (marshal_finfo report true)
    ≡ some (record report { path = if has_path report true then report.path else [] })
parse_finfo-marshal_finfo_example =
    parse_finfo-marshal_finfo report 1700000000 70000 true report-IsPlain
