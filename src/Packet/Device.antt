-- ===== src/Packet/Device.antt =====
-- packet.go: the DEVDATA payload.
pub mod RoundTrip
use go_hydra.Base.{
  ℕ, [], ◌∷◌, ◌++◌, Option, none, some, ◌>>=◌, ltb, if◌then◌else◌, Bytes, length, drop,
}
use go_hydra.FileInfo.{cut_nul}
use go_hydra.Packet.{le32, read_le32}

pub record DevDataPkt : Type 0 where
  pub id : ℕ
  pub device : Bytes
  pub payload : Bytes

unfoldable pub marshal_dev_data : DevDataPkt → Bytes
unfolding le32
marshal_dev_data d = (le32 [] d.id ++ d.device) ++ (0 ∷ d.payload)

unfoldable pub parse_dev_data : Bytes → Option DevDataPkt
unfolding read_le32 cut_nul
parse_dev_data payload = if ltb (length payload) 5 then none else do
  (name, rest) ← cut_nul (drop 4 payload)
  some (record { id = read_le32 payload 0; device = name; payload = rest })
