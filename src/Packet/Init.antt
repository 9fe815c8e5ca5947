-- ===== src/Packet/Init.antt =====
-- packet.go: the INIT payload, five fields that end in NUL.
pub mod Bounds
pub mod RoundTrip
use go_hydra.Base.{
  ℕ, [], ◌∷◌, ◌++◌, Option, none, some, ◌>>=◌, leb, ltb, if◌then◌else◌, Bytes, length, get_or, take,
}
use go_hydra.Caps.{parse_caps, caps_string}
use go_hydra.Format.{hex08, scan_hex08, split}

pub record InitPkt : Type 0 where
  pub app_id : Bytes
  pub supported : ℕ
  pub desired : ℕ
  pub tx_window : ℕ
  pub rx_window : ℕ
  pub prefix : Bytes

unfoldable pub marshal_init : InitPkt → Bytes
unfolding hex08 caps_string
marshal_init p =
    p.app_id
    ++ (0
        ∷ (caps_string p.supported
            ++ (0
                ∷ (caps_string p.desired
                    ++ (0
                        ∷ (hex08 p.tx_window
                            ++ (hex08 p.rx_window ++ (0 ∷ (p.prefix ++ (0 ∷ []))))))))))

-- The windows: none where the field is shorter than 16 characters.
unfoldable pub parse_windows : Bytes → Option (ℕ × ℕ)
unfolding scan_hex08
parse_windows w =
    if leb 16 (length w)
    then (do (tx, rest) ← scan_hex08 (take 16 w); (rx, _) ← scan_hex08 rest; some (tx, rx))
    else some (0, 0)

unfoldable pub parse_init : Bytes → Option InitPkt
unfolding parse_caps split parse_windows
parse_init payload =
    let fields = split 0 payload in
    let get = λ (i : ℕ). get_or fields i [] in
    if ltb (length fields) 2 then none else do
      (tx, rx) ← parse_windows (get 3)
      some (record {
        app_id = get 0;
        supported = parse_caps (get 1);
        desired = parse_caps (get 2);
        tx_window = tx;
        rx_window = rx;
        prefix = get 4;
      })
