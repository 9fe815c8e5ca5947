-- ===== src/Packet/Init/RoundTrip.antt =====
-- packet.go: the INIT payload both ways.
use go_hydra.Base.{
  ℕ, ◌^◌, ◌<◌, ◌≡◌, ◌≢◌, refl, ◌∙◌, ap, [], ◌∷◌, ◌++◌, some, bind_some, Bytes, NoNul, All-append,
}
use go_hydra.Caps.{caps_string}
use go_hydra.Caps.RoundTrip.{parse_caps-caps_string, caps_string-NoNul}
use go_hydra.Format.{hex08, split}
use go_hydra.Format.RoundTrip.{scan_hex08-hex08, hex08-NoNul}
use go_hydra.Format.Split.{split-append}
use go_hydra.Packet.Init.{InitPkt, marshal_init, parse_windows, parse_init}

parse_windows-hex08 :
    (tx rx : ℕ) → tx < 2 ^ 32 → rx < 2 ^ 32 → parse_windows (hex08 tx ++ hex08 rx) ≡ some (tx, rx)
unfolding parse_windows hex08
parse_windows-hex08 tx rx ht hr =
    let second = scan_hex08-hex08 rx [] hr in
    bind_some _ _ _ (scan_hex08-hex08 tx (hex08 rx) ht) ∙ bind_some _ _ _ second

-- The fields of a payload are those it was put together from.
split_fields :
    (a b c d e : Bytes)
    → NoNul a
    → NoNul b
    → NoNul c
    → NoNul d
    → NoNul e
    → split 0 (a ++ (0 ∷ (b ++ (0 ∷ (c ++ (0 ∷ (d ++ (0 ∷ (e ++ (0 ∷ []))))))))))
      ≡ a ∷ b ∷ c ∷ d ∷ e ∷ [] ∷ []
unfolding split
split_fields a b c d e ha hb hc hd he =
    split-append 0 a _ ha
    ∙ ap (◌∷◌ a) (
        split-append 0 b _ hb
        ∙ ap (◌∷◌ b) (
            split-append 0 c _ hc
            ∙ ap (◌∷◌ c) (split-append 0 d _ hd ∙ ap (◌∷◌ d) (split-append 0 e [] he))))

-- An INIT of known capabilities and 32-bit windows, whose strings have no NUL.
pub record IsPlain (p : InitPkt) : Type 0 where
  pub app_clean : NoNul p.app_id
  pub prefix_clean : NoNul p.prefix
  pub supported_known : p.supported < 2048
  pub desired_known : p.desired < 2048
  pub tx_fits : p.tx_window < 2 ^ 32
  pub rx_fits : p.rx_window < 2 ^ 32

fields_of :
    (p : InitPkt)
    → IsPlain p
    → split 0 (marshal_init p)
      ≡ p.app_id
        ∷ caps_string p.supported
        ∷ caps_string p.desired
        ∷ (hex08 p.tx_window ++ hex08 p.rx_window)
        ∷ p.prefix
        ∷ []
        ∷ []
unfolding marshal_init hex08
fields_of p h =
    split_fields p.app_id (caps_string p.supported) (caps_string p.desired)
      (hex08 p.tx_window ++ hex08 p.rx_window) p.prefix h.app_clean (caps_string-NoNul p.supported)
      (caps_string-NoNul p.desired)
      (All-append (λ c. c ≢ 0) (hex08 p.tx_window) (hex08 p.rx_window) (hex08-NoNul p.tx_window)
        (hex08-NoNul p.rx_window))
      h.prefix_clean

-- An INIT of known capabilities and 32-bit windows, whose application id and prefix have no NUL, is
-- parsed as it was marshalled.
pub parse_init-marshal_init : (p : InitPkt) → IsPlain p → parse_init (marshal_init p) ≡ some p
unfolding parse_init
parse_init-marshal_init p h = rw (fields_of p h) (
    bind_some _ _ _ (parse_windows-hex08 p.tx_window p.rx_window h.tx_fits h.rx_fits)
    ∙ rw
        (
          parse_caps-caps_string p.supported h.supported_known,
          parse_caps-caps_string p.desired h.desired_known,
        )
        refl)
