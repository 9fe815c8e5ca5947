-- ===== src/Packet/Init/Bounds.antt =====
-- packet.go: the INIT payload is bytes, of bounded length.
use go_hydra.Base.{ℕ, ◌+◌, ◌∷◌, arith, Bytes, IsShort, append-IsShort, cons-IsShort, nil-IsShort}
use go_hydra.Caps.Bounds.{caps_string-IsShort}
use go_hydra.Format.Bounds.{hex08-IsShort}
use go_hydra.Packet.Init.{InitPkt, marshal_init}

nul-IsShort : {n : ℕ} {s : Bytes} → IsShort n s → IsShort (1 + n) (0 ∷ s)
nul-IsShort h = cons-IsShort (omega arith) h

pub marshal_init-IsShort :
    (p : InitPkt) (n m : ℕ)
    → IsShort n p.app_id
    → IsShort m p.prefix
    → IsShort (n + (1 + (44 + (1 + (44 + (1 + (8 + (8 + (1 + (m + 1)))))))))) (marshal_init p)
unfolding marshal_init
marshal_init-IsShort p n m app prefix = append-IsShort app (
    nul-IsShort (
      append-IsShort (caps_string-IsShort p.supported) (
        nul-IsShort (
          append-IsShort (caps_string-IsShort p.desired) (
            nul-IsShort (
              append-IsShort (hex08-IsShort p.tx_window) (
                append-IsShort (hex08-IsShort p.rx_window)
                  (nul-IsShort (append-IsShort prefix (nul-IsShort nil-IsShort))))))))))
