-- ===== src/Packet/Runs.antt =====
-- Payloads on the wire, and the theorems at concrete inputs.
use go_hydra.Base.{◌≡◌, refl, [], ◌∷◌, ◌++◌, some, arith}
use go_hydra.Base.Int.{pos, negsuc, unsigned32}
use go_hydra.Packet.{
  le32, marshal_offset, parse_offset, marshal_data, parse_data, marshal_rpos, parse_rpos,
  marshal_dev_ack, parse_dev_ack,
}
use go_hydra.Packet.Device.{DevDataPkt, marshal_dev_data, parse_dev_data}
use go_hydra.Packet.Device.RoundTrip.{parse_dev_data-marshal_dev_data}
use go_hydra.Packet.Init.{InitPkt, marshal_init, parse_init}
use go_hydra.Packet.Init.RoundTrip.{IsPlain, parse_init-marshal_init}
use go_hydra.Packet.RoundTrip.{parse-marshal, parse_rpos_word}

minus_two : marshal_offset (negsuc 1) ≡ 0xFE ∷ 0xFF ∷ 0xFF ∷ 0xFF ∷ []
unfolding marshal_offset
minus_two = refl

parse-marshal_example :
    (parse_offset (marshal_offset (negsuc 1)) ≡ some (negsuc 1))
    × (parse_data (marshal_data (negsuc 1) (7 ∷ []))
        ≡ some (record { offset = negsuc 1; bytes = 7 ∷ [] }))
    × (parse_rpos (marshal_rpos (record { offset = negsuc 1; blocksize = 64; id = 3 }))
        ≡ some (record { offset = negsuc 1; blocksize = 64; id = 3 }))
    × (parse_dev_ack (marshal_dev_ack 3) ≡ some 3)
parse-marshal_example =
    parse-marshal (negsuc 1) (7 ∷ []) 64 3 (omega arith) (omega arith) (omega arith)

parse_rpos_word_example :
    parse_rpos (le32 (le32 [] (unsigned32 (pos 512)) ++ (64 ∷ 1 ∷ [])) 9)
    ≡ some (record { offset = pos 512; blocksize = 320; id = 9 })
parse_rpos_word_example = parse_rpos_word (pos 512) 320 9 (omega arith) (omega arith) (omega arith)

abbrev hello : DevDataPkt
hello = record { id = 70000; device = b'C' ∷ b'O' ∷ b'N' ∷ []; payload = 0 ∷ 1 ∷ [] }

parse_dev_data-marshal_dev_data_example : parse_dev_data (marshal_dev_data hello) ≡ some hello
parse_dev_data-marshal_dev_data_example =
    parse_dev_data-marshal_dev_data hello (omega arith) (omega arith)

-- Two capabilities, and a prefix of two bytes.
abbrev some_init : InitPkt
some_init = record {
  app_id = b'g' ∷ b'o' ∷ [];
  supported = 272;
  desired = 256;
  tx_window = 0;
  rx_window = 4096;
  prefix = 223 ∷ b'x' ∷ [];
}

some_init-IsPlain : IsPlain some_init
some_init-IsPlain = record {
  app_clean = omega arith;
  prefix_clean = omega arith;
  supported_known = omega arith;
  desired_known = omega arith;
  tx_fits = omega arith;
  rx_fits = omega arith;
}

parse_init-marshal_init_example : parse_init (marshal_init some_init) ≡ some some_init
parse_init-marshal_init_example = parse_init-marshal_init some_init some_init-IsPlain
