-- ===== src/Config.antt =====
-- hydra.go: errors, offers, file descriptions and the configuration.
use go_hydra.Base.{
  ℕ, ◌*◌, ◌/◌, bit_or, Bool, true, false, not, ◌||◌, List, [], ◌∷◌, Option, ltb, if◌then◌else◌,
  Bytes,
}
use go_hydra.Base.Int.{ℤ, pos, pos_part, ltb_ℤ, leb_ℤ}
use go_hydra.Constants.{
  data_buf_max, default_max_retries, default_brain_dead, default_timeout, max_timeout,
  idle_interval, second, cap_asc, cap_uue, cap_fpt,
}
use go_hydra.Caps.{cap_default_supported, clear, parse_caps}
use go_hydra.Format.{join}
use go_hydra.FileInfo.{is_empty}

-- The sentinel errors. `connection_lost` is `io.EOF`, `io.ErrUnexpectedEOF`, `io.ErrClosedPipe`,
-- `EPIPE` or `ECONNRESET`, `external` any other error of a handler, a file or the transport. An error
-- that wraps another counts as that one.
pub data Error : Type 0 where
  skip defer file_too_large brain_dead session_aborted peer_cancel max_retries : Error
  handler_contract incompatible resume_out_of_range sender_skip : Error
  transport_not_closable dev_unsupported run_active session_closed dev_busy : Error
  inbox_overflow : Error
  connection_lost : ℕ → Error
  external : ℕ → Error

-- A `FileOffer`: its reader, seeker and Close hook are the environment's; here stand whether they
-- are set. `mod_time` is none for the zero time.
pub record FileOffer : Type 0 where
  pub name : Bytes
  pub path : Bytes
  pub size : ℤ
  pub mod_time : Option ℤ
  pub has_reader : Bool
  pub is_seeker : Bool
  pub has_close : Bool

pub record FileInfo : Type 0 where
  pub name : Bytes
  pub path : Bytes
  pub size : ℤ
  pub mod_time : Option ℤ
  pub file_num : ℕ
  pub file_total : ℕ

-- `Config`; a Go `int` or duration may be negative before `defaults`.
pub record Config : Type 0 where
  pub originator : Bool
  pub effective_baud : ℤ
  pub app_id : Bytes
  pub supported : List Bytes
  pub desired : List Bytes
  pub tx_window_bytes : ℤ
  pub rx_window_bytes : ℤ
  pub timeout : ℤ
  pub brain_dead : ℤ
  pub max_retries : ℤ
  pub max_block_size : ℤ
  pub idle_override : ℤ

-- "2b1aab00gohydra,0.1".
abbrev pub default_app_id : Bytes
default_app_id =
    b'2' ∷ b'b' ∷ b'1' ∷ b'a' ∷ b'a' ∷ b'b' ∷ b'0' ∷ b'0' ∷ b'g' ∷ b'o' ∷ b'h' ∷ b'y' ∷ b'd' ∷ b'r'
    ∷ b'a' ∷ b',' ∷ b'0' ∷ b'.' ∷ b'1' ∷ []

unfoldable pub baud_timeout : ℤ → ℕ
baud_timeout baud =
    let calc = 40960 / pos_part baud * second in
    let t = if ltb default_timeout calc then calc else default_timeout in
    if not (ltb_ℤ (pos 0) baud)
    then default_timeout
    else if ltb max_timeout t
    then max_timeout
    else t

unfoldable pub defaults : Config → Config
unfolding baud_timeout
defaults c = record c {
  app_id = if is_empty c.app_id then default_app_id else c.app_id;
  max_block_size =
      if leb_ℤ c.max_block_size (pos 0) || ltb_ℤ (pos data_buf_max) c.max_block_size
      then pos data_buf_max
      else c.max_block_size;
  max_retries = if leb_ℤ c.max_retries (pos 0) then pos default_max_retries else c.max_retries;
  brain_dead = if leb_ℤ c.brain_dead (pos 0) then pos default_brain_dead else c.brain_dead;
  timeout = if leb_ℤ c.timeout (pos 0) then pos (baud_timeout c.effective_baud) else c.timeout;
  tx_window_bytes = if ltb_ℤ c.tx_window_bytes (pos 0) then pos 0 else c.tx_window_bytes;
  rx_window_bytes = if ltb_ℤ c.rx_window_bytes (pos 0) then pos 0 else c.rx_window_bytes;
}

abbrev is_none : List Bytes → Bool
is_none [] = true
is_none (s ∷ l) = false

unfoldable pub local_supported : Config → ℕ
unfolding parse_caps join
local_supported c =
    clear
      (if is_none c.supported
        then cap_default_supported
        else parse_caps (join (b',' ∷ []) c.supported))
      (bit_or cap_asc cap_uue)

unfoldable pub local_desired : Config → ℕ
unfolding parse_caps join
local_desired c =
    if is_none c.desired
    then cap_fpt
    else clear (parse_caps (join (b',' ∷ []) c.desired)) (bit_or cap_asc cap_uue)

-- The interval of `batch.idle`.
unfoldable pub idle : Config → ℕ
idle c = if ltb_ℤ (pos 0) c.idle_override then pos_part c.idle_override else idle_interval
