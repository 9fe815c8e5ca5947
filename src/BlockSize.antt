-- ===== src/BlockSize.antt =====
-- blocksize.go: the adaptive block size of the transmitter. A Go `int` is a number here: none of
-- the values below is ever negative, but the configured ones, for which `baud` and `max_cap` are
-- integers.
pub mod Bounds
mod Runs
use go_hydra.Base.{ℕ, ◌+◌, ◌*◌, ◌/◌, ◌&&◌, ◌||◌, leb, ltb, if◌then◌else◌}
use go_hydra.Base.Int.{ℤ, pos, pos_part, ltb_ℤ, leb_ℤ}
use go_hydra.Constants.{
  data_buf_max, default_good_needed, max_good_needed, min_block_size, rpos_max_block,
}

pub record BlockSizer : Type 0 where
  pub cur : ℕ
  pub max : ℕ
  pub good_bytes : ℕ
  pub good_needed : ℕ

unfoldable pub new_block_sizer : ℤ → ℤ → BlockSizer
new_block_sizer baud max_cap =
    let cap =
      if leb_ℤ max_cap (pos 0) || ltb_ℤ (pos data_buf_max) max_cap
      then data_buf_max
      else pos_part max_cap in
    let serial = ltb_ℤ (pos 0) baud in
    let initial = if serial && ltb_ℤ baud (pos 2400) then 256 else 512 in
    let rate = pos_part baud / 300 * 128 in
    let from_baud = if ltb rate 256 then 256 else rate in
    let max = if serial && ltb from_baud cap then from_baud else cap in
    record {
      cur = if ltb max initial then max else initial;
      max = max;
      good_bytes = 0;
      good_needed = default_good_needed;
    }

unfoldable pub good : BlockSizer → ℕ → BlockSizer
good b n =
    let total = b.good_bytes + n in
    let doubled = b.cur * 2 in
    if leb b.max b.cur
    then b
    else if leb b.good_needed total
    then (if leb b.max doubled
        then record b { cur = b.max; good_bytes = 0; good_needed = 0 }
        else record b { cur = doubled; good_bytes = 0 })
    else record b { good_bytes = total }

unfoldable pub ladder : ℕ → ℕ
ladder n =
    if leb n min_block_size
    then min_block_size
    else if leb n 128
    then 128
    else if leb n 256
    then 256
    else if leb n 512
    then 512
    else rpos_max_block

unfoldable pub rpos : BlockSizer → ℕ → BlockSizer
unfolding ladder
rpos b proposed =
    let adopted = if ltb 0 proposed && ltb proposed b.cur then proposed else b.cur / 2 in
    let needed = b.good_needed + 1024 in
    record b {
      cur = ladder adopted;
      good_bytes = 0;
      good_needed = if ltb max_good_needed needed then max_good_needed else needed;
    }
