-- ===== src/BlockSize/Runs.antt =====
-- The block size at concrete histories.
use go_hydra.Base.{◌≡◌, ◌≤◌, ◌<◌, ◌⊎◌, inl, refl, List, [], ◌∷◌, arith}
use go_hydra.Base.Int.{pos}
use go_hydra.Constants.{data_buf_max, rpos_max_block}
use go_hydra.BlockSize.{BlockSizer, new_block_sizer, good, ladder, rpos}
use go_hydra.BlockSize.Bounds.{
  Event, sent, repositioned, after, IsStep, after-new_block_sizer, ladder_bounds, rpos_over_max,
}

abbrev history : List Event
history = sent 512 ∷ sent 512 ∷ repositioned 100 ∷ sent 128 ∷ []

-- After 512 bytes the size doubles at 1024; a receiver that asks for 100 gets 128.
history_size : (after (new_block_sizer (pos 0) (pos 2048)) history).cur ≡ 128
unfolding after new_block_sizer good rpos ladder
history_size = refl

after-new_block_sizer_example :
    let b = after (new_block_sizer (pos 0) (pos 2048)) history in
    (1 ≤ b.cur) × (b.cur ≤ data_buf_max)
after-new_block_sizer_example = after-new_block_sizer (pos 0) (pos 2048) history

ladder_bounds_example :
    IsStep (ladder 100)
    × ((100 ≤ ladder 100) ⊎ (rpos_max_block < 100) × (ladder 100 ≡ rpos_max_block))
    × ((ladder 100 ≤ 64) ⊎ (64 < 100))
ladder_bounds_example = ladder_bounds 100 64 (inl refl)

abbrev small : BlockSizer
small = record { cur = 40; max = 40; good_bytes = 0; good_needed = 1024 }

rpos_over_max_example : (40 < (rpos small 20).cur) × (good (rpos small 20) 40 ≡ rpos small 20)
rpos_over_max_example = rpos_over_max small 20 40 (omega arith)
