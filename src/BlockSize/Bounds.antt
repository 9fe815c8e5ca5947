-- ===== src/BlockSize/Bounds.antt =====
-- The block size stays in range under every history.
use go_hydra.Base.{ℕ, ◌≤◌, ◌<◌, ◌≡◌, ◌⊎◌, List, [], ◌∷◌, arith}
use go_hydra.Base.Int.{ℤ}
use go_hydra.Constants.{data_buf_max, max_good_needed, min_block_size, rpos_max_block}
use go_hydra.BlockSize.{BlockSizer, new_block_sizer, good, ladder, rpos}

-- What the transmitter relies on: a block is not empty and fits the DATA buffer.
pub record IsSound (b : BlockSizer) : Type 0 where
  pub some_bytes : 1 ≤ b.cur
  pub fits : b.cur ≤ data_buf_max
  pub max_fits : b.max ≤ data_buf_max
  pub needed_capped : b.good_needed ≤ max_good_needed

pub data Event : Type 0 where
  sent : ℕ → Event
  repositioned : ℕ → Event

unfoldable pub after : BlockSizer → List Event → BlockSizer
after b [] = b
after b (sent n ∷ es) = after (good b n) es
after b (repositioned n ∷ es) = after (rpos b n) es

pub new_block_sizer-IsSound : (baud max_cap : ℤ) → IsSound (new_block_sizer baud max_cap)
unfolding new_block_sizer
new_block_sizer-IsSound baud max_cap = ground arith

pub good-IsSound : (b : BlockSizer) (n : ℕ) → IsSound b → IsSound (good b n)
unfolding good
good-IsSound b n h = ground arith

pub rpos-IsSound : (b : BlockSizer) (n : ℕ) → IsSound b → IsSound (rpos b n)
unfolding rpos
rpos-IsSound b n h = ground arith

after-IsSound : (b : BlockSizer) (es : List Event) → IsSound b → IsSound (after b es)
unfolding after
after-IsSound b [] h = h
after-IsSound b (sent n ∷ es) h = after-IsSound (good b n) es (good-IsSound b n h)
after-IsSound b (repositioned n ∷ es) h = after-IsSound (rpos b n) es (rpos-IsSound b n h)

-- Whatever the line speed and the configured ceiling, after any sends and repositions the block
-- size is from 1 to 2048 bytes.
pub after-new_block_sizer :
    (baud max_cap : ℤ) (es : List Event)
    → let b = after (new_block_sizer baud max_cap) es in (1 ≤ b.cur) × (b.cur ≤ data_buf_max)
after-new_block_sizer baud max_cap es =
    let h =
      after-IsSound (new_block_sizer baud max_cap) es (new_block_sizer-IsSound baud max_cap) in
    (h.some_bytes, h.fits)

abbrev pub IsStep : ℕ → Type 0
IsStep s = (s ≡ 64) ⊎ (s ≡ 128) ⊎ (s ≡ 256) ⊎ (s ≡ 512) ⊎ (s ≡ 1024)

-- The ladder gives the least of the steps 64, 128, 256, 512 and 1024 that is not below the
-- proposal, and 1024 for a proposal above that: the result is a step, it is not below the proposal
-- unless the proposal is above 1024 and the result is 1024, and every step below the result is
-- below the proposal.
pub ladder_bounds :
    (n s : ℕ)
    → IsStep s
    → IsStep (ladder n)
      × ((n ≤ ladder n) ⊎ (rpos_max_block < n) × (ladder n ≡ rpos_max_block))
      × ((ladder n ≤ s) ⊎ (s < n))
unfolding ladder
ladder_bounds n s h = ground arith

-- A ceiling below 64 bytes does not survive a reposition: whatever size the receiver proposes, the
-- size that is adopted is above the ceiling, and `good` leaves it there.
pub rpos_over_max :
    (b : BlockSizer) (proposed n : ℕ)
    → b.max < min_block_size
    → (b.max < (rpos b proposed).cur) × (good (rpos b proposed) n ≡ rpos b proposed)
unfolding rpos ladder good
rpos_over_max b proposed n h = ground arith
