-- ===== src/Blocks/Rounding.antt =====
-- The block arithmetic of src/util.hpp.
use veri_fs.Base.{ℕ, ◌+◌, ◌*◌, ◌/◌, ◌%◌, ◌≤◌, ◌<◌, ◌≡◌, arith, sign_bit, if◌then◌else◌, ◌==◌}
use veri_fs.Types.{buf_block_size}
use veri_fs.Blocks.{get_nblocks, round_up}

-- For a size below 2 ^ 63, get_nblocks does not wrap and is the least number of blocks that holds
-- the size.
pub get_nblocks_least :
    (size : ℕ)
    → size < sign_bit
    → (size ≤ get_nblocks size buf_block_size * buf_block_size)
      × (get_nblocks size buf_block_size * buf_block_size < size + buf_block_size)
unfolding get_nblocks
get_nblocks_least size h = omega arith

pub get_nblocks_mono :
    (a b : ℕ) → a ≤ b → b < sign_bit → get_nblocks a buf_block_size ≤ get_nblocks b buf_block_size
unfolding get_nblocks
get_nblocks_mono a b h k = omega arith

-- The block count that File::WriteAndReply computes by division and remainder is the same.
pub get_nblocks-div :
    (size : ℕ)
    → size < sign_bit
    → size / 512 + (if size % 512 == 0 then 0 else 1) ≡ get_nblocks size buf_block_size
unfolding get_nblocks
get_nblocks-div size h = ground arith

-- round_up to blocks is the size of the blocks.
pub round_up-eq-blocks :
    (size : ℕ)
    → size < sign_bit
    → round_up size buf_block_size ≡ get_nblocks size buf_block_size * buf_block_size
unfolding get_nblocks round_up
round_up-eq-blocks size h = omega arith
