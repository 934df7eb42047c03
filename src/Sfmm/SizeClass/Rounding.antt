-- ===== src/Sfmm/SizeClass/Rounding.antt =====
-- What `calculate_block_size` (hw3/src/sfmm_block.c) guarantees of a block's size.
use cse320_fall.Base.{ℕ, ◌+◌, ◌-◌, ◌%◌, ◌^◌, ◌≤◌, ◌<◌, ◌≡◌, ◌⊎◌, ◌*◌, arith}
use cse320_fall.Sfmm.SizeClass.{calculate_block_size}

-- For a request from 1 to 2^31 - 32 bytes the block size is a multiple of 16 that has room for the
-- payload (16 bytes at least) with header and footer, and the next smaller multiple has not.
pub calculate_block_size_bounds :
    (size : ℕ)
    → 0 < size
    → size ≤ 2 ^ 31 - 32
    → (calculate_block_size size % 16 ≡ 0)
      × (size + 16 ≤ calculate_block_size size)
      × (32 ≤ calculate_block_size size)
      × ((calculate_block_size size < size + 32) ⊎ (calculate_block_size size ≡ 32))
unfolding calculate_block_size
calculate_block_size_bounds size h l = ground arith

-- A request that differs from one of 16 to 2^31 - 32 bytes by a multiple of 2^32 gets a block of the
-- same size: the sizes from 2^32 on are cut to 32 bits.
pub calculate_block_size_wraps :
    (size k : ℕ)
    → 16 ≤ size
    → size ≤ 2 ^ 31 - 32
    → calculate_block_size (size + k * 2 ^ 32) ≡ calculate_block_size size
unfolding calculate_block_size
calculate_block_size_wraps size k h l = ground arith
