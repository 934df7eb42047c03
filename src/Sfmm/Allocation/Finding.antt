-- ===== src/Sfmm/Allocation/Finding.antt =====
-- What the search of `get_free_block` (hw3/src/sfmm_block.c) finds.
use cse320_fall.Base.{ℕ, zero, suc, ◌≤◌, ◌<◌, ◌≡◌, arith}
use cse320_fall.Sfmm.Word.{block_size_of, alloc_of}
use cse320_fall.Sfmm.Memory.{Heap, done, header, next, list_head}
use cse320_fall.Sfmm.Allocation.{find_fit, found}

-- The block that the search through the free lists returns is not allocated, is at least as large
-- as asked for, and is no NULL.
pub find_fit_sound :
    (fuel : ℕ) (h : Heap) (temp_index tmp total_bytes block : ℕ)
    → find_fit fuel h temp_index tmp total_bytes ≡ done (found block)
    → (alloc_of (header h block) ≡ 0) × (total_bytes ≤ block_size_of (header h block)) × (0 < block)
unfolding find_fit
find_fit_sound zero h temp_index tmp total_bytes block e = cc
find_fit_sound (suc fuel) h temp_index tmp total_bytes block e = ground (
  arith,
  find_fit_sound fuel h (suc temp_index) (next h (list_head h (suc temp_index))) total_bytes block,
  find_fit_sound fuel h temp_index (next h tmp) total_bytes block,
)
