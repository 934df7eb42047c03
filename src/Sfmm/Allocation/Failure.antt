-- ===== src/Sfmm/Allocation/Failure.antt =====
-- When `sf_malloc` (hw3/src/sfmm.c) returns NULL, and what it leaves in `sf_errno`.
use cse320_fall.Base.{
  ℕ, ◌+◌, ◌-◌, ◌^◌, ◌≤◌, ◌<◌, ◌≡◌, refl, some, false, arith, ltb, ◌==◌, if◌then◌else◌,
}
use cse320_fall.Sfmm.Memory.{Heap, Run, done, aborted, out_of_fuel, ◌>>=◌, enomem}
use cse320_fall.Sfmm.SizeClass.{calculate_block_size}
use cse320_fall.Sfmm.SizeClass.Rounding.{calculate_block_size_bounds}
use cse320_fall.Sfmm.Allocation.{sf_malloc, find_next_free_block}

finish : Heap × ℕ → Run (Heap × ℕ)
finish (h1, sfb) =
    if sfb == 0 then done (record h1 { sf_errno = some enomem }, 0) else done (h1, sfb + 16)

-- The steps of `sf_malloc`, its callees shut.
sf_malloc_steps :
    (sf_mem_grow : Heap → Heap × ℕ) (h : Heap) (size : ℕ)
    → sf_malloc sf_mem_grow h size ≡ (
        if ltb (calculate_block_size size) 16
        then done (h, 0)
        else (find_next_free_block sf_mem_grow h (calculate_block_size size) size >>= finish))
unfolding sf_malloc finish
sf_malloc_steps sf_mem_grow h size = refl

finish_null :
    (m : Run (Heap × ℕ)) (h' : Heap) → (m >>= finish) ≡ done (h', 0) → h'.sf_errno ≡ some enomem
unfolding finish
finish_null (done (h1, sfb)) h' e = ground arith
finish_null aborted h' e = cc
finish_null out_of_fuel h' e = cc

large_enough :
    (size : ℕ) → 0 < size → size ≤ 2 ^ 31 - 32 → ltb (calculate_block_size size) 16 ≡ false
large_enough size p l = ground (arith, calculate_block_size_bounds size)

-- A request of 0 bytes returns NULL and changes nothing.
zero_request : (sf_mem_grow : Heap → Heap × ℕ) (h : Heap) → sf_malloc sf_mem_grow h 0 ≡ done (h, 0)
unfolding sf_malloc
zero_request sf_mem_grow h = refl

-- A request of 1 to 2^31 - 32 bytes that returns NULL has set `sf_errno` to ENOMEM, whatever the
-- heap and however it grows.
pub sf_malloc_null :
    (sf_mem_grow : Heap → Heap × ℕ) (h h' : Heap) (size : ℕ)
    → 0 < size
    → size ≤ 2 ^ 31 - 32
    → sf_malloc sf_mem_grow h size ≡ done (h', 0)
    → h'.sf_errno ≡ some enomem
sf_malloc_null sf_mem_grow h h' size p l e =
    finish_null (find_next_free_block sf_mem_grow h (calculate_block_size size) size) h'
      (rw (sf_malloc_steps, large_enough size p l) at e)
