-- ===== src/Sfmm/Release.antt =====
-- Freeing and resizing (hw3/src/sfmm_block.c: `free_allocated_block`,
-- `can_realloc_without_splinter`, `update_payload_size`, `realloc_block`; hw3/src/sfmm.c: `sf_free`,
-- `sf_realloc`).
pub mod Rejects
use cse320_fall.Base.{
  ℕ, zero, suc, ◌+◌, ◌-◌, ◌*◌, ◌/◌, ◌%◌, ◌^◌, Bool, true, false, ◌||◌, ◌&&◌, not, Option, none,
  some, bit_and, bit_or, ltb, leb, ◌==◌, if◌then◌else◌,
}
use cse320_fall.Base.Int.{ℤ, pos, negsuc}
use cse320_fall.Sfmm.Word.{
  add64, sub64, block_size_of, alloc_of, prev_alloc_of, set_header, min_block_size, alignment_size,
}
use cse320_fall.Sfmm.SizeClass.{find_allocation_index, calculate_block_size}
use cse320_fall.Sfmm.Memory.{
  Heap, Run, done, aborted, ◌>>=◌, einval, write, prev_footer, header, write_prev_footer,
  write_header, peek_block_size, peek_payload_size,
}
use cse320_fall.Sfmm.Lists.{touch_for_heap_update, insert_block, place_in_wilderness}
use cse320_fall.Sfmm.Coalescing.{do_coalesce, find_last_in_heap, get_utilization}
use cse320_fall.Sfmm.Allocation.{epilogue_of, sf_malloc}

-- The guards of `free_allocated_block`, in order: the free list's index of a block that may be
-- freed, `none` where the function returns -1.
unfoldable pub freeable : Heap → (block : ℕ) → Option ℕ
freeable h block =
    if not (block % alignment_size == 0)
    then none
    else if block == 0
    then none
    else if alloc_of (header h block) == 0
    then none
    else if ltb block (add64 h.start min_block_size) || ltb (epilogue_of h) block
    then none
    else elim (find_allocation_index (block_size_of (header h block))) [
      | none ↦ none
      | some index ↦
          let prev_alloc = prev_alloc_of (header h block) in
          let prev_block_alloc = alloc_of (prev_footer h block) in
          if (prev_alloc == 0 && not (prev_block_alloc == 0))
            || (not (prev_alloc == 0) && prev_block_alloc == 0)
          then none
          else some index
    ]

-- The end of `free_allocated_block` and of `realloc_block`: coalescing, and the epilogue's fields.
unfoldable pub settle : Heap → Run Heap
settle h = do
  (h1, _done) ← do_coalesce h
  last ← find_last_in_heap h1
  let epilogue = epilogue_of h1
  let h2 = (place_in_wilderness h1 last).0
  let h3 = write_prev_footer h2 epilogue (header h2 last)
  let is_prev_alloc = alloc_of (header h3 last)
  done (
      write_header h3 epilogue (
        if is_prev_alloc == 0
        then bit_and (header h3 epilogue) 0xFFFFFFFB
        else bit_or (header h3 epilogue) 0x4))

unfoldable pub free_allocated_block : Heap → (block : ℕ) → Run (Heap × ℤ)
free_allocated_block h block = elim (freeable h block) [
  | none ↦ done (h, negsuc 0)
  | some index ↦
      (let block_size = block_size_of (header h block) in
        let prev_alloc = prev_alloc_of (header h block) in
        let h1 = (insert_block h block (some index)).0 in
        let h2 = write_header h1 block (set_header 0 block_size 0 prev_alloc) in
        let h3 = (touch_for_heap_update h2 block).0 in settle h3 >>= λ h4. done (h4, pos 0))
]

-- The result -1 aborts.
abbrev pub or_abort : Heap × ℤ → Run Heap
or_abort (h, pos n) = done h
or_abort (h, negsuc n) = aborted

unfoldable pub sf_free : Heap → (pp : ℕ) → Run Heap
sf_free h pp =
    if pp == 0 then aborted else free_allocated_block h (sub64 pp alignment_size) >>= or_abort

unfoldable pub can_realloc_without_splinter : Heap → (block rsize : ℕ) → ℤ
can_realloc_without_splinter h block rsize =
    if (block == 0) || (rsize == 0)
    then pos 0
    else let payload_size = peek_payload_size h block in
      if peek_block_size h block == calculate_block_size rsize
      then pos 3
      else if alloc_of (header h block) == 0
      then negsuc 0
      else if ltb payload_size rsize
      then pos 1
      else if payload_size == rsize
      then pos 2
      else if ltb (sub64 payload_size rsize) min_block_size
      then pos 3
      else pos 4

unfoldable pub update_payload_size : Heap → (sfb update : ℕ) → Heap × ℕ
update_payload_size h sfb update =
    if sfb == 0
    then (h, 0)
    else let block_size = peek_block_size h sfb in
      let alloc = alloc_of (header h sfb) in
      let prev_alloc = prev_alloc_of (header h sfb) in
      let after = add64 sfb block_size in
      if ltb (epilogue_of h) after
      then (h, 0)
      else let h1 = write_header h sfb (set_header update block_size alloc prev_alloc) in
        (write_prev_footer h1 after (header h1 sfb), sfb)

unfoldable pub realloc_block : Heap → (sfb new_block_size new_payload : ℕ) → Run (Heap × ℕ)
realloc_block h sfb new_block_size new_payload =
    if sfb == 0
    then done (h, 0)
    else if not (sfb % alignment_size == 0)
    then done (h, 0)
    else let block_size = peek_block_size h sfb in
      let alloc = alloc_of (header h sfb) in
      let prev_alloc = prev_alloc_of (header h sfb) in
      let split_section_block = add64 sfb new_block_size in
      let h1 = write_header h sfb (set_header new_payload new_block_size alloc prev_alloc) in
      let h2 = write_prev_footer h1 split_section_block (header h1 sfb) in
      let rest = sub64 block_size new_block_size in
      let after = add64 split_section_block rest in
      if ltb (epilogue_of h2) after
      then done (h2, 0)
      else let h3 = write_header h2 split_section_block (set_header 0 rest 0 1) in
        let h4 = write_prev_footer h3 after (header h3 split_section_block) in
        elim (find_allocation_index rest) [
          | none ↦ done (h4, 0)
          | some index ↦ do
            let h5 = (insert_block h4 split_section_block (some index)).0
            h6 ← settle h5
            (h7, _total) ← get_utilization h6
            done (h7, sfb)
        ]

-- `memcpy` of `n` bytes between word-aligned addresses; bytes are little-endian in a word.
unfoldable pub copy_words : Heap → (dest src words : ℕ) → Heap
copy_words h dest src zero = h
copy_words h dest src (suc k) =
    let g = copy_words h dest src k in write g (dest + 8 * k) (g.word (src + 8 * k))

unfoldable pub memcpy : Heap → (dest src n : ℕ) → Heap
memcpy h dest src n =
    let g = copy_words h dest src (n / 8) in
    let at = 8 * (n / 8) in
    let low = 256 ^ (n % 8) in
    if n % 8 == 0
    then g
    else write g (dest + at) (g.word (dest + at) / low * low + g.word (src + at) % low)

module _ (sf_mem_grow : Heap → Heap × ℕ) where
  -- `sf_realloc` by the result of `can_realloc_without_splinter`.
  unfoldable pub resize : Heap → (pp rsize sfr : ℕ) → ℤ → Run (Heap × ℕ)
  resize h pp rsize sfr (pos zero) = sf_free h pp >>= λ h1. done (h1, 0)
  resize h pp rsize sfr (pos (suc zero)) = do
    (h1, p) ← sf_malloc sf_mem_grow h rsize
    if p == 0 then done (h1, 0) else do h2 ← sf_free (memcpy h1 p pp rsize) pp; done (h2, p)
  resize h pp rsize sfr (pos (suc (suc zero))) = done (h, pp)
  resize h pp rsize sfr (pos (suc (suc (suc zero)))) =
      let (h1, sfb) = update_payload_size h sfr rsize in done (h1, sfb + 16)
  resize h pp rsize sfr _ = do
    (h1, sfb) ← realloc_block h sfr (calculate_block_size rsize) rsize
    done (h1, sfb + 16)

  unfoldable pub sf_realloc : Heap → (pp rsize : ℕ) → Run (Heap × ℕ)
  sf_realloc h pp rsize =
      if pp == 0
      then done (record h { sf_errno = some einval }, 0)
      else let sfr = sub64 pp alignment_size in
        resize h pp rsize sfr (can_realloc_without_splinter h sfr rsize)
