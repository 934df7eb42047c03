-- ===== src/Sfmm/Allocation.antt =====
-- Finding and taking a free block (hw3/src/sfmm_block.c: `get_more_memory`, `get_free_block`,
-- `find_next_free_block`) and `sf_malloc` of hw3/src/sfmm.c.
pub mod Finding
pub mod FirstFit
pub mod Failure
use cse320_fall.Base.{
  ℕ, zero, suc, ◌+◌, ◌-◌, ◌*◌, ◌/◌, Bool, ◌||◌, ◌&&◌, Option, none, some, bit_or, ltb, leb, ◌==◌,
  if◌then◌else◌,
}
use cse320_fall.Sfmm.Word.{
  add64, sub64, block_size_of, alloc_of, prev_alloc_of, set_header, min_block_size, alignment_size,
  header_size, footer_size,
}
use cse320_fall.Sfmm.SizeClass.{num_free_lists, find_allocation_index, calculate_block_size}
use cse320_fall.Sfmm.Memory.{
  Heap, Run, done, aborted, out_of_fuel, ◌>>=◌, enomem, prev_footer, header, next,
  write_prev_footer, write_header, list_head,
}
use cse320_fall.Sfmm.Lists.{
  init_free_lists, isolate_block, touch_for_heap_update, insert_block, place_in_wilderness,
}
use cse320_fall.Sfmm.Coalescing.{do_coalesce, find_last_in_heap, get_utilization}

abbrev pub page_sz : ℕ
page_sz = 4096

-- `sf_mem_end() - SFMM_SIZES.ALIGNMENT_SIZE`.
unfoldable pub epilogue_of : Heap → ℕ
unfolding sub64
epilogue_of h = sub64 h.stop alignment_size

pub data Search : Type 0 where
  found : ℕ → Search
  not_found : Search

-- The two nested loops of `get_free_block`: from `tmp` on through the list `temp_index`, then
-- through the lists behind it.
unfoldable pub find_fit : (fuel : ℕ) → Heap → (temp_index tmp total_bytes : ℕ) → Run Search
unfolding block_size_of alloc_of
find_fit zero h temp_index tmp total_bytes = out_of_fuel
find_fit (suc fuel) h temp_index tmp total_bytes =
    let next_list =
      find_fit fuel h (suc temp_index) (next h (list_head h (suc temp_index))) total_bytes in
    let next_block = find_fit fuel h temp_index (next h tmp) total_bytes in
    let fits = alloc_of (header h tmp) == 0 && leb total_bytes (block_size_of (header h tmp)) in
    if leb num_free_lists temp_index
    then done not_found
    else if (tmp == 0) || (tmp == list_head h temp_index)
    then next_list
    else if fits
    then done (found tmp)
    else next_block

-- The split of a block that leaves at least the minimum size behind.
unfoldable pub split_block : Heap → (tmp payload_size total_bytes block_size prev_alloc : ℕ) → Heap
unfolding add64 sub64 set_header insert_block find_allocation_index
split_block h tmp payload_size total_bytes block_size prev_alloc =
    let rest = sub64 block_size total_bytes in
    if ltb rest min_block_size
    then h
    else let h1 = write_header h tmp (set_header payload_size total_bytes 1 prev_alloc) in
      let split_section_block = add64 tmp total_bytes in
      let h2 = write_header h1 split_section_block (set_header 0 rest 0 1) in
      let h3 = write_prev_footer h2 split_section_block (header h2 tmp) in
      (insert_block h3 split_section_block (find_allocation_index rest)).0

-- The footer and the previous-allocation bit of the epilogue, from the last block.
unfoldable pub update_epilogue : Heap → (last : ℕ) → Heap
unfolding alloc_of epilogue_of
update_epilogue h last =
    let h1 = write_prev_footer h (epilogue_of h) (header h last) in
    let should_have_prev = if last == h1.start then 0 else alloc_of (header h1 last) in
    write_header h1 (epilogue_of h1) (bit_or (header h1 (epilogue_of h1)) (should_have_prev * 4))

-- What `get_free_block` does with the block that it has found.
unfoldable pub take_block : Heap → (tmp payload_size total_bytes : ℕ) → Run (Heap × ℕ)
unfolding add64 sub64 block_size_of prev_alloc_of set_header split_block touch_for_heap_update
    isolate_block find_last_in_heap update_epilogue
take_block h tmp payload_size total_bytes =
    let block_size = block_size_of (header h tmp) in
    let prev_alloc = prev_alloc_of (header h tmp) in
    let h1 = write_header h tmp (set_header payload_size block_size 1 prev_alloc) in
    let h2 = split_block h1 tmp payload_size total_bytes block_size prev_alloc in
    let after = add64 tmp total_bytes in
    let h3 = (touch_for_heap_update h2 tmp).0 in
    let (h4, taken) = isolate_block h3 tmp in
    if taken == 0 then done (h4, 0) else do
      let h5 = (touch_for_heap_update h4 after).0
      last ← find_last_in_heap h5
      done (update_epilogue h5 last, taken)

-- `sf_mem_grow` of the library sfutil: the grown heap and the start of the page, or NULL.
module _ (sf_mem_grow : Heap → Heap × ℕ) where
  unfoldable pub get_more_memory : Heap → Heap × ℕ
  unfolding sub64 set_header epilogue_of
  get_more_memory h =
      let diff = sub64 h.stop h.start in
      let old_epilogue = if diff == 0 then 0 else epilogue_of h in
      let (h1, grown) = sf_mem_grow h in
      if grown == 0
      then (h1, 0)
      else let new_mem = if old_epilogue == 0 then grown else old_epilogue in
        let h2 =
          if diff == 0 then write_header h1 h1.start (set_header 0 min_block_size 1 0) else h1 in
        let h3 = write_header h2 (epilogue_of h2) (set_header 0 0 1 0) in
        (h3, if diff == 0 then new_mem + min_block_size else new_mem)

  -- What `get_free_block` makes of new memory before it calls itself again; `first` says that the
  -- heap was empty.
  unfoldable pub add_block : Heap → (new_block : ℕ) → (first : Bool) → Run Heap
  unfolding set_header insert_block touch_for_heap_update find_last_in_heap update_epilogue
  add_block h new_block first =
      let size = page_sz - (if first then min_block_size + header_size + footer_size else 0) in
      let h1 = write_header h new_block (set_header 0 size 0 0) in
      let h2 =
        write_prev_footer h1 new_block
          (if first then min_block_size else prev_footer h1 new_block) in
      let h3 = (insert_block h2 new_block (some (num_free_lists - 1))).0 in
      let h4 = (touch_for_heap_update h3 new_block).0 in
      do last ← find_last_in_heap h4; (h5, _done) ← do_coalesce (update_epilogue h4 last); done h5

  -- The fuel of one search: more than the blocks that fit into the heap and the ten lists.
  unfoldable pub search_fuel : Heap → ℕ
  unfolding sub64
  search_fuel h = sub64 h.stop h.start / alignment_size + 12

  unfoldable pub get_free_block :
      (fuel : ℕ) → Heap → Option ℕ → (payload_size total_bytes : ℕ) → Run (Heap × ℕ)
  unfolding find_fit take_block get_more_memory add_block search_fuel sub64
  get_free_block fuel h none payload_size total_bytes = done (h, 0)
  get_free_block zero h (some index) payload_size total_bytes = out_of_fuel
  get_free_block (suc fuel) h (some index) payload_size total_bytes =
      let again = λ (g : Heap). get_free_block fuel g (some index) payload_size total_bytes in
      let (h1, new_mem) = get_more_memory h in
      let grow : Run (Heap × ℕ) =
        if new_mem == 0
        then done (h1, 0)
        else add_block h1 new_mem (sub64 h.stop h.start == 0) >>= again in
      if leb num_free_lists index then done (h, 0) else do
        result ← find_fit (search_fuel h) h index (next h (list_head h index)) total_bytes
        elim result [ found tmp ↦ take_block h tmp payload_size total_bytes | not_found ↦ grow ]

  unfoldable pub find_next_free_block : Heap → (total_bytes payload_size : ℕ) → Run (Heap × ℕ)
  unfolding init_free_lists find_allocation_index get_free_block get_utilization find_last_in_heap
      place_in_wilderness
  find_next_free_block h total_bytes payload_size =
      let h1 = init_free_lists h in
      let index = find_allocation_index total_bytes in
      do
        (h2, block) ← get_free_block (total_bytes / page_sz + 3) h1 index payload_size total_bytes
        if block == 0 then done (h2, 0) else do
          (h3, _total) ← get_utilization h2
          last ← find_last_in_heap h3
          done ((place_in_wilderness h3 last).0, block)

  -- The pointer to the payload, 0 for NULL.
  unfoldable pub sf_malloc : Heap → (size : ℕ) → Run (Heap × ℕ)
  unfolding calculate_block_size find_next_free_block
  sf_malloc h size = if ltb (calculate_block_size size) alignment_size then done (h, 0) else do
    (h1, sfb) ← find_next_free_block h (calculate_block_size size) size
    if sfb == 0 then done (record h1 { sf_errno = some enomem }, 0) else done (h1, sfb + 16)
