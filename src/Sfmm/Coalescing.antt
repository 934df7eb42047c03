-- ===== src/Sfmm/Coalescing.antt =====
-- Merging of free neighbours and the walks over the heap (hw3/src/sfmm_block.c: `can_coalesce`,
-- `coalesce`, `do_coalesce`, `find_last_in_heap`, `get_utilization`; hw3/src/sfmm_analytics.c).
pub mod Walks
use cse320_fall.Base.{
  ℕ, zero, suc, ◌+◌, ◌-◌, ◌*◌, ◌/◌, Bool, true, false, ◌||◌, ◌&&◌, not, Option, none, some, ltb,
  leb, ◌==◌, if◌then◌else◌,
}
use cse320_fall.Sfmm.Word.{
  add64, sub64, block_size_of, alloc_of, prev_alloc_of, set_header, min_block_size, alignment_size,
}
use cse320_fall.Sfmm.SizeClass.{find_allocation_index}
use cse320_fall.Sfmm.Memory.{
  Heap, Run, done, out_of_fuel, ◌>>=◌, prev_footer, header, next, prev, write_prev_footer,
  write_header, write_next, write_prev, list_head, peek_block_size, peek_payload_size, is_allocated,
}
use cse320_fall.Sfmm.Lists.{isolate_block, touch_for_heap_update}

unfoldable pub can_coalesce : Heap → ℕ → Bool
unfolding add64 sub64 block_size_of alloc_of
can_coalesce h block =
    if block == 0
    then false
    else if not (alloc_of (header h block) == 0)
    then false
    else let after = add64 block (block_size_of (header h block)) in
      let before = sub64 block (block_size_of (prev_footer h block)) in
      (ltb after h.stop && alloc_of (header h after) == 0)
      || (ltb h.start before && alloc_of (header h before) == 0)

-- The links of `coalesce`: the merged block leaves its list and heads the list of its new size.
unfoldable pub move_to_list : Heap → (block head : ℕ) → Heap
move_to_list h block head =
    let h1 = write_next h (prev h block) (next h block) in
    let h2 = write_prev h1 (next h block) (prev h block) in
    let first = next h2 head in
    let h3 = write_next h2 head block in
    let h4 = write_prev h3 block head in
    let h5 = write_next h4 block first in write_prev h5 first block

unfoldable pub coalesce : Heap → (main join : ℕ) → Heap × ℕ
unfolding add64 sub64 block_size_of alloc_of prev_alloc_of set_header find_allocation_index
    isolate_block touch_for_heap_update move_to_list
coalesce h main join =
    if (main == 0) || (join == 0)
    then (h, 0)
    else let next_in_heap = add64 main (block_size_of (header h main)) in
      let prev_in_heap = sub64 main (block_size_of (prev_footer h main)) in
      if not (next_in_heap == join) && not (prev_in_heap == join)
      then (h, 0)
      else if not (alloc_of (header h main) == 0) || not (alloc_of (header h join) == 0)
      then (h, 0)
      else let size = block_size_of (header h main) + block_size_of (header h join) in
        let higher_in_heap = if ltb join main then join else main in
        let lower_in_heap = if ltb main join then join else main in
        let prev_alloc = prev_alloc_of (header h higher_in_heap) in
        let h1 = write_header h higher_in_heap (set_header 0 size 0 prev_alloc) in
        elim (find_allocation_index size) [
          | none ↦ (h1, 0)
          | some index ↦
              let h2 = move_to_list h1 higher_in_heap (list_head h1 index) in
              let (h3, _lower) = isolate_block h2 lower_in_heap in
              let (h4, _block) = touch_for_heap_update h3 higher_in_heap in
              (
                write_prev_footer h4 (add64 higher_in_heap size) (header h4 higher_in_heap),
                higher_in_heap,
              )
        ]

-- The loop of `do_coalesce`, whose `current_size` is the block size of `tmp`.
unfoldable pub coalesce_loop : (fuel : ℕ) → Heap → (tmp : ℕ) → Run (Heap × ℕ)
unfolding add64 sub64 block_size_of can_coalesce coalesce
coalesce_loop zero h tmp = out_of_fuel
coalesce_loop (suc fuel) h tmp =
    let end = sub64 h.stop alignment_size in
    let after = add64 tmp (block_size_of (header h tmp)) in
    let merged = coalesce h tmp after in
    let retry = coalesce_loop fuel merged.0 (if merged.1 == 0 then after else merged.1) in
    let onward = coalesce_loop fuel h after in
    if not (ltb tmp end)
    then done (h, 1)
    else if (after == 0) || leb end after
    then done (h, 0)
    else if can_coalesce h tmp
    then retry
    else if ltb (block_size_of (header h after)) min_block_size
    then done (h, 0)
    else onward

unfoldable pub do_coalesce : Heap → Run (Heap × ℕ)
unfolding coalesce_loop
do_coalesce h =
    if h.start == 0
    then done (h, 0)
    else coalesce_loop (sub64 h.stop h.start / alignment_size + 2) h h.start

-- The loop of `find_last_in_heap`: `tmp` is a block of at least the minimum size.
unfoldable pub last_loop : (fuel : ℕ) → Heap → (tmp : ℕ) → (last : ℕ) → Run ℕ
unfolding add64 sub64 block_size_of
last_loop zero h tmp last = out_of_fuel
last_loop (suc fuel) h tmp last =
    let after = add64 tmp (block_size_of (header h tmp)) in
    let rest = last_loop fuel h after tmp in
    if not (ltb tmp (sub64 h.stop alignment_size))
    then done last
    else if ltb (block_size_of (header h after)) min_block_size
    then done tmp
    else rest

unfoldable pub find_last_in_heap : Heap → Run ℕ
unfolding last_loop sub64
find_last_in_heap h =
    if h.start == 0
    then done 0
    else if ltb (block_size_of (header h h.start)) min_block_size
    then done 0
    else last_loop (sub64 h.stop h.start / min_block_size + 2) h h.start h.start

-- The sum of the payloads from `tmp` on. A `double` holds it exactly.
unfoldable pub utilization_loop : (fuel : ℕ) → Heap → (tmp total : ℕ) → Run ℕ
unfolding add64 peek_block_size peek_payload_size
utilization_loop zero h tmp total = out_of_fuel
utilization_loop (suc fuel) h tmp total =
    let rest =
      utilization_loop fuel h (add64 tmp (peek_block_size h tmp))
        (total + peek_payload_size h tmp) in
    if not (ltb tmp h.stop)
    then done total
    else if peek_block_size h tmp == 0
    then done total
    else rest

-- The heap with the peak kept up to date, and the result.
unfoldable pub get_utilization : Heap → Run (Heap × ℕ)
unfolding utilization_loop
get_utilization h = if h.start == h.stop then done (h, 0) else do
  total ← utilization_loop (sub64 h.stop h.start + 1) h h.start 0
  done (if ltb h.peak_utilization total then record h { peak_utilization = total } else h, total)

-- The two sums of `sfmm_get_fragmentation`, payloads and sizes of the allocated blocks.
unfoldable pub fragmentation_loop :
    (fuel : ℕ) → Heap → (curr total_payload total_allocated : ℕ) → Run (ℕ × ℕ)
unfolding add64 peek_block_size peek_payload_size is_allocated
fragmentation_loop zero h curr total_payload total_allocated = out_of_fuel
fragmentation_loop (suc fuel) h curr total_payload total_allocated =
    let payload = peek_payload_size h curr in
    let size = peek_block_size h curr in
    let counted =
      not (payload == 0) && elim (is_allocated h curr) [ none ↦ true | some a ↦ not (a == 0) ] in
    let rest =
      fragmentation_loop fuel h (add64 curr size)
        (if counted then total_payload + payload else total_payload)
        (if counted then total_allocated + size else total_allocated) in
    if not (ltb curr h.stop)
    then done (total_payload, total_allocated)
    else if size == 0
    then done (
        if counted
        then (total_payload + payload, total_allocated + size)
        else (total_payload, total_allocated))
    else rest

-- The fraction that `sfmm_get_fragmentation` returns, numerator and denominator; 0 for 0 / 0.
unfoldable pub sfmm_get_fragmentation : Heap → Run (ℕ × ℕ)
unfolding fragmentation_loop sub64
sfmm_get_fragmentation h =
    if h.start == h.stop
    then done (0, 0)
    else fragmentation_loop (sub64 h.stop h.start + 1) h h.start 0 0

-- The fraction that `get_peak_utilization` returns, numerator and denominator.
unfoldable pub get_peak_utilization : Heap → ℕ × ℕ
unfolding sub64
get_peak_utilization h = (h.peak_utilization, sub64 h.stop h.start)
