-- ===== src/Sfmm/Lists.antt =====
-- The free lists and the bookkeeping of the headers round a block (hw3/src/sfmm_block.c:
-- `init_free_lists`, `insert_after`, `touch_for_heap_update`, `isolate_block`, `insert_block`,
-- `place_in_wilderness`).
pub mod Ring
use cse320_fall.Base.{
  ℕ, zero, suc, ◌-◌, Bool, ◌||◌, Option, none, some, bit_or, ltb, leb, ◌==◌, if◌then◌else◌,
}
use cse320_fall.Sfmm.Word.{add64, sub64, block_size_of, alloc_of, set_header}
use cse320_fall.Sfmm.SizeClass.{num_free_lists}
use cse320_fall.Sfmm.Memory.{
  Heap, prev_footer, header, next, prev, write_prev_footer, write_header, write_next, write_prev,
  list_head, peek_block_size, peek_payload_size,
}

-- The rounds of `init_free_lists` for the lists below `count`, the first one first.
unfoldable pub init_lists_below : ℕ → Heap → Heap
init_lists_below zero h = h
init_lists_below (suc i) h =
    let g = init_lists_below i h in
    let tmp = list_head g i in
    let g' = if next g tmp == 0 then write_next g tmp tmp else g in
    if prev g' tmp == 0 then write_prev g' tmp tmp else g'

unfoldable pub init_free_lists : Heap → Heap
unfolding init_lists_below
init_free_lists h = init_lists_below num_free_lists h

unfoldable pub insert_after : Heap → (before after : ℕ) → Heap × ℕ
insert_after h before after =
    if (before == 0) || (after == 0)
    then (h, 0)
    else let tmp_next = if next h before == 0 then before else next h before in
      let h1 = write_next h before after in
      let h2 = write_prev h1 after before in
      let h3 = write_next h2 after tmp_next in
      let h4 = write_prev h3 tmp_next after in
      let h5 = write_prev_footer h4 after (header h4 before) in
      (write_prev_footer h5 tmp_next (header h5 after), after)

-- `p` does not lie between the heap's ends.
unfoldable pub outside : Heap → ℕ → Bool
outside h p = ltb p h.start || ltb h.stop p

-- The branch of `touch_for_heap_update` for an allocated predecessor.
unfoldable pub note_prev_alloc : Heap → (block before after : ℕ) → Heap
unfolding alloc_of
note_prev_alloc h block before after =
    if alloc_of (header h before) == 0
    then h
    else let h1 = write_header h block (bit_or (header h block) 0x4) in
      let h2 = write_prev_footer h1 block (header h1 before) in
      write_prev_footer h2 after (header h2 block)

-- Its branch for a block that is allocated itself.
unfoldable pub note_alloc : Heap → (block after is_current_alloc : ℕ) → Heap
note_alloc h block after is_current_alloc =
    if is_current_alloc == 0
    then h
    else let h1 = write_prev_footer h after (header h block) in
      write_header h1 after (bit_or (header h1 after) 0x4)

unfoldable pub touch_for_heap_update : Heap → ℕ → Heap × ℕ
unfolding add64 sub64 block_size_of alloc_of set_header peek_block_size peek_payload_size outside
    note_prev_alloc note_alloc
touch_for_heap_update h block =
    if block == 0
    then (h, 0)
    else let og_header = header h block in
      let after = add64 block (block_size_of og_header) in
      let before = sub64 block (block_size_of (prev_footer h block)) in
      if outside h after || outside h before
      then (h, 0)
      else let h1 = note_prev_alloc h block before after in
        let is_current_alloc = alloc_of (header h1 block) in
        let h2 =
          if og_header == header h1 block
          then h1
          else write_prev_footer h1 after (header h1 block) in
        let h3 = note_alloc h2 block after is_current_alloc in
        let h4 = write_prev_footer h3 after (header h3 block) in
        let is_next_alloc = alloc_of (header h4 after) in
        let new_header =
          set_header (peek_payload_size h4 after) (peek_block_size h4 after) is_next_alloc
            is_current_alloc in
        (write_header h4 after new_header, block)

-- The links that `isolate_block` makes: the block's neighbours meet, and its own links are NULL.
unfoldable pub unlink : Heap → (block : ℕ) → Heap
unlink h block =
    let after = next h block in
    let before = prev h block in
    let h1 = write_next h before after in
    let h2 = write_prev h1 after before in let h3 = write_next h2 block 0 in write_prev h3 block 0

unfoldable pub isolate_block : Heap → ℕ → Heap × ℕ
unfolding touch_for_heap_update unlink
isolate_block h block =
    if block == 0
    then (h, 0)
    else let after = next h block in
      if after == 0
      then (h, 0)
      else if prev h block == 0
      then (h, 0)
      else ((touch_for_heap_update (unlink h block) after).0, block)

-- The links that `insert_block` makes behind the list's head.
unfoldable pub link_first : Heap → (block head : ℕ) → Heap
link_first h block head =
    let tmp = next h head in
    if (tmp == 0) || (tmp == head)
    then write_prev (write_next (write_prev (write_next h head block) head block) block head) block
        head
    else write_prev (write_next (write_prev (write_next h block tmp) block head) head block) tmp
        block

-- `none` is a negative index.
unfoldable pub insert_block : Heap → ℕ → Option ℕ → Heap × ℕ
unfolding touch_for_heap_update link_first
insert_block h block none = (h, 0)
insert_block h block (some index) =
    if (block == 0) || leb num_free_lists index
    then (h, 0)
    else ((touch_for_heap_update (link_first h block (list_head h index)) block).0, block)

unfoldable pub place_in_wilderness : Heap → ℕ → Heap × ℕ
unfolding alloc_of insert_block isolate_block
place_in_wilderness h blck =
    if alloc_of (header h blck) == 0
    then (let (h1, block) = isolate_block h blck in
        insert_block h1 block (some (num_free_lists - 1)))
    else (h, 0)
