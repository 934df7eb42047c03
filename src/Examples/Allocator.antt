-- ===== src/Examples/Allocator.antt =====
-- The allocator of hw3 run from an empty heap, as the first tests of hw3/tests/sfmm_tests.c do, and
-- on small heaps written out.
use cse320_fall.Base.{
  List, ltb, zero, suc, All, [], ◌∷◌, ℕ, ◌+◌, ◌-◌, ◌*◌, ◌%◌, ◌^◌, ◌≤◌, ◌<◌, ◌≡◌, ◌≢◌, ◌⊎◌, refl,
  none, some, arith, leb, ◌==◌, if◌then◌else◌,
}
use cse320_fall.Base.Int.{negsuc}
use cse320_fall.Sfmm.Memory.{
  Heap, next, prev, list_head, Run, done, aborted, out_of_fuel, ◌>>=◌, header, enomem,
}
use cse320_fall.Sfmm.Word.{set_header, payload_size_of, block_size_of, alloc_of, prev_alloc_of}
use cse320_fall.Sfmm.Word.Header.{set_header_fields}
use cse320_fall.Sfmm.SizeClass.{find_allocation_index, calculate_block_size}
use cse320_fall.Sfmm.SizeClass.Rounding.{calculate_block_size_bounds, calculate_block_size_wraps}
use cse320_fall.Sfmm.SizeClass.Classes.{find_allocation_index_lem}
use cse320_fall.Sfmm.Lists.{init_free_lists, insert_block, link_first, unlink}
use cse320_fall.Sfmm.Lists.Ring.{Nodes, IsRing, link_first-IsRing, unlink-IsRing}
use cse320_fall.Sfmm.Coalescing.{find_last_in_heap, do_coalesce}
use cse320_fall.Sfmm.Coalescing.Walks.{IsPlaced}
use cse320_fall.Sfmm.Allocation.{find_fit, found, sf_malloc, epilogue_of}
use cse320_fall.Sfmm.Allocation.FirstFit.{IsNode, first_fit, lists_from, find_fit-first_fit}
use cse320_fall.Sfmm.Allocation.Failure.{sf_malloc_null}
use cse320_fall.Sfmm.Release.{
  freeable, free_allocated_block, sf_free, sf_realloc, resize, can_realloc_without_splinter,
  realloc_block, settle, or_abort,
}
use cse320_fall.Sfmm.Release.Rejects.{sf_free-epilogue_of}

-- A heap that may grow to `limit`, one page at a time.
abbrev grow_to : ℕ → Heap → Heap × ℕ
grow_to limit h =
    if leb (h.stop + 4096) limit then (record h { stop = h.stop + 4096 }, h.stop) else (h, 0)

abbrev empty_heap : Heap
empty_heap = record {
  word = λ a. 0;
  start = 0x10000;
  stop = 0x10000;
  heads = 0x1000;
  peak_utilization = 0;
  sf_errno = none;
}

-- The pointer, the heap's end and the block's header after a run.
abbrev pick : Run (Heap × ℕ) → Run (ℕ × ℕ × ℕ)
pick r = r >>= λ p. done (p.1, (p.0).stop, header p.0 (p.1 - 16))

first_malloc :
    pick (sf_malloc (grow_to 0x14000) empty_heap 4) ≡ done (0x10030, 0x11000, 0x40000002C)
unfolding sf_malloc do_coalesce
first_malloc = refl

too_large : pick (sf_malloc (grow_to 0x14000) empty_heap 20000) ≡ done (0, 0x14000, 0)
unfolding sf_malloc do_coalesce
too_large = refl

shrinking :
    pick
      (sf_malloc (grow_to 0x14000) empty_heap 400 >>= λ p. sf_realloc (grow_to 0x14000) p.0 p.1 80)
    ≡ done (0x10030, 0x11000, 343597383788)
unfolding sf_malloc sf_realloc do_coalesce resize can_realloc_without_splinter realloc_block settle
shrinking = refl

set_header_fields_example :
    (payload_size_of (set_header 20 48 1 0) ≡ 20)
    × (block_size_of (set_header 20 48 1 0) ≡ 48)
    × (alloc_of (set_header 20 48 1 0) ≡ 1)
    × (prev_alloc_of (set_header 20 48 1 0) ≡ 0)
set_header_fields_example =
    set_header_fields {payload = 20} {block = 48}
      (record { payload_fits = omega arith; block_fits = omega arith; aligned = refl }) 1 0

calculate_block_size_bounds_example :
    (calculate_block_size 20 % 16 ≡ 0)
    × (20 + 16 ≤ calculate_block_size 20)
    × (32 ≤ calculate_block_size 20)
    × ((calculate_block_size 20 < 20 + 32) ⊎ (calculate_block_size 20 ≡ 32))
calculate_block_size_bounds_example = calculate_block_size_bounds 20 (omega arith) (omega arith)

calculate_block_size_wraps_example :
    calculate_block_size (100 + 1 * 2 ^ 32) ≡ calculate_block_size 100
calculate_block_size_wraps_example = calculate_block_size_wraps 100 1 (omega arith) (omega arith)

find_allocation_index_lem_example : find_allocation_index 1000 ≡ some 7
find_allocation_index_lem_example = find_allocation_index_lem 1000 (omega arith)

-- A page with a prologue, an allocated block of 64 bytes with a payload of 40, a free block of 32
-- bytes, and the epilogue behind it.
abbrev page_word : ℕ → ℕ
page_word a =
    if a == 0x10008
    then set_header 0 32 1 0
    else if a == 0x10020
    then set_header 0 32 1 0
    else if a == 0x10028
    then set_header 40 64 1 1
    else if a == 0x10060
    then set_header 40 64 1 1
    else if a == 0x10068
    then set_header 0 32 0 1
    else if a == 0x10070
    then 0x1000
    else if a == 0x10078
    then 0x1000
    else if a == 0x1010
    then 0x10060
    else if a == 0x1018
    then 0x10060
    else if a == 0x10080
    then set_header 0 32 0 1
    else if a == 0x10088
    then set_header 0 0 1 0
    else 0

abbrev page : Heap
page = record {
  word = page_word;
  start = 0x10000;
  stop = 0x10090;
  heads = 0x1000;
  peak_utilization = 30;
  sf_errno = none;
}

page-IsPlaced : IsPlaced page
page-IsPlaced = record { mapped = omega arith; room = omega arith; low = omega arith }

page_last : find_last_in_heap page ≡ done 0x10060
unfolding find_last_in_heap set_header
page_last = refl

page_fit : find_fit 12 page 0 0x10060 32 ≡ done (found 0x10060)
unfolding find_fit set_header
page_fit = refl

abbrev no_memory : Heap
no_memory = record (init_free_lists empty_heap) { sf_errno = some enomem }

malloc_fails : sf_malloc (λ h. (h, 0)) empty_heap 4 ≡ done (no_memory, 0)
unfolding sf_malloc
malloc_fails = refl

sf_malloc_null_example : no_memory.sf_errno ≡ some enomem
sf_malloc_null_example =
    sf_malloc_null (λ h. (h, 0)) empty_heap no_memory 4 (omega arith) (omega arith) malloc_fails

abbrev heap_of : Run Heap → Heap
heap_of (done h) = h
heap_of aborted = empty_heap
heap_of out_of_fuel = empty_heap

page_freed : sf_free page 0x10030 ≡ done (heap_of (sf_free page 0x10030))
unfolding sf_free free_allocated_block freeable settle do_coalesce set_header epilogue_of
    insert_block find_last_in_heap
page_freed = refl

-- 0x10090 is the end of the page, behind its epilogue.
sf_free-epilogue_of_example :
    (sf_free page 0x10090 ≡ (free_allocated_block page (epilogue_of page) >>= or_abort))
    × (free_allocated_block page (epilogue_of page) ≢ done (page, negsuc 0))
unfolding epilogue_of alloc_of set_header
sf_free-epilogue_of_example =
    sf_free-epilogue_of page page 0 refl (omega arith) (omega arith) (omega arith) refl refl

page-IsRing : IsRing page 0x1000 (0x10060 ∷ [])
page-IsRing = ((refl, refl), (refl, refl))

page-Nodes : Nodes 0x1000 (0x10020 ∷ 0x10060 ∷ [])
page-Nodes = record {
  head_block = (refl, omega arith);
  blocks = ((refl, omega arith), ((refl, omega arith), tt));
  head_apart = (omega arith, (omega arith, tt));
  distinct = ((omega arith, tt), (tt, tt));
}

link_first-IsRing_example : IsRing (link_first page 0x10020 0x1000) 0x1000 (0x10020 ∷ 0x10060 ∷ [])
link_first-IsRing_example =
    link_first-IsRing page 0x10020 0x1000 (0x10060 ∷ []) page-Nodes page-IsRing

abbrev linked_page : Heap
linked_page = link_first page 0x10020 0x1000

unlink-IsRing_example :
    IsRing (unlink linked_page 0x10060) 0x1000 (0x10020 ∷ [])
    × (next (unlink linked_page 0x10060) 0x10060 ≡ 0)
    × (prev (unlink linked_page 0x10060) 0x10060 ≡ 0)
unlink-IsRing_example =
    unlink-IsRing linked_page 0x10060 0x1000 (0x10020 ∷ []) [] page-Nodes
      (link_first-IsRing page 0x10020 0x1000 (0x10060 ∷ []) page-Nodes page-IsRing)

-- The page with the rings of the other lists round their heads.
abbrev ringed : Heap
ringed = record page {
  word = λ a.
      if a == 0x1010
      then 0x10060
      else if a == 0x1018
      then 0x10060
      else if ltb a 0x1140
      then (if a % 32 == 16 then a - 16 else if a % 32 == 24 then a - 24 else 0)
      else page_word a;
}

abbrev ringed_lists : ℕ → List ℕ
ringed_lists zero = 0x10060 ∷ []
ringed_lists (suc i) = []

ringed-IsRing : (i : ℕ) → i < 10 → IsRing ringed (list_head ringed i) (ringed_lists i)
ringed-IsRing zero l = ((refl, refl), (refl, refl))
ringed-IsRing (suc i) l = (ground arith, ground arith)

ringed-IsNode : (i : ℕ) → i < 10 → All (IsNode (list_head ringed i)) (ringed_lists i)
ringed-IsNode zero l = ((omega arith, omega arith), tt)
ringed-IsNode (suc i) l = tt

find_fit-first_fit_example :
    find_fit 12 ringed 0 (next ringed 0x1000) 32
    ≡ done (first_fit ringed 32 (lists_from ringed_lists 10 0))
find_fit-first_fit_example =
    find_fit-first_fit ringed ringed_lists (record { ring = ringed-IsRing; nodes = ringed-IsNode })
      32 12 9 0 (omega arith) (omega arith)

-- And it comes back from coalescing.
epilogue_freed : sf_free page 0x10090 ≡ done (heap_of (sf_free page 0x10090))
unfolding sf_free free_allocated_block freeable settle do_coalesce set_header epilogue_of
    insert_block find_last_in_heap
epilogue_freed = refl
