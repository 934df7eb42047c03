-- ===== src/Sfmm/Release/Rejects.antt =====
-- The pointer behind the heap, which `sf_free` (hw3/src/sfmm.c) accepts, and what `update_payload_size`
-- (hw3/src/sfmm_block.c) leaves in a block.
use cse320_fall.Base.{
  ℕ, zero, suc, false, ◌==◌, ◌+◌, ◌-◌, refl, ◌%◌, ◌^◌, ◌≤◌, ◌<◌, ◌≡◌, ◌≢◌, ap, ◌∙◌, some, arith,
}
use cse320_fall.Base.Int.{ℤ, pos, negsuc}
use cse320_fall.Sfmm.Word.{add64, sub64, block_size_of, alloc_of, prev_alloc_of, set_header}
use cse320_fall.Sfmm.Word.Header.{Fits, set_header_fields}
use cse320_fall.Sfmm.SizeClass.{find_allocation_index}
use cse320_fall.Sfmm.Memory.{
  Heap, Run, done, aborted, out_of_fuel, ◌>>=◌, header, prev_footer, write_header,
  write_prev_footer, peek_block_size, peek_payload_size,
}
use cse320_fall.Sfmm.Allocation.{epilogue_of}
use cse320_fall.Sfmm.Release.{
  freeable, free_allocated_block, or_abort, sf_free, update_payload_size,
}

-- The fields of an epilogue.
epilogue_fields :
    (prev : ℕ)
    → prev < 2
    → (block_size_of (set_header 0 0 1 prev) ≡ 0)
      × (alloc_of (set_header 0 0 1 prev) ≡ 1)
      × (prev_alloc_of (set_header 0 0 1 prev) ≡ prev)
unfolding set_header block_size_of alloc_of prev_alloc_of
epilogue_fields zero flag = (refl, refl, refl)
epilogue_fields (suc zero) flag = (refl, refl, refl)
epilogue_fields (suc (suc prev)) flag = absurd (omega arith)

least_class : find_allocation_index 0 ≡ some 0
unfolding find_allocation_index
least_class = refl

-- The guards let an epilogue pass, as a block of list 0.
freeable-epilogue_of :
    (h : Heap) (prev : ℕ)
    → h.stop % 16 ≡ 0
    → h.start + 48 ≤ h.stop
    → h.stop < 2 ^ 64
    → prev < 2
    → header h (epilogue_of h) ≡ set_header 0 0 1 prev
    → alloc_of (prev_footer h (epilogue_of h)) ≡ prev
    → freeable h (epilogue_of h) ≡ some 0
unfolding freeable
freeable-epilogue_of h prev whole room low flag head foot =
    let (size, alloc, flagged) = epilogue_fields prev flag in
    let place : epilogue_of h ≡ h.stop - 16 = unfold epilogue_of sub64 in omega arith in
    let behind : add64 h.start 32 ≤ epilogue_of h = unfold add64 in omega (arith, place) in
    let e = epilogue_of h in
    let index : find_allocation_index (block_size_of (header h e)) ≡ some 0 =
      ap find_allocation_index (ap block_size_of head ∙ size) ∙ least_class in
    let taken : alloc_of (header h e) ≡ 1 = ap alloc_of head ∙ alloc in
    let agrees : prev_alloc_of (header h e) ≡ prev = ap prev_alloc_of head ∙ flagged in
    rw (freeable, index) (ground (arith, place))

abbrev succeeded : Heap → Run (Heap × ℤ)
succeeded h = done (h, pos 0)

done-negsuc : (r : Run Heap) (h' : Heap) → (r >>= succeeded) ≢ done (h', negsuc 0)
done-negsuc (done h) h' = ground arith
done-negsuc aborted h' = ground arith
done-negsuc out_of_fuel h' = ground arith

-- In a heap of at least 48 bytes whose end is aligned and that ends with an epilogue of size 0, marked
-- allocated, whose previous-allocation bit agrees with the footer before it, `sf_free` takes the
-- pointer just behind the heap for a block: `free_allocated_block` does not return -1.
pub sf_free-epilogue_of :
    (h h' : Heap) (prev : ℕ)
    → h.stop % 16 ≡ 0
    → h.start + 48 ≤ h.stop
    → h.stop < 2 ^ 64
    → prev < 2
    → header h (epilogue_of h) ≡ set_header 0 0 1 prev
    → alloc_of (prev_footer h (epilogue_of h)) ≡ prev
    → (sf_free h h.stop ≡ (free_allocated_block h (epilogue_of h) >>= or_abort))
      × (free_allocated_block h (epilogue_of h) ≢ done (h', negsuc 0))
unfolding sf_free free_allocated_block epilogue_of
sf_free-epilogue_of h h' prev whole room low flag head foot =
    let not_null : (h.stop == 0) ≡ false = ground arith in
    let passes = freeable-epilogue_of h prev whole room low flag head foot in
    (rw not_null refl, rw (passes, free_allocated_block) (done-negsuc _ h'))

-- Where the block's size fits a header and the next block lies before the epilogue,
-- `update_payload_size` stores the new payload size, keeps the block's size and its two flags, and
-- writes the same header behind the block.
pub update_payload_size_lem :
    (h : Heap) (sfb update : ℕ)
    → 0 < sfb
    → Fits update (peek_block_size h sfb)
    → 32 ≤ peek_block_size h sfb
    → sfb + peek_block_size h sfb ≤ epilogue_of h
    → h.stop < 2 ^ 64
    → (h' : Heap) × (update_payload_size h sfb update ≡ (h', sfb))
      × (peek_payload_size h' sfb ≡ update)
      × (peek_block_size h' sfb ≡ peek_block_size h sfb)
      × (prev_footer h' (sfb + peek_block_size h sfb) ≡ header h' sfb)
unfolding update_payload_size peek_payload_size peek_block_size epilogue_of add64 sub64
update_payload_size_lem h sfb update p fits large inside low =
    let size = peek_block_size h sfb in
    let stored = set_header update size (alloc_of (header h sfb)) (prev_alloc_of (header h sfb)) in
    (
      write_prev_footer (write_header h sfb stored) (sfb + size) stored,
      ground arith,
      ground
          (arith, set_header_fields fits (alloc_of (header h sfb)) (prev_alloc_of (header h sfb))),
      ground
          (arith, set_header_fields fits (alloc_of (header h sfb)) (prev_alloc_of (header h sfb))),
      ground arith,
    )
