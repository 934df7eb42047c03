-- ===== src/Sfmm/Coalescing/Walks.antt =====
-- The walks over the heap (hw3/src/sfmm_block.c: `find_last_in_heap`, `get_utilization`) end, and
-- what they return.
use cse320_fall.Base.{
  ℕ, zero, suc, ◌+◌, ◌*◌, ◌/◌, ◌^◌, ◌≤◌, ◌<◌, ◌≡◌, ◌⊎◌, refl, inl, inr, true, arith, ltb, ◌==◌,
  if◌then◌else◌, Bool-cases,
}
use cse320_fall.Base.Bits.{and_le}
use cse320_fall.Sfmm.Word.{add64, sub64, block_size_of, min_block_size, alignment_size, size_mask}
use cse320_fall.Sfmm.Memory.{Heap, done, header, peek_block_size, peek_payload_size}
use cse320_fall.Sfmm.Coalescing.{last_loop, find_last_in_heap, get_utilization, utilization_loop}

-- A heap in the lower half of the address space, with room for an epilogue.
pub record IsPlaced (h : Heap) : Type 0 where
  pub mapped : 0 < h.start
  pub room : h.start + 16 ≤ h.stop
  pub low : h.stop < 2 ^ 63

-- Block sizes have 28 bits.
block_size_bound : (w : ℕ) → block_size_of w < 2 ^ 28
unfolding block_size_of
block_size_bound w = omega (arith, and_le w size_mask)

last_loop_ends :
    (fuel : ℕ) (h : Heap) (tmp last : ℕ)
    → IsPlaced h
    → h.start ≤ tmp
    → (tmp < h.stop → min_block_size ≤ block_size_of (header h tmp))
    → h.start ≤ last
    → last < h.stop
    → 0 < fuel
    → h.stop + 32 ≤ tmp + 32 * fuel
    → (l : ℕ) × (last_loop fuel h tmp last ≡ done l) × (h.start ≤ l) × (l < h.stop)
unfolding last_loop
last_loop_ends zero h tmp last v a big b c z f = absurd (omega arith)
last_loop_ends (suc fuel) h tmp last v a big b c z f =
    elim (Bool-cases (ltb tmp (sub64 h.stop alignment_size))) [
      | inr past ↦ rw past (last, refl, b, c)
      | inl before ↦ elim (Bool-cases (ltb (block_size_of (header h after)) min_block_size)) [
        | inl small ↦ rw (before, small) (tmp, refl, a, within before)
        | inr large ↦
            rw (before, large)
              (last_loop_ends fuel h after tmp v (omega (arith, ahead before)) (λ _. ground arith) a
                (within before) (omega (arith, ahead before, within before))
                (omega (arith, ahead before)))
      ]
    ]
  where
    after : ℕ
    after = add64 tmp (block_size_of (header h tmp))

    within : ltb tmp (sub64 h.stop alignment_size) ≡ true → tmp < h.stop
    within before = ground arith

    ahead : ltb tmp (sub64 h.stop alignment_size) ≡ true → tmp + 32 ≤ after
    ahead before = ground (arith, big (within before), block_size_bound (header h tmp))

-- `find_last_in_heap` terminates, with fewer rounds than the heap has room for blocks, and returns
-- NULL or the address of a block of the heap.
pub find_last_in_heap_ends :
    (h : Heap)
    → IsPlaced h
    → (l : ℕ) × (find_last_in_heap h ≡ done l) × ((l ≡ 0) ⊎ ((h.start ≤ l) × (l < h.stop)))
unfolding find_last_in_heap
find_last_in_heap_ends h v =
    elim (Bool-cases (ltb (block_size_of (header h h.start)) min_block_size)) [
      | inl small ↦ (0, ground arith, inl refl)
      | inr large ↦
          let (l, e, a, b) =
            last_loop_ends (sub64 h.stop h.start / min_block_size + 2) h h.start h.start v
              (omega arith) (λ _. ground arith) (omega arith) (omega arith) (omega arith)
              (ground arith) in
          (l, ground (arith, e), inr (a, b))
    ]

utilization_loop_ends :
    (fuel : ℕ) (h : Heap) (tmp total : ℕ)
    → h.stop < 2 ^ 63
    → 0 < fuel
    → h.stop + 1 ≤ tmp + fuel
    → (t : ℕ) × (utilization_loop fuel h tmp total ≡ done t) × (total ≤ t)
unfolding utilization_loop
utilization_loop_ends zero h tmp total low z f = absurd (omega arith)
utilization_loop_ends (suc fuel) h tmp total low z f = elim (Bool-cases (ltb tmp h.stop)) [
  | inr past ↦ rw past (total, refl, omega arith)
  | inl before ↦ elim (Bool-cases (peek_block_size h tmp == 0)) [
    | inl last ↦ rw (before, last) (total, refl, omega arith)
    | inr more ↦
        let (t, e, a) =
          utilization_loop_ends fuel h (add64 tmp (peek_block_size h tmp))
            (total + peek_payload_size h tmp) low (ground arith)
            (ground (arith, block_size_bound (header h tmp))) in
        rw (before, more) (t, e, omega arith)
  ]
]

-- `get_utilization` terminates; it changes nothing but the peak, which never falls and is at least
-- the utilization returned.
pub get_utilization_ends :
    (h : Heap)
    → h.start ≤ h.stop
    → h.stop < 2 ^ 63
    → (peak total : ℕ) × (get_utilization h ≡ done (record h { peak_utilization = peak }, total))
      × (h.peak_utilization ≤ peak)
      × (total ≤ peak)
unfolding get_utilization sub64
get_utilization_ends h p low = elim (Bool-cases (h.start == h.stop)) [
  | inl empty ↦ (h.peak_utilization, 0, rw empty, omega arith, omega arith)
  | inr room ↦
      let (t, e, _) =
        utilization_loop_ends (sub64 h.stop h.start + 1) h h.start 0 low (omega arith)
          (ground arith) in
      (
        if ltb h.peak_utilization t then t else h.peak_utilization,
        t,
        rw (room, e) (ground arith),
        ground arith,
        ground arith,
      )
]
