-- ===== src/Sfmm/Word/Header.antt =====
-- `set_header` and the readers of a header's fields (hw3/src/sfmm_block.c) undo one another.
use cse320_fall.Base.{
  ℕ, ◌+◌, ◌*◌, ◌/◌, ◌%◌, ◌^◌, ◌<◌, ◌≡◌, refl, Bool, true, false, arith, bit_and, bit_or, ◌==◌,
  subst, if◌then◌else◌,
}
use cse320_fall.Base.Bits.{or_low, and_split, and_ones, and_zero}
use cse320_fall.Sfmm.Word.{
  set_header, block_size_of, payload_size_of, alloc_of, prev_alloc_of, get_payload_size,
  get_block_size,
}

-- A flag as the bit that stands for it.
abbrev pub flag : ℕ → ℕ
flag n = if n == 0 then 0 else 1

-- The fields that a header has room for.
pub record Fits (payload block : ℕ) : Type 0 where
  pub payload_fits : payload < 2 ^ 32
  pub block_fits : block < 2 ^ 28
  pub aligned : block % 16 ≡ 0

-- `or` with a bit of an aligned number adds it.
or_bit : (k x b : ℕ) → b < 2 ^ k → x / 2 ^ k * 2 ^ k ≡ x → bit_or x b ≡ x + b
or_bit k x b h e = subst (λ y. bit_or y b ≡ y + b) e (or_low k (x / 2 ^ k) b h)

-- `and` at the low four bits looks only at these.
and_low : (x r m : ℕ) → r < 16 → m < 16 → bit_and (x * 16 + r) m ≡ bit_and r m
and_low x r m hr hm = ground (arith, and_split 4 x r 0 m (omega arith) (omega arith), and_zero x)

-- The payload and the block size of a header, the low bits apart.
and_mask :
    (payload size r : ℕ)
    → size < 2 ^ 24
    → r < 16
    → bit_and ((payload * 16 * 2 ^ 24 + size) * 16 + r) 0xFFFFFF3 ≡ size * 16 + bit_and r 3
and_mask payload size r hs hr = ground (
  arith,
  and_split 4 (payload * 16 * 2 ^ 24 + size) r 0xFFFFFF 3 (omega arith) (omega arith),
  and_split 24 (payload * 16) size 0 0xFFFFFF (omega arith) (omega arith),
  and_zero (payload * 16),
  and_ones 24 size 0xFFFFFF (omega arith) refl,
)

abbrev bit : Bool → ℕ
bit b = if b then 0 else 1

-- What the flags' bits read as.
flags :
    (a p : Bool)
    → (8 * bit a + 4 * bit p < 16)
      × (bit_and (8 * bit a + 4 * bit p) 3 ≡ 0)
      × (bit_and (8 * bit a + 4 * bit p) 8 ≡ 8 * bit a)
      × (bit_and (8 * bit a + 4 * bit p) 4 ≡ 4 * bit p)
flags true true = (omega arith, refl, refl, refl)
flags true false = (omega arith, refl, refl, refl)
flags false true = (omega arith, refl, refl, refl)
flags false false = (omega arith, refl, refl, refl)

module _ {payload block : ℕ} (v : Fits payload block) where
  sizes_sum : bit_or (get_payload_size payload) (get_block_size block) ≡ payload * 2 ^ 32 + block
  unfolding get_payload_size get_block_size
  sizes_sum = ground (arith, or_low 32 payload block (omega arith))

  set_header_sum :
      (alloc prev : ℕ)
      → set_header payload block alloc prev
        ≡ (payload * 16 * 2 ^ 24 + block / 16) * 16 + (8 * flag alloc + 4 * flag prev)
  unfolding set_header
  set_header_sum alloc prev = rw sizes_sum (
      ground (
        arith,
        or_bit 4 (payload * 2 ^ 32 + block) 8 (omega arith) (omega arith),
        or_bit 3 (payload * 2 ^ 32 + block) 4 (omega arith) (omega arith),
        or_bit 3 (payload * 2 ^ 32 + block + 8) 4 (omega arith) (omega arith),
      ))

  -- A header made of a 32-bit payload size, a 28-bit block size that is a multiple of 16, and two
  -- flags gives each of them back, and the bits of one field reach no other.
  pub set_header_fields :
      (alloc prev : ℕ)
      → (payload_size_of (set_header payload block alloc prev) ≡ payload)
        × (block_size_of (set_header payload block alloc prev) ≡ block)
        × (alloc_of (set_header payload block alloc prev) ≡ flag alloc)
        × (prev_alloc_of (set_header payload block alloc prev) ≡ flag prev)
  unfolding payload_size_of block_size_of alloc_of prev_alloc_of
  set_header_fields alloc prev = rw (set_header_sum alloc prev) (
    ground arith,
    ground (
      arith,
      flags (alloc == 0) (prev == 0),
      and_mask payload (block / 16) (8 * flag alloc + 4 * flag prev),
    ),
    ground (
      arith,
      and_low (payload * 16 * 2 ^ 24 + block / 16) (8 * flag alloc + 4 * flag prev) 8,
      flags (alloc == 0) (prev == 0),
    ),
    ground (
      arith,
      and_low (payload * 16 * 2 ^ 24 + block / 16) (8 * flag alloc + 4 * flag prev) 4,
      flags (alloc == 0) (prev == 0),
    ),
  )
