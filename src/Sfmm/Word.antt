-- ===== src/Sfmm/Word.antt =====
-- Words of the allocator (hw3/include/sfmm.h, hw3/src/sfmm_block.c): `size_t` and `int` as bit
-- patterns, pointer arithmetic, and the header of a block with its payload size (32 bits), block
-- size (28 bits, the low 4 being 0), allocation bit 8 and previous-allocation bit 4.
pub mod Header
use cse320_fall.Base.{
  ℕ, ◌+◌, ◌-◌, ◌*◌, ◌/◌, ◌%◌, ◌^◌, Bool, bit_and, bit_or, ltb, ◌==◌, if◌then◌else◌, not,
}

-- `size_t` arithmetic, and with it the arithmetic of `void*`.
unfoldable pub add64 : ℕ → ℕ → ℕ
add64 a b = (a + b) % 2 ^ 64

unfoldable pub sub64 : ℕ → ℕ → ℕ
sub64 a b = (a + 2 ^ 64 - b) % 2 ^ 64

-- `(int)n` and `(size_t)i`, an `int` standing as its 32 bits.
unfoldable pub int_of_size : ℕ → ℕ
int_of_size n = n % 2 ^ 32

unfoldable pub is_negative : ℕ → Bool
is_negative i = not (ltb i (2 ^ 31))

unfoldable pub size_of_int : ℕ → ℕ
unfolding is_negative
size_of_int i = if is_negative i then i + (2 ^ 64 - 2 ^ 32) else i

-- `SFMM_SIZES`: the sizes of `sf_header`, `sf_footer` and `sf_block`, and the alignment.
abbrev pub header_size : ℕ
header_size = 8

abbrev pub footer_size : ℕ
footer_size = 8

abbrev pub alignment_size : ℕ
alignment_size = 16

abbrev pub min_block_size : ℕ
min_block_size = 32

abbrev pub header_width : ℕ
header_width = 64

abbrev pub payload_width : ℕ
payload_width = 32

abbrev pub size_mask : ℕ
size_mask = 0xFFFFFF3

-- The loops over `bit_length` only feed a debug message.
unfoldable pub get_payload_size : ℕ → ℕ
get_payload_size payload_size = (payload_size * 2 ^ (header_width - payload_width)) % 2 ^ 64

unfoldable pub get_block_size : ℕ → ℕ
get_block_size block_size = block_size

unfoldable pub set_header : (payload_size block_size alloc prev_alloc : ℕ) → ℕ
unfolding get_payload_size get_block_size
set_header payload_size block_size alloc prev_alloc =
    let sizes = bit_or (get_payload_size payload_size) (get_block_size block_size) in
    let header = if alloc == 0 then sizes else bit_or sizes 0x8 in
    if prev_alloc == 0 then header else bit_or header 0x4

-- What `peek_block_size`, `peek_payload_size` and the tests of the two bits read from a header.
unfoldable pub block_size_of : ℕ → ℕ
block_size_of header = bit_and header size_mask

unfoldable pub payload_size_of : ℕ → ℕ
payload_size_of header = header / 2 ^ (header_width - payload_width)

unfoldable pub alloc_of : ℕ → ℕ
alloc_of header = bit_and header 0x8 / 2 ^ 3

unfoldable pub prev_alloc_of : ℕ → ℕ
prev_alloc_of header = bit_and header 0x4 / 2 ^ 2
