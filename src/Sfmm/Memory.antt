-- ===== src/Sfmm/Memory.antt =====
-- The allocator's memory: the heap between `sf_mem_start()` and `sf_mem_end()`, the array
-- `sf_free_list_heads`, and its globals (hw3/include/sfmm.h, hw3/src/sfmm_block.c). Memory is a map
-- from addresses to 64-bit words, a pointer is an address and NULL is 0; each field of `sf_block` is
-- a word. A read or a write at an address outside of the heap, a fault in C, reads or writes
-- that address's word.
use cse320_fall.Base.{ℕ, ◌+◌, ◌*◌, Option, none, some, ◌==◌, if◌then◌else◌}
use cse320_fall.Sfmm.Word.{block_size_of, payload_size_of, alloc_of}

pub data Errno : Type 0 where
  einval enomem : Errno

pub record Heap : Type 0 where
  pub word : ℕ → ℕ
  pub start : ℕ
  pub stop : ℕ
  pub heads : ℕ
  pub peak_utilization : ℕ
  pub sf_errno : Option Errno

-- How a call ends: with a result, by `abort()`, or with the model's fuel used up.
pub data Run {ℓ} (A : Type ℓ) : Type ℓ where
  done : A → Run A
  aborted : Run A
  out_of_fuel : Run A

infixl 5 ◌>>=◌
abbrev pub ◌>>=◌ {ℓ κ} : {A : Type ℓ} {B : Type κ} → Run A → (A → Run B) → Run B
done a >>= f = f a
aborted >>= f = aborted
out_of_fuel >>= f = out_of_fuel

abbrev pub update : (ℕ → ℕ) → ℕ → ℕ → ℕ → ℕ
update m a v b = if b == a then v else m b

abbrev pub write : Heap → ℕ → ℕ → Heap
write h a v = record h { word = update h.word a v }

-- The fields of `sf_block`: the footer of the block before it, its header, and its two links.
abbrev pub prev_footer : Heap → ℕ → ℕ
prev_footer h b = h.word b

abbrev pub header : Heap → ℕ → ℕ
header h b = h.word (b + 8)

abbrev pub next : Heap → ℕ → ℕ
next h b = h.word (b + 16)

abbrev pub prev : Heap → ℕ → ℕ
prev h b = h.word (b + 24)

abbrev pub write_prev_footer : Heap → ℕ → ℕ → Heap
write_prev_footer h b v = write h b v

abbrev pub write_header : Heap → ℕ → ℕ → Heap
write_header h b v = write h (b + 8) v

abbrev pub write_next : Heap → ℕ → ℕ → Heap
write_next h b v = write h (b + 16) v

abbrev pub write_prev : Heap → ℕ → ℕ → Heap
write_prev h b v = write h (b + 24) v

-- `&sf_free_list_heads[index]`.
abbrev pub list_head : Heap → ℕ → ℕ
list_head h index = h.heads + 32 * index

unfoldable pub peek_block_size : Heap → ℕ → ℕ
unfolding block_size_of
peek_block_size h sfb = if sfb == 0 then 0 else block_size_of (header h sfb)

unfoldable pub peek_payload_size : Heap → ℕ → ℕ
unfolding payload_size_of
peek_payload_size h sfb = if sfb == 0 then 0 else payload_size_of (header h sfb)

-- `none` for the result -1.
unfoldable pub is_allocated : Heap → ℕ → Option ℕ
unfolding alloc_of
is_allocated h sfb = if sfb == 0 then none else some (alloc_of (header h sfb))
