-- ===== src/Sfmm/SizeClass.antt =====
-- Sizes of blocks and the free list of a size (hw3/src/sfmm_block.c: `fibber`, `fib`,
-- `find_between_fibonacci`, `find_allocation_index`, `calculate_block_size`).
pub mod Rounding
pub mod Classes
use cse320_fall.Base.{
  ℕ, zero, suc, ◌+◌, ◌-◌, ◌*◌, ◌%◌, ◌^◌, Bool, Option, none, some, ltb, ◌==◌, if◌then◌else◌,
}
use cse320_fall.Base.Int.{ℤ, pos, negsuc}
use cse320_fall.Sfmm.Word.{
  add64, int_of_size, size_of_int, is_negative, header_size, footer_size, alignment_size,
  min_block_size,
}

-- `n` is never negative where the code calls it.
unfoldable pub fibber : (n a b : ℕ) → ℕ
fibber zero a b = a
fibber (suc zero) a b = b
fibber (suc (suc n)) a b = fibber (suc n) b (a + b)

unfoldable pub fib : ℕ → ℕ
unfolding fibber
fib n = fibber n 1 2

abbrev pub num_free_lists : ℕ
num_free_lists = 10

-- The result of `find_between_fibonacci` and what it stores through `left` and `right`.
pub record Between : Type 0 where
  pub index : ℕ
  pub left : ℤ
  pub right : ℤ

-- The loop from `i` on; `none` if the fuel runs out.
unfoldable pub between_loop : (fuel : ℕ) → (n limit i : ℕ) → (left right : ℤ) → Option Between
unfolding fib
between_loop zero n limit i left right = none
between_loop (suc fuel) n limit i left right =
    let rest = between_loop fuel n limit (suc i) right (pos (fib i)) in
    if ltb (fib i * min_block_size) n
    then (if ltb limit i
        then some (record { index = i; left = negsuc 0; right = negsuc 0 })
        else rest)
    else some (record { index = i; left = left; right = right })

-- `none` for the result -1, where nothing is stored. `n` is an `int` and `limit` is at least 0.
unfoldable pub find_between_fibonacci : (n limit : ℕ) → Option Between
unfolding between_loop is_negative
find_between_fibonacci n limit =
    if is_negative n
    then none
    else if n == 0
    then some (record { index = 0; left = pos 0; right = pos 0 })
    else between_loop (limit + 2) n limit 0 (pos 0) (pos 1)

-- `none` for -1.
unfoldable pub find_allocation_index : ℕ → Option ℕ
unfolding find_between_fibonacci int_of_size
find_allocation_index total_bytes =
    elim (find_between_fibonacci (int_of_size total_bytes) (num_free_lists - 2)) [
      | none ↦ none
      | some b ↦ some b.index
    ]

-- `total_size % 16` of a negative `int` is that of its pattern less 16.
unfoldable pub added_size : ℕ → ℕ
unfolding is_negative
added_size total_size =
    if total_size % alignment_size == 0
    then 0
    else if is_negative total_size
    then alignment_size + alignment_size - total_size % alignment_size
    else alignment_size - total_size % alignment_size

unfoldable pub calculate_block_size : ℕ → ℕ
unfolding add64 int_of_size size_of_int added_size
calculate_block_size size =
    if size == 0
    then 0
    else let size_to_use = if ltb size 16 then 16 else int_of_size size in
      let total_size =
        int_of_size (add64 (add64 (size_of_int size_to_use) header_size) footer_size) in
      size_of_int (int_of_size (total_size + added_size total_size))
