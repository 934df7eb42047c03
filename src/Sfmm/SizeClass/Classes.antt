-- ===== src/Sfmm/SizeClass/Classes.antt =====
-- Which free list `find_allocation_index` (hw3/src/sfmm_block.c) gives to a size.
use cse320_fall.Base.{ℕ, suc, ◌*◌, ◌^◌, ◌<◌, ◌≡◌, some, arith, List, [], ◌∷◌, ltb, if◌then◌else◌}
use cse320_fall.Sfmm.SizeClass.{find_allocation_index}

-- The classes as sfmm.h lists them: the greatest size of each list but the last two, in units of
-- the minimum block size.
abbrev pub bounds : List ℕ
bounds = 1 ∷ 2 ∷ 3 ∷ 5 ∷ 8 ∷ 13 ∷ 21 ∷ 34 ∷ 55 ∷ []

-- The number of bounds below a size.
abbrev pub class_of : List ℕ → ℕ → ℕ
class_of [] n = 0
class_of (b ∷ bs) n = if ltb (b * 32) n then suc (class_of bs n) else 0

-- A size up to 2^31 - 1 goes to the list of the first bound that it does not exceed, and to list 9,
-- which sfmm.h reserves for the wilderness block, if it exceeds 55 minimum blocks.
pub find_allocation_index_lem :
    (n : ℕ) → n < 2 ^ 31 → find_allocation_index n ≡ some (class_of bounds n)
unfolding find_allocation_index
find_allocation_index_lem n h = ground arith
