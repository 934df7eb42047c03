-- ===== src/Grades/Sorting.antt =====
-- Sorting of a table of students, hw2/src/sort.c. The table is the list of its entries, any type of
-- student with any `compare` function, and `outside` is what a read past its end gives.
pub mod Partition
pub mod Ends
pub mod Progress
pub mod Ranges
pub mod Order
use cse320_fall.Base.{
  ℕ, zero, suc, ◌+◌, ◌-◌, ◌/◌, Bool, true, false, not, Option, none, some, List, [], ◌∷◌, ltb, ◌==◌,
  if◌then◌else◌, get_or, set, length,
}
use cse320_fall.Base.Int.{ℤ, pos, negsuc}

abbrev pub is_zero : ℤ → Bool
is_zero (pos n) = n == 0
is_zero (negsuc n) = false

abbrev pub is_positive : ℤ → Bool
is_positive (pos n) = not (n == 0)
is_positive (negsuc n) = false

module _ {A : Type 0} (compare : A → A → ℤ) (outside : A) where
  unfoldable pub swap : List A → (l last : ℕ) → List A
  swap stab l last =
      let temp = get_or stab last outside in set (set stab last (get_or stab l outside)) l temp

  -- The test `c > 0` of the loop after a tie has become `alt`; `alt` is 1 for `true`, -1 for `false`.
  unfoldable pub goes_high : A → A → (alt : Bool) → Bool
  goes_high x pivot alt = if is_zero (compare x pivot) then alt else is_positive (compare x pivot)

  unfoldable pub next_alt : A → A → (alt : Bool) → Bool
  next_alt x pivot alt = if is_zero (compare x pivot) then not alt else alt

  -- The loop of `partition` with `h = l + left`: the table and the final `l`.
  unfoldable pub partition_loop : (left : ℕ) → A → List A → (l : ℕ) → Bool → List A × ℕ
  partition_loop zero pivot stab l alt = (stab, l)
  partition_loop (suc left) pivot stab l alt =
      let x = get_or stab l outside in
      let high = partition_loop left pivot (swap stab l (l + left)) l (next_alt x pivot alt) in
      let low = partition_loop left pivot stab (suc l) (next_alt x pivot alt) in
      if goes_high x pivot alt then high else low

  unfoldable pub partition : List A → (low high : ℕ) → List A × ℕ
  partition stab low high =
      partition_loop (high - low) (get_or stab ((low + high) / 2) outside) stab low true

  -- `none` if the fuel runs out.
  unfoldable pub sorttable : (fuel : ℕ) → List A → (low high : ℕ) → Option (List A)
  unfolding swap goes_high next_alt partition_loop partition
  sorttable zero stab low high = none
  sorttable (suc fuel) stab low high =
      let (split, middle) = partition stab low high in
      let left_half = sorttable fuel split low middle in
      let both : Option (List A) = elim left_half [
        | none ↦ none
        | some t ↦ sorttable fuel t middle high
      ] in
      if low == high then some stab else if low + 1 == high then some split else both
