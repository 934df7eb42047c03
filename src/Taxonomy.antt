-- ===== src/Taxonomy.antt =====
-- The options and the helpers of the tree builder, hw1/src/validargs.c, compare.c and util.c. A C
-- string is the list of its bytes up to the NUL.
pub mod Arguments
pub mod Helpers
use cse320_fall.Base.{
  ℕ, zero, suc, ◌+◌, ◌*◌, ◌/◌, ◌%◌, Bool, true, false, not, Option, none, some, List, [], ◌∷◌, ltb,
  ◌==◌, if◌then◌else◌, get_or, set, bit_and, bit_or,
}

-- The bytes in front of the two pointers where the loop of `compareStrings` ends; `p1` and `p2`
-- are those in front of the strings.
unfoldable pub last_chars : (p1 p2 : ℕ) → List ℕ → List ℕ → ℕ × ℕ
last_chars p1 p2 [] [] = (p1, p2)
last_chars p1 p2 [] (b ∷ str2) = (0, b)
last_chars p1 p2 (a ∷ str1) [] = (a, 0)
last_chars p1 p2 (a ∷ str1) (b ∷ str2) =
    let walked = last_chars a b str1 str2 in if a == b then walked else (a, b)

unfoldable pub compare_strings : (p1 p2 : ℕ) → List ℕ → List ℕ → Bool
unfolding last_chars
compare_strings p1 p2 str1 str2 = let (c1, c2) = last_chars p1 p2 str1 str2 in c1 == c2

abbrev pub help_option : ℕ
help_option = 1

abbrev pub newick_option : ℕ
newick_option = 2

abbrev pub matrix_option : ℕ
matrix_option = 4

abbrev pub dash : ℕ → List ℕ
dash c = b'-' ∷ c ∷ []

pub record Options : Type 0 where
  pub global_options : ℕ
  pub outlier_name : Option (List ℕ)

-- The bytes in front of an argument and of a string constant.
module _ (p1 p2 : ℕ) where
  abbrev is_option : List ℕ → ℕ → Bool
  is_option arg c = compare_strings p1 p2 arg (dash c)

  abbrev add_option : Options → ℕ → Options
  add_option o bit = record o { global_options = bit_or o.global_options bit }

  -- What an argument other than `-o` does: whether the loop goes on, and its result if it does not.
  unfoldable pub plain_argument : (first : Bool) → Options → List ℕ → Options × Bool × Bool
  plain_argument first o arg =
      if is_option arg b'h'
      then (if first then (add_option o help_option, false, true) else (o, false, false))
      else if is_option arg b'm'
      then (if o.global_options == 0
          then (add_option o matrix_option, true, true)
          else (o, false, false))
      else if is_option arg b'n'
      then (if o.global_options == 0
          then (add_option o newick_option, true, true)
          else (o, false, false))
      else (o, false, false)

  -- The loop of `validargs` over the arguments from `argv[1]` on; `first` is `i == 2`. The result
  -- `true` stands for 0, `false` for -1.
  unfoldable pub args_loop : (first : Bool) → Options → List (List ℕ) → Options × Bool
  args_loop first o [] = (o, true)
  args_loop first o (arg ∷ []) =
      let (o1, goes_on, result) = plain_argument first o arg in (o1, result)
  args_loop first o (arg ∷ name ∷ args) =
      let (o1, goes_on, result) = plain_argument first o arg in
      let next = args_loop false o1 (name ∷ args) in
      let named = args_loop false (record o { outlier_name = some name }) args in
      if is_option arg b'o'
      then (if bit_and o.global_options newick_option == newick_option then named else (o, false))
      else if goes_on
      then next
      else (o1, result)

  unfoldable pub validargs : List (List ℕ) → Options × Bool
  unfolding args_loop plain_argument
  validargs args = args_loop true (record { global_options = 0; outlier_name = none }) args

-- `memorycpy` in a memory that holds both ranges; the pointer that it returns is `dest + size`.
unfoldable pub memorycpy : List ℕ → (dest src size : ℕ) → List ℕ
memorycpy mem dest src zero = mem
memorycpy mem dest src (suc size) =
    memorycpy (set mem dest (get_or mem src 0)) (suc dest) (suc src) size

unfoldable pub memoryset : List ℕ → (src c size : ℕ) → List ℕ
memoryset mem src c zero = mem
memoryset mem src c (suc size) = memoryset (set mem src (c % 256)) (suc src) c size

-- The loop of `stringifyNumber`: the leading part of the number, and the power of ten below it.
unfoldable pub leading : (fuel i j : ℕ) → ℕ × ℕ
leading zero i j = (i, j)
leading (suc fuel) i j =
    let rest = leading fuel (i / 10) (j * 10) in if ltb 10 i then rest else (i, j)

-- The bytes that `stringifyNumber` writes from `pos` on, without the NUL; `none` if the fuel runs out.
unfoldable pub stringify_number : (fuel num : ℕ) → Option (List ℕ)
unfolding leading
stringify_number zero num = none
stringify_number (suc fuel) num =
    let (i, j) = leading num num 1 in
    let rest = stringify_number fuel (num % j) in
    if ltb num 10
    then some ((num + b'0') ∷ [])
    else elim rest [ none ↦ none | some s ↦ some ((i + b'0') ∷ s) ]

-- A matrix of `double`, of which only tests are used.
module _ {D : Type 0} (is_zero : D → Bool) (equal : D → D → Bool) where
  -- `while (i < n && !matrix[i * n + i] && i++);`, which reads the old value of `i` last.
  unfoldable pub diagonal : (fuel : ℕ) → (ℕ → D) → (n i : ℕ) → ℕ
  diagonal zero matrix n i = i
  diagonal (suc fuel) matrix n i =
      let rest = diagonal fuel matrix n (suc i) in
      if ltb i n
      then (if is_zero (matrix (i * n + i)) then (if i == 0 then suc i else rest) else i)
      else i

  -- The columns `j` below `i`.
  unfoldable pub row_matches : (j : ℕ) → (ℕ → D) → (n i : ℕ) → Bool
  row_matches zero matrix n i = true
  row_matches (suc j) matrix n i =
      let before = row_matches j matrix n i in
      if before then equal (matrix (j * n + i)) (matrix (i * n + j)) else false

  unfoldable pub rows_match : (i : ℕ) → (ℕ → D) → (n : ℕ) → Bool
  rows_match zero matrix n = true
  rows_match (suc i) matrix n =
      let before = rows_match i matrix n in if before then row_matches i matrix n i else false

  unfoldable pub check_identity_matrix : (ℕ → D) → (n : ℕ) → Bool
  unfolding diagonal row_matches rows_match
  check_identity_matrix matrix n =
      if ltb (diagonal (suc n) matrix n 0) n then false else rows_match n matrix n
