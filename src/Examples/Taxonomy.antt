-- ===== src/Examples/Taxonomy.antt =====
-- The options and helpers of hw1/src on a few inputs.
use cse320_fall.Base.{ℕ, ◌≡◌, refl, false, some, List, [], ◌∷◌, arith, ◌==◌, All}
use cse320_fall.Taxonomy.{dash, validargs, newick_option, stringify_number, check_identity_matrix}
use cse320_fall.Taxonomy.Arguments.{IsByte, outcome, validargs_lem}
use cse320_fall.Taxonomy.Helpers.{check_identity_matrix_lem}

abbrev name : List ℕ
name = b'x' ∷ []

IsByte-pair : (a b : ℕ) → IsByte a → IsByte b → All IsByte (a ∷ b ∷ [])
IsByte-pair a b v w = (v, (w, tt))

abbrev command_line : List (List ℕ)
command_line = dash b'n' ∷ dash b'o' ∷ name ∷ []

command_line-bytes : All (All IsByte) command_line
command_line-bytes = (
  IsByte-pair b'-' b'n' (λ e. ground arith) (λ e. ground arith),
  (IsByte-pair b'-' b'o' (λ e. ground arith) (λ e. ground arith), (((λ e. ground arith), tt), tt)),
)

validargs_lem_example : outcome (validargs 0 1 command_line) ≡ some (newick_option, some name)
validargs_lem_example = validargs_lem 0 1 command_line command_line-bytes

abbrev zeros : ℕ → ℕ
zeros k = 0

check_identity_matrix_lem_example :
    check_identity_matrix (λ d. d == 0) (λ d e. d == e) zeros 3 ≡ false
check_identity_matrix_lem_example = check_identity_matrix_lem (λ d. d == 0) (λ d e. d == e) zeros 3

ten : stringify_number 11 10 ≡ some (b':' ∷ b'0' ∷ [])
unfolding stringify_number
ten = refl
