-- ===== src/Taxonomy/Arguments.antt =====
-- Which arguments `validargs` (hw1/src/validargs.c) accepts, and how strings compare (compare.c).
use cse320_fall.Base.{
  ℕ, ◌≡◌, ◌≢◌, refl, Bool, true, false, ◌&&◌, Option, none, some, List, [], ◌∷◌, arith, ◌==◌,
  if◌then◌else◌, All, Bool-cases, inl, inr,
}
use cse320_fall.Taxonomy.{
  last_chars, compare_strings, Options, help_option, newick_option, matrix_option, dash, is_option,
  plain_argument, args_loop, validargs,
}

abbrev pub same_string : List ℕ → List ℕ → Bool
same_string [] [] = true
same_string [] (b ∷ t) = false
same_string (a ∷ s) [] = false
same_string (a ∷ s) (b ∷ t) = (a == b) && same_string s t

abbrev pub IsByte : ℕ → Type 0
IsByte c = c ≢ 0

compare_tails :
    (p1 p2 : ℕ) (s t : List ℕ)
    → (p1 == p2) ≡ true
    → All IsByte s
    → All IsByte t
    → compare_strings p1 p2 s t ≡ same_string s t
unfolding compare_strings last_chars
compare_tails p1 p2 [] [] e v w = e
compare_tails p1 p2 [] (b ∷ t) e v w = ground (arith, w.0)
compare_tails p1 p2 (a ∷ s) [] e v w = ground (arith, v.0)
compare_tails p1 p2 (a ∷ s) (b ∷ t) e v w = elim (Bool-cases (a == b)) [
  | inl f ↦ rw f (compare_tails a b s t f v.1 w.1)
  | inr f ↦ rw (f, f) refl
]

-- Whatever stands in front of the strings, `compareStrings` says whether they are the same, if they
-- are not both empty.
pub compare_strings_lem :
    (p1 p2 : ℕ) (s : List ℕ) (b : ℕ) (t : List ℕ)
    → All IsByte s
    → All IsByte (b ∷ t)
    → compare_strings p1 p2 s (b ∷ t) ≡ same_string s (b ∷ t)
unfolding compare_strings last_chars
compare_strings_lem p1 p2 [] b t v w = ground (arith, w.0)
compare_strings_lem p1 p2 (a ∷ s) b t v w = elim (Bool-cases (a == b)) [
  | inl f ↦ rw f (compare_tails a b s t f v.1 w.1)
  | inr f ↦ rw (f, f) refl
]

-- The arguments behind `-n`: pairs of `-o` and a name, of which the last name counts.
abbrev pub newick_arguments : Option (List ℕ) → List (List ℕ) → Option (ℕ × Option (List ℕ))
newick_arguments outlier [] = some (newick_option, outlier)
newick_arguments outlier (arg ∷ []) = none
newick_arguments outlier (arg ∷ name ∷ args) =
    let rest = newick_arguments (some name) args in
    if same_string arg (dash b'o') then rest else none

-- The command lines that are accepted: none at all, `-h` and anything, `-m`, or `-n` with pairs.
abbrev pub accepted : List (List ℕ) → Option (ℕ × Option (List ℕ))
accepted [] = some (0, none)
accepted (arg ∷ args) =
    if same_string arg (dash b'h')
    then some (help_option, none)
    else if same_string arg (dash b'm')
    then elim args [ [] ↦ some (matrix_option, none) | _ ↦ none ]
    else if same_string arg (dash b'n')
    then newick_arguments none args
    else none

abbrev pub outcome : Options × Bool → Option (ℕ × Option (List ℕ))
outcome (o, true) = some (o.global_options, o.outlier_name)
outcome (o, false) = none

AreArguments : List (List ℕ) → Type 0
AreArguments = All (All IsByte)

module _ (p1 p2 : ℕ) where
  is_option_lem :
      (arg : List ℕ) (c : ℕ)
      → All IsByte arg
      → c ≢ 0
      → is_option p1 p2 arg c ≡ same_string arg (dash c)
  is_option_lem arg c v n =
      compare_strings_lem p1 p2 arg b'-' (c ∷ []) v (λ e. ground arith, (n, tt))

  -- Once a mode is set, only `-o` goes on.
  plain_argument_fails :
      (o : Options) (arg : List ℕ)
      → (o.global_options == 0) ≡ false
      → plain_argument p1 p2 false o arg ≡ (o, false, false)
  unfolding plain_argument
  plain_argument_fails o arg e = ground (arith, e)

  -- Behind `-n`, and with whatever name given so far.
  newick_loop :
      (outlier : Option (List ℕ)) (args : List (List ℕ))
      → All (All IsByte) args
      → outcome (
          args_loop p1 p2 false
            (record { global_options = newick_option; outlier_name = outlier })
            args)
        ≡ newick_arguments outlier args
  unfolding args_loop
  newick_loop outlier [] v = refl
  newick_loop outlier (arg ∷ []) v =
      rw
        (plain_argument_fails (record { global_options = newick_option; outlier_name = outlier })
          arg refl)
        refl
  newick_loop outlier (arg ∷ name ∷ args) v =
      rw
        (
          plain_argument_fails (record { global_options = newick_option; outlier_name = outlier })
              arg refl,
          is_option_lem arg b'o' v.0 (λ e. ground arith),
        )
        (elim (Bool-cases (same_string arg (dash b'o'))) [
          | inl e ↦ rw e (newick_loop (some name) args v.1.1)
          | inr e ↦ rw e refl
        ])

  matrix_loop :
      (arg : List ℕ) (args : List (List ℕ))
      → outcome (
          args_loop p1 p2 false
            (record { global_options = matrix_option; outlier_name = none })
            (arg ∷ args))
        ≡ none
  unfolding args_loop
  matrix_loop arg [] =
      rw
        (plain_argument_fails (record { global_options = matrix_option; outlier_name = none }) arg
          refl)
        refl
  matrix_loop arg (name ∷ args) =
      rw
        (plain_argument_fails (record { global_options = matrix_option; outlier_name = none }) arg
          refl)
        (elim (Bool-cases (is_option p1 p2 arg b'o')) [ inl e ↦ rw e refl | inr e ↦ rw e refl ])

  abbrev start : Options
  start = record { global_options = 0; outlier_name = none }

  plain_argument_first :
      (arg : List ℕ)
      → All IsByte arg
      → plain_argument p1 p2 true start arg ≡ (
          if same_string arg (dash b'h')
          then (record { global_options = help_option; outlier_name = none }, false, true)
          else if same_string arg (dash b'm')
          then (record { global_options = matrix_option; outlier_name = none }, true, true)
          else if same_string arg (dash b'n')
          then (record { global_options = newick_option; outlier_name = none }, true, true)
          else (start, false, false))
  unfolding plain_argument
  plain_argument_first arg v =
      rw
        (
          is_option_lem arg b'h' v (λ e. ground arith),
          is_option_lem arg b'm' v (λ e. ground arith),
          is_option_lem arg b'n' v (λ e. ground arith),
        )
        refl

  other_option :
      (arg : List ℕ) (c d : ℕ)
      → same_string arg (dash c) ≡ true
      → (c == d) ≡ false
      → same_string arg (dash d) ≡ false
  other_option [] c d e n = refl
  other_option (a ∷ []) c d e n = ground arith
  other_option (a ∷ b ∷ []) c d e n = ground arith
  other_option (a ∷ b ∷ x ∷ arg) c d e n = ground arith

  -- Of arguments without NULs in them, `validargs` accepts exactly the command lines of `accepted`, and
  -- sets the options and the name of the outlier that these give.
  pub validargs_lem :
      (args : List (List ℕ))
      → All (All IsByte) args
      → outcome (validargs p1 p2 args) ≡ accepted args
  unfolding validargs args_loop
  validargs_lem [] v = refl
  validargs_lem (arg ∷ []) v =
      rw (plain_argument_first arg v.0) (elim (Bool-cases (same_string arg (dash b'h'))) [
        | inl h ↦ rw h refl
        | inr h ↦ elim (Bool-cases (same_string arg (dash b'm'))) [
          | inl m ↦ rw (h, m) refl
          | inr m ↦ elim (Bool-cases (same_string arg (dash b'n'))) [
            | inl n ↦ rw (h, m, n) refl
            | inr n ↦ rw (h, m, n) refl
          ]
        ]
      ])
  validargs_lem (arg ∷ name ∷ args) v =
      rw (plain_argument_first arg v.0, is_option_lem arg b'o' v.0 (λ e. ground arith))
        (elim (Bool-cases (same_string arg (dash b'o'))) [
          | inl o ↦
              rw
                (
                  o,
                  other_option arg b'o' b'h' o refl,
                  other_option arg b'o' b'm' o refl,
                  other_option arg b'o' b'n' o refl,
                )
                refl
          | inr o ↦ elim (Bool-cases (same_string arg (dash b'h'))) [
            | inl h ↦ rw (o, h) refl
            | inr h ↦ elim (Bool-cases (same_string arg (dash b'm'))) [
              | inl m ↦ rw (o, h, m) (matrix_loop name args)
              | inr m ↦ elim (Bool-cases (same_string arg (dash b'n'))) [
                | inl n ↦ rw (o, h, m, n) (newick_loop none (name ∷ args) v.1)
                | inr n ↦ rw (o, h, m, n) refl
              ]
            ]
          ]
        ])
