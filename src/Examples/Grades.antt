-- ===== src/Examples/Grades.antt =====
-- Sorting (hw2/src/sort.c) and score statistics (hw2/src/stats.c) of the gradebook on small inputs.
use cse320_fall.Base.{
  zero, suc, Bool, ◌||◌, if◌then◌else◌, length, ℕ, ◌≡◌, ◌<◌, refl, true, false, some, List, [], ◌∷◌,
  arith, ltb, leb, ◌==◌, get_elem?, count,
}
use cse320_fall.Base.Int.{ℤ, pos, negsuc, sub_ℕ}
use cse320_fall.Grades.Sorting.{is_zero, is_positive, sorttable}
use cse320_fall.Grades.Sorting.Ranges.{IsOrder, IsSorted}
use cse320_fall.Grades.Rosters.{Student, sortroster, comparename, comparescore, checkfordups}
use cse320_fall.Grades.Rosters.Sorted.{
  comparescore-IsOrder, sortroster-IsSorted, checkfordups-IsSorted,
}
use cse320_fall.Grades.Frequencies.{Freqs, do_freqs, do_quantiles}
use cse320_fall.Grades.Templates.{is_valid_template_string}
use cse320_fall.Grades.Templates.Widths.{
  is_valid_template_string-width, is_valid_template_string_zeros,
}
use cse320_fall.Grades.Frequencies as Frequencies
use cse320_fall.Grades.Frequencies.Quantiles.{counted, do_quantiles-do_freqs}
use cse320_fall.Grades.Extremes.{Stats, Sums, do_sums}
use cse320_fall.Grades.Extremes as Extremes

abbrev table : List ℕ
table = 5 ∷ 3 ∷ 8 ∷ 3 ∷ 9 ∷ 1 ∷ []

table_sorted : sorttable sub_ℕ 0 12 table 0 6 ≡ some (1 ∷ 3 ∷ 3 ∷ 5 ∷ 8 ∷ 9 ∷ [])
unfolding sorttable
table_sorted = refl

abbrev counted_score : ℕ → Frequencies.Score
counted_score g = record { grade = g; valid = true; useraw = false }

abbrev scores : List Frequencies.Score
scores = counted_score 7 ∷ counted_score 9 ∷ counted_score 7 ∷ []

abbrev second_bucket : Freqs
second_bucket = record { score = 9; count = 1; numless = 2; numlesseq = 3 }

second_there :
    get_elem? (do_quantiles (do_freqs scores (record { freqs = []; tallied = 0 })).freqs) 1
    ≡ some second_bucket
unfolding do_quantiles do_freqs
second_there = refl

do_quantiles-do_freqs_example :
    (1 ≡ count (λ g. g == 9) (counted scores))
    × (2 ≡ count (λ g. ltb g 9) (counted scores))
    × (3 ≡ count (λ g. leb g 9) (counted scores))
do_quantiles-do_freqs_example = do_quantiles-do_freqs scores 1 second_bucket second_there

abbrev score_in : (section grade : ℕ) → Extremes.Score
score_in section grade = record { grade = grade; section = section; valid = true; useraw = false }

abbrev first_score : Stats
first_score = record { valid = 1; min = 5; max = 5 }

abbrev one_score : Sums
one_score = record { class = first_score; sections = first_score ∷ [] }

abbrev two_scores : List Extremes.Score
two_scores = score_in 0 2 ∷ score_in 0 8 ∷ []

abbrev student : (surname name : List ℕ) → (composite : ℕ) → Student
student surname name composite = record {
  id = [];
  surname = surname;
  name = name;
  composite = composite;
}

abbrev roster : List Student
roster = student (7 ∷ []) (2 ∷ []) 5 ∷ student (8 ∷ []) [] 9 ∷ student (7 ∷ []) (2 ∷ []) 5 ∷ []

abbrev nobody : Student
nobody = student [] [] 0

sortroster-IsSorted_example :
    (sorted : List Student) × (sortroster comparescore nobody roster ≡ some sorted)
    × (length sorted ≡ 3)
    × ((test : Student → Bool) → count test sorted ≡ count test roster)
    × IsSorted comparescore nobody sorted 0 (length sorted)
sortroster-IsSorted_example = sortroster-IsSorted comparescore nobody roster comparescore-IsOrder

-- A `strcmp`.
abbrev lex : List ℕ → List ℕ → ℤ
lex [] [] = pos 0
lex [] (y ∷ ys) = negsuc 0
lex (x ∷ xs) [] = pos 1
lex (x ∷ xs) (y ∷ ys) =
    let rest = lex xs ys in if ltb x y then negsuc 0 else if ltb y x then pos 1 else rest

lex_same : (x : List ℕ) → is_zero (lex x x) ≡ true
lex_same [] = refl
lex_same (c ∷ x) = ground (arith, lex_same x)

lex_opposite :
    (x y : List ℕ)
    → is_positive (lex x y) ≡ true
    → (is_positive (lex y x) || is_zero (lex y x)) ≡ false
lex_opposite [] [] h = absurd (ground arith)
lex_opposite [] (d ∷ y) h = absurd (ground arith)
lex_opposite (c ∷ x) [] h = refl
lex_opposite (c ∷ x) (d ∷ y) h = ground (arith, lex_opposite x y)

lex_mirrored :
    (x y : List ℕ)
    → is_positive (lex x y) ≡ false
    → is_positive (lex y x) ≡ false
    → is_zero (lex x y) ≡ true
lex_mirrored [] [] h k = refl
lex_mirrored [] (d ∷ y) h k = absurd (ground arith)
lex_mirrored (c ∷ x) [] h k = absurd (ground arith)
lex_mirrored (c ∷ x) (d ∷ y) h k = ground (arith, lex_mirrored x y)

lex_between :
    (x p y : List ℕ)
    → is_positive (lex x p) ≡ false
    → (is_positive (lex y p) || is_zero (lex y p)) ≡ true
    → is_positive (lex x y) ≡ false
lex_between [] p [] h k = refl
lex_between [] p (d ∷ y) h k = refl
lex_between (c ∷ x) [] y h k = absurd (ground arith)
lex_between (c ∷ x) (e ∷ p) [] h k = absurd (ground arith)
lex_between (c ∷ x) (e ∷ p) (d ∷ y) h k = ground (arith, lex_between x p y)

lex-IsOrder : IsOrder lex
lex-IsOrder = record {
  same = lex_same;
  opposite = lex_opposite;
  mirrored = lex_mirrored;
  between = lex_between;
}

abbrev by_name : List Student
by_name = student (7 ∷ []) (2 ∷ []) 5 ∷ student (7 ∷ []) (2 ∷ []) 6 ∷ student (8 ∷ []) [] 9 ∷ []

by_name-IsSorted : IsSorted (comparename lex) nobody by_name 0 3
unfolding comparename
by_name-IsSorted i zero p q r = absurd (omega arith)
by_name-IsSorted zero (suc zero) p q r = refl
by_name-IsSorted zero (suc (suc zero)) p q r = refl
by_name-IsSorted zero (suc (suc (suc j))) p q r = absurd (omega arith)
by_name-IsSorted (suc i) (suc zero) p q r = absurd (omega arith)
by_name-IsSorted (suc zero) (suc (suc zero)) p q r = refl
by_name-IsSorted (suc (suc i)) (suc (suc zero)) p q r = absurd (omega arith)
by_name-IsSorted (suc i) (suc (suc (suc j))) p q r = absurd (omega arith)

same_name :
    is_zero (comparename lex (student (7 ∷ []) (2 ∷ []) 5) (student (7 ∷ []) (2 ∷ []) 6)) ≡ true
unfolding comparename
same_name = refl

checkfordups-IsSorted_example : 0 < count (λ s. s.composite == 5) (checkfordups lex by_name)
checkfordups-IsSorted_example =
    checkfordups-IsSorted lex nobody by_name 0 1 (λ s. s.composite == 5) lex-IsOrder
      by_name-IsSorted (omega arith) (omega arith) same_name refl

-- `%12d` is a conversion, `%100d` is refused.
width_12 : is_valid_template_string (b'%' ∷ b'1' ∷ b'2' ∷ b'd' ∷ []) ≡ (pos 1, 3)
width_12 =
    is_valid_template_string-width (b'1' ∷ b'2' ∷ []) b'd' []
      ((omega arith, omega arith), ((omega arith, omega arith), tt)) refl

width_100 : is_valid_template_string (b'%' ∷ b'1' ∷ b'0' ∷ b'0' ∷ b'd' ∷ []) ≡ (negsuc 0, 0)
width_100 =
    is_valid_template_string_zeros (b'1' ∷ []) [] (b'd' ∷ []) ((omega arith, omega arith), tt) tt
