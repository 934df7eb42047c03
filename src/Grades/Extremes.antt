-- ===== src/Grades/Extremes.antt =====
-- The counts and extremes of `do_sums`, hw2/src/stats.c. A grade stands as its place in the order of
-- the finite floats; the sums of grades and of squares, which are floating-point, are left out.
pub mod Sections
use cse320_fall.Base.{
  ℕ, ◌+◌, Bool, ◌||◌, Option, none, some, List, [], ◌∷◌, ltb, ◌==◌, if◌then◌else◌, get_elem?, set,
}

pub record Stats : Type 0 where
  pub valid : ℕ
  pub min : ℕ
  pub max : ℕ

-- The statistics of one assignment: the class's and those of the sections.
pub record Sums : Type 0 where
  pub class : Stats
  pub sections : List Stats

-- A score, with the place of its section and the two facts that `do_sums` asks of it.
pub record Score : Type 0 where
  pub grade : ℕ
  pub section : ℕ
  pub valid : Bool
  pub useraw : Bool

abbrev pub first_grade : Stats → ℕ → Stats
first_grade s g = record { valid = s.valid + 1; min = g; max = g }

-- `if(g < min) min = g; if(g > max) max = g;`
abbrev pub widen : Stats → ℕ → Stats
widen s g = record s {
  min = if ltb g s.min then g else s.min;
  max = if ltb s.max g then g else s.max;
}

abbrev pub one_more : Stats → Stats
one_more s = record s { valid = s.valid + 1 }

-- The class's part of a round.
unfoldable pub add_to_class : Stats → ℕ → Stats
add_to_class csp g = if csp.valid == 0 then first_grade csp g else widen (one_more csp) g

-- The section's part: from its second score on, the section's own count goes up, and the class's
-- extremes are widened.
unfoldable pub add_to_section : (csp ssp : Stats) → ℕ → Stats × Stats
add_to_section csp ssp g =
    if ssp.valid == 0 then (csp, first_grade ssp g) else (widen csp g, one_more ssp)

-- A round of the loop of `do_sums` for a score whose statistics are `s`. A place out of range, a
-- stray pointer in C, leaves them as they are.
unfoldable pub add_score : Sums → Score → Sums
add_score s scp =
    if scp.valid || scp.useraw
    then elim (get_elem? s.sections scp.section) [
      | none ↦ s
      | some ssp ↦
          let (csp, ssp') = add_to_section (add_to_class s.class scp.grade) ssp scp.grade in
          record { class = csp; sections = set s.sections scp.section ssp' }
    ]
    else s

unfoldable pub do_sums : List Score → Sums → Sums
unfolding add_score
do_sums [] s = s
do_sums (scp ∷ rest) s = do_sums rest (add_score s scp)
