-- ===== src/Grades/Extremes/Sections.antt =====
-- The extremes that `do_sums` (hw2/src/stats.c) leaves.
use cse320_fall.Base.{
  ℕ, zero, suc, ◌≤◌, ◌<◌, ◌≡◌, refl, true, ◌||◌, some, List, [], ◌∷◌, arith, get_elem?, set, length,
  Bool-cases, Option-cases, inl, inr, length-set, ◌∙◌,
}
use cse320_fall.Base.Lookups.{get_elem?-in}
use cse320_fall.Grades.Extremes.{
  Stats, Sums, Score, add_to_class, add_to_section, add_score, do_sums,
}

-- A grade lies between the extremes of the class.
abbrev pub IsCovered : ℕ → Stats → Type 0
IsCovered g s = (0 < s.valid) × (s.min ≤ g) × (g ≤ s.max)

-- The scores that are counted have a section among the first `n`, and their grades lie between the
-- extremes.
abbrev pub AllCovered : Stats → List Score → Type 0
AllCovered csp [] = Unit
AllCovered csp (s ∷ ss) = ((s.valid || s.useraw) ≡ true → IsCovered s.grade csp) × AllCovered csp ss

abbrev pub AllPlaced : ℕ → List Score → Type 0
AllPlaced n [] = Unit
AllPlaced n (s ∷ ss) = (s.section < n) × AllPlaced n ss

add_score-length : (s : Sums) (x : Score) → length (add_score s x).sections ≡ length s.sections
unfolding add_score
add_score-length s x = elim (Bool-cases (x.valid || x.useraw)) [
  | inr left ↦ rw left refl
  | inl taken ↦ elim (Option-cases (get_elem? s.sections x.section)) [
    | inl out ↦ rw (taken, out) refl
    | inr (ssp, there) ↦
        rw (taken, there)
          (length-set s.sections x.section
            (add_to_section (add_to_class s.class x.grade) ssp x.grade).1)
  ]
]

add_score-IsCovered :
    (s : Sums) (x : Score) (g : ℕ) → IsCovered g s.class → IsCovered g (add_score s x).class
unfolding add_score add_to_class add_to_section
add_score-IsCovered s x g v = ground arith

add_score_covers :
    (s : Sums) (x : Score)
    → x.section < length s.sections
    → (x.valid || x.useraw) ≡ true
    → IsCovered x.grade (add_score s x).class
unfolding add_score add_to_class add_to_section
add_score_covers s x h c =
    let (t, e) = get_elem?-in s.sections x.section h in rw (c, e) (ground arith)

do_sums-IsCovered :
    (ss : List Score) (s : Sums) (g : ℕ) → IsCovered g s.class → IsCovered g (do_sums ss s).class
unfolding do_sums
do_sums-IsCovered [] s g v = v
do_sums-IsCovered (x ∷ ss) s g v =
    do_sums-IsCovered ss (add_score s x) g (add_score-IsCovered s x g v)

-- Where each score's section is one of the assignment's, the class's extremes after `do_sums`
-- enclose the grade of each score that is counted.
pub do_sums-AllCovered :
    (ss : List Score) (s : Sums)
    → AllPlaced (length s.sections) ss
    → AllCovered (do_sums ss s).class ss
unfolding do_sums
do_sums-AllCovered [] s p = tt
do_sums-AllCovered (x ∷ ss) s p = (
  λ c. do_sums-IsCovered ss (add_score s x) x.grade (add_score_covers s x p.0 c),
  do_sums-AllCovered ss (add_score s x) (rw (add_score-length s x) p.1),
)

-- A section's statistics that have a score, and those that come of them with the same extremes.
abbrev Keeps : Stats → List Stats → ℕ → Type 0
Keeps t ss i =
    (u : Stats) × (get_elem? ss i ≡ some u) × (0 < u.valid) × (u.min ≡ t.min) × (u.max ≡ t.max)

set-Keeps :
    (ss : List Stats) (i j : ℕ) (s t t' : Stats)
    → get_elem? ss i ≡ some t
    → 0 < t.valid
    → get_elem? ss j ≡ some s
    → 0 < t'.valid
    → (0 < s.valid → (t'.min ≡ s.min) × (t'.max ≡ s.max))
    → Keeps t (set ss j t') i
set-Keeps [] i j s t t' e v f w k = absurd (cc)
set-Keeps (x ∷ ss) zero zero s t t' e v f w k = (t', refl, w, ground (arith, k), ground (arith, k))
set-Keeps (x ∷ ss) zero (suc j) s t t' e v f w k = (t, e, v, refl, refl)
set-Keeps (x ∷ ss) (suc i) zero s t t' e v f w k = (t, e, v, refl, refl)
set-Keeps (x ∷ ss) (suc i) (suc j) s t t' e v f w k = set-Keeps ss i j s t t' e v f w k

add_to_section-valid : (csp ssp : Stats) (g : ℕ) → 0 < (add_to_section csp ssp g).1.valid
unfolding add_to_section
add_to_section-valid csp ssp g = ground arith

add_to_section-extremes :
    (csp ssp : Stats) (g : ℕ)
    → 0 < ssp.valid
    → ((add_to_section csp ssp g).1.min ≡ ssp.min) × ((add_to_section csp ssp g).1.max ≡ ssp.max)
unfolding add_to_section
add_to_section-extremes csp ssp g v = ground arith

add_score-Keeps :
    (s : Sums) (x : Score) (i : ℕ) (t : Stats)
    → get_elem? s.sections i ≡ some t
    → 0 < t.valid
    → Keeps t (add_score s x).sections i
unfolding add_score
add_score-Keeps s x i t e v = elim (Bool-cases (x.valid || x.useraw)) [
  | inr left ↦ rw left (t, e, v, refl, refl)
  | inl taken ↦ elim (Option-cases (get_elem? s.sections x.section)) [
    | inl out ↦ rw (taken, out) (t, e, v, refl, refl)
    | inr (ssp, there) ↦
        rw (taken, there)
          (set-Keeps s.sections i x.section ssp t
            (add_to_section (add_to_class s.class x.grade) ssp x.grade).1 e v there
            (add_to_section-valid (add_to_class s.class x.grade) ssp x.grade)
            (add_to_section-extremes (add_to_class s.class x.grade) ssp x.grade))
  ]
]

-- From a section's first score on, `do_sums` leaves the section's extremes as they are, whatever
-- the grades that follow.
pub do_sums-extremes :
    (ss : List Score) (s : Sums) (i : ℕ) (t : Stats)
    → get_elem? s.sections i ≡ some t
    → 0 < t.valid
    → (u : Stats) × (get_elem? (do_sums ss s).sections i ≡ some u)
      × (0 < u.valid)
      × (u.min ≡ t.min)
      × (u.max ≡ t.max)
unfolding do_sums
do_sums-extremes [] s i t e v = (t, e, v, refl, refl)
do_sums-extremes (x ∷ ss) s i t e v =
    let (u, e', v', a, b) = add_score-Keeps s x i t e v in
    let (w, f, v2, c, d) = do_sums-extremes ss (add_score s x) i u e' v' in (w, f, v2, c ∙ a, d ∙ b)
