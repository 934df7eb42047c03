-- ===== src/Grades/Normalize/Composites.antt =====
-- The composite scores of hw2/src/normal.c against a sum of weighted terms.
use cse320_fall.Base.{
  ℕ, ◌+◌, ◌≡◌, refl, sym, ap, ◌∙◌, false, List, [], ◌∷◌, ◌++◌, map, ◌==◌, if◌then◌else◌, Bool-cases,
  inl, inr, any, arith,
}
use cse320_fall.Grades.Course.{Doubles, Wpolicy, Assignment, Score, Student, Store}
use cse320_fall.Grades.Normalize.{weigh_scores, weigh_assignments, composites}

module _ (d : Doubles) where
  open d use {Double, to_float, of_int, add, mul}

  -- The weight of an assignment, 1 where it has none.
  abbrev pub weight_of : Assignment Double → Double
  weight_of a = elim a.wpolicy [ Wpolicy.weighted ↦ a.weight | Wpolicy.no_weight ↦ of_int 1 ]

  -- The weighted grades of the scores for the assignment at `k`.
  abbrev pub terms_at : (k : ℕ) → Assignment Double → List (Score Double) → List Double
  terms_at k a [] = []
  terms_at k a (scp ∷ rest) =
      let onward = terms_at k a rest in
      if scp.asgt == k then mul scp.grade (weight_of a) ∷ onward else onward

  -- Those for the assignments from `k` on, assignment by assignment.
  abbrev pub terms : (k : ℕ) → List (Assignment Double) → List (Score Double) → List Double
  terms k [] scores = []
  terms k (a ∷ rest) scores = terms_at k a scores ++ terms (k + 1) rest scores

  -- The sum, rounded to a `float` after each term.
  abbrev pub float_sum : Double → List Double → Double
  float_sum sum [] = sum
  float_sum sum (t ∷ ts) = float_sum (to_float (add sum t)) ts

  -- How many of the assignments have no score.
  abbrev pub unscored : (k : ℕ) → List (Assignment Double) → List (Score Double) → ℕ
  unscored k [] scores = 0
  unscored k (a ∷ rest) scores =
      (if any (λ scp. scp.asgt == k) scores then 0 else 1) + unscored (k + 1) rest scores

  float_sum-append :
      (sum : Double) (xs ys : List Double)
      → float_sum sum (xs ++ ys) ≡ float_sum (float_sum sum xs) ys
  float_sum-append sum [] ys = refl
  float_sum-append sum (x ∷ xs) ys = float_sum-append (to_float (add sum x)) xs ys

  weigh_scores-sum :
      (k : ℕ) (a : Assignment Double) (scores : List (Score Double)) (found : ℕ) (sum : Double)
      → (weigh_scores d k a scores found sum).1 ≡ float_sum sum (terms_at k a scores)
  unfolding weigh_scores
  weigh_scores-sum k a [] found sum = refl
  weigh_scores-sum k a (scp ∷ rest) found sum = elim (Bool-cases (scp.asgt == k)) [
    | inl same ↦
        rw
          (
            same,
            weigh_scores-sum k a rest (found + 1)
                (to_float (add sum (mul scp.grade (weight_of a)))),
          )
          refl
    | inr other ↦ rw (other, weigh_scores-sum k a rest found sum) refl
  ]

  weigh_scores-found :
      (k : ℕ) (a : Assignment Double) (scores : List (Score Double)) (found : ℕ) (sum : Double)
      → (weigh_scores d k a scores found sum).0 == 0
        ≡ (if any (λ scp. scp.asgt == k) scores then false else found == 0)
  unfolding weigh_scores
  weigh_scores-found k a [] found sum = refl
  weigh_scores-found k a (scp ∷ rest) found sum = elim (Bool-cases (scp.asgt == k)) [
    | inl same ↦
        rw
          (
            same,
            weigh_scores-found k a rest (found + 1)
                (to_float (add sum (mul scp.grade (weight_of a)))),
          )
          (ground arith)
    | inr other ↦ rw (other, weigh_scores-found k a rest found sum) refl
  ]

  weigh_assignments-terms :
      (k : ℕ) (aps : List (Assignment Double)) (scores : List (Score Double)) (sum : Double) (w : ℕ)
      → ((weigh_assignments d k aps scores sum w).0 ≡ float_sum sum (terms k aps scores))
        × ((weigh_assignments d k aps scores sum w).1 ≡ w + unscored k aps scores)
  unfolding weigh_assignments
  weigh_assignments-terms k [] scores sum w = (refl, omega arith)
  weigh_assignments-terms k (a ∷ rest) scores sum w =
      let here = weigh_scores d k a scores 0 sum in
      let (p, q) =
        weigh_assignments-terms (k + 1) rest scores here.1 (if here.0 == 0 then w + 1 else w) in
      (
        p
            ∙ ap (λ x. float_sum x (terms (k + 1) rest scores)) (weigh_scores-sum k a scores 0 sum)
            ∙ sym (float_sum-append sum (terms_at k a scores) (terms (k + 1) rest scores)),
        q ∙ ground (arith, weigh_scores-found k a scores 0 sum),
      )

  -- The warnings that `composites` issues for a roster.
  abbrev pub unscored_all : List (Assignment Double) → List (Student Double) → ℕ
  unscored_all aps [] = 0
  unscored_all aps (stp ∷ roster) = unscored 0 aps stp.normscores + unscored_all aps roster

  abbrev pub with_composite : List (Assignment Double) → Student Double → Student Double
  with_composite aps stp = record stp {
    composite = float_sum (of_int 0) (terms 0 aps stp.normscores);
  }

  abbrev warned : List (Student Double) → Store Double → ℕ → List (Student Double) × Store Double
  warned roster st w = (roster, record st { warnings = w })

  -- `composites` gives each student the sum, rounded at each step, of the normalized grades weighted
  -- by their assignments, assignment by assignment in the course's order; a grade for no assignment
  -- of the course is left out. It issues one warning for each student and assignment without a
  -- score, and changes nothing else.
  pub composites-terms :
      (roster : List (Student Double)) (st : Store Double)
      → composites d roster st ≡ (
        map (with_composite st.assignments) roster,
        record st { warnings = st.warnings + unscored_all st.assignments roster },
      )
  unfolding composites
  composites-terms [] st =
      let zero_more : st.warnings ≡ st.warnings + 0 = omega arith in ap (warned [] st) zero_more
  composites-terms (stp ∷ roster) st =
      let (p, q) = weigh_assignments-terms 0 st.assignments stp.normscores (of_int 0) st.warnings in
      let here = unscored 0 st.assignments stp.normscores in
      let more = unscored_all st.assignments roster in
      let sums : st.warnings + here + more ≡ st.warnings + (here + more) = omega arith in
      rw (p, q, composites-terms roster (record st { warnings = st.warnings + here }))
        (ap (warned (map (with_composite st.assignments) (stp ∷ roster)) st) sums)
