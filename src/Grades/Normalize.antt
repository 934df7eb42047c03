-- ===== src/Grades/Normalize.antt =====
-- The passes over the roster of hw2/src/normal.c. `none` is a read through a null or stray pointer.
-- `strcmp` of the C library and the contents of a new score are parameters.
pub mod Averages
pub mod Total
pub mod Pipeline
pub mod Composites
use cse320_fall.Base.{
  ℕ, zero, suc, ◌+◌, Bool, true, false, ◌&&◌, ◌||◌, Option, none, some, List, [], ◌∷◌, ◌==◌,
  if◌then◌else◌, get_elem?,
}
use cse320_fall.Base.Int.{ℤ}
use cse320_fall.Grades.Sorting.{is_zero}
use cse320_fall.Grades.Course.{
  Doubles, Gflag, Gsubst, Wpolicy, Npolicy, Assignment, Classstats, Score, Student, Store,
  is_counted, warn,
}
use cse320_fall.Grades.Normal.{normal}

-- The variables of the loop of `studentavg`.
pub record Average (D : Type 0) : Type 0 where
  pub n : ℕ
  pub wp : Bool
  pub sum : D
  pub w : D

module _ (d : Doubles) (strcmp : List ℕ → List ℕ → ℤ) where
  open d use {Double, to_float, of_int, add, mul, div, eq}

  unfoldable pub add_like : Assignment Double → (f : Double) → Average Double → Average Double
  add_like a f v = elim a.wpolicy [
    | Wpolicy.weighted ↦ record {
      n = v.n + 1;
      wp = true;
      sum = add v.sum (to_float (mul f a.weight));
      w = to_float (add v.w a.weight);
    }
    | Wpolicy.no_weight ↦ record v { n = v.n + 1; sum = add v.sum f }
  ]

  unfoldable pub like_scores :
      (t : List ℕ)
      → List (Score Double)
      → Average Double
      → Store Double
      → Option (Average Double × Store Double)
  unfolding add_like
  like_scores t [] v st = some (v, st)
  like_scores t (scp ∷ rest) v st = elim (get_elem? st.assignments scp.asgt) [
    | none ↦ none
    | some a ↦ elim (is_zero (strcmp a.atype t) && is_counted scp) [
      | false ↦ like_scores t rest v st
      | true ↦ elim (normal d scp.grade scp.stats st) [
        | none ↦ none
        | some (f, st') ↦ like_scores t rest (add_like a f v) st'
      ]
    ]
  ]

  -- The average once the scores are summed.
  unfoldable pub finish_average : Average Double → Store Double → Double × Store Double
  unfolding warn
  finish_average v st =
      if v.n == 0 || eq v.w (of_int 0)
      then (of_int 0, warn st)
      else (to_float (if v.wp then div v.sum v.w else div v.sum (of_int v.n)), st)

  unfoldable pub studentavg :
      List (Score Double) → (t : List ℕ) → Store Double → Option (Double × Store Double)
  unfolding like_scores finish_average
  studentavg rawscores t st =
      elim (like_scores t rawscores (record { n = 0; wp = false; sum = of_int 0; w = of_int 0 })
        st) [ none ↦ none | some (v, st') ↦ some (finish_average v st') ]

  -- The grade that replaces an invalid score, by its substitution.
  unfoldable pub substitute :
      (rawscores : List (Score Double)) (rscp : Score Double)
      → Assignment Double
      → Store Double
      → Option (Double × Store Double)
  unfolding studentavg
  substitute rawscores rscp a st = elim rscp.subst [
    | Gsubst.use_raw ↦ normal d rscp.grade rscp.stats st
    | Gsubst.use_norm ↦ elim a.npolicy [
      | Npolicy.quantile ↦ some (rscp.qnorm, st)
      | _ ↦ some (rscp.lnorm, st)
    ]
    | Gsubst.use_like_avg ↦ elim rscp.stats [
      | none ↦ none
      | some (i, j) ↦ elim (get_elem? st.cstats i) [
        | none ↦ none
        | some csp ↦ elim (get_elem? st.assignments csp.asgt) [
          | none ↦ none
          | some like ↦ studentavg rawscores like.atype st
        ]
      ]
    ]
    | Gsubst.use_class_avg ↦ elim a.npolicy [
      | Npolicy.quantile ↦ some (of_int 50, st)
      | _ ↦ some (a.mean, st)
    ]
  ]

  -- The `grade` of the new score.
  unfoldable pub normal_grade :
      (rawscores : List (Score Double)) (rscp : Score Double)
      → Store Double
      → Option (Double × Store Double)
  unfolding substitute
  normal_grade rawscores rscp st = elim rscp.flag [
    | Gflag.valid ↦ normal d rscp.grade rscp.stats st
    | Gflag.invalid ↦ elim (get_elem? st.assignments rscp.asgt) [
      | none ↦ none
      | some a ↦ substitute rawscores rscp a st
    ]
  ]

  module _ (newscore : Score Double) where
    -- The inner loop of `normalize`, over what is left of a student's scores.
    unfoldable pub normalize_scores :
        (rawscores scores : List (Score Double))
        → Store Double
        → Option (List (Score Double) × Store Double)
    unfolding normal_grade
    normalize_scores rawscores [] st = some ([], st)
    normalize_scores rawscores (rscp ∷ rest) st = elim (normal_grade rawscores rscp st) [
      | none ↦ none
      | some (g, st') ↦ elim (normalize_scores rawscores rest st') [
        | none ↦ none
        | some (nscps, st2) ↦ some (
          record newscore { asgt = rscp.asgt; grade = g; flag = rscp.flag; subst = rscp.subst }
              ∷ nscps,
          st2,
        )
      ]
    ]

    unfoldable pub normalize :
        List (Student Double) → Store Double → Option (List (Student Double) × Store Double)
    unfolding normalize_scores
    normalize [] st = some ([], st)
    normalize (stp ∷ roster) st = elim (normalize_scores stp.rawscores stp.rawscores st) [
      | none ↦ none
      | some (nscps, st') ↦ elim (normalize roster st') [
        | none ↦ none
        | some (rest, st2) ↦ some (record stp { normscores = nscps } ∷ rest, st2)
      ]
    ]

module _ (d : Doubles) where
  open d use {Double, to_float, of_int, add, mul}

  -- The loop of `composites` over a student's scores, for the assignment at the place `ap`.
  unfoldable pub weigh_scores :
      (ap : ℕ) → Assignment Double → List (Score Double) → (found : ℕ) (sum : Double) → ℕ × Double
  weigh_scores ap a [] found sum = (found, sum)
  weigh_scores ap a (scp ∷ rest) found sum =
      let w : Double = elim a.wpolicy [
        | Wpolicy.weighted ↦ a.weight
        | Wpolicy.no_weight ↦ of_int 1
      ] in
      let here = weigh_scores ap a rest (found + 1) (to_float (add sum (mul scp.grade w))) in
      let past = weigh_scores ap a rest found sum in if scp.asgt == ap then here else past

  -- The loop over the assignments from the place `ap` on; the warnings, and the sum.
  unfoldable pub weigh_assignments :
      (ap : ℕ)
      → List (Assignment Double)
      → List (Score Double)
      → (sum : Double) (warnings : ℕ) → Double × ℕ
  unfolding weigh_scores
  weigh_assignments ap [] normscores sum warnings = (sum, warnings)
  weigh_assignments ap (a ∷ rest) normscores sum warnings =
      let (found, sum') = weigh_scores ap a normscores 0 sum in
      weigh_assignments (ap + 1) rest normscores sum'
        (if found == 0 then warnings + 1 else warnings)

  unfoldable pub composites :
      List (Student Double) → Store Double → List (Student Double) × Store Double
  unfolding weigh_assignments
  composites [] st = ([], st)
  composites (stp ∷ roster) st =
      let (sum, warnings) =
        weigh_assignments 0 st.assignments stp.normscores (of_int 0) st.warnings in
      let (rest, st') = composites roster (record st { warnings = warnings }) in
      (record stp { composite = sum } ∷ rest, st')
