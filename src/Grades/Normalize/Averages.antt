-- ===== src/Grades/Normalize/Averages.antt =====
-- The averages of `studentavg` (hw2/src/normal.c), and what `normalize` keeps of a score.
use cse320_fall.Base.{
  ℕ, ◌≡◌, refl, sym, ap, ◌∙◌, subst, true, false, ◌&&◌, ◌||◌, none, some, List, [], ◌∷◌, ◌==◌,
  get_elem?, map, All, Option-cases, Bool-cases, inl, inr, arith,
}
use cse320_fall.Base.Int.{ℤ}
use cse320_fall.Grades.Sorting.{is_zero}
use cse320_fall.Grades.Course.{
  Doubles, Gflag, Gsubst, Wpolicy, Assignment, Score, Student, Store, is_counted, warn,
}
use cse320_fall.Grades.Normal.{normal}
use cse320_fall.Grades.Normal.Stores.{normal-keeps}
use cse320_fall.Base.Lookups.{All-get}
use cse320_fall.Grades.Normalize.{
  Average, add_like, like_scores, finish_average, studentavg, normal_grade, normalize_scores,
  normalize,
}

module _ (d : Doubles) (strcmp : List ℕ → List ℕ → ℤ) where
  open d use {Double, of_int, eq}

  -- No assignment of the course has a weight.
  abbrev pub AllUnweighted : Store Double → Type 0
  AllUnweighted st = All (λ a. a.wpolicy ≡ Wpolicy.no_weight) st.assignments

  add_like-w :
      (a : Assignment Double) (f : Double) (v : Average Double)
      → a.wpolicy ≡ Wpolicy.no_weight
      → (add_like d strcmp a f v).w ≡ v.w
  unfolding add_like
  add_like-w a f v h = rw h refl

  like_scores-w :
      (t : List ℕ) (scores : List (Score Double)) (v v' : Average Double) (st st' : Store Double)
      → AllUnweighted st
      → like_scores d strcmp t scores v st ≡ some (v', st')
      → v'.w ≡ v.w
  unfolding like_scores
  like_scores-w t [] v v' st st' u h = let same : v ≡ v' = ground arith in ap (λ x. x.w) (sym same)
  like_scores-w t (scp ∷ rest) v v' st st' u h =
      elim (Option-cases (get_elem? st.assignments scp.asgt)) [
        | inl e ↦ absurd (ground arith)
        | inr (a, e) ↦ elim (Bool-cases (is_zero (strcmp a.atype t) && is_counted scp)) [
          | inr other ↦
              let skip : like_scores d strcmp t (scp ∷ rest) v st
                  ≡ like_scores d strcmp t rest v st =
                rw (like_scores, e, other) refl in
              like_scores-w t rest v v' st st' u (sym skip ∙ h)
          | inl like ↦ elim (Option-cases (normal d scp.grade scp.stats st)) [
            | inl f ↦
                let fault : like_scores d strcmp t (scp ∷ rest) v st ≡ none =
                  rw (like_scores, e, like, f) refl in
                absurd (ground arith)
            | inr ((g, st1), f) ↦
                let step : like_scores d strcmp t (scp ∷ rest) v st
                    ≡ like_scores d strcmp t rest (add_like d strcmp a g v) st1 =
                  rw (like_scores, e, like, f) refl in
                let one : a.wpolicy ≡ Wpolicy.no_weight =
                  All-get (λ x. x.wpolicy ≡ Wpolicy.no_weight) st.assignments scp.asgt a u e in
                like_scores-w t rest (add_like d strcmp a g v) v' st1 st'
                  (normal-keeps d (λ x. x.wpolicy ≡ Wpolicy.no_weight) (λ x m k. k) scp.grade
                    scp.stats st st1 g f u)
                  (sym step ∙ h)
                ∙ add_like-w a g v one
          ]
        ]
      ]

  -- In a course without weights every average that `studentavg` returns is 0.0: the sum of the
  -- weights, which is then 0.0, is tested together with the number of scores. It is assumed that
  -- 0.0 compares equal to itself.
  pub studentavg_unweighted :
      (scores : List (Score Double)) (t : List ℕ) (st st' : Store Double) (g : Double)
      → eq (of_int 0) (of_int 0) ≡ true
      → AllUnweighted st
      → studentavg d strcmp scores t st ≡ some (g, st')
      → g ≡ of_int 0
  unfolding studentavg finish_average
  studentavg_unweighted scores t st st' g z u h =
      let start : Average Double = record { n = 0; wp = false; sum = of_int 0; w = of_int 0 } in
      elim (Option-cases (like_scores d strcmp t scores start st)) [
        | inl e ↦ absurd (ground arith)
        | inr ((v, st1), e) ↦
            let w = like_scores-w t scores start v st st1 u e in
            let none_like : eq v.w (of_int 0) ≡ true = ap (λ x. eq x (of_int 0)) w ∙ z in
            let tested : (v.n == 0 || eq v.w (of_int 0)) ≡ true = ground arith in
            let computed : studentavg d strcmp scores t st ≡ some (of_int 0, warn st1) =
              rw (studentavg, e, finish_average, tested) refl in
            let both : ◌≡◌ {A = Double × Store Double} (of_int 0, warn st1) (g, st') =
              ground arith in
            sym (ap (λ p. p.0) both)
      ]

  module _ (newscore : Score Double) where
    -- What a normalized score says of its assignment and its validity.
    abbrev pub label : Score Double → ℕ × Gflag × Gsubst
    label scp = (scp.asgt, scp.flag, scp.subst)

    -- Each raw score has its normalized score: the labels in order, and the raw scores as before.
    abbrev pub Mirrors : List (Student Double) → List (Student Double) → Type 0
    Mirrors [] [] = Unit
    Mirrors (s ∷ ss) (t ∷ ts) =
        ((t.rawscores ≡ s.rawscores) × (map label t.normscores ≡ map label s.rawscores))
        × Mirrors ss ts
    Mirrors _ _ = ⊥

    normalize_scores-label :
        (raw scores nscps : List (Score Double)) (st st' : Store Double)
        → normalize_scores d strcmp newscore raw scores st ≡ some (nscps, st')
        → map label nscps ≡ map label scores
    unfolding normalize_scores
    normalize_scores-label raw [] nscps st st' h =
        let same : [] ≡ nscps = ground arith in ap (map label) (sym same)
    normalize_scores-label raw (scp ∷ rest) nscps st st' h =
        elim (Option-cases (normal_grade d strcmp raw scp st)) [
          | inl e ↦ absurd (ground arith)
          | inr ((g, st1), e) ↦
              elim (Option-cases (normalize_scores d strcmp newscore raw rest st1)) [
                | inl f ↦
                    let fault : normalize_scores d strcmp newscore raw (scp ∷ rest) st ≡ none =
                      rw (normalize_scores, e, f) refl in
                    absurd (ground arith)
                | inr ((more, st2), f) ↦
                    let new : Score Double = record newscore {
                      asgt = scp.asgt;
                      grade = g;
                      flag = scp.flag;
                      subst = scp.subst;
                    } in
                    let computed : normalize_scores d strcmp newscore raw (scp ∷ rest) st
                        ≡ some (new ∷ more, st2) =
                      rw (normalize_scores, e, f) refl in
                    let made : new ∷ more ≡ nscps = ground arith in
                    ap (map label) (sym made)
                    ∙ ap (λ l. label scp ∷ l) (normalize_scores-label raw rest more st1 st2 f)
              ]
        ]

    -- When `normalize` returns, each student has, in order, a normalized score for each raw score,
    -- for the same assignment and with the same validity and substitution, and the same raw scores.
    pub normalize-Mirrors :
        (roster roster' : List (Student Double)) (st st' : Store Double)
        → normalize d strcmp newscore roster st ≡ some (roster', st')
        → Mirrors roster roster'
    unfolding normalize
    normalize-Mirrors [] roster' st st' h =
        let same : [] ≡ roster' = ground arith in subst (Mirrors []) same tt
    normalize-Mirrors (s ∷ roster) roster' st st' h =
        elim (Option-cases (normalize_scores d strcmp newscore s.rawscores s.rawscores st)) [
          | inl e ↦ absurd (ground arith)
          | inr ((nscps, st1), e) ↦ elim (Option-cases (normalize d strcmp newscore roster st1)) [
            | inl f ↦
                let fault : normalize d strcmp newscore (s ∷ roster) st ≡ none =
                  rw (normalize, e, f) refl in
                absurd (ground arith)
            | inr ((more, st2), f) ↦
                let new : Student Double = record s { normscores = nscps } in
                let computed : normalize d strcmp newscore (s ∷ roster) st
                    ≡ some (new ∷ more, st2) =
                  rw (normalize, e, f) refl in
                let made : new ∷ more ≡ roster' = ground arith in
                subst (Mirrors (s ∷ roster)) made (
                  (refl, normalize_scores-label s.rawscores s.rawscores nscps st st1 e),
                  normalize-Mirrors roster more st1 st2 f,
                )
          ]
        ]
