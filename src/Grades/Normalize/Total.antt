-- ===== src/Grades/Normalize/Total.antt =====
-- `normalize` of hw2/src/normal.c follows no stray pointer after `statistics` of hw2/src/stats.c.
use cse320_fall.Base.{
  ℕ, ◌≡◌, refl, ap, ◌∙◌, Bool, true, ◌&&◌, ◌||◌, Option, some, List, [], ◌∷◌, ◌==◌, get_elem?, All,
  Bool-cases, inl, inr, arith,
}
use cse320_fall.Base.Int.{ℤ}
use cse320_fall.Grades.Sorting.{is_zero}
use cse320_fall.Grades.Course.{
  Doubles, Gflag, Gsubst, Npolicy, Assignment, Classstats, Score, Student, Store, is_counted, warn,
}
use cse320_fall.Grades.Normal.{normal}
use cse320_fall.Grades.Normal.Unchanged.{
  SameStore, SameStore-refl, SameStore-trans, normal-SameStore,
}
use cse320_fall.Grades.Normal.Returns.{Returns, normal-Returns}
use cse320_fall.Grades.Normalize.{
  Average, add_like, like_scores, finish_average, studentavg, substitute, normal_grade,
  normalize_scores, normalize,
}

module _ (d : Doubles) where
  open d use {Double, of_int, eq}

  -- What `normalize` relies on for a score.
  abbrev pub Good : Store Double → Score Double → Type 0
  Good st scp =
      ((a : Assignment Double) × (get_elem? st.assignments scp.asgt ≡ some a))
      × ((i : ℕ) × (j : ℕ) × (c : Classstats Double) × (a : Assignment Double) × (scp.stats
            ≡ some (i, j))
          × (get_elem? st.cstats i ≡ some c)
          × (get_elem? st.assignments c.asgt ≡ some a))
      × (is_counted scp ≡ true → Returns (normal d scp.grade scp.stats st))

  Good-SameStore :
      (st u : Store Double) (scp : Score Double) → SameStore d st u → Good st scp → Good u scp
  Good-SameStore st u scp same ((a, ea), (i, j, c, b, at, ec, eb), r) =
      let (a', ea', pa) = same.1 scp.asgt a ea in
      let (c', ec', (tab, asg, sec)) = same.0 i c ec in
      let (b', eb', pb) = same.1 c.asgt b eb in
      (
        (a', ea'),
        (i, j, c', b', at, ec', ap (get_elem? u.assignments) asg ∙ eb'),
        λ k. normal-Returns d scp.grade scp.stats st u same (r k),
      )

  All-SameStore :
      (st u : Store Double) (scores : List (Score Double))
      → SameStore d st u
      → All (Good st) scores
      → All (Good u) scores
  All-SameStore st u [] same h = tt
  All-SameStore st u (scp ∷ rest) same h =
      (Good-SameStore st u scp same h.0, All-SameStore st u rest same h.1)

  -- A pass that returns, with a store of the same tables, policies and places.
  abbrev pub Passes : {X : Type 0} → Store Double → Option (X × Store Double) → Type 0
  Passes {X} st o = (x : X) × (u : Store Double) × (o ≡ some (x, u)) × SameStore d st u

  Passes-from :
      {X : Type 0} (st u : Store Double) (o : Option (X × Store Double))
      → SameStore d st u
      → Passes u o
      → Passes st o
  Passes-from st u o same (x, v, e, more) = (x, v, e, SameStore-trans d st u v same more)

  normal-Passes :
      (scp : Score Double) (st : Store Double)
      → Returns (normal d scp.grade scp.stats st)
      → Passes st (normal d scp.grade scp.stats st)
  normal-Passes scp st ((g, u), e) = (g, u, e, normal-SameStore d scp.grade scp.stats st u g e)

  module _ (strcmp : List ℕ → List ℕ → ℤ) where
    like_scores-Passes :
        (t : List ℕ) (scores : List (Score Double)) (v : Average Double) (st : Store Double)
        → All (Good st) scores
        → Passes st (like_scores d strcmp t scores v st)
    unfolding like_scores
    like_scores-Passes t [] v st h = (v, st, refl, SameStore-refl d st)
    like_scores-Passes t (scp ∷ rest) v st (((a, ea), l, r), h) =
        elim (Bool-cases (is_zero (strcmp a.atype t) && is_counted scp)) [
          | inr other ↦ rw (like_scores, ea, other) (like_scores-Passes t rest v st h)
          | inl like ↦
              let (g, u, e, same) = normal-Passes scp st (r (ground arith)) in
              rw (like_scores, ea, like, e)
                (Passes-from st u (like_scores d strcmp t rest (add_like d strcmp a g v) u) same (
                  like_scores-Passes t rest (add_like d strcmp a g v) u
                    (All-SameStore st u rest same h)))
        ]

    finish_average-SameStore :
        (v : Average Double) (st : Store Double) → SameStore d st (finish_average d strcmp v st).1
    unfolding finish_average warn
    finish_average-SameStore v st = elim (Bool-cases (v.n == 0 || eq v.w (of_int 0))) [
      | inl e ↦ rw (finish_average, e) (SameStore-refl d st)
      | inr e ↦ rw (finish_average, e) (SameStore-refl d st)
    ]

    studentavg-Passes :
        (scores : List (Score Double)) (t : List ℕ) (st : Store Double)
        → All (Good st) scores
        → Passes st (studentavg d strcmp scores t st)
    unfolding studentavg
    studentavg-Passes scores t st h =
        let start : Average Double = record {
          n = 0;
          wp = Bool.false;
          sum = of_int 0;
          w = of_int 0;
        } in
        let (v, u, e, same) = like_scores-Passes t scores start st h in
        let done = finish_average d strcmp v u in
        (
          done.0,
          done.1,
          rw (studentavg, e) refl,
          SameStore-trans d st u done.1 same (finish_average-SameStore v u),
        )

    by_policy-Passes :
        (n : Npolicy) (x y : Double) (st : Store Double)
        → Passes st (elim n [ Npolicy.quantile ↦ some (x, st) | _ ↦ some (y, st) ])
    by_policy-Passes Npolicy.quantile x y st = (x, st, refl, SameStore-refl d st)
    by_policy-Passes Npolicy.raw x y st = (y, st, refl, SameStore-refl d st)
    by_policy-Passes Npolicy.linear x y st = (y, st, refl, SameStore-refl d st)
    by_policy-Passes Npolicy.scale x y st = (y, st, refl, SameStore-refl d st)

    is_counted_raw :
        (f : Gflag) (scp : Score Double)
        → scp.flag ≡ f
        → scp.subst ≡ Gsubst.use_raw
        → is_counted scp ≡ true
    unfolding is_counted
    is_counted_raw Gflag.valid scp ef es = rw (is_counted, ef) refl
    is_counted_raw Gflag.invalid scp ef es = rw (is_counted, ef, es) refl

    substitute-Passes :
        (g : Gsubst) (scores : List (Score Double)) (scp : Score Double) (a : Assignment Double)
        (st : Store Double)
        → scp.subst ≡ g
        → All (Good st) scores
        → Good st scp
        → Passes st (substitute d strcmp scores scp a st)
    unfolding substitute
    substitute-Passes Gsubst.use_raw scores scp a st es h (la, l, r) =
        rw (substitute, es) (normal-Passes scp st (r (is_counted_raw scp.flag scp refl es)))
    substitute-Passes Gsubst.use_norm scores scp a st es h good =
        rw (substitute, es) (by_policy-Passes a.npolicy scp.qnorm scp.lnorm st)
    substitute-Passes Gsubst.use_like_avg scores scp a st es h (la, (i, j, c, b, at, ec, eb), r) =
        rw (substitute, es, at, ec, eb) (studentavg-Passes scores b.atype st h)
    substitute-Passes Gsubst.use_class_avg scores scp a st es h good =
        rw (substitute, es) (by_policy-Passes a.npolicy (of_int 50) a.mean st)

    normal_grade-Passes :
        (f : Gflag) (scores : List (Score Double)) (scp : Score Double) (st : Store Double)
        → scp.flag ≡ f
        → All (Good st) scores
        → Good st scp
        → Passes st (normal_grade d strcmp scores scp st)
    unfolding normal_grade is_counted
    normal_grade-Passes Gflag.valid scores scp st ef h (la, l, r) =
        rw (normal_grade, ef) (normal-Passes scp st (r (rw (is_counted, ef) refl)))
    normal_grade-Passes Gflag.invalid scores scp st ef h ((a, ea), l, r) =
        rw (normal_grade, ef, ea)
          (substitute-Passes scp.subst scores scp a st refl h ((a, ea), l, r))

    module _ (newscore : Score Double) where
      normalize_scores-Passes :
          (raw scores : List (Score Double)) (st : Store Double)
          → All (Good st) raw
          → All (Good st) scores
          → Passes st (normalize_scores d strcmp newscore raw scores st)
      unfolding normalize_scores
      normalize_scores-Passes raw [] st h k = ([], st, refl, SameStore-refl d st)
      normalize_scores-Passes raw (scp ∷ rest) st h k =
          let (g, u, e, same) = normal_grade-Passes scp.flag raw scp st refl h k.0 in
          let (more, v, f, on) =
            normalize_scores-Passes raw rest u (All-SameStore st u raw same h)
              (All-SameStore st u rest same k.1) in
          (
            record newscore { asgt = scp.asgt; grade = g; flag = scp.flag; subst = scp.subst }
                ∷ more,
            v,
            rw (normalize_scores, e, f) refl,
            SameStore-trans d st u v same on,
          )

      -- Every student's raw scores are such.
      abbrev pub AllGood : Store Double → List (Student Double) → Type 0
      AllGood st = All (λ stp. All (Good st) stp.rawscores)

      AllGood-SameStore :
          (st u : Store Double) (roster : List (Student Double))
          → SameStore d st u
          → AllGood st roster
          → AllGood u roster
      AllGood-SameStore st u [] same h = tt
      AllGood-SameStore st u (stp ∷ roster) same h =
          (All-SameStore st u stp.rawscores same h.0, AllGood-SameStore st u roster same h.1)

      pub normalize-Passes :
          (roster : List (Student Double)) (st : Store Double)
          → AllGood st roster
          → Passes st (normalize d strcmp newscore roster st)
      unfolding normalize
      normalize-Passes [] st h = ([], st, refl, SameStore-refl d st)
      normalize-Passes (stp ∷ roster) st h =
          let (nscps, u, e, same) =
            normalize_scores-Passes stp.rawscores stp.rawscores st h.0 h.0 in
          let (rest, v, f, on) =
            normalize-Passes roster u (AllGood-SameStore st u roster same h.1) in
          (
            record stp { normscores = nscps } ∷ rest,
            v,
            rw (normalize, e, f) refl,
            SameStore-trans d st u v same on,
          )
