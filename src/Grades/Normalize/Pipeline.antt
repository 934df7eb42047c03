-- ===== src/Grades/Normalize/Pipeline.antt =====
-- `statistics` (hw2/src/stats.c) and then `normalize` (hw2/src/normal.c), as orig_main calls them.
use cse320_fall.Base.{
  ℕ, ◌+◌, ◌≤◌, ◌≡◌, ◌≢◌, refl, sym, ap, ◌∙◌, subst, true, Option, some, List, [], ◌∷◌, get_elem?,
  length, suc, All, arith,
}
use cse320_fall.Base.Int.{ℤ}
use cse320_fall.Base.Lookups.{get_elem?-in, get_elem?-lt}
use cse320_fall.Grades.Course.{
  Doubles, Npolicy, Ngroup, Assignment, Classstats, Sectionstats, Score, Student, Store,
}
use cse320_fall.Grades.Links.{Links, build_classes}
use cse320_fall.Grades.Links.Members.{concat, Distinct, member, concat-member}
use cse320_fall.Grades.Links.Scores.{do_links-linked}
use cse320_fall.Grades.Statistics.{statistics, scores_of}
use cse320_fall.Grades.Statistics.Filled.{fill_in-IsTable}
use cse320_fall.Grades.Statistics.Returned.{build_classes-get, build_sections-get, statistics_steps}
use cse320_fall.Grades.Statistics.Total.{AllAssigned, section_of, statistics_total}
use cse320_fall.Grades.Normal.{normal, normal_at}
use cse320_fall.Grades.Normal.Returns.{Returns}
use cse320_fall.Grades.Normal.Percentiles.{linked-stats, normal-statistics}
use cse320_fall.Grades.Normalize.{normalize}
use cse320_fall.Grades.Normalize.Total.{Good, AllGood, normalize-Passes}

All-get_elem? :
    {A : Type 0} (P : A → Type 0) (xs : List A)
    → ((i : ℕ) (x : A) → get_elem? xs i ≡ some x → P x)
    → All P xs
All-get_elem? P [] h = tt
All-get_elem? P (x ∷ xs) h = (h 0 x refl, All-get_elem? P xs (λ i y e. h (suc i) y e))

module _ (d : Doubles) (newc : Classstats (Doubles.Double d))
    (news : Sectionstats (Doubles.Double d)) where
  open d use {Double, of_int}

  -- A call for a score whose pointers lead somewhere returns, but in a quantile normalization.
  at-Returns :
      (n : Npolicy) (g : Ngroup) (s : Double) (i j : ℕ) (c : Classstats Double)
      (x : Sectionstats Double) (a : Assignment Double) (st : Store Double)
      → a.npolicy ≡ n
      → a.ngroup ≡ g
      → (a.npolicy ≡ Npolicy.quantile → Returns (normal_at d s i j c x a st))
      → Returns (normal_at d s i j c x a st)
  unfolding normal_at
  at-Returns Npolicy.raw g s i j c x a st en eg q = rw (normal_at, en) (_, refl)
  at-Returns Npolicy.linear Ngroup.by_class s i j c x a st en eg q =
      rw (normal_at, en, eg) (_, refl)
  at-Returns Npolicy.linear Ngroup.by_section s i j c x a st en eg q =
      rw (normal_at, en, eg) (_, refl)
  at-Returns Npolicy.quantile g s i j c x a st en eg q = q en
  at-Returns Npolicy.scale g s i j c x a st en eg q = rw (normal_at, en) (_, refl)

  normal-at :
      (g : Double) (p : Option (ℕ × ℕ)) (i j : ℕ) (c : Classstats Double) (x : Sectionstats Double)
      (a : Assignment Double) (st : Store Double)
      → p ≡ some (i, j)
      → get_elem? st.cstats i ≡ some c
      → get_elem? c.sstats j ≡ some x
      → get_elem? st.assignments c.asgt ≡ some a
      → normal d g p st ≡ normal_at d g i j c x a st
  unfolding normal
  normal-at g p i j c x a st ep ec ex ea = rw (ep, normal, ec, ex, ea) refl

  -- The scores of a course's students are good once `statistics` has returned.
  statistics-Good :
      (fuel : ℕ) (assignments : List (Assignment Double)) (sections : List (List ℕ))
      (l l' : Links Double) (st : Store Double) (x j i : ℕ) (sec : List ℕ) (scp : Score Double)
      → Distinct (concat sections)
      → AllAssigned d (length assignments) sections l
      → length (concat sections) ≤ fuel
      → statistics d newc news fuel assignments sections l ≡ some (st, l')
      → get_elem? sections j ≡ some sec
      → member x sec ≡ true
      → get_elem? (l'.rawscores x) i ≡ some scp
      → Good d st scp
  statistics-Good fuel assignments sections l l' st x j i sec scp dist asg enough h es mem ex =
      let n = length assignments in
      let m = length sections in
      let classes = build_classes (of_int 0) newc news 0 n m in
      let (e1, roster, e2, w, e3, e4) =
        statistics_steps d newc news fuel assignments sections l l' st h in
      let everyone : member x (concat sections) ≡ true = concat-member x j sections sec es mem in
      let linked_to = do_links-linked n x j classes sections sec l l' dist es mem e1 in
      let (low, link) =
        linked-stats d newc news n j i (l.rawscores x) scp (asg x everyone)
          (subst (λ z. get_elem? z i ≡ some scp) linked_to ex) in
      let (a, ea) = get_elem?-in assignments scp.asgt low in
      let sa : get_elem? st.assignments scp.asgt ≡ some a =
        subst (λ z. get_elem? z scp.asgt ≡ some a) (sym e4) ea in
      let (c, ec, tc, ac, sc) = build_classes-get d newc news 0 n m scp.asgt low in
      let (s, eS, ts) =
        build_sections-get d newc news (0 + scp.asgt) 0 m j (get_elem?-lt sections j sec es) in
      let (c', s', ec', es', asg', tab, tab') =
        fill_in-IsTable d scp.asgt j (scores_of d l'.rawscores roster) classes st.cstats w c s ec
          (subst (λ z. get_elem? z j ≡ some s) (sym sc) eS) e3 in
      let its : c'.asgt ≡ scp.asgt = omega (arith, ac, asg') in
      let there : get_elem? st.assignments c'.asgt ≡ some a =
        ap (get_elem? st.assignments) its ∙ sa in
      let same : normal d scp.grade scp.stats st ≡ normal_at d scp.grade scp.asgt j c' s' a st =
        normal-at scp.grade scp.stats scp.asgt j c' s' a st link ec' es' there in
      (
        (a, sa),
        (scp.asgt, j, c', a, link, ec', there),
        λ counted. subst Returns (sym same) (
            at-Returns a.npolicy a.ngroup scp.grade scp.asgt j c' s' a st refl refl (λ qu.
              subst Returns same (
                _,
                normal-statistics d newc news fuel assignments sections l l' st x j i sec scp a dist
                    asg enough h es mem ex counted ea qu,
              ))),
      )

  -- The students of the roster, as `normalize` meets them.
  abbrev pub pupils : (ℕ → Student Double) → Links Double → List ℕ → List (Student Double)
  pupils person l' [] = []
  pupils person l' (x ∷ roster) =
      record (person x) { rawscores = l'.rawscores x } ∷ pupils person l' roster

  AllGood-pupils :
      (strcmp : List ℕ → List ℕ → ℤ) (newscore : Score Double) (person : ℕ → Student Double)
      (l' : Links Double) (st : Store Double) (roster : List ℕ)
      → ((x : ℕ) → member x roster ≡ true → All (Good d st) (l'.rawscores x))
      → AllGood d strcmp newscore st (pupils person l' roster)
  AllGood-pupils strcmp newscore person l' st [] h = tt
  AllGood-pupils strcmp newscore person l' st (x ∷ roster) h = (
    h x (ground arith),
    AllGood-pupils strcmp newscore person l' st roster (λ y m. h y (ground (arith, m))),
  )

  -- For a course with no assignment or with two and more, whose students are distinct and have
  -- scores for the course's assignments only, `statistics` returns, and `normalize` after it returns
  -- for the students of all sections, whatever the policies, the substitutions and the scores: no
  -- search of a table meets an empty one, and no pointer is stray.
  pub normalize-statistics :
      (strcmp : List ℕ → List ℕ → ℤ) (newscore : Score Double) (person : ℕ → Student Double)
      (fuel : ℕ) (assignments : List (Assignment Double)) (sections : List (List ℕ))
      (l : Links Double)
      → length assignments ≢ 1
      → Distinct (concat sections)
      → AllAssigned d (length assignments) sections l
      → length (concat sections) ≤ fuel
      → (st : Store Double) × (l' : Links Double) × (roster : List (Student Double)) × (st' : Store
          Double)
        × (statistics d newc news fuel assignments sections l ≡ some (st, l'))
        × (normalize d strcmp newscore (pupils person l' (concat sections)) st ≡ some (roster, st'))
  normalize-statistics strcmp newscore person fuel assignments sections l several dist asg enough =
      let (st, l', e) =
        statistics_total d newc news fuel assignments sections l several dist asg enough in
      let good : AllGood d strcmp newscore st (pupils person l' (concat sections)) =
        AllGood-pupils strcmp newscore person l' st (concat sections) (λ x m.
          let (j, sec, es, mem, lt) = section_of x sections m in
          All-get_elem? (Good d st) (l'.rawscores x) (λ i scp ex.
            statistics-Good fuel assignments sections l l' st x j i sec scp dist asg enough e es mem
              ex)) in
      let (roster, st', f, same) =
        normalize-Passes d strcmp newscore (pupils person l' (concat sections)) st good in
      (st, l', roster, st', e, f)
