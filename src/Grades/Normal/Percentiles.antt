-- ===== src/Grades/Normal/Percentiles.antt =====
-- Quantile normalization (hw2/src/normal.c) after the whole of `statistics` (hw2/src/stats.c).
use cse320_fall.Base.{
  ℕ, ◌+◌, ◌<◌, ◌≤◌, ◌≡◌, refl, sym, ◌∙◌, subst, true, ◌&&◌, some, List, [], ◌∷◌, map, length, All,
  get_elem?, Bool-cases, inl, inr, arith, leb, ltb, ◌==◌,
}
use cse320_fall.Grades.Course.{
  Doubles, Npolicy, Assignment, Classstats, Sectionstats, Score, Store, is_counted,
}
use cse320_fall.Grades.Links.{Links, build_classes, do_links, walk}
use cse320_fall.Grades.Links.Members.{concat, Distinct, member, concat-member}
use cse320_fall.Grades.Links.Roster.{do_links-walk}
use cse320_fall.Grades.Links.Scores.{linked, do_links-linked}
use cse320_fall.Grades.Statistics.{fill_in, scores_of, statistics}
use cse320_fall.Grades.Statistics.Tallies.{grades}
use cse320_fall.Grades.Statistics.Total.{
  walk_more, build_classes-HasShape, All-HasShape, AllAssigned,
}
use cse320_fall.Grades.Statistics.Returned.{build_classes-get, build_sections-get, statistics_steps}
use cse320_fall.Base.Lookups.{
  get_elem?-unmap, get_elem?-append, get_elem?-skip, get_elem?-lt, All-get,
}
use cse320_fall.Grades.Normal.{normal}
use cse320_fall.Grades.Normal.Quantiles.{group, quantile_of, normal-fill_in}

module _ (d : Doubles) (newc : Classstats (Doubles.Double d))
    (news : Sectionstats (Doubles.Double d)) where
  open d use {Double, of_int}

  -- A student's score is among the scores of the roster.
  scores_of-there :
      (rawscores : ℕ → List (Score Double)) (roster : List ℕ) (x i : ℕ) (scp : Score Double)
      → member x roster ≡ true
      → get_elem? (rawscores x) i ≡ some scp
      → (j : ℕ) × (get_elem? (scores_of d rawscores roster) j ≡ some scp)
  scores_of-there rawscores [] x i scp m e = cc
  scores_of-there rawscores (y ∷ roster) x i scp m e = elim (Bool-cases (y == x)) [
    | inl same ↦
        let yx : x ≡ y = ground arith in
        (
          i,
          get_elem?-append (rawscores y) (scores_of d rawscores roster) i scp
              (subst (λ z. get_elem? (rawscores z) i ≡ some scp) yx e),
        )
    | inr other ↦
        let (j, at) = scores_of-there rawscores roster x i scp (ground arith) e in
        (
          length (rawscores y) + j,
          get_elem?-skip (rawscores y) (scores_of d rawscores roster) j ∙ at,
        )
  ]

  -- What `do_links` has made of a score of a student in the section at `j`.
  pub linked-stats :
      (n j i : ℕ) (scores : List (Score Double)) (scp : Score Double)
      → All (λ s. s.asgt < n) scores
      → get_elem? (map (linked 0 n j) scores) i ≡ some scp
      → (scp.asgt < n) × (scp.stats ≡ some (scp.asgt, j))
  linked-stats n j i scores scp all e =
      let (s, at, made) = get_elem?-unmap (linked 0 n j) scores i scp e in
      let low : s.asgt < n = All-get (λ z. z.asgt < n) scores i s all at in
      let fits : (leb 0 s.asgt && ltb s.asgt (0 + n)) ≡ true = ground arith in
      let is : record s { stats = some (s.asgt, j) } ≡ scp = sym (rw fits refl) ∙ made in
      (subst (λ z. z.asgt < n) is low, subst (λ z. z.stats ≡ some (z.asgt, j)) is refl)

  -- The roster that `statistics` walks is the students of the sections.
  roster-concat :
      (fuel n : ℕ) (classes : List (Classstats Double)) (sections : List (List ℕ))
      (l l' : Links Double) (roster : List ℕ)
      → 0 < n
      → n ≤ length classes
      → All (λ c. length sections ≤ length c.sstats) classes
      → Distinct (concat sections)
      → length (concat sections) ≤ fuel
      → do_links n classes sections l ≡ some l'
      → walk fuel l'.cnext l'.roster ≡ some roster
      → roster ≡ concat sections
  roster-concat fuel n classes sections l l' roster pos len all dist enough e w =
      let (l1, e1, w1) = do_links-walk n classes sections l pos len all dist in
      let same : l1 ≡ l' = ground arith in
      let w2 =
        walk_more (length (concat sections)) fuel l1.cnext l1.roster (concat sections) enough w1 in
      let w3 : walk fuel l'.cnext l'.roster ≡ some (concat sections) =
        subst (λ z. walk fuel z.cnext z.roster ≡ some (concat sections)) same w2 in
      ground arith

  -- When `statistics` has returned, with fuel for the students of a course whose students are
  -- distinct and have scores for its assignments only, then each counted score of a student of a
  -- section, for an assignment with quantile normalization, has a bucket of its own: `normal`
  -- returns the number of lower grades in the score's group, to 100, over the number of grades in
  -- the group, and warns of nothing. The group is the class, or the section, as the assignment says.
  pub normal-statistics :
      (fuel : ℕ) (assignments : List (Assignment Double)) (sections : List (List ℕ))
      (l l' : Links Double) (st : Store Double) (x j i : ℕ) (sec : List ℕ) (scp : Score Double)
      (a : Assignment Double)
      → Distinct (concat sections)
      → AllAssigned d (length assignments) sections l
      → length (concat sections) ≤ fuel
      → statistics d newc news fuel assignments sections l ≡ some (st, l')
      → get_elem? sections j ≡ some sec
      → member x sec ≡ true
      → get_elem? (l'.rawscores x) i ≡ some scp
      → is_counted scp ≡ true
      → get_elem? assignments scp.asgt ≡ some a
      → a.npolicy ≡ Npolicy.quantile
      → normal d scp.grade scp.stats st
        ≡ some (
          quantile_of d scp.grade
              (grades d (group a.ngroup scp.asgt j) (scores_of d l'.rawscores (concat sections))),
          st,
        )
  normal-statistics fuel assignments sections l l' st x j i sec scp a dist asg enough h es mem ex
        counted ea qu =
      let n = length assignments in
      let m = length sections in
      let classes = build_classes (of_int 0) newc news 0 n m in
      let shape = build_classes-HasShape (of_int 0) newc news 0 n m in
      let (e1, roster, e2, w, e3, e4) =
        statistics_steps d newc news fuel assignments sections l l' st h in
      let everyone : member x (concat sections) ≡ true = concat-member x j sections sec es mem in
      let linked_to = do_links-linked n x j classes sections sec l l' dist es mem e1 in
      let (low, link) =
        linked-stats n j i (l.rawscores x) scp (asg x everyone)
          (subst (λ z. get_elem? z i ≡ some scp) linked_to ex) in
      let whole =
        roster-concat fuel n classes sections l l' roster (omega (arith, low))
          (omega (arith, shape.0)) (All-HasShape d n m classes shape.1) dist enough e1 e2 in
      let (k, there) = scores_of-there l'.rawscores (concat sections) x i scp everyone ex in
      let (c, ec, tc, ac, sc) = build_classes-get d newc news 0 n m scp.asgt low in
      let (s, eS, ts) =
        build_sections-get d newc news (0 + scp.asgt) 0 m j (get_elem?-lt sections j sec es) in
      let its : c.asgt ≡ scp.asgt = omega (arith, ac) in
      normal-fill_in d (scores_of d l'.rawscores (concat sections)) classes st.cstats w st scp.asgt
        j k c s a scp ec (subst (λ z. get_elem? z j ≡ some s) (sym sc) eS) tc ts
        (subst (λ z. fill_in d (scores_of d l'.rawscores z) classes ≡ some (st.cstats, w)) whole e3)
        refl
        (subst (λ z. get_elem? st.assignments z ≡ some a) (sym its)
          (subst (λ z. get_elem? z scp.asgt ≡ some a) (sym e4) ea))
        qu there counted link
