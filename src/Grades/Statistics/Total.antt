-- ===== src/Grades/Statistics/Total.antt =====
-- `statistics` of hw2/src/stats.c as a whole.
use cse320_fall.Base.{
  ℕ, zero, suc, ◌+◌, ◌<◌, ◌≤◌, ◌≡◌, ◌≢◌, refl, sym, ap, subst, true, false, ◌&&◌, Option, none,
  some, List, [], ◌∷◌, ◌++◌, map, length, All, get_elem?, Bool-cases, Option-cases, inl, inr, arith,
  leb, ltb, ◌==◌,
}
use cse320_fall.Grades.Course.{Doubles, Assignment, Classstats, Sectionstats, Score, Store}
use cse320_fall.Grades.Links.{Links, build_sections, build_classes, buildstats, do_links, walk}
use cse320_fall.Grades.Links.Members.{concat, Distinct, member, any-append}
use cse320_fall.Grades.Links.Roster.{do_links-walk}
use cse320_fall.Grades.Links.Scores.{linked, do_links-linked}
use cse320_fall.Grades.Statistics.{scores_of, statistics}
use cse320_fall.Grades.Statistics.Shape.{HasShape, Fits, fill_in_total}

module _ {D : Type 0} (0d : D) (newclassstats : Classstats D)
    (newsectionstats : Sectionstats D) where
  build_sections-length :
      (ap sp m : ℕ) → length (build_sections 0d newclassstats newsectionstats ap sp m) ≡ m
  unfolding build_sections
  build_sections-length k sp zero = refl
  build_sections-length k sp (suc m) = ap suc (build_sections-length k (sp + 1) m)

  pub build_classes-HasShape :
      (k n m : ℕ) → HasShape n m (build_classes 0d newclassstats newsectionstats k n m)
  unfolding build_classes
  build_classes-HasShape k zero m = (refl, tt)
  build_classes-HasShape k (suc n) m =
      let h = build_classes-HasShape (k + 1) n m in (ap suc h.0, (build_sections-length k 0 m, h.1))

All-intro : (P : ℕ → Type 0) (xs : List ℕ) → ((x : ℕ) → member x xs ≡ true → P x) → All P xs
All-intro P [] h = tt
All-intro P (x ∷ xs) h = (h x (ground arith), All-intro P xs (λ y m. h y (ground (arith, m))))

-- A student of the course is in one of its sections.
pub section_of :
    (x : ℕ) (sections : List (List ℕ))
    → member x (concat sections) ≡ true
    → (i : ℕ) × (sec : List ℕ) × (get_elem? sections i ≡ some sec)
      × (member x sec ≡ true)
      × (i < length sections)
section_of x [] m = cc
section_of x (sec ∷ rest) m = elim (Bool-cases (member x sec)) [
  | inl here ↦ (0, sec, refl, here, omega arith)
  | inr out ↦
      let (i, s, e, k, l) = section_of x rest (ground (arith, any-append x sec (concat rest))) in
      (suc i, s, e, k, omega arith)
]

pub walk_more :
    (fuel more : ℕ) (cnext : ℕ → Option ℕ) (p : Option ℕ) (xs : List ℕ)
    → fuel ≤ more
    → walk fuel cnext p ≡ some xs
    → walk more cnext p ≡ some xs
unfolding walk
walk_more fuel more cnext none xs l h = h
walk_more zero more cnext (some s) xs l h = cc
walk_more (suc fuel) zero cnext (some s) xs l h = absurd (omega arith)
walk_more (suc fuel) (suc more) cnext (some s) xs l h =
    elim (Option-cases (walk fuel cnext (cnext s))) [
      | inl out ↦ absurd (ground arith)
      | inr (rest, e) ↦
          rw (walk, walk_more fuel more cnext (cnext s) rest (omega arith) e) (ground arith)
    ]

module _ {D : Type 0} where
  -- The scores of a student in the section at `i`, once linked.
  linked-Fits :
      (n m i : ℕ) (scores : List (Score D))
      → i < m
      → All (λ scp. scp.asgt < n) scores
      → All (Fits n m) (map (linked 0 n i) scores)
  linked-Fits n m i [] l h = tt
  linked-Fits n m i (scp ∷ rest) l h = (
    λ c.
        let a : (leb 0 scp.asgt && ltb scp.asgt (0 + n)) ≡ true = ground (arith, h.0) in
        (scp.asgt, i, rw a refl, h.0, l),
    linked-Fits n m i rest l h.1,
  )

  All-append :
      (P : Score D → Type 0) (xs ys : List (Score D)) → All P xs → All P ys → All P (xs ++ ys)
  All-append P [] ys a b = b
  All-append P (x ∷ xs) ys a b = (a.0, All-append P xs ys a.1 b)

module _ (d : Doubles) where
  open d use {Double, of_int}

  All-scores_of :
      (P : Score Double → Type 0) (rawscores : ℕ → List (Score Double)) (xs : List ℕ)
      → All (λ x. All P (rawscores x)) xs
      → All P (scores_of d rawscores xs)
  All-scores_of P rawscores [] h = tt
  All-scores_of P rawscores (x ∷ xs) h =
      All-append P (rawscores x) (scores_of d rawscores xs) h.0 (All-scores_of P rawscores xs h.1)

  -- The students' scores are for the course's assignments.
  abbrev pub AllAssigned : (n : ℕ) → List (List ℕ) → Links Double → Type 0
  AllAssigned n sections l =
      (x : ℕ) → member x (concat sections) ≡ true → All (λ scp. scp.asgt < n) (l.rawscores x)

  scores_of-Fits :
      (n : ℕ) (classes : List (Classstats Double)) (sections : List (List ℕ)) (l l' : Links Double)
      → Distinct (concat sections)
      → AllAssigned n sections l
      → do_links n classes sections l ≡ some l'
      → All (Fits n (length sections)) (scores_of d l'.rawscores (concat sections))
  scores_of-Fits n classes sections l l' dist asg h =
      let P : Score Double → Type 0 = Fits n (length sections) in
      All-scores_of P l'.rawscores (concat sections) (
        All-intro (λ x. All P (l'.rawscores x)) (concat sections)
          (λ x m.
            let (i, sec, e, k, lt) = section_of x sections m in
            subst (All P) (sym (do_links-linked n x i classes sections sec l l' dist e k h))
              (linked-Fits n (length sections) i (l.rawscores x) lt (asg x m))))

  pub All-HasShape :
      (n m : ℕ) (classes : List (Classstats Double))
      → All (λ c. length c.sstats ≡ m) classes
      → All (λ c. m ≤ length c.sstats) classes
  All-HasShape n m [] h = tt
  All-HasShape n m (c ∷ classes) h = (omega (arith, h.0), All-HasShape n m classes h.1)

  walk_nothing : (fuel : ℕ) (cnext : ℕ → Option ℕ) → walk fuel cnext none ≡ some []
  unfolding walk
  walk_nothing zero cnext = refl
  walk_nothing (suc fuel) cnext = refl

  do_links_returns :
      (n : ℕ) (classes : List (Classstats Double)) (sections : List (List ℕ)) (l : Links Double)
      → HasShape n (length sections) classes
      → Distinct (concat sections)
      → AllAssigned n sections l
      → (l' : Links Double) × (roster : List ℕ) × (do_links n classes sections l ≡ some l')
        × (walk (length (concat sections)) l'.cnext l'.roster ≡ some roster)
        × All (Fits n (length sections)) (scores_of d l'.rawscores roster)
  unfolding do_links
  do_links_returns zero classes sections l (len, all) dist asg = (
    record l { roster = none; rp = none },
    [],
    refl,
    walk_nothing (length (concat sections)) l.cnext,
    tt,
  )
  do_links_returns (suc n) classes sections l (len, all) dist asg =
      let (l', e, w) =
        do_links-walk (suc n) classes sections l (omega arith) (omega (arith, len))
          (All-HasShape (suc n) (length sections) classes all) dist in
      (l', concat sections, e, w, scores_of-Fits (suc n) classes sections l l' dist asg e)

  module _ (newclassstats : Classstats Double) (newsectionstats : Sectionstats Double) where
    -- For a course with no assignment or with two and more, whose students are distinct and have
    -- scores for the course's assignments only, `statistics` reads through no stray pointer and
    -- returns, given fuel for as many students as there are.
    pub statistics_total :
        (fuel : ℕ) (assignments : List (Assignment Double)) (sections : List (List ℕ))
        (l : Links Double)
        → length assignments ≢ 1
        → Distinct (concat sections)
        → AllAssigned (length assignments) sections l
        → length (concat sections) ≤ fuel
        → (st : Store Double) × (l' : Links Double) × (statistics d newclassstats newsectionstats
              fuel assignments sections l
            ≡ some (st, l'))
    unfolding statistics buildstats
    statistics_total fuel assignments sections l several dist asg enough =
        let n = length assignments in
        let m = length sections in
        let classes = build_classes (of_int 0) newclassstats newsectionstats 0 n m in
        let shape = build_classes-HasShape (of_int 0) newclassstats newsectionstats 0 n m in
        let (l', roster, e, w, fits) = do_links_returns n classes sections l shape dist asg in
        let (filled, warned, f) =
          fill_in_total d n m (scores_of d l'.rawscores roster) classes shape fits in
        let not_one : (n == 1) ≡ false = ground arith in
        let met = walk_more (length (concat sections)) fuel l'.cnext l'.roster roster enough w in
        (
          record { assignments = assignments; cstats = filled; warnings = warned },
          l',
          rw (statistics, not_one, e, met, f) refl,
        )

    -- With exactly one assignment `buildstats` frees the statistics that it returns, and
    -- `statistics` reads through the dangling pointer.
    pub statistics_single :
        (fuel : ℕ) (assignment : Assignment Double) (sections : List (List ℕ)) (l : Links Double)
        → statistics d newclassstats newsectionstats fuel (assignment ∷ []) sections l ≡ none
    unfolding statistics buildstats
    statistics_single fuel assignment sections l = refl
