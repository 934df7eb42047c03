-- ===== src/Grades/Statistics/Returned.antt =====
-- The entries that `buildstats` makes, and the steps of a call of `statistics` (hw2/src/stats.c) that
-- returned.
use cse320_fall.Base.{
  ℕ, zero, suc, ◌+◌, ◌<◌, ◌≡◌, refl, ap, ◌∙◌, subst, some, List, length, get_elem?, Bool-cases,
  Option-cases, inl, inr, arith, ◌==◌,
}
use cse320_fall.Grades.Course.{Doubles, Assignment, Classstats, Sectionstats, Store}
use cse320_fall.Grades.Links.{Links, build_sections, build_classes, buildstats, do_links, walk}
use cse320_fall.Grades.Statistics.{fill_in, scores_of, statistics}
use cse320_fall.Grades.Statistics.Tallies.{class_table, section_table}
use cse320_fall.Grades.Normal.Buckets.{empty_table}

module _ (d : Doubles) (newc : Classstats (Doubles.Double d))
    (news : Sectionstats (Doubles.Double d)) where
  open d use {Double, of_int}

  pub build_sections-get :
      (k sp m j : ℕ)
      → j < m
      → (s : Sectionstats Double) × (get_elem? (build_sections (of_int 0) newc news k sp m) j
          ≡ some s)
        × (section_table d s ≡ empty_table)
  unfolding build_sections
  build_sections-get k sp zero j h = absurd (omega arith)
  build_sections-get k sp (suc m) zero h = (_, refl, refl)
  build_sections-get k sp (suc m) (suc j) h = build_sections-get k (sp + 1) m j (omega arith)

  -- The entry for the assignment at `k + i`.
  pub build_classes-get :
      (k n m i : ℕ)
      → i < n
      → (c : Classstats Double) × (get_elem? (build_classes (of_int 0) newc news k n m) i ≡ some c)
        × (class_table d c ≡ empty_table)
        × (c.asgt ≡ k + i)
        × (c.sstats ≡ build_sections (of_int 0) newc news (k + i) 0 m)
  unfolding build_classes
  build_classes-get k zero m i h = absurd (omega arith)
  build_classes-get k (suc n) m zero h = (
    _,
    refl,
    refl,
    omega arith,
    ap (λ z. build_sections (of_int 0) newc news z 0 m) (omega arith),
  )
  build_classes-get k (suc n) m (suc i) h =
      let (c, e, t, a, s) = build_classes-get (k + 1) n m i (omega arith) in
      let same : k + 1 + i ≡ k + suc i = omega arith in
      (c, e, t, a ∙ same, s ∙ ap (λ z. build_sections (of_int 0) newc news z 0 m) same)

  -- The steps of a call that returned.
  pub statistics_steps :
      (fuel : ℕ) (assignments : List (Assignment Double)) (sections : List (List ℕ))
      (l l' : Links Double) (st : Store Double)
      → statistics d newc news fuel assignments sections l ≡ some (st, l')
      → let n = length assignments in
        let classes = build_classes (of_int 0) newc news 0 n (length sections) in
        (do_links n classes sections l ≡ some l')
        × (roster : List ℕ) × (walk fuel l'.cnext l'.roster ≡ some roster)
        × (w : ℕ) × (fill_in d (scores_of d l'.rawscores roster) classes ≡ some (st.cstats, w))
        × (st.assignments ≡ assignments)
  unfolding statistics buildstats
  statistics_steps fuel assignments sections l l' st h =
      let n = length assignments in
      let classes = build_classes (of_int 0) newc news 0 n (length sections) in
      elim (Bool-cases (n == 1)) [
        | inl one ↦ absurd (ground arith)
        | inr several ↦ elim (Option-cases (do_links n classes sections l)) [
          | inl out ↦ absurd (ground arith)
          | inr (l1, e1) ↦ elim (Option-cases (walk fuel l1.cnext l1.roster)) [
            | inl out ↦ absurd (ground arith)
            | inr (roster, e2) ↦
                elim (Option-cases (fill_in d (scores_of d l1.rawscores roster) classes)) [
                  | inl out ↦ absurd (ground arith)
                  | inr ((filled, w), e3) ↦
                      let made : Store Double = record {
                        assignments = assignments;
                        cstats = filled;
                        warnings = w;
                      } in
                      let computed : statistics d newc news fuel assignments sections l
                          ≡ some (made, l1) =
                        rw (statistics, several, e1, e2, e3) refl in
                      let both : ◌≡◌ {A = Store Double × Links Double} (made, l1) (st, l') =
                        ground arith in
                      subst
                        (λ p.
                          (do_links n classes sections l ≡ some p.1)
                          × (roster : List ℕ) × (walk fuel p.1.cnext p.1.roster ≡ some roster)
                          × (w : ℕ) × (fill_in d (scores_of d p.1.rawscores roster) classes
                              ≡ some (p.0.cstats, w))
                          × (p.0.assignments ≡ assignments))
                        both (e1, roster, e2, w, e3, refl)
                ]
          ]
        ]
      ]
