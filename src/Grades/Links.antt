-- ===== src/Grades/Links.antt =====
-- The building of the statistics and the links, `buildstats` and `do_links` of hw2/src/stats.c. A
-- student is an address; the `cnext` and the scores of the students are memory. `none` is a read
-- through a null or stray pointer.
pub mod Members
pub mod Roster
pub mod Scores
use cse320_fall.Base.{
  ℕ, zero, suc, ◌+◌, Option, none, some, List, [], ◌∷◌, map, ◌==◌, if◌then◌else◌,
}
use cse320_fall.Grades.Course.{Assignment, Sectionstats, Classstats, Score}

module _ {D : Type 0} (0d : D) (newclassstats : Classstats D)
    (newsectionstats : Sectionstats D) where
  unfoldable pub build_sections : (ap sp : ℕ) → (sections : ℕ) → List (Sectionstats D)
  build_sections ap sp zero = []
  build_sections ap sp (suc sections) =
      record newsectionstats {
        asgt = ap;
        section = sp;
        valid = 0;
        tallied = 0;
        sum = 0d;
        sumsq = 0d;
        freqs = [];
      }
      ∷ build_sections ap (sp + 1) sections

  -- The loop over the assignments, from the place `ap` on.
  unfoldable pub build_classes : (ap : ℕ) → (assignments sections : ℕ) → List (Classstats D)
  unfolding build_sections
  build_classes ap zero sections = []
  build_classes ap (suc assignments) sections =
      record newclassstats {
        asgt = ap;
        valid = 0;
        tallied = 0;
        sum = 0d;
        sumsq = 0d;
        freqs = [];
        sstats = build_sections ap 0 sections;
      }
      ∷ build_classes (ap + 1) assignments sections

  -- The list that `stats->cstats` points to. At the end `csp` is its last entry: after a second
  -- entry `free_classstats(csp->next)` frees nothing, but a single entry is freed, and the pointer
  -- is left dangling.
  unfoldable pub buildstats : (assignments sections : ℕ) → Option (List (Classstats D))
  unfolding build_classes
  buildstats assignments sections =
      if assignments == 1 then none else some (build_classes 0 assignments sections)

module _ (D : Type 0) where
  -- The variables `c->roster` and `rp`, and the students' memory.
  pub record Links : Type 0 where
    pub roster : Option ℕ
    pub rp : Option ℕ
    pub cnext : ℕ → Option ℕ
    pub rawscores : ℕ → List (Score D)

abbrev pub write : {A : Type 0} → (ℕ → A) → ℕ → A → ℕ → A
write f p v q = if p == q then v else f q

abbrev pub write_next : (cnext : ℕ → Option ℕ) (rp : Option ℕ) (stp : ℕ) → ℕ → Option ℕ
write_next cnext none stp = write cnext stp none
write_next cnext (some p) stp = write (write cnext p (some stp)) stp none

abbrev pub write_roster : (roster rp : Option ℕ) (stp : ℕ) → Option ℕ
write_roster roster none stp = some stp
write_roster roster (some p) stp = roster

module _ {D : Type 0} where
  abbrev pub link_score : (ap csp ssp : ℕ) → Score D → Score D
  link_score ap csp ssp scp = if scp.asgt == ap then record scp { stats = some (csp, ssp) } else scp

  unfoldable pub link_student : (ap csp ssp : ℕ) → (stp : ℕ) → Links D → Links D
  link_student ap csp ssp stp l = record {
    roster = write_roster l.roster l.rp stp;
    rp = some stp;
    cnext = write_next l.cnext l.rp stp;
    rawscores = write l.rawscores stp (map (link_score ap csp ssp) (l.rawscores stp));
  }

  unfoldable pub link_students : (ap csp ssp : ℕ) → List ℕ → Links D → Links D
  unfolding link_student
  link_students ap csp ssp [] l = l
  link_students ap csp ssp (stp ∷ rest) l =
      link_students ap csp ssp rest (link_student ap csp ssp stp l)

  -- The loop over the sections, in step with the section statistics at the place `ssp` and on.
  unfoldable pub link_sections :
      (ap csp ssp : ℕ) → List (Sectionstats D) → List (List ℕ) → Links D → Option (Links D)
  unfolding link_students
  link_sections ap csp ssp sstats [] l = some l
  link_sections ap csp ssp [] (sep ∷ rest) l = none
  link_sections ap csp ssp (s ∷ sstats) (sep ∷ rest) l =
      link_sections ap csp (ssp + 1) sstats rest (link_students ap csp ssp sep l)

  -- The loop over the assignments, in step with the class statistics.
  unfoldable pub link_assignments :
      (ap : ℕ)
      → (assignments : ℕ) → List (Classstats D)
      → List (List ℕ)
      → Links D
      → Option (Links D)
  unfolding link_sections
  link_assignments ap zero classes sections l = some l
  link_assignments ap (suc more) [] sections l = none
  link_assignments ap (suc more) (c ∷ classes) sections l =
      elim (link_sections ap ap 0 c.sstats sections l) [
        | none ↦ none
        | some l' ↦ link_assignments (ap + 1) more classes sections l'
      ]

  unfoldable pub do_links :
      (assignments : ℕ) → List (Classstats D) → List (List ℕ) → Links D → Option (Links D)
  unfolding link_assignments
  do_links assignments classes sections l =
      link_assignments 0 assignments classes sections (record l { roster = none; rp = none })

-- The loops `for(stp = c->roster; stp != NULL; stp = stp->cnext)`: the students they meet, and
-- `none` when there are more than the fuel.
unfoldable pub walk : (fuel : ℕ) → (cnext : ℕ → Option ℕ) → Option ℕ → Option (List ℕ)
walk fuel cnext none = some []
walk zero cnext (some stp) = none
walk (suc fuel) cnext (some stp) = elim (walk fuel cnext (cnext stp)) [
  | none ↦ none
  | some rest ↦ some (stp ∷ rest)
]
