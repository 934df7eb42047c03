-- ===== src/Grades/Statistics/Filled.antt =====
-- The passes of hw2/src/stats.c that follow the counting keep the tables' counts.
use cse320_fall.Base.{
  ℕ, zero, suc, ◌≡◌, refl, ap, ◌∙◌, subst, Bool, Option, some, List, [], ◌∷◌, map, get_elem?, set,
  Option-cases, Bool-cases, inl, inr, get_elem?-set, get_elem?-set_ne, arith, ◌==◌,
}
use cse320_fall.Base.Lookups.{get_elem?-map}
use cse320_fall.Grades.Frequencies.{Freqs, Table}
use cse320_fall.Grades.Frequencies as Tables
use cse320_fall.Grades.Course.{Doubles, Classstats, Sectionstats, Score}
use cse320_fall.Grades.Statistics.{
  do_freqs, do_quantiles, sum_up_class, sum_up_section, do_sums, sum_score, do_moments,
  section_moments, fill_in,
}
use cse320_fall.Grades.Statistics.Passes.{merged, Meets, each_counted_keeps}
use cse320_fall.Grades.Statistics.Tallies.{
  in_class, in_section, grades, class_table, section_table, tabled, do_freqs-class,
  do_freqs-section,
}

module _ (d : Doubles) where
  open d use {Double}

  -- The second section has the first's table.
  abbrev pub SameSection : Sectionstats Double → Sectionstats Double → Type 0
  SameSection s t = section_table d t ≡ section_table d s

  -- The second entry has the first's tables.
  abbrev pub Same : Classstats Double → Classstats Double → Type 0
  Same c a =
      (class_table d a ≡ class_table d c)
      × (a.asgt ≡ c.asgt)
      × ((j : ℕ) (s : Sectionstats Double)
          → get_elem? c.sstats j ≡ some s
          → (t : Sectionstats Double) × (get_elem? a.sstats j ≡ some t) × SameSection s t)

  Same-sum_score :
      (scp : Score Double) (k i : ℕ) (c a : Classstats Double) (s : Sectionstats Double)
      → Meets k scp a i s
      → Same c a
      → Same c (merged i (sum_score d scp a s))
  unfolding sum_score
  Same-sum_score scp k i c a s meets (tab, asg, sec) = (
    tab,
    asg,
    λ j x e.
        let (t, at, same) = sec j x e in
        let new = (sum_score d scp a s).1 in
        elim (Bool-cases (i == j)) [
          | inl eq ↦
              let ij : i ≡ j = ground arith in
              let one : t ≡ s = ground arith in
              (
                new,
                subst (λ y. get_elem? (set a.sstats i new) y ≡ some new) ij
                    (get_elem?-set a.sstats i s new meets.2),
                subst (SameSection x) one same,
              )
          | inr other ↦ (t, get_elem?-set_ne a.sstats i j new (ground arith) ∙ at, same)
        ],
  )

  pub Same-refl : (c : Classstats Double) → Same c c
  Same-refl c = (refl, refl, λ j s e. (s, e, refl))

  do_sums-Same :
      (k : ℕ) (scores : List (Score Double)) (classes classes' : List (Classstats Double))
      (c : Classstats Double)
      → get_elem? classes k ≡ some c
      → do_sums d scores classes ≡ some classes'
      → (a : Classstats Double) × (get_elem? classes' k ≡ some a) × (Same c a)
  unfolding do_sums
  do_sums-Same k scores classes classes' c e h =
      let (a, at, q) =
        each_counted_keeps (sum_score d) k (λ rest a. Same c a) (λ scp rest a misses q. q)
          (λ scp rest a i s meets q. Same-sum_score scp k i c a s meets q) scores classes classes' c
          e h (Same-refl c) in
      (a, at, q)

  section_moments-SameSection :
      (ss : List (Sectionstats Double)) (j : ℕ) (s : Sectionstats Double)
      → get_elem? ss j ≡ some s
      → (t : Sectionstats Double) × (get_elem? (section_moments d ss).0 j ≡ some t)
        × SameSection s t
  unfolding section_moments
  section_moments-SameSection [] j s e = cc
  section_moments-SameSection (x ∷ xs) zero s e = (_, refl, ground arith)
  section_moments-SameSection (x ∷ xs) (suc j) s e = section_moments-SameSection xs j s e

  do_moments-Same :
      (classes : List (Classstats Double)) (k : ℕ) (c : Classstats Double)
      → get_elem? classes k ≡ some c
      → (a : Classstats Double) × (get_elem? (do_moments d classes).0 k ≡ some a) × (Same c a)
  unfolding do_moments
  do_moments-Same [] k c e = cc
  do_moments-Same (x ∷ xs) zero c e =
      let one : x ≡ c = ground arith in
      subst
        (λ y.
          (a : Classstats Double) × (get_elem? (do_moments d (x ∷ xs)).0 0 ≡ some a) × (Same y a))
        one (_, refl, (refl, refl, λ j s f. section_moments-SameSection x.sstats j s f))
  do_moments-Same (x ∷ xs) (suc k) c e = do_moments-Same xs k c e

  -- The table that counting, and then summing up, makes of the scores that pass a test.
  abbrev pub IsTable :
      (Option (ℕ × ℕ) → Bool) → List (Score Double) → (start : Table) → (final : Table) → Type 0
  IsTable test scores start final =
      let t = tabled d (grades d test scores) start in
      (final.freqs ≡ Tables.do_quantiles t.freqs) × (final.tallied ≡ t.tallied)

  summed_table :
      (final made goal : Table)
      → final ≡ record { freqs = Tables.do_quantiles made.freqs; tallied = made.tallied }
      → made ≡ goal
      → (final.freqs ≡ Tables.do_quantiles goal.freqs) × (final.tallied ≡ goal.tallied)
  summed_table final made goal e f = (
    ap (λ t. t.freqs) e ∙ ap (λ t. Tables.do_quantiles t.freqs) f,
    ap (λ t. t.tallied) e ∙ ap (λ t. t.tallied) f,
  )

  -- The entry at `k` and its section at `j`, after all the passes.
  pub fill_in-IsTable :
      (k j : ℕ) (scores : List (Score Double)) (classes filled : List (Classstats Double)) (w : ℕ)
      (c : Classstats Double) (s : Sectionstats Double)
      → get_elem? classes k ≡ some c
      → get_elem? c.sstats j ≡ some s
      → fill_in d scores classes ≡ some (filled, w)
      → (c' : Classstats Double) × (s' : Sectionstats Double) × (get_elem? filled k ≡ some c')
        × (get_elem? c'.sstats j ≡ some s')
        × (c'.asgt ≡ c.asgt)
        × IsTable (in_class k) scores (class_table d c) (class_table d c')
        × IsTable (in_section k j) scores (section_table d s) (section_table d s')
  unfolding fill_in do_quantiles sum_up_class sum_up_section
  fill_in-IsTable k j scores classes filled w c s e at h =
      elim (Option-cases (do_freqs d scores classes)) [
        | inl out ↦ absurd (ground arith)
        | inr (counted, made) ↦ elim (Option-cases (do_sums d scores (do_quantiles counted))) [
          | inl out ↦ absurd (ground arith)
          | inr (summed, sum) ↦
              let (a, ea, ta, aa) = do_freqs-class d k scores classes counted c e made in
              let (b, eb, t, et, tt') =
                do_freqs-section d k j scores classes counted c s e at made in
              let ab : b ≡ a = ground arith in
              let (u, eu, su) =
                do_sums-Same k scores (do_quantiles counted) summed (sum_up_class a)
                  (get_elem?-map sum_up_class counted k a ea) sum in
              let (v, ev, sv) = do_moments-Same summed k u eu in
              let sections : List (Sectionstats Double) = map sum_up_section a.sstats in
              let found : get_elem? sections j ≡ some (sum_up_section t) =
                get_elem?-map sum_up_section a.sstats j t
                  (subst (λ x. get_elem? x.sstats j ≡ some t) ab et) in
              let (t2, e2, s2) = su.2 j (sum_up_section t) found in
              let (t3, e3, s3) = sv.2 j t2 e2 in
              let all : (do_moments d summed).0 ≡ filled = ground arith in
              (
                v,
                t3,
                subst (λ l. get_elem? l k ≡ some v) all ev,
                e3,
                sv.1 ∙ su.1 ∙ aa,
                summed_table _ _ _ (sv.0 ∙ su.0) ta,
                summed_table _ _ _ (s3 ∙ s2) tt',
              )
        ]
      ]
