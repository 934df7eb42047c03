-- ===== src/Grades/Normal/Stores.antt =====
-- What `normal` (hw2/src/normal.c) leaves in the store.
use cse320_fall.Base.{
  ℕ, ◌≡◌, refl, subst, Option, none, some, List, ◌==◌, get_elem?, All, Option-cases, Bool-cases,
  inl, inr,
}
use cse320_fall.Grades.Frequencies.{Freqs}
use cse320_fall.Grades.Course.{
  Doubles, Npolicy, Ngroup, Assignment, Classstats, Sectionstats, Store, warn,
}
use cse320_fall.Base.Lookups.{All-set, All-get}
use cse320_fall.Grades.Normal.{
  normal, normal_at, normal_quantile, normal_linear_class, normal_linear_section, normal_scale,
  quantile_bucket, two_epsilon,
}

module _ (d : Doubles) where
  open d use {Double, place, lt, epsilon}

  -- The store after a call; a call that faults leaves none, and the first stands for it.
  abbrev pub after : Store Double → Option (Double × Store Double) → Store Double
  after st none = st
  after st (some (g, st')) = st'

  module _ (P : Assignment Double → Type 0)
      (keeps : (a : Assignment Double) (m : Double) → P a → P (record a { max = m })) where
    quantile-All :
        (s : Double) (fs : List Freqs) (t : ℕ) (st : Store Double)
        → All P st.assignments
        → All P (after st (normal_quantile d s fs t st)).assignments
    unfolding normal_quantile warn
    quantile-All s fs t st h = elim (Option-cases (quantile_bucket (place s) fs)) [
      | inl e ↦ rw (normal_quantile, e) h
      | inr (fp, e) ↦ elim (Bool-cases (t == 0)) [
        | inl f ↦ rw (normal_quantile, e, f) h
        | inr f ↦ rw (normal_quantile, e, f) h
      ]
    ]

    scale-All :
        (s : Double) (k : ℕ) (a : Assignment Double) (st : Store Double)
        → get_elem? st.assignments k ≡ some a
        → All P st.assignments
        → All P (normal_scale d s k a st).1.assignments
    unfolding normal_scale warn
    scale-All s k a st e h = elim (Bool-cases (lt a.max epsilon)) [
      | inl low ↦
          rw (normal_scale, low)
            (All-set P st.assignments k (record a { max = two_epsilon d }) h
              (keeps a (two_epsilon d) (All-get P st.assignments k a h e)))
      | inr fine ↦ rw (normal_scale, fine) h
    ]

    linear_class-All :
        (s : Double) (i : ℕ) (csp : Classstats Double) (a : Assignment Double) (st : Store Double)
        → All P st.assignments
        → All P (normal_linear_class d s i csp a st).1.assignments
    unfolding normal_linear_class warn
    linear_class-All s i csp a st h = elim (Bool-cases (lt csp.stddev epsilon)) [
      | inl low ↦ rw (normal_linear_class, low) h
      | inr fine ↦ rw (normal_linear_class, fine) h
    ]

    linear_section-All :
        (s : Double) (i j : ℕ) (csp : Classstats Double) (ssp : Sectionstats Double)
        (a : Assignment Double) (st : Store Double)
        → All P st.assignments
        → All P (normal_linear_section d s i j csp ssp a st).1.assignments
    unfolding normal_linear_section warn
    linear_section-All s i j csp ssp a st h = elim (Bool-cases (lt ssp.stddev epsilon)) [
      | inl low ↦ rw (normal_linear_section, low) h
      | inr fine ↦ rw (normal_linear_section, fine) h
    ]

    at-All :
        (n : Npolicy) (g : Ngroup) (s : Double) (i j : ℕ) (csp : Classstats Double)
        (ssp : Sectionstats Double) (a : Assignment Double) (st : Store Double)
        → a.npolicy ≡ n
        → a.ngroup ≡ g
        → get_elem? st.assignments csp.asgt ≡ some a
        → All P st.assignments
        → All P (after st (normal_at d s i j csp ssp a st)).assignments
    unfolding normal_at
    at-All Npolicy.raw g s i j csp ssp a st en eg e h = rw (normal_at, en) h
    at-All Npolicy.linear Ngroup.by_class s i j csp ssp a st en eg e h =
        rw (normal_at, en, eg) (linear_class-All s i csp a st h)
    at-All Npolicy.linear Ngroup.by_section s i j csp ssp a st en eg e h =
        rw (normal_at, en, eg) (linear_section-All s i j csp ssp a st h)
    at-All Npolicy.quantile Ngroup.by_class s i j csp ssp a st en eg e h =
        rw (normal_at, en, eg) (quantile-All s csp.freqs csp.tallied st h)
    at-All Npolicy.quantile Ngroup.by_section s i j csp ssp a st en eg e h =
        rw (normal_at, en, eg) (quantile-All s ssp.freqs ssp.tallied st h)
    at-All Npolicy.scale g s i j csp ssp a st en eg e h =
        rw (normal_at, en) (scale-All s csp.asgt a st e h)

    normal-All :
        (s : Double) (p : Option (ℕ × ℕ)) (st : Store Double)
        → All P st.assignments
        → All P (after st (normal d s p st)).assignments
    unfolding normal
    normal-All s none st h = h
    normal-All s (some (i, j)) st h = elim (Option-cases (get_elem? st.cstats i)) [
      | inl e ↦ rw (normal, e) h
      | inr (csp, e) ↦ elim (Option-cases (get_elem? csp.sstats j)) [
        | inl f ↦ rw (normal, e, f) h
        | inr (ssp, f) ↦ elim (Option-cases (get_elem? st.assignments csp.asgt)) [
          | inl k ↦ rw (normal, e, f, k) h
          | inr (a, k) ↦
              rw (normal, e, f, k) (at-All a.npolicy a.ngroup s i j csp ssp a st refl refl k h)
        ]
      ]
    ]

    -- What holds of each assignment, whatever its `max` is, holds after a call of `normal`.
    pub normal-keeps :
        (s : Double) (p : Option (ℕ × ℕ)) (st st' : Store Double) (g : Double)
        → normal d s p st ≡ some (g, st')
        → All P st.assignments
        → All P st'.assignments
    normal-keeps s p st st' g e h =
        subst (λ o. All P (after st o).assignments) e (normal-All s p st h)
