-- ===== src/Grades/Normal/Unchanged.antt =====
-- What `normal` (hw2/src/normal.c) does not change: the tables, the policies and the places.
use cse320_fall.Base.{
  ℕ, ◌+◌, ◌≡◌, refl, ◌∙◌, subst, Option, none, some, List, ◌==◌, get_elem?, set, Option-cases,
  Bool-cases, inl, inr, arith, get_elem?-set, get_elem?-set_ne,
}
use cse320_fall.Grades.Frequencies.{Freqs}
use cse320_fall.Grades.Course.{
  Doubles, Npolicy, Ngroup, Assignment, Classstats, Sectionstats, Store, warn,
}
use cse320_fall.Grades.Statistics.Filled.{SameSection, Same, Same-refl}
use cse320_fall.Grades.Normal.{
  normal, normal_at, normal_quantile, normal_linear_class, normal_linear_section, normal_scale,
  quantile_bucket, two_epsilon,
}
use cse320_fall.Grades.Normal.Stores.{after}

module _ (d : Doubles) where
  open d use {Double, place, lt, epsilon}

  abbrev pub SamePolicy : Assignment Double → Assignment Double → Type 0
  SamePolicy a b = (b.npolicy ≡ a.npolicy) × (b.ngroup ≡ a.ngroup)

  -- The second store has, at the places of the first, the same tables and policies.
  abbrev pub SameStore : Store Double → Store Double → Type 0
  SameStore st u =
      ((k : ℕ) (c : Classstats Double)
        → get_elem? st.cstats k ≡ some c
        → (b : Classstats Double) × (get_elem? u.cstats k ≡ some b) × (Same d c b))
      × ((k : ℕ) (a : Assignment Double)
          → get_elem? st.assignments k ≡ some a
          → (b : Assignment Double) × (get_elem? u.assignments k ≡ some b) × (SamePolicy a b))

  pub SameStore-refl : (st : Store Double) → SameStore st st
  SameStore-refl st = (λ k c e. (c, e, Same-refl d c), λ k a e. (a, e, (refl, refl)))

  Same-trans : (a b c : Classstats Double) → Same d a b → Same d b c → Same d a c
  Same-trans a b c (t, s, f) (u, v, g) = (
    u ∙ t,
    v ∙ s,
    λ j x e. let (y, ey, sy) = f j x e in let (z, ez, sz) = g j y ey in (z, ez, sz ∙ sy),
  )

  pub SameStore-trans : (r st u : Store Double) → SameStore r st → SameStore st u → SameStore r u
  SameStore-trans r st u (f, p) (g, q) = (
    λ k c e.
        let (x, ex, sx) = f k c e in let (y, ey, sy) = g k x ex in (y, ey, Same-trans c x y sx sy),
    λ k a e.
        let (x, ex, sx) = p k a e in
        let (y, ey, sy) = q k x ex in (y, ey, (sy.0 ∙ sx.0, sy.1 ∙ sx.1)),
  )

  set_class :
      (st : Store Double) (i w : ℕ) (csp new : Classstats Double)
      → get_elem? st.cstats i ≡ some csp
      → Same d csp new
      → SameStore st (record st { cstats = set st.cstats i new; warnings = w })
  set_class st i w csp new e same = (
    λ k c ec. elim (Bool-cases (i == k)) [
      | inl eq ↦
          let ik : i ≡ k = ground arith in
          let one : csp ≡ c = ground arith in
          (
            new,
            subst (λ z. get_elem? (set st.cstats i new) z ≡ some new) ik
                (get_elem?-set st.cstats i csp new e),
            subst (λ z. Same d z new) one same,
          )
      | inr ne ↦ (c, get_elem?-set_ne st.cstats i k new (ground arith) ∙ ec, Same-refl d c)
    ],
    λ k a ea. (a, ea, (refl, refl)),
  )

  set_assignment :
      (st : Store Double) (i w : ℕ) (a new : Assignment Double)
      → get_elem? st.assignments i ≡ some a
      → SamePolicy a new
      → SameStore st (record st { assignments = set st.assignments i new; warnings = w })
  set_assignment st i w a new e same = (
    λ k c ec. (c, ec, Same-refl d c),
    λ k b eb. elim (Bool-cases (i == k)) [
      | inl eq ↦
          let ik : i ≡ k = ground arith in
          let one : a ≡ b = ground arith in
          (
            new,
            subst (λ z. get_elem? (set st.assignments i new) z ≡ some new) ik
                (get_elem?-set st.assignments i a new e),
            subst (λ z. SamePolicy z new) one same,
          )
      | inr ne ↦ (b, get_elem?-set_ne st.assignments i k new (ground arith) ∙ eb, (refl, refl))
    ],
  )

  Same-set_section :
      (c : Classstats Double) (j : ℕ) (s new : Sectionstats Double)
      → get_elem? c.sstats j ≡ some s
      → SameSection d s new
      → Same d c (record c { sstats = set c.sstats j new })
  Same-set_section c j s new e same = (
    refl,
    refl,
    λ i x ex. elim (Bool-cases (j == i)) [
      | inl eq ↦
          let ji : j ≡ i = ground arith in
          let one : s ≡ x = ground arith in
          (
            new,
            subst (λ z. get_elem? (set c.sstats j new) z ≡ some new) ji
                (get_elem?-set c.sstats j s new e),
            subst (λ z. SameSection d z new) one same,
          )
      | inr ne ↦ (x, get_elem?-set_ne c.sstats j i new (ground arith) ∙ ex, refl)
    ],
  )

  quantile-SameStore :
      (s : Double) (fs : List Freqs) (t : ℕ) (st : Store Double)
      → SameStore st (after d st (normal_quantile d s fs t st))
  unfolding normal_quantile warn
  quantile-SameStore s fs t st = elim (Option-cases (quantile_bucket (place s) fs)) [
    | inl e ↦ rw (normal_quantile, e) (SameStore-refl st)
    | inr (fp, e) ↦ elim (Bool-cases (t == 0)) [
      | inl f ↦ rw (normal_quantile, e, f) (SameStore-refl st)
      | inr f ↦ rw (normal_quantile, e, f) (SameStore-refl st)
    ]
  ]

  class-SameStore :
      (s : Double) (i : ℕ) (csp : Classstats Double) (a : Assignment Double) (st : Store Double)
      → get_elem? st.cstats i ≡ some csp
      → SameStore st (normal_linear_class d s i csp a st).1
  unfolding normal_linear_class warn
  class-SameStore s i csp a st e = elim (Bool-cases (lt csp.stddev epsilon)) [
    | inl low ↦
        rw (normal_linear_class, low)
          (set_class st i (st.warnings + 1) csp (record csp { stddev = two_epsilon d }) e
            (refl, refl, λ j x ex. (x, ex, refl)))
    | inr fine ↦ rw (normal_linear_class, fine) (SameStore-refl st)
  ]

  section-SameStore :
      (s : Double) (i j : ℕ) (csp : Classstats Double) (ssp : Sectionstats Double)
      (a : Assignment Double) (st : Store Double)
      → get_elem? st.cstats i ≡ some csp
      → get_elem? csp.sstats j ≡ some ssp
      → SameStore st (normal_linear_section d s i j csp ssp a st).1
  unfolding normal_linear_section warn
  section-SameStore s i j csp ssp a st e f = elim (Bool-cases (lt ssp.stddev epsilon)) [
    | inl low ↦
        let new : Sectionstats Double = record ssp { stddev = two_epsilon d } in
        rw (normal_linear_section, low)
          (set_class st i (st.warnings + 1) csp (record csp { sstats = set csp.sstats j new }) e
            (Same-set_section csp j ssp new f refl))
    | inr fine ↦ rw (normal_linear_section, fine) (SameStore-refl st)
  ]

  scale-SameStore :
      (s : Double) (k : ℕ) (a : Assignment Double) (st : Store Double)
      → get_elem? st.assignments k ≡ some a
      → SameStore st (normal_scale d s k a st).1
  unfolding normal_scale warn
  scale-SameStore s k a st e = elim (Bool-cases (lt a.max epsilon)) [
    | inl low ↦
        rw (normal_scale, low)
          (set_assignment st k (st.warnings + 1) a (record a { max = two_epsilon d }) e
            (refl, refl))
    | inr fine ↦ rw (normal_scale, fine) (SameStore-refl st)
  ]

  at-SameStore :
      (n : Npolicy) (g : Ngroup) (s : Double) (i j : ℕ) (csp : Classstats Double)
      (ssp : Sectionstats Double) (a : Assignment Double) (st : Store Double)
      → a.npolicy ≡ n
      → a.ngroup ≡ g
      → get_elem? st.cstats i ≡ some csp
      → get_elem? csp.sstats j ≡ some ssp
      → get_elem? st.assignments csp.asgt ≡ some a
      → SameStore st (after d st (normal_at d s i j csp ssp a st))
  unfolding normal_at
  at-SameStore Npolicy.raw g s i j csp ssp a st en eg ec es ea =
      rw (normal_at, en) (SameStore-refl st)
  at-SameStore Npolicy.linear Ngroup.by_class s i j csp ssp a st en eg ec es ea =
      rw (normal_at, en, eg) (class-SameStore s i csp a st ec)
  at-SameStore Npolicy.linear Ngroup.by_section s i j csp ssp a st en eg ec es ea =
      rw (normal_at, en, eg) (section-SameStore s i j csp ssp a st ec es)
  at-SameStore Npolicy.quantile Ngroup.by_class s i j csp ssp a st en eg ec es ea =
      rw (normal_at, en, eg) (quantile-SameStore s csp.freqs csp.tallied st)
  at-SameStore Npolicy.quantile Ngroup.by_section s i j csp ssp a st en eg ec es ea =
      rw (normal_at, en, eg) (quantile-SameStore s ssp.freqs ssp.tallied st)
  at-SameStore Npolicy.scale g s i j csp ssp a st en eg ec es ea =
      rw (normal_at, en) (scale-SameStore s csp.asgt a st ea)

  after-SameStore :
      (s : Double) (p : Option (ℕ × ℕ)) (st : Store Double)
      → SameStore st (after d st (normal d s p st))
  unfolding normal
  after-SameStore s none st = SameStore-refl st
  after-SameStore s (some (i, j)) st = elim (Option-cases (get_elem? st.cstats i)) [
    | inl e ↦ rw (normal, e) (SameStore-refl st)
    | inr (csp, e) ↦ elim (Option-cases (get_elem? csp.sstats j)) [
      | inl f ↦ rw (normal, e, f) (SameStore-refl st)
      | inr (ssp, f) ↦ elim (Option-cases (get_elem? st.assignments csp.asgt)) [
        | inl k ↦ rw (normal, e, f, k) (SameStore-refl st)
        | inr (a, k) ↦
            rw (normal, e, f, k)
              (at-SameStore a.npolicy a.ngroup s i j csp ssp a st refl refl e f k)
      ]
    ]
  ]

  -- A call of `normal` keeps the tables, the policies and the places, whatever it writes.
  pub normal-SameStore :
      (s : Double) (p : Option (ℕ × ℕ)) (st st' : Store Double) (g : Double)
      → normal d s p st ≡ some (g, st')
      → SameStore st st'
  normal-SameStore s p st st' g e =
      subst (λ o. SameStore st (after d st o)) e (after-SameStore s p st)
