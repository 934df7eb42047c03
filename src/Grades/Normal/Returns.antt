-- ===== src/Grades/Normal/Returns.antt =====
-- Whether `normal` (hw2/src/normal.c) returns depends on the tables, the policies and the places only.
use cse320_fall.Base.{
  ℕ, ◌≡◌, refl, sym, ap, ◌∙◌, Option, none, some, List, get_elem?, Option-cases, inl, inr, arith,
}
use cse320_fall.Grades.Frequencies.{Freqs}
use cse320_fall.Grades.Course.{
  Doubles, Npolicy, Ngroup, Assignment, Classstats, Sectionstats, Store,
}
use cse320_fall.Grades.Statistics.Tallies.{class_table}
use cse320_fall.Grades.Statistics.Filled.{SameSection}
use cse320_fall.Grades.Normal.{normal, normal_at, normal_quantile, quantile_bucket}
use cse320_fall.Grades.Normal.Unchanged.{SamePolicy, SameStore}

abbrev pub Returns : {A : Type 0} → Option A → Type 0
Returns {A} o = (r : A) × (o ≡ some r)

module _ (d : Doubles) where
  open d use {Double, place}

  quantile-Returns :
      (s : Double) (fs gs : List Freqs) (t v : ℕ) (st u : Store Double)
      → gs ≡ fs
      → Returns (normal_quantile d s fs t st)
      → Returns (normal_quantile d s gs v u)
  unfolding normal_quantile
  quantile-Returns s fs gs t v st u same (r, e) =
      elim (Option-cases (quantile_bucket (place s) fs)) [
        | inl out ↦
            let fault : normal_quantile d s fs t st ≡ none = rw (normal_quantile, out) refl in
            absurd (ground arith)
        | inr (fp, at) ↦ rw (same, normal_quantile, at) (_, refl)
      ]

  at-Returns :
      (n : Npolicy) (g : Ngroup) (s : Double) (i j : ℕ) (c b : Classstats Double)
      (x y : Sectionstats Double) (a e : Assignment Double) (st u : Store Double)
      → a.npolicy ≡ n
      → a.ngroup ≡ g
      → SamePolicy d a e
      → class_table d b ≡ class_table d c
      → SameSection d x y
      → Returns (normal_at d s i j c x a st)
      → Returns (normal_at d s i j b y e u)
  unfolding normal_at
  at-Returns Npolicy.raw g s i j c b x y a e st u en eg (pn, pg) tc ts r =
      let m : e.npolicy ≡ Npolicy.raw = pn ∙ en in rw (normal_at, m) (_, refl)
  at-Returns Npolicy.linear Ngroup.by_class s i j c b x y a e st u en eg (pn, pg) tc ts r =
      let m : e.npolicy ≡ Npolicy.linear = pn ∙ en in
      let h : e.ngroup ≡ Ngroup.by_class = pg ∙ eg in rw (normal_at, m, h) (_, refl)
  at-Returns Npolicy.linear Ngroup.by_section s i j c b x y a e st u en eg (pn, pg) tc ts r =
      let m : e.npolicy ≡ Npolicy.linear = pn ∙ en in
      let h : e.ngroup ≡ Ngroup.by_section = pg ∙ eg in rw (normal_at, m, h) (_, refl)
  at-Returns Npolicy.quantile Ngroup.by_class s i j c b x y a e st u en eg (pn, pg) tc ts (r, q) =
      let m : e.npolicy ≡ Npolicy.quantile = pn ∙ en in
      let h : e.ngroup ≡ Ngroup.by_class = pg ∙ eg in
      let was : normal_at d s i j c x a st ≡ normal_quantile d s c.freqs c.tallied st =
        rw (normal_at, en, eg) refl in
      let (r', q') =
        quantile-Returns s c.freqs b.freqs c.tallied b.tallied st u (ap (λ t. t.freqs) tc)
          (r, sym was ∙ q) in
      (r', rw (normal_at, m, h) q')
  at-Returns Npolicy.quantile Ngroup.by_section s i j c b x y a e st u en eg (pn, pg) tc ts (r, q) =
      let m : e.npolicy ≡ Npolicy.quantile = pn ∙ en in
      let h : e.ngroup ≡ Ngroup.by_section = pg ∙ eg in
      let was : normal_at d s i j c x a st ≡ normal_quantile d s x.freqs x.tallied st =
        rw (normal_at, en, eg) refl in
      let (r', q') =
        quantile-Returns s x.freqs y.freqs x.tallied y.tallied st u (ap (λ t. t.freqs) ts)
          (r, sym was ∙ q) in
      (r', rw (normal_at, m, h) q')
  at-Returns Npolicy.scale g s i j c b x y a e st u en eg (pn, pg) tc ts r =
      let m : e.npolicy ≡ Npolicy.scale = pn ∙ en in rw (normal_at, m) (_, refl)

  -- The pointers that a call follows, and the call behind them.
  abbrev pub Followed : Double → Option (ℕ × ℕ) → Store Double → Type 0
  Followed s p st =
      (i : ℕ) × (j : ℕ) × (c : Classstats Double) × (x : Sectionstats Double) × (a : Assignment
        Double)
      × (p ≡ some (i, j))
      × (get_elem? st.cstats i ≡ some c)
      × (get_elem? c.sstats j ≡ some x)
      × (get_elem? st.assignments c.asgt ≡ some a)
      × Returns (normal_at d s i j c x a st)

  followed :
      (s : Double) (p : Option (ℕ × ℕ)) (st : Store Double)
      → Returns (normal d s p st)
      → Followed s p st
  unfolding normal
  followed s none st (r, e) = cc
  followed s (some (i, j)) st (r, e) = elim (Option-cases (get_elem? st.cstats i)) [
    | inl out ↦ absurd (ground arith)
    | inr (c, ec) ↦ elim (Option-cases (get_elem? c.sstats j)) [
      | inl out ↦ absurd (ground arith)
      | inr (x, ex) ↦ elim (Option-cases (get_elem? st.assignments c.asgt)) [
        | inl out ↦ absurd (ground arith)
        | inr (a, ea) ↦
            let was : normal d s (some (i, j)) st ≡ normal_at d s i j c x a st =
              rw (normal, ec, ex, ea) refl in
            (i, j, c, x, a, refl, ec, ex, ea, (r, sym was ∙ e))
      ]
    ]
  ]

  pub normal-Returns :
      (s : Double) (p : Option (ℕ × ℕ)) (st u : Store Double)
      → SameStore d st u
      → Returns (normal d s p st)
      → Returns (normal d s p u)
  unfolding normal
  normal-Returns s p st u (cs, as') r =
      let (i, j, c, x, a, ep, ec, ex, ea, r0) = followed s p st r in
      let (b, eb, (tab, asg, sec)) = cs i c ec in
      let (y, ey, ty) = sec j x ex in
      let (f, ef, pol) = as' c.asgt a ea in
      let there : get_elem? u.assignments b.asgt ≡ some f = ap (get_elem? u.assignments) asg ∙ ef in
      let (q, eq) = at-Returns a.npolicy a.ngroup s i j c b x y a f st u refl refl pol tab ty r0 in
      (q, rw (ep, normal, eb, ey, there) eq)
