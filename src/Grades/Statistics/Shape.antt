-- ===== src/Grades/Statistics/Shape.antt =====
-- The passes of hw2/src/stats.c succeed on statistics with a place for each score.
use cse320_fall.Base.{
  ℕ, ◌<◌, ◌≡◌, refl, ap, ◌∙◌, true, some, List, [], ◌∷◌, map, length, length-set, All, set,
  Bool-cases, inl, inr, arith,
}
use cse320_fall.Base.Lookups.{get_elem?-in, All-get, All-set, length-map}
use cse320_fall.Grades.Course.{Doubles, Classstats, Sectionstats, Score, is_counted, update_stats}
use cse320_fall.Grades.Statistics.{
  each_counted, do_freqs, tally, do_quantiles, sum_up_class, do_sums, sum_score, do_moments,
  fill_in,
}
use cse320_fall.Grades.Statistics.Passes.{merged}

module _ {D : Type 0} where
  -- Statistics for `n` assignments and `m` sections.
  abbrev pub HasShape : (n m : ℕ) → List (Classstats D) → Type 0
  HasShape n m classes = (length classes ≡ n) × All (λ c. length c.sstats ≡ m) classes

  -- A counted score points to statistics that there are.
  abbrev pub Fits : (n m : ℕ) → Score D → Type 0
  Fits n m scp =
      is_counted scp ≡ true → (k : ℕ) × (j : ℕ) × (scp.stats ≡ some (k, j)) × (k < n) × (j < m)

  update_stats-HasShape :
      (f : Classstats D → Sectionstats D → Classstats D × Sectionstats D) (n m k j : ℕ)
      (classes : List (Classstats D))
      → ((c : Classstats D) (s : Sectionstats D) → (f c s).0.sstats ≡ c.sstats)
      → HasShape n m classes
      → k < n
      → j < m
      → (next : List (Classstats D)) × (update_stats f (some (k, j)) classes ≡ some next)
        × HasShape n m next
  unfolding update_stats
  update_stats-HasShape f n m k j classes keeps (len, all) kn jm =
      let (c, ec) = get_elem?-in classes k (omega (arith, len)) in
      let wide : length c.sstats ≡ m = All-get (λ c. length c.sstats ≡ m) classes k c all ec in
      let (s, es) = get_elem?-in c.sstats j (omega (arith, wide)) in
      let new = merged j (f c s) in
      (
        set classes k new,
        rw (update_stats, ec, es) refl,
        (
          length-set classes k new ∙ len,
          All-set (λ c. length c.sstats ≡ m) classes k new all
              (length-set (f c s).0.sstats j (f c s).1 ∙ ap length (keeps c s) ∙ wide),
        ),
      )

  each_counted-HasShape :
      (f : Score D → Classstats D → Sectionstats D → Classstats D × Sectionstats D) (n m : ℕ)
      → ((scp : Score D) (c : Classstats D) (s : Sectionstats D) → (f scp c s).0.sstats ≡ c.sstats)
      → (scores : List (Score D)) (classes : List (Classstats D)) → HasShape n m classes
      → All (Fits n m) scores
      → (next : List (Classstats D)) × (each_counted f scores classes ≡ some next)
        × HasShape n m next
  unfolding each_counted
  each_counted-HasShape f n m keeps [] classes h fits = (classes, refl, h)
  each_counted-HasShape f n m keeps (scp ∷ rest) classes h fits =
      elim (Bool-cases (is_counted scp)) [
        | inr out ↦
            let (next, e, h') = each_counted-HasShape f n m keeps rest classes h fits.1 in
            (next, rw (each_counted, out) e, h')
        | inl counted ↦
            let (k, j, at, kn, jm) = fits.0 counted in
            let (mid, step, hm) =
              update_stats-HasShape (f scp) n m k j classes (keeps scp) h kn jm in
            let (next, e, h') = each_counted-HasShape f n m keeps rest mid hm fits.1 in
            let met : update_stats (f scp) scp.stats classes ≡ some mid =
              ap (λ p. update_stats (f scp) p classes) at ∙ step in
            (next, rw (each_counted, counted, met) e, h')
      ]

  sum_up-All :
      (m : ℕ) (classes : List (Classstats D))
      → All (λ c. length c.sstats ≡ m) classes
      → All (λ c. length c.sstats ≡ m) (map sum_up_class classes)
  unfolding sum_up_class
  sum_up-All m [] h = tt
  sum_up-All m (c ∷ classes) h = (length-map _ c.sstats ∙ h.0, sum_up-All m classes h.1)

  do_quantiles-HasShape :
      (n m : ℕ) (classes : List (Classstats D))
      → HasShape n m classes
      → HasShape n m (do_quantiles classes)
  unfolding do_quantiles
  do_quantiles-HasShape n m classes h =
      (length-map sum_up_class classes ∙ h.0, sum_up-All m classes h.1)

module _ (d : Doubles) where
  open d use {Double}

  -- The passes succeed when each counted score points to statistics that there are.
  pub fill_in_total :
      (n m : ℕ) (scores : List (Score Double)) (classes : List (Classstats Double))
      → HasShape n m classes
      → All (Fits n m) scores
      → (filled : List (Classstats Double)) × (w : ℕ) × (fill_in d scores classes
          ≡ some (filled, w))
  unfolding fill_in do_freqs tally do_sums sum_score
  fill_in_total n m scores classes h fits =
      let (counted, e1, h1) =
        each_counted-HasShape (tally d) n m (λ scp c s. refl) scores classes h fits in
      let (summed, e2, h2) =
        each_counted-HasShape (sum_score d) n m (λ scp c s. refl) scores (do_quantiles counted)
          (do_quantiles-HasShape n m counted h1) fits in
      ((do_moments d summed).0, (do_moments d summed).1, rw (fill_in, e1, e2) refl)
