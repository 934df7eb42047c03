-- ===== src/Grades/Statistics/Passes.antt =====
-- What a pass over the scores (hw2/src/stats.c) leaves at one place of the class statistics.
use cse320_fall.Base.{
  ◌⊎◌, ℕ, ◌≡◌, ◌≢◌, refl, ap, ◌∙◌, subst, true, Option, none, some, List, [], ◌∷◌, get_elem?, set,
  Option-cases, Bool-cases, inl, inr, get_elem?-set, get_elem?-set_ne, arith, ◌==◌,
}
use cse320_fall.Grades.Course.{Classstats, Sectionstats, Score, is_counted, update_stats}
use cse320_fall.Grades.Statistics.{each_counted}

module _ {D : Type 0} where
  -- The entry for the class once a step has changed it and its section at `j`.
  abbrev pub merged : (j : ℕ) → Classstats D × Sectionstats D → Classstats D
  merged j p = record (p.0) { sstats = set p.0.sstats j p.1 }

  -- A score that changes the entry at `k`, with the section's statistics that it changes.
  abbrev pub Meets : (k : ℕ) → Score D → Classstats D → (j : ℕ) → Sectionstats D → Type 0
  Meets k scp c j ssp =
      (is_counted scp ≡ true) × (scp.stats ≡ some (k, j)) × (get_elem? c.sstats j ≡ some ssp)

  abbrev pub Misses : (k : ℕ) → Score D → Type 0
  Misses k scp = (is_counted scp ≡ true) → (j : ℕ) → scp.stats ≢ some (k, j)

  pub update_stats_steps :
      (f : Classstats D → Sectionstats D → Classstats D × Sectionstats D) (p : Option (ℕ × ℕ))
      (classes classes' : List (Classstats D))
      → update_stats f p classes ≡ some classes'
      → (i : ℕ) × (j : ℕ) × (csp : Classstats D) × (ssp : Sectionstats D) × (p ≡ some (i, j))
        × (get_elem? classes i ≡ some csp)
        × (get_elem? csp.sstats j ≡ some ssp)
        × (set classes i (merged j (f csp ssp)) ≡ classes')
  unfolding update_stats
  update_stats_steps f none classes classes' h = cc
  update_stats_steps f (some (i, j)) classes classes' h =
      elim (Option-cases (get_elem? classes i)) [
        | inl out ↦ ground arith
        | inr (csp, there) ↦ elim (Option-cases (get_elem? csp.sstats j)) [
          | inl out ↦ ground arith
          | inr (ssp, at) ↦ (i, j, csp, ssp, refl, there, at, ground arith)
        ]
      ]

  -- A step changes one entry only.
  abbrev Stepped :
      (g : Classstats D → Sectionstats D → Classstats D × Sectionstats D) (p : Option (ℕ × ℕ))
      (k : ℕ) (c : Classstats D) (next : List (Classstats D))
      → Type 0
  Stepped g p k c next =
      ((j : ℕ) × (ssp : Sectionstats D) × (p ≡ some (k, j))
        × (get_elem? c.sstats j ≡ some ssp)
        × (get_elem? next k ≡ some (merged j (g c ssp))))
      ⊎ (((j : ℕ) → p ≢ some (k, j)) × (get_elem? next k ≡ some c))

  step_at :
      (g : Classstats D → Sectionstats D → Classstats D × Sectionstats D) (p : Option (ℕ × ℕ))
      (i j k : ℕ) (c csp : Classstats D) (ssp : Sectionstats D) (classes next : List (Classstats D))
      → get_elem? classes k ≡ some c
      → p ≡ some (i, j)
      → get_elem? classes i ≡ some csp
      → get_elem? csp.sstats j ≡ some ssp
      → set classes i (merged j (g csp ssp)) ≡ next
      → Stepped g p k c next
  step_at g p i j k c csp ssp classes next e at there found made = elim (Bool-cases (i == k)) [
    | inl same ↦
        let ik : i ≡ k = ground arith in
        let one : csp ≡ c = ground arith in
        let new = merged j (g csp ssp) in
        inl (
          j,
          ssp,
          at ∙ ap (λ a. some (a, j)) ik,
          subst (λ a. get_elem? a.sstats j ≡ some ssp) one found,
          subst (λ l. get_elem? l k ≡ some (merged j (g c ssp))) made
              (subst (λ a. get_elem? (set classes i new) a ≡ some (merged j (g c ssp))) ik
                (get_elem?-set classes i csp new there ∙ ap (λ a. some (merged j (g a ssp))) one)),
        )
    | inr other ↦
        let ik : i ≢ k = ground arith in
        inr (
          λ j'. ground arith,
          subst (λ l. get_elem? l k ≡ some c) made
              (get_elem?-set_ne classes i k (merged j (g csp ssp)) ik ∙ e),
        )
  ]

  -- A fact of the entry at `k` and the scores to come that each step keeps holds at the end.
  module _ (f : Score D → Classstats D → Sectionstats D → Classstats D × Sectionstats D) (k : ℕ)
      (Q : List (Score D) → Classstats D → Type 0)
      (pass : (scp : Score D) (rest : List (Score D)) (c : Classstats D)
        → Misses k scp
        → Q (scp ∷ rest) c
        → Q rest c)
      (meet : (scp : Score D) (rest : List (Score D)) (c : Classstats D) (j : ℕ)
          (s : Sectionstats D)
        → Meets k scp c j s
        → Q (scp ∷ rest) c
        → Q rest (merged j (f scp c s))) where
    pub each_counted_keeps :
        (scores : List (Score D)) (classes classes' : List (Classstats D)) (c : Classstats D)
        → get_elem? classes k ≡ some c
        → each_counted f scores classes ≡ some classes'
        → Q scores c
        → (c' : Classstats D) × (get_elem? classes' k ≡ some c') × Q [] c'
    unfolding each_counted
    each_counted_keeps [] classes classes' c e h q = (c, ground arith, q)
    each_counted_keeps (scp ∷ rest) classes classes' c e h q = elim (Bool-cases (is_counted scp)) [
      | inr out ↦
          each_counted_keeps rest classes classes' c e (ground arith)
            (pass scp rest c (λ taken j. ground arith) q)
      | inl counted ↦ elim (Option-cases (update_stats (f scp) scp.stats classes)) [
        | inl fault ↦ absurd (ground arith)
        | inr (next, step) ↦
            let (i, j, csp, ssp, at, there, found, made) =
              update_stats_steps (f scp) scp.stats classes next step in
            elim (step_at (f scp) scp.stats i j k c csp ssp classes next e at there found made) [
              | inl (j', s, met, has, new) ↦
                  each_counted_keeps rest next classes' (merged j' (f scp c s)) new (ground arith)
                    (meet scp rest c j' s (counted, met, has) q)
              | inr (missed, kept) ↦
                  each_counted_keeps rest next classes' c kept (ground arith)
                    (pass scp rest c (λ taken. missed) q)
            ]
      ]
    ]
