-- ===== src/Grades/Normal/Quantiles.antt =====
-- Quantile normalization (`normal` of hw2/src/normal.c) of a score that the passes of
-- hw2/src/stats.c have counted.
use cse320_fall.Base.{
  ℕ, zero, suc, ◌<◌, ◌≡◌, refl, sym, ap, ◌∙◌, subst, Bool, true, false, Option, some, List, [], ◌∷◌,
  get_elem?, length, count, arith, ltb, ◌==◌,
}
use cse320_fall.Grades.Frequencies.{Table}
use cse320_fall.Grades.Course.{
  Doubles, Npolicy, Ngroup, Assignment, Classstats, Sectionstats, Score, Store, is_counted,
}
use cse320_fall.Grades.Statistics.{fill_in}
use cse320_fall.Grades.Statistics.Tallies.{in_class, in_section, grades, class_table, section_table}
use cse320_fall.Grades.Statistics.Filled.{IsTable, fill_in-IsTable}
use cse320_fall.Grades.Normal.{normal, normal_at, normal_quantile, percentile}
use cse320_fall.Grades.Normal.Buckets.{empty_table, do_freqs-tallied, quantile_bucket-do_quantiles}

-- The scores that an assignment's group takes in.
abbrev pub group : Ngroup → (k j : ℕ) → Option (ℕ × ℕ) → Bool
group Ngroup.by_class k j = in_class k
group Ngroup.by_section k j = in_section k j

by_group :
    {A : Type 0} (n : Ngroup) (k j : ℕ) (a b : A) (goal : (Option (ℕ × ℕ) → Bool) → A)
    → a ≡ goal (in_class k)
    → b ≡ goal (in_section k j)
    → elim n [ Ngroup.by_class ↦ a | Ngroup.by_section ↦ b ] ≡ goal (group n k j)
by_group Ngroup.by_class k j a b goal p q = p
by_group Ngroup.by_section k j a b goal p q = q

module _ (d : Doubles) where
  open d use {Double, place}

  -- The quantile of a grade among others: the number below it, to 100, over their number.
  abbrev pub quantile_of : (g : Double) → List ℕ → Double
  quantile_of g gs = percentile d (count (λ x. ltb x (place g)) gs) (length gs)

  count-length : (g : ℕ) (gs : List ℕ) → 0 < count (λ x. x == g) gs → 0 < length gs
  count-length g [] h = absurd (omega arith)
  count-length g (x ∷ gs) h = omega arith

  normal_quantile-IsTable :
      (g : Double) (test : Option (ℕ × ℕ) → Bool) (scores : List (Score Double)) (final : Table)
      (st : Store Double)
      → 0 < count (λ x. x == place g) (grades d test scores)
      → IsTable d test scores empty_table final
      → normal_quantile d g final.freqs final.tallied st
        ≡ some (quantile_of g (grades d test scores), st)
  unfolding normal_quantile
  normal_quantile-IsTable g test scores final st h (f, t) =
      let gs = grades d test scores in
      let (e, found, below) = quantile_bucket-do_quantiles gs (place g) h in
      let tallied : final.tallied ≡ length gs = omega (arith, t, do_freqs-tallied gs empty_table) in
      let some_there : (length gs == 0) ≡ false = ground (arith, count-length (place g) gs h) in
      rw (f, normal_quantile, found, tallied, some_there, below) refl

  grades-there :
      (test : Option (ℕ × ℕ) → Bool) (scores : List (Score Double)) (i : ℕ) (scp : Score Double)
      → get_elem? scores i ≡ some scp
      → is_counted scp ≡ true
      → test scp.stats ≡ true
      → 0 < count (λ x. x == place scp.grade) (grades d test scores)
  grades-there test [] i scp e c t = cc
  grades-there test (x ∷ rest) zero scp e c t =
      let counted : is_counted x ≡ true = ground arith in
      let passed : test x.stats ≡ true = ground arith in
      let same : place x.grade ≡ place scp.grade = ground arith in
      rw (counted, passed) (ground arith)
  grades-there test (x ∷ rest) (suc i) scp e c t =
      ground (arith, grades-there test rest i scp e c t)

  pub normal-fill_in :
      (scores : List (Score Double)) (classes filled : List (Classstats Double)) (w : ℕ)
      (st : Store Double) (k j i : ℕ) (c : Classstats Double) (s : Sectionstats Double)
      (a : Assignment Double) (scp : Score Double)
      → get_elem? classes k ≡ some c
      → get_elem? c.sstats j ≡ some s
      → class_table d c ≡ empty_table
      → section_table d s ≡ empty_table
      → fill_in d scores classes ≡ some (filled, w)
      → st.cstats ≡ filled
      → get_elem? st.assignments c.asgt ≡ some a
      → a.npolicy ≡ Npolicy.quantile
      → get_elem? scores i ≡ some scp
      → is_counted scp ≡ true
      → scp.stats ≡ some (k, j)
      → normal d scp.grade scp.stats st
        ≡ some (quantile_of scp.grade (grades d (group a.ngroup k j) scores), st)
  unfolding normal normal_at
  normal-fill_in scores classes filled w st k j i c s a scp ec es tc ts h st_is ea qu at taken
        link =
      let (c', s', ec', es', asg, tab, sec) =
        fill_in-IsTable d k j scores classes filled w c s ec es h in
      let here : get_elem? st.cstats k ≡ some c' = ap (λ l. get_elem? l k) st_is ∙ ec' in
      let asked : get_elem? st.assignments c'.asgt ≡ some a =
        ap (get_elem? st.assignments) asg ∙ ea in
      let of_class : IsTable d (in_class k) scores empty_table (class_table d c') =
        subst (λ t. IsTable d (in_class k) scores t (class_table d c')) tc tab in
      let of_section : IsTable d (in_section k j) scores empty_table (section_table d s') =
        subst (λ t. IsTable d (in_section k j) scores t (section_table d s')) ts sec in
      let g = scp.grade in
      rw (link, normal, here, es', asked, normal_at, qu)
        (by_group a.ngroup k j _ _ (λ test. some (quantile_of g (grades d test scores), st))
          (normal_quantile-IsTable g (in_class k) scores (class_table d c') st
            (grades-there (in_class k) scores i scp at taken
              (subst (λ p. in_class k p ≡ true) (sym link) (ground arith)))
            of_class)
          (normal_quantile-IsTable g (in_section k j) scores (section_table d s') st
            (grades-there (in_section k j) scores i scp at taken
              (subst (λ p. in_section k j p ≡ true) (sym link) (ground arith)))
            of_section))
