-- ===== src/Grades/Statistics/Tallies.antt =====
-- The frequency tables that the passes of hw2/src/stats.c leave, one for each assignment and one for
-- each assignment and section.
use cse320_fall.Base.{
  ℕ, ◌+◌, ◌≡◌, ◌≢◌, refl, sym, ap, ◌∙◌, subst, Bool, true, false, ◌&&◌, Option, none, some, List,
  [], ◌∷◌, map, get_elem?, set, Option-cases, Bool-cases, inl, inr, get_elem?-set, get_elem?-set_ne,
  arith, ◌==◌, if◌then◌else◌,
}
use cse320_fall.Grades.Frequencies.{Freqs, Table, count_score}
use cse320_fall.Grades.Frequencies as Tables
use cse320_fall.Grades.Course.{Doubles, Classstats, Sectionstats, Score, is_counted}
use cse320_fall.Grades.Statistics.{tally, do_freqs}
use cse320_fall.Grades.Statistics.Passes.{merged, Meets, Misses, each_counted_keeps}

abbrev pub in_class : (k : ℕ) → Option (ℕ × ℕ) → Bool
in_class k none = false
in_class k (some (i, j)) = i == k

abbrev pub in_section : (k j : ℕ) → Option (ℕ × ℕ) → Bool
in_section k j none = false
in_section k j (some (i, j')) = i == k && j' == j

-- A counted grade as `Frequencies` reads it.
abbrev pub counted_grade : ℕ → Tables.Score
counted_grade g = record { grade = g; valid = true; useraw = false }

module _ (d : Doubles) where
  open d use {Double, place}

  -- The places of the counted grades whose statistics pass a test.
  abbrev pub grades : (Option (ℕ × ℕ) → Bool) → List (Score Double) → List ℕ
  grades test [] = []
  grades test (scp ∷ rest) =
      let onward = grades test rest in
      if is_counted scp && test scp.stats then place scp.grade ∷ onward else onward

  abbrev pub class_table : Classstats Double → Table
  class_table c = record { freqs = c.freqs; tallied = c.tallied }

  abbrev pub section_table : Sectionstats Double → Table
  section_table s = record { freqs = s.freqs; tallied = s.tallied }

  abbrev pub tabled : List ℕ → Table → Table
  tabled gs t = Tables.do_freqs (map counted_grade gs) t

  -- What the lemmas below ask of a test: it passes the scores of one entry, or of one section in it.
  grades_skip :
      (test : Option (ℕ × ℕ) → Bool) (scp : Score Double) (rest : List (Score Double))
      → (is_counted scp ≡ true → test scp.stats ≡ false)
      → grades test (scp ∷ rest) ≡ grades test rest
  grades_skip test scp rest h = elim (Bool-cases (is_counted scp)) [
    | inl counted ↦ rw (counted, h counted) refl
    | inr out ↦ rw out refl
  ]

  grades_take :
      (test : Option (ℕ × ℕ) → Bool) (scp : Score Double) (rest : List (Score Double))
      → is_counted scp ≡ true
      → test scp.stats ≡ true
      → grades test (scp ∷ rest) ≡ place scp.grade ∷ grades test rest
  grades_take test scp rest a b = rw (a, b) refl

  in_class-Misses :
      (k : ℕ) (scp : Score Double)
      → Misses k scp
      → is_counted scp ≡ true
      → in_class k scp.stats ≡ false
  in_class-Misses k scp m c = elim (Option-cases scp.stats) [
    | inl e ↦ rw e refl
    | inr ((i, j), e) ↦ elim (Bool-cases (i == k)) [
      | inr other ↦ rw e other
      | inl same ↦ absurd (m c j (e ∙ ap (λ a. some (a, j)) (ground arith)))
    ]
  ]

  grades_taken :
      (test : Option (ℕ × ℕ) → Bool) (p : ℕ × ℕ) (scp : Score Double) (rest : List (Score Double))
      → is_counted scp ≡ true
      → scp.stats ≡ some p
      → test (some p) ≡ true
      → grades test (scp ∷ rest) ≡ place scp.grade ∷ grades test rest
  grades_taken test p scp rest a at b =
      grades_take test scp rest a (subst (λ q. test q ≡ true) (sym at) b)

  -- The scores to come leave a table as the scores of a test do.
  abbrev Leaves : (Option (ℕ × ℕ) → Bool) → List (Score Double) → Table → Table → Type 0
  Leaves test rest t goal = tabled (grades test rest) t ≡ goal

  Leaves-skip :
      (test : Option (ℕ × ℕ) → Bool) (scp : Score Double) (rest : List (Score Double))
      (t goal : Table)
      → (is_counted scp ≡ true → test scp.stats ≡ false)
      → Leaves test (scp ∷ rest) t goal
      → Leaves test rest t goal
  Leaves-skip test scp rest t goal h q =
      ap (λ gs. tabled gs t) (sym (grades_skip test scp rest h)) ∙ q

  Leaves-take :
      (test : Option (ℕ × ℕ) → Bool) (p : ℕ × ℕ) (scp : Score Double) (rest : List (Score Double))
      (t goal : Table)
      → is_counted scp ≡ true
      → scp.stats ≡ some p
      → test (some p) ≡ true
      → Leaves test (scp ∷ rest) t goal
      → Leaves test rest
          (record { freqs = count_score (place scp.grade) t.freqs; tallied = t.tallied + 1 })
          goal
  unfolding Tables.do_freqs
  Leaves-take test p scp rest t goal a at b q =
      ap (λ gs. tabled gs t) (sym (grades_taken test p scp rest a at b)) ∙ q

  pub do_freqs-class :
      (k : ℕ) (scores : List (Score Double)) (classes classes' : List (Classstats Double))
      (c : Classstats Double)
      → get_elem? classes k ≡ some c
      → do_freqs d scores classes ≡ some classes'
      → (c' : Classstats Double) × (get_elem? classes' k ≡ some c')
        × (class_table c' ≡ tabled (grades (in_class k) scores) (class_table c))
        × (c'.asgt ≡ c.asgt)
  unfolding do_freqs tally Tables.do_freqs
  do_freqs-class k scores classes classes' c e h =
      let goal = tabled (grades (in_class k) scores) (class_table c) in
      let (c', at, q) =
        each_counted_keeps (tally d) k
          (λ rest a. Leaves (in_class k) rest (class_table a) goal × (a.asgt ≡ c.asgt))
          (λ scp rest a misses q. (
            Leaves-skip (in_class k) scp rest (class_table a) goal (in_class-Misses k scp misses)
                q.0,
            q.1,
          ))
          (λ scp rest a j s meets q. (
            Leaves-take (in_class k) (k, j) scp rest (class_table a) goal meets.0 meets.1
                (ground arith) q.0,
            q.1,
          ))
          scores classes classes' c e h (refl, refl) in
      (c', at, q.0, q.1)

  in_section_other : (k j : ℕ) (p : Option (ℕ × ℕ)) → p ≢ some (k, j) → in_section k j p ≡ false
  in_section_other k j none h = refl
  in_section_other k j (some (i, i')) h = elim (Bool-cases (in_section k j (some (i, i')))) [
    | inr other ↦ other
    | inl same ↦
        let a : i ≡ k = ground arith in
        let b : i' ≡ j = ground arith in
        absurd (h (ap (λ x. some (x, i')) a ∙ ap (λ x. some (k, x)) b))
  ]

  -- The entry has a table for the section at `j`, which the scores to come leave as `goal`.
  abbrev HasTable : (k j : ℕ) → List (Score Double) → Classstats Double → (goal : Table) → Type 0
  HasTable k j rest c goal =
      (s : Sectionstats Double) × (get_elem? c.sstats j ≡ some s)
      × Leaves (in_section k j) rest (section_table s) goal

  HasTable-meet :
      (k j i : ℕ) (scp : Score Double) (rest : List (Score Double)) (a : Classstats Double)
      (s : Sectionstats Double) (goal : Table)
      → Meets k scp a i s
      → HasTable k j (scp ∷ rest) a goal
      → HasTable k j rest (merged i (tally d scp a s)) goal
  unfolding tally
  HasTable-meet k j i scp rest a s goal (counted, at, has) (t, found, q) =
      elim (Bool-cases (i == j)) [
        | inl same ↦
            let ij : i ≡ j = ground arith in
            let one : t ≡ s = ground arith in
            (
              (tally d scp a s).1,
              subst
                  (λ x. get_elem? (set a.sstats i (tally d scp a s).1) x ≡ some (tally d scp a s).1)
                  ij (get_elem?-set a.sstats i s (tally d scp a s).1 has),
              Leaves-take (in_section k j) (k, i) scp rest (section_table s) goal counted at
                  (ground arith)
                  (subst (λ x. Leaves (in_section k j) (scp ∷ rest) (section_table x) goal) one q),
            )
        | inr other ↦ (
          t,
          get_elem?-set_ne a.sstats i j (tally d scp a s).1 (ground arith) ∙ found,
          Leaves-skip (in_section k j) scp rest (section_table t) goal
              (λ taken. in_section_other k j scp.stats (λ e. ground arith)) q,
        )
      ]

  pub do_freqs-section :
      (k j : ℕ) (scores : List (Score Double)) (classes classes' : List (Classstats Double))
      (c : Classstats Double) (s : Sectionstats Double)
      → get_elem? classes k ≡ some c
      → get_elem? c.sstats j ≡ some s
      → do_freqs d scores classes ≡ some classes'
      → (c' : Classstats Double) × (get_elem? classes' k ≡ some c')
        × (s' : Sectionstats Double) × (get_elem? c'.sstats j ≡ some s')
        × (section_table s' ≡ tabled (grades (in_section k j) scores) (section_table s))
  unfolding do_freqs Tables.do_freqs
  do_freqs-section k j scores classes classes' c s e at h =
      let goal = tabled (grades (in_section k j) scores) (section_table s) in
      let (c', there, q) =
        each_counted_keeps (tally d) k (λ rest a. HasTable k j rest a goal)
          (λ scp rest a misses q. (
            q.0,
            q.1,
            Leaves-skip (in_section k j) scp rest (section_table q.0) goal
                (λ taken. in_section_other k j scp.stats (misses taken j)) q.2,
          ))
          (λ scp rest a i t meets q. HasTable-meet k j i scp rest a t goal meets q) scores classes
          classes' c e h (s, at, refl) in
      (c', there, q.0, q.1, q.2)
