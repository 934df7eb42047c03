-- ===== src/Grades/Normal/Buckets.antt =====
-- The search of `normal` (hw2/src/normal.c) in the tables that `do_freqs` and `do_quantiles` build.
use cse320_fall.Base.{
  ℕ, zero, suc, ◌+◌, ◌<◌, ◌≡◌, refl, ap, ◌∙◌, true, ◌&&◌, some, List, [], ◌∷◌, map, get_elem?,
  length, count, Bool-cases, inl, inr, arith, ltb, ◌==◌, if◌then◌else◌,
}
use cse320_fall.Grades.Frequencies.{Freqs, Table, count_score, do_freqs, sum_up, do_quantiles}
use cse320_fall.Grades.Frequencies.Quantiles.{total, counted, do_freqs-total, do_quantiles-do_freqs}
use cse320_fall.Grades.Statistics.Tallies.{counted_grade}
use cse320_fall.Grades.Normal.{find_bucket, quantile_bucket}

-- A bucket for the score.
abbrev pub Has : (s : ℕ) → List Freqs → Type 0
Has s fs = (i : ℕ) × (e : Freqs) × (get_elem? fs i ≡ some e) × (e.score ≡ s)

find_bucket-Has :
    (s : ℕ) (p : Freqs) (fs : List Freqs) (i : ℕ) (e : Freqs)
    → get_elem? fs i ≡ some e
    → e.score ≡ s
    → (j : ℕ) × (get_elem? fs j ≡ some (find_bucket s p fs)) × ((find_bucket s p fs).score ≡ s)
unfolding find_bucket
find_bucket-Has s p [] i e h k = cc
find_bucket-Has s p (fp ∷ rest) zero e h k =
    let same : (s == fp.score) ≡ true = ground arith in (0, rw same refl, rw same (ground arith))
find_bucket-Has s p (fp ∷ rest) (suc i) e h k = elim (Bool-cases (s == fp.score)) [
  | inl same ↦ (0, rw same refl, rw same (ground arith))
  | inr other ↦
      let p' = if ltb s fp.score && ltb p.score fp.score then fp else p in
      let (j, at, sc) = find_bucket-Has s p' rest i e h k in (suc j, rw other at, rw other sc)
]

pub quantile_bucket-Has :
    (s : ℕ) (fs : List Freqs)
    → Has s fs
    → (j : ℕ) × (e : Freqs) × (get_elem? fs j ≡ some e)
      × (e.score ≡ s)
      × (quantile_bucket s fs ≡ some e)
unfolding quantile_bucket
quantile_bucket-Has s [] (i, e, h, k) = cc
quantile_bucket-Has s (fp ∷ rest) (i, e, h, k) =
    let (j, at, sc) = find_bucket-Has s fp (fp ∷ rest) i e h k in
    (j, find_bucket s fp (fp ∷ rest), at, sc, refl)

-- A score that is counted has a bucket.
total-Has : (s : ℕ) (fs : List Freqs) → 0 < total (λ x. x == s) fs → Has s fs
total-Has s [] h = absurd (omega arith)
total-Has s (f ∷ fs) h = elim (Bool-cases (f.score == s)) [
  | inl same ↦ (0, f, refl, ground arith)
  | inr other ↦ let (i, e, a, b) = total-Has s fs (ground arith) in (suc i, e, a, b)
]

sum_up-Has : (s sum : ℕ) (fs : List Freqs) → Has s fs → Has s (sum_up sum fs)
unfolding sum_up
sum_up-Has s sum [] (i, e, h, k) = cc
sum_up-Has s sum (f ∷ fs) (zero, e, h, k) =
    (0, record f { numless = sum; numlesseq = sum + f.count }, refl, ground arith)
sum_up-Has s sum (f ∷ fs) (suc i, e, h, k) =
    let (j, e', a, b) = sum_up-Has s (sum + f.count) fs (i, e, h, k) in (suc j, e', a, b)

abbrev pub empty_table : Table
empty_table = record { freqs = []; tallied = 0 }

counted-counted_grade : (gs : List ℕ) → counted (map counted_grade gs) ≡ gs
counted-counted_grade [] = refl
counted-counted_grade (g ∷ gs) = ap (λ l. g ∷ l) (counted-counted_grade gs)

pub do_freqs-tallied :
    (gs : List ℕ) (t : Table) → (do_freqs (map counted_grade gs) t).tallied ≡ length gs + t.tallied
unfolding do_freqs
do_freqs-tallied [] t = omega arith
do_freqs-tallied (g ∷ gs) t =
    omega (
      arith,
      do_freqs-tallied gs (record { freqs = count_score g t.freqs; tallied = t.tallied + 1 }),
    )

-- The search for a counted grade in the finished table meets the bucket of that grade, in which
-- `numless` is the number of counted grades below it.
pub quantile_bucket-do_quantiles :
    (gs : List ℕ) (g : ℕ)
    → 0 < count (λ x. x == g) gs
    → (e : Freqs) × (quantile_bucket g
          (do_quantiles (do_freqs (map counted_grade gs) empty_table).freqs)
        ≡ some e)
      × (e.numless ≡ count (λ x. ltb x g) gs)
unfolding do_quantiles
quantile_bucket-do_quantiles gs g h =
    let ss = map counted_grade gs in
    let t = do_freqs ss empty_table in
    let there : 0 < total (λ x. x == g) t.freqs =
      ground (arith, do_freqs-total (λ x. x == g) ss empty_table, counted-counted_grade gs) in
    let (j, e, at, sc, found) =
      quantile_bucket-Has g (do_quantiles t.freqs)
        (sum_up-Has g 0 t.freqs (total-Has g t.freqs there)) in
    let (a, b, c) = do_quantiles-do_freqs ss j e at in
    (
      e,
      found,
      b
          ∙ ap (count (λ x. ltb x e.score)) (counted-counted_grade gs)
          ∙ ap (λ k. count (λ x. ltb x k) gs) sc,
    )
