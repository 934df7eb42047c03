-- ===== src/Grades/Normal/Missing.antt =====
-- The search of `normal` (hw2/src/normal.c) for a score that its table does not have.
use cse320_fall.Base.{
  ℕ, ◌<◌, ◌≤◌, ◌≡◌, ◌≢◌, refl, ap, ◌∙◌, true, false, ◌&&◌, Bool-cases, some, List, [], ◌∷◌, All,
  inl, inr, arith, ltb, ◌==◌, if◌then◌else◌,
}
use cse320_fall.Grades.Frequencies.{Freqs}
use cse320_fall.Grades.Frequencies.Quantiles.{IsAscending, AllAbove}
use cse320_fall.Grades.Normal.{find_bucket, quantile_bucket}

abbrev pub last_of : Freqs → List Freqs → Freqs
last_of p [] = p
last_of p (f ∷ fs) = last_of f fs

last_of-lt : (p : Freqs) (fs : List Freqs) → IsAscending (p ∷ fs) → p.score ≤ (last_of p fs).score
last_of-lt p [] a = omega arith
last_of-lt p (f ∷ fs) a = omega (arith, last_of-lt f fs a.1, a.0.0)

-- Below the scores to come, the walk takes each of them in turn.
find_bucket_below :
    (s : ℕ) (p : Freqs) (fs : List Freqs)
    → AllAbove p.score fs
    → IsAscending fs
    → All (λ f. s < f.score) fs
    → find_bucket s p fs ≡ last_of p fs
unfolding find_bucket
find_bucket_below s p [] u a m = refl
find_bucket_below s p (f ∷ fs) u a m =
    let below : (s == f.score) ≡ false = ground arith in
    let taken : (ltb s f.score && ltb p.score f.score) ≡ true = ground arith in
    rw (below, taken) (find_bucket_below s f fs a.0 a.1 m.1)

AllAbove-trans : (s k : ℕ) (fs : List Freqs) → s < k → AllAbove k fs → All (λ f. s < f.score) fs
AllAbove-trans s k [] l h = tt
AllAbove-trans s k (f ∷ fs) l h = (omega (arith, h.0), AllAbove-trans s k fs l h.1)

same_end :
    (s : ℕ) (p f : Freqs) (fs : List Freqs)
    → ltb s p.score ≡ false
    → ltb s f.score ≡ false
    → (if ltb s (last_of p fs).score then last_of p fs else p)
      ≡ (if ltb s (last_of f fs).score then last_of f fs else p)
same_end s p f [] a b = rw (a, b) refl
same_end s p f (g ∷ gs) a b = refl

find_bucket_from :
    (s : ℕ) (p : Freqs) (fs : List Freqs)
    → AllAbove p.score fs
    → IsAscending fs
    → All (λ f. s ≢ f.score) fs
    → p.score < s
    → find_bucket s p fs ≡ (if ltb s (last_of p fs).score then last_of p fs else p)
unfolding find_bucket
find_bucket_from s p [] u a m l = ground arith
find_bucket_from s p (f ∷ fs) u a m l =
    let other : (s == f.score) ≡ false = ground arith in
    elim (Bool-cases (ltb s f.score)) [
      | inl low ↦
          let taken : (ltb s f.score && ltb p.score f.score) ≡ true = ground arith in
          let ends : ltb s (last_of f fs).score ≡ true = ground (arith, last_of-lt f fs a) in
          rw (other, taken, ends)
            (find_bucket_below s f fs a.0 a.1 (AllAbove-trans s f.score fs (ground arith) a.0))
      | inr high ↦
          let passed : (ltb s f.score && ltb p.score f.score) ≡ false = ground arith in
          rw (other, passed)
            (find_bucket_from s p fs u.1 a.1 m.1 l ∙ same_end s p f fs (ground arith) high)
    ]

-- For a score that is in none of an ascending table's buckets, the search ends at the last bucket
-- when the score is below the table's greatest, and at the first bucket otherwise: never, but by
-- chance, at the bucket of the greatest score below it.
pub quantile_bucket_missing :
    (s : ℕ) (p : Freqs) (fs : List Freqs)
    → IsAscending (p ∷ fs)
    → All (λ f. s ≢ f.score) (p ∷ fs)
    → quantile_bucket s (p ∷ fs) ≡ some (if ltb s (last_of p fs).score then last_of p fs else p)
unfolding quantile_bucket find_bucket
quantile_bucket_missing s p fs a m =
    let other : (s == p.score) ≡ false = ground arith in
    let stays : (ltb s p.score && ltb p.score p.score) ≡ false = ground arith in
    rw (other, stays)
      (ap some (elim (Bool-cases (ltb s p.score)) [
        | inl low ↦
            let ends : ltb s (last_of p fs).score ≡ true = ground (arith, last_of-lt p fs a) in
            rw ends
              (find_bucket_below s p fs a.0 a.1 (AllAbove-trans s p.score fs (ground arith) a.0))
        | inr high ↦ find_bucket_from s p fs a.0 a.1 m.1 (ground arith)
      ]))
