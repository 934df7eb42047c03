-- ===== src/Grades/Frequencies/Quantiles.antt =====
-- What the frequency tables of hw2/src/stats.c say of the scores.
use cse320_fall.Base.{
  ℕ, zero, suc, ◌+◌, ◌<◌, ◌≡◌, refl, Bool, ◌||◌, some, List, [], ◌∷◌, arith, ltb, leb, ◌==◌,
  if◌then◌else◌, get_elem?, All, count, Bool-cases, inl, inr,
}
use cse320_fall.Grades.Frequencies.{
  Freqs, count_score, Score, Table, do_freqs, sum_up, do_quantiles,
}

-- The grades that are counted.
abbrev pub counted : List Score → List ℕ
counted [] = []
counted (s ∷ ss) = if s.valid || s.useraw then s.grade ∷ counted ss else counted ss

-- The counts of the buckets whose score passes a test.
abbrev pub total : (ℕ → Bool) → List Freqs → ℕ
total test [] = 0
total test (f ∷ fs) = (if test f.score then f.count else 0) + total test fs

abbrev pub AllAbove : ℕ → List Freqs → Type 0
AllAbove k = All (λ f. k < f.score)

abbrev pub IsAscending : List Freqs → Type 0
IsAscending [] = Unit
IsAscending (f ∷ fs) = AllAbove f.score fs × IsAscending fs

count_score-total :
    (test : ℕ → Bool) (g : ℕ) (fs : List Freqs)
    → total test (count_score g fs) ≡ (if test g then 1 else 0) + total test fs
unfolding count_score
count_score-total test g [] = ground arith
count_score-total test g (f ∷ fs) = elim (Bool-cases (f.score == g)) [
  | inl same ↦ ground (arith)
  | inr other ↦ ground (arith, count_score-total test g fs)
]

AllAbove-lt : (a b : ℕ) (fs : List Freqs) → a < b → AllAbove b fs → AllAbove a fs
AllAbove-lt a b [] l h = tt
AllAbove-lt a b (f ∷ fs) l h = (omega arith, AllAbove-lt a b fs l h.1)

count_score-AllAbove :
    (k g : ℕ) (fs : List Freqs) → k < g → AllAbove k fs → AllAbove k (count_score g fs)
unfolding count_score
count_score-AllAbove k g [] l h = (l, tt)
count_score-AllAbove k g (f ∷ fs) l h = ground (arith, count_score-AllAbove k g fs)

count_score-IsAscending :
    (g : ℕ) (fs : List Freqs) → IsAscending fs → IsAscending (count_score g fs)
unfolding count_score
count_score-IsAscending g [] a = (tt, tt)
count_score-IsAscending g (f ∷ fs) a = ground (
  arith,
  count_score-IsAscending g fs,
  count_score-AllAbove f.score g fs,
  AllAbove-lt g f.score fs,
)

pub do_freqs-total :
    (test : ℕ → Bool) (ss : List Score) (t : Table)
    → total test (do_freqs ss t).freqs ≡ count test (counted ss) + total test t.freqs
unfolding do_freqs
do_freqs-total test [] t = omega arith
do_freqs-total test (s ∷ ss) t = elim (Bool-cases (s.valid || s.useraw)) [
  | inl taken ↦ ground (
    arith,
    do_freqs-total test ss
        (record { freqs = count_score s.grade t.freqs; tallied = t.tallied + 1 }),
    count_score-total test s.grade t.freqs,
  )
  | inr left ↦ ground (arith, do_freqs-total test ss t)
]

pub do_freqs-IsAscending :
    (ss : List Score) (t : Table) → IsAscending t.freqs → IsAscending (do_freqs ss t).freqs
unfolding do_freqs
do_freqs-IsAscending [] t a = a
do_freqs-IsAscending (s ∷ ss) t a = elim (Bool-cases (s.valid || s.useraw)) [
  | inl taken ↦
      rw (IsAscending, taken)
        (do_freqs-IsAscending ss
          (record { freqs = count_score s.grade t.freqs; tallied = t.tallied + 1 })
          (count_score-IsAscending s.grade t.freqs a))
  | inr left ↦ rw (IsAscending, left) (do_freqs-IsAscending ss t a)
]

total_above :
    (k : ℕ) (fs : List Freqs)
    → AllAbove k fs
    → (total (λ s. ltb s k) fs ≡ 0) × (total (λ s. leb s k) fs ≡ 0) × (total (λ s. s == k) fs ≡ 0)
total_above k [] a = (refl, refl, refl)
total_above k (f ∷ fs) a = ground (arith, total_above k fs a.1)

sum_up-above :
    (k sum i : ℕ) (fs : List Freqs) (e : Freqs)
    → AllAbove k fs
    → get_elem? (sum_up sum fs) i ≡ some e
    → k < e.score
unfolding sum_up
sum_up-above k sum i [] e a h = cc
sum_up-above k sum zero (f ∷ fs) e a h = ground arith
sum_up-above k sum (suc i) (f ∷ fs) e a h = sum_up-above k (sum + f.count) i fs e a.1 h

sum_up-total :
    (sum i : ℕ) (fs : List Freqs) (e : Freqs)
    → IsAscending fs
    → get_elem? (sum_up sum fs) i ≡ some e
    → (e.numless ≡ sum + total (λ s. ltb s e.score) fs)
      × (e.numlesseq ≡ sum + total (λ s. leb s e.score) fs)
      × (e.count ≡ total (λ s. s == e.score) fs)
unfolding sum_up
sum_up-total sum i [] e a h = cc
sum_up-total sum zero (f ∷ fs) e a h = ground (arith, total_above f.score fs a.0)
sum_up-total sum (suc i) (f ∷ fs) e a h = ground (
  arith,
  sum_up-total (sum + f.count) i fs e a.1 h,
  sum_up-above f.score (sum + f.count) i fs e a.0 h,
)

-- In the table that `do_freqs` builds from scores and `do_quantiles` sums up, each bucket's count is
-- the number of counted scores equal to its score, `numless` the number of those below it, and
-- `numlesseq` the number of those not above it.
pub do_quantiles-do_freqs :
    (ss : List Score) (i : ℕ) (e : Freqs)
    → let t = do_freqs ss (record { freqs = []; tallied = 0 }) in
      get_elem? (do_quantiles t.freqs) i ≡ some e
      → (e.count ≡ count (λ g. g == e.score) (counted ss))
        × (e.numless ≡ count (λ g. ltb g e.score) (counted ss))
        × (e.numlesseq ≡ count (λ g. leb g e.score) (counted ss))
unfolding do_quantiles
do_quantiles-do_freqs ss i e h =
    let start : Table = record { freqs = []; tallied = 0 } in
    let sums = sum_up-total 0 i (do_freqs ss start).freqs e (do_freqs-IsAscending ss start tt) h in
    (
      omega (arith, sums.2, do_freqs-total (λ g. g == e.score) ss start),
      omega (arith, sums.0, do_freqs-total (λ g. ltb g e.score) ss start),
      omega (arith, sums.1, do_freqs-total (λ g. leb g e.score) ss start),
    )
