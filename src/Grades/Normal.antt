-- ===== src/Grades/Normal.antt =====
-- The normalization of scores, hw2/src/normal.c. `none` is a read through a null or stray pointer.
pub mod Buckets
pub mod Quantiles
pub mod Percentiles
pub mod Missing
pub mod Stores
pub mod Unchanged
pub mod Returns
use cse320_fall.Base.{
  ℕ, zero, ◌+◌, ◌*◌, Bool, true, false, ◌&&◌, Option, none, some, List, [], ◌∷◌, ltb, ◌==◌,
  if◌then◌else◌, get_elem?, set,
}
use cse320_fall.Grades.Frequencies.{Freqs}
use cse320_fall.Grades.Course.{
  Doubles, Gflag, Gsubst, Wpolicy, Npolicy, Ngroup, Assignment, Sectionstats, Classstats, Score,
  Student, Store, warn,
}

-- The walk of `normal` over the table after `f_ptr` has been set.
unfoldable pub find_bucket : (s : ℕ) (f_ptr : Freqs) → List Freqs → Freqs
find_bucket s f_ptr [] = f_ptr
find_bucket s f_ptr (fp ∷ rest) =
    let onward =
      find_bucket s (if ltb s fp.score && ltb f_ptr.score fp.score then fp else f_ptr) rest in
    if s == fp.score then fp else onward

unfoldable pub quantile_bucket : (s : ℕ) → List Freqs → Option Freqs
unfolding find_bucket
quantile_bucket s [] = none
quantile_bucket s (fp ∷ rest) = some (find_bucket s fp (fp ∷ rest))

module _ (d : Doubles) where
  open d use {Double, place, to_float, of_int, add, sub, mul, div, lt, eq, epsilon}

  unfoldable pub linear : (s rm rd nm nd : Double) → Double
  linear s rm rd nm nd = to_float (add (div (mul nd (sub s rm)) rd) nm)

  unfoldable pub scale : (s max top : Double) → Double
  scale s max top = to_float (div (mul s top) max)

  abbrev pub two_epsilon : Double
  two_epsilon = to_float (mul (of_int 2) epsilon)

  -- `(float)fp->numless*100.0/n`
  abbrev pub percentile : (numless n : ℕ) → Double
  percentile numless n = to_float (div (mul (to_float (of_int numless)) (of_int 100)) (of_int n))

  -- The QUANTILE case once the table and the count are chosen.
  unfoldable pub normal_quantile :
      Double → List Freqs → (tallied : ℕ) → Store Double → Option (Double × Store Double)
  unfolding quantile_bucket warn
  normal_quantile s freqs tallied st =
      let n = if tallied == 0 then 1 else tallied in
      elim (quantile_bucket (place s) freqs) [
        | none ↦ none
        | some fp ↦ some (percentile fp.numless n, if tallied == 0 then warn st else st)
      ]

  -- The LINEAR cases, with the write to `stddev`.
  unfoldable pub normal_linear_class :
      Double
      → (i : ℕ) → Classstats Double
      → Assignment Double
      → Store Double
      → Double × Store Double
  unfolding linear warn
  normal_linear_class s i csp a st =
      if lt csp.stddev epsilon
      then (
        linear s csp.mean two_epsilon a.mean a.stddev,
        record (warn st) { cstats = set st.cstats i (record csp { stddev = two_epsilon }) },
      )
      else (linear s csp.mean csp.stddev a.mean a.stddev, st)

  unfoldable pub normal_linear_section :
      Double
      → (i j : ℕ) → Classstats Double
      → Sectionstats Double
      → Assignment Double
      → Store Double
      → Double × Store Double
  unfolding linear warn
  normal_linear_section s i j csp ssp a st =
      if lt ssp.stddev epsilon
      then (
        linear s ssp.mean two_epsilon a.mean a.stddev,
        record (warn st) {
          cstats =
              set st.cstats i
                (record csp { sstats = set csp.sstats j (record ssp { stddev = two_epsilon }) });
        },
      )
      else (linear s ssp.mean ssp.stddev a.mean a.stddev, st)

  -- The SCALE case, with the write to `max`.
  unfoldable pub normal_scale :
      Double → (k : ℕ) → Assignment Double → Store Double → Double × Store Double
  unfolding scale warn
  normal_scale s k a st =
      if lt a.max epsilon
      then (
        scale s two_epsilon a.scale,
        record (warn st) { assignments = set st.assignments k (record a { max = two_epsilon }) },
      )
      else (scale s a.max a.scale, st)

  -- A normalization once the pointers are followed.
  unfoldable pub normal_at :
      Double
      → (i j : ℕ) → Classstats Double
      → Sectionstats Double
      → Assignment Double
      → Store Double
      → Option (Double × Store Double)
  unfolding normal_quantile normal_linear_class normal_linear_section normal_scale
  normal_at s i j csp ssp a st = elim a.npolicy [
    | Npolicy.raw ↦ some (to_float s, st)
    | Npolicy.linear ↦ elim a.ngroup [
      | Ngroup.by_class ↦ some (normal_linear_class s i csp a st)
      | Ngroup.by_section ↦ some (normal_linear_section s i j csp ssp a st)
    ]
    | Npolicy.quantile ↦ elim a.ngroup [
      | Ngroup.by_class ↦ normal_quantile s csp.freqs csp.tallied st
      | Ngroup.by_section ↦ normal_quantile s ssp.freqs ssp.tallied st
    ]
    | Npolicy.scale ↦ some (normal_scale s csp.asgt a st)
  ]

  unfoldable pub normal : Double → Option (ℕ × ℕ) → Store Double → Option (Double × Store Double)
  unfolding normal_at
  normal s none st = none
  normal s (some (i, j)) st = elim (get_elem? st.cstats i) [
    | none ↦ none
    | some csp ↦ elim (get_elem? csp.sstats j) [
      | none ↦ none
      | some ssp ↦ elim (get_elem? st.assignments csp.asgt) [
        | none ↦ none
        | some a ↦ normal_at s i j csp ssp a st
      ]
    ]
  ]
