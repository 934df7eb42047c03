-- ===== src/Grades/Statistics.antt =====
-- The statistics of a course, hw2/src/stats.c, over the links of its students. `none` is a read
-- through a null or stray pointer.
pub mod Passes
pub mod Tallies
pub mod Filled
pub mod Shape
pub mod Total
pub mod Returned
use cse320_fall.Base.{
  ℕ, zero, suc, ◌+◌, ◌-◌, Bool, Option, none, some, List, [], ◌∷◌, ◌++◌, map, ◌==◌, if◌then◌else◌,
  leb, length,
}
use cse320_fall.Grades.Frequencies.{Freqs, count_score}
use cse320_fall.Grades.Frequencies as Tables
use cse320_fall.Grades.Course.{
  Doubles, Assignment, Sectionstats, Classstats, Score, Store, is_counted, update_stats,
}
use cse320_fall.Grades.Links.{Links, buildstats, do_links, walk}

module _ {D : Type 0} where
  -- A loop over the scores that are counted, each with a change of its statistics.
  unfoldable pub each_counted :
      (Score D → Classstats D → Sectionstats D → Classstats D × Sectionstats D)
      → List (Score D)
      → List (Classstats D)
      → Option (List (Classstats D))
  each_counted f [] classes = some classes
  each_counted f (scp ∷ rest) classes = elim (is_counted scp) [
    | Bool.false ↦ each_counted f rest classes
    | Bool.true ↦ elim (update_stats (f scp) scp.stats classes) [
      | none ↦ none
      | some classes' ↦ each_counted f rest classes'
    ]
  ]

  unfoldable pub sum_up_section : Sectionstats D → Sectionstats D
  sum_up_section ssp = record ssp { freqs = Tables.do_quantiles ssp.freqs }

  unfoldable pub sum_up_class : Classstats D → Classstats D
  unfolding sum_up_section
  sum_up_class csp = record csp {
    freqs = Tables.do_quantiles csp.freqs;
    sstats = map sum_up_section csp.sstats;
  }

  unfoldable pub do_quantiles : List (Classstats D) → List (Classstats D)
  unfolding sum_up_class
  do_quantiles classes = map sum_up_class classes

module _ (d : Doubles) where
  open d use {Double, place, to_float, of_int, add, sub, mul, div, sqrt, lt}

  unfoldable pub tally :
      Score Double
      → Classstats Double
      → Sectionstats Double
      → Classstats Double × Sectionstats Double
  tally scp csp ssp = (
    record csp { freqs = count_score (place scp.grade) csp.freqs; tallied = csp.tallied + 1 },
    record ssp { freqs = count_score (place scp.grade) ssp.freqs; tallied = ssp.tallied + 1 },
  )

  unfoldable pub do_freqs :
      List (Score Double) → List (Classstats Double) → Option (List (Classstats Double))
  unfolding each_counted tally
  do_freqs scores classes = each_counted tally scores classes

  -- `if(g < min) min = g;`, and `if(g > max) max = g;`.
  abbrev pub lower : (g min : Double) → Double
  lower g min = if lt g min then g else min

  abbrev pub raise : (g max : Double) → Double
  raise g max = if lt max g then g else max

  -- From a section's second score on, the class's extremes are widened.
  unfoldable pub sum_score :
      Score Double
      → Classstats Double
      → Sectionstats Double
      → Classstats Double × Sectionstats Double
  sum_score scp csp ssp =
      let g = scp.grade in
      let low = if csp.valid == 0 then g else lower g csp.min in
      let high = if csp.valid == 0 then g else raise g csp.max in
      (
        record csp {
          valid = csp.valid + 1;
          min = if ssp.valid == 0 then low else lower g low;
          max = if ssp.valid == 0 then high else raise g high;
          sum = add csp.sum g;
          sumsq = add csp.sumsq (mul g g);
        },
        record ssp {
          valid = ssp.valid + 1;
          min = if ssp.valid == 0 then g else ssp.min;
          max = if ssp.valid == 0 then g else ssp.max;
          sum = add ssp.sum g;
          sumsq = add ssp.sumsq (mul g g);
        },
      )

  unfoldable pub do_sums :
      List (Score Double) → List (Classstats Double) → Option (List (Classstats Double))
  unfolding each_counted sum_score
  do_sums scores classes = each_counted sum_score scores classes

  unfoldable pub stddev : (n : ℕ) (sum sumsq : Double) → Double
  stddev n sum sumsq =
      if leb 2 n
      then sqrt (div (sub sumsq (div (mul sum sum) (of_int n))) (of_int (n - 1)))
      else of_int 0

  -- The mean, the standard deviation and the warnings of one group.
  unfoldable pub moments : (valid : ℕ) (sum sumsq : Double) → Double × Double × ℕ
  unfolding stddev
  moments valid sum sumsq =
      if valid == 0
      then (of_int 0, of_int 0, 1)
      else if valid == 1
      then (to_float (div sum (of_int valid)), of_int 0, 1)
      else (to_float (div sum (of_int valid)), to_float (stddev valid sum sumsq), 0)

  unfoldable pub section_moments : List (Sectionstats Double) → List (Sectionstats Double) × ℕ
  unfolding moments
  section_moments [] = ([], 0)
  section_moments (ssp ∷ rest) =
      let (mean, stddev, warned) = moments ssp.valid ssp.sum ssp.sumsq in
      let (rest', more) = section_moments rest in
      (record ssp { mean = mean; stddev = stddev } ∷ rest', warned + more)

  -- The new statistics, and the number of warnings.
  unfoldable pub do_moments : List (Classstats Double) → List (Classstats Double) × ℕ
  unfolding section_moments
  do_moments [] = ([], 0)
  do_moments (csp ∷ rest) =
      let (mean, stddev, warned) = moments csp.valid csp.sum csp.sumsq in
      let (sstats, more) = section_moments csp.sstats in
      let (rest', others) = do_moments rest in
      (record csp { mean = mean; stddev = stddev; sstats = sstats } ∷ rest', warned + more + others)

  -- The scores of the students of a roster, in the order of the loops over it.
  abbrev pub scores_of : (ℕ → List (Score Double)) → List ℕ → List (Score Double)
  scores_of rawscores [] = []
  scores_of rawscores (stp ∷ rest) = rawscores stp ++ scores_of rawscores rest

  -- The passes after `do_links`, on the scores that the loops over the roster meet.
  unfoldable pub fill_in :
      List (Score Double) → List (Classstats Double) → Option (List (Classstats Double) × ℕ)
  unfolding do_freqs do_sums do_moments do_quantiles
  fill_in scores classes = elim (do_freqs scores classes) [
    | none ↦ none
    | some counted ↦ elim (do_sums scores (do_quantiles counted)) [
      | none ↦ none
      | some summed ↦ some (do_moments summed)
    ]
  ]

  module _ (newclassstats : Classstats Double) (newsectionstats : Sectionstats Double) where
    -- `fuel` bounds the number of students; the sections are the lists of their students. A dangling
    -- `stats->cstats` is read by the first step of `do_links`.
    unfoldable pub statistics :
        (fuel : ℕ)
        → List (Assignment Double)
        → (sections : List (List ℕ)) → Links Double
        → Option (Store Double × Links Double)
    unfolding buildstats do_links walk fill_in
    statistics fuel assignments sections l =
        elim (buildstats (of_int 0) newclassstats newsectionstats (length assignments)
          (length sections)) [
            | none ↦ none
            | some classes ↦ elim (do_links (length assignments) classes sections l) [
              | none ↦ none
              | some l' ↦ elim (walk fuel l'.cnext l'.roster) [
                | none ↦ none
                | some roster ↦ elim (fill_in (scores_of l'.rawscores roster) classes) [
                  | none ↦ none
                  | some (filled, warned) ↦
                      some (
                        record { assignments = assignments; cstats = filled; warnings = warned },
                        l',
                      )
                ]
              ]
            ]
          ]
