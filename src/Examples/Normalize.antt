-- ===== src/Examples/Normalize.antt =====
-- The statistics (hw2/src/stats.c) and the normalization (hw2/src/normal.c) of a small course. The
-- doubles of these runs are whole numbers, without rounding.
use cse320_fall.Base.{
  ℕ, zero, suc, ◌+◌, ◌-◌, ◌*◌, ◌/◌, ◌<◌, ◌≡◌, refl, true, none, some, List, [], ◌∷◌, arith, ltb,
  ◌==◌, if◌then◌else◌, get_elem?, map, All,
}
use cse320_fall.Base.Int.{ℤ, pos}
use cse320_fall.Grades.Frequencies.{Freqs}
use cse320_fall.Grades.Course.{
  Doubles, Gflag, Gsubst, Wpolicy, Npolicy, Ngroup, Assignment, Sectionstats, Classstats, Score,
  Student, Store, is_counted, update_stats,
}
use cse320_fall.Grades.Links.{Links, buildstats, do_links, walk}
use cse320_fall.Grades.Links.Members.{concat, Distinct, member}
use cse320_fall.Grades.Links.Roster.{do_links-walk}
use cse320_fall.Grades.Links.Scores.{linked, do_links-linked}
use cse320_fall.Grades.Statistics.{statistics, scores_of}
use cse320_fall.Grades.Statistics.Tallies.{grades}
use cse320_fall.Grades.Normal.{normal, quantile_bucket}
use cse320_fall.Grades.Normal.Quantiles.{group, quantile_of}
use cse320_fall.Grades.Normal.Percentiles.{normal-statistics}
use cse320_fall.Grades.Normal.Missing.{quantile_bucket_missing}
use cse320_fall.Grades.Normalize.{studentavg, normalize, composites}
use cse320_fall.Grades.Normalize.Averages.{studentavg_unweighted, Mirrors, normalize-Mirrors}
use cse320_fall.Grades.Normalize.Pipeline.{pupils, normalize-statistics}
use cse320_fall.Grades.Normalize.Composites.{with_composite, unscored_all, composites-terms}

abbrev whole : Doubles
whole = record {
  Double = ℕ;
  place = λ x. x;
  to_float = λ x. x;
  of_int = λ x. x;
  add = λ x y. x + y;
  sub = λ x y. x - y;
  mul = λ x y. x * y;
  div = λ x y. x / y;
  sqrt = λ x. x;
  lt = ltb;
  eq = λ x y. x == y;
  epsilon = 1;
}

abbrev blank_section : Sectionstats ℕ
blank_section = record {
  asgt = 0;
  section = 0;
  valid = 0;
  tallied = 0;
  sum = 0;
  sumsq = 0;
  min = 0;
  max = 0;
  mean = 0;
  stddev = 0;
  freqs = [];
}

abbrev blank_class : Classstats ℕ
blank_class = record {
  asgt = 0;
  valid = 0;
  tallied = 0;
  sum = 0;
  sumsq = 0;
  min = 0;
  max = 0;
  mean = 0;
  stddev = 0;
  freqs = [];
  sstats = [];
}

abbrev homework : Npolicy → Assignment ℕ
homework policy = record {
  name = 1 ∷ [];
  atype = 7 ∷ [];
  wpolicy = Wpolicy.no_weight;
  weight = 0;
  npolicy = policy;
  max = 10;
  mean = 5;
  stddev = 2;
  scale = 100;
  ngroup = Ngroup.by_class;
}

abbrev course : List (Assignment ℕ)
course = homework Npolicy.quantile ∷ homework Npolicy.scale ∷ []

abbrev raw : (asgt grade : ℕ) → Score ℕ
raw asgt grade = record {
  asgt = asgt;
  grade = grade;
  qnorm = 0;
  lnorm = 0;
  snorm = 0;
  flag = Gflag.valid;
  subst = Gsubst.use_raw;
  stats = none;
}

-- Three students, of whom the second has the better homework.
abbrev answers : ℕ → List (Score ℕ)
answers zero = raw 0 4 ∷ raw 1 5 ∷ []
answers (suc zero) = raw 0 9 ∷ []
answers (suc (suc zero)) = raw 0 6 ∷ []
answers _ = []

abbrev groups : List (List ℕ)
groups = (0 ∷ 1 ∷ []) ∷ (2 ∷ []) ∷ []

abbrev unlinked : Links ℕ
unlinked = record { roster = none; rp = none; cnext = λ p. none; rawscores = answers }

groups-Distinct : Distinct (concat groups)
groups-Distinct = ((omega arith, (omega arith, tt)), ((omega arith, tt), (tt, tt)))

assigned : (x : ℕ) → member x (concat groups) ≡ true → All (λ scp. Score.asgt scp < 2) (answers x)
assigned zero m = (omega arith, (omega arith, tt))
assigned (suc zero) m = (omega arith, tt)
assigned (suc (suc zero)) m = (omega arith, tt)
assigned (suc (suc (suc x))) m = tt

abbrev classes : List (Classstats ℕ)
unfolding buildstats
classes = elim (buildstats 0 blank_class blank_section 2 2) [ none ↦ [] | some cs ↦ cs ]

abbrev relinked : Links ℕ
unfolding do_links
relinked = elim (do_links 2 classes groups unlinked) [ none ↦ unlinked | some l ↦ l ]

links_made : do_links 2 classes groups unlinked ≡ some relinked
unfolding do_links classes
links_made = refl

abbrev one_class : List (Classstats ℕ)
one_class = record blank_class { sstats = blank_section ∷ [] } ∷ []

abbrev linked_raw : Score ℕ
linked_raw = record (raw 0 4) { stats = some (0, 0) }

abbrev ended : Store ℕ × Links ℕ
unfolding statistics
ended = elim (statistics whole blank_class blank_section 3 course groups unlinked) [
  | none ↦ (record { assignments = []; cstats = []; warnings = 0 }, unlinked)
  | some p ↦ p
]

statistics_ended :
    statistics whole blank_class blank_section 3 course groups unlinked ≡ some (ended.0, ended.1)
unfolding statistics is_counted update_stats ended
statistics_ended = refl

abbrev first_linked : Score ℕ
first_linked = record {
  asgt = 0;
  grade = 9;
  qnorm = 0;
  lnorm = 0;
  snorm = 0;
  flag = Gflag.valid;
  subst = Gsubst.use_raw;
  stats = some (0, 0);
}

first_there : get_elem? (ended.1.rawscores 1) 0 ≡ some first_linked
unfolding statistics is_counted update_stats ended
first_there = refl

counted_first : is_counted first_linked ≡ true
unfolding is_counted
counted_first = refl

normal-statistics_example :
    normal whole 9 (some (0, 0)) ended.0
    ≡ some (
      quantile_of whole 9 (
          grades whole
            (group Ngroup.by_class 0 0)
            (scores_of whole ended.1.rawscores (concat groups))),
      ended.0,
    )
normal-statistics_example =
    normal-statistics whole blank_class blank_section 3 course groups unlinked ended.1 ended.0 1 0 0
      (0 ∷ 1 ∷ []) first_linked (homework Npolicy.quantile) groups-Distinct assigned (omega arith)
      statistics_ended refl refl first_there counted_first refl refl

do_links-walk_example :
    (l' : Links ℕ) × (do_links 2 classes groups unlinked ≡ some l')
    × (walk 3 l'.cnext l'.roster ≡ some (0 ∷ 1 ∷ 2 ∷ []))
unfolding classes
do_links-walk_example =
    do_links-walk 2 classes groups unlinked (omega arith) (omega arith)
      (omega arith, (omega arith, tt)) groups-Distinct

relinked_answers : relinked.rawscores 2 ≡ map (linked 0 2 1) (answers 2)
relinked_answers =
    do_links-linked 2 2 1 classes groups (2 ∷ []) unlinked relinked groups-Distinct refl refl
      links_made

abbrev buckets : Freqs × List Freqs
buckets = (
  record { score = 3; count = 1; numless = 0; numlesseq = 1 },
  record { score = 6; count = 2; numless = 1; numlesseq = 3 } ∷ [],
)

-- A score above the table's greatest is given the quantile of the lowest.
quantile_bucket_missing_example : quantile_bucket 8 (buckets.0 ∷ buckets.1) ≡ some buckets.0
quantile_bucket_missing_example =
    quantile_bucket_missing 8 buckets.0 buckets.1 ((omega arith, tt), (tt, tt))
      (omega arith, (omega arith, tt))

abbrev same_text : List ℕ → List ℕ → ℤ
same_text [] [] = pos 0
same_text (x ∷ xs) (y ∷ ys) = if x == y then same_text xs ys else pos 1
same_text _ _ = pos 1

abbrev raw_course : Store ℕ
raw_course = record { assignments = homework Npolicy.raw ∷ []; cstats = one_class; warnings = 0 }

average_made :
    studentavg whole same_text (linked_raw ∷ []) (7 ∷ []) raw_course
    ≡ some (0, record raw_course { warnings = 1 })
unfolding studentavg normal is_counted
average_made = refl

studentavg_unweighted_example : ◌≡◌ {A = ℕ} 0 0
studentavg_unweighted_example =
    studentavg_unweighted whole same_text (linked_raw ∷ []) (7 ∷ []) raw_course
      (record raw_course { warnings = 1 }) 0 refl (refl, tt) average_made

abbrev pupil : Student ℕ
pupil = record { rawscores = linked_raw ∷ []; normscores = []; composite = 0 }

abbrev graded : Student ℕ
graded = record pupil { normscores = record (raw 0 4) { stats = none } ∷ [] }

pupil_normalized :
    normalize whole same_text (raw 0 0) (pupil ∷ []) raw_course ≡ some (graded ∷ [], raw_course)
unfolding normalize normal
pupil_normalized = refl

normalize-Mirrors_example : Mirrors whole same_text (raw 0 0) (pupil ∷ []) (graded ∷ [])
normalize-Mirrors_example =
    normalize-Mirrors whole same_text (raw 0 0) (pupil ∷ []) (graded ∷ []) raw_course raw_course
      pupil_normalized

composites-terms_example : composites whole (graded ∷ pupil ∷ []) raw_course ≡ (
  map (with_composite whole raw_course.assignments) (graded ∷ pupil ∷ []),
  record raw_course {
    warnings = 0 + unscored_all whole raw_course.assignments (graded ∷ pupil ∷ []);
  },
)
composites-terms_example = composites-terms whole (graded ∷ pupil ∷ []) raw_course

composites_run :
    (composites whole (graded ∷ pupil ∷ []) raw_course).1 ≡ record raw_course { warnings = 1 }
unfolding composites
composites_run = refl

abbrev anyone : ℕ → Student ℕ
anyone x = record { rawscores = []; normscores = []; composite = 0 }

normalize-statistics_example :
    (st : Store ℕ) × (l' : Links ℕ) × (roster : List (Student ℕ)) × (st' : Store ℕ) × (statistics
        whole blank_class blank_section 3 course groups unlinked
      ≡ some (st, l'))
    × (normalize whole same_text
          (raw 0 0)
          (pupils whole blank_class blank_section anyone l' (concat groups))
          st
        ≡ some (roster, st'))
normalize-statistics_example =
    normalize-statistics whole blank_class blank_section same_text (raw 0 0) anyone 3 course groups
      unlinked (omega arith) groups-Distinct assigned (omega arith)
