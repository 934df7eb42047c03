-- ===== src/Grades/Course.antt =====
-- The gradebook's data, hw2/include/gradedb.h and hw2/include/stats.h. The lists that C links by
-- `next` are lists; a pointer into one is a place in it. Floating-point arithmetic is a parameter:
-- the type of doubles, in which a `float` is a double that it can represent, and the operations of
-- the C standard on them.
use cse320_fall.Base.{ℕ, ◌+◌, Bool, Option, none, some, List, get_elem?, set}
use cse320_fall.Grades.Frequencies.{Freqs}

-- `to_float` rounds to a `float`; `place` is the place of a number, not a NaN, in their order, the
-- same for the two zeros.
pub record Doubles : Type 1 where
  pub Double : Type 0
  pub place : Double → ℕ
  pub to_float : Double → Double
  pub of_int : ℕ → Double
  pub add : Double → Double → Double
  pub sub : Double → Double → Double
  pub mul : Double → Double → Double
  pub div : Double → Double → Double
  pub sqrt : Double → Double
  pub lt : Double → Double → Bool
  pub eq : Double → Double → Bool
  pub epsilon : Double

pub data Gflag : Type 0 where
  valid invalid : Gflag

pub data Gsubst : Type 0 where
  use_raw use_norm use_like_avg use_class_avg : Gsubst

pub data Wpolicy : Type 0 where
  no_weight weighted : Wpolicy

pub data Npolicy : Type 0 where
  raw linear quantile scale : Npolicy

pub data Ngroup : Type 0 where
  by_class by_section : Ngroup

module _ (D : Type 0) where
  pub record Assignment : Type 0 where
    pub name : List ℕ
    pub atype : List ℕ
    pub wpolicy : Wpolicy
    pub weight : D
    pub npolicy : Npolicy
    pub max : D
    pub mean : D
    pub stddev : D
    pub scale : D
    pub ngroup : Ngroup

  -- `asgt` is a place in the course's assignments, `section` in its sections.
  pub record Sectionstats : Type 0 where
    pub asgt : ℕ
    pub section : ℕ
    pub valid : ℕ
    pub tallied : ℕ
    pub sum : D
    pub sumsq : D
    pub min : D
    pub max : D
    pub mean : D
    pub stddev : D
    pub freqs : List Freqs

  pub record Classstats : Type 0 where
    pub asgt : ℕ
    pub valid : ℕ
    pub tallied : ℕ
    pub sum : D
    pub sumsq : D
    pub min : D
    pub max : D
    pub mean : D
    pub stddev : D
    pub freqs : List Freqs
    pub sstats : List Sectionstats

  -- `stats` stands for `cstats` and `sstats`, which are set together: the place of the class's
  -- statistics, and that of the section's in their list. It is `none` until they are set.
  pub record Score : Type 0 where
    pub asgt : ℕ
    pub grade : D
    pub qnorm : D
    pub lnorm : D
    pub snorm : D
    pub flag : Gflag
    pub subst : Gsubst
    pub stats : Option (ℕ × ℕ)

  -- The names and the section of a student are left to the rosters.
  pub record Student : Type 0 where
    pub rawscores : List Score
    pub normscores : List Score
    pub composite : D

  -- What the passes over a course read and write.
  pub record Store : Type 0 where
    pub assignments : List Assignment
    pub cstats : List Classstats
    pub warnings : ℕ

module _ {D : Type 0} where
  -- `scp->flag == VALID || scp->subst == USERAW`
  unfoldable pub is_counted : Score D → Bool
  is_counted scp = elim scp.flag [
    | Gflag.valid ↦ Bool.true
    | Gflag.invalid ↦ elim scp.subst [ Gsubst.use_raw ↦ Bool.true | _ ↦ Bool.false ]
  ]

  -- A change of the statistics at the two places; `none` is a read through a stray pointer.
  unfoldable pub update_stats :
      (Classstats D → Sectionstats D → Classstats D × Sectionstats D)
      → Option (ℕ × ℕ)
      → List (Classstats D)
      → Option (List (Classstats D))
  update_stats f none classes = none
  update_stats f (some (i, j)) classes = elim (get_elem? classes i) [
    | none ↦ none
    | some csp ↦ elim (get_elem? csp.sstats j) [
      | none ↦ none
      | some ssp ↦
          let (csp', ssp') = f csp ssp in
          some (set classes i (record csp' { sstats = set csp'.sstats j ssp' }))
    ]
  ]

  unfoldable pub warn : Store D → Store D
  warn st = record st { warnings = Store.warnings st + 1 }
