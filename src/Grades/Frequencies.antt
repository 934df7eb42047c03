-- ===== src/Grades/Frequencies.antt =====
-- The frequency tables of hw2/src/stats.c. A grade is a finite `float`, and the code only compares
-- grades here; it stands as its place in the order of the finite floats, a number.
pub mod Quantiles
use cse320_fall.Base.{ℕ, ◌+◌, Bool, ◌||◌, List, [], ◌∷◌, ltb, ◌==◌, if◌then◌else◌}

pub record Freqs : Type 0 where
  pub score : ℕ
  pub count : ℕ
  pub numless : ℕ
  pub numlesseq : ℕ

-- The new bucket of `count_score`. `newfreqs` leaves the two sums unset; 0 stands for them.
abbrev pub new_bucket : ℕ → Freqs
new_bucket grade = record { score = grade; count = 1; numless = 0; numlesseq = 0 }

unfoldable pub count_score : ℕ → List Freqs → List Freqs
count_score grade [] = new_bucket grade ∷ []
count_score grade (fp ∷ rest) =
    let onward = count_score grade rest in
    if fp.score == grade
    then record fp { count = fp.count + 1 } ∷ rest
    else if ltb grade fp.score
    then new_bucket grade ∷ fp ∷ rest
    else fp ∷ onward

-- A score that points to the statistics at hand, with the two facts that `do_freqs` asks of it.
pub record Score : Type 0 where
  pub grade : ℕ
  pub valid : Bool
  pub useraw : Bool

-- A table with its `tallied`.
pub record Table : Type 0 where
  pub freqs : List Freqs
  pub tallied : ℕ

-- `do_freqs` on the scores of one assignment, or of one assignment and section, in roster order.
unfoldable pub do_freqs : List Score → Table → Table
unfolding count_score
do_freqs [] t = t
do_freqs (scp ∷ rest) t = do_freqs rest (
    if scp.valid || scp.useraw
    then record { freqs = count_score scp.grade t.freqs; tallied = t.tallied + 1 }
    else t)

-- The loop of `do_quantiles` over one table.
unfoldable pub sum_up : (sum : ℕ) → List Freqs → List Freqs
sum_up sum [] = []
sum_up sum (fp ∷ rest) =
    record fp { numless = sum; numlesseq = sum + fp.count } ∷ sum_up (sum + fp.count) rest

unfoldable pub do_quantiles : List Freqs → List Freqs
unfolding sum_up
do_quantiles freqs = sum_up 0 freqs
