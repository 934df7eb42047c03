-- ===== src/Deet/Text/Cutting.antt =====
-- `replace_tabs_with_space` and `trim_string` (hw4/src/util.c).
use cse320_fall.Base.{
  ℕ, ◌+◌, ◌≡◌, refl, List, [], ◌∷◌, arith, ◌==◌, if◌then◌else◌, length, Bool-cases, inl, inr,
}
use cse320_fall.Deet.Text.{replace_tabs_with_space}

-- The first line of a string, without its newline, and what follows.
abbrev pub first_line : List ℕ → List ℕ
first_line [] = []
first_line (c ∷ s) = if c == b'\n' then [] else c ∷ first_line s

abbrev pub count_byte : ℕ → List ℕ → ℕ
count_byte b [] = 0
count_byte b (c ∷ s) = (if c == b then 1 else 0) + count_byte b s

-- Tabs of the first line become spaces, one for one, and are counted; the string's length stays,
-- and a second call finds no tab.
pub replace_tabs_with_space_lem :
    (s : List ℕ)
    → (count_byte b'\t' (first_line (replace_tabs_with_space s).0) ≡ 0)
      × ((replace_tabs_with_space s).1 ≡ count_byte b'\t' (first_line s))
      × (count_byte b' ' (first_line (replace_tabs_with_space s).0)
          ≡ count_byte b' ' (first_line s) + count_byte b'\t' (first_line s))
      × (length (replace_tabs_with_space s).0 ≡ length s)
      × (replace_tabs_with_space (replace_tabs_with_space s).0 ≡ ((replace_tabs_with_space s).0, 0))
unfolding replace_tabs_with_space
replace_tabs_with_space_lem [] = (refl, refl, refl, refl, refl)
replace_tabs_with_space_lem (c ∷ s) = elim (Bool-cases (c == b'\n')) [
  | inl newline ↦ ground arith
  | inr other ↦ elim (Bool-cases (c == b'\t')) [
    | inl tab ↦ ground (arith, replace_tabs_with_space_lem s)
    | inr plain ↦ ground (arith, replace_tabs_with_space_lem s)
  ]
]
