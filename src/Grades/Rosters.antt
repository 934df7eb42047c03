-- ===== src/Grades/Rosters.antt =====
-- The sorting of rosters, hw2/src/sort.c. A roster is the list of its students in the order of the
-- links, `next` for a section and `cnext` for the class; the two lists share no link. `strcmp` of
-- the C library is a parameter. The table's memory is had: without it the source only warns, and
-- then writes through NULL.
pub mod Sorted
use cse320_fall.Base.{
  ℕ, zero, suc, ◌+◌, ◌*◌, Bool, Option, none, some, List, [], ◌∷◌, ltb, if◌then◌else◌, length,
}
use cse320_fall.Base.Int.{ℤ, pos, negsuc}
use cse320_fall.Grades.Sorting.{is_zero, sorttable}

-- `composite` stands as its place in the order of the finite floating-point numbers.
pub record Student : Type 0 where
  pub id : List ℕ
  pub surname : List ℕ
  pub name : List ℕ
  pub composite : ℕ

module _ {A : Type 0} where
  -- The loop that fills the table from its end.
  unfoldable pub put_in_table : (roster stab : List A) → List A
  put_in_table [] stab = stab
  put_in_table (s ∷ roster) stab = put_in_table roster (s ∷ stab)

module _ {A : Type 0} (compare : A → A → ℤ) (outside : A) where
  -- The fuel is enough for `sorttable`; the links follow the table's order.
  unfoldable pub sortroster : List A → Option (List A)
  unfolding put_in_table
  sortroster [] = some []
  sortroster (s ∷ roster) =
      let count = length (s ∷ roster) in
      sorttable compare outside (2 * count + 1) (put_in_table (s ∷ roster) []) 0 count

  abbrev sort_sections : List (List A) → Option (List (List A))
  sort_sections [] = some []
  sort_sections (roster ∷ sections) = elim (sortroster roster) [
    | none ↦ none
    | some sorted ↦ elim (sort_sections sections) [ none ↦ none | some rest ↦ some (sorted ∷ rest) ]
  ]

  -- A course's roster and those of its sections.
  unfoldable pub sortrosters : List A → List (List A) → Option (List A × List (List A))
  sortrosters roster sections = elim (sortroster roster) [
    | none ↦ none
    | some sorted ↦ elim (sort_sections sections) [ none ↦ none | some rest ↦ some (sorted, rest) ]
  ]

module _ (strcmp : List ℕ → List ℕ → ℤ) where
  unfoldable pub comparename : Student → Student → ℤ
  comparename s1 s2 =
      let c = strcmp s1.surname s2.surname in if is_zero c then strcmp s1.name s2.name else c

  unfoldable pub compareid : Student → Student → ℤ
  compareid s1 s2 = strcmp s1.id s2.id

unfoldable pub comparescore : Student → Student → ℤ
comparescore s1 s2 =
    if ltb s2.composite s1.composite
    then negsuc 0
    else if ltb s1.composite s2.composite
    then pos 1
    else pos 0

module _ (strcmp : List ℕ → List ℕ → ℤ) where
  -- The students for which `checkfordups` warns.
  unfoldable pub checkfordups : List Student → List Student
  checkfordups [] = []
  checkfordups (s ∷ []) = []
  checkfordups (s ∷ t ∷ roster) =
      let rest = checkfordups (t ∷ roster) in
      if is_zero (comparename strcmp s t) then s ∷ rest else rest
