-- ===== src/Deet/Children/Ordering.antt =====
-- `connect_child` (hw4/src/track_children.c) keeps the table in the order of the identifiers.
use cse320_fall.Base.{
  ℕ, ◌<◌, ◌≡◌, ◌≢◌, refl, none, some, List, [], ◌∷◌, arith, ltb, if◌then◌else◌, All, Bool-cases,
  inl, inr,
}
use cse320_fall.Deet.Children.{Child, connect_behind, connect_child}

abbrev pub IsFresh : ℕ → List Child → Type 0
IsFresh id = All (λ c. c.deet_id ≢ id)

abbrev pub IsAbove : ℕ → List Child → Type 0
IsAbove id = All (λ c. id < c.deet_id)

abbrev pub IsOrdered : List Child → Type 0
IsOrdered [] = Unit
IsOrdered (c ∷ cs) = IsAbove c.deet_id cs × IsOrdered cs

-- The child in front of the first one with a greater identifier.
unfoldable pub insert_by_id : Child → List Child → List Child
insert_by_id child [] = child ∷ []
insert_by_id child (c ∷ cs) =
    let rest = insert_by_id child cs in
    if ltb child.deet_id c.deet_id then child ∷ c ∷ cs else c ∷ rest

connect_behind-none :
    (child : Child) (cs : List Child) → IsAbove child.deet_id cs → connect_behind child cs ≡ none
unfolding connect_behind
connect_behind-none child [] a = refl
connect_behind-none child (c ∷ []) a = ground arith
connect_behind-none child (c ∷ d ∷ cs) a = ground (arith, connect_behind-none child (d ∷ cs))

connect_behind-some :
    (child c : Child) (cs : List Child)
    → IsOrdered (c ∷ cs)
    → IsFresh child.deet_id (c ∷ cs)
    → c.deet_id < child.deet_id
    → connect_behind child (c ∷ cs) ≡ some (insert_by_id child (c ∷ cs))
unfolding connect_behind insert_by_id
connect_behind-some child c [] o f l = ground arith
connect_behind-some child c (d ∷ cs) o f l = ground (arith, connect_behind-some child d cs o.1 f.1)

IsAbove-lt : (a b : ℕ) (cs : List Child) → a < b → IsAbove b cs → IsAbove a cs
IsAbove-lt a b [] l h = tt
IsAbove-lt a b (c ∷ cs) l h = (omega arith, IsAbove-lt a b cs l h.1)

-- In a table ordered by identifiers, `connect_child` puts a child with a fresh identifier in its
-- place.
pub connect_child-insert :
    (child : Child) (cs : List Child)
    → IsOrdered cs
    → IsFresh child.deet_id cs
    → connect_child child cs ≡ insert_by_id child cs
unfolding connect_child insert_by_id
connect_child-insert child [] o f = refl
connect_child-insert child (c ∷ cs) o f = elim (Bool-cases (ltb child.deet_id c.deet_id)) [
  | inl front ↦
      let above : IsAbove child.deet_id (c ∷ cs) =
        (ground arith, IsAbove-lt child.deet_id c.deet_id cs (ground arith) o.0) in
      ground (arith, connect_behind-none child (c ∷ cs) above)
  | inr behind ↦ ground (arith, connect_behind-some child c cs o f)
]

IsAbove-insert :
    (id : ℕ) (child : Child) (cs : List Child)
    → id < child.deet_id
    → IsAbove id cs
    → IsAbove id (insert_by_id child cs)
unfolding insert_by_id
IsAbove-insert id child [] l a = (l, tt)
IsAbove-insert id child (c ∷ cs) l a = ground (arith, IsAbove-insert id child cs l a.1)

insert_by_id-IsOrdered :
    (child : Child) (cs : List Child)
    → IsOrdered cs
    → IsFresh child.deet_id cs
    → IsOrdered (insert_by_id child cs)
unfolding insert_by_id
insert_by_id-IsOrdered child [] o f = (tt, tt)
insert_by_id-IsOrdered child (c ∷ cs) o f = elim (Bool-cases (ltb child.deet_id c.deet_id)) [
  | inl front ↦
      rw front ((ground arith, IsAbove-lt child.deet_id c.deet_id cs (ground arith) o.0), o)
  | inr behind ↦ rw behind (
    IsAbove-insert c.deet_id child cs (ground arith) o.0,
    insert_by_id-IsOrdered child cs o.1 f.1,
  )
]

-- A table in the order of the identifiers stays in it when a child with a fresh identifier is
-- connected.
pub connect_child-IsOrdered :
    (child : Child) (cs : List Child)
    → IsOrdered cs
    → IsFresh child.deet_id cs
    → IsOrdered (connect_child child cs)
connect_child-IsOrdered child cs o f =
    rw (connect_child-insert child cs o f) (insert_by_id-IsOrdered child cs o f)
