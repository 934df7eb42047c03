-- ===== src/Deet/Children/Numbering.antt =====
-- Identifiers that `spawn_child` (hw4/src/track_children.c) gives out.
use cse320_fall.Base.{
  ℕ, suc, ◌+◌, ◌<◌, ◌≤◌, ◌≡◌, refl, Bool, true, false, Option, none, some, List, [], ◌∷◌, arith,
  ◌==◌, if◌then◌else◌, Bool-cases, inl, inr, length, subst, Option-cases,
}
use cse320_fall.Base.Int.{negsuc}
use cse320_fall.Deet.Children.{
  running, dead, is_state, Child, World, free_dead, count_in_state, find_next_deet_id,
  connect_behind, connect_child, spawn_child,
}
use cse320_fall.Deet.Children.Ordering.{
  IsFresh, IsAbove, IsOrdered, insert_by_id, connect_child-insert,
}

-- The identifiers are `k`, `k + 1`, ….
abbrev pub IsNumbered : ℕ → List Child → Type 0
IsNumbered k [] = Unit
IsNumbered k (c ∷ cs) = (c.deet_id ≡ k) × IsNumbered (suc k) cs

abbrev pub alive : List Child → List Child
alive [] = []
alive (c ∷ cs) = if is_state c.status dead then alive cs else c ∷ alive cs

abbrev pub first_dead : List Child → Option ℕ
first_dead [] = none
first_dead (c ∷ cs) = if is_state c.status dead then some c.deet_id else first_dead cs

free_dead-kept : (cs : List Child) → (free_dead cs).kept ≡ alive cs
unfolding free_dead
free_dead-kept [] = refl
free_dead-kept (c ∷ cs) = ground (arith, free_dead-kept cs)

free_dead-freed : (cs : List Child) → (free_dead cs).freed ≡ first_dead cs
unfolding free_dead
free_dead-freed [] = refl
free_dead-freed (c ∷ cs) = ground (arith, free_dead-freed cs)

-- Before a child is spawned the dead children leave the table, the others stay in order, and the
-- new identifier is that of the first dead child, or the number of children if none is dead.
pub find_next_deet_id_lem :
    (w : World)
    → ((find_next_deet_id w).0.children ≡ alive w.children)
      × ((find_next_deet_id w).1
          ≡ elim (first_dead w.children) [ none ↦ length w.children | some id ↦ id ])
unfolding find_next_deet_id
find_next_deet_id_lem w = (
  ground (arith, free_dead-kept w.children, free_dead-freed w.children),
  ground (arith, free_dead-kept w.children, free_dead-freed w.children),
)

IsAbove-IsNumbered : (k n : ℕ) (cs : List Child) → n < k → IsNumbered k cs → IsAbove n cs
IsAbove-IsNumbered k n [] l v = tt
IsAbove-IsNumbered k n (c ∷ cs) l v =
    (omega arith, IsAbove-IsNumbered (suc k) n cs (omega arith) v.1)

IsAbove-alive : (n : ℕ) (cs : List Child) → IsAbove n cs → IsAbove n (alive cs)
IsAbove-alive n [] a = tt
IsAbove-alive n (c ∷ cs) a = ground (arith, IsAbove-alive n cs a.1)

alive-IsOrdered : (k : ℕ) (cs : List Child) → IsNumbered k cs → IsOrdered (alive cs)
alive-IsOrdered k [] v = tt
alive-IsOrdered k (c ∷ cs) v = ground (
  arith,
  alive-IsOrdered (suc k) cs v.1,
  IsAbove-alive c.deet_id cs (IsAbove-IsNumbered (suc k) c.deet_id cs (omega arith) v.1),
)

none_dead :
    (cs : List Child) → count_in_state dead cs ≡ 0 → (alive cs ≡ cs) × (first_dead cs ≡ none)
unfolding count_in_state
none_dead [] z = (refl, refl)
none_dead (c ∷ cs) z = ground (arith, none_dead cs)

-- A number past the last one extends a numbered table.
append_number :
    (k : ℕ) (child : Child) (cs : List Child)
    → IsNumbered k cs
    → child.deet_id ≡ k + length cs
    → IsFresh child.deet_id cs × IsNumbered k (insert_by_id child cs)
unfolding insert_by_id
append_number k child [] v e = (tt, (omega arith, tt))
append_number k child (c ∷ cs) v e = ground (arith, append_number (suc k) child cs v.1)

above_IsFresh : (n : ℕ) (cs : List Child) → IsAbove n cs → IsFresh n cs
above_IsFresh n [] a = tt
above_IsFresh n (c ∷ cs) a = (omega arith, above_IsFresh n cs a.1)

insert_front :
    (child : Child) (cs : List Child)
    → IsAbove child.deet_id cs
    → insert_by_id child cs ≡ child ∷ cs
unfolding insert_by_id
insert_front child [] a = refl
insert_front child (c ∷ cs) a = ground arith

-- The number of the one dead child fills the gap that this child leaves.
record Fills (k id : ℕ) (cs : List Child) : Type 0 where
  freed : first_dead cs ≡ some id
  from : k ≤ id
  fresh : IsFresh id (alive cs)
  filled : (child : Child) → child.deet_id ≡ id → IsNumbered k (insert_by_id child (alive cs))

fill_first :
    (k : ℕ) (c : Child) (cs : List Child)
    → IsNumbered k (c ∷ cs)
    → is_state c.status dead ≡ true
    → count_in_state dead cs ≡ 0
    → Fills k c.deet_id (c ∷ cs)
fill_first k c cs v gone z = record {
  freed = rw gone;
  from = omega arith;
  fresh = rw (gone, (none_dead cs z).0) (above_IsFresh c.deet_id cs above);
  filled = λ child e.
      rw (gone, (none_dead cs z).0, insert_front child cs (rw e above)) (omega arith, v.1);
}
  where
    above : IsAbove c.deet_id cs
    above = IsAbove-IsNumbered (suc k) c.deet_id cs (omega arith) v.1

insert_behind :
    (child c : Child) (cs : List Child)
    → c.deet_id ≤ child.deet_id
    → insert_by_id child (c ∷ cs) ≡ c ∷ insert_by_id child cs
unfolding insert_by_id
insert_behind child c cs l = ground arith

fill_later :
    (k id : ℕ) (c : Child) (cs : List Child)
    → c.deet_id ≡ k
    → is_state c.status dead ≡ false
    → Fills (suc k) id cs
    → Fills k id (c ∷ cs)
fill_later k id c cs e here f = record {
  freed = rw here f.freed;
  from = omega (arith, f.from);
  fresh = rw here (omega (arith, f.from), f.fresh);
  filled = λ child same.
      rw (here, insert_behind child c (alive cs) (omega (arith, f.from))) (e, f.filled child same);
}

fill_gap :
    (k : ℕ) (cs : List Child)
    → IsNumbered k cs
    → count_in_state dead cs ≡ 1
    → (id : ℕ) × Fills k id cs
unfolding count_in_state
fill_gap k [] v one = absurd (omega arith)
fill_gap k (c ∷ cs) v one = elim (Bool-cases (is_state c.status dead)) [
  | inl gone ↦ (c.deet_id, fill_first k c cs v gone (ground arith))
  | inr here ↦
      let (id, f) = fill_gap (suc k) cs v.1 (ground arith) in (id, fill_later k id c cs v.0 here f)
]

abbrev spawned : (pid id : ℕ) → (trace : Bool) → List (List ℕ) → Child
spawned pid id trace args = record {
  pid = pid;
  deet_id = id;
  status = running;
  trace = trace;
  exit_status = negsuc 0;
  args = args;
}

connect-IsNumbered :
    (child : Child) (cs : List Child)
    → IsOrdered cs
    → IsFresh child.deet_id cs
    → IsNumbered 0 (insert_by_id child cs)
    → IsFresh child.deet_id cs × IsNumbered 0 (connect_child child cs)
connect-IsNumbered child cs o f v = (f, rw (connect_child-insert child cs o f) v)

-- In a table numbered from 0 with at most one dead child, `spawn_child` gives out an identifier
-- that no child left in the table has, and leaves the table numbered from 0.
pub spawn_child-IsNumbered :
    (w : World) (pid : ℕ) (trace : Bool) (args : List (List ℕ))
    → IsNumbered 0 w.children
    → count_in_state dead w.children ≤ 1
    → IsFresh (spawn_child w pid trace args).1.deet_id (alive w.children)
      × IsNumbered 0 (spawn_child w pid trace args).0.children
unfolding spawn_child
spawn_child-IsNumbered w pid trace args v one =
    elim (Bool-cases (count_in_state dead w.children == 0)) [
      | inl zero_dead ↦
          let z : count_in_state dead w.children ≡ 0 = ground arith in
          let child : Child = spawned pid (length w.children) trace args in
          let new = append_number 0 child w.children v (omega arith) in
          rw
            (
              (find_next_deet_id_lem w).0,
              (find_next_deet_id_lem w).1,
              (none_dead _ z).0,
              (none_dead _ z).1,
            )
            (connect-IsNumbered child w.children
              (subst IsOrdered (none_dead w.children z).0 (alive-IsOrdered 0 w.children v)) new.0
              new.1)
      | inr one_dead ↦
          let (id, f) = fill_gap 0 w.children v (ground arith) in
          let child : Child = spawned pid id trace args in
          rw ((find_next_deet_id_lem w).0, (find_next_deet_id_lem w).1, f.freed)
            (connect-IsNumbered child (alive w.children) (alive-IsOrdered 0 w.children v) f.fresh
              (f.filled child refl))
    ]

-- How many children have an identifier.
abbrev pub count_id : ℕ → List Child → ℕ
count_id id [] = 0
count_id id (c ∷ cs) = (if c.deet_id == id then 1 else 0) + count_id id cs

count_id-connect_behind :
    (child : Child) (cs l : List Child)
    → connect_behind child cs ≡ some l
    → count_id child.deet_id l ≡ suc (count_id child.deet_id cs)
unfolding connect_behind
count_id-connect_behind child [] l e = cc
count_id-connect_behind child (c ∷ []) l e = ground arith
count_id-connect_behind child (c ∷ d ∷ cs) l e =
    elim (Option-cases (connect_behind child (d ∷ cs))) [
      | inl last ↦ ground arith
      | inr (m, inside) ↦ ground (arith, count_id-connect_behind child (d ∷ cs) m inside)
    ]

count_id-connect :
    (child : Child) (cs : List Child)
    → count_id child.deet_id (connect_child child cs) ≡ suc (count_id child.deet_id cs)
unfolding connect_child
count_id-connect child cs = elim (Option-cases (connect_behind child cs)) [
  | inl front ↦ ground arith
  | inr (l, inside) ↦ ground (arith, count_id-connect_behind child cs l inside)
]

-- Where no child is dead and one has the number of children for its identifier, the next child
-- spawned gets that same identifier.
pub spawn_child_duplicate :
    (w : World) (pid : ℕ) (trace : Bool) (args : List (List ℕ))
    → count_in_state dead w.children ≡ 0
    → 0 < count_id (length w.children) w.children
    → 2 ≤ count_id (length w.children) (spawn_child w pid trace args).0.children
unfolding spawn_child
spawn_child_duplicate w pid trace args z h =
    rw
      (
        (find_next_deet_id_lem w).0,
        (find_next_deet_id_lem w).1,
        (none_dead _ z).0,
        (none_dead _ z).1,
      )
      (omega (arith, count_id-connect (spawned pid (length w.children) trace args) w.children))
