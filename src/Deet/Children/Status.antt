-- ===== src/Deet/Children/Status.antt =====
-- What changes of state leave alone in the table (hw4/src/track_children.c).
use cse320_fall.Base.{
  ℕ, zero, suc, ◌+◌, ◌≡◌, refl, Bool, true, Option, none, some, List, [], ◌∷◌, arith, ap,
  if◌then◌else◌, get_elem?, set, Bool-cases, Option-cases, inl, inr,
}
use cse320_fall.Base.Int.{ℤ}
use cse320_fall.Deet.Children.{
  Pstate, is_state, Child, World, find_from, set_child_status, child_summary, count_in_state,
}

-- What identifies a child: its pid, its identifier and its arguments.
abbrev pub name : Child → ℕ × ℕ × List (List ℕ)
name c = (c.pid, c.deet_id, c.args)

abbrev pub names : List Child → List (ℕ × ℕ × List (List ℕ))
names [] = []
names (c ∷ cs) = name c ∷ names cs

pub names-set :
    (cs : List Child) (i : ℕ) (c c' : Child)
    → get_elem? cs i ≡ some c
    → name c' ≡ name c
    → names (set cs i c') ≡ names cs
names-set [] i c c' e n = refl
names-set (d ∷ cs) zero c c' e n = ground arith
names-set (d ∷ cs) (suc i) c c' e n = ap (λ l. name d ∷ l) (names-set cs i c c' e n)

pub set_child_status-names :
    (w : World) (i : Option ℕ) (s : Pstate) (x : ℤ)
    → names (set_child_status w i s x).0.children ≡ names w.children
unfolding set_child_status
set_child_status-names w none s x = refl
set_child_status-names w (some i) s x = elim (Option-cases (get_elem? w.children i)) [
  | inl out ↦ ground arith
  | inr (c, there) ↦
      ground (arith, names-set w.children i c (record c { status = s; exit_status = x }) there refl)
]

pub child_summary-children : (w : World) (i f : ℕ) → (child_summary w i f).children ≡ w.children
unfolding child_summary
child_summary-children w i f = ground arith

-- A lookup returns a place of the table whose child passes the test.
pub find_from-get :
    (test : Child → Bool) (cs : List Child) (i k : ℕ)
    → find_from test cs i ≡ some k
    → (j : ℕ) × (c : Child) × (k ≡ i + j) × (get_elem? cs j ≡ some c) × (test c ≡ true)
unfolding find_from
find_from-get test [] i k e = absurd (cc)
find_from-get test (c ∷ cs) i k e = elim (Bool-cases (test c)) [
  | inl here ↦ (0, c, ground arith, refl, here)
  | inr further ↦
      let (j, d, at, there, passes) = find_from-get test cs (suc i) k (ground arith) in
      (suc j, d, omega arith, there, passes)
]

-- The count of a state where one child's state changes.
pub count_in_state-set :
    (s : Pstate) (cs : List Child) (i : ℕ) (c c' : Child)
    → get_elem? cs i ≡ some c
    → count_in_state s (set cs i c') + (if is_state c.status s then 1 else 0)
      ≡ count_in_state s cs + (if is_state c'.status s then 1 else 0)
unfolding count_in_state
count_in_state-set s [] i c c' e = cc
count_in_state-set s (d ∷ cs) zero c c' e = ground arith
count_in_state-set s (d ∷ cs) (suc i) c c' e = ground (arith, count_in_state-set s cs i c c' e)
