-- ===== src/Deet/Commands/Effects.antt =====
-- What the commands of hw4/src/child_processes.c do to the table, and what they leave alone.
use cse320_fall.Base.{
  ℕ, ◌≡◌, refl, false, Option, none, some, arith, get_elem?, Option-cases, inl, inr,
}
use cse320_fall.Base.Int.{ℤ, negsuc}
use cse320_fall.Deet.Children.{
  Pstate, running, continuing, stopping, killed, stderr, set_child_status, child_summary, Child,
  World, get_child, kill_child, stop_child, release_child, untraced, get_child_by_deet_id,
  get_child_by_deet_id_ig,
}
use cse320_fall.Deet.Children.Status.{
  names, names-set, set_child_status-names, child_summary-children,
}
use cse320_fall.Deet.Commands.{
  continue_child_process, kill_child_process, stop_child_process, release_child_process,
  poke_in_process, with_child,
}

-- The commands that act on one child.
pub data Command : Type 0 where
  cont kill stop release : (deet_id : ℕ) → Command
  poke_word : (deet_id addr value : ℕ) → Command

unfoldable pub run : World → Command → World × ℤ
run w (cont id) = continue_child_process w id 1
run w (kill id) = kill_child_process w id
run w (stop id) = stop_child_process w id
run w (release id) = release_child_process w id
run w (poke_word id addr value) = poke_in_process w id addr value

marked-names :
    (w : World) (i : ℕ) (s : Pstate) (x : ℤ) (f : ℕ)
    → names (child_summary (set_child_status w (some i) s x).0 i f).children ≡ names w.children
marked-names w i s x f =
    rw (child_summary-children (set_child_status w (some i) s x).0 i f)
      (set_child_status-names w (some i) s x)

untraced-names : (w : World) (i : ℕ) → names (untraced w i).children ≡ names w.children
untraced-names w i = elim (Option-cases (get_elem? w.children i)) [
  | inl out ↦ ground arith
  | inr (c, there) ↦
      ground (arith, names-set w.children i c (record c { trace = false }) there refl)
]

kill_child-names : (w : World) (pid : ℕ) → names (kill_child w pid).0.children ≡ names w.children
unfolding kill_child
kill_child-names w pid = elim (Option-cases (get_child w pid)) [
  | inl none_such ↦ ground arith
  | inr (i, there) ↦ ground (arith, marked-names w i killed (negsuc 0) stderr)
]

stop_child-names : (w : World) (pid : ℕ) → names (stop_child w pid).0.children ≡ names w.children
unfolding stop_child
stop_child-names w pid = elim (Option-cases (get_child w pid)) [
  | inl none_such ↦ ground arith
  | inr (i, there) ↦ ground (arith, marked-names w i stopping (negsuc 0) stderr)
]

release_child-names :
    (w : World) (pid : ℕ) → names (release_child w pid).0.children ≡ names w.children
unfolding release_child
release_child-names w pid = elim (Option-cases (get_child w pid)) [
  | inl none_such ↦ ground arith
  | inr (i, there) ↦
      ground (arith, marked-names (untraced w i) i running (negsuc 0) stderr, untraced-names w i)
]

with_child-names :
    (w : World) (o : Option ℕ) (f : ℕ → Child → World × ℤ)
    → ((i : ℕ) (c : Child) → names (f i c).0.children ≡ names w.children)
    → names (with_child w o f).0.children ≡ names w.children
with_child-names w none f h = refl
with_child-names w (some i) f h = elim (Option-cases (get_elem? w.children i)) [
  | inl out ↦ ground arith
  | inr (c, there) ↦ ground (arith, h i c)
]

-- No command on a child, whether it succeeds or fails, adds a child to the table, drops one, or
-- changes a child's pid, identifier or arguments.
pub run-names : (w : World) (c : Command) → names (run w c).0.children ≡ names w.children
unfolding run continue_child_process kill_child_process stop_child_process release_child_process
    poke_in_process
run-names w (cont id) = with_child-names w (get_child_by_deet_id w id) _ λ i c.
    ground (arith, marked-names w i running (negsuc 0) 1, marked-names w i continuing (negsuc 0) 1)
run-names w (kill id) =
    with_child-names w (get_child_by_deet_id w id) _ λ i c. kill_child-names w c.pid
run-names w (stop id) =
    with_child-names w (get_child_by_deet_id_ig w id) _
      λ i c. ground (arith, stop_child-names w c.pid)
run-names w (release id) =
    with_child-names w (get_child_by_deet_id_ig w id) _
      λ i c. ground (arith, release_child-names w c.pid)
run-names w (poke_word id addr value) =
    with_child-names w (get_child_by_deet_id_ig w id) _ λ i c. ground arith

pub with_child-failure :
    (w : World) (o : Option ℕ) (f : ℕ → Child → World × ℤ) (n : ℕ)
    → ((i : ℕ) (c : Child) → (f i c).1 ≡ negsuc n → (f i c).0 ≡ w)
    → (with_child w o f).1 ≡ negsuc n
    → (with_child w o f).0 ≡ w
with_child-failure w none f n h e = refl
with_child-failure w (some i) f n h e = elim (Option-cases (get_elem? w.children i)) [
  | inl out ↦ ground arith
  | inr (c, there) ↦ ground (arith, h i c)
]

release_failure :
    (w : World) (pid : ℕ) → (release_child w pid).1 ≡ none → (release_child w pid).0 ≡ w
unfolding release_child
release_failure w pid e = ground arith

-- A command that returns -1 has changed nothing: no state, no log line, no signal.
pub run-failure : (w : World) (c : Command) (n : ℕ) → (run w c).1 ≡ negsuc n → (run w c).0 ≡ w
unfolding run continue_child_process kill_child_process stop_child_process release_child_process
    poke_in_process
run-failure w (cont id) n =
    with_child-failure w (get_child_by_deet_id w id) _ n λ i c e. ground arith
run-failure w (kill id) n =
    with_child-failure w (get_child_by_deet_id w id) _ n λ i c e. ground arith
run-failure w (stop id) n =
    with_child-failure w (get_child_by_deet_id_ig w id) _ n λ i c e. ground arith
run-failure w (release id) n =
    with_child-failure w (get_child_by_deet_id_ig w id) _ n
      λ i c e. ground (arith, release_failure w c.pid)
run-failure w (poke_word id addr value) n =
    with_child-failure w (get_child_by_deet_id_ig w id) _ n λ i c e. ground arith
