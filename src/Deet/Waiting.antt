-- ===== src/Deet/Waiting.antt =====
-- Waiting for the state of a child, `suspend_until_state` of hw4/src/signaling.c and
-- `wait_for_child_process` of hw4/src/child_processes.c. SIGCHLD is not blocked, so that its handler
-- may run before the test of the state, between the test and `sigsuspend`, and in `sigsuspend`,
-- which returns after it. The flags `free_flag` and `can_print` are left out.
pub mod Blocking
pub mod Exits
use cse320_fall.Base.{
  ℕ, Bool, true, false, Option, none, some, List, [], ◌∷◌, if◌then◌else◌, get_elem?,
}
use cse320_fall.Deet.Children.{Pstate, is_state, Child, World, get_child_by_deet_id}
use cse320_fall.Deet.Reaping.{WaitStatus, handle_sigchild}

abbrev pub has_state : World → ℕ → Pstate → Bool
has_state w i state = elim (get_elem? w.children i) [
  | none ↦ false
  | some c ↦ is_state c.status state
]

-- Where the loop is: before the test, behind a test that failed, in `sigsuspend`, or back.
pub data Place : Type 0 where
  testing tested suspended returned : Place

-- The loop goes one place on; or the handler runs, with what `waitpid` reports to it.
pub data Occurrence : Type 0 where
  advance : Occurrence
  arrive : List (ℕ × WaitStatus) → Occurrence

-- For the child at the place `i` of the table. What comes after the return is left out.
unfoldable pub wait_step : (self : ℕ) → World → ℕ → Pstate → Place → Occurrence → World × Place
wait_step self w i state testing advance = (w, if has_state w i state then returned else tested)
wait_step self w i state tested advance = (w, suspended)
wait_step self w i state suspended advance = (w, suspended)
wait_step self w i state returned advance = (w, returned)
wait_step self w i state testing (arrive reports) = (handle_sigchild self w reports, testing)
wait_step self w i state tested (arrive reports) = (handle_sigchild self w reports, tested)
wait_step self w i state suspended (arrive reports) = (handle_sigchild self w reports, testing)
wait_step self w i state returned (arrive reports) = (w, returned)

unfoldable pub wait_loop : (self : ℕ) → World → ℕ → Pstate → Place → List Occurrence → World × Place
unfolding wait_step
wait_loop self w i state at [] = (w, at)
wait_loop self w i state at (o ∷ os) =
    let (w', at') = wait_step self w i state at o in wait_loop self w' i state at' os

-- It returns at once, with -1, for an identifier that no child has.
unfoldable pub suspend_until_state :
    (self : ℕ) → World → (deet_id : ℕ) → Pstate → List Occurrence → World × Place
unfolding wait_loop
suspend_until_state self w deet_id state os = elim (get_child_by_deet_id w deet_id) [
  | none ↦ (w, returned)
  | some i ↦ wait_loop self w i state testing os
]
