-- ===== src/Deet/Reaping.antt =====
-- Signals that reach the tracker, hw4/src/signaling.c: what `waitpid` reports of a child, and the
-- shutdown.
pub mod Outcomes
pub mod Shutdown
use cse320_fall.Base.{
  ℕ, zero, suc, ◌+◌, ◌-◌, Bool, true, false, Option, none, some, List, [], ◌∷◌, ◌++◌, ltb, ◌==◌,
  if◌then◌else◌, get_elem?, set,
}
use cse320_fall.Base.Int.{ℤ, pos, negsuc, ◌-ℤ◌}
use cse320_fall.Deet.Children.{
  Pstate, running, stopped, killed, dead, is_state, Child, Event, send, received, shutdown_done,
  sigkill, sigchld, World, note, stdout, get_child, put_child, set_child_status, child_summary,
  count_in_state, summaries_in_state, state_change,
}

-- The status word of `waitpid` and what the macros of <sys/wait.h> read from it: `WTERMSIG`,
-- `WIFEXITED`, `WIFSTOPPED` and `WIFCONTINUED`.
pub record WaitStatus : Type 0 where
  pub word : ℕ
  pub term_sig : ℕ
  pub if_exited : Bool
  pub if_stopped : Bool
  pub if_continued : Bool

abbrev pub set_exit_status : World → ℕ → ℤ → World
set_exit_status w i status = elim (get_elem? w.children i) [
  | none ↦ w
  | some c ↦ put_child w i (record c { exit_status = status })
]

abbrev pub settle : World → ℕ → Pstate → ℤ → World
settle w i status exit_status =
    child_summary (set_child_status w (some i) status exit_status).0 i stdout

-- The four tests of the loop of `handle_sigchild`, for the child at the place `i`; `self` is the
-- tracker's own pid.
unfoldable pub if_killed : ℕ → World → ℕ → WaitStatus → World
if_killed self w i s =
    if s.term_sig == 9
    then note (settle (set_exit_status w i (pos 9)) i dead (pos s.word)) (send self sigchld)
    else w

unfoldable pub if_exited : ℕ → World → ℕ → WaitStatus → World
if_exited self w i s =
    if s.if_exited
    then (let w1 = settle w i dead (pos s.word) in
        note (record w1 { next_deet_id = w1.next_deet_id -ℤ pos 1 }) (send self sigchld))
    else w

unfoldable pub if_stopped : World → ℕ → WaitStatus → World
if_stopped w i s = if s.if_stopped then settle w i stopped (negsuc 0) else w

unfoldable pub if_continued : World → ℕ → WaitStatus → World
if_continued w i s = if s.if_continued then settle w i running (negsuc 0) else w

unfoldable pub handle_report : ℕ → World → ℕ → WaitStatus → World
handle_report self w i s =
    if_continued (if_stopped (if_exited self (if_killed self w i s) i s) i s) i s

-- The loop of `handle_sigchild` with `shutdown` at 0, over what `waitpid` reports; it returns at a
-- child that is not in the table.
unfoldable pub handle_sigchild : (self : ℕ) → World → List (ℕ × WaitStatus) → World
handle_sigchild self w [] = w
handle_sigchild self w ((pid, s) ∷ reports) =
    let w1 = note w (received sigchld) in
    elim (get_child w1 pid) [
      | none ↦ w1
      | some i ↦ handle_sigchild self (handle_report self w1 i s) reports
    ]

-- The first loop of `handle_shutdown`: every child that is not dead is sent SIGKILL and marked.
unfoldable pub kill_all : List Child → List Child × List Event
unfolding is_state
kill_all [] = ([], [])
kill_all (c ∷ cs) =
    let (cs', es) = kill_all cs in
    if is_state c.status dead then (c ∷ cs', es) else (
      record c { status = killed; exit_status = negsuc 0 } ∷ cs',
      send c.pid sigkill ∷ state_change c.pid c.status killed (negsuc 0) ∷ es,
    )

-- `handle_shutdown` up to its wait, for a `shutdown` that is not 0; `sig` is logged from 2 on.
unfoldable pub begin_shutdown : (shutdown : ℕ) → World → World
begin_shutdown shutdown w =
    let w1 = if ltb 1 shutdown then note w (received sigchld) else w in
    let (cs, es) = kill_all w1.children in
    record w1 { children = cs; events = (w1.events ++ es) ++ summaries_in_state killed stdout cs }

-- Its end, once no child is `killed`: every node is freed and the program exits.
unfoldable pub end_shutdown : World → Option World
unfolding count_in_state
end_shutdown w =
    if count_in_state killed w.children == 0
    then some (note (record w { children = [] }) shutdown_done)
    else none
