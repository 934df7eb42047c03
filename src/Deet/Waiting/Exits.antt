-- ===== src/Deet/Waiting/Exits.antt =====
-- What the report of a child's exit does to a wait for its death (hw4/src/signaling.c).
use cse320_fall.Base.{
  ℕ, zero, suc, ◌≡◌, refl, true, false, some, List, [], ◌∷◌, arith, get_elem?, ap, ◌∙◌,
  get_elem?-set,
}
use cse320_fall.Deet.Children.{
  Pstate, is_state, dead, Child, World, note, received, sigchld, get_child,
}
use cse320_fall.Deet.Reaping.{WaitStatus, handle_report, handle_sigchild}
use cse320_fall.Deet.Reaping.Outcomes.{reported, handle_report_lem}
use cse320_fall.Deet.Waiting.{
  has_state, Place, testing, tested, suspended, returned, Occurrence, advance, arrive, wait_step,
  wait_loop,
}
use cse320_fall.Deet.Waiting.Blocking.{has_state-at}

exit_report :
    (self : ℕ) (w : World) (i : ℕ) (c : Child) (s : WaitStatus)
    → get_elem? w.children i ≡ some c
    → get_child w c.pid ≡ some i
    → handle_sigchild self w ((c.pid, s) ∷ []) ≡ handle_report self (note w (received sigchld)) i s
unfolding handle_sigchild get_child
exit_report self w i c s there at =
    let at' : get_child (note w (received sigchld)) c.pid ≡ some i = at in
    rw (at', handle_sigchild) refl

-- The loop goes so many places on.
abbrev pub advances : ℕ → List Occurrence
advances zero = []
advances (suc n) = advance ∷ advances n

-- Where a wait for the death of a child gets to when the child's exit is reported at a place.
abbrev pub place_after_exit : Place → Place
place_after_exit testing = returned
place_after_exit tested = suspended
place_after_exit suspended = returned
place_after_exit returned = returned

suspended-advances :
    (self : ℕ) (w : World) (i : ℕ) (state : Pstate) (n : ℕ)
    → (wait_loop self w i state suspended (advances n)).1 ≡ suspended
unfolding wait_loop wait_step
suspended-advances self w i state zero = refl
suspended-advances self w i state (suc n) = suspended-advances self w i state n

returned-advances :
    (self : ℕ) (w : World) (i : ℕ) (state : Pstate) (n : ℕ)
    → (wait_loop self w i state returned (advances n)).1 ≡ returned
unfolding wait_loop wait_step
returned-advances self w i state zero = refl
returned-advances self w i state (suc n) = returned-advances self w i state n

testing-returned :
    (self : ℕ) (w : World) (i : ℕ) (state : Pstate) (n : ℕ)
    → has_state w i state ≡ true
    → (wait_loop self w i state testing (advances (suc n))).1 ≡ returned
unfolding wait_loop wait_step
testing-returned self w i state n there = rw (wait_loop, there) (returned-advances self w i state n)

-- Behind the report the test succeeds.
exit_report-has_state :
    (self : ℕ) (w : World) (i : ℕ) (c : Child) (s : WaitStatus)
    → get_elem? w.children i ≡ some c
    → get_child w c.pid ≡ some i
    → s.if_exited ≡ true
    → s.if_stopped ≡ false
    → s.if_continued ≡ false
    → has_state (handle_sigchild self w ((c.pid, s) ∷ [])) i dead ≡ true
unfolding is_state
exit_report-has_state self w i c s there at exited no_stop no_cont =
    let w1 = note w (received sigchld) in
    let w' = handle_report self w1 i s in
    let died : get_elem? w'.children i ≡ some (reported s c) =
      ap (λ l. get_elem? l i) (handle_report_lem self w1 i c s there)
      ∙ get_elem?-set w.children i c (reported s c) there in
    let is_dead : is_state (reported s c).status dead ≡ true = ground arith in
    rw (exit_report self w i c s there at) (has_state-at w' i (reported s c) dead died ∙ is_dead)

-- A child, the first with its pid, is reported to have exited, and neither stopped nor continued, in
-- a wait for its death; the handler runs again at once, for the SIGCHLD that it has sent to its own
-- process, with nothing to report. If this is before the test or in `sigsuspend`, the loop has
-- returned when it has gone one place on. If it is between the test and `sigsuspend`, the report is
-- lost: the loop stays in `sigsuspend` however far it goes on without another signal.
pub wait_loop_exit :
    (self : ℕ) (w : World) (i : ℕ) (c : Child) (s : WaitStatus) (at : Place) (n : ℕ)
    → get_elem? w.children i ≡ some c
    → get_child w c.pid ≡ some i
    → s.if_exited ≡ true
    → s.if_stopped ≡ false
    → s.if_continued ≡ false
    → (wait_loop self w i dead at (arrive ((c.pid, s) ∷ []) ∷ arrive [] ∷ advances (suc n))).1
      ≡ place_after_exit at
unfolding wait_loop wait_step handle_sigchild
wait_loop_exit self w i c s testing n there first exited no_stop no_cont =
    testing-returned self (handle_sigchild self w ((c.pid, s) ∷ [])) i dead n
      (exit_report-has_state self w i c s there first exited no_stop no_cont)
wait_loop_exit self w i c s tested n there first exited no_stop no_cont =
    suspended-advances self _ i dead n
wait_loop_exit self w i c s suspended n there first exited no_stop no_cont =
    testing-returned self (handle_sigchild self w ((c.pid, s) ∷ [])) i dead n
      (exit_report-has_state self w i c s there first exited no_stop no_cont)
wait_loop_exit self w i c s returned n there first exited no_stop no_cont =
    returned-advances self w i dead n
