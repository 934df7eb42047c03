-- ===== src/Deet/Reaping/Shutdown.antt =====
-- The shutdown of the tracker (hw4/src/signaling.c: `handle_shutdown`).
use cse320_fall.Base.{
  ℕ, suc, ◌+◌, ◌≡◌, refl, Bool, true, false, none, some, List, [], ◌∷◌, arith, ◌==◌, if◌then◌else◌,
  get_elem?, length,
}
use cse320_fall.Deet.Children.{
  Pstate, dead, killed, is_state, note, shutdown_done, Child, World, Event, send, sigkill,
  count_in_state,
}
use cse320_fall.Deet.Children.Status.{count_in_state-set}
use cse320_fall.Deet.Reaping.{WaitStatus, kill_all, begin_shutdown, end_shutdown, handle_report}
use cse320_fall.Deet.Reaping.Outcomes.{reported, handle_report_lem}

-- How often a SIGKILL is sent.
abbrev pub is_kill : Event → Bool
is_kill (send pid sigkill) = true
is_kill e = false

abbrev pub kills : List Event → ℕ
kills [] = 0
kills (e ∷ es) = (if is_kill e then 1 else 0) + kills es

kill_all_counts :
    (cs : List Child)
    → (count_in_state dead (kill_all cs).0 ≡ count_in_state dead cs)
      × (count_in_state killed (kill_all cs).0 + count_in_state dead cs ≡ length cs)
      × (kills (kill_all cs).1 ≡ count_in_state killed (kill_all cs).0)
unfolding kill_all count_in_state
kill_all_counts [] = (refl, refl, refl)
kill_all_counts (c ∷ cs) = ground (arith, kill_all_counts cs)

-- A shutdown leaves the dead children dead, marks every other child as killed, and sends one
-- SIGKILL for each of these.
pub begin_shutdown_lem :
    (shutdown : ℕ) (w : World)
    → let w' = begin_shutdown shutdown w in
      (count_in_state dead w'.children ≡ count_in_state dead w.children)
      × (count_in_state killed w'.children + count_in_state dead w.children ≡ length w.children)
      × (kills (kill_all w.children).1 ≡ count_in_state killed w'.children)
unfolding begin_shutdown
begin_shutdown_lem shutdown w = ground (arith, kill_all_counts w.children)

is_state_self : (s : Pstate) → is_state s s ≡ true
unfolding is_state
is_state_self s = ground arith

killed_dead : is_state dead killed ≡ false
unfolding is_state
killed_dead = refl

-- During the wait of a shutdown, each report that a child marked as killed died by signal 9 lowers
-- the count that it waits for by one; it does not end
-- before, and ends, with the table emptied, exactly at 0.
pub handle_report-killed :
    (self : ℕ) (w : World) (i n : ℕ) (c : Child) (s : WaitStatus)
    → get_elem? w.children i ≡ some c
    → c.status ≡ killed
    → s.term_sig ≡ 9
    → s.if_stopped ≡ false
    → s.if_continued ≡ false
    → count_in_state killed w.children ≡ suc n
    → (count_in_state killed (handle_report self w i s).children ≡ n)
      × (end_shutdown w ≡ none)
      × (end_shutdown (handle_report self w i s) ≡ (
          if n == 0
          then some (note (record (handle_report self w i s) { children = [] }) shutdown_done)
          else none))
unfolding end_shutdown
handle_report-killed self w i n c s there k sig st co count =
    let fewer : count_in_state killed (handle_report self w i s).children ≡ n =
      rw (handle_report_lem self w i c s there) (
        ground (
          arith,
          count_in_state-set killed w.children i c (reported s c),
          is_state_self killed,
          killed_dead,
        )) in
    (fewer, ground arith, ground arith)
