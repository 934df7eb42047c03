-- ===== src/Deet/Waiting/Blocking.antt =====
-- When a wait for the state of a child (hw4/src/signaling.c) does not end.
use cse320_fall.Base.{
  ℕ, ◌≡◌, ◌≢◌, refl, false, some, List, [], ◌∷◌, ◌==◌, ==_iff, arith, get_elem?, All, Option-cases,
  Bool-cases, inl, inr, ◌⊎◌, ap, ◌∙◌, sym, subst, get_elem?-set, get_elem?-set_ne,
}
use cse320_fall.Deet.Children.{
  Pstate, is_state, dead, Child, World, note, received, sigchld, get_child, get_child_by_deet_id,
}
use cse320_fall.Deet.Children.Status.{find_from-get}
use cse320_fall.Deet.Reaping.{WaitStatus, handle_report, handle_sigchild}
use cse320_fall.Deet.Reaping.Outcomes.{reported, handle_report_lem}
use cse320_fall.Deet.Waiting.{
  has_state, Place, testing, tested, suspended, returned, Occurrence, advance, arrive, wait_step,
  wait_loop, suspend_until_state,
}

-- The place of a process in the table holds a child with its pid.
get_child-pid :
    (w : World) (pid j : ℕ)
    → get_child w pid ≡ some j
    → (d : Child) × (get_elem? w.children j ≡ some d) × (d.pid ≡ pid)
unfolding get_child
get_child-pid w pid j e =
    let (k, d, at, there, passes) = find_from-get (λ c. c.pid == pid) w.children 0 j e in
    let same : j ≡ k = omega (arith, at) in
    (d, ap (get_elem? w.children) same ∙ there, (==_iff d.pid pid).0 passes)

-- A report on another process, or one that the process has neither stopped nor continued.
abbrev pub IsEnding : (pid : ℕ) → ℕ × WaitStatus → Type 0
IsEnding pid (p, s) = (p ≢ pid) ⊎ ((s.if_stopped ≡ false) × (s.if_continued ≡ false))

abbrev pub BringsEnding : (pid : ℕ) → Occurrence → Type 0
BringsEnding pid advance = Unit
BringsEnding pid (arrive reports) = All (IsEnding pid) reports

-- The child with this pid at the place `i` is in another state.
record IsOutside (w : World) (i pid : ℕ) (state : Pstate) : Type 0 where
  child : Child
  there : get_elem? w.children i ≡ some child
  same : child.pid ≡ pid
  outside : is_state child.status state ≡ false

pub has_state-at :
    (w : World) (i : ℕ) (c : Child) (state : Pstate)
    → get_elem? w.children i ≡ some c
    → has_state w i state ≡ is_state c.status state
has_state-at w i c state there = rw (there, has_state) refl

module _ (self i pid : ℕ) (state : Pstate) (lives : is_state dead state ≡ false) where
  handle_report-IsOutside :
      (w : World) (j p : ℕ) (s : WaitStatus)
      → IsOutside w i pid state
      → get_child w p ≡ some j
      → IsEnding pid (p, s)
      → IsOutside (handle_report self w j s) i pid state
  handle_report-IsOutside w j p s o at ending =
      let (d, found, named) = get_child-pid w p j at in
      let table = handle_report_lem self w j d s found in
      elim (Bool-cases (j == i)) [
        | inr apart ↦
            let other : j ≢ i = λ e. ground arith in
            record {
              child = o.child;
              there = rw table (get_elem?-set_ne w.children j i (reported s d) other ∙ o.there);
              same = o.same;
              outside = o.outside;
            }
        | inl here ↦
            let e : j ≡ i = (==_iff j i).0 here in
            let both : some d ≡ some o.child = sym found ∙ ap (get_elem? w.children) e ∙ o.there in
            let one : d ≡ o.child = cc in
            let mine : d.pid ≡ pid = ap (λ (x : Child). x.pid) one ∙ o.same in
            let out : is_state d.status state ≡ false =
              ap (λ (x : Child). is_state x.status state) one ∙ o.outside in
            elim ending [
              | inl not_mine ↦ absurd (not_mine (sym named ∙ mine))
              | inr (no_stop, no_cont) ↦ record {
                child = reported s d;
                there =
                    subst
                      (λ k. get_elem? (handle_report self w j s).children k ≡ some (reported s d)) e
                      (rw table (get_elem?-set w.children j d (reported s d) found));
                same = ground arith;
                outside = ground arith;
              }
            ]
      ]

  handle_sigchild-IsOutside :
      (w : World) (reports : List (ℕ × WaitStatus))
      → IsOutside w i pid state
      → All (IsEnding pid) reports
      → IsOutside (handle_sigchild self w reports) i pid state
  unfolding handle_sigchild
  handle_sigchild-IsOutside w [] o v = o
  handle_sigchild-IsOutside w ((p, s) ∷ reports) o v =
      let w1 = note w (received sigchld) in
      let o1 : IsOutside w1 i pid state = record {
        child = o.child;
        there = o.there;
        same = o.same;
        outside = o.outside;
      } in
      elim (Option-cases (get_child w1 p)) [
        | inl e ↦ rw (e, handle_sigchild) o1
        | inr (j, e) ↦
            rw (e, handle_sigchild)
              (handle_sigchild-IsOutside (handle_report self w1 j s) reports
                (handle_report-IsOutside w1 j p s o1 e v.0) v.1)
      ]

  wait_step-IsOutside :
      (w : World) (at : Place) (o : Occurrence)
      → at ≢ returned
      → IsOutside w i pid state
      → BringsEnding pid o
      → let (w', at') = wait_step self w i state at o in (at' ≢ returned) × IsOutside w' i pid state
  unfolding wait_step
  wait_step-IsOutside w testing advance on o v =
      (ground (arith, has_state-at w i o.child state o.there, o.outside), o)
  wait_step-IsOutside w tested advance on o v = (ground arith, o)
  wait_step-IsOutside w suspended advance on o v = (ground arith, o)
  wait_step-IsOutside w testing (arrive reports) on o v =
      (ground arith, handle_sigchild-IsOutside w reports o v)
  wait_step-IsOutside w tested (arrive reports) on o v =
      (ground arith, handle_sigchild-IsOutside w reports o v)
  wait_step-IsOutside w suspended (arrive reports) on o v =
      (ground arith, handle_sigchild-IsOutside w reports o v)
  wait_step-IsOutside w returned o' on o v = absurd (on refl)

  wait_loop-IsOutside :
      (w : World) (at : Place) (os : List Occurrence)
      → at ≢ returned
      → IsOutside w i pid state
      → All (BringsEnding pid) os
      → (wait_loop self w i state at os).1 ≢ returned
  unfolding wait_loop
  wait_loop-IsOutside w at [] on o v = on
  wait_loop-IsOutside w at (x ∷ os) on o v =
      let (on', o') = wait_step-IsOutside w at x on o v.0 in
      let r = wait_step self w i state at x in wait_loop-IsOutside r.0 r.1 os on' o' v.1

-- A wait for a state other than dead, that the child is not in, does not return as long as no report
-- says that the child is stopped or continued, wherever the loop is when the reports arrive; so the
-- child may exit or be killed, and the wait goes on.
pub suspend_until_state_blocks :
    (self : ℕ) (w : World) (deet_id i : ℕ) (c : Child) (state : Pstate) (os : List Occurrence)
    → get_child_by_deet_id w deet_id ≡ some i
    → get_elem? w.children i ≡ some c
    → is_state c.status state ≡ false
    → is_state dead state ≡ false
    → All (BringsEnding c.pid) os
    → (suspend_until_state self w deet_id state os).1 ≢ returned
unfolding suspend_until_state
suspend_until_state_blocks self w deet_id i c state os at there other lives v =
    rw (at, suspend_until_state)
      (wait_loop-IsOutside self i c.pid state lives w testing os (ground arith)
        (record { child = c; there = there; same = refl; outside = other }) v)
