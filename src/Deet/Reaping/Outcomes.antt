-- ===== src/Deet/Reaping/Outcomes.antt =====
-- What a report of `waitpid` makes of a child (hw4/src/signaling.c).
use cse320_fall.Base.{
  get_elem?-set, set-set, set_self, ℕ, ◌≡◌, ◌||◌, some, arith, ◌∙◌, ap, sym, ◌==◌, if◌then◌else◌,
  get_elem?, set, Bool-cases, inl, inr,
}
use cse320_fall.Base.Int.{ℤ, pos, negsuc}
use cse320_fall.Deet.Children.{Pstate, dead, stopped, running, Child, World, set_child_status}
use cse320_fall.Deet.Children.Status.{child_summary-children}
use cse320_fall.Deet.Reaping.{
  WaitStatus, set_exit_status, settle, if_killed, if_exited, if_stopped, if_continued,
  handle_report,
}

-- The table with the child at `i` replaced.
record Became (w w' : World) (i : ℕ) (c' : Child) : Type 0 where
  table : w'.children ≡ set w.children i c'
  there : get_elem? w'.children i ≡ some c'

Became-trans :
    (w w' w'' : World) (i : ℕ) (c c' : Child)
    → Became w w' i c
    → Became w' w'' i c'
    → Became w w'' i c'
Became-trans w w' w'' i c c' a b = record {
  table = rw (b.table, a.table) (set-set w.children i c c');
  there = b.there;
}

abbrev with_status : Child → Pstate → ℤ → Child
with_status c s x = record c { status = s; exit_status = x }

module _ (w : World) (i : ℕ) (c : Child) (there : get_elem? w.children i ≡ some c) where
  settle-Became : (s : Pstate) (x : ℤ) → Became w (settle w i s x) i (with_status c s x)
  unfolding set_child_status
  settle-Became s x = record {
    table = rw (child_summary-children (set_child_status w (some i) s x).0 i 1) (ground arith);
    there =
        rw (child_summary-children (set_child_status w (some i) s x).0 i 1)
          (ground (arith, get_elem?-set w.children i c (with_status c s x)));
  }

  exit_status-Became : (x : ℤ) → Became w (set_exit_status w i x) i (record c { exit_status = x })
  exit_status-Became x = record {
    table = ground arith;
    there = ground (arith, get_elem?-set w.children i c (record c { exit_status = x }));
  }

  same-Became : Became w w i c
  same-Became = record { table = sym (set_self w.children i c there); there = there }

module _ (i : ℕ) (s : WaitStatus) where
  if_killed-Became :
      (self : ℕ) (w : World) (c : Child)
      → get_elem? w.children i ≡ some c
      → Became w
          (if_killed self w i s)
          i
          (if s.term_sig == 9 then with_status c dead (pos s.word) else c)
  unfolding if_killed
  if_killed-Became self w c there = elim (Bool-cases (s.term_sig == 9)) [
    | inl hit ↦
        let marked : World = set_exit_status w i (pos 9) in
        let first = exit_status-Became w i c there (pos 9) in
        let b = Became-trans w marked (settle marked i dead (pos s.word)) i _ _ first (
          settle-Became marked i (record c { exit_status = pos 9 }) first.there dead
            (pos s.word)) in
        rw (if_killed, hit) (record { table = b.table; there = b.there })
    | inr miss ↦ rw (if_killed, miss) (same-Became w i c there)
  ]

  if_exited-Became :
      (self : ℕ) (w : World) (c : Child)
      → get_elem? w.children i ≡ some c
      → Became w
          (if_exited self w i s)
          i
          (if s.if_exited then with_status c dead (pos s.word) else c)
  unfolding if_exited
  if_exited-Became self w c there = elim (Bool-cases s.if_exited) [
    | inl hit ↦
        let b = settle-Became w i c there dead (pos s.word) in
        rw (if_exited, hit) (record { table = b.table; there = b.there })
    | inr miss ↦ rw (if_exited, miss) (same-Became w i c there)
  ]

  if_stopped-Became :
      (w : World) (c : Child)
      → get_elem? w.children i ≡ some c
      → Became w (if_stopped w i s) i (if s.if_stopped then with_status c stopped (negsuc 0) else c)
  unfolding if_stopped
  if_stopped-Became w c there = elim (Bool-cases s.if_stopped) [
    | inl hit ↦ rw (if_stopped, hit) (settle-Became w i c there stopped (negsuc 0))
    | inr miss ↦ rw (if_stopped, miss) (same-Became w i c there)
  ]

  if_continued-Became :
      (w : World) (c : Child)
      → get_elem? w.children i ≡ some c
      → Became w
          (if_continued w i s)
          i
          (if s.if_continued then with_status c running (negsuc 0) else c)
  unfolding if_continued
  if_continued-Became w c there = elim (Bool-cases s.if_continued) [
    | inl hit ↦ rw (if_continued, hit) (settle-Became w i c there running (negsuc 0))
    | inr miss ↦ rw (if_continued, miss) (same-Became w i c there)
  ]

-- The child after a report: running with no exit status if the report says continued, or else
-- stopped with none if it says stopped, or else dead with the status word if it says exited or
-- killed by signal 9, or else as it was.
abbrev pub reported : WaitStatus → Child → Child
reported s c =
    if s.if_continued
    then with_status c running (negsuc 0)
    else if s.if_stopped
    then with_status c stopped (negsuc 0)
    else if s.if_exited || s.term_sig == 9
    then with_status c dead (pos s.word)
    else c

-- A report on the child at a place makes this child what the report says, and changes no other
-- child of the table.
pub handle_report_lem :
    (self : ℕ) (w : World) (i : ℕ) (c : Child) (s : WaitStatus)
    → get_elem? w.children i ≡ some c
    → (handle_report self w i s).children ≡ set w.children i (reported s c)
unfolding handle_report
handle_report_lem self w i c s there =
    let a = if_killed-Became i s self w c there in
    let b = if_exited-Became i s self _ _ a.there in
    let d = if_stopped-Became i s _ _ b.there in
    let e = if_continued-Became i s _ _ d.there in
    let whole =
      Became-trans _ _ _ i _ _ (Became-trans _ _ _ i _ _ (Became-trans _ _ _ i _ _ a b) d) e in
    whole.table ∙ ap (λ x. set w.children i x) (ground arith)
