-- ===== src/Grades/Links/Roster.antt =====
-- The course roster that `do_links` (hw2/src/stats.c) threads through the students.
use cse320_fall.Base.{
  ℕ, zero, suc, ◌+◌, ◌<◌, ◌≤◌, ◌≡◌, ◌≢◌, refl, sym, ap, ◌∙◌, subst, Option, none, some, List, [],
  ◌∷◌, ◌++◌, ◌⊎◌, length, All, inl, inr, arith,
}
use cse320_fall.Grades.Course.{Classstats, Sectionstats}
use cse320_fall.Grades.Links.Members.{concat, Distinct}
use cse320_fall.Grades.Links.{
  Links, write_next, write_roster, link_student, link_students, link_sections, link_assignments,
  do_links, walk,
}

-- From `p` on, the links lead through the list and end.
abbrev Linked : (f : ℕ → Option ℕ) (p : ℕ) → List ℕ → Type 0
Linked f p [] = f p ≡ none
Linked f p (s ∷ rest) = (f p ≡ some s) × Linked f s rest

walk-Linked :
    (f : ℕ → Option ℕ) (p : ℕ) (rest : List ℕ)
    → Linked f p rest
    → walk (suc (length rest)) f (some p) ≡ some (p ∷ rest)
unfolding walk
walk-Linked f p [] h = rw h refl
walk-Linked f p (s ∷ rest) h = rw (h.0, walk-Linked f s rest h.1) refl

-- The part of the state that makes the roster.
record Thread : Type 0 where
  roster : Option ℕ
  rp : Option ℕ
  cnext : ℕ → Option ℕ

abbrev knot : ℕ → Thread → Thread
knot s t = record {
  roster = write_roster t.roster t.rp s;
  rp = some s;
  cnext = write_next t.cnext t.rp s;
}

abbrev thread : List ℕ → Thread → Thread
thread [] t = t
thread (s ∷ rest) t = thread rest (knot s t)

write_next_self : (f : ℕ → Option ℕ) (rp : Option ℕ) (s : ℕ) → write_next f rp s s ≡ none
write_next_self f none s = ground arith
write_next_self f (some p) s = ground arith

thread_keeps :
    (p q : ℕ) (rest : List ℕ) (t : Thread)
    → t.rp ≡ some p
    → q ≢ p
    → All (λ y. q ≢ y) rest
    → (thread rest t).cnext q ≡ t.cnext q
thread_keeps p q [] t e n h = refl
thread_keeps p q (s ∷ rest) t e n h =
    thread_keeps s q rest (knot s t) refl h.0 h.1 ∙ rw e (ground arith)

thread-Linked :
    (p : ℕ) (rest : List ℕ) (t : Thread)
    → t.rp ≡ some p
    → t.cnext p ≡ none
    → Distinct (p ∷ rest)
    → Linked (thread rest t).cnext p rest
thread-Linked p [] t e n h = n
thread-Linked p (s ∷ rest) t e n h = (
  thread_keeps s p rest (knot s t) refl h.0.0 h.0.1 ∙ rw e (ground arith),
  thread-Linked s rest (knot s t) refl (write_next_self t.cnext t.rp s) h.1,
)

-- A pass begins with nothing linked, or with the roster's first student known.
abbrev Ready : (s : ℕ) → Thread → Type 0
Ready s t = (t.rp ≡ none) ⊎ ((t.roster ≡ some s) × (p : ℕ) × (t.rp ≡ some p))

abbrev Woven : (s : ℕ) → List ℕ → Thread → Type 0
Woven s rest t = (t.roster ≡ some s) × ((p : ℕ) × (t.rp ≡ some p)) × Linked t.cnext s rest

thread-roster :
    (rest : List ℕ) (p : ℕ) (t : Thread)
    → t.rp ≡ some p
    → ((thread rest t).roster ≡ t.roster) × (r : ℕ) × ((thread rest t).rp ≡ some r)
thread-roster [] p t e = (refl, p, e)
thread-roster (s ∷ rest) p t e =
    let (a, r, b) = thread-roster rest s (knot s t) refl in (a ∙ rw e refl, r, b)

knot-roster : (s : ℕ) (t : Thread) → Ready s t → (knot s t).roster ≡ some s
knot-roster s t (inl e) = rw e refl
knot-roster s t (inr (a, p, e)) = rw e a

-- A pass over the students, whatever their links were.
thread-Woven :
    (s : ℕ) (rest : List ℕ) (t : Thread)
    → Ready s t
    → Distinct (s ∷ rest)
    → Woven s rest (thread (s ∷ rest) t)
thread-Woven s rest t h d =
    let (a, r, b) = thread-roster rest s (knot s t) refl in
    (
      a ∙ knot-roster s t h,
      (r, b),
      thread-Linked s rest (knot s t) refl (write_next_self t.cnext t.rp s) d,
    )

abbrev passes : ℕ → List ℕ → Thread → Thread
passes zero all t = t
passes (suc n) all t = passes n all (thread all t)

passes-Woven :
    (n s : ℕ) (rest : List ℕ) (t : Thread)
    → Distinct (s ∷ rest)
    → Woven s rest t
    → Woven s rest (passes n (s ∷ rest) t)
passes-Woven zero s rest t d w = w
passes-Woven (suc n) s rest t d w =
    passes-Woven n s rest (thread (s ∷ rest) t) d
      (thread-Woven s rest t (inr (w.0, w.1.0, w.1.1)) d)

thread-append : (xs ys : List ℕ) (t : Thread) → thread (xs ++ ys) t ≡ thread ys (thread xs t)
thread-append [] ys t = refl
thread-append (x ∷ xs) ys t = thread-append xs ys (knot x t)

passes_nil : (n : ℕ) (t : Thread) → passes n [] t ≡ t
passes_nil zero t = refl
passes_nil (suc n) t = passes_nil n t

passes-walk :
    (all : List ℕ) (n : ℕ) (t : Thread)
    → t.roster ≡ none
    → t.rp ≡ none
    → Distinct all
    → walk (length all) (passes (suc n) all t).cnext (passes (suc n) all t).roster ≡ some all
unfolding walk
passes-walk [] n t e f d = rw (passes_nil n t, e) refl
passes-walk (s ∷ rest) n t e f d =
    let (a, r, l) =
      passes-Woven n s rest (thread (s ∷ rest) t) d (thread-Woven s rest t (inl f) d) in
    rw a (walk-Linked (passes (suc n) (s ∷ rest) t).cnext s rest l)

module _ {D : Type 0} where
  abbrev threads : Links D → Thread
  threads l = record { roster = l.roster; rp = l.rp; cnext = l.cnext }

  link_students-thread :
      (k csp ssp : ℕ) (sec : List ℕ) (l : Links D)
      → threads (link_students k csp ssp sec l) ≡ thread sec (threads l)
  unfolding link_students link_student
  link_students-thread k csp ssp [] l = refl
  link_students-thread k csp ssp (s ∷ sec) l =
      link_students-thread k csp ssp sec (link_student k csp ssp s l)

  -- The loop over the sections succeeds when each has statistics.
  link_sections-thread :
      (k csp ssp : ℕ) (sstats : List (Sectionstats D)) (sections : List (List ℕ)) (l : Links D)
      → length sections ≤ length sstats
      → (l' : Links D) × (link_sections k csp ssp sstats sections l ≡ some l')
        × (threads l' ≡ thread (concat sections) (threads l))
  unfolding link_sections
  link_sections-thread k csp ssp sstats [] l h = (l, refl, refl)
  link_sections-thread k csp ssp [] (sec ∷ rest) l h = absurd (omega arith)
  link_sections-thread k csp ssp (x ∷ sstats) (sec ∷ rest) l h =
      let (l', e, t) =
        link_sections-thread k csp (ssp + 1) sstats rest (link_students k csp ssp sec l)
          (omega arith) in
      (
        l',
        e,
        t
            ∙ ap (thread (concat rest)) (link_students-thread k csp ssp sec l)
            ∙ sym (thread-append sec (concat rest) (threads l)),
      )

  link_assignments-thread :
      (k n : ℕ) (classes : List (Classstats D)) (sections : List (List ℕ)) (l : Links D)
      → n ≤ length classes
      → All (λ c. length sections ≤ length c.sstats) classes
      → (l' : Links D) × (link_assignments k n classes sections l ≡ some l')
        × (threads l' ≡ passes n (concat sections) (threads l))
  unfolding link_assignments
  link_assignments-thread k zero classes sections l h a = (l, refl, refl)
  link_assignments-thread k (suc n) [] sections l h a = absurd (omega arith)
  link_assignments-thread k (suc n) (c ∷ classes) sections l h a =
      let (l1, e1, t1) = link_sections-thread k k 0 c.sstats sections l a.0 in
      let (l2, e2, t2) = link_assignments-thread (k + 1) n classes sections l1 (omega arith) a.1 in
      (l2, rw (link_assignments, e1) e2, t2 ∙ ap (passes n (concat sections)) t1)

  -- However many assignments the course has, and however the students were linked: with at least
  -- one assignment, and statistics for each of them and each section, `do_links` succeeds and leaves
  -- a roster that leads through the students of all sections, in the order of the sections.
  pub do_links-walk :
      (n : ℕ) (classes : List (Classstats D)) (sections : List (List ℕ)) (l : Links D)
      → 0 < n
      → n ≤ length classes
      → All (λ c. length sections ≤ length c.sstats) classes
      → Distinct (concat sections)
      → (l' : Links D) × (do_links n classes sections l ≡ some l')
        × (walk (length (concat sections)) l'.cnext l'.roster ≡ some (concat sections))
  unfolding do_links
  do_links-walk zero classes sections l p h a d = absurd (omega arith)
  do_links-walk (suc n) classes sections l p h a d =
      let start : Links D = record l { roster = none; rp = none } in
      let (l', e, t) = link_assignments-thread 0 (suc n) classes sections start h a in
      (
        l',
        e,
        subst (λ x. walk (length (concat sections)) x.cnext x.roster ≡ some (concat sections))
            (sym t) (passes-walk (concat sections) n (threads start) refl refl d),
      )
