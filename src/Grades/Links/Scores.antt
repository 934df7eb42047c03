-- ===== src/Grades/Links/Scores.antt =====
-- The links from scores to statistics that `do_links` (hw2/src/stats.c) makes.
use cse320_fall.Base.{
  ℕ, zero, suc, ◌+◌, ◌≡◌, refl, sym, ap, ◌∙◌, subst, true, false, none, some, List, [], ◌∷◌, map,
  get_elem?, Bool-cases, Option-cases, inl, inr, arith, ltb, leb, ◌&&◌, ◌==◌, if◌then◌else◌,
}
use cse320_fall.Grades.Course.{Classstats, Sectionstats, Score}
use cse320_fall.Grades.Links.{
  Links, link_score, link_student, link_students, link_sections, link_assignments, do_links,
}
use cse320_fall.Grades.Links.Members.{
  concat, Distinct, member, any-append, All-member, Distinct-right, Distinct-left, concat-member,
  Distinct-apart,
}

module _ {D : Type 0} where
  -- What the passes for the assignments from `k` on, `n` of them, make of a score in section `j`.
  abbrev pub linked : (k n j : ℕ) → Score D → Score D
  linked k n j scp =
      if leb k scp.asgt && ltb scp.asgt (k + n)
      then record scp { stats = some (scp.asgt, j) }
      else scp

  link_students-other :
      (k csp ssp x : ℕ) (sec : List ℕ) (l : Links D)
      → member x sec ≡ false
      → (link_students k csp ssp sec l).rawscores x ≡ l.rawscores x
  unfolding link_students link_student
  link_students-other k csp ssp x [] l h = refl
  link_students-other k csp ssp x (s ∷ sec) l h =
      let a : (s == x) ≡ false = ground arith in
      let b : member x sec ≡ false = ground arith in
      link_students-other k csp ssp x sec (link_student k csp ssp s l) b ∙ rw a refl

  link_students-member :
      (k csp ssp x : ℕ) (sec : List ℕ) (l : Links D)
      → Distinct sec
      → member x sec ≡ true
      → (link_students k csp ssp sec l).rawscores x ≡ map (link_score k csp ssp) (l.rawscores x)
  unfolding link_students link_student
  link_students-member k csp ssp x [] l d h = cc
  link_students-member k csp ssp x (s ∷ sec) l d h = elim (Bool-cases (s == x)) [
    | inl same ↦
        let sx : s ≡ x = ground arith in
        let away : member x sec ≡ false =
          subst (λ z. member z sec ≡ false) sx (All-member s sec d.0) in
        link_students-other k csp ssp x sec (link_student k csp ssp s l) away
        ∙ rw same (ap (λ z. map (link_score k csp ssp) (l.rawscores z)) sx)
    | inr other ↦
        link_students-member k csp ssp x sec (link_student k csp ssp s l) d.1 (ground arith)
        ∙ rw other refl
  ]

  link_sections-other :
      (k csp ssp x : ℕ) (sstats : List (Sectionstats D)) (sections : List (List ℕ)) (l l' : Links D)
      → member x (concat sections) ≡ false
      → link_sections k csp ssp sstats sections l ≡ some l'
      → l'.rawscores x ≡ l.rawscores x
  unfolding link_sections
  link_sections-other k csp ssp x sstats [] l l' m h = ground arith
  link_sections-other k csp ssp x [] (sec ∷ rest) l l' m h = absurd (ground arith)
  link_sections-other k csp ssp x (c ∷ sstats) (sec ∷ rest) l l' m h =
      let a : member x sec ≡ false = ground (arith, any-append x sec (concat rest)) in
      let b : member x (concat rest) ≡ false = ground (arith, any-append x sec (concat rest)) in
      link_sections-other k csp (ssp + 1) x sstats rest (link_students k csp ssp sec l) l' b h
      ∙ link_students-other k csp ssp x sec l a

  link_sections-member :
      (k csp ssp x i : ℕ) (sstats : List (Sectionstats D)) (sections : List (List ℕ)) (sec : List ℕ)
      (l l' : Links D)
      → Distinct (concat sections)
      → get_elem? sections i ≡ some sec
      → member x sec ≡ true
      → link_sections k csp ssp sstats sections l ≡ some l'
      → l'.rawscores x ≡ map (link_score k csp (ssp + i)) (l.rawscores x)
  unfolding link_sections
  link_sections-member k csp ssp x i sstats [] sec l l' d e m h = cc
  link_sections-member k csp ssp x i [] (y ∷ rest) sec l l' d e m h = absurd (ground arith)
  link_sections-member k csp ssp x zero (c ∷ sstats) (y ∷ rest) sec l l' d e m h =
      let same : sec ≡ y = ground arith in
      let here : member x y ≡ true = subst (λ z. member x z ≡ true) same m in
      link_sections-other k csp (ssp + 1) x sstats rest (link_students k csp ssp y l) l'
        (Distinct-apart x y (concat rest) d here) h
      ∙ link_students-member k csp ssp x y l (Distinct-left y (concat rest) d) here
      ∙ ap (λ z. map (link_score k csp z) (l.rawscores x)) (omega arith)
  link_sections-member k csp ssp x (suc i) (c ∷ sstats) (y ∷ rest) sec l l' d e m h =
      let below : member x (concat rest) ≡ true = concat-member x i rest sec e m in
      let away : member x y ≡ false = elim (Bool-cases (member x y)) [
        | inr out ↦ out
        | inl inside ↦ absurd (ground (arith, Distinct-apart x y (concat rest) d inside))
      ] in
      link_sections-member k csp (ssp + 1) x i sstats rest sec (link_students k csp ssp y l) l'
        (Distinct-right y (concat rest) d) e m h
      ∙ ap (map (link_score k csp (ssp + 1 + i))) (link_students-other k csp ssp x y l away)
      ∙ ap (λ z. map (link_score k csp z) (l.rawscores x)) (omega arith)

  linked-link_score :
      (k n j : ℕ) (scp : Score D)
      → linked (k + 1) n j (link_score k k j scp) ≡ linked k (suc n) j scp
  linked-link_score k n j scp = elim (Bool-cases (scp.asgt == k)) [
    | inl same ↦
        let out : (leb (k + 1) scp.asgt && ltb scp.asgt (k + 1 + n)) ≡ false = ground arith in
        let within : (leb k scp.asgt && ltb scp.asgt (k + suc n)) ≡ true = ground arith in
        let here : k ≡ scp.asgt = ground arith in
        rw (same, out, within) (ap (λ z. record scp { stats = some (z, j) }) here)
    | inr other ↦
        let both : (leb (k + 1) scp.asgt && ltb scp.asgt (k + 1 + n))
            ≡ (leb k scp.asgt && ltb scp.asgt (k + suc n)) =
          ground arith in
        rw (other, both) refl
  ]

  linked_all :
      (k n j : ℕ) (scores : List (Score D))
      → map (linked (k + 1) n j) (map (link_score k k j) scores) ≡ map (linked k (suc n) j) scores
  linked_all k n j [] = refl
  linked_all k n j (s ∷ ss) =
      ap (λ x. x ∷ map (linked (k + 1) n j) (map (link_score k k j) ss)) (linked-link_score k n j s)
      ∙ ap (λ xs. linked k (suc n) j s ∷ xs) (linked_all k n j ss)

  linked_none : (k j : ℕ) (scores : List (Score D)) → scores ≡ map (linked k 0 j) scores
  linked_none k j [] = refl
  linked_none k j (s ∷ ss) =
      let none_fits : (leb k s.asgt && ltb s.asgt (k + 0)) ≡ false = ground arith in
      rw none_fits (ap (λ xs. s ∷ xs) (linked_none k j ss))

  link_assignments-member :
      (k n x i : ℕ) (classes : List (Classstats D)) (sections : List (List ℕ)) (sec : List ℕ)
      (l l' : Links D)
      → Distinct (concat sections)
      → get_elem? sections i ≡ some sec
      → member x sec ≡ true
      → link_assignments k n classes sections l ≡ some l'
      → l'.rawscores x ≡ map (linked k n i) (l.rawscores x)
  unfolding link_assignments
  link_assignments-member k zero x i classes sections sec l l' d e m h =
      let same : l ≡ l' = ground arith in
      ap (λ z. z.rawscores x) (sym same) ∙ linked_none k i (l.rawscores x)
  link_assignments-member k (suc n) x i [] sections sec l l' d e m h = absurd (ground arith)
  link_assignments-member k (suc n) x i (c ∷ classes) sections sec l l' d e m h =
      elim (Option-cases (link_sections k k 0 c.sstats sections l)) [
        | inl out ↦ absurd (ground arith)
        | inr (l1, step) ↦
            link_assignments-member (k + 1) n x i classes sections sec l1 l' d e m (ground arith)
            ∙ ap (map (linked (k + 1) n i)) (
                link_sections-member k k 0 x i c.sstats sections sec l l1 d e m step
                ∙ ap (λ z. map (link_score k k z) (l.rawscores x)) (omega arith))
            ∙ linked_all k n i (l.rawscores x)
      ]

  -- In a course whose students are distinct, each raw score of a student of a section points, after
  -- `do_links`, to the statistics of its assignment and of that section, and is otherwise the same.
  pub do_links-linked :
      (n x i : ℕ) (classes : List (Classstats D)) (sections : List (List ℕ)) (sec : List ℕ)
      (l l' : Links D)
      → Distinct (concat sections)
      → get_elem? sections i ≡ some sec
      → member x sec ≡ true
      → do_links n classes sections l ≡ some l'
      → l'.rawscores x ≡ map (linked 0 n i) (l.rawscores x)
  unfolding do_links
  do_links-linked n x i classes sections sec l l' d e m h =
      link_assignments-member 0 n x i classes sections sec (record l { roster = none; rp = none })
        l' d e m h
