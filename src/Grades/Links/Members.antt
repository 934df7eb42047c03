-- ===== src/Grades/Links/Members.antt =====
-- Students in lists of distinct students, for the passes of hw2/src/stats.c over the sections.
use cse320_fall.Base.{
  ℕ, zero, suc, ◌≡◌, ◌≢◌, refl, subst, Bool, true, false, some, List, [], ◌∷◌, ◌++◌, ◌||◌, any, All,
  get_elem?, Bool-cases, inl, inr, arith, ◌==◌,
}

abbrev pub concat : List (List ℕ) → List ℕ
concat [] = []
concat (sec ∷ rest) = sec ++ concat rest

abbrev pub Distinct : List ℕ → Type 0
Distinct [] = Unit
Distinct (x ∷ xs) = All (λ y. x ≢ y) xs × Distinct xs

abbrev pub member : ℕ → List ℕ → Bool
member x xs = any (λ y. y == x) xs

pub any-append : (x : ℕ) (xs ys : List ℕ) → member x (xs ++ ys) ≡ (member x xs || member x ys)
any-append x [] ys = refl
any-append x (y ∷ xs) ys = ground (arith, any-append x xs ys)

pub All-member : (x : ℕ) (xs : List ℕ) → All (λ y. x ≢ y) xs → member x xs ≡ false
All-member x [] h = refl
All-member x (y ∷ ys) h = ground (arith, All-member x ys h.1)

pub Distinct-right : (xs ys : List ℕ) → Distinct (xs ++ ys) → Distinct ys
Distinct-right [] ys d = d
Distinct-right (x ∷ xs) ys d = Distinct-right xs ys d.1

pub All-left : (x : ℕ) (xs ys : List ℕ) → All (λ y. x ≢ y) (xs ++ ys) → All (λ y. x ≢ y) xs
All-left x [] ys h = tt
All-left x (y ∷ xs) ys h = (h.0, All-left x xs ys h.1)

pub Distinct-left : (xs ys : List ℕ) → Distinct (xs ++ ys) → Distinct xs
Distinct-left [] ys d = tt
Distinct-left (x ∷ xs) ys d = (All-left x xs ys d.0, Distinct-left xs ys d.1)

pub concat-member :
    (x i : ℕ) (sections : List (List ℕ)) (sec : List ℕ)
    → get_elem? sections i ≡ some sec
    → member x sec ≡ true
    → member x (concat sections) ≡ true
concat-member x i [] sec e m = cc
concat-member x zero (y ∷ rest) sec e m =
    let same : sec ≡ y = ground arith in
    let here : member x y ≡ true = subst (λ z. member x z ≡ true) same m in
    ground (arith, any-append x y (concat rest))
concat-member x (suc i) (y ∷ rest) sec e m =
    ground (arith, any-append x y (concat rest), concat-member x i rest sec e m)

pub Distinct-apart :
    (x : ℕ) (xs ys : List ℕ) → Distinct (xs ++ ys) → member x xs ≡ true → member x ys ≡ false
Distinct-apart x [] ys d m = cc
Distinct-apart x (y ∷ xs) ys d m = elim (Bool-cases (y == x)) [
  | inr other ↦ Distinct-apart x xs ys d.1 (ground arith)
  | inl same ↦
      let yx : y ≡ x = ground arith in
      let away : member x (xs ++ ys) ≡ false =
        subst (λ z. member z (xs ++ ys) ≡ false) yx (All-member y (xs ++ ys) d.0) in
      ground (arith, any-append x xs ys)
]
