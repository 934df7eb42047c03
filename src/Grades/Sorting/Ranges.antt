-- ===== src/Grades/Sorting/Ranges.antt =====
-- Orders of entries, and ranges of the table of hw2/src/sort.c with the same entries.
use cse320_fall.Base.{
  ℕ, zero, suc, ◌≤◌, ◌<◌, ◌≡◌, refl, Bool, true, false, ◌||◌, List, [], ◌∷◌, arith, ltb, get_or,
  length, count, Bool-cases, inl, inr, ◌∙◌, sym, ap,
}
use cse320_fall.Base.Int.{ℤ}
use cse320_fall.Grades.Sorting.{is_zero, is_positive}
use cse320_fall.Grades.Sorting.Partition.{Split}

-- What `sorttable` relies on: `compare` tells the order of any two entries.
pub record IsOrder {A : Type 0} (compare : A → A → ℤ) : Type 0 where
  pub same : (x : A) → is_zero (compare x x) ≡ true
  pub opposite :
      (x y : A)
      → is_positive (compare x y) ≡ true
      → (is_positive (compare y x) || is_zero (compare y x)) ≡ false
  pub mirrored :
      (x y : A)
      → is_positive (compare x y) ≡ false
      → is_positive (compare y x) ≡ false
      → is_zero (compare x y) ≡ true
  pub between :
      (x p y : A)
      → is_positive (compare x p) ≡ false
      → (is_positive (compare y p) || is_zero (compare y p)) ≡ true
      → is_positive (compare x y) ≡ false

module _ {A : Type 0} where
  count_mono :
      (test : A → Bool) (d : A) (t t' : List A)
      → length t' ≡ length t
      → ((i : ℕ) → i < length t → test (get_or t' i d) ≡ true → test (get_or t i d) ≡ true)
      → count test t' ≤ count test t
  count_mono test d [] [] e m = omega arith
  count_mono test d [] (y ∷ t') e m = absurd (omega arith)
  count_mono test d (x ∷ t) [] e m = absurd (omega arith)
  count_mono test d (x ∷ t) (y ∷ t') e m =
      let rest = count_mono test d t t' (omega arith) (λ i p. m (suc i) (omega arith)) in
      ground (arith, m zero (omega arith), rest)

  -- Where as many entries pass a test, and no other places pass it, the same places pass it.
  count-all :
      (test : A → Bool) (d : A) (t t' : List A)
      → length t' ≡ length t
      → count test t' ≡ count test t
      → ((i : ℕ) → i < length t → test (get_or t' i d) ≡ true → test (get_or t i d) ≡ true)
      → (i : ℕ) → i < length t
      → test (get_or t i d) ≡ true
      → test (get_or t' i d) ≡ true
  count-all test d [] t' e c m i p h = absurd (omega arith)
  count-all test d (x ∷ t) [] e c m i p h = absurd (omega arith)
  count-all test d (x ∷ t) (y ∷ t') e c m i p h =
      let later = λ (j : ℕ) (q : j < length t). m (suc j) (omega arith) in
      let rest = count_mono test d t t' (omega arith) later in
      let both : (test y ≡ test x) = ground (arith, m zero (omega arith), rest) in
      elim i
          as (λ k.
            k < suc (length t)
            → test (get_or (x ∷ t) k d) ≡ true
            → test (get_or (y ∷ t') k d) ≡ true) [
              | zero ↦ λ q g. both ∙ g
              | suc j ↦
                  λ q g. count-all test d t t' (omega arith) (ground arith) later j (omega arith) g
            ]
        p h

module _ {A : Type 0} (compare : A → A → ℤ) (outside : A) where
  -- The entries of a range in some order, and the others where they were.
  pub record Rearranged (t t' : List A) (low high : ℕ) : Type 0 where
    pub length_kept : length t' ≡ length t
    pub counts : (test : A → Bool) → count test t' ≡ count test t
    pub before : (i : ℕ) → i < low → get_or t' i outside ≡ get_or t i outside
    pub after : (i : ℕ) → high ≤ i → get_or t' i outside ≡ get_or t i outside

  -- No entry of the range is above a later one.
  abbrev pub IsSorted : List A → (low high : ℕ) → Type 0
  IsSorted t low high =
      (i j : ℕ)
      → low ≤ i
      → i < j
      → j < high
      → is_positive (compare (get_or t i outside) (get_or t j outside)) ≡ false

  pub Rearranged-all :
      (test : A → Bool) (t t' : List A) (low high : ℕ)
      → Rearranged t t' low high
      → high ≤ length t
      → ((i : ℕ) → low ≤ i → i < high → test (get_or t i outside) ≡ true)
      → (i : ℕ) → low ≤ i
      → i < high
      → test (get_or t' i outside) ≡ true
  Rearranged-all test t t' low high r h all i p q =
      count-all test outside t t' r.length_kept (r.counts test)
        (λ j k g. elim (Bool-cases (ltb j low)) [
          | inl lower ↦ sym (ap test (r.before j (ground arith))) ∙ g
          | inr further ↦ elim (Bool-cases (ltb j high)) [
            | inl inner ↦ all j (ground arith) (ground arith)
            | inr past ↦ sym (ap test (r.after j (ground arith))) ∙ g
          ]
        ])
        i (omega arith) (all i p q)

  pub Split-Rearranged :
      (pivot : A) (t t' : List A) (low high m : ℕ)
      → Split compare outside pivot t t' low high m
      → Rearranged t t' low high
  Split-Rearranged pivot t t' low high m s = record {
    length_kept = s.length_kept;
    counts = s.counts;
    before = s.before;
    after = s.after;
  }

  pub unchanged : (t : List A) (low high : ℕ) → Rearranged t t low high
  unchanged t low high = record {
    length_kept = refl;
    counts = λ test. refl;
    before = λ i b. refl;
    after = λ i b. refl;
  }

  pub halves-Rearranged :
      (t t' t1 t2 : List A) (low m high : ℕ)
      → low ≤ m
      → m ≤ high
      → Rearranged t t' low high
      → Rearranged t' t1 low m
      → Rearranged t1 t2 m high
      → Rearranged t t2 low high
  halves-Rearranged t t' t1 t2 low m high p q r a b = record {
    length_kept = b.length_kept ∙ a.length_kept ∙ r.length_kept;
    counts = λ test. b.counts test ∙ a.counts test ∙ r.counts test;
    before = λ i k. b.before i (omega arith) ∙ a.before i k ∙ r.before i k;
    after = λ i k. b.after i k ∙ a.after i (omega arith) ∙ r.after i k;
  }
