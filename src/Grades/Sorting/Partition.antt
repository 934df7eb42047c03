-- ===== src/Grades/Sorting/Partition.antt =====
-- What `partition` (hw2/src/sort.c) makes of the range that it is given.
use cse320_fall.Base.{
  count, ℕ, zero, suc, ◌+◌, ◌-◌, ◌/◌, ◌≤◌, ◌<◌, ◌≡◌, refl, Bool, true, false, ◌||◌, List, [], ◌∷◌,
  arith, ◌==◌, if◌then◌else◌, get_or, set, length, length-set, get_or-set_self, get_or-set_ne,
  Bool-cases, inl, inr, ◌∙◌, subst, ==_iff,
}
use cse320_fall.Base.Int.{ℤ, pos, negsuc}
use cse320_fall.Grades.Sorting.{
  is_zero, is_positive, swap, goes_high, next_alt, partition_loop, partition,
}

module _ {A : Type 0} where
  count-set :
      (test : A → Bool) (xs : List A) (i : ℕ) (v d : A)
      → i < length xs
      → count test (set xs i v) + (if test (get_or xs i d) then 1 else 0)
        ≡ count test xs + (if test v then 1 else 0)
  count-set test [] i v d h = absurd (omega arith)
  count-set test (x ∷ xs) zero v d h = ground arith
  count-set test (x ∷ xs) (suc i) v d h = omega (arith, count-set test xs i v d (omega arith))

pub zero_not_positive : (z : ℤ) → is_zero z ≡ true → is_positive z ≡ false
zero_not_positive (pos n) e = ground arith
zero_not_positive (negsuc n) e = refl

module _ {A : Type 0} (compare : A → A → ℤ) (outside : A) where
  pub swap-length : (t : List A) (i j : ℕ) → length (swap compare outside t i j) ≡ length t
  unfolding swap
  swap-length t i j = omega (
    arith,
    length-set {0} (set t j (get_or t i outside)) i (get_or t j outside),
    length-set {0} t j (get_or t i outside),
  )

  pub swap-get :
      (t : List A) (i j x : ℕ)
      → i < length t
      → j < length t
      → get_or (swap compare outside t i j) x outside ≡ (
          if x == i
          then get_or t j outside
          else if x == j
          then get_or t i outside
          else get_or t x outside)
  unfolding swap
  swap-get t i j x hi hj = ground (
    arith,
    length-set t j (get_or t i outside),
    get_or-set_self (set t j (get_or t i outside)) i (get_or t j outside) outside,
    get_or-set_ne (set t j (get_or t i outside)) i x (get_or t j outside) outside,
    get_or-set_self t j (get_or t i outside) outside,
    get_or-set_ne t j x (get_or t i outside) outside,
  )

  swap-count :
      (test : A → Bool) (t : List A) (i j : ℕ)
      → i < length t
      → j < length t
      → count test (swap compare outside t i j) ≡ count test t
  unfolding swap
  swap-count test t i j hi hj =
      let a : A = get_or t i outside in
      let b : A = get_or t j outside in
      let first = count-set test t j a outside hj in
      let second = count-set test (set t j a) i b outside (omega (arith, length-set {0} t j a)) in
      let back : get_or (set t j a) i outside ≡ a = elim (Bool-cases (i == j)) [
        | inl same ↦ ground (arith, get_or-set_self t j a outside)
        | inr other ↦ get_or-set_ne t j i a outside (ground arith)
      ] in
      omega (arith, first, rw back at second)

  -- What a partition of the places from `l` to `h` leaves.
  pub record Split (pivot : A) (t t' : List A) (l h m : ℕ) : Type 0 where
    pub length_kept : length t' ≡ length t
    pub at_least : l ≤ m
    pub at_most : m ≤ h
    pub counts : (test : A → Bool) → count test t' ≡ count test t
    pub before : (i : ℕ) → i < l → get_or t' i outside ≡ get_or t i outside
    pub after : (i : ℕ) → h ≤ i → get_or t' i outside ≡ get_or t i outside
    pub low : (i : ℕ) → l ≤ i → i < m → is_positive (compare (get_or t' i outside) pivot) ≡ false
    pub high :
        (i : ℕ)
        → m ≤ i
        → i < h
        → (is_positive (compare (get_or t' i outside) pivot)
            || is_zero (compare (get_or t' i outside) pivot))
          ≡ true

  goes_low_lem :
      (x pivot : A) (alt : Bool)
      → goes_high compare outside x pivot alt ≡ false
      → is_positive (compare x pivot) ≡ false
  unfolding goes_high
  goes_low_lem x pivot alt e = ground (arith, zero_not_positive (compare x pivot))

  goes_high_lem :
      (x pivot : A) (alt : Bool)
      → goes_high compare outside x pivot alt ≡ true
      → (is_positive (compare x pivot) || is_zero (compare x pivot)) ≡ true
  unfolding goes_high
  goes_high_lem x pivot alt e = ground arith

  -- A round that puts the entry at `l` on the high end.
  Split-up :
      (left : ℕ) (pivot : A) (t t' : List A) (l m : ℕ)
      → l + suc left ≤ length t
      → (is_positive (compare (get_or t l outside) pivot)
          || is_zero (compare (get_or t l outside) pivot))
        ≡ true
      → Split pivot (swap compare outside t l (l + left)) t' l (l + left) m
      → Split pivot t t' l (l + suc left) m
  Split-up left pivot t t' l m h up s = record {
    length_kept = omega (arith, s.length_kept, swap-length t l (l + left));
    at_least = s.at_least;
    at_most = omega (arith, s.at_most);
    counts = λ test. s.counts test ∙ swap-count test t l (l + left) (omega arith) (omega arith);
    before = λ i b. s.before i b ∙ ground (arith, swapped i);
    after = λ i b. s.after i (omega arith) ∙ ground (arith, swapped i);
    low = s.low;
    high = λ i a b. elim (Bool-cases (i == l + left)) [
      | inl last ↦
          (let arrived : get_or t' i outside ≡ get_or t l outside =
              s.after i (ground arith) ∙ ground (arith, swapped i) in
            rw arrived up)
      | inr inner ↦ s.high i a (ground arith)
    ];
  }
    where
      swapped :
          (x : ℕ)
          → get_or (swap compare outside t l (l + left)) x outside ≡ (
              if x == l
              then get_or t (l + left) outside
              else if x == l + left
              then get_or t l outside
              else get_or t x outside)
      swapped x = swap-get t l (l + left) x (omega arith) (omega arith)

  -- A round that leaves it on the low end.
  Split-down :
      (left : ℕ) (pivot : A) (t t' : List A) (l m : ℕ)
      → is_positive (compare (get_or t l outside) pivot) ≡ false
      → Split pivot t t' (suc l) (suc l + left) m
      → Split pivot t t' l (l + suc left) m
  Split-down left pivot t t' l m down s = record {
    length_kept = s.length_kept;
    at_least = omega (arith, s.at_least);
    at_most = omega (arith, s.at_most);
    counts = s.counts;
    before = λ i b. s.before i (omega arith);
    after = λ i b. s.after i (omega arith);
    low = λ i a b. elim (Bool-cases (i == l)) [
      | inl first ↦ rw (s.before i (ground arith), (==_iff i l).0 first) down
      | inr inner ↦ s.low i (ground arith) b
    ];
    high = λ i a b. s.high i a (omega arith);
  }

  pub partition_loop-Split :
      (left : ℕ) (pivot : A) (t : List A) (l : ℕ) (alt : Bool)
      → l + left ≤ length t
      → let r = partition_loop compare outside left pivot t l alt in
        Split pivot t r.0 l (l + left) r.1
  unfolding partition_loop
  partition_loop-Split zero pivot t l alt h = record {
    length_kept = refl;
    at_least = omega arith;
    at_most = omega arith;
    counts = λ test. refl;
    before = λ i b. refl;
    after = λ i b. refl;
    low = λ i a b. absurd (omega arith);
    high = λ i a b. absurd (omega arith);
  }
  partition_loop-Split (suc left) pivot t l alt h =
      let x = get_or t l outside in
      let alt' = next_alt compare outside x pivot alt in
      let t2 = swap compare outside t l (l + left) in
      elim (Bool-cases (goes_high compare outside x pivot alt)) [
        | inl up ↦ rw up (
            Split-up left pivot t _ l _ h (goes_high_lem x pivot alt up) (
              partition_loop-Split left pivot t2 l alt'
                (omega (arith, swap-length t l (l + left)))))
        | inr down ↦ rw down (
            Split-down left pivot t _ l _ (goes_low_lem x pivot alt down)
              (partition_loop-Split left pivot t (suc l) alt' (omega arith)))
      ]

  -- `partition` of a range of the table returns a place in it, with no entry that compares above
  -- the pivot before the place and none that compares below it from there on; the entries outside
  -- of the range stay where they are, and the table holds each entry as often as before.
  pub partition-Split :
      (t : List A) (low high : ℕ)
      → low ≤ high
      → high ≤ length t
      → let r = partition compare outside t low high in
        Split (get_or t ((low + high) / 2) outside) t r.0 low high r.1
  unfolding partition
  partition-Split t low high le inside =
      let e : low + (high - low) ≡ high = omega arith in
      let r = partition compare outside t low high in
      subst (λ (h : ℕ). Split (get_or t ((low + high) / 2) outside) t r.0 low h r.1) e
        (partition_loop-Split (high - low) (get_or t ((low + high) / 2) outside) t low true
          (omega arith))
