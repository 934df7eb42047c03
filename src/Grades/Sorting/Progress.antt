-- ===== src/Grades/Sorting/Progress.antt =====
-- Why `sorttable` (hw2/src/sort.c) ends: where `partition` puts the middle of the range.
use cse320_fall.Base.{
  ℕ, suc, ◌+◌, ◌-◌, ◌/◌, ◌≤◌, ◌<◌, ◌≡◌, ◌≢◌, true, false, ◌||◌, List, arith, ◌==◌, if◌then◌else◌,
  get_or, length, Bool-cases, inl, inr, ◌∙◌, subst,
}
use cse320_fall.Base.Int.{ℤ}
use cse320_fall.Grades.Sorting.{is_zero, is_positive, partition}
use cse320_fall.Grades.Sorting.Ends.{second_stays, tie_goes, rotated}

module _ {A : Type 0} (compare : A → A → ℤ) (outside : A) where
  -- Some entry of the range compares below the pivot that `partition` will take.
  pub record IsReady (t : List A) (low high : ℕ) : Type 0 where
    pub place : ℕ
    pub from : low ≤ place
    pub below_high : place < high
    pub under :
        (is_positive (compare (get_or t place outside) (get_or t ((low + high) / 2) outside))
          || is_zero (compare (get_or t place outside) (get_or t ((low + high) / 2) outside)))
        ≡ false

  module _ (same : (x : A) → is_zero (compare x x) ≡ true)
      (opposite : (x y : A)
        → is_positive (compare x y) ≡ true
        → (is_positive (compare y x) || is_zero (compare y x)) ≡ false) where
    middle_inside :
        (low high : ℕ) → low < high → (low ≤ (low + high) / 2) × ((low + high) / 2 < high)
    middle_inside low high p = (omega arith, omega arith)

    -- `partition` of a range that is not empty leaves something for the high end.
    pub partition-less :
        (t : List A) (low high : ℕ)
        → low < high
        → high ≤ length t
        → (partition compare outside t low high).1 < high
    unfolding partition
    partition-less t low high p h =
        let i = (low + high) / 2 in
        let pivot = get_or t i outside in
        let inside = middle_inside low high p in
        let e : low + (high - low) ≡ high = omega arith in
        omega (
          arith,
          tie_goes compare outside (high - low) pivot t low i (omega arith) inside.0
              (omega (arith, inside.1)) (same pivot),
        )

    -- A range with an entry below the pivot is split in two.
    pub partition-more :
        (t : List A) (low high : ℕ)
        → IsReady t low high
        → high ≤ length t
        → low < (partition compare outside t low high).1
    unfolding partition
    partition-more t low high r h =
        let i = (low + high) / 2 in
        let pivot = get_or t i outside in
        let inside = middle_inside low high (omega (arith, r.from, r.below_high)) in
        let other : i ≢ r.place = λ e.
          (let tied : is_zero (compare (get_or t r.place outside) pivot) ≡ true =
              subst (λ (j : ℕ). is_zero (compare (get_or t j outside) pivot) ≡ true) e
                (same pivot) in
            ground (arith, r.under)) in
        second_stays compare outside (high - low) pivot t low i r.place
          (omega (arith, r.from, r.below_high)) inside.0 (omega (arith, inside.1)) r.from
          (omega (arith, r.from, r.below_high)) other (same pivot) (ground (arith, r.under))

    -- Where nothing stays on the low end, every other entry is above the pivot.
    above_pivot :
        (t : List A) (low high k : ℕ)
        → high ≤ length t
        → (partition compare outside t low high).1 ≡ low
        → low ≤ k
        → k < high
        → (low + high) / 2 ≢ k
        → is_positive (compare (get_or t k outside) (get_or t ((low + high) / 2) outside)) ≡ true
    unfolding partition
    above_pivot t low high k h m p q n =
        let i = (low + high) / 2 in
        let pivot = get_or t i outside in
        let inside = middle_inside low high (omega arith) in
        elim (Bool-cases (is_positive (compare (get_or t k outside) pivot))) [
          | inl over ↦ over
          | inr under ↦
              let more =
                second_stays compare outside (high - low) pivot t low i k (omega arith) inside.0
                  (omega (arith, inside.1)) p (omega arith) n (same pivot) under in
              absurd (omega (arith, m, more))
        ]

    rotated_by_one :
        (t : List A) (low high i : ℕ)
        → high ≤ length t
        → (partition compare outside t low high).1 ≡ low
        → low ≤ i
        → i < high
        → get_or (partition compare outside t low high).0 i outside
          ≡ (if suc i == high then get_or t low outside else get_or t (suc i) outside)
    unfolding partition
    rotated_by_one t low high i h m p q =
        let e : low + (high - low) ≡ high = omega arith in
        subst
          (λ (n : ℕ).
            get_or (partition compare outside t low high).0 i outside
            ≡ (if suc i == n then get_or t low outside else get_or t (suc i) outside))
          e
          (rotated compare outside (high - low) (get_or t ((low + high) / 2) outside) t low true i
            (omega arith) m p (omega arith))

    -- A range of two or more entries that is not split in two is ready the next time.
    pub partition-IsReady :
        (t : List A) (low high : ℕ)
        → low + 2 ≤ high
        → high ≤ length t
        → (partition compare outside t low high).1 ≡ low
        → IsReady (partition compare outside t low high).0 low high
    partition-IsReady t low high two h m =
        let i = (low + high) / 2 in
        let up : low < i = omega arith in
        let down : i < high = omega arith in
        let back : suc (i - 1) ≡ i = omega arith in
        let behind = rotated_by_one t low high (i - 1) h m (omega arith) (omega arith) in
        let at = rotated_by_one t low high i h m (omega arith) down in
        let pivot_behind : get_or (partition compare outside t low high).0 (i - 1) outside
            ≡ get_or t i outside =
          behind ∙ rw back (ground arith) in
        record {
          place = i - 1;
          from = omega arith;
          below_high = omega arith;
          under =
              rw (pivot_behind, at)
                (elim (Bool-cases (suc i == high)) [
                  | inl e ↦ rw e (
                      opposite _ _ (
                        above_pivot t low high low h m (omega arith) (omega arith)
                          (λ f. ground arith)))
                  | inr e ↦ rw e (
                      opposite _ _ (
                        above_pivot t low high (suc i) h m (omega arith) (ground arith)
                          (λ f. omega (arith, f))))
                ]);
        }
