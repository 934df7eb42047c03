-- ===== src/Grades/Sorting/Ends.antt =====
-- Which entries the loop of `partition` (hw2/src/sort.c) puts on the low and on the high end.
use cse320_fall.Base.{
  ℕ, zero, suc, ◌+◌, ◌≤◌, ◌<◌, ◌≡◌, ◌≢◌, Bool, true, false, List, arith, ◌==◌, if◌then◌else◌,
  get_or, length, Bool-cases, inl, inr, ◌∙◌, ==_iff,
}
use cse320_fall.Base.Int.{ℤ}
use cse320_fall.Grades.Sorting.{is_zero, is_positive, swap, goes_high, next_alt, partition_loop}
use cse320_fall.Grades.Sorting.Partition.{
  partition_loop-Split, swap-length, swap-get, zero_not_positive,
}

ne_of : (i j : ℕ) → i ≢ j → (i == j) ≡ false
ne_of i j n = ground arith

module _ {A : Type 0} (compare : A → A → ℤ) (outside : A) where
  -- Where a round on the place `l` moves an entry of another place.
  abbrev moved : (l last i : ℕ) → ℕ
  moved l last i = if i == last then l else i

  moved-inside :
      (l left i : ℕ)
      → l < i
      → i < l + suc left
      → (l ≤ moved l (l + left) i) × (moved l (l + left) i < l + left)
  moved-inside l left i p q = ground arith

  moved-get :
      (t : List A) (l left i : ℕ)
      → l + suc left ≤ length t
      → l < i
      → i < l + suc left
      → get_or (swap compare outside t l (l + left)) (moved l (l + left) i) outside
        ≡ get_or t i outside
  moved-get t l left i h p q = elim (Bool-cases (i == l + left)) [
    | inl e ↦ ground (arith, swap-get compare outside t l (l + left) l (omega arith) (omega arith))
    | inr e ↦ ground (arith, swap-get compare outside t l (l + left) i (omega arith) (omega arith))
  ]

  moved-ne : (l last i j : ℕ) → l < i → l < j → i ≢ j → moved l last i ≢ moved l last j
  moved-ne l last i j p q n e = ground arith

  pub low_at_least :
      (left l : ℕ) (pivot : A) (t : List A) (alt : Bool)
      → l + left ≤ length t
      → l ≤ (partition_loop compare outside left pivot t l alt).1
  low_at_least left l pivot t alt h =
      (partition_loop-Split compare outside left pivot t l alt h).at_least

  -- With the next tie on the low end, an entry not above the pivot stays on the low end.
  pub tie_stays :
      (left : ℕ) (pivot : A) (t : List A) (l i : ℕ)
      → l + left ≤ length t
      → l ≤ i
      → i < l + left
      → is_positive (compare (get_or t i outside) pivot) ≡ false
      → l < (partition_loop compare outside left pivot t l false).1
  unfolding partition_loop goes_high next_alt
  tie_stays zero pivot t l i h p q low = absurd (omega arith)
  tie_stays (suc left) pivot t l i h p q low =
      let x = get_or t l outside in
      let t2 = swap compare outside t l (l + left) in
      let inside : l + left ≤ length t2 =
        omega (arith, swap-length compare outside t l (l + left)) in
      let down = low_at_least left (suc l) pivot t in
      elim (Bool-cases (is_zero (compare x pivot))) [
        | inl tie ↦ rw tie (omega (arith, down true (omega arith)))
        | inr other ↦ elim (Bool-cases (is_positive (compare x pivot))) [
          | inr under ↦ rw (other, under) (omega (arith, down false (omega arith)))
          | inl over ↦
              let past : l < i = elim (Bool-cases (i == l)) [
                | inl e ↦ absurd (ground (arith, (==_iff i l).0 e))
                | inr e ↦ ground arith
              ] in
              let to = moved-inside l left i past q in
              rw (other, over)
                (tie_stays left pivot t2 l (moved l (l + left) i) inside to.0 to.1
                  (rw (moved-get t l left i h past q) low))
        ]
      ]

  -- With the next tie on the high end, of a tie and another entry not above the pivot one stays on
  -- the low end.
  pub second_stays :
      (left : ℕ) (pivot : A) (t : List A) (l i j : ℕ)
      → l + left ≤ length t
      → l ≤ i
      → i < l + left
      → l ≤ j
      → j < l + left
      → i ≢ j
      → is_zero (compare (get_or t i outside) pivot) ≡ true
      → is_positive (compare (get_or t j outside) pivot) ≡ false
      → l < (partition_loop compare outside left pivot t l true).1
  unfolding partition_loop goes_high next_alt
  second_stays zero pivot t l i j h p q r s n tie low = absurd (omega arith)
  second_stays (suc left) pivot t l i j h p q r s n tie low =
      let x = get_or t l outside in
      let t2 = swap compare outside t l (l + left) in
      let inside : l + left ≤ length t2 =
        omega (arith, swap-length compare outside t l (l + left)) in
      elim (Bool-cases (is_zero (compare x pivot))) [
        | inl first ↦ rw first (elim (Bool-cases (i == l)) [
          | inl e ↦
              let past : l < j = ground (arith, ne_of i j n, (==_iff i l).0 e) in
              let to = moved-inside l left j past s in
              tie_stays left pivot t2 l (moved l (l + left) j) inside to.0 to.1
                (rw (moved-get t l left j h past s) low)
          | inr e ↦
              let past : l < i = ground arith in
              let to = moved-inside l left i past q in
              tie_stays left pivot t2 l (moved l (l + left) i) inside to.0 to.1 (
                rw (moved-get t l left i h past q)
                  (zero_not_positive (compare (get_or t i outside) pivot) tie))
        ])
        | inr other ↦ elim (Bool-cases (is_positive (compare x pivot))) [
          | inr under ↦
              rw (other, under)
                (omega (arith, low_at_least left (suc l) pivot t true (omega arith)))
          | inl over ↦
              let past_i : l < i = elim (Bool-cases (i == l)) [
                | inl e ↦ absurd (ground (arith, (==_iff i l).0 e))
                | inr e ↦ ground arith
              ] in
              let past_j : l < j = elim (Bool-cases (j == l)) [
                | inl e ↦ absurd (ground (arith, (==_iff j l).0 e))
                | inr e ↦ ground arith
              ] in
              let to_i = moved-inside l left i past_i q in
              let to_j = moved-inside l left j past_j s in
              rw (other, over)
                (second_stays left pivot t2 l (moved l (l + left) i) (moved l (l + left) j) inside
                  to_i.0 to_i.1 to_j.0 to_j.1 (moved-ne l (l + left) i j past_i past_j n)
                  (rw (moved-get t l left i h past_i q) tie)
                  (rw (moved-get t l left j h past_j s) low))
        ]
      ]

  -- The first tie goes to the high end.
  pub tie_goes :
      (left : ℕ) (pivot : A) (t : List A) (l i : ℕ)
      → l + left ≤ length t
      → l ≤ i
      → i < l + left
      → is_zero (compare (get_or t i outside) pivot) ≡ true
      → (partition_loop compare outside left pivot t l true).1 < l + left
  unfolding partition_loop goes_high next_alt
  tie_goes zero pivot t l i h p q tie = absurd (omega arith)
  tie_goes (suc left) pivot t l i h p q tie =
      let x = get_or t l outside in
      let t2 = swap compare outside t l (l + left) in
      let inside : l + left ≤ length t2 =
        omega (arith, swap-length compare outside t l (l + left)) in
      let up : (alt : Bool) → (partition_loop compare outside left pivot t2 l alt).1 ≤ l + left =
        λ alt. (partition_loop-Split compare outside left pivot t2 l alt inside).at_most in
      elim (Bool-cases (is_zero (compare x pivot))) [
        | inl first ↦ rw first (omega (arith, up false))
        | inr other ↦ elim (Bool-cases (is_positive (compare x pivot))) [
          | inl over ↦ rw (other, over) (omega (arith, up true))
          | inr under ↦
              let past : suc l ≤ i = elim (Bool-cases (i == l)) [
                | inl e ↦ absurd (ground (arith, (==_iff i l).0 e))
                | inr e ↦ ground arith
              ] in
              rw (other, under)
                (omega
                  (arith, tie_goes left pivot t (suc l) i (omega arith) past (omega arith) tie))
        ]
      ]

  -- What a round that goes to the high end, and then rotates the rest, makes of the range.
  rotated_up :
      (left : ℕ) (t t' : List A) (l i : ℕ)
      → l + suc left ≤ length t
      → l ≤ i
      → i < l + suc left
      → (i ≡ l + left
          → get_or t' i outside ≡ get_or (swap compare outside t l (l + left)) i outside)
      → (i < l + left
          → get_or t' i outside ≡ (
              if suc i == l + left
              then get_or (swap compare outside t l (l + left)) l outside
              else get_or (swap compare outside t l (l + left)) (suc i) outside))
      → get_or t' i outside
        ≡ (if i == l + left then get_or t l outside else get_or t (suc i) outside)
  rotated_up left t t' l i h p q last rest = elim (Bool-cases (i == l + left)) [
    | inl e ↦
        ground (arith, last, swap-get compare outside t l (l + left) i (omega arith) (omega arith))
    | inr e ↦ ground (
      arith,
      rest,
      swap-get compare outside t l (l + left) l (omega arith) (omega arith),
      swap-get compare outside t l (l + left) (suc i) (omega arith) (omega arith),
    )
  ]

  -- Where every entry goes to the high end, the range is rotated by one place.
  pub rotated :
      (left : ℕ) (pivot : A) (t : List A) (l : ℕ) (alt : Bool) (i : ℕ)
      → l + left ≤ length t
      → (partition_loop compare outside left pivot t l alt).1 ≡ l
      → l ≤ i
      → i < l + left
      → get_or (partition_loop compare outside left pivot t l alt).0 i outside
        ≡ (if suc i == l + left then get_or t l outside else get_or t (suc i) outside)
  unfolding partition_loop
  rotated zero pivot t l alt i h m p q = absurd (omega arith)
  rotated (suc left) pivot t l alt i h m p q =
      let alt' = next_alt compare outside (get_or t l outside) pivot alt in
      elim (Bool-cases (goes_high compare outside (get_or t l outside) pivot alt)) [
        | inr down ↦
            let at = low_at_least left (suc l) pivot t alt' (omega arith) in
            let stays : (partition_loop compare outside left pivot t (suc l) alt').1 ≡ l =
              rw down at m in
            absurd (omega (arith, at, stays))
        | inl up ↦
            let t2 = swap compare outside t l (l + left) in
            let inside : l + left ≤ length t2 =
              omega (arith, swap-length compare outside t l (l + left)) in
            let s = partition_loop-Split compare outside left pivot t2 l alt' inside in
            let stays : (partition_loop compare outside left pivot t2 l alt').1 ≡ l = rw up at m in
            rw up (
              rotated_up left t (partition_loop compare outside left pivot t2 l alt').0 l i h p q
                (λ e. s.after i (omega (arith, e))) (rotated left pivot t2 l alt' i inside stays p)
              ∙ same_place left)
      ]
    where
      same_place :
          (k : ℕ)
          → (if i == l + k then get_or t l outside else get_or t (suc i) outside)
            ≡ (if suc i == l + suc k then get_or t l outside else get_or t (suc i) outside)
      same_place k = ground arith
