-- ===== src/Grades/Rosters/Sorted.antt =====
-- What the rosters of hw2/src/sort.c are after they have been sorted.
use cse320_fall.Base.{
  ℕ, zero, suc, ◌+◌, ◌*◌, ◌<◌, ◌≡◌, refl, Bool, true, false, some, List, [], ◌∷◌, arith, get_or,
  length, count, inl, inr, ◌∙◌, ◌||◌, ◌==◌, Bool-cases, ==_iff,
}
use cse320_fall.Base.Int.{ℤ}
use cse320_fall.Grades.Sorting.{is_zero, is_positive}
use cse320_fall.Grades.Sorting.Ranges.{IsOrder, IsSorted}
use cse320_fall.Grades.Sorting.Order.{sorttable-Sorts}
use cse320_fall.Grades.Rosters.{
  Student, put_in_table, sortroster, comparename, compareid, comparescore, checkfordups,
}
use cse320_fall.Grades.Sorting.Partition.{zero_not_positive}

pub comparescore-IsOrder : IsOrder comparescore
unfolding comparescore
comparescore-IsOrder = record {
  same = λ x. ground arith;
  opposite = λ x y h. ground arith;
  mirrored = λ x y h k. ground arith;
  between = λ x p y h k. ground arith;
}

compareid-IsOrder : (strcmp : List ℕ → List ℕ → ℤ) → IsOrder strcmp → IsOrder (compareid strcmp)
unfolding compareid
compareid-IsOrder strcmp o = record {
  same = λ x. o.same x.id;
  opposite = λ x y h. o.opposite x.id y.id h;
  mirrored = λ x y h k. o.mirrored x.id y.id h k;
  between = λ x p y h k. o.between x.id p.id y.id h k;
}

-- Two entries that compare as equal also do so the other way round.
tie_back :
    {A : Type 0} (compare : A → A → ℤ)
    → IsOrder compare
    → (x y : A) → is_zero (compare x y) ≡ true
    → is_zero (compare y x) ≡ true
tie_back compare o x y h =
    o.mirrored y x (ground (arith, o.opposite y x, zero_not_positive (compare x y)))
      (zero_not_positive (compare x y) h)

-- The order of surnames, then of names, is an order if `strcmp` is one.
pub comparename-IsOrder :
    (strcmp : List ℕ → List ℕ → ℤ) → IsOrder strcmp → IsOrder (comparename strcmp)
unfolding comparename
comparename-IsOrder strcmp o = record {
  same = λ x. ground (arith, o.same x.surname, o.same x.name);
  opposite = λ x y h. ground (
    arith,
    o.opposite x.surname y.surname,
    o.opposite x.name y.name,
    tie_back strcmp o x.surname y.surname,
    tie_back strcmp o y.surname x.surname,
  );
  mirrored = λ x y h k. ground (
    arith,
    o.mirrored x.surname y.surname,
    o.mirrored x.name y.name,
    tie_back strcmp o x.surname y.surname,
    tie_back strcmp o y.surname x.surname,
  );
  between = λ x p y h k.
      (let tie = tie_back strcmp o in
        let under : is_positive (strcmp x.surname p.surname) ≡ false =
          ground (arith, zero_not_positive (strcmp x.surname p.surname)) in
        let over : (is_positive (strcmp y.surname p.surname)
              || is_zero (strcmp y.surname p.surname))
            ≡ true =
          ground arith in
        let p_under : is_positive (strcmp p.surname y.surname) ≡ false = ground (
          arith,
          o.opposite y.surname p.surname,
          tie y.surname p.surname,
          zero_not_positive (strcmp p.surname y.surname),
        ) in
        elim (Bool-cases (is_zero (strcmp x.surname y.surname))) [
          | inr e ↦ ground (arith, o.between x.surname p.surname y.surname under over)
          | inl e ↦
              let back = o.between p.surname y.surname x.surname p_under (ground arith) in
              let first = o.mirrored x.surname p.surname under back in
              let other =
                o.between y.surname x.surname p.surname
                  (zero_not_positive (strcmp y.surname x.surname) (tie x.surname y.surname e))
                  (ground (arith, tie x.surname p.surname first)) in
              let second = o.mirrored y.surname p.surname other p_under in
              ground (arith, o.between x.name p.name y.name)
        ]);
}

module _ {A : Type 0} where
  put_in_table-count :
      (test : A → Bool) (roster stab : List A)
      → count test (put_in_table roster stab) ≡ count test roster + count test stab
  unfolding put_in_table
  put_in_table-count test [] stab = omega arith
  put_in_table-count test (s ∷ roster) stab =
      omega (arith, put_in_table-count test roster (s ∷ stab))

  put_in_table-length :
      (roster stab : List A) → length (put_in_table roster stab) ≡ length roster + length stab
  unfolding put_in_table
  put_in_table-length [] stab = omega arith
  put_in_table-length (s ∷ roster) stab = omega (arith, put_in_table-length roster (s ∷ stab))

module _ {A : Type 0} (compare : A → A → ℤ) (outside : A) where
  -- `sortroster` ends, with the same students in the roster, each as often as before, and none
  -- before another that it compares above; `compare` is an order.
  pub sortroster-IsSorted :
      (roster : List A)
      → IsOrder compare
      → (sorted : List A) × (sortroster compare outside roster ≡ some sorted)
        × (length sorted ≡ length roster)
        × ((test : A → Bool) → count test sorted ≡ count test roster)
        × IsSorted compare outside sorted 0 (length sorted)
  unfolding sortroster
  sortroster-IsSorted [] order = ([], refl, refl, λ test. refl, λ i j p q r. absurd (omega arith))
  sortroster-IsSorted (s ∷ roster) order =
      let n = length (s ∷ roster) in
      let stab = put_in_table (s ∷ roster) [] in
      let filled : length stab ≡ n = omega (arith, put_in_table-length (s ∷ roster) []) in
      let (sorted, done, r, v) =
        sorttable-Sorts compare outside order (2 * n + 1) stab 0 n (omega arith)
          (omega (arith, filled)) (inl (omega arith)) in
      let same : length sorted ≡ n = r.length_kept ∙ filled in
      (
        sorted,
        done,
        same,
        λ test. r.counts test ∙ omega (arith, put_in_table-count test (s ∷ roster) []),
        λ i j p q l. v i j p q (omega (arith, same, l)),
      )

module _ (strcmp : List ℕ → List ℕ → ℤ) (outside : Student) where
  neighbours_warned :
      (roster : List Student) (i : ℕ) (test : Student → Bool)
      → suc i < length roster
      → is_zero (comparename strcmp (get_or roster i outside) (get_or roster (suc i) outside))
        ≡ true
      → test (get_or roster i outside) ≡ true
      → 0 < count test (checkfordups strcmp roster)
  unfolding checkfordups
  neighbours_warned [] i test p tie e = absurd (omega arith)
  neighbours_warned (s ∷ []) i test p tie e = absurd (omega arith)
  neighbours_warned (s ∷ t ∷ roster) zero test p tie e = ground arith
  neighbours_warned (s ∷ t ∷ roster) (suc i) test p tie e =
      ground (arith, neighbours_warned (t ∷ roster) i test (omega arith) tie e)

  -- On a roster sorted by `comparename`, where `strcmp` is an order, `checkfordups` warns of every student who has the name of a
  -- later one, even if the two are not neighbours.
  pub checkfordups-IsSorted :
      (roster : List Student) (i j : ℕ) (test : Student → Bool)
      → IsOrder strcmp
      → IsSorted (comparename strcmp) outside roster 0 (length roster)
      → i < j
      → j < length roster
      → is_zero (comparename strcmp (get_or roster i outside) (get_or roster j outside)) ≡ true
      → test (get_or roster i outside) ≡ true
      → 0 < count test (checkfordups strcmp roster)
  checkfordups-IsSorted roster i j test o sorted p q tie e =
      let names = comparename-IsOrder strcmp o in
      let x = get_or roster i outside in
      let y = get_or roster (suc i) outside in
      let z = get_or roster j outside in
      let next : is_zero (comparename strcmp x y) ≡ true = elim (Bool-cases (suc i == j)) [
        | inl f ↦ rw ((==_iff (suc i) j).0 f) tie
        | inr f ↦
            let back =
              names.between y z x (sorted (suc i) j (omega arith) (ground arith) q)
                (ground arith) in
            names.mirrored x y (sorted i (suc i) (omega arith) (omega arith) (omega arith)) back
      ] in
      neighbours_warned roster i test (omega arith) next e
