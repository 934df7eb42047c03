-- ===== src/Grades/Sorting/Order.antt =====
-- What `sorttable` (hw2/src/sort.c) makes of the table.
use cse320_fall.Base.{
  ℕ, zero, suc, ◌+◌, ◌*◌, ◌-◌, ◌/◌, ◌≤◌, ◌≡◌, refl, true, not, ◌||◌, Option, some, List, arith,
  ◌==◌, ltb, get_or, length, Bool-cases, inl, inr, ◌⊎◌, ==_iff, sym, subst,
}
use cse320_fall.Base.Int.{ℤ}
use cse320_fall.Grades.Sorting.{is_zero, is_positive, partition, sorttable}
use cse320_fall.Grades.Sorting.Partition.{Split, partition-Split}
use cse320_fall.Grades.Sorting.Progress.{IsReady, partition-less, partition-more, partition-IsReady}
use cse320_fall.Grades.Sorting.Ranges.{
  IsOrder, Rearranged, IsSorted, Rearranged-all, Split-Rearranged, unchanged, halves-Rearranged,
}

module _ {A : Type 0} (compare : A → A → ℤ) (outside : A) (order : IsOrder compare) where
  -- The two halves of a split, sorted one after the other, are sorted together.
  halves-IsSorted :
      (pivot : A) (t t' t1 t2 : List A) (low m high : ℕ)
      → high ≤ length t
      → Split compare outside pivot t t' low high m
      → Rearranged compare outside t' t1 low m
      → Rearranged compare outside t1 t2 m high
      → IsSorted compare outside t1 low m
      → IsSorted compare outside t2 m high
      → IsSorted compare outside t2 low high
  halves-IsSorted pivot t t' t1 t2 low m high h s a b u v i j p q r =
      let len : high ≤ length t1 = omega (arith, a.length_kept, s.length_kept) in
      elim (Bool-cases (ltb j m)) [
        | inl left ↦
            rw (b.before i (ground arith), b.before j (ground arith)) (u i j p q (ground arith))
        | inr right ↦ elim (Bool-cases (ltb i m)) [
          | inr also ↦ v i j (ground arith) q r
          | inl across ↦
              let low_one : not (is_positive (compare (get_or t1 i outside) pivot)) ≡ true =
                Rearranged-all compare outside (λ x. not (is_positive (compare x pivot))) t' t1 low
                  m a (omega (arith, s.length_kept, s.at_most)) (λ k c d. rw (s.low k c d) refl) i p
                  (ground arith) in
              let high_one : (is_positive (compare (get_or t2 j outside) pivot)
                    || is_zero (compare (get_or t2 j outside) pivot))
                  ≡ true =
                Rearranged-all compare outside
                  (λ x. is_positive (compare x pivot) || is_zero (compare x pivot)) t1 t2 m high b
                  len (λ k c d. rw (a.after k c) (s.high k c d)) j (ground arith) r in
              rw (b.before i (ground arith)) (order.between _ pivot _ (ground arith) high_one)
        ]
      ]

  -- `sorttable` has ended with the range sorted.
  abbrev pub Sorts : List A → (low high : ℕ) → Option (List A) → Type 0
  Sorts t low high sorted =
      (t' : List A) × (sorted ≡ some t')
      × Rearranged compare outside t t' low high
      × IsSorted compare outside t' low high

  -- Enough fuel, or one round less for a range that will be split in two.
  abbrev pub IsEnough : ℕ → List A → (low high : ℕ) → Type 0
  IsEnough fuel t low high =
      (2 * (high - low) + 1 ≤ fuel)
      ⊎ ((2 * (high - low) ≤ fuel) × IsReady compare outside t low high)

  same_places-IsReady :
      (t t' : List A) (low high : ℕ)
      → ((i : ℕ) → get_or t' i outside ≡ get_or t i outside)
      → IsReady compare outside t low high
      → IsReady compare outside t' low high
  same_places-IsReady t t' low high e r = record {
    place = r.place;
    from = r.from;
    below_high = r.below_high;
    under = rw (e r.place, e ((low + high) / 2)) r.under;
  }

  -- The fuel of the two halves, the second after the first has been sorted.
  fuel_left :
      (fuel : ℕ) (t : List A) (low high : ℕ)
      → low + 2 ≤ high
      → high ≤ length t
      → IsEnough (suc fuel) t low high
      → 2 * ((partition compare outside t low high).1 - low) + 1 ≤ fuel
  fuel_left fuel t low high two h enough =
      let less =
        partition-less compare outside order.same order.opposite t low high (omega arith) h in
      elim enough [ inl f ↦ omega (arith, less, f) | inr f ↦ omega (arith, less, f.0) ]

  IsEnough-right :
      (fuel : ℕ) (t t1 : List A) (low high : ℕ)
      → low + 2 ≤ high
      → high ≤ length t
      → IsEnough (suc fuel) t low high
      → Rearranged compare outside
          (partition compare outside t low high).0
          t1
          low
          (partition compare outside t low high).1
      → IsEnough fuel t1 (partition compare outside t low high).1 high
  IsEnough-right fuel t t1 low high two h enough r =
      let s = partition-Split compare outside t low high (omega arith) h in
      let m = (partition compare outside t low high).1 in
      elim (Bool-cases (m == low)) [
        | inr e ↦ inl (elim enough [
          | inl f ↦ ground (arith, s.at_least, s.at_most)
          | inr f ↦ ground (arith, s.at_least, s.at_most, f.0)
        ])
        | inl e ↦
            let at : m ≡ low = (==_iff m low).0 e in
            elim enough [
              | inr f ↦ absurd (
                  omega (
                    arith,
                    at,
                    partition-more compare outside order.same order.opposite t low high f.1 h,
                  ))
              | inl f ↦
                  let ready =
                    partition-IsReady compare outside order.same order.opposite t low high two h
                      at in
                  let everywhere : (i : ℕ)
                      → get_or t1 i outside
                        ≡ get_or (partition compare outside t low high).0 i outside =
                    λ i. elim (Bool-cases (ltb i low)) [
                      | inl below ↦ r.before i (ground arith)
                      | inr above ↦ r.after i (ground (arith, at))
                    ] in
                  inr (
                    omega (arith, at, f),
                    subst (λ (l : ℕ). IsReady compare outside t1 l high) (sym at)
                        (same_places-IsReady (partition compare outside t low high).0 t1 low high
                          everywhere ready),
                  )
            ]
      ]

  pub sorttable-Sorts :
      (fuel : ℕ) (t : List A) (low high : ℕ)
      → low ≤ high
      → high ≤ length t
      → IsEnough fuel t low high
      → Sorts t low high (sorttable compare outside fuel t low high)
  unfolding sorttable
  sorttable-Sorts zero t low high le h (inl f) = absurd (omega arith)
  sorttable-Sorts zero t low high le h (inr (f, r)) = absurd (omega (arith, r.from, r.below_high))
  sorttable-Sorts (suc fuel) t low high le h enough =
      let t' = (partition compare outside t low high).0 in
      let m = (partition compare outside t low high).1 in
      let s = partition-Split compare outside t low high le h in
      elim (Bool-cases (low == high)) [
        | inl e ↦
            rw e (t, refl, unchanged compare outside t low high, λ i j p q r. absurd (ground arith))
        | inr e ↦ elim (Bool-cases (low + 1 == high)) [
          | inl f ↦
              rw (e, f)
                (
                  t',
                  refl,
                  Split-Rearranged compare outside _ t t' low high m s,
                  λ i j p q r. absurd (ground arith),
                )
          | inr f ↦
              let two : low + 2 ≤ high = ground arith in
              let (t1, left_done, a, u) =
                sorttable-Sorts fuel t' low m s.at_least (omega (arith, s.length_kept, s.at_most))
                  (inl (fuel_left fuel t low high two h enough)) in
              let (t2, right_done, b, v) =
                sorttable-Sorts fuel t1 m high s.at_most
                  (omega (arith, a.length_kept, s.length_kept))
                  (IsEnough-right fuel t t1 low high two h enough a) in
              rw (e, f, left_done, right_done)
                (
                  t2,
                  refl,
                  halves-Rearranged compare outside t t' t1 t2 low m high s.at_least s.at_most
                      (Split-Rearranged compare outside _ t t' low high m s) a b,
                  halves-IsSorted _ t t' t1 t2 low m high h s a b u v,
                )
        ]
      ]
