-- ===== src/Taxonomy/Helpers.antt =====
-- What the helpers of hw1/src/util.c compute.
use cse320_fall.Base.{
  ℕ, zero, suc, ◌+◌, ◌-◌, ◌*◌, ◌/◌, ◌%◌, ◌≤◌, ◌<◌, ◌≡◌, refl, Bool, true, false, ◌&&◌, some, List,
  [], ◌∷◌, arith, ◌==◌, ltb, leb, if◌then◌else◌, get_or, set, length, length-set, get_or-set_self,
  get_or-set_ne, Bool-cases, inl, inr, ◌∙◌, ap, ◌⊎◌, ◌≢◌, subst,
}
use native.Mathlib.Nat.{mul-le-mul_right, mod-lt}
use cse320_fall.Taxonomy.{
  memorycpy, leading, stringify_number, diagonal, row_matches, rows_match, check_identity_matrix,
}

module _ {D : Type 0} (is_zero : D → Bool) (equal : D → D → Bool) where
  -- `checkIdentityMatrix` rejects every matrix of two or more rows, whatever is in it; of one row, it
  -- says whether its number is 0, and the empty matrix it accepts.
  pub check_identity_matrix_lem :
      (matrix : ℕ → D) (n : ℕ)
      → check_identity_matrix is_zero equal matrix n
        ≡ (if n == 0 then true else if n == 1 then is_zero (matrix 0) else false)
  unfolding check_identity_matrix diagonal rows_match row_matches
  check_identity_matrix_lem matrix zero = refl
  check_identity_matrix_lem matrix (suc zero) = elim (Bool-cases (is_zero (matrix 0))) [
    | inl e ↦ ground (arith, e)
    | inr e ↦ ground (arith, e)
  ]
  check_identity_matrix_lem matrix (suc (suc n)) =
      let first : 0 * suc (suc n) + 0 ≡ 0 = omega arith in
      elim (Bool-cases (is_zero (matrix 0))) [
        | inl e ↦ rw (first, e) (ground arith)
        | inr e ↦ rw (first, e) (ground arith)
      ]

-- The bytes of a memory.
abbrev byte : List ℕ → ℕ → ℕ
byte mem k = get_or mem k 0

-- `memorycpy` between two ranges of a memory, of which the target does not start inside of the
-- source, copies each byte and changes no other.
pub memorycpy_lem :
    (size : ℕ) (mem : List ℕ) (dest src k : ℕ)
    → dest + size ≤ length mem
    → (dest ≤ src) ⊎ (src + size ≤ dest)
    → get_or (memorycpy mem dest src size) k 0 ≡ (
        if leb dest k && ltb k (dest + size)
        then get_or mem (src + (k - dest)) 0
        else get_or mem k 0)
unfolding memorycpy
memorycpy_lem zero mem dest src k h apart = ground arith
memorycpy_lem (suc size) mem dest src k h apart =
    let v = get_or mem src 0 in
    let mem' = set mem dest v in
    let apart' : (suc dest ≤ suc src) ⊎ (suc src + size ≤ suc dest) = elim apart [
      | inl a ↦ inl (omega arith)
      | inr a ↦ inr (omega arith)
    ] in
    let rest =
      memorycpy_lem size mem' (suc dest) (suc src) k (omega (arith, length-set {0} mem dest v))
        apart' in
    elim (Bool-cases (k == dest)) [
      | inl e ↦ ground (arith, rest, get_or-set_self mem dest v 0)
      | inr e ↦ elim (Bool-cases (leb dest k && ltb k (dest + suc size))) [
        | inl inside ↦
            let index : suc src + (k - suc dest) ≡ src + (k - dest) = ground arith in
            let other : dest ≢ src + (k - dest) = elim apart [
              | inl a ↦ λ f. ground arith
              | inr a ↦ λ f. ground arith
            ] in
            rw inside (
              rest ∙ rw index (ground (arith, get_or-set_ne mem dest (src + (k - dest)) v 0 other)))
        | inr outside ↦ ground (arith, rest, get_or-set_ne mem dest k v 0)
      ]
    ]

-- The power of ten is at most the number.
tenth_product : (i j : ℕ) → i / 10 * (j * 10) ≤ i * j
tenth_product i j =
    let same : i / 10 * (j * 10) ≡ i / 10 * 10 * j = grind arith in
    let le : i / 10 * 10 * j ≤ i * j = mul-le-mul_right j (omega arith) in omega (arith, same, le)

one_factor : (i j n : ℕ) → i * j ≤ n → 0 < i → j ≤ n
one_factor i j n h p =
    let le : 1 * j ≤ i * j = mul-le-mul_right j (omega arith) in omega (arith, le)

leading_bound :
    (fuel i j n : ℕ)
    → i * j ≤ n
    → 0 < i
    → 0 < j
    → (0 < (leading fuel i j).1) × ((leading fuel i j).1 ≤ n)
unfolding leading
leading_bound zero i j n h p q = (q, one_factor i j n h p)
leading_bound (suc fuel) i j n h p q = elim (Bool-cases (ltb 10 i)) [
  | inl more ↦ rw more (
      leading_bound fuel (i / 10) (j * 10) n (omega (arith, tenth_product i j)) (ground arith)
        (omega arith))
  | inr last ↦ rw last (q, one_factor i j n h p)
]

-- `stringifyNumber` ends: one call more than the number is enough.
pub stringify_number_ends :
    (fuel num : ℕ) → num < fuel → (s : List ℕ) × (stringify_number fuel num ≡ some s)
unfolding stringify_number
stringify_number_ends zero num p = absurd (omega arith)
stringify_number_ends (suc fuel) num p = elim (Bool-cases (ltb num 10)) [
  | inl small ↦ rw small ((num + b'0') ∷ [], refl)
  | inr big ↦
      let j = (leading num num 1).1 in
      let bound = leading_bound num num 1 num (omega arith) (ground arith) (omega arith) in
      let less : num % j < num = omega (arith, mod-lt num {m = j} bound.0, bound.1) in
      let (s, done) = stringify_number_ends fuel (num % j) (omega arith) in
      rw (big, done) (((leading num num 1).0 + b'0') ∷ s, refl)
]

leading_two :
    (fuel a b : ℕ) → 1 < a → a < 10 → b < 10 → leading (suc (suc fuel)) (10 * a + b) 1 ≡ (a, 10)
unfolding leading
leading_two fuel a b p q r =
    let more : ltb 10 (10 * a + b) ≡ true = ground arith in
    let tenth : (10 * a + b) / 10 ≡ a = omega arith in
    let last : ltb 10 a ≡ false = ground arith in rw (more, tenth, last) refl

leading_three :
    (fuel a b : ℕ)
    → 1 < a
    → a < 10
    → b < 10
    → leading (suc (suc (suc fuel))) (100 * a + b) 1 ≡ (a, 100)
unfolding leading
leading_three fuel a b p q r =
    let more : ltb 10 (100 * a + b) ≡ true = ground arith in
    let tenth : (100 * a + b) / 10 ≡ 10 * a = omega arith in
    let still : ltb 10 (10 * a) ≡ true = ground arith in
    let hundredth : 10 * a / 10 ≡ a = omega arith in
    let last : ltb 10 a ≡ false = ground arith in rw (more, tenth, still, hundredth, last) refl

-- Of a number whose leading part has been found.
stringify_step :
    (fuel num i j b : ℕ)
    → (ltb num 10) ≡ false
    → leading num num 1 ≡ (i, j)
    → num % j ≡ b
    → b < 10
    → stringify_number (suc (suc fuel)) num ≡ some ((i + b'0') ∷ (b + b'0') ∷ [])
unfolding stringify_number
stringify_step fuel num i j b big lead rest p =
    let small : ltb b 10 ≡ true = ground arith in
    let head : (leading num num 1).0 ≡ i = ap (λ (r : ℕ × ℕ). r.0) lead in
    let power : (leading num num 1).1 ≡ j = ap (λ (r : ℕ × ℕ). r.1) lead in
    rw (big, power, rest, small, head) refl

-- `stringifyNumber` writes the same two digits for 100 a + b as for 10 a + b, where a is from 2 to 9
-- and b from 0 to 9: the zero in the middle is lost.
pub stringify_number_collision :
    (fuel a b : ℕ)
    → 1 < a
    → a < 10
    → b < 10
    → (stringify_number (suc (suc fuel)) (10 * a + b) ≡ some ((a + b'0') ∷ (b + b'0') ∷ []))
      × (stringify_number (suc (suc fuel)) (100 * a + b) ≡ some ((a + b'0') ∷ (b + b'0') ∷ []))
stringify_number_collision fuel a b p q r =
    let two : suc (suc (10 * a + b - 2)) ≡ 10 * a + b = omega arith in
    let three : suc (suc (suc (100 * a + b - 3))) ≡ 100 * a + b = omega arith in
    (
      stringify_step fuel (10 * a + b) a 10 b (ground arith)
          (subst (λ (n : ℕ). leading n (10 * a + b) 1 ≡ (a, 10)) two
            (leading_two (10 * a + b - 2) a b p q r))
          (omega arith) r,
      stringify_step fuel (100 * a + b) a 100 b (ground arith)
          (subst (λ (n : ℕ). leading n (100 * a + b) 1 ≡ (a, 100)) three
            (leading_three (100 * a + b - 3) a b p q r))
          (omega arith) r,
    )
