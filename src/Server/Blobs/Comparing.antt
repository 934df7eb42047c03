-- ===== src/Server/Blobs/Comparing.antt =====
-- What the comparisons of blobs and keys (hw5/src/data.c) tell apart.
use cse320_fall.Base.{
  ℕ, suc, ◌+◌, ◌*◌, ◌%◌, ◌^◌, ◌<◌, ◌≡◌, ◌≢◌, refl, some, List, [], ◌∷◌, ◌++◌, arith, get_elem?, set,
  length, ap, get_elem?-set, set-set, set_self,
}
use cse320_fall.Server.Blobs.{
  Blob, Blobs, blob_at, blob_ref, blob_unref, hash_from, blob_hash, blob_compare, Key, key_create,
  key_dispose, long_of_char,
}

-- Two bytes that hash to the same as the next greater byte and one that is smaller by 59.
hash_pair :
    (h a b : ℕ) (s : List ℕ)
    → 0 < a
    → a < 127
    → 0 < b
    → b + 59 < 128
    → hash_from h (a ∷ (b + 59) ∷ s) ≡ hash_from h (suc a ∷ b ∷ s)
unfolding hash_from
hash_pair h a b s p l q m =
    let e : ((h * 59 + a) % 2 ^ 64 * 59 + (b + 59)) % 2 ^ 64
        ≡ ((h * 59 + suc a) % 2 ^ 64 * 59 + b) % 2 ^ 64 =
      omega arith in
    ground (arith, ap (λ (x : ℕ). hash_from x s) e)

hash_from-append :
    (front s t : List ℕ)
    → ((h : ℕ) → hash_from h s ≡ hash_from h t)
    → (h : ℕ) → hash_from h (front ++ s) ≡ hash_from h (front ++ t)
unfolding hash_from
hash_from-append [] s t e h = e h
hash_from-append (c ∷ front) s t e h =
    ground (arith, hash_from-append front s t e ((h * 59 + long_of_char c) % 2 ^ 64))

abbrev pub blob_of : ℕ → List ℕ → Blob
blob_of n s = record { refcnt = n; size = length s; content = s }

length-same :
    (front : List ℕ) (a b c d : ℕ) (s : List ℕ)
    → length (front ++ (a ∷ b ∷ s)) ≡ length (front ++ (c ∷ d ∷ s))
length-same [] a b c d s = refl
length-same (x ∷ front) a b c d s = ap suc (length-same front a b c d s)

-- Blobs that differ in two neighbouring ASCII bytes, the first greater by 1 and the second smaller
-- by 59, compare as equal.
pub blob_compare_collision :
    (front s : List ℕ) (a b n m : ℕ)
    → 0 < a
    → a < 127
    → 0 < b
    → b + 59 < 128
    → (blob_compare (blob_of n (front ++ (a ∷ (b + 59) ∷ s))) (blob_of m (front ++ (suc a ∷ b ∷ s)))
        ≡ 0)
      × (front ++ (a ∷ (b + 59) ∷ s) ≢ front ++ (suc a ∷ b ∷ s))
unfolding blob_compare blob_hash
blob_compare_collision front s a b n m p l q k =
    let same =
      hash_from-append front (a ∷ (b + 59) ∷ s) (suc a ∷ b ∷ s) (λ h. hash_pair h a b s p l q k)
        0 in
    (ground (arith, same, length-same front a (b + 59) (suc a) b s), differ front)
  where
    differ : (f : List ℕ) → f ++ (a ∷ (b + 59) ∷ s) ≢ f ++ (suc a ∷ b ∷ s)
    differ [] e = ground arith
    differ (x ∷ f) e = differ f (ground arith)

-- A key takes a reference of its own: disposing of a key that was just created from a blob gives
-- back all blobs as they were, the caller's reference with them.
pub key_dispose-key_create :
    (bs : Blobs) (p : ℕ) (b : Blob)
    → get_elem? bs p ≡ some (some b)
    → 0 < b.refcnt
    → (bs' : Blobs) × (k : Key) × (key_create bs p ≡ some (bs', k))
      × (blob_at bs' p ≡ some (record b { refcnt = b.refcnt + 1 }))
      × (key_dispose bs' k ≡ some bs)
unfolding key_create key_dispose blob_ref blob_unref
key_dispose-key_create bs p b there c =
    let more = some (record b { refcnt = b.refcnt + 1 }) in
    (
      set bs p more,
      record { hash = blob_hash b; blob = p },
      ground arith,
      ground (arith, get_elem?-set bs p (some b) more),
      ground (
        arith,
        get_elem?-set bs p (some b) more,
        set-set bs p more (some b),
        set_self bs p (some b),
      ),
    )
