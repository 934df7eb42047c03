-- ===== src/Server/Blobs.antt =====
-- Blobs, keys and versions, hw5/src/data.c. A pointer to a blob is its place in the list of all blobs
-- that were ever created, where a freed blob is `none`; a NULL or freed blob that is used is a
-- fault, and the call's result is `none`. Each function runs under the blob's mutex.
pub mod Counting
pub mod Comparing
use cse320_fall.Base.{
  ℕ, zero, suc, ◌+◌, ◌-◌, ◌*◌, ◌%◌, ◌^◌, Bool, true, false, Option, none, some, List, [], ◌∷◌, ◌++◌,
  ltb, ◌==◌, if◌then◌else◌, get_elem?, set, length,
}

infixl 5 ◌>>=◌
abbrev pub ◌>>=◌ {ℓ κ} : {A : Type ℓ} {B : Type κ} → Option A → (A → Option B) → Option B
none >>= f = none
some a >>= f = f a

-- `content` holds the `size` bytes, without the NUL behind them. The reference count does not
-- overflow.
pub record Blob : Type 0 where
  pub refcnt : ℕ
  pub size : ℕ
  pub content : List ℕ

abbrev pub Blobs : Type 0
Blobs = List (Option Blob)

abbrev pub take : ℕ → List ℕ → List ℕ
take zero xs = []
take (suc n) [] = []
take (suc n) (x ∷ xs) = x ∷ take n xs

-- The blob that a pointer leads to.
abbrev pub blob_at : Blobs → ℕ → Option Blob
blob_at bs p = elim (get_elem? bs p) [ none ↦ none | some o ↦ o ]

-- The flags say whether the two calls of `malloc` succeed; `none` for the pointer is NULL.
unfoldable pub blob_create :
    (allocated content_allocated : Bool) → Blobs → List ℕ → (size : ℕ) → Blobs × Option ℕ
blob_create false content_allocated bs content size = (bs, none)
blob_create true false bs content size = (bs, none)
blob_create true true bs content size = (
  bs ++ (some (record { refcnt = 1; size = size; content = take size content }) ∷ []),
  some (length bs),
)

unfoldable pub blob_ref : Blobs → ℕ → Option Blobs
blob_ref bs p = do b ← blob_at bs p; some (set bs p (some (record b { refcnt = b.refcnt + 1 })))

unfoldable pub blob_unref : Blobs → ℕ → Option Blobs
blob_unref bs p = do
  b ← blob_at bs p
  some (set bs p (if b.refcnt - 1 == 0 then none else some (record b { refcnt = b.refcnt - 1 })))

-- A `char`, which is signed, as a `long`.
abbrev pub long_of_char : ℕ → ℕ
long_of_char c = if ltb c 128 then c else c + (2 ^ 64 - 256)

-- The loop of `blob_hash`, up to the first NUL; the arithmetic of `long` wraps.
unfoldable pub hash_from : (hash : ℕ) → List ℕ → ℕ
hash_from hash [] = hash
hash_from hash (c ∷ s) =
    let rest = hash_from ((hash * 59 + long_of_char c) % 2 ^ 64) s in if c == 0 then hash else rest

-- The results that are `int` stand as their 32 bits.
unfoldable pub blob_hash : Blob → ℕ
unfolding hash_from
blob_hash b = hash_from 0 b.content % 2 ^ 32

unfoldable pub blob_compare : Blob → Blob → ℕ
blob_compare b1 b2 =
    if b1.size == b2.size
    then (blob_hash b1 + 2 ^ 32 - blob_hash b2) % 2 ^ 32
    else (b1.size + 2 ^ 64 - b2.size) % 2 ^ 64 % 2 ^ 32

pub record Key : Type 0 where
  pub hash : ℕ
  pub blob : ℕ

-- With memory at hand; without, the result is NULL and nothing changes.
unfoldable pub key_create : Blobs → ℕ → Option (Blobs × Key)
key_create bs p = do
  b ← blob_at bs p
  bs' ← blob_ref bs p
  some (bs', record { hash = blob_hash b; blob = p })

unfoldable pub key_dispose : Blobs → Key → Option Blobs
key_dispose bs k = blob_unref bs k.blob

unfoldable pub key_compare : Blobs → Key → Key → Option ℕ
key_compare bs k1 k2 =
    if k1.hash == k2.hash
    then (do b1 ← blob_at bs k1.blob; b2 ← blob_at bs k2.blob; some (blob_compare b1 b2))
    else some ((k1.hash + 2 ^ 32 - k2.hash) % 2 ^ 32)

-- A version's two pointers, `none` being NULL; its links are the store's.
pub record Version : Type 0 where
  pub creator : Option ℕ
  pub blob : Option ℕ

abbrev pub on_blob : (Blobs → ℕ → Option Blobs) → Blobs → Option ℕ → Option Blobs
on_blob f bs none = some bs
on_blob f bs (some p) = f bs p

-- `trans_ref` and `trans_unref` of the library xacto, on the state of its transactions.
module _ {X : Type 0} (trans_ref trans_unref : X → ℕ → X) where
  abbrev on_creator : (X → ℕ → X) → X → Option ℕ → X
  on_creator f x none = x
  on_creator f x (some tp) = f x tp

  -- With memory at hand.
  unfoldable pub version_create : X → Blobs → (tp bp : Option ℕ) → Option (X × Blobs × Version)
  version_create x bs tp bp = do
    bs' ← on_blob blob_ref bs bp
    some (on_creator trans_ref x tp, bs', record { creator = tp; blob = bp })

  unfoldable pub version_dispose : X → Blobs → Version → Option (X × Blobs)
  version_dispose x bs v = do
    bs' ← on_blob blob_unref bs v.blob
    some (on_creator trans_unref x v.creator, bs')
