-- ===== src/Server/Blobs/Counting.antt =====
-- The reference counts of blobs (hw5/src/data.c) against an abstract view: each blob is a number of
-- references and its bytes.
use cse320_fall.Base.{
  ℕ, zero, suc, ◌+◌, ◌-◌, ◌<◌, ◌≡◌, refl, true, Option, none, some, List, [], ◌∷◌, ◌++◌, arith,
  ◌==◌, if◌then◌else◌, get_elem?, set, ap, Option-cases, inl, inr, All, subst,
}
use cse320_fall.Server.Blobs.{Blob, Blobs, blob_create, blob_ref, blob_unref, take, ◌>>=◌}

-- What a program does with blobs.
pub data Op : Type 0 where
  create : List ℕ → (size : ℕ) → Op
  ref unref : (p : ℕ) → Op

unfoldable pub step : Blobs → Op → Option Blobs
step bs (create content size) = some (blob_create true true bs content size).0
step bs (ref p) = blob_ref bs p
step bs (unref p) = blob_unref bs p

unfoldable pub run : Blobs → List Op → Option Blobs
run bs [] = some bs
run bs (op ∷ ops) = step bs op >>= λ bs'. run bs' ops

-- The abstract view: how many references to each blob there are.
abbrev pub references : Option Blob → ℕ
references none = 0
references (some b) = b.refcnt

abbrev pub view : Blobs → List ℕ
view [] = []
view (o ∷ bs) = references o ∷ view bs

-- A step of the view: a pointer to a blob may be copied or dropped while there is one.
abbrev pub change : (ℕ → ℕ) → List ℕ → ℕ → Option (List ℕ)
change f ns p = elim (get_elem? ns p) [
  | none ↦ none
  | some n ↦ if n == 0 then none else some (set ns p (f n))
]

abbrev pub view_step : List ℕ → Op → Option (List ℕ)
view_step ns (create content size) = some (ns ++ (1 ∷ []))
view_step ns (ref p) = change (λ n. n + 1) ns p
view_step ns (unref p) = change (λ n. n - 1) ns p

abbrev pub view_run : List ℕ → List Op → Option (List ℕ)
view_run ns [] = some ns
view_run ns (op ∷ ops) = view_step ns op >>= λ ns'. view_run ns' ops

-- A blob that is not freed has a reference.
abbrev pub IsCountedBlob : Option Blob → Type 0
IsCountedBlob none = Unit
IsCountedBlob (some b) = 0 < b.refcnt

abbrev pub view_of : Option Blobs → Option (List ℕ)
view_of none = none
view_of (some bs) = some (view bs)

set-view :
    (bs : Blobs) (p : ℕ) (o : Option Blob) → view (set bs p o) ≡ set (view bs) p (references o)
set-view [] p o = refl
set-view (x ∷ bs) zero o = refl
set-view (x ∷ bs) (suc p) o = ap (λ l. references x ∷ l) (set-view bs p o)

set-All :
    (bs : Blobs) (p : ℕ) (o : Option Blob)
    → All IsCountedBlob bs
    → IsCountedBlob o
    → All IsCountedBlob (set bs p o)
set-All [] p o a c = tt
set-All (x ∷ bs) zero o a c = (c, a.1)
set-All (x ∷ bs) (suc p) o a c = (a.0, set-All bs p o a.1 c)

get_elem?-view :
    (bs : Blobs) (p : ℕ)
    → get_elem? (view bs) p ≡ elim (get_elem? bs p) [ none ↦ none | some o ↦ some (references o) ]
get_elem?-view [] p = refl
get_elem?-view (x ∷ bs) zero = refl
get_elem?-view (x ∷ bs) (suc p) = get_elem?-view bs p

get_elem?-All :
    (bs : Blobs) (p : ℕ) (o : Option Blob)
    → All IsCountedBlob bs
    → get_elem? bs p ≡ some o
    → IsCountedBlob o
get_elem?-All [] p o a e = cc
get_elem?-All (x ∷ bs) zero o a e = let same : x ≡ o = cc in subst IsCountedBlob same a.0
get_elem?-All (x ∷ bs) (suc p) o a e = get_elem?-All bs p o a.1 e

abbrev AllCounted : Blobs → Type 0
AllCounted = All IsCountedBlob

-- What a result has, if there is one.
abbrev pub Leaves : Option Blobs → Type 0
Leaves none = Unit
Leaves (some bs) = AllCounted bs

view-append :
    (bs : Blobs) (o : Option Blob) → view (bs ++ (o ∷ [])) ≡ view bs ++ (references o ∷ [])
view-append [] o = refl
view-append (x ∷ bs) o = ap (λ l. references x ∷ l) (view-append bs o)

append-AllCounted :
    (bs : Blobs) (o : Option Blob) → AllCounted bs → IsCountedBlob o → AllCounted (bs ++ (o ∷ []))
append-AllCounted [] o a c = (c, tt)
append-AllCounted (x ∷ bs) o a c = (a.0, append-AllCounted bs o a.1 c)

ref_at :
    (bs : Blobs) (p : ℕ)
    → AllCounted bs
    → (view_of (blob_ref bs p) ≡ change (λ n. n + 1) (view bs) p) × Leaves (blob_ref bs p)
unfolding blob_ref
ref_at bs p a = elim (Option-cases (get_elem? bs p)) [
  | inl out ↦ ground (arith, get_elem?-view bs p)
  | inr (none, there) ↦ ground (arith, get_elem?-view bs p)
  | inr (some b, there) ↦
      let kept = record b { refcnt = b.refcnt + 1 } in
      ground (
        arith,
        get_elem?-view bs p,
        get_elem?-All bs p (some b) a there,
        set-view bs p (some kept),
        set-All bs p (some kept) a,
      )
]

unref_at :
    (bs : Blobs) (p : ℕ)
    → AllCounted bs
    → (view_of (blob_unref bs p) ≡ change (λ n. n - 1) (view bs) p) × Leaves (blob_unref bs p)
unfolding blob_unref
unref_at bs p a = elim (Option-cases (get_elem? bs p)) [
  | inl out ↦ ground (arith, get_elem?-view bs p)
  | inr (none, there) ↦ ground (arith, get_elem?-view bs p)
  | inr (some b, there) ↦
      let kept = record b { refcnt = b.refcnt - 1 } in
      ground (
        arith,
        get_elem?-view bs p,
        get_elem?-All bs p (some b) a there,
        set-view bs p (some kept),
        set-All bs p (some kept) a,
        set-view bs p none,
        set-All bs p none a,
      )
]

step-view :
    (bs : Blobs) (op : Op)
    → AllCounted bs
    → (view_of (step bs op) ≡ view_step (view bs) op) × Leaves (step bs op)
unfolding step blob_create
step-view bs (create content size) a =
    let made = some (record { refcnt = 1; size = size; content = take size content }) in
    (ap some (view-append bs made), append-AllCounted bs made a (omega arith))
step-view bs (ref p) a = ref_at bs p a
step-view bs (unref p) a = unref_at bs p a

-- Any sequence of creating blobs, and of copying and dropping pointers to them, is a fault exactly
-- where the abstract view has a pointer copied or dropped that no longer exists; otherwise each
-- blob has as many references as the view says, and is freed if it has none.
pub run-view :
    (ops : List Op) (bs : Blobs)
    → All IsCountedBlob bs
    → view_of (run bs ops) ≡ view_run (view bs) ops
unfolding run
run-view [] bs a = refl
run-view (op ∷ ops) bs a = elim (Option-cases (step bs op)) [
  | inl fault ↦ ground (arith, step-view bs op a)
  | inr (bs', went) ↦ ground (arith, step-view bs op a, run-view ops bs')
]
