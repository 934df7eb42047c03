-- ===== src/Sfmm/Lists/Ring.antt =====
-- The free lists as rings of blocks round their heads: what the links that `insert_block` and
-- `isolate_block` (hw3/src/sfmm_block.c) make of them.
use cse320_fall.Base.{
  ℕ, ◌%◌, ◌<◌, ◌≡◌, ◌≢◌, refl, false, ◌||◌, List, [], ◌∷◌, ◌++◌, arith, ◌==◌, All, subst, sym,
}
use cse320_fall.Sfmm.Memory.{Heap, next, prev, write_next, write_prev}
use cse320_fall.Sfmm.Lists.{link_first, unlink}

abbrev pub IsLinked : Heap → (a b : ℕ) → Type 0
IsLinked h a b = (next h a ≡ b) × (prev h b ≡ a)

-- From `a` through the blocks to `b`, and back.
abbrev pub IsChain : Heap → ℕ → List ℕ → ℕ → Type 0
IsChain h a [] b = IsLinked h a b
IsChain h a (x ∷ xs) b = IsLinked h a x × IsChain h x xs b

-- The list of a head, its blocks in order.
abbrev pub IsRing : Heap → ℕ → List ℕ → Type 0
IsRing h head xs = IsChain h head xs head

-- Addresses of blocks: multiples of 16, and not NULL.
abbrev pub IsBlock : ℕ → Type 0
IsBlock x = (x % 16 ≡ 0) × (0 < x)

abbrev pub IsApart : ℕ → List ℕ → Type 0
IsApart x = All (λ y. y ≢ x)

abbrev pub AreDistinct : List ℕ → Type 0
AreDistinct [] = Unit
AreDistinct (x ∷ xs) = IsApart x xs × AreDistinct xs

-- A head and the blocks of its list.
pub record Nodes (head : ℕ) (xs : List ℕ) : Type 0 where
  pub head_block : IsBlock head
  pub blocks : All IsBlock xs
  pub head_apart : IsApart head xs
  pub distinct : AreDistinct xs

module _ (h : Heap) (p v : ℕ) (q : IsBlock p) where
  chain_write_next :
      (a b : ℕ) (xs : List ℕ)
      → IsBlock a
      → IsBlock b
      → All IsBlock xs
      → a ≢ p
      → IsApart p xs
      → IsChain h a xs b
      → IsChain (write_next h p v) a xs b
  chain_write_next a b [] ka kb ks n ns c = ground arith
  chain_write_next a b (x ∷ xs) ka kb ks n ns c =
      (ground arith, chain_write_next x b xs ks.0 kb ks.1 ns.0 ns.1 c.1)

  chain_write_prev :
      (a b : ℕ) (xs : List ℕ)
      → IsBlock a
      → IsBlock b
      → All IsBlock xs
      → b ≢ p
      → IsApart p xs
      → IsChain h a xs b
      → IsChain (write_prev h p v) a xs b
  chain_write_prev a b [] ka kb ks n ns c = ground arith
  chain_write_prev a b (x ∷ xs) ka kb ks n ns c =
      (ground arith, chain_write_prev x b xs ks.0 kb ks.1 n ns.1 c.1)

-- The four writes of the two operations, where they touch a list between `a` and `b`.
abbrev rewired : Heap → (block a b : ℕ) → Heap
rewired h block a b =
    write_prev (write_next (write_prev (write_next h block b) block a) a block) b block

abbrev detached : Heap → (block a b : ℕ) → Heap
detached h block a b = write_prev (write_next (write_prev (write_next h a b) b a) block 0) block 0

link_first-rewired :
    (h : Heap) (block head x : ℕ)
    → next h head ≡ x
    → 0 < x
    → x ≢ head
    → link_first h block head ≡ rewired h block head x
unfolding link_first
link_first-rewired h block head x e p n =
    let full : ((x == 0) || (x == head)) ≡ false = ground arith in rw (e, full) refl

unlink-detached :
    (h : Heap) (block a b : ℕ)
    → next h block ≡ b
    → prev h block ≡ a
    → unlink h block ≡ detached h block a b
unfolding unlink
unlink-detached h block a b e f = rw (e, f) refl

-- In a list whose blocks are aligned, distinct and no NULL, a block that is not in it becomes its
-- first one.
pub link_first-IsRing :
    (h : Heap) (block head : ℕ) (xs : List ℕ)
    → Nodes head (block ∷ xs)
    → IsRing h head xs
    → IsRing (link_first h block head) head (block ∷ xs)
unfolding link_first
link_first-IsRing h block head [] v c = ground (arith, v.head_block, v.blocks, v.head_apart)
link_first-IsRing h block head (x ∷ xs) v c =
    let kb = v.blocks.0 in
    let kx = v.blocks.1.0 in
    let ks = v.blocks.1.1 in
    let kh = v.head_block in
    let d = v.distinct in
    let h1 : Heap = write_next h block x in
    let h2 : Heap = write_prev h1 block head in
    let h3 : Heap = write_next h2 head block in
    subst (λ g. IsRing g head (block ∷ x ∷ xs))
      (sym (link_first-rewired h block head x c.0.0 kx.1 v.head_apart.1.0))
      (
        ground arith,
        (
          ground arith,
          chain_write_prev h3 x block kx x head xs kx kh ks (ground arith) d.1.0 (
              chain_write_next h2 head block kh x head xs kx kh ks (ground arith) v.head_apart.1.1 (
                chain_write_prev h1 block head kb x head xs kx kh ks (ground arith) d.0.1
                  (chain_write_next h block x kb x head xs kx kh ks (ground arith) d.0.1 c.1))),
        ),
      )

-- The first block of a chain leaves it.
unlink_first :
    (h : Heap) (block a b : ℕ) (xs : List ℕ)
    → IsBlock a
    → IsBlock b
    → All IsBlock (block ∷ xs)
    → IsApart a (block ∷ xs)
    → IsApart b (block ∷ xs)
    → AreDistinct (block ∷ xs)
    → IsChain h a (block ∷ xs) b
    → IsChain (unlink h block) a xs b
unfolding unlink
unlink_first h block a b [] ka kb ks na nb d c = ground arith
unlink_first h block a b (x ∷ xs) ka kb ks na nb d c =
    let h1 : Heap = write_next h a x in
    let h2 : Heap = write_prev h1 x a in
    let h3 : Heap = write_next h2 block 0 in
    let kx = ks.1.0 in
    subst (λ g. IsChain g a (x ∷ xs) b) (sym (unlink-detached h block a x c.1.0.0 c.0.1))
      (
        ground arith,
        chain_write_prev h3 block 0 ks.0 x b xs kx kb ks.1.1 (ground arith) d.0.1 (
            chain_write_next h2 block 0 ks.0 x b xs kx kb ks.1.1 (ground arith) d.0.1 (
              chain_write_prev h1 x a kx x b xs kx kb ks.1.1 (ground arith) d.1.0
                (chain_write_next h a x ka x b xs kx kb ks.1.1 (ground arith) na.1.1 c.1.1))),
      )

-- A block's neighbours are among the nodes on either side of it.
before_in :
    (P : ℕ → Type 0) (h : Heap) (block a b : ℕ) (front back : List ℕ)
    → P a
    → All P front
    → IsChain h a (front ++ (block ∷ back)) b
    → P (prev h block)
before_in P h block a b [] back pa ps c = subst P (sym c.0.1) pa
before_in P h block a b (x ∷ front) back pa ps c = before_in P h block x b front back ps.0 ps.1 c.1

after_in :
    (P : ℕ → Type 0) (h : Heap) (block a b : ℕ) (front back : List ℕ)
    → P b
    → All P back
    → IsChain h a (front ++ (block ∷ back)) b
    → P (next h block)
after_in P h block a b (x ∷ front) back pb ps c = after_in P h block x b front back pb ps c.1
after_in P h block a b [] [] pb ps c = subst P (sym c.1.0) pb
after_in P h block a b [] (x ∷ back) pb ps c = subst P (sym c.1.0.0) ps.0

All-append :
    (P : ℕ → Type 0) (block : ℕ) (front back : List ℕ)
    → All P (front ++ (block ∷ back))
    → All P front × P block × All P back
All-append P block [] back ps = (tt, ps.0, ps.1)
All-append P block (x ∷ front) back ps =
    let (f, k, b) = All-append P block front back ps.1 in ((ps.0, f), k, b)

-- A link away from a block stays when the block is unlinked.
unlink_elsewhere :
    (h : Heap) (block a x : ℕ)
    → IsBlock a
    → IsBlock x
    → IsBlock block
    → IsBlock (prev h block)
    → IsBlock (next h block)
    → a ≢ block
    → x ≢ block
    → prev h block ≢ a
    → next h block ≢ x
    → IsLinked h a x
    → IsLinked (unlink h block) a x
unfolding unlink
unlink_elsewhere h block a x ka kx k kp kn na nx p n c = ground arith

unlink-IsChain :
    (h : Heap) (block a b : ℕ) (front back : List ℕ)
    → IsBlock a
    → IsBlock b
    → All IsBlock (front ++ (block ∷ back))
    → IsApart a (front ++ (block ∷ back))
    → IsApart b (front ++ (block ∷ back))
    → AreDistinct (front ++ (block ∷ back))
    → IsChain h a (front ++ (block ∷ back)) b
    → IsChain (unlink h block) a (front ++ back) b
unlink-IsChain h block a b [] back ka kb ks na nb d c =
    unlink_first h block a b back ka kb ks na nb d c
unlink-IsChain h block a b (x ∷ front) back ka kb ks na nb d c =
    let (kf, k, kk) = All-append IsBlock block front back ks.1 in
    let (af, ak, ak2) = All-append (λ y. y ≢ a) block front back na.1 in
    let (xf, xk, xk2) = All-append (λ y. y ≢ x) block front back d.0 in
    (
      unlink_elsewhere h block a x ka ks.0 k (before_in IsBlock h block x b front back ks.0 kf c.1)
          (after_in IsBlock h block x b front back kb kk c.1) (λ e. ak (sym e)) (λ e. xk (sym e))
          (before_in (λ y. y ≢ a) h block x b front back na.0 af c.1)
          (after_in (λ y. y ≢ x) h block x b front back (λ e. nb.0 (sym e)) xk2 c.1) c.0,
      unlink-IsChain h block x b front back ks.0 kb ks.1 d.0 nb.1 d.1 c.1,
    )

-- In a list whose blocks are aligned, distinct and no NULL, a block leaves the list, wherever it
-- stands, with its own links cleared; the others stay in order.
pub unlink-IsRing :
    (h : Heap) (block head : ℕ) (front back : List ℕ)
    → Nodes head (front ++ (block ∷ back))
    → IsRing h head (front ++ (block ∷ back))
    → IsRing (unlink h block) head (front ++ back)
      × (next (unlink h block) block ≡ 0)
      × (prev (unlink h block) block ≡ 0)
unfolding unlink
unlink-IsRing h block head front back v c = (
  unlink-IsChain h block head head front back v.head_block v.head_block v.blocks v.head_apart
      v.head_apart v.distinct c,
  ground arith,
  ground arith,
)
