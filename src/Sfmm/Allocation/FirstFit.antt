-- ===== src/Sfmm/Allocation/FirstFit.antt =====
-- The search of `get_free_block` (hw3/src/sfmm_block.c) through well-formed free lists.
use cse320_fall.Base.{
  ℕ, zero, suc, ◌+◌, ◌≤◌, ◌<◌, ◌≡◌, ◌≢◌, refl, true, false, ◌||◌, ◌&&◌, List, [], ◌∷◌, ◌++◌, arith,
  leb, ◌==◌, if◌then◌else◌, length, length-append, All, Bool-cases, inl, inr,
}
use cse320_fall.Sfmm.Word.{block_size_of, alloc_of}
use cse320_fall.Sfmm.Memory.{Heap, done, header, next, list_head}
use cse320_fall.Sfmm.Lists.Ring.{IsChain, IsRing}
use cse320_fall.Sfmm.Allocation.{find_fit, Search, found, not_found}

module _ (h : Heap) (total_bytes : ℕ) where
  -- The first block that is free and large enough.
  abbrev pub first_fit : List ℕ → Search
  first_fit [] = not_found
  first_fit (x ∷ xs) =
      if alloc_of (header h x) == 0 && leb total_bytes (block_size_of (header h x))
      then found x
      else first_fit xs

-- A node of the list of `head`, other than the head.
abbrev pub IsNode : ℕ → ℕ → Type 0
IsNode head x = (x ≢ 0) × (x ≢ head)

-- The lists from number `i` on, `k` of them, in order.
abbrev pub lists_from : (lists : ℕ → List ℕ) (k i : ℕ) → List ℕ
lists_from lists zero i = []
lists_from lists (suc k) i = lists i ++ lists_from lists k (suc i)

-- The free lists of a heap hold these blocks.
pub record AreLists (h : Heap) (lists : ℕ → List ℕ) : Type 0 where
  pub ring : (i : ℕ) → i < 10 → IsRing h (list_head h i) (lists i)
  pub nodes : (i : ℕ) → i < 10 → All (IsNode (list_head h i)) (lists i)

-- The steps of the search at the head of a list, at a block that fits, and at one that does not.
find_fit-head :
    (fuel : ℕ) (h : Heap) (i n : ℕ)
    → i < 10
    → find_fit (suc fuel) h i (list_head h i) n
      ≡ find_fit fuel h (suc i) (next h (list_head h (suc i))) n
unfolding find_fit
find_fit-head fuel h i n l =
    let stop : leb 10 i ≡ false = ground arith in
    let at_head : ((list_head h i == 0) || (list_head h i == list_head h i)) ≡ true =
      ground arith in
    rw (stop, at_head) refl

find_fit-node :
    (fuel : ℕ) (h : Heap) (i x n : ℕ)
    → i < 10
    → IsNode (list_head h i) x
    → find_fit (suc fuel) h i x n ≡ (
        if alloc_of (header h x) == 0 && leb n (block_size_of (header h x))
        then done (found x)
        else find_fit fuel h i (next h x) n)
unfolding find_fit
find_fit-node fuel h i x n l (z, a) =
    let stop : leb 10 i ≡ false = ground arith in
    let inside : ((x == 0) || (x == list_head h i)) ≡ false = ground arith in rw (stop, inside) refl

find_fit-end : (fuel : ℕ) (h : Heap) (x n : ℕ) → find_fit (suc fuel) h 10 x n ≡ done not_found
unfolding find_fit
find_fit-end fuel h x n = refl

module _ (h : Heap) (lists : ℕ → List ℕ) (v : AreLists h lists) (n : ℕ) where
  find_fit_chain :
      (fuel k i a : ℕ) (xs : List ℕ)
      → i + suc k ≡ 10
      → IsChain h a xs (list_head h i)
      → All (IsNode (list_head h i)) xs
      → length xs + length (lists_from lists k (suc i)) + k + 2 ≤ fuel
      → find_fit fuel h i (next h a) n ≡ done (first_fit h n (xs ++ lists_from lists k (suc i)))
  find_fit_chain zero k i a xs e c w f = absurd (omega arith)
  find_fit_chain (suc zero) k i a xs e c w f = absurd (omega arith)
  find_fit_chain (suc (suc fuel)) zero i a [] e c w f =
      let last : i ≡ 9 = omega arith in
      rw (c.0, find_fit-head (suc fuel) h i n (omega arith), last) (find_fit-end fuel h _ n)
  find_fit_chain (suc (suc fuel)) (suc k) i a [] e c w f =
      rw (c.0, find_fit-head (suc fuel) h i n (omega arith))
        (find_fit_chain (suc fuel) k (suc i) (list_head h (suc i)) (lists (suc i)) (omega arith)
          (v.ring (suc i) (omega arith)) (v.nodes (suc i) (omega arith))
          (omega (arith, length-append {0} (lists (suc i)) (lists_from lists k (suc (suc i))))))
  find_fit_chain (suc (suc fuel)) k i a (x ∷ xs) e c w f =
      let rest = find_fit_chain (suc fuel) k i x xs e c.1 w.1 (omega arith) in
      rw (c.0.0, find_fit-node (suc fuel) h i x n (omega arith) w.0)
        (elim (Bool-cases (alloc_of (header h x) == 0 && leb n (block_size_of (header h x)))) [
          | inl fits ↦ rw fits refl
          | inr small ↦ rw small rest
        ])

  -- In a heap whose ten free lists are rings of blocks, the search from any list on, with more
  -- rounds than there are blocks and lists, ends, and returns the first block, in the order of the
  -- lists, that is free and large enough, or none if no block is.
  pub find_fit-first_fit :
      (fuel k i : ℕ)
      → i + suc k ≡ 10
      → length (lists_from lists (suc k) i) + k + 2 ≤ fuel
      → find_fit fuel h i (next h (list_head h i)) n
        ≡ done (first_fit h n (lists_from lists (suc k) i))
  find_fit-first_fit fuel k i e f =
      find_fit_chain fuel k i (list_head h i) (lists i) e (v.ring i (omega arith))
        (v.nodes i (omega arith))
        (omega (arith, length-append {0} (lists i) (lists_from lists k (suc i))))
