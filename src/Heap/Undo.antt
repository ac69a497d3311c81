-- ===== src/Heap/Undo.antt =====
-- `free` right after `malloc` (kernel/memory.c) restores the blocks, and never leaves two free
-- neighbours.
use mathlib.Core.Path.{sym, ◌∙◌}
use alpha_os.Prelude.{
  ℕ, ◌+◌, ◌-◌, ◌≤◌, ◌<◌, ◌≡◌, ◌≢◌, refl, ap, inl, inr, Bool, true, false, ◌&&◌, List, [], ◌∷◌,
  arith, ltb, leb, ◌==◌, Bool-cases,
}
use alpha_os.Bytes.{Ptr, null}
use alpha_os.Heap.{header_size}
use alpha_os.Heap.Blocks.{Block, block, behind, first_fit, cut, allocate, release, join, coalesce}
use alpha_os.Heap.Live.{At-le, first_fit-At}
use alpha_os.Heap.Release.{NoFreePair}

-- Whether the first block is free.
abbrev pub head_free : List Block → Bool
head_free [] = false
head_free (b ∷ bs) = b.is_free

join-head : (b : Block) (bs : List Block) → head_free (join b bs) ≡ b.is_free
unfolding join
join-head b [] = refl
join-head b (c ∷ bs) = elim (Bool-cases (b.is_free && c.is_free)) [
  | inl free ↦ rw free (join-head (block (b.size + header_size + c.size) true) bs ∙ ground arith)
  | inr kept ↦ rw kept refl
]

NoFreePair-cons :
    (b : Block) (bs : List Block)
    → (b.is_free && head_free bs) ≡ false
    → NoFreePair bs
    → NoFreePair (b ∷ bs)
NoFreePair-cons b [] first rest = tt
NoFreePair-cons b (c ∷ bs) first rest = (first, rest)

join-NoFreePair : (b : Block) (bs : List Block) → NoFreePair (join b bs)
unfolding join
join-NoFreePair b [] = tt
join-NoFreePair b (c ∷ bs) = elim (Bool-cases (b.is_free && c.is_free)) [
  | inl free ↦ rw free (join-NoFreePair (block (b.size + header_size + c.size) true) bs)
  | inr kept ↦
      rw kept (NoFreePair-cons b (join c bs) (rw (join-head c bs) kept) (join-NoFreePair c bs))
]

-- Merging leaves no two free neighbours.
pub coalesce-NoFreePair : (bs : List Block) → NoFreePair (coalesce bs)
unfolding coalesce
coalesce-NoFreePair [] = tt
coalesce-NoFreePair (b ∷ bs) = join-NoFreePair b bs

-- Where the front may not be merged, merging goes on behind it.
join-coalesce :
    (b : Block) (bs : List Block)
    → (b.is_free && head_free bs) ≡ false
    → join b bs ≡ b ∷ coalesce bs
unfolding join coalesce
join-coalesce b [] apart = refl
join-coalesce b (c ∷ bs) apart = rw apart refl

coalesce-eq_self : (bs : List Block) → NoFreePair bs → coalesce bs ≡ bs
unfolding coalesce
coalesce-eq_self [] ok = refl
coalesce-eq_self (b ∷ []) ok = join-coalesce b [] (ground arith)
coalesce-eq_self (b ∷ c ∷ bs) ok =
    join-coalesce b (c ∷ bs) ok.0 ∙ ap (λ l. b ∷ l) (coalesce-eq_self (c ∷ bs) ok.1)

NoFreePair-uncons :
    (b : Block) (bs : List Block)
    → NoFreePair (b ∷ bs)
    → ((b.is_free && head_free bs) ≡ false) × NoFreePair bs
NoFreePair-uncons b [] ok = (ground arith, tt)
NoFreePair-uncons b (c ∷ bs) ok = ok

module _ (n : ℕ) where
  cut-undone :
      (p : Ptr) (b : Block) (bs : List Block)
      → NoFreePair (b ∷ bs)
      → b.is_free ≡ true
      → n ≤ b.size
      → (coalesce (release p p (cut n b bs)) ≡ b ∷ bs)
        × (head_free (release p p (cut n b bs)) ≡ true)
  unfolding release coalesce join
  cut-undone p b bs ok free fits =
      let here : (p == p) ≡ true = ground arith in
      let whole : block b.size true ≡ b = ground arith in
      let back : join b bs ≡ b ∷ bs = coalesce-eq_self (b ∷ bs) ok in
      elim (Bool-cases (ltb (n + header_size + 16) b.size)) [
        | inl wide ↦
            let room : n + header_size + 16 < b.size = ground arith in
            let sum : n + header_size + (b.size - n - header_size) ≡ b.size = omega arith in
            rw (wide, here) (rw (sum, whole) back, refl)
        | inr narrow ↦ rw (narrow, here) (rw whole back, refl)
      ]

  -- A block that is put to use and freed at once gives back the blocks there were.
  pub allocate-undone :
      (p t : Ptr) (bs : List Block)
      → NoFreePair bs
      → first_fit n p bs ≡ t
      → t ≢ null
      → (coalesce (release t p (allocate n bs)) ≡ bs)
        × (head_free (release t p (allocate n bs)) ≡ head_free bs)
  unfolding first_fit allocate release coalesce
  allocate-undone p t [] ok e ne = absurd (ne (sym e))
  allocate-undone p t (b ∷ bs) ok e ne = elim (Bool-cases (b.is_free && leb n b.size)) [
    | inl fits ↦
        let here : p ≡ t = rw fits at e in
        let free : b.is_free ≡ true = ground arith in
        let (back, head) = cut-undone p b bs ok free (ground arith) in
        rw (fits, ← here) (back, head ∙ sym free)
    | inr misses ↦
        let e' : first_fit n (behind p b) bs ≡ t = rw misses at e in
        let (c, at, free) = first_fit-At n (behind p b) t bs e' ne in
        let later : (t == p) ≡ false = ground (arith, At-le t (behind p b) c bs at) in
        let (apart, rest) = NoFreePair-uncons b bs ok in
        let (back, head) = allocate-undone (behind p b) t bs rest e' ne in
        rw (misses, later) (join-coalesce b _ (rw head apart) ∙ ap (λ l. b ∷ l) back, refl)
  ]
