-- ===== src/Heap/Release.antt =====
-- Marking a block as free in `free` (kernel/memory.c), and merging, on the list of blocks.
use alpha_os.Prelude.{
  ℕ, ◌+◌, ◌%◌, ◌<◌, ◌≡◌, refl, inl, inr, true, false, ◌&&◌, List, [], ◌∷◌, arith, leb, ◌==◌,
  Bool-cases,
}
use alpha_os.Bytes.{Ptr, null}
use alpha_os.Heap.{Headers, put, header_size}
use alpha_os.Heap.Blocks.{Block, block, behind, first_fit, release, join, coalesce, used, At}
use alpha_os.Heap.Tiles.{Tiles, AllAligned, Tiles-frame}

-- What marking the block at `t` leaves.
pub record Released (h h' : Headers) (limit p size : ℕ) (bs bs' : List Block) : Type 0 where
  pub tiles : Tiles h' limit p bs'
  pub aligned : AllAligned bs'
  pub paid : used bs' + size ≡ used bs

module _ (h : Headers) (limit : ℕ) where
  pub release_lem :
      (p t size : ℕ) (bs : List Block)
      → Tiles h limit p bs
      → AllAligned bs
      → At t (block size false) p bs
      → Released h (put h t (record (h t) { is_free = 1 })) limit p size bs (release t p bs)
  unfolding release put used
  release_lem p t size [] tiles ok at = absurd at
  release_lem p t size (b ∷ bs) (e, tiles) ok at = elim (Bool-cases (t == p)) [
    | inl here ↦
        let same : b ≡ block size false = rw here at at in
        let eq : t ≡ p = ground arith in
        rw here (record {
          tiles =
              (ground arith, Tiles-frame h _ limit (behind p b) bs (λ a le. ground arith) tiles);
          aligned = ok;
          paid = ground arith;
        })
    | inr there ↦
        let rest = release_lem (behind p b) t size bs tiles ok.1 (rw there at at) in
        rw there (record {
          tiles = (ground arith, rest.tiles);
          aligned = (ok.0, rest.aligned);
          paid = omega (arith, rest.paid);
        })
  ]

pub join-aligned : (b : Block) (bs : List Block) → AllAligned (b ∷ bs) → AllAligned (join b bs)
unfolding join
join-aligned b [] ok = ok
join-aligned b (c ∷ bs) ok = elim (Bool-cases (b.is_free && c.is_free)) [
  | inl free ↦
      rw free (join-aligned (block (b.size + header_size + c.size) true) bs (omega arith, ok.1.1))
  | inr kept ↦ rw kept (ok.0, join-aligned c bs ok.1)
]

pub coalesce-aligned : (bs : List Block) → AllAligned bs → AllAligned (coalesce bs)
unfolding coalesce
coalesce-aligned [] ok = ok
coalesce-aligned (b ∷ bs) ok = join-aligned b bs ok

join-used : (b : Block) (bs : List Block) → used (join b bs) ≡ used (b ∷ bs)
unfolding join used
join-used b [] = refl
join-used b (c ∷ bs) = elim (Bool-cases (b.is_free && c.is_free)) [
  | inl free ↦ rw free (ground (arith, join-used (block (b.size + header_size + c.size) true) bs))
  | inr kept ↦ rw kept (omega (arith, join-used c bs))
]

pub coalesce-used : (bs : List Block) → used (coalesce bs) ≡ used bs
unfolding coalesce
coalesce-used [] = refl
coalesce-used (b ∷ bs) = join-used b bs

-- No two neighbours are free.
abbrev pub NoFreePair : List Block → Type 0
NoFreePair [] = Unit {0}
NoFreePair (b ∷ []) = Unit {0}
NoFreePair (b ∷ c ∷ bs) = ((b.is_free && c.is_free) ≡ false) × NoFreePair (c ∷ bs)

-- Every free block is smaller than `n`.
abbrev pub NoFit : ℕ → List Block → Type 0
NoFit n [] = Unit {0}
NoFit n (b ∷ bs) = (b.is_free ≡ true → b.size < n) × NoFit n bs

pub first_fit-null : (n p : ℕ) (bs : List Block) → 0 < p → first_fit n p bs ≡ null → NoFit n bs
unfolding first_fit
first_fit-null n p [] pos e = tt
first_fit-null n p (b ∷ bs) pos e = elim (Bool-cases (b.is_free && leb n b.size)) [
  | inl fits ↦ absurd (let zero_at : p ≡ null = rw fits at e in omega arith)
  | inr misses ↦
      ((λ free. ground arith), first_fit-null n (behind p b) bs (omega arith) (rw misses at e))
]

-- Blocks of aligned sizes start at aligned distances.
pub At-aligned :
    (p t : Ptr) (c : Block) (bs : List Block) → AllAligned bs → At t c p bs → p % 8 ≡ 0 → t % 8 ≡ 0
At-aligned p t c [] ok at al = absurd at
At-aligned p t c (b ∷ bs) ok at al = elim (Bool-cases (t == p)) [
  | inl here ↦ ground arith
  | inr there ↦ At-aligned (behind p b) t c bs ok.1 (rw there at at) (omega arith)
]
