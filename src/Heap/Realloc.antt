-- ===== src/Heap/Realloc.antt =====
-- `malloc` followed by `free`, `realloc` and `calloc` (kernel/memory.c).
use mathlib.Core.Path.{subst, ap, ◌∙◌}
use alpha_os.Prelude.{
  ℕ, ◌+◌, ◌-◌, ◌*◌, ◌^◌, ◌≤◌, ◌<◌, ◌≡◌, ◌≢◌, refl, ◌⊎◌, true, false, Option, some, List, arith, leb,
  ◌==◌, inl, inr, if◌then◌else◌,
}
use alpha_os.Bytes.{Ptr, null, Memory, memcpy, memset}
use alpha_os.Bytes.Copy.{within, memcpy_lem, memset_lem}
use alpha_os.Heap.{
  State, heap_size, header_size, word, align, malloc, calloc, free, move_block, realloc, block_of,
}
use alpha_os.Heap.Blocks.{Block, block, first_fit, allocate, release, coalesce, At}
use alpha_os.Heap.Tiles.{IsHeap, At-header}
use alpha_os.Heap.Release.{NoFreePair, NoFit}
use alpha_os.Heap.Live.{allocate-live, release-live}
use alpha_os.Heap.Undo.{allocate-undone}
use alpha_os.Heap.Laws.{
  enough, align_lem, Allocated, malloc_lem, free_lem, find_free_block_lem, take_block-Allocated,
}

module _ {s : State} {bs : List Block} (is : IsHeap s bs) where
  -- A block that `malloc` handed out is not null.
  Allocated-ne_null : {n : ℕ} {r : Option (Ptr × State)} (a : Allocated is n r) → a.block_at ≢ null
  Allocated-ne_null a e =
      let at =
        At-header a.after.headers (a.after.heap + heap_size) a.after.heap a.block_at
          (block a.size false) _ a.is_heap.tiles (rw a.heap a.holds) in
      omega (arith, at, a.is_heap.ne_null)

  -- `free` right after a successful `malloc` gives back the very blocks there were, in a heap
  -- without free neighbours, and the same `free_memory`: nothing leaks.
  pub free-malloc :
      (fuel size : ℕ)
      → enough < fuel
      → NoFreePair bs
      → Allocated is (align size) (malloc fuel size s)
      → (ptr : Ptr) × (s1 : State) × (s2 : State) × (malloc fuel size s ≡ some (ptr, s1))
        × (free fuel ptr s1 ≡ some s2)
        × IsHeap s2 bs
        × (s2.free_memory ≡ s.free_memory)
  free-malloc fuel size lt ok a =
      let n : ℕ = align size in
      let (back, _) = allocate-undone n s.heap a.block_at bs ok a.first (Allocated-ne_null a) in
      let (s2, freed, is2, _) = free_lem a.is_heap fuel a.block_at a.size lt (rw a.heap a.holds) in
      let is2' : IsHeap s2 bs =
        subst (λ l. IsHeap s2 l) back
          (subst (λ q. IsHeap s2 (coalesce (release a.block_at q (allocate n bs)))) a.heap is2) in
      (
        a.block_at + header_size,
        a.after,
        s2,
        a.returns,
        freed,
        is2',
        omega (arith, is2'.accounted, is.accounted),
      )

malloc-Allocated :
    {s : State} {bs : List Block} (is : IsHeap s bs) (fuel size : ℕ)
    → enough < fuel
    → 0 < size
    → size + 7 < 2 ^ 32
    → first_fit (align size) s.heap bs ≢ null
    → Allocated is (align size) (malloc fuel size s)
unfolding malloc
malloc-Allocated {s = s} {bs = bs} is fuel size lt pos fits ne =
    let found = find_free_block_lem is fuel (align size) lt in
    let asked : (size == 0) ≡ false = ground arith in
    let got : (first_fit (align size) s.heap bs == null) ≡ false = ground arith in
    rw (asked, found, got) (take_block-Allocated is (align size) (align_lem size fits).2 ne)

-- Where a free block is large enough for the size, rounded up, and no two free blocks are
-- neighbours, `malloc` of the size (not zero, and not wrapping round when it is rounded up) and then
-- `free` of its result give back the very blocks there were, and the same `free_memory`.
pub free-malloc_restores :
    {s : State} {bs : List Block} (is : IsHeap s bs) (fuel size : ℕ)
    → enough < fuel
    → 0 < size
    → size + 7 < 2 ^ 32
    → first_fit (align size) s.heap bs ≢ null
    → NoFreePair bs
    → (ptr : Ptr) × (s1 : State) × (s2 : State) × (malloc fuel size s ≡ some (ptr, s1))
      × (free fuel ptr s1 ≡ some s2)
      × IsHeap s2 bs
      × (s2.free_memory ≡ s.free_memory)
free-malloc_restores is fuel size lt pos fits ne ok =
    free-malloc is fuel size lt ok (malloc-Allocated is fuel size lt pos fits ne)

IsHeap-bytes :
    (s : State) (bs : List Block) (m : Memory) → IsHeap s bs → IsHeap (record s { bytes = m }) bs
IsHeap-bytes s bs m is = record {
  start = is.start;
  ne_null = is.ne_null;
  in_range = is.in_range;
  tiles = is.tiles;
  aligned = is.aligned;
  total = is.total;
  accounted = is.accounted;
}

copied_byte :
    (m0 m1 m2 : Memory) (d p n i : ℕ)
    → i < n
    → m2 ≡ m1
    → ((a : Ptr) → m1 a ≡ (if within d n a then m0 (p + (a - d)) else m0 a))
    → m2 (d + i) ≡ m0 (p + i)
copied_byte m0 m1 m2 d p n i lt e copied =
    let hit : within d n (d + i) ≡ true = ground arith in
    let offset : d + i - d ≡ i = omega arith in rw e (copied (d + i) ∙ rw (hit, offset) refl)

move_block-null :
    (fuel ptr size : ℕ) (s : State)
    → malloc fuel size s ≡ some (null, s)
    → move_block fuel ptr size s ≡ some (null, s)
unfolding move_block
move_block-null fuel ptr size s failed = rw failed refl

module _ {s : State} {bs : List Block} (is : IsHeap s bs) where
  -- What `realloc` to `n` bytes, rounded up, leaves when it moves a block of `m` bytes from `t`.
  pub record Moved (t m n : ℕ) (r : Option (Ptr × State)) : Type 0 where
    pub block_at : Ptr
    pub size : ℕ
    pub after : State
    pub returns : r ≡ some (block_at + header_size, after)
    pub is_heap : IsHeap after (coalesce (release t s.heap (allocate n bs)))
    pub holds : At block_at (block size false) s.heap (coalesce (release t s.heap (allocate n bs)))
    pub fits : n ≤ size
    pub content :
        (i : ℕ) → i < m → after.bytes (block_at + header_size + i) ≡ s.bytes (t + header_size + i)

  move_block-Moved :
      (fuel t m size : ℕ)
      → enough < fuel
      → At t (block m false) s.heap bs
      → m ≤ align size
      → Allocated is (align size) (malloc fuel size s)
      → Moved t m (align size) (move_block fuel (t + header_size) size s)
  unfolding move_block
  move_block-Moved fuel t m size lt at wider a =
      let n : ℕ = align size in
      let q : Ptr = a.block_at in
      let ne = Allocated-ne_null is a in
      let (kept, apart) = allocate-live n s.heap q t m a.size bs a.first ne a.holds at in
      let kept' : At t (block m false) a.after.heap (allocate n bs) = rw a.heap kept in
      let (header, low, high) =
        At-header a.after.headers (a.after.heap + heap_size) a.after.heap t (block m false)
          (allocate n bs) a.is_heap.tiles kept' in
      let back : block_of (t + header_size) ≡ t = omega (arith, a.is_heap.in_range) in
      let m' : Memory = (memcpy (q + header_size) (t + header_size) m a.after.bytes).1 in
      let (ret, copied) =
        memcpy_lem (q + header_size) (t + header_size) m a.after.bytes
          (omega (arith, apart, a.fits, wider)) in
      let (s', freed, is', kept_bytes) =
        free_lem (IsHeap-bytes a.after (allocate n bs) m' a.is_heap) fuel t m lt kept' in
      let object : (q + header_size == null) ≡ false = ground arith in
      let asked : (a.after.headers t).size ≡ m = rw header refl in
      record {
        block_at = q;
        size = a.size;
        after = s';
        returns = rw (a.returns, object, back, asked, freed) refl;
        is_heap = subst (λ p. IsHeap s' (coalesce (release t p (allocate n bs)))) a.heap is';
        holds = release-live s.heap t q a.size (allocate n bs) (omega (arith, apart)) a.holds;
        fits = a.fits;
        content = λ i lt'.
            copied_byte a.after.bytes m' s'.bytes (q + header_size) (t + header_size) m i lt'
              kept_bytes copied
            ∙ ap (λ (b : Memory). b (t + header_size + i)) a.bytes;
      }

  -- `realloc` of a block in use to a size that is larger (and that does not wrap round when it is
  -- rounded up): either no free block is large enough, the result is null and nothing is changed,
  -- or the result is a block in use, large enough, that begins with the old block's bytes, and the
  -- heap stands for the blocks with that one put to use and the old one free.
  pub realloc_grows :
      (fuel t m size : ℕ)
      → enough < fuel
      → At t (block m false) s.heap bs
      → m < size
      → size + 7 < 2 ^ 32
      → (NoFit (align size) bs × (realloc fuel (t + header_size) size s ≡ some (null, s)))
        ⊎ Moved t m (align size) (realloc fuel (t + header_size) size s)
  unfolding realloc
  realloc_grows fuel t m size lt at wider fits =
      let (header, low, high) =
        At-header s.headers (s.heap + heap_size) s.heap t (block m false) bs is.tiles at in
      let back : block_of (t + header_size) ≡ t = omega (arith, is.in_range) in
      let object : (t + header_size == null) ≡ false = ground arith in
      let asked : (size == 0) ≡ false = ground arith in
      let small : leb size m ≡ false = ground arith in
      let rounded : m ≤ align size = omega (arith, align_lem size fits) in
      rw (object, asked, back, header, small)
        (elim (malloc_lem is fuel size lt (omega arith) fits) [
          | inl (none_fits, failed) ↦
              inl (none_fits, move_block-null fuel (t + header_size) size s failed)
          | inr a ↦ inr (move_block-Moved fuel t m size lt at rounded a)
        ])

  -- `realloc` of a block in use to a size, not 0, that the block already has room for returns the pointer unchanged.
  pub realloc_fits :
      (fuel t m size : ℕ)
      → At t (block m false) s.heap bs
      → 0 < size
      → size ≤ m
      → realloc fuel (t + header_size) size s ≡ some (t + header_size, s)
  unfolding realloc
  realloc_fits fuel t m size at pos le =
      let (header, low, high) =
        At-header s.headers (s.heap + heap_size) s.heap t (block m false) bs is.tiles at in
      let back : block_of (t + header_size) ≡ t = omega (arith, is.in_range) in
      let object : (t + header_size == null) ≡ false = ground arith in
      let asked : (size == 0) ≡ false = ground arith in
      let fits : leb size m ≡ true = ground arith in rw (object, asked, back, header, fits) refl

  -- `calloc` of a product that is not zero and does not wrap round gives null only if no free
  -- block is large enough, and else a block of zeros, large enough, that is put to use.
  pub calloc_lem :
      (fuel nmemb size : ℕ)
      → enough < fuel
      → 0 < nmemb * size
      → nmemb * size + 7 < 2 ^ 32
      → (NoFit (align (nmemb * size)) bs × (calloc fuel nmemb size s ≡ some (null, s)))
        ⊎ ((q : Ptr) × (c : ℕ) × (s' : State) × (calloc fuel nmemb size s
              ≡ some (q + header_size, s'))
            × IsHeap s' (allocate (align (nmemb * size)) bs)
            × At q (block c false) s.heap (allocate (align (nmemb * size)) bs)
            × (nmemb * size ≤ c)
            × ((i : ℕ) → i < nmemb * size → s'.bytes (q + header_size + i) ≡ 0))
  unfolding calloc
  calloc_lem fuel nmemb size lt pos fits =
      let n : ℕ = nmemb * size in
      let product : word (nmemb * size) ≡ nmemb * size = omega arith in
      rw product (elim (malloc_lem is fuel n lt pos fits) [
        | inl (none_fits, failed) ↦ inl (none_fits, rw failed refl)
        | inr a ↦
            let q : Ptr = a.block_at + header_size in
            let object : (q == null) ≡ false = ground arith in
            let (ret, zeros) = memset_lem q 0 n a.after.bytes in
            let filled : State = record (a.after) { bytes = (memset q 0 n a.after.bytes).1 } in
            inr (
              a.block_at,
              a.size,
              filled,
              rw (a.returns, object) refl,
              IsHeap-bytes a.after (allocate (align n) bs) filled.bytes a.is_heap,
              a.holds,
              omega (arith, a.fits, align_lem n fits),
              λ i below. ground (arith, zeros (q + i)),
            )
      ])
