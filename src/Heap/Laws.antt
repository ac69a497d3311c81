-- ===== src/Heap/Laws.antt =====
-- `memory_init`, `malloc` and `free` of kernel/memory.c keep the heap a list of blocks.
use mathlib.Core.Path.{subst}
use native.Mathlib.Decide.{ℕ_discrete}
use alpha_os.Prelude.{
  ℕ, ◌+◌, ◌-◌, ◌/◌, ◌%◌, ◌^◌, ◌≤◌, ◌<◌, ◌≡◌, ◌≢◌, refl, ◌⊎◌, inl, inr, true, false, Option, some,
  List, [], ◌∷◌, arith, ◌==◌, length,
}
use alpha_os.Bytes.{Ptr, null}
use alpha_os.Heap.{
  State, Headers, put, heap_size, header_size, block_magic, word, memory_init, find_loop,
  find_free_block, split_block, take_block, align, malloc, free, block_of, merge_loop,
  merge_free_blocks, memory_check_integrity, integrity_loop,
}
use alpha_os.Heap.Blocks.{Block, block, first_fit, allocate, release, coalesce, used, At}
use alpha_os.Heap.Tiles.{link, IsHeap, length-Tiles, At-header, used-le}
use alpha_os.Heap.Find.{find_loop_lem, integrity_loop_lem}
use alpha_os.Heap.Carve.{carve, carve_lem, first_fit-le}
use alpha_os.Heap.Merge.{merge_lem}
use alpha_os.Heap.Release.{release_lem, coalesce-aligned, coalesce-used, NoFit, first_fit-null}

-- Fuel for every walk: the heap has room for 65536 headers.
abbrev pub enough : ℕ
enough = heap_size / header_size

-- Where the array lies at an address that is not null and ends below 2 ^ 32, and `total_memory` has its
-- initial value, `memory_init` makes the array one free block.
pub memory_init-IsHeap :
    (s : State)
    → 0 < s.heap
    → s.heap + heap_size < 2 ^ 32
    → s.total_memory ≡ heap_size
    → IsHeap (memory_init s) (block (heap_size - header_size) true ∷ [])
unfolding memory_init put used
memory_init-IsHeap s ne range total = record {
  start = refl;
  ne_null = ne;
  in_range = range;
  tiles = (ground arith, omega arith);
  aligned = (refl, tt);
  total = total;
  accounted = refl;
}

-- Rounding up to a multiple of eight, where the sum does not wrap round.
pub align_lem : (n : ℕ) → n + 7 < 2 ^ 32 → (n ≤ align n) × (align n < n + 8) × (align n % 8 ≡ 0)
unfolding align
align_lem n h = omega arith

module _ {s : State} {bs : List Block} (is : IsHeap s bs) where
  limit_link : link (s.heap + heap_size) s.heap ≡ s.heap
  limit_link = ground (arith, is.ne_null)

  pub length-le : length bs ≤ enough
  length-le = omega (arith, length-Tiles s.headers (s.heap + heap_size) s.heap bs is.tiles)

  pub find_free_block_lem :
      (fuel n : ℕ) → enough < fuel → find_free_block fuel n s ≡ some (first_fit n s.heap bs)
  unfolding find_free_block
  find_free_block_lem fuel n lt = rw is.start (
      subst (λ q. find_loop fuel n q s.headers ≡ some (first_fit n s.heap bs)) limit_link
        (find_loop_lem s.headers (s.heap + heap_size) s.heap bs fuel n is.tiles is.ne_null
          (omega (arith, length-le))))

  -- `memory_check_integrity` ends, with more fuel than the heap has room for headers, and accepts the
  -- heap.
  pub memory_check_integrity_lem :
      (fuel : ℕ) → enough < fuel → memory_check_integrity fuel s ≡ some true
  unfolding memory_check_integrity
  memory_check_integrity_lem fuel lt = rw is.start (
      subst (λ q. integrity_loop fuel q s.headers ≡ some true) limit_link
        (integrity_loop_lem s.headers (s.heap + heap_size) s.heap bs fuel is.tiles is.ne_null
          (omega (arith, length-le))))

  -- What a successful `malloc` of `n` bytes, rounded up, returns and leaves.
  pub record Allocated (n : ℕ) (r : Option (Ptr × State)) : Type 0 where
    pub block_at : Ptr
    pub size : ℕ
    pub after : State
    pub returns : r ≡ some (block_at + header_size, after)
    pub first : first_fit n s.heap bs ≡ block_at
    pub is_heap : IsHeap after (allocate n bs)
    pub holds : At block_at (block size false) s.heap (allocate n bs)
    pub fits : n ≤ size
    pub bytes : after.bytes ≡ s.bytes
    pub heap : after.heap ≡ s.heap

  pub take_block-Allocated :
      (n : ℕ)
      → n % 8 ≡ 0
      → first_fit n s.heap bs ≢ null
      → Allocated n (some (take_block (first_fit n s.heap bs) n s))
  unfolding take_block
  take_block-Allocated n aligned ne =
      let lim : Ptr = s.heap + heap_size in
      let t : Ptr = first_fit n s.heap bs in
      let room = first_fit-le s.headers lim n s.heap bs is.tiles ne in
      let c =
        carve_lem s.headers lim n (omega (arith, is.ne_null)) is.in_range aligned s.heap t bs
          is.tiles is.aligned refl ne in
      let h : Headers = split_block t n s.headers in
      let same : (carve t n s.headers t).size ≡ (h t).size = ground arith in
      let ptr : word (t + header_size) ≡ t + header_size = omega (arith, c.inside) in
      let most = used-le (carve t n s.headers) lim s.heap (allocate n bs) c.tiles (omega arith) in
      record {
        block_at = t;
        size = (carve t n s.headers t).size;
        after = (take_block t n s).1;
        returns = rw ptr refl;
        first = refl;
        is_heap = record {
          start = is.start;
          ne_null = is.ne_null;
          in_range = is.in_range;
          tiles = c.tiles;
          aligned = c.aligned;
          total = is.total;
          accounted = omega (arith, c.paid, same, is.accounted, most);
        };
        holds = c.at;
        fits = c.enough;
        bytes = refl;
        heap = refl;
      }

  -- `malloc` of a size that is not zero and does not wrap round when it is rounded up: either no
  -- free block is large enough and the result is null, nothing being changed, or the first block
  -- that is large enough is put to use, cut to size where enough is left over.
  pub malloc_lem :
      (fuel size : ℕ)
      → enough < fuel
      → 0 < size
      → size + 7 < 2 ^ 32
      → (NoFit (align size) bs × (malloc fuel size s ≡ some (null, s)))
        ⊎ Allocated (align size) (malloc fuel size s)
  unfolding malloc
  malloc_lem fuel size lt pos fits =
      let n : ℕ = align size in
      let found = find_free_block_lem fuel n lt in
      let asked : (size == 0) ≡ false = ground arith in
      elim (ℕ_discrete (first_fit n s.heap bs) null) [
        | yes out ↦ inl (first_fit-null n s.heap bs is.ne_null out, rw (asked, found, out) refl)
        | no ne ↦
            let block : (first_fit n s.heap bs == null) ≡ false = ground arith in
            rw (asked, found, block) (inr (take_block-Allocated n (align_lem size fits).2 ne))
      ]

  pub free_step :
      (fuel t size : ℕ) (h' : Headers)
      → block_of (t + header_size) ≡ t
      → ((s.headers t).magic == block_magic) ≡ true
      → (s.headers t).size ≡ size
      → word (s.free_memory + size) ≡ s.free_memory + size
      → merge_loop fuel s.heap (put s.headers t (record (s.headers t) { is_free = 1 })) ≡ some h'
      → free fuel (t + header_size) s
        ≡ some (record s { headers = h'; free_memory = s.free_memory + size })
  unfolding free merge_free_blocks
  free_step fuel t size h' back magic asked sum merged =
      let object : (t + header_size == null) ≡ false = ground arith in
      rw (object, back, magic, is.start, merged, asked, sum) refl

  -- `free` of a block in use ends: the heap stands for the blocks with that one free, merged with
  -- its free neighbours, and no byte of the blocks changes.
  pub free_lem :
      (fuel t size : ℕ)
      → enough < fuel
      → At t (block size false) s.heap bs
      → (s' : State) × (free fuel (t + header_size) s ≡ some s')
        × IsHeap s' (coalesce (release t s.heap bs))
        × (s'.bytes ≡ s.bytes)
  free_lem fuel t size lt at =
      let lim : Ptr = s.heap + heap_size in
      let (header, low, high) =
        At-header s.headers lim s.heap t (block size false) bs is.tiles at in
      let back : block_of (t + header_size) ≡ t = omega (arith, is.in_range) in
      let h : Headers = put s.headers t (record (s.headers t) { is_free = 1 }) in
      let freed = release_lem s.headers lim s.heap t size bs is.tiles is.aligned at in
      let list : List Block = release t s.heap bs in
      let len = length-Tiles h lim s.heap list freed.tiles in
      let merged =
        merge_lem lim is.in_range list h s.heap fuel freed.tiles is.ne_null (omega arith)
          (omega arith) in
      let asked : (s.headers t).size ≡ size = rw header refl in
      let sum : word (s.free_memory + size) ≡ s.free_memory + size =
        omega (arith, is.accounted, freed.paid) in
      let magic : ((s.headers t).magic == block_magic) ≡ true = rw header refl in
      (
        record s { headers = merged.headers; free_memory = s.free_memory + size },
        free_step fuel t size merged.headers back magic asked sum merged.returns,
        record {
          start = is.start;
          ne_null = is.ne_null;
          in_range = is.in_range;
          tiles = merged.tiles;
          aligned = coalesce-aligned list freed.aligned;
          total = is.total;
          accounted = omega (arith, is.accounted, freed.paid, coalesce-used list);
        },
        refl,
      )
