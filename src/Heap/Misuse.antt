-- ===== src/Heap/Misuse.antt =====
-- Calls of kernel/memory.c outside its contract: sizes that wrap round, and a second `free`.
use alpha_os.Prelude.{ℕ, ◌+◌, ◌^◌, ◌≤◌, ◌<◌, ◌≡◌, ◌≢◌, refl, true, false, some, List, arith, ◌==◌}
use alpha_os.Bytes.{Ptr, null}
use alpha_os.Heap.{State, Headers, put, heap_size, header_size, word, align, malloc, free, block_of}
use alpha_os.Heap.Blocks.{Block, block, first_fit, allocate, coalesce, At}
use alpha_os.Heap.Tiles.{Tiles, IsHeap, At-header, header_of, Tiles-frame}
use alpha_os.Heap.Merge.{merge_lem}
use alpha_os.Heap.Release.{coalesce-used}
use alpha_os.Heap.Laws.{enough, length-le, free_step, find_free_block_lem, take_block-Allocated}

-- The seven largest sizes wrap round to a block of no bytes.
align-wraps : (size : ℕ) → 2 ^ 32 ≤ size + 7 → size < 2 ^ 32 → align size ≡ 0
unfolding align
align-wraps size lo hi = omega arith

-- `malloc` of one of the seven largest 32-bit sizes succeeds wherever the heap has a free block at
-- all: the pointer is not null, and the block is smaller than what was asked for.
pub malloc_wraps :
    (s : State) (bs : List Block) (fuel size : ℕ)
    → IsHeap s bs
    → enough < fuel
    → 2 ^ 32 ≤ size + 7
    → size < 2 ^ 32
    → first_fit 0 s.heap bs ≢ null
    → (t : Ptr) × (c : ℕ) × (s' : State) × (malloc fuel size s ≡ some (t + header_size, s'))
      × At t (block c false) s'.heap (allocate 0 bs)
      × (c < size)
unfolding malloc
malloc_wraps s bs fuel size is lt lo hi ne =
    let zero_size = align-wraps size lo hi in
    let found = find_free_block_lem is fuel 0 lt in
    let asked : (size == 0) ≡ false = ground arith in
    let got : (first_fit 0 s.heap bs == null) ≡ false = ground arith in
    let a = take_block-Allocated is 0 refl ne in
    let place =
      At-header a.after.headers (a.after.heap + heap_size) a.after.heap a.block_at
        (block a.size false) (allocate 0 bs) a.is_heap.tiles (rw a.heap a.holds) in
    (
      a.block_at,
      a.size,
      a.after,
      rw (asked, zero_size, found, got) a.returns,
      rw a.heap a.holds,
      omega (arith, place, a.is_heap.in_range),
    )

put_self :
    (h : Headers) (t : Ptr) {c : ℕ} {next : Ptr}
    → h t ≡ header_of (block c true) next
    → (a : Ptr) → put h t (record (h t) { is_free = 1 }) a ≡ h a
unfolding put
put_self h t e a = ground arith

-- `free` of a block that is free already (and not empty) passes the check on its header and adds
-- the size to `free_memory` once more, so that the counter no longer agrees with the blocks.
pub free_twice :
    (s : State) (bs : List Block) (fuel t c : ℕ)
    → IsHeap s bs
    → enough < fuel
    → 0 < c
    → At t (block c true) s.heap bs
    → (s' : State) × (free fuel (t + header_size) s ≡ some s')
      × (s'.free_memory ≡ s.free_memory + c)
      × Tiles s'.headers (s.heap + heap_size) s.heap (coalesce bs)
      × ¬ IsHeap s' (coalesce bs)
free_twice s bs fuel t c is lt pos at =
    let lim : Ptr = s.heap + heap_size in
    let (header, low, high) = At-header s.headers lim s.heap t (block c true) bs is.tiles at in
    let back : block_of (t + header_size) ≡ t = omega (arith, is.in_range) in
    let small : word (s.free_memory + c) ≡ s.free_memory + c = omega (arith, is.accounted) in
    let h : Headers = put s.headers t (record (s.headers t) { is_free = 1 }) in
    let tiles =
      Tiles-frame s.headers h lim s.heap bs (λ a le. put_self s.headers t header a) is.tiles in
    let merged =
      merge_lem lim is.in_range bs h s.heap fuel tiles is.ne_null (omega arith)
        (omega (arith, length-le is)) in
    (
      record s { headers = merged.headers; free_memory = s.free_memory + c },
      free_step is fuel t c merged.headers back (rw header refl) (rw header refl) small
          merged.returns,
      refl,
      merged.tiles,
      λ bad. omega (arith, bad.accounted, is.accounted, coalesce-used bs),
    )
