-- ===== src/Heap/Tests.antt =====
-- Runs of the allocator of kernel/memory.c on two heaps: a fresh one, and one with a block in use.
use alpha_os.Prelude.{
  ℕ, ◌+◌, ◌-◌, ◌*◌, ◌≤◌, ◌<◌, ◌≡◌, refl, ◌⊎◌, true, false, some, List, [], ◌∷◌, arith,
}
use alpha_os.Bytes.{Ptr, null}
use alpha_os.Heap.{
  State, Header, put, heap_size, header_size, align, memory_init, malloc, free, realloc, calloc,
  memory_check_integrity,
}
use alpha_os.Heap.Blocks.{Block, block, first_fit, allocate, release, coalesce, used, At}
use alpha_os.Heap.Tiles.{IsHeap, header_of, Tiles}
use alpha_os.Heap.Release.{NoFit}
use alpha_os.Heap.Laws.{
  memory_init-IsHeap, memory_check_integrity_lem, Allocated, malloc_lem, free_lem,
}
use alpha_os.Heap.Realloc.{free-malloc_restores, Moved, realloc_grows, realloc_fits, calloc_lem}
use alpha_os.Heap.Misuse.{malloc_wraps, free_twice}

-- A walk may take this many steps.
abbrev fuel_used : ℕ
fuel_used = 65537

abbrev no_header : Header
no_header = record { magic = 0; size = 0; is_free = 0; next = 0 }

abbrev before_start : State
before_start = record {
  heap = 4096;
  headers = λ a. no_header;
  bytes = λ a. 0;
  heap_start = 0;
  total_memory = heap_size;
  free_memory = 0;
}

-- 64 bytes in use, and the rest free.
abbrev two_blocks : List Block
two_blocks = block 64 false ∷ block 1048480 true ∷ []

abbrev running : State
running = record {
  heap = 4096;
  headers =
      put (put (λ a. no_header) 4096 (header_of (block 64 false) 4176)) 4176
        (header_of (block 1048480 true) 0);
  bytes = λ a. 7;
  heap_start = 4096;
  total_memory = heap_size;
  free_memory = 1048496;
}

running-IsHeap : IsHeap running two_blocks
unfolding put used
running-IsHeap = record {
  start = refl;
  ne_null = omega arith;
  in_range = omega arith;
  tiles = (refl, (refl, refl));
  aligned = (refl, (refl, tt));
  total = refl;
  accounted = refl;
}

memory_init-IsHeap_example :
    IsHeap (memory_init before_start) (block (heap_size - header_size) true ∷ [])
memory_init-IsHeap_example = memory_init-IsHeap before_start (omega arith) (omega arith) refl

memory_check_integrity_example : memory_check_integrity fuel_used running ≡ some true
memory_check_integrity_example = memory_check_integrity_lem running-IsHeap fuel_used (omega arith)

malloc_example :
    (NoFit (align 100) two_blocks × (malloc fuel_used 100 running ≡ some (null, running)))
    ⊎ Allocated running-IsHeap (align 100) (malloc fuel_used 100 running)
malloc_example = malloc_lem running-IsHeap fuel_used 100 (omega arith) (omega arith) (omega arith)

free_example :
    (s' : State) × (free fuel_used (4096 + header_size) running ≡ some s')
    × IsHeap s' (coalesce (release 4096 4096 two_blocks))
    × (s'.bytes ≡ running.bytes)
free_example = free_lem running-IsHeap fuel_used 4096 64 (omega arith) refl

free-malloc_example :
    (ptr : Ptr) × (s1 : State) × (s2 : State) × (malloc fuel_used 100 running ≡ some (ptr, s1))
    × (free fuel_used ptr s1 ≡ some s2)
    × IsHeap s2 two_blocks
    × (s2.free_memory ≡ running.free_memory)
unfolding first_fit align
free-malloc_example =
    free-malloc_restores running-IsHeap fuel_used 100 (omega arith) (omega arith) (omega arith)
      (λ e. omega arith) (refl, tt)

realloc_grows_example :
    (NoFit (align 200) two_blocks
      × (realloc fuel_used (4096 + header_size) 200 running ≡ some (null, running)))
    ⊎ Moved running-IsHeap 4096 64 (align 200) (realloc fuel_used (4096 + header_size) 200 running)
realloc_grows_example =
    realloc_grows running-IsHeap fuel_used 4096 64 200 (omega arith) refl (omega arith)
      (omega arith)

realloc_fits_example :
    realloc fuel_used (4096 + header_size) 40 running ≡ some (4096 + header_size, running)
realloc_fits_example =
    realloc_fits running-IsHeap fuel_used 4096 64 40 refl (omega arith) (omega arith)

calloc_example :
    (NoFit (align (5 * 8)) two_blocks × (calloc fuel_used 5 8 running ≡ some (null, running)))
    ⊎ ((q : Ptr) × (c : ℕ) × (s' : State) × (calloc fuel_used 5 8 running
          ≡ some (q + header_size, s'))
        × IsHeap s' (allocate (align (5 * 8)) two_blocks)
        × At q (block c false) 4096 (allocate (align (5 * 8)) two_blocks)
        × (5 * 8 ≤ c)
        × ((i : ℕ) → i < 5 * 8 → s'.bytes (q + header_size + i) ≡ 0))
calloc_example = calloc_lem running-IsHeap fuel_used 5 8 (omega arith) (omega arith) (omega arith)

malloc_wraps_example :
    (t : Ptr) × (c : ℕ) × (s' : State) × (malloc fuel_used 4294967295 running
      ≡ some (t + header_size, s'))
    × At t (block c false) s'.heap (allocate 0 two_blocks)
    × (c < 4294967295)
unfolding first_fit
malloc_wraps_example =
    malloc_wraps running two_blocks fuel_used 4294967295 running-IsHeap (omega arith) (omega arith)
      (omega arith) (λ e. omega arith)

free_twice_example :
    (s' : State) × (free fuel_used (4176 + header_size) running ≡ some s')
    × (s'.free_memory ≡ running.free_memory + 1048480)
    × Tiles s'.headers (running.heap + heap_size) running.heap (coalesce two_blocks)
    × ¬ IsHeap s' (coalesce two_blocks)
free_twice_example =
    free_twice running two_blocks fuel_used 4176 1048480 running-IsHeap (omega arith) (omega arith)
      refl
