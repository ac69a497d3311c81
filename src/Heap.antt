-- ===== src/Heap.antt =====
-- The kernel-mode allocator of kernel/memory.c with include/kernel/memory.h.
-- The block headers are kept apart from the bytes of the blocks: `headers` gives the header that
-- stands at an address (whatever lies there, also where no header was ever written), `bytes` the
-- byte memory. Words have 32 bits: `size_t` is `uint32_t`, and a header takes 16 bytes. A walk
-- along the `next` pointers takes fuel, and `none` says that it did not end within it.
pub mod Blocks
pub mod Tiles
pub mod Find
pub mod Carve
pub mod Merge
pub mod Release
pub mod Laws
pub mod Supply
pub mod Live
pub mod Undo
pub mod Realloc
pub mod Misuse
pub mod Tests
use alpha_os.Prelude.{
  ℕ, zero, suc, ◌+◌, ◌-◌, ◌*◌, ◌%◌, ◌^◌, Bool, true, false, ◌&&◌, ◌||◌, not, Option, none, some,
  ltb, leb, ◌==◌, if◌then◌else◌,
}
use alpha_os.Bytes.{Ptr, null, Memory, memcpy, memset}
use alpha_os.CString.{◌>>=◌}

abbrev pub heap_size : ℕ
heap_size = 1024 * 1024

abbrev pub block_magic : ℕ
block_magic = 0x1234abcd

-- `sizeof(block_header_t)`
abbrev pub header_size : ℕ
header_size = 16

-- Reduction to a `uint32_t`.
abbrev pub word : ℕ → ℕ
word n = n % 2 ^ 32

-- `block_header_t`
pub record Header : Type 0 where
  pub magic : ℕ
  pub size : ℕ
  pub is_free : ℕ
  pub next : Ptr

abbrev pub Headers : Type 0
Headers = Ptr → Header

-- The static variables; `heap` is the address of the array, which never changes.
pub record State : Type 0 where
  pub heap : Ptr
  pub headers : Headers
  pub bytes : Memory
  pub heap_start : Ptr
  pub total_memory : ℕ
  pub free_memory : ℕ

unfoldable pub put : Headers → Ptr → Header → Headers
put h p x a = if a == p then x else h a

unfoldable pub memory_init : State → State
unfolding put
memory_init s =
    let first : Header = record {
      magic = block_magic;
      size = heap_size - header_size;
      is_free = 1;
      next = null;
    } in
    record s {
      headers = put s.headers s.heap first;
      heap_start = s.heap;
      free_memory = heap_size - header_size;
    }

pub find_loop : (fuel size : ℕ) (current : Ptr) → Headers → Option Ptr
find_loop zero size current h = none
find_loop (suc f) size current h =
    let rest = find_loop f size (h current).next h in
    if current == null
    then some null
    else if not ((h current).magic == block_magic)
    then some null
    else if not ((h current).is_free == 0) && leb size (h current).size
    then some current
    else rest

pub find_free_block : (fuel size : ℕ) → State → Option Ptr
unfolding find_loop
find_free_block fuel size s = find_loop fuel size s.heap_start s.headers

pub split_block : (block : Ptr) (size : ℕ) → Headers → Headers
unfolding put
split_block block size h =
    let b : Header = h block in
    if ltb (word (size + header_size + 16)) b.size
    then (let new_block : Ptr = word (block + header_size + size) in
        let rest : Header = record {
          magic = block_magic;
          size = word (b.size + 2 ^ 33 - size - header_size);
          is_free = 1;
          next = b.next;
        } in
        put (put h new_block rest) block (record b { size = size; next = new_block }))
    else h

-- `while (current && current->next) ...`, with the early return on a corrupted header.
pub merge_loop : (fuel : ℕ) (current : Ptr) → Headers → Option Headers
merge_loop zero current h = none
merge_loop (suc f) current h =
    let b : Header = h current in
    let n : Header = h b.next in
    let merged : Header = record b { size = word (b.size + header_size + n.size); next = n.next } in
    let stay = merge_loop f current (put h current merged) in
    let go_on = merge_loop f b.next h in
    if current == null || b.next == null
    then some h
    else if not (b.magic == block_magic) || not (n.magic == block_magic)
    then some h
    else if not (b.is_free == 0) && not (n.is_free == 0)
    then stay
    else go_on

merge_free_blocks : (fuel : ℕ) → State → Option State
unfolding merge_loop
merge_free_blocks fuel s = do
  h ← merge_loop fuel s.heap_start s.headers
  some (record s { headers = h })

-- `(size + 7) & ~7`
unfoldable pub align : ℕ → ℕ
align size = word (size + 7) - word (size + 7) % 8

-- From `split_block` on: the block is cut, marked as used, and paid for.
pub take_block : (block : Ptr) (size : ℕ) → State → Ptr × State
unfolding split_block put
take_block block size s =
    let h : Headers = split_block block size s.headers in
    let b : Header = h block in
    (
      word (block + header_size),
      record s {
        headers = put h block (record b { is_free = 0 });
        free_memory = word (s.free_memory + 2 ^ 32 - b.size);
      },
    )

unfoldable pub malloc : (fuel size : ℕ) → State → Option (Ptr × State)
unfolding find_free_block take_block align
malloc fuel size s =
    if size == 0
    then some (null, s)
    else (find_free_block fuel (align size) s >>= λ block.
        if block == null then some (null, s) else some (take_block block (align size) s))

-- The header in front of the bytes at `ptr`.
abbrev pub block_of : Ptr → Ptr
block_of ptr = word (ptr + 2 ^ 32 - header_size)

unfoldable pub free : (fuel : ℕ) (ptr : Ptr) → State → Option State
unfolding merge_free_blocks put
free fuel ptr s =
    let block : Ptr = block_of ptr in
    let b : Header = s.headers block in
    if ptr == null
    then some s
    else if not (b.magic == block_magic)
    then some s
    else merge_free_blocks fuel (record s {
      headers = put s.headers block (record b { is_free = 1 });
      free_memory = word (s.free_memory + b.size);
    })

-- `realloc` from the `malloc` of a new block on; `block->size` is read again after it.
unfoldable pub move_block : (fuel : ℕ) (ptr : Ptr) (size : ℕ) → State → Option (Ptr × State)
move_block fuel ptr size s = do
  (new_ptr, s') ← malloc fuel size s
  if new_ptr == null
      then some (null, s')
      else (free fuel ptr
            (record s' { bytes = (memcpy new_ptr ptr (s'.headers (block_of ptr)).size s'.bytes).1 })
          >>= λ s''. some (new_ptr, s''))

unfoldable pub realloc : (fuel : ℕ) (ptr : Ptr) (size : ℕ) → State → Option (Ptr × State)
realloc fuel ptr size s =
    let b : Header = s.headers (block_of ptr) in
    if ptr == null
    then malloc fuel size s
    else if size == 0
    then (free fuel ptr s >>= λ s'. some (null, s'))
    else if not (b.magic == block_magic)
    then some (null, s)
    else if leb size b.size
    then some (ptr, s)
    else move_block fuel ptr size s

unfoldable pub calloc : (fuel nmemb size : ℕ) → State → Option (Ptr × State)
calloc fuel nmemb size s = do
  let total_size = word (nmemb * size)
  (ptr, s') ← malloc fuel total_size s
  if ptr == null
      then some (ptr, s')
      else some (ptr, record s' { bytes = (memset ptr 0 total_size s'.bytes).1 })

-- The pointers that are not null receive the total, the used and the free memory.
unfoldable pub memory_get_stats : State → ℕ × ℕ × ℕ
memory_get_stats s = (s.total_memory, word (s.total_memory + 2 ^ 32 - s.free_memory), s.free_memory)

pub integrity_loop : (fuel : ℕ) (current : Ptr) → Headers → Option Bool
integrity_loop zero current h = none
integrity_loop (suc f) current h =
    let rest = integrity_loop f (h current).next h in
    if current == null
    then some true
    else if not ((h current).magic == block_magic)
    then some false
    else rest

unfoldable pub memory_check_integrity : (fuel : ℕ) → State → Option Bool
unfolding integrity_loop
memory_check_integrity fuel s = integrity_loop fuel s.heap_start s.headers
