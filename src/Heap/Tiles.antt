-- ===== src/Heap/Tiles.antt =====
-- When the headers of kernel/memory.c stand for a list of blocks.
use alpha_os.Prelude.{
  ℕ, ◌+◌, ◌*◌, ◌%◌, ◌^◌, ◌≤◌, ◌<◌, ◌≡◌, Bool, true, false, List, [], ◌∷◌, arith, ◌==◌, Bool-cases,
  inl, inr, if◌then◌else◌, length,
}
use alpha_os.Bytes.{Ptr, null}
use alpha_os.Heap.{State, Header, Headers, heap_size, header_size, block_magic}
use alpha_os.Heap.Blocks.{Block, behind, used, At}

-- The pointer to the block at `p`, or null where the heap ends.
abbrev pub link : Ptr → Ptr → Ptr
link limit p = if p == limit then null else p

abbrev pub flag : Bool → ℕ
flag true = 1
flag false = 0

abbrev pub header_of : Block → Ptr → Header
header_of b next = record {
  magic = block_magic;
  size = b.size;
  is_free = flag b.is_free;
  next = next;
}

-- From `p` to `limit` the blocks lie end to end, each with its header and linked to the next.
abbrev pub Tiles : Headers → Ptr → Ptr → List Block → Type 0
Tiles h limit p [] = p ≡ limit
Tiles h limit p (b ∷ bs) =
    (h p ≡ header_of b (link limit (behind p b))) × Tiles h limit (behind p b) bs

-- The sizes are multiples of eight.
abbrev pub AllAligned : List Block → Type 0
AllAligned [] = Unit {0}
AllAligned (b ∷ bs) = (b.size % 8 ≡ 0) × AllAligned bs

-- A state of the allocator that stands for the blocks `bs`. The last field is what
-- `free_memory` counts: the blocks in use and one header are taken off, the other headers are not.
pub record IsHeap (s : State) (bs : List Block) : Type 0 where
  pub start : s.heap_start ≡ s.heap
  pub ne_null : 0 < s.heap
  pub in_range : s.heap + heap_size < 2 ^ 32
  pub tiles : Tiles s.headers (s.heap + heap_size) s.heap bs
  pub aligned : AllAligned bs
  pub total : s.total_memory ≡ heap_size
  pub accounted : s.free_memory + used bs + header_size ≡ heap_size

pub le_of_Tiles : (h : Headers) (limit p : Ptr) (bs : List Block) → Tiles h limit p bs → p ≤ limit
le_of_Tiles h limit p [] t = omega arith
le_of_Tiles h limit p (b ∷ bs) t = omega (arith, le_of_Tiles h limit (behind p b) bs t.1)

-- Every block takes a header: the fuel for a walk along the list is bounded by the heap's size.
pub length-Tiles :
    (h : Headers) (limit p : Ptr) (bs : List Block)
    → Tiles h limit p bs
    → p + header_size * length bs ≤ limit
length-Tiles h limit p [] t = omega arith
length-Tiles h limit p (b ∷ bs) t = omega (arith, length-Tiles h limit (behind p b) bs t.1)

-- Blocks stay what they are when only headers in front of them change.
pub Tiles-frame :
    (h h' : Headers) (limit p : Ptr) (bs : List Block)
    → ((a : Ptr) → p ≤ a → h' a ≡ h a)
    → Tiles h limit p bs
    → Tiles h' limit p bs
Tiles-frame h h' limit p [] same t = t
Tiles-frame h h' limit p (b ∷ bs) same t = (
  ground (arith, same p),
  Tiles-frame h h' limit (behind p b) bs (λ a le. same a (omega arith)) t.1,
)

-- The header of the block at an address, and where the block lies.
pub At-header :
    (h : Headers) (limit p t : Ptr) (c : Block) (bs : List Block)
    → Tiles h limit p bs
    → At t c p bs
    → (h t ≡ header_of c (link limit (behind t c))) × (p ≤ t) × (behind t c ≤ limit)
At-header h limit p t c [] tiles at = absurd at
At-header h limit p t c (b ∷ bs) tiles at = elim (Bool-cases (t == p)) [
  | inl here ↦
      let same : b ≡ c = rw here at at in ground (arith, le_of_Tiles h limit (behind p b) bs)
  | inr there ↦
      let (found, low, high) = At-header h limit (behind p b) t c bs tiles.1 (rw there at at) in
      (found, omega arith, high)
]

used-Tiles :
    (h : Headers) (limit p : Ptr) (bs : List Block) → Tiles h limit p bs → p + used bs ≤ limit
unfolding used
used-Tiles h limit p [] t = omega arith
used-Tiles h limit p (b ∷ bs) t = ground (arith, used-Tiles h limit (behind p b) bs t.1)

-- The blocks in use and one header fit into the heap.
pub used-le :
    (h : Headers) (limit p : Ptr) (bs : List Block)
    → Tiles h limit p bs
    → p < limit
    → p + header_size + used bs ≤ limit
unfolding used
used-le h limit p [] t lt = absurd (omega arith)
used-le h limit p (b ∷ bs) t lt = ground (arith, used-Tiles h limit (behind p b) bs t.1)
