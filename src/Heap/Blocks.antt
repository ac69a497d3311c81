-- ===== src/Heap/Blocks.antt =====
-- The abstract heap: the blocks in address order, and what the operations of kernel/memory.c do to
-- that list.
use alpha_os.Prelude.{
  ℕ, ◌≡◌, ◌+◌, ◌-◌, Bool, true, false, ◌&&◌, List, [], ◌∷◌, ltb, leb, ◌==◌, if◌then◌else◌,
}
use alpha_os.Bytes.{Ptr, null}
use alpha_os.Heap.{header_size}

pub record Block : Type 0 where
  pub size : ℕ
  pub is_free : Bool

abbrev pub block : ℕ → Bool → Block
block n b = record { size = n; is_free = b }

-- The address behind a block that starts at `p`.
abbrev pub behind : Ptr → Block → Ptr
behind p b = p + header_size + b.size

-- The address of the first free block of at least `size` bytes, where the blocks start at `p`.
unfoldable pub first_fit : ℕ → Ptr → List Block → Ptr
first_fit size p [] = null
first_fit size p (b ∷ bs) =
    if b.is_free && leb size b.size then p else first_fit size (behind p b) bs

-- A block put to use for `size` bytes: cut where more than 16 bytes would be left over.
abbrev pub cut : ℕ → Block → List Block → List Block
cut size b bs =
    if ltb (size + header_size + 16) b.size
    then block size false ∷ block (b.size - size - header_size) true ∷ bs
    else block b.size false ∷ bs

unfoldable pub allocate : ℕ → List Block → List Block
allocate size [] = []
allocate size (b ∷ bs) =
    if b.is_free && leb size b.size then cut size b bs else b ∷ allocate size bs

-- The block at the address `t` becomes free.
unfoldable pub release : Ptr → Ptr → List Block → List Block
release t p [] = []
release t p (b ∷ bs) = if t == p then block b.size true ∷ bs else b ∷ release t (behind p b) bs

-- Neighbours that are free become one block, from the front on.
unfoldable pub join : Block → List Block → List Block
join b [] = b ∷ []
join b (c ∷ bs) =
    if b.is_free && c.is_free
    then join (block (b.size + header_size + c.size) true) bs
    else b ∷ join c bs

unfoldable pub coalesce : List Block → List Block
unfolding join
coalesce [] = []
coalesce (b ∷ bs) = join b bs

-- The bytes of the blocks in use.
unfoldable pub used : List Block → ℕ
used [] = 0
used (b ∷ bs) = (if b.is_free then 0 else b.size) + used bs

-- The block at the address `t` is `c`, where the blocks start at `p`.
abbrev pub At : Ptr → Block → Ptr → List Block → Type 0
At t c p [] = ⊥
At t c p (b ∷ bs) = if t == p then b ≡ c else At t c (behind p b) bs
