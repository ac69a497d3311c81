-- ===== src/Heap/Carve.antt =====
-- `split_block` and the marking of a block in `malloc` (kernel/memory.c), on the list of blocks.
use alpha_os.Prelude.{
  ℕ, ◌+◌, ◌-◌, ◌%◌, ◌^◌, ◌≤◌, ◌<◌, ◌≡◌, ◌≢◌, refl, inl, inr, true, false, ◌&&◌, List, [], ◌∷◌,
  arith, ltb, leb, Bool-cases,
}
use mathlib.Core.Path.{sym}
use alpha_os.Bytes.{Ptr, null}
use alpha_os.Heap.{Headers, put, split_block, header_size, word}
use alpha_os.Heap.Blocks.{Block, block, behind, first_fit, cut, allocate, used, At}
use alpha_os.Heap.Tiles.{link, header_of, Tiles, AllAligned, le_of_Tiles, Tiles-frame}

-- The headers once the block at `t` is cut to `n` bytes and marked as used.
abbrev pub carve : Ptr → ℕ → Headers → Headers
carve t n h = put (split_block t n h) t (record (split_block t n h t) { is_free = 0 })

module _ (h : Headers) (limit n : ℕ) where
  -- What a found block leaves room for.
  pub first_fit-le :
      (p : Ptr) (bs : List Block)
      → Tiles h limit p bs
      → first_fit n p bs ≢ null
      → n + p + header_size ≤ limit
  unfolding first_fit
  first_fit-le p [] tiles ne = absurd (ne refl)
  first_fit-le p (b ∷ bs) tiles ne =
      let end = le_of_Tiles h limit (behind p b) bs tiles.1 in
      elim (Bool-cases (b.is_free && leb n b.size)) [
        | inl fits ↦ ground arith
        | inr misses ↦ omega (arith, first_fit-le (behind p b) bs tiles.1 (rw misses at ne))
      ]

-- What carving does to a list of blocks, of which `c` is the one put to use.
pub record Carved (h h' : Headers) (limit p t n : ℕ) (bs bs' : List Block) : Type 0 where
  pub tiles : Tiles h' limit p bs'
  pub aligned : AllAligned bs'
  pub paid : used bs' ≡ used bs + (h' t).size
  pub before : (a : Ptr) → a < p → h' a ≡ h a
  pub enough : n ≤ (h' t).size
  pub at : At t (block (h' t).size false) p bs'
  pub inside : (p ≤ t) × (t + header_size + (h' t).size ≤ limit)

module _ (h : Headers) (limit n : ℕ) (small : n + 32 < 2 ^ 32) (in_range : limit < 2 ^ 32)
    (aligned_n : n % 8 ≡ 0) where
  split_block-cut :
      (p : Ptr) (b : Block) (next : Ptr)
      → h p ≡ header_of b next
      → behind p b < 2 ^ 32
      → ltb (n + header_size + 16) b.size ≡ true
      → split_block p n h
        ≡ put
            (put h (p + header_size + n) (header_of (block (b.size - n - header_size) true) next))
            p
            (header_of (block n b.is_free) (p + header_size + n))
  unfolding split_block
  split_block-cut p b next e fits wide =
      let room : n + header_size + 16 < b.size = ground arith in
      let sum : word (n + header_size + 16) ≡ n + header_size + 16 = omega arith in
      let new : word (p + header_size + n) ≡ p + header_size + n = omega arith in
      let left : word (b.size + 2 ^ 33 - n - header_size) ≡ b.size - n - header_size =
        omega arith in
      rw (e, sum, new, left, wide) refl

  split_block-whole :
      (p : Ptr) (b : Block) (next : Ptr)
      → h p ≡ header_of b next
      → ltb (n + header_size + 16) b.size ≡ false
      → split_block p n h ≡ h
  unfolding split_block
  split_block-whole p b next e narrow =
      let sum : word (n + header_size + 16) ≡ n + header_size + 16 = omega arith in
      rw (e, sum, narrow) refl

  -- The first block is the one that is carved: in two, or as a whole.
  Carved-cut :
      (h' : Headers) (p : Ptr) (b : Block) (bs : List Block)
      → Tiles h limit p (b ∷ bs)
      → AllAligned (b ∷ bs)
      → b.is_free ≡ true
      → n + header_size + 16 < b.size
      → h' p ≡ header_of (block n false) (p + header_size + n)
      → h' (p + header_size + n)
        ≡ header_of (block (b.size - n - header_size) true) (link limit (behind p b))
      → ((a : Ptr) → a ≢ p → a ≢ p + header_size + n → h' a ≡ h a)
      → Carved h h' limit p p n
          (b ∷ bs)
          (block n false ∷ block (b.size - n - header_size) true ∷ bs)
  unfolding used
  Carved-cut h' p b bs (e, t) (ok, oks) was_free room first second others =
      let end = le_of_Tiles h limit (behind p b) bs t in
      let next : p + header_size + n + header_size + (b.size - n - header_size) ≡ behind p b =
        omega arith in
      let tail : Tiles h' limit (behind p b) bs =
        Tiles-frame h h' limit (behind p b) bs (λ a le. others a (omega arith) (omega arith)) t in
      let here : link limit (p + header_size + n) ≡ p + header_size + n = ground arith in
      record {
        tiles = (rw here first, (rw next second, rw next tail));
        aligned = (aligned_n, (omega arith, oks));
        paid = rw (first, was_free) (omega arith);
        before = λ a lt. others a (omega arith) (omega arith);
        enough = rw first (omega arith);
        at = rw first (ground arith);
        inside = rw first (omega arith);
      }

  Carved-whole :
      (h' : Headers) (p : Ptr) (b : Block) (bs : List Block)
      → Tiles h limit p (b ∷ bs)
      → AllAligned (b ∷ bs)
      → b.is_free ≡ true
      → n ≤ b.size
      → h' p ≡ header_of (block b.size false) (link limit (behind p b))
      → ((a : Ptr) → a ≢ p → h' a ≡ h a)
      → Carved h h' limit p p n (b ∷ bs) (block b.size false ∷ bs)
  unfolding used
  Carved-whole h' p b bs (e, t) (ok, oks) was_free fits first others =
      let end = le_of_Tiles h limit (behind p b) bs t in
      record {
        tiles = (first, Tiles-frame h h' limit (behind p b) bs (λ a le. others a (omega arith)) t);
        aligned = (ok, oks);
        paid = rw (first, was_free) (omega arith);
        before = λ a lt. others a (omega arith);
        enough = rw first (omega arith);
        at = rw first (ground arith);
        inside = rw first (omega arith);
      }

  carve-first :
      (p : Ptr) (b : Block) (bs : List Block)
      → Tiles h limit p (b ∷ bs)
      → AllAligned (b ∷ bs)
      → b.is_free ≡ true
      → n ≤ b.size
      → Carved h (carve p n h) limit p p n (b ∷ bs) (cut n b bs)
  unfolding put
  carve-first p b bs tiles ok was_free fits =
      let end = le_of_Tiles h limit (behind p b) bs tiles.1 in
      let on : Ptr = link limit (behind p b) in
      elim (Bool-cases (ltb (n + header_size + 16) b.size)) [
        | inl wide ↦
            rw (wide, split_block-cut p b on tiles.0 (omega arith) wide)
              (Carved-cut _ p b bs tiles ok was_free (ground arith) (ground arith) (ground arith)
                λ a ne ne'. ground arith)
        | inr narrow ↦
            rw (narrow, split_block-whole p b on tiles.0 narrow)
              (Carved-whole _ p b bs tiles ok was_free fits (ground arith) λ a ne. ground arith)
      ]

  Carved-cons :
      (h' : Headers) (p t : Ptr) (b : Block) (bs bs' : List Block)
      → Tiles h limit p (b ∷ bs)
      → AllAligned (b ∷ bs)
      → Carved h h' limit (behind p b) t n bs bs'
      → Carved h h' limit p t n (b ∷ bs) (b ∷ bs')
  unfolding used
  Carved-cons h' p t b bs bs' (e, tiles) (ok, oks) rest = record {
    tiles = (ground (arith, rest.before p), rest.tiles);
    aligned = (ok, rest.aligned);
    paid = omega (arith, rest.paid);
    before = λ a lt. rest.before a (omega arith);
    enough = rest.enough;
    at = ground (arith, rest.at);
    inside = omega (arith, rest.inside);
  }

  -- Carving the first block that fits turns the blocks into `allocate n` of them.
  pub carve_lem :
      (p t : Ptr) (bs : List Block)
      → Tiles h limit p bs
      → AllAligned bs
      → first_fit n p bs ≡ t
      → t ≢ null
      → Carved h (carve t n h) limit p t n bs (allocate n bs)
  unfolding first_fit allocate
  carve_lem p t [] tiles ok found ne = absurd (ne (sym found))
  carve_lem p t (b ∷ bs) tiles ok found ne = elim (Bool-cases (b.is_free && leb n b.size)) [
    | inl fits ↦
        let here : p ≡ t = rw fits at found in
        rw (fits, ← here) (carve-first p b bs tiles ok (ground arith) (ground arith))
    | inr misses ↦ rw misses (
        Carved-cons _ p t b bs _ tiles ok
          (carve_lem (behind p b) t bs tiles.1 ok.1 (rw misses at found) ne))
  ]
