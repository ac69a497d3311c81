-- ===== src/Heap/Supply.antt =====
-- Where `malloc` of kernel/memory.c succeeds: as long as the last block is free and large.
use alpha_os.Prelude.{
  ℕ, ◌+◌, ◌-◌, ◌^◌, ◌≤◌, ◌<◌, ◌≡◌, inl, inr, true, ◌&&◌, List, [], ◌∷◌, arith, Bool-cases,
  if◌then◌else◌, ltb, leb,
}
use alpha_os.Heap.{State, header_size, align, malloc}
use alpha_os.Heap.Blocks.{Block, allocate}
use alpha_os.Heap.Tiles.{IsHeap}
use alpha_os.Heap.Release.{NoFit}
use alpha_os.Heap.Laws.{enough, align_lem, Allocated, malloc_lem}

-- The bytes of the last block, if it is free; `behind` is for a list without blocks.
abbrev room_from : (behind : ℕ) → List Block → ℕ
room_from behind [] = behind
room_from behind (b ∷ bs) = room_from (if b.is_free then b.size else 0) bs

abbrev pub room : List Block → ℕ
room bs = room_from 0 bs

room_from_mono : (a c d : ℕ) (bs : List Block) → a ≤ c + d → room_from a bs ≤ room_from c bs + d
room_from_mono a c d [] h = h
room_from_mono a c d (b ∷ bs) h = omega arith

room_from-allocate :
    (n a : ℕ) (bs : List Block) → room_from a bs ≤ room_from a (allocate n bs) + (n + 32)
unfolding allocate
room_from-allocate n a [] = omega arith
room_from-allocate n a (b ∷ bs) = elim (Bool-cases (b.is_free && leb n b.size)) [
  | inl fits ↦
      let free : b.is_free ≡ true = ground arith in
      rw (fits, free)
        (elim (Bool-cases (ltb (n + header_size + 16) b.size)) [
          | inl large ↦
              rw large (room_from_mono b.size (b.size - n - header_size) (n + 32) bs (omega arith))
          | inr small ↦ rw small (room_from_mono b.size 0 (n + 32) bs (ground arith))
        ])
  | inr other ↦ rw other (room_from-allocate n (if b.is_free then b.size else 0) bs)
]

NoFit-room : (n a : ℕ) (bs : List Block) → a < n → NoFit n bs → room_from a bs < n
NoFit-room n a [] h nothing = h
NoFit-room n a (b ∷ bs) h (small, nothing) =
    NoFit-room n (if b.is_free then b.size else 0) bs (ground arith) nothing

module _ {s : State} {bs : List Block} (is : IsHeap s bs) where
  -- Where the last block is free and has room for the size rounded up, `malloc` succeeds, and that room
  -- is smaller afterwards by no more than the size and 40 bytes.
  pub malloc-room :
      (fuel size : ℕ)
      → enough < fuel
      → 0 < size
      → size < 2 ^ 31
      → size + 8 ≤ room bs
      → Allocated is (align size) (malloc fuel size s)
        × (room bs ≤ room (allocate (align size) bs) + (size + 40))
  malloc-room fuel size lt pos small fits =
      let (above, below, aligned) = align_lem size (omega arith) in
      let kept : room bs ≤ room (allocate (align size) bs) + (size + 40) =
        omega (arith, room_from-allocate (align size) 0 bs) in
      elim (malloc_lem is fuel size lt pos (omega arith)) [
        | inl (nothing, e) ↦
            absurd (omega (arith, NoFit-room (align size) 0 bs (omega arith) nothing))
        | inr got ↦ (got, kept)
      ]
