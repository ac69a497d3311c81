-- ===== src/Heap/Live.antt =====
-- Blocks in use stay in use, where they are, across `malloc` and `free` (kernel/memory.c).
use mathlib.Core.Path.{subst, sym, ◌∙◌}
use alpha_os.Prelude.{
  ℕ, ◌+◌, ◌-◌, ◌≤◌, ◌<◌, ◌≡◌, ◌≢◌, refl, ◌⊎◌, inl, inr, true, false, ◌&&◌, List, [], ◌∷◌, arith,
  ltb, leb, ◌==◌, Bool-cases,
}
use alpha_os.Bytes.{Ptr, null}
use alpha_os.Heap.{header_size}
use alpha_os.Heap.Blocks.{
  Block, block, behind, first_fit, cut, allocate, release, join, coalesce, At,
}

pub At-le : (u p : Ptr) (c : Block) (bs : List Block) → At u c p bs → p ≤ u
At-le u p c [] at = absurd at
At-le u p c (b ∷ bs) at = elim (Bool-cases (u == p)) [
  | inl here ↦ ground arith
  | inr there ↦ omega (arith, At-le u (behind p b) c bs (rw there at at))
]

-- A block behind the first one, seen from behind it.
At-cons :
    (u p q : Ptr) (c b : Block) (bs : List Block) → q ≡ behind p b → At u c q bs → At u c p (b ∷ bs)
At-cons u p q c b bs e at =
    let at' : At u c (behind p b) bs = subst (λ r. At u c r bs) e at in
    let later : (u == p) ≡ false = ground (arith, At-le u (behind p b) c bs at') in rw later at'

At-unique : (u p : Ptr) (c d : Block) (bs : List Block) → At u c p bs → At u d p bs → c ≡ d
At-unique u p c d [] at at' = absurd at
At-unique u p c d (b ∷ bs) at at' = elim (Bool-cases (u == p)) [
  | inl here ↦ sym (rw here at at) ∙ rw here at at'
  | inr there ↦ At-unique u (behind p b) c d bs (rw there at at) (rw there at at')
]

-- Blocks at different addresses share no byte, header included.
pub At-apart :
    (t u p : Ptr) (c d : Block) (bs : List Block)
    → At t c p bs
    → At u d p bs
    → t ≢ u
    → (behind t c ≤ u) ⊎ (behind u d ≤ t)
At-apart t u p c d [] at at' ne = absurd at
At-apart t u p c d (b ∷ bs) at at' ne = elim (Bool-cases (t == p)) [
  | inl t_here ↦ elim (Bool-cases (u == p)) [
    | inl u_here ↦ absurd (ne (ground arith))
    | inr u_later ↦
        let same : b ≡ c = rw t_here at at in
        inl (ground (arith, At-le u (behind p b) d bs (rw u_later at at')))
  ]
  | inr t_later ↦ elim (Bool-cases (u == p)) [
    | inl u_here ↦
        let same : b ≡ d = rw u_here at at' in
        inr (ground (arith, At-le t (behind p b) c bs (rw t_later at at)))
    | inr u_later ↦ At-apart t u (behind p b) c d bs (rw t_later at at) (rw u_later at at') ne
  ]
]

module _ (n : ℕ) where
  -- What `first_fit` finds is a free block.
  pub first_fit-At :
      (p t : Ptr) (bs : List Block)
      → first_fit n p bs ≡ t
      → t ≢ null
      → (c : Block) × At t c p bs × (c.is_free ≡ true)
  unfolding first_fit
  first_fit-At p t [] e ne = absurd (ne (sym e))
  first_fit-At p t (b ∷ bs) e ne = elim (Bool-cases (b.is_free && leb n b.size)) [
    | inl fits ↦
        let here : (t == p) ≡ true = ground (arith, rw fits at e) in (b, rw here refl, ground arith)
    | inr misses ↦
        let (c, at, free) = first_fit-At (behind p b) t bs (rw misses at e) ne in
        (c, At-cons t p (behind p b) c b bs refl at, free)
  ]

  cut-At :
      (p u : Ptr) (b c : Block) (bs : List Block)
      → n ≤ b.size
      → At u c (behind p b) bs
      → At u c p (cut n b bs)
  cut-At p u b c bs fits at = elim (Bool-cases (ltb (n + header_size + 16) b.size)) [
    | inl wide ↦
        let rest : Block = block (b.size - n - header_size) true in
        let room : n + header_size + 16 < b.size = ground arith in
        let e : behind p b ≡ behind (behind p (block n false)) rest = omega arith in
        rw wide (
          At-cons u p (behind p (block n false)) c (block n false) (rest ∷ bs) refl
            (At-cons u (behind p (block n false)) (behind p b) c rest bs e at))
    | inr narrow ↦ rw narrow (At-cons u p (behind p b) c (block b.size false) bs refl at)
  ]

  allocate-At :
      (p u m : ℕ) (bs : List Block)
      → At u (block m false) p bs
      → At u (block m false) p (allocate n bs)
  unfolding allocate
  allocate-At p u m [] at = absurd at
  allocate-At p u m (b ∷ bs) at = elim (Bool-cases (u == p)) [
    | inl here ↦
        let same : b ≡ block m false = rw here at at in
        let busy : (b.is_free && leb n b.size) ≡ false = ground arith in rw (busy, here) same
    | inr there ↦ elim (Bool-cases (b.is_free && leb n b.size)) [
      | inl fits ↦ rw fits (cut-At p u b (block m false) bs (ground arith) (rw there at at))
      | inr misses ↦ rw (misses, there) (allocate-At (behind p b) u m bs (rw there at at))
    ]
  ]

  -- A block in use keeps its place and size when `malloc` puts the first fit to use, and shares no
  -- byte with the block that is handed out.
  pub allocate-live :
      (p t u m c : ℕ) (bs : List Block)
      → first_fit n p bs ≡ t
      → t ≢ null
      → At t (block c false) p (allocate n bs)
      → At u (block m false) p bs
      → At u (block m false) p (allocate n bs)
        × ((t + header_size + c ≤ u) ⊎ (u + header_size + m ≤ t))
  allocate-live p t u m c bs e ne new at =
      let (free, at_t, is_free) = first_fit-At p t bs e ne in
      let kept = allocate-At p u m bs at in
      let other : t ≢ u = λ same.
        let clash : free ≡ block m false =
          At-unique u p free (block m false) bs (subst (λ r. At r free p bs) same at_t) at in
        ground arith in
      (kept, At-apart t u p (block c false) (block m false) (allocate n bs) new kept other)

release-At :
    (p t u m : ℕ) (bs : List Block)
    → t ≢ u
    → At u (block m false) p bs
    → At u (block m false) p (release t p bs)
unfolding release
release-At p t u m [] ne at = absurd at
release-At p t u m (b ∷ bs) ne at = elim (Bool-cases (t == p)) [
  | inl t_here ↦
      let u_later : (u == p) ≡ false = ground arith in rw (t_here, u_later) (rw u_later at at)
  | inr t_later ↦ elim (Bool-cases (u == p)) [
    | inl u_here ↦ rw (t_later, u_here) (rw u_here at at)
    | inr u_later ↦ rw (t_later, u_later) (release-At (behind p b) t u m bs ne (rw u_later at at))
  ]
]

join-At :
    (p u m : ℕ) (b : Block) (bs : List Block)
    → At u (block m false) p (b ∷ bs)
    → At u (block m false) p (join b bs)
unfolding join
join-At p u m b [] at = at
join-At p u m b (c ∷ bs) at = elim (Bool-cases (b.is_free && c.is_free)) [
  | inl free ↦
      let merged : Block = block (b.size + header_size + c.size) true in
      let first : (u == p) ≡ false = elim (Bool-cases (u == p)) [
        | inl here ↦ absurd (let same : b ≡ block m false = rw here at at in ground arith)
        | inr there ↦ there
      ] in
      let at' : At u (block m false) (behind p b) (c ∷ bs) = rw first at at in
      let second : (u == behind p b) ≡ false = elim (Bool-cases (u == behind p b)) [
        | inl here ↦ absurd (let same : c ≡ block m false = rw here at at' in ground arith)
        | inr there ↦ there
      ] in
      let at'' : At u (block m false) (behind (behind p b) c) bs = rw second at at' in
      rw free (
        join-At p u m merged bs
          (At-cons u p (behind (behind p b) c) (block m false) merged bs (omega arith) at''))
  | inr kept ↦ elim (Bool-cases (u == p)) [
    | inl here ↦ rw (kept, here) (rw here at at)
    | inr there ↦ rw (kept, there) (join-At (behind p b) u m c bs (rw there at at))
  ]
]

-- A block in use keeps its place and size when another is freed.
pub release-live :
    (p t u m : ℕ) (bs : List Block)
    → t ≢ u
    → At u (block m false) p bs
    → At u (block m false) p (coalesce (release t p bs))
unfolding coalesce
release-live p t u m bs ne at = go (release t p bs) (release-At p t u m bs ne at)
  where
    go : (l : List Block) → At u (block m false) p l → At u (block m false) p (coalesce l)
    go [] at = at
    go (b ∷ l) at = join-At p u m b l at
