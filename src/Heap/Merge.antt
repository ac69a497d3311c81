-- ===== src/Heap/Merge.antt =====
-- `merge_free_blocks` of kernel/memory.c makes one block of free neighbours.
use mathlib.Core.Path.{◌∙◌}
use alpha_os.Prelude.{
  ℕ, zero, suc, ◌+◌, ◌^◌, ◌<◌, ◌≡◌, refl, inl, inr, Bool, true, false, ◌&&◌, not, Option, some,
  List, [], ◌∷◌, arith, ◌==◌, Bool-cases, length,
}
use alpha_os.Bytes.{Ptr, null}
use alpha_os.Heap.{Headers, put, merge_loop, header_size, word}
use alpha_os.Heap.Blocks.{Block, block, behind, join, coalesce}
use alpha_os.Heap.Tiles.{link, flag, header_of, Tiles, le_of_Tiles, Tiles-frame}

-- What merging from `p` on leaves.
pub record Merged (h : Headers) (limit p : ℕ) (bs : List Block) (r : Option Headers) : Type 0 where
  pub headers : Headers
  pub returns : r ≡ some headers
  pub tiles : Tiles headers limit p bs
  pub before : (a : Ptr) → a < p → headers a ≡ h a

-- The tests of the loop at a block that has a successor.
abbrev pub both : Block → Block → Bool
both b c = not (flag b.is_free == 0) && not (flag c.is_free == 0)

both-free : (b c : Block) → both b c ≡ (b.is_free && c.is_free)
both-free b c = ground arith

-- One round of the loop at a block `b` with a successor `c`.
module _ (h : Headers) (limit p : Ptr) (b c : Block) (f : ℕ)
    (e : h p ≡ header_of b (link limit (behind p b)))
    (e' : h (behind p b) ≡ header_of c (link limit (behind (behind p b) c)))
    (object : (p == null) ≡ false) (more : link limit (behind p b) ≡ behind p b)
    (object' : (behind p b == null) ≡ false) where
  merge_loop-join :
      (b.is_free && c.is_free) ≡ true
      → word (b.size + header_size + c.size) ≡ b.size + header_size + c.size
      → merge_loop (suc f) p h
        ≡ merge_loop f p (
            put h p (
              header_of
                (block (b.size + header_size + c.size) true)
                (link limit (behind (behind p b) c))))
  unfolding merge_loop
  merge_loop-join free sum =
      let one : flag b.is_free ≡ 1 = ground arith in
      rw (object, e, more, object', e', both-free b c, free, sum, one) refl

  merge_loop-keep :
      (b.is_free && c.is_free) ≡ false → merge_loop (suc f) p h ≡ merge_loop f (behind p b) h
  unfolding merge_loop
  merge_loop-keep kept = rw (object, e, more, object', e', both-free b c, kept) refl

module _ (limit : ℕ) (in_range : limit < 2 ^ 32) where
  pub merge_loop_lem :
      (bs : List Block) (h : Headers) (p : Ptr) (b : Block) (fuel : ℕ)
      → Tiles h limit p (b ∷ bs)
      → 0 < p
      → length bs < fuel
      → Merged h limit p (join b bs) (merge_loop fuel p h)
  unfolding merge_loop join put
  merge_loop_lem bs h p b zero tiles pos lt = absurd (omega arith)
  merge_loop_lem [] h p b (suc f) tiles pos lt =
      let object : (p == null) ≡ false = ground arith in
      let last : link limit (behind p b) ≡ null = ground arith in
      record {
        headers = h;
        returns = rw (object, tiles.0, last) refl;
        tiles = tiles;
        before = λ a lt. refl;
      }
  merge_loop_lem (c ∷ bs) h p b (suc f) (e, (e', t)) pos lt =
      let q : Ptr = behind p b in
      let end = le_of_Tiles h limit (behind q c) bs t in
      let object : (p == null) ≡ false = ground arith in
      let more : link limit q ≡ q = ground arith in
      let object' : (q == null) ≡ false = ground arith in
      elim (Bool-cases (b.is_free && c.is_free)) [
        | inl free ↦
            let n : ℕ = b.size + header_size + c.size in
            let h' : Headers = put h p (header_of (block n true) (link limit (behind q c))) in
            let same : behind p (block n true) ≡ behind q c = omega arith in
            let sum : word n ≡ n = omega arith in
            let t' : Tiles h' limit (behind q c) bs =
              Tiles-frame h h' limit (behind q c) bs (λ a le. ground arith) t in
            let tiles : Tiles h' limit p (block n true ∷ bs) =
              (rw same (ground arith), rw same t') in
            let rest = merge_loop_lem bs h' p (block n true) f tiles pos (omega arith) in
            record {
              headers = rest.headers;
              returns =
                  merge_loop-join h limit p b c f e e' object more object' free sum ∙ rest.returns;
              tiles = rw free rest.tiles;
              before = λ a lt. ground (arith, rest.before a);
            }
        | inr kept ↦
            let rest = merge_loop_lem bs h q c f (e', t) (omega arith) (omega arith) in
            record {
              headers = rest.headers;
              returns =
                  merge_loop-keep h limit p b c f e e' object more object' kept ∙ rest.returns;
              tiles = rw kept (ground (arith, rest.before p), rest.tiles);
              before = λ a lt. rest.before a (omega arith);
            }
      ]

  pub merge_lem :
      (bs : List Block) (h : Headers) (p : Ptr) (fuel : ℕ)
      → Tiles h limit p bs
      → 0 < p
      → p < limit
      → length bs < fuel
      → Merged h limit p (coalesce bs) (merge_loop fuel p h)
  unfolding coalesce
  merge_lem [] h p fuel tiles pos inside lt = absurd (omega arith)
  merge_lem (b ∷ bs) h p fuel tiles pos inside lt =
      merge_loop_lem bs h p b fuel tiles pos (omega arith)
