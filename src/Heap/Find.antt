-- ===== src/Heap/Find.antt =====
-- `find_free_block` of kernel/memory.c is a first-fit search.
use alpha_os.Prelude.{ℕ, zero, suc, ◌<◌, ◌≡◌, true, false, some, List, [], ◌∷◌, arith, ◌==◌, length}
use alpha_os.Bytes.{Ptr, null}
use alpha_os.Heap.{Headers, find_loop, integrity_loop}
use alpha_os.Heap.Blocks.{Block, behind, first_fit}
use alpha_os.Heap.Tiles.{link, Tiles, le_of_Tiles}

pub find_loop_lem :
    (h : Headers) (limit p : Ptr) (bs : List Block) (fuel size : ℕ)
    → Tiles h limit p bs
    → 0 < p
    → length bs < fuel
    → find_loop fuel size (link limit p) h ≡ some (first_fit size p bs)
unfolding find_loop first_fit
find_loop_lem h limit p bs zero size t pos lt = absurd (omega arith)
find_loop_lem h limit p [] (suc f) size t pos lt = ground arith
find_loop_lem h limit p (b ∷ bs) (suc f) size t pos lt =
    let not_end : p < limit = omega (arith, le_of_Tiles h limit (behind p b) bs t.1) in
    let here : link limit p ≡ p = ground arith in
    let object : (p == null) ≡ false = ground arith in
    rw (here, object, t.0) (ground (arith, find_loop_lem h limit (behind p b) bs f size t.1))

pub integrity_loop_lem :
    (h : Headers) (limit p : Ptr) (bs : List Block) (fuel : ℕ)
    → Tiles h limit p bs
    → 0 < p
    → length bs < fuel
    → integrity_loop fuel (link limit p) h ≡ some true
unfolding integrity_loop
integrity_loop_lem h limit p bs zero t pos lt = absurd (omega arith)
integrity_loop_lem h limit p [] (suc f) t pos lt = ground arith
integrity_loop_lem h limit p (b ∷ bs) (suc f) t pos lt =
    let not_end : p < limit = omega (arith, le_of_Tiles h limit (behind p b) bs t.1) in
    let here : link limit p ≡ p = ground arith in
    let object : (p == null) ≡ false = ground arith in
    rw (here, object, t.0) (ground (arith, integrity_loop_lem h limit (behind p b) bs f t.1))
