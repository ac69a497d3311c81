-- ===== src/Bytes/Copy.antt =====
-- What `memcpy`, `memmove` and `memset` of libc/string.c leave in memory.
use alpha_os.Prelude.{
  ℕ, zero, suc, ◌+◌, ◌-◌, ◌%◌, ◌≤◌, ◌≡◌, refl, ◌⊎◌, Bool, ◌&&◌, arith, ltb, leb, if◌then◌else◌,
}
use alpha_os.Bytes.{Ptr, Memory, poke, copy_up, copy_down, fill, memcpy, memmove, memset}

-- Whether the address `a` lies among the `n` bytes from `p` on.
abbrev pub within : Ptr → ℕ → Ptr → Bool
within p n a = leb p a && ltb a (p + n)

-- Going up, each byte read is still the old one where the target does not start inside the part
-- of the source that is still to be read.
copy_up_lem :
    (k i : ℕ) (d s : Ptr) (m : Memory) (a : Ptr)
    → (d ≤ s) ⊎ (s + i + k ≤ d + i)
    → copy_up k i d s m a ≡ (if within (d + i) k a then m (s + (a - d)) else m a)
unfolding copy_up poke
copy_up_lem zero i d s m a apart = ground arith
copy_up_lem (suc k) i d s m a apart =
    ground (arith, copy_up_lem k (i + 1) d s (poke m (d + i) (m (s + i))) a)

copy_down_lem :
    (i : ℕ) (d s : Ptr) (m : Memory) (a : Ptr)
    → s ≤ d
    → copy_down i d s m a ≡ (if within d i a then m (s + (a - d)) else m a)
unfolding copy_down poke
copy_down_lem zero d s m a h = ground arith
copy_down_lem (suc i) d s m a h = ground (arith, copy_down_lem i d s (poke m (d + i) (m (s + i))) a)

-- `memcpy` of areas that do not overlap puts the source's bytes into the target, changes no other
-- byte, and returns the target.
pub memcpy_lem :
    (d s : Ptr) (n : ℕ) (m : Memory)
    → (d + n ≤ s) ⊎ (s + n ≤ d)
    → ((memcpy d s n m).0 ≡ d)
      × ((a : Ptr) → (memcpy d s n m).1 a ≡ (if within d n a then m (s + (a - d)) else m a))
unfolding memcpy
memcpy_lem d s n m apart = (refl, λ a. ground (arith, copy_up_lem n 0 d s m a))

-- `memmove` does so for any two areas, overlapping in either direction or the same.
pub memmove_lem :
    (d s : Ptr) (n : ℕ) (m : Memory)
    → ((memmove d s n m).0 ≡ d)
      × ((a : Ptr) → (memmove d s n m).1 a ≡ (if within d n a then m (s + (a - d)) else m a))
unfolding memmove
memmove_lem d s n m =
    (ground arith, λ a. ground (arith, copy_up_lem n 0 d s m a, copy_down_lem n d s m a))

fill_lem :
    (k i : ℕ) (p : Ptr) (c : ℕ) (m : Memory) (a : Ptr)
    → fill k i p c m a ≡ (if within (p + i) k a then c % 256 else m a)
unfolding fill poke
fill_lem zero i p c m a = ground arith
fill_lem (suc k) i p c m a = ground (arith, fill_lem k (i + 1) p c (poke m (p + i) (c % 256)) a)

-- `memset` stores the low byte of `c` in each of the `n` bytes, and changes no other.
pub memset_lem :
    (p : Ptr) (c n : ℕ) (m : Memory)
    → ((memset p c n m).0 ≡ p)
      × ((a : Ptr) → (memset p c n m).1 a ≡ (if within p n a then c % 256 else m a))
unfolding memset
memset_lem p c n m = (refl, λ a. ground (arith, fill_lem n 0 p c m a))
