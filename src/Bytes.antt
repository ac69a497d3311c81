-- ===== src/Bytes.antt =====
-- The byte memory, and the block operations `memcpy` to `memchr` of libc/string.c.
-- A pointer is a number, a memory gives the byte at every address, and a function that writes
-- returns its pointer result beside the new memory. A loop of `n` rounds recurs on the rounds
-- left, so it needs no fuel.
pub mod Copy
pub mod Compare
pub mod Tests
use alpha_os.Prelude.{
  ℕ, zero, suc, ◌+◌, ◌-◌, ◌%◌, ◌≡◌, refl, Bool, true, false, ltb, ◌==◌, if◌then◌else◌,
}
use alpha_os.Prelude.Int.{ℤ, pos, negsuc}

abbrev pub Ptr : Type 0
Ptr = ℕ

abbrev pub null : Ptr
null = 0

abbrev pub Memory : Type 0
Memory = Ptr → ℕ

-- `*p = v`
unfoldable pub poke : Memory → Ptr → ℕ → Memory
poke m p v a = if a == p then v else m a

-- `for (; i < n; i++) d[i] = s[i];` with `k` rounds left.
copy_up : (k i : ℕ) (d s : Ptr) → Memory → Memory
copy_up zero i d s m = m
copy_up (suc k) i d s m = copy_up k (i + 1) d s (poke m (d + i) (m (s + i)))

-- `for (i = n; i > 0; i--) d[i-1] = s[i-1];`
copy_down : (i : ℕ) (d s : Ptr) → Memory → Memory
copy_down zero d s m = m
copy_down (suc i) d s m = copy_down i d s (poke m (d + i) (m (s + i)))

unfoldable pub memcpy : (dest src : Ptr) (n : ℕ) → Memory → Ptr × Memory
unfolding copy_up
memcpy dest src n m = (dest, copy_up n 0 dest src m)

unfoldable pub memmove : (dest src : Ptr) (n : ℕ) → Memory → Ptr × Memory
unfolding copy_up copy_down
memmove dest src n m =
    if ltb dest src
    then (dest, copy_up n 0 dest src m)
    else if ltb src dest
    then (dest, copy_down n dest src m)
    else (dest, m)

fill : (k i : ℕ) (p : Ptr) (c : ℕ) → Memory → Memory
fill zero i p c m = m
fill (suc k) i p c m = fill k (i + 1) p c (poke m (p + i) (c % 256))

-- `c` is the bit pattern of the `int` argument: only its low byte is stored.
unfoldable pub memset : (s : Ptr) (c n : ℕ) → Memory → Ptr × Memory
unfolding fill
memset s c n m = (s, fill n 0 s c m)

compare_bytes : (k i : ℕ) (p q : Ptr) → Memory → ℤ
compare_bytes zero i p q m = pos 0
compare_bytes (suc k) i p q m =
    if ltb (m (p + i)) (m (q + i))
    then negsuc 0
    else if ltb (m (q + i)) (m (p + i))
    then pos 1
    else compare_bytes k (i + 1) p q m

unfoldable pub memcmp : (s1 s2 : Ptr) (n : ℕ) → Memory → ℤ
unfolding compare_bytes
memcmp s1 s2 n m = compare_bytes n 0 s1 s2 m

find_byte : (k i : ℕ) (p : Ptr) (c : ℕ) → Memory → Ptr
find_byte zero i p c m = null
find_byte (suc k) i p c m = if m (p + i) == c % 256 then p + i else find_byte k (i + 1) p c m

unfoldable pub memchr : (s : Ptr) (c n : ℕ) → Memory → Ptr
unfolding find_byte
memchr s c n m = find_byte n 0 s c m
