-- ===== src/Bytes/Tests.antt =====
-- Runs of the block operations of libc/string.c on a small memory.
use alpha_os.Prelude.{
  ℕ, ◌+◌, ◌-◌, ◌%◌, ◌<◌, ◌≡◌, ◌≢◌, ◌⊎◌, inr, ltb, if◌then◌else◌, arith, codes, get_or,
}
use alpha_os.Bytes.{Ptr, null, Memory, memcpy, memmove, memset, memcmp, memchr}
use alpha_os.Bytes.Copy.{within, memcpy_lem, memmove_lem, memset_lem}
use alpha_os.Bytes.Compare.{Lex, memcmp_lem, memchr_lem}

-- A text at the address 100.
abbrev bytes : Memory
bytes a = if ltb a 100 then 0 else get_or (codes "kernel") (a - 100) 0

memcpy_example :
    ((memcpy 200 100 6 bytes).0 ≡ 200)
    × ((a : Ptr)
        → (memcpy 200 100 6 bytes).1 a
          ≡ (if within 200 6 a then bytes (100 + (a - 200)) else bytes a))
memcpy_example = memcpy_lem 200 100 6 bytes (inr (omega arith))

memmove_example :
    ((memmove 102 100 6 bytes).0 ≡ 102)
    × ((a : Ptr)
        → (memmove 102 100 6 bytes).1 a
          ≡ (if within 102 6 a then bytes (100 + (a - 102)) else bytes a))
memmove_example = memmove_lem 102 100 6 bytes

memset_example :
    ((memset 101 300 3 bytes).0 ≡ 101)
    × ((a : Ptr) → (memset 101 300 3 bytes).1 a ≡ (if within 101 3 a then 300 % 256 else bytes a))
memset_example = memset_lem 101 300 3 bytes

memcmp_example : Lex bytes 100 102 4 (memcmp 100 102 4 bytes)
memcmp_example = memcmp_lem 100 102 4 bytes

memchr_example :
    ((memchr 100 110 6 bytes ≡ null) × ((j : ℕ) → j < 6 → bytes (100 + j) ≢ 110 % 256))
    ⊎ ((t : ℕ) × (t < 6)
        × (memchr 100 110 6 bytes ≡ 100 + t)
        × (bytes (100 + t) ≡ 110 % 256)
        × ((j : ℕ) → j < t → bytes (100 + j) ≢ 110 % 256))
memchr_example = memchr_lem 100 110 bytes (omega arith) 6
