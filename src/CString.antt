-- ===== src/CString.antt =====
-- The C string functions of libc/string.c over the byte memory.
-- A `while` that runs up to a terminator takes fuel, and `none` says that the fuel ran out: on a
-- terminated string fuel above the string's length is enough (`Scan`). Functions that write return
-- the new memory; those that return their first argument return it beside the memory.
pub mod Spec
pub mod Scan
pub mod Write
pub mod Tests
pub mod Compare
pub mod Search
use alpha_os.Prelude.{
  ℕ, zero, suc, ◌+◌, ◌-◌, Bool, true, false, ◌&&◌, ◌||◌, not, Option, none, some, ltb, ◌==◌,
  if◌then◌else◌,
}
use alpha_os.Prelude.Int.{ℤ, pos, sub_ℕ}
use alpha_os.Bytes.{Ptr, null, Memory, poke}

-- Option as the monad of loops on fuel.
infixl 5 ◌>>=◌
abbrev pub ◌>>=◌ {ℓ κ} : {A : Type ℓ} {B : Type κ} → Option A → (A → Option B) → Option B
none >>= f = none
some a >>= f = f a

-- `while (s[len] != '\0') len++;`
strlen_loop : (fuel : ℕ) (s : Ptr) (len : ℕ) → Memory → Option ℕ
strlen_loop zero s len m = none
strlen_loop (suc f) s len m =
    let rest = strlen_loop f s (len + 1) m in if m (s + len) == 0 then some len else rest

unfoldable pub strlen : (fuel : ℕ) → Ptr → Memory → Option ℕ
unfolding strlen_loop
strlen fuel s m = strlen_loop fuel s 0 m

-- `while (src[i] != '\0') { dest[i] = src[i]; i++; } dest[i] = '\0';`
strcpy_loop : (fuel : ℕ) (dest src : Ptr) (i : ℕ) → Memory → Option Memory
strcpy_loop zero dest src i m = none
strcpy_loop (suc f) dest src i m =
    let rest = strcpy_loop f dest src (i + 1) (poke m (dest + i) (m (src + i))) in
    if m (src + i) == 0 then some (poke m (dest + i) 0) else rest

unfoldable pub strcpy : (fuel : ℕ) (dest src : Ptr) → Memory → Option (Ptr × Memory)
unfolding strcpy_loop
strcpy fuel dest src m = do m' ← strcpy_loop fuel dest src 0 m; some (dest, m')

-- `for (; i < n; i++) dest[i] = '\0';` with `k` rounds left.
pad_loop : (k i : ℕ) (dest : Ptr) → Memory → Memory
pad_loop zero i dest m = m
pad_loop (suc k) i dest m = pad_loop k (i + 1) dest (poke m (dest + i) 0)

-- Both loops of `strncpy`, with `k` rounds left of the `n`.
strncpy_loop : (k i : ℕ) (dest src : Ptr) → Memory → Memory
unfolding pad_loop
strncpy_loop zero i dest src m = m
strncpy_loop (suc k) i dest src m =
    let rest = strncpy_loop k (i + 1) dest src (poke m (dest + i) (m (src + i))) in
    if m (src + i) == 0 then pad_loop (suc k) i dest m else rest

unfoldable pub strncpy : (dest src : Ptr) (n : ℕ) → Memory → Ptr × Memory
unfolding strncpy_loop
strncpy dest src n m = (dest, strncpy_loop n 0 dest src m)

-- The copying loop of `strcat` starts at the end of the target.
unfoldable pub strcat : (fuel : ℕ) (dest src : Ptr) → Memory → Option (Ptr × Memory)
unfolding strcpy_loop
strcat fuel dest src m = do
  dest_len ← strlen fuel dest m
  m' ← strcpy_loop fuel (dest + dest_len) src 0 m
  some (dest, m')

-- `for (i = 0; i < n && src[i] != '\0'; i++) dest[i] = src[i]; dest[i] = '\0';`
strncat_loop : (k i : ℕ) (dest src : Ptr) → Memory → Memory
strncat_loop zero i dest src m = poke m (dest + i) 0
strncat_loop (suc k) i dest src m =
    let rest = strncat_loop k (i + 1) dest src (poke m (dest + i) (m (src + i))) in
    if m (src + i) == 0 then poke m (dest + i) 0 else rest

unfoldable pub strncat : (fuel : ℕ) (dest src : Ptr) (n : ℕ) → Memory → Option (Ptr × Memory)
unfolding strncat_loop
strncat fuel dest src n m = do
  dest_len ← strlen fuel dest m
  some (dest, strncat_loop n 0 (dest + dest_len) src m)

-- The result is a difference of two `unsigned char` values.
unfoldable pub strcmp : (fuel : ℕ) (s1 s2 : Ptr) → Memory → Option ℤ
strcmp zero s1 s2 m = none
strcmp (suc f) s1 s2 m =
    let rest = strcmp f (s1 + 1) (s2 + 1) m in
    if not (m s1 == 0) && (m s1 == m s2) then rest else some (sub_ℕ (m s1) (m s2))

strncmp_loop : (k i : ℕ) (s1 s2 : Ptr) → Memory → ℤ
strncmp_loop zero i s1 s2 m = pos 0
strncmp_loop (suc k) i s1 s2 m =
    let rest = strncmp_loop k (i + 1) s1 s2 m in
    if not (m (s1 + i) == m (s2 + i))
    then sub_ℕ (m (s1 + i)) (m (s2 + i))
    else if m (s1 + i) == 0
    then pos 0
    else rest

unfoldable pub strncmp : (s1 s2 : Ptr) (n : ℕ) → Memory → ℤ
unfolding strncmp_loop
strncmp s1 s2 n m = strncmp_loop n 0 s1 s2 m

-- `c` is the byte that the `int` argument converts to, so `c == '\0'` is the test of the source.
unfoldable pub strchr : (fuel : ℕ) (s : Ptr) (c : ℕ) → Memory → Option Ptr
strchr zero s c m = none
strchr (suc f) s c m =
    let rest = strchr f (s + 1) c m in
    if m s == 0 then (if c == 0 then some s else some null) else if m s == c then some s else rest

strrchr_loop : (fuel : ℕ) (s : Ptr) (c : ℕ) (last : Ptr) → Memory → Option Ptr
strrchr_loop zero s c last m = none
strrchr_loop (suc f) s c last m =
    let rest = strrchr_loop f (s + 1) c (if m s == c then s else last) m in
    if m s == 0 then (if c == 0 then some s else some last) else rest

unfoldable pub strrchr : (fuel : ℕ) (s : Ptr) (c : ℕ) → Memory → Option Ptr
unfolding strrchr_loop
strrchr fuel s c m = strrchr_loop fuel s c null m

-- `while (*h == *n && *n != '\0') { h++; n++; }`, then whether `*n == '\0'`.
match_here : (fuel : ℕ) (h n : Ptr) → Memory → Option Bool
match_here zero h n m = none
match_here (suc f) h n m =
    let rest = match_here f (h + 1) (n + 1) m in
    if (m h == m n) && not (m n == 0) then rest else some (m n == 0)

strstr_loop : (fuel : ℕ) (haystack needle : Ptr) → Memory → Option Ptr
unfolding match_here
strstr_loop zero haystack needle m = none
strstr_loop (suc f) haystack needle m =
    let rest = strstr_loop f (haystack + 1) needle m in
    if m haystack == 0
    then some null
    else (match_here (suc f) haystack needle m >>= λ found. if found then some haystack else rest)

unfoldable pub strstr : (fuel : ℕ) (haystack needle : Ptr) → Memory → Option Ptr
unfolding strstr_loop
strstr fuel haystack needle m =
    if m needle == 0 then some haystack else strstr_loop fuel haystack needle m
