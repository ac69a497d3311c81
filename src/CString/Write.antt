-- ===== src/CString/Write.antt =====
-- `strcpy`, `strncpy` and `strcat` of libc/string.c: the string that they leave.
use mathlib.Core.Path.{subst}
use alpha_os.Prelude.{
  ℕ, zero, suc, ◌+◌, ◌-◌, ◌≤◌, ◌<◌, ◌≡◌, refl, ◌⊎◌, some, [], ◌∷◌, ◌++◌, arith, ◌==◌, if◌then◌else◌,
  length, take, get_or,
}
use alpha_os.Bytes.{Ptr, Memory, poke}
use alpha_os.Bytes.Copy.{within}
use alpha_os.CString.{strcpy_loop, strcpy, strcat, pad_loop, strncpy_loop, strncpy}
use alpha_os.CString.Spec.{Text, IsString, shift, IsString-frame}
use alpha_os.CString.Scan.{strlen_lem}
use alpha_os.CString.Compare.{NoNul, IsString-NoNul}

-- `m'` holds `s` at `p`, and is `m` outside the bytes of `s` and its terminator.
abbrev pub Wrote : Memory → Ptr → Text → Memory → Type 0
Wrote m p s m' = IsString m' p s × ((a : Ptr) → (a < p) ⊎ (p + length s < a) → m' a ≡ m a)

-- The two strings of length `n`, with their terminators, share no byte.
abbrev pub Apart : Ptr → Ptr → ℕ → Type 0
Apart d s n = (d + n < s) ⊎ (s + n < d)

strcpy_loop_lem :
    (s : Text) (fuel : ℕ) (d p : Ptr) (i : ℕ) (m : Memory)
    → IsString m (p + i) s
    → Apart (d + i) (p + i) (length s)
    → length s < fuel
    → (m' : Memory) × (strcpy_loop fuel d p i m ≡ some m') × Wrote m (d + i) s m'
unfolding strcpy_loop poke
strcpy_loop_lem s zero d p i m h apart lt = absurd (omega arith)
strcpy_loop_lem [] (suc f) d p i m h apart lt =
    (poke m (d + i) 0, ground arith, (ground arith, λ a out. ground arith))
strcpy_loop_lem (c ∷ s) (suc f) d p i m h apart lt =
    let m1 : Memory = poke m (d + i) (m (p + i)) in
    let kept : IsString m1 (p + (i + 1)) s =
      IsString-frame s m m1 (p + (i + 1)) (shift s p i m h.2) λ a lo hi. ground arith in
    let (m', e, (str, out)) = strcpy_loop_lem s f d p (i + 1) m1 kept (omega arith) (omega arith) in
    (
      m',
      ground arith,
      (
        (ground (arith, out (d + i)), h.1, subst (λ a. IsString m' a s) (omega arith) str),
        λ a away. ground (arith, out a),
      ),
    )

-- `strcpy` of a string to an area apart from it leaves the string there, changes nothing outside
-- the target's bytes and terminator, and returns the target.
pub strcpy_lem :
    (s : Text) (fuel : ℕ) (d p : Ptr) (m : Memory)
    → IsString m p s
    → Apart d p (length s)
    → length s < fuel
    → (m' : Memory) × (strcpy fuel d p m ≡ some (d, m')) × Wrote m d s m'
unfolding strcpy
strcpy_lem s fuel d p m h apart lt =
    let at_zero : IsString m (p + 0) s = subst (λ a. IsString m a s) (omega arith) h in
    let (m', e, (str, out)) = strcpy_loop_lem s fuel d p 0 m at_zero (omega arith) lt in
    (
      m',
      ground arith,
      (subst (λ a. IsString m' a s) (omega arith) str, λ a away. out a (omega arith)),
    )

-- A string goes on behind the bytes of another.
IsString-append :
    (t s : Text) (m m' : Memory) (p : Ptr)
    → IsString m p t
    → IsString m' (p + length t) s
    → ((a : Ptr) → p ≤ a → a < p + length t → m' a ≡ m a)
    → IsString m' p (t ++ s)
IsString-append [] s m m' p h k same = subst (λ a. IsString m' a s) (omega arith) k
IsString-append (c ∷ t) s m m' p h k same = (
  ground (arith, same p),
  h.1,
  IsString-append t s m m' (p + 1) h.2 (subst (λ a. IsString m' a s) (omega arith) k)
      λ a lo hi. same a (omega arith) (omega arith),
)

-- `strcat` leaves the two strings joined, where the source lies apart from the area that the copy
-- takes behind the target's bytes, changes nothing outside that area, and returns the target.
pub strcat_lem :
    (t s : Text) (fuel : ℕ) (d p : Ptr) (m : Memory)
    → IsString m d t
    → IsString m p s
    → Apart (d + length t) p (length s)
    → length t < fuel
    → length s < fuel
    → (m' : Memory) × (strcat fuel d p m ≡ some (d, m'))
      × IsString m' d (t ++ s)
      × ((a : Ptr) → (a < d + length t) ⊎ (d + length t + length s < a) → m' a ≡ m a)
unfolding strcat
strcat_lem t s fuel d p m ht hs apart lt lt' =
    let at_zero : IsString m (p + 0) s = subst (λ a. IsString m a s) (omega arith) hs in
    let (m', e, (str, out)) =
      strcpy_loop_lem s fuel (d + length t) p 0 m at_zero (omega arith) lt' in
    (
      m',
      ground (arith, strlen_lem t fuel d m ht lt),
      IsString-append t s m m' d ht (subst (λ a. IsString m' a s) (omega arith) str)
          (λ a lo hi. out a (omega arith)),
      λ a away. out a (omega arith),
    )

pad_loop_lem :
    (k i : ℕ) (d : Ptr) (m : Memory) (a : Ptr)
    → pad_loop k i d m a ≡ (if within (d + i) k a then 0 else m a)
unfolding pad_loop poke
pad_loop_lem zero i d m a = ground arith
pad_loop_lem (suc k) i d m a = ground (arith, pad_loop_lem k (i + 1) d (poke m (d + i) 0) a)

get_or_step :
    (c : ℕ) (s : Text) (j : ℕ) → get_or (c ∷ s) j 0 ≡ (if j == 0 then c else get_or s (j - 1) 0)
get_or_step c s zero = refl
get_or_step c s (suc j) = ground arith

-- Bytes that are the text's up to `k`, with zeros behind it and behind them, hold its first `k`.
IsString_of_bytes :
    (s : Text) (k : ℕ) (d : Ptr) (m : Memory)
    → NoNul s
    → ((j : ℕ) → j < k → m (d + j) ≡ get_or s j 0)
    → m (d + k) ≡ 0
    → IsString m d (take k s)
IsString_of_bytes s zero d m ok bytes end = ground arith
IsString_of_bytes [] (suc k) d m ok bytes end = ground (arith, bytes 0)
IsString_of_bytes (c ∷ s) (suc k) d m ok bytes end = (
  ground (arith, bytes 0),
  ok.0,
  IsString_of_bytes s k (d + 1) m ok.1 (λ j lt. ground (arith, bytes (suc j))) (ground arith),
)

-- The `k` bytes that are still to be written are the string's, and zeros behind its end.
strncpy_loop_lem :
    (s : Text) (k i : ℕ) (d p : Ptr) (m : Memory) (a : Ptr)
    → IsString m (p + i) s
    → (d + i + k ≤ p + i) ⊎ (p + i + length s < d + i)
    → strncpy_loop k i d p m a ≡ (if within (d + i) k a then get_or s (a - (d + i)) 0 else m a)
unfolding strncpy_loop poke
strncpy_loop_lem s zero i d p m a h apart = ground arith
strncpy_loop_lem [] (suc k) i d p m a h apart = ground (arith, pad_loop_lem (suc k) i d m a)
strncpy_loop_lem (c ∷ s) (suc k) i d p m a h apart =
    let m1 : Memory = poke m (d + i) (m (p + i)) in
    let kept : IsString m1 (p + (i + 1)) s =
      IsString-frame s m m1 (p + (i + 1)) (shift s p i m h.2) λ b lo hi. ground arith in
    let e : a - (d + i) - 1 ≡ a - (d + (i + 1)) = omega arith in
    ground (arith, strncpy_loop_lem s k (i + 1) d p m1 a kept, get_or_step c s (a - (d + i)), e)

-- The idiom by which the kernel fills a fixed buffer, `strncpy(d, s, n); d[n] = '\0';`, leaves the
-- string cut to `n` bytes, and writes only the `n + 1` bytes of the buffer.
pub strncpy_terminated :
    (s : Text) (n : ℕ) (d p : Ptr) (m : Memory)
    → IsString m p s
    → (d + n < p) ⊎ (p + length s < d)
    → let m' = poke (strncpy d p n m).1 (d + n) 0 in
      IsString m' d (take n s) × ((a : Ptr) → (a < d) ⊎ (d + n < a) → m' a ≡ m a)
unfolding strncpy poke
strncpy_terminated s n d p m h apart = (
  IsString_of_bytes s n d (poke (strncpy_loop n 0 d p m) (d + n) 0) (IsString-NoNul s m p h)
      (λ j lt. ground (arith, pad (d + j))) (ground arith),
  λ a away. ground (arith, pad a),
)
  where
    pad :
        (a : Ptr)
        → strncpy_loop n 0 d p m a ≡ (if within (d + 0) n a then get_or s (a - (d + 0)) 0 else m a)
    pad a =
        strncpy_loop_lem s n 0 d p m a (subst (λ b. IsString m b s) (omega arith) h) (omega arith)
