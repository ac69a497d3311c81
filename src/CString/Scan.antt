-- ===== src/CString/Scan.antt =====
-- `strlen`, `strchr` and `strrchr` of libc/string.c on a terminated string.
use alpha_os.Prelude.{
  ℕ, zero, suc, ◌+◌, ◌<◌, ◌≡◌, ◌≢◌, Option, none, some, [], ◌∷◌, arith, ◌==◌, if◌then◌else◌, length,
}
use mathlib.Core.Path.{subst}
use alpha_os.Bytes.{Ptr, null, Memory}
use alpha_os.CString.{strlen_loop, strlen, strchr, strrchr_loop, strrchr}
use alpha_os.CString.Spec.{Text, IsString, shift}

strlen_loop_lem :
    (s : Text) (fuel p i : ℕ) (m : Memory)
    → IsString m (p + i) s
    → length s < fuel
    → strlen_loop fuel p i m ≡ some (i + length s)
unfolding strlen_loop
strlen_loop_lem s zero p i m h f = absurd (omega arith)
strlen_loop_lem [] (suc f) p i m h lt = ground arith
strlen_loop_lem (c ∷ s) (suc f) p i m h lt =
    ground (arith, strlen_loop_lem s f p (i + 1) m (shift s p i m h.2))

-- `strlen` of a terminated string, with more fuel than its length, is the number of bytes before the terminator.
pub strlen_lem :
    (s : Text) (fuel : ℕ) (p : Ptr) (m : Memory)
    → IsString m p s
    → length s < fuel
    → strlen fuel p m ≡ some (length s)
unfolding strlen
strlen_lem s fuel p m h lt =
    ground (arith, strlen_loop_lem s fuel p 0 m (subst (λ a. IsString m a s) (omega arith) h) lt)

-- The offset of the first `c` in a text, and of the last.
abbrev pub index : ℕ → Text → Option ℕ
index c [] = none
index c (x ∷ s) =
    if x == c then some 0 else elim (index c s) [ none ↦ none | some i ↦ some (i + 1) ]

abbrev pub last_index : ℕ → Text → Option ℕ
last_index c [] = none
last_index c (x ∷ s) = elim (last_index c s) [
  | none ↦ if x == c then some 0 else none
  | some i ↦ some (i + 1)
]

-- The pointer that an offset into the string at `p` stands for.
abbrev pub pointer : Ptr → Option ℕ → Ptr
pointer p none = null
pointer p (some i) = p + i

-- `strchr` in a terminated string, with more fuel than its length, finds the first occurrence of a
-- byte that is not 0, and null if there is none.
pub strchr_lem :
    (s : Text) (fuel : ℕ) (p : Ptr) (c : ℕ) (m : Memory)
    → IsString m p s
    → c ≢ 0
    → length s < fuel
    → strchr fuel p c m ≡ some (pointer p (index c s))
unfolding strchr
strchr_lem s zero p c m h ne lt = absurd (omega arith)
strchr_lem [] (suc f) p c m h ne lt = ground arith
strchr_lem (x ∷ s) (suc f) p c m h ne lt = ground (arith, strchr_lem s f (p + 1) c m h.2)

strrchr_loop_lem :
    (s : Text) (fuel : ℕ) (p : Ptr) (c : ℕ) (last : Ptr) (m : Memory)
    → IsString m p s
    → c ≢ 0
    → length s < fuel
    → strrchr_loop fuel p c last m ≡ some (elim (last_index c s) [ none ↦ last | some i ↦ p + i ])
unfolding strrchr_loop
strrchr_loop_lem s zero p c last m h ne lt = absurd (omega arith)
strrchr_loop_lem [] (suc f) p c last m h ne lt = ground arith
strrchr_loop_lem (x ∷ s) (suc f) p c last m h ne lt =
    ground (arith, strrchr_loop_lem s f (p + 1) c (if m p == c then p else last) m h.2)

-- `strrchr` in a terminated string, with more fuel than its length, finds the last occurrence of a
-- byte that is not 0, and null if there is none.
pub strrchr_lem :
    (s : Text) (fuel : ℕ) (p : Ptr) (c : ℕ) (m : Memory)
    → IsString m p s
    → c ≢ 0
    → length s < fuel
    → strrchr fuel p c m ≡ some (pointer p (last_index c s))
unfolding strrchr
strrchr_lem s fuel p c m h ne lt = ground (arith, strrchr_loop_lem s fuel p c null m h ne lt)
