-- ===== src/CString/Spec.antt =====
-- What a C string stands for: the bytes before its terminator, and plain functions on them.
use alpha_os.Prelude.{ℕ, ◌+◌, ◌≤◌, ◌≡◌, ◌≢◌, List, [], ◌∷◌, arith, length}
use mathlib.Core.Path.{subst}
use alpha_os.Bytes.{Ptr, Memory}

abbrev pub Text : Type 0
Text = List ℕ

-- The bytes from `p` on are `s`, none of them a terminator, and then a terminator.
abbrev pub IsString : Memory → Ptr → Text → Type 0
IsString m p [] = m p ≡ 0
IsString m p (c ∷ s) = (m p ≡ c) × (c ≢ 0) × IsString m (p + 1) s

-- `p + i + 1` and `p + (i + 1)` are the same address.
pub shift :
    (s : Text) (p i : ℕ) (m : Memory) → IsString m (p + i + 1) s → IsString m (p + (i + 1)) s
shift s p i m h = subst (λ a. IsString m a s) (omega arith) h

-- A string survives any change outside its bytes and its terminator.
pub IsString-frame :
    (s : Text) (m m' : Memory) (p : Ptr)
    → IsString m p s
    → ((a : Ptr) → p ≤ a → a ≤ p + length s → m' a ≡ m a)
    → IsString m' p s
IsString-frame [] m m' p h same = ground (arith, same p)
IsString-frame (c ∷ s) m m' p h same = (
  ground (arith, same p),
  h.1,
  IsString-frame s m m' (p + 1) h.2 λ a lo hi. same a (omega arith) (omega arith),
)
