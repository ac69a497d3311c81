-- ===== src/Stdlib/Back.antt =====
-- Bytes that are written upwards, and read as a string after the reversal in `itoa` of libc/stdlib.c.
use alpha_os.Prelude.{ℕ, ◌+◌, ◌-◌, ◌≤◌, ◌<◌, ◌≡◌, ◌≢◌, inr, ap, ◌∙◌, some, [], ◌∷◌, arith, length}
use mathlib.Core.Path.{subst}
use alpha_os.CString.Spec.{Text, IsString}
use alpha_os.Bytes.{Ptr, Memory, poke}
use alpha_os.Stdlib.{reverse_loop}
use alpha_os.Stdlib.Reverse.{Reversed, reverse_loop_lem}

-- The bytes below `p`, from the last one on, are those of the text.
abbrev pub Back : Memory → Ptr → Text → Type 0
Back m p [] = Unit {0}
Back m p (c ∷ s) = (0 < p) × (m (p - 1) ≡ c) × (c ≢ 0) × Back m (p - 1) s

pub Back-frame :
    (s : Text) (m m' : Memory) (p : Ptr)
    → ((a : Ptr) → a < p → m' a ≡ m a)
    → Back m p s
    → Back m' p s
Back-frame [] m m' p same h = tt
Back-frame (c ∷ s) m m' p same (pos, here, nz, h) = (
  pos,
  same (p - 1) (omega arith) ∙ here,
  nz,
  Back-frame s m m' (p - 1) (λ a lt. same a (omega arith)) h,
)

-- One more byte.
pub Back-poke :
    (m : Memory) (p : Ptr) (c : ℕ) (s : Text)
    → c ≢ 0
    → Back m p s
    → Back (poke m p c) (p + 1) (c ∷ s)
Back-poke m p c s nz h = (
  omega arith,
  ap (poke m p c) {x = p + 1 - 1} {y = p} (omega arith) ∙ here,
  nz,
  subst (λ q. Back (poke m p c) q s) {x = p} {y = p + 1 - 1} (omega arith)
      (Back-frame s m (poke m p c) p other h),
)
  where
    here : poke m p c p ≡ c
    here = unfold poke in ground arith

    other : (a : Ptr) → a < p → poke m p c a ≡ m a
    other a lt = unfold poke in ground arith

-- Reversed, the bytes are the string of the text.
pub reversed-IsString :
    (s : Text) (m m' : Memory) (str i last : Ptr)
    → Reversed m m' str last
    → last + 1 ≡ str + i + length s
    → m (last + 1) ≡ 0
    → Back m (last + 1 - i) s
    → IsString m' (str + i) s
reversed-IsString [] m m' str i last r end stop h =
    ap m' {x = str + i} {y = last + 1} (omega arith)
    ∙ r.outside (last + 1) (inr (omega arith))
    ∙ stop
reversed-IsString (c ∷ s) m m' str i last r end stop (pos, here, nz, h) = (
  r.inside (str + i) (omega arith) (omega arith)
      ∙ ap m {x = str + last - (str + i)} {y = last + 1 - i - 1} (omega arith)
      ∙ here,
  nz,
  subst (λ p. IsString m' p s) {x = str + (i + 1)} {y = str + i + 1} (omega arith)
      (reversed-IsString s m m' str (i + 1) last r (omega arith) stop
        (subst (λ p. Back m p s) {x = last + 1 - i - 1} {y = last + 1 - (i + 1)} (omega arith) h)),
)

-- The terminator, and the reversal of the bytes in front of it.
pub close_string :
    (m : Memory) (str ptr : Ptr) (s : Text)
    → ptr ≡ str + length s
    → 0 < length s
    → length s ≤ 33
    → Back m ptr s
    → (m' : Memory) × (reverse_loop 32 str (ptr - 1) (poke m ptr 0) ≡ some m') × IsString m' str s
close_string m str ptr s end some_text short back =
    let (m', e, r) = reverse_loop_lem 32 str (ptr - 1) (poke m ptr 0) (omega arith) (omega arith) in
    let last : ptr - 1 + 1 ≡ ptr = omega arith in
    let stop : poke m ptr 0 (ptr - 1 + 1) ≡ 0 = rw last (unfold poke in ground arith) in
    let kept : Back (poke m ptr 0) ptr s =
      Back-frame s m (poke m ptr 0) ptr (λ a lt. unfold poke in ground arith) back in
    (
      m',
      e,
      subst (λ p. IsString m' p s) {x = str + 0} {y = str} (omega arith)
          (reversed-IsString s (poke m ptr 0) m' str 0 (ptr - 1) r (omega arith) stop (
            subst (λ p. Back (poke m ptr 0) p s) {x = ptr} {y = ptr - 1 + 1 - 0} (omega arith)
              kept)),
    )
