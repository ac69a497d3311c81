-- ===== src/CString/Compare.antt =====
-- `strcmp` and `strncmp` of libc/string.c on terminated strings: order, and equality.
use alpha_os.Prelude.{
  ℕ, zero, suc, ◌+◌, ◌<◌, ◌≡◌, ◌≢◌, refl, ◌↔◌, some, [], ◌∷◌, sym, ◌∙◌, arith, ◌==◌, if◌then◌else◌,
  length, take,
}
use alpha_os.Prelude.Int.{ℤ, pos, sub_ℕ}
use alpha_os.Bytes.{Ptr, Memory}
use alpha_os.CString.{strcmp, strncmp_loop, strncmp}
use alpha_os.CString.Spec.{Text, IsString, shift}
use mathlib.Core.Path.{subst}

-- The difference of the first bytes that differ, where the end of a text counts as 0.
abbrev pub order : Text → Text → ℤ
order [] [] = pos 0
order [] (y ∷ t) = sub_ℕ 0 y
order (x ∷ s) [] = sub_ℕ x 0
order (x ∷ s) (y ∷ t) = if x == y then order s t else sub_ℕ x y

-- No byte of the text is a terminator.
abbrev pub NoNul : Text → Type 0
NoNul [] = Unit {0}
NoNul (c ∷ s) = (c ≢ 0) × NoNul s

pub IsString-NoNul : (s : Text) (m : Memory) (p : Ptr) → IsString m p s → NoNul s
IsString-NoNul [] m p h = tt
IsString-NoNul (c ∷ s) m p h = (h.1, IsString-NoNul s m (p + 1) h.2)

pub order_self : (s : Text) → order s s ≡ pos 0
order_self [] = refl
order_self (x ∷ s) = ground (arith, order_self s)

pub eq_of_order : (s t : Text) → NoNul s → NoNul t → order s t ≡ pos 0 → s ≡ t
eq_of_order [] [] hs ht h = refl
eq_of_order [] (y ∷ t) hs ht h = absurd (ht.0 (ground arith))
eq_of_order (x ∷ s) [] hs ht h = absurd (hs.0 (ground arith))
eq_of_order (x ∷ s) (y ∷ t) hs ht h = ground (arith, eq_of_order s t hs.1 ht.1)

strcmp-order :
    (s t : Text) (fuel : ℕ) (p q : Ptr) (m : Memory)
    → IsString m p s
    → IsString m q t
    → length s < fuel
    → strcmp fuel p q m ≡ some (order s t)
unfolding strcmp
strcmp-order s t zero p q m hs ht lt = absurd (omega arith)
strcmp-order [] [] (suc f) p q m hs ht lt = ground arith
strcmp-order [] (y ∷ t) (suc f) p q m hs ht lt = ground arith
strcmp-order (x ∷ s) [] (suc f) p q m hs ht lt = ground arith
strcmp-order (x ∷ s) (y ∷ t) (suc f) p q m hs ht lt =
    ground (arith, strcmp-order s t f (p + 1) (q + 1) m hs.2 ht.2)

-- `strcmp` of two terminated strings ends, returns the difference of the first bytes that differ
-- (a terminator counting as 0), and this is 0 exactly when the strings are equal.
pub strcmp_lem :
    (s t : Text) (fuel : ℕ) (p q : Ptr) (m : Memory)
    → IsString m p s
    → IsString m q t
    → length s < fuel
    → (strcmp fuel p q m ≡ some (order s t)) × ((order s t ≡ pos 0) ↔ (s ≡ t))
strcmp_lem s t fuel p q m hs ht lt = (
  strcmp-order s t fuel p q m hs ht lt,
  (
    eq_of_order s t (IsString-NoNul s m p hs) (IsString-NoNul t m q ht),
    λ e. subst (λ u. order s u ≡ pos 0) e (order_self s),
  ),
)

strncmp_loop-order :
    (s t : Text) (k i : ℕ) (p q : Ptr) (m : Memory)
    → IsString m (p + i) s
    → IsString m (q + i) t
    → strncmp_loop k i p q m ≡ order (take k s) (take k t)
unfolding strncmp_loop
strncmp_loop-order s t zero i p q m hs ht = refl
strncmp_loop-order [] [] (suc k) i p q m hs ht = ground arith
strncmp_loop-order [] (y ∷ t) (suc k) i p q m hs ht = ground arith
strncmp_loop-order (x ∷ s) [] (suc k) i p q m hs ht = ground arith
strncmp_loop-order (x ∷ s) (y ∷ t) (suc k) i p q m hs ht =
    ground (arith, strncmp_loop-order s t k (i + 1) p q m (shift s p i m hs.2) (shift t q i m ht.2))

take-NoNul : (n : ℕ) (s : Text) → NoNul s → NoNul (take n s)
take-NoNul zero s h = tt
take-NoNul (suc n) [] h = tt
take-NoNul (suc n) (c ∷ s) h = (h.0, take-NoNul n s h.1)

-- `strncmp` compares the first `n` bytes: it returns their order, which is 0 exactly when the two
-- strings, cut to `n` bytes, are equal.
pub strncmp_lem :
    (s t : Text) (n : ℕ) (p q : Ptr) (m : Memory)
    → IsString m p s
    → IsString m q t
    → (strncmp p q n m ≡ order (take n s) (take n t))
      × ((strncmp p q n m ≡ pos 0) ↔ (take n s ≡ take n t))
unfolding strncmp
strncmp_lem s t n p q m hs ht =
    let e : strncmp_loop n 0 p q m ≡ order (take n s) (take n t) =
      strncmp_loop-order s t n 0 p q m (subst (λ a. IsString m a s) (omega arith) hs)
        (subst (λ a. IsString m a t) (omega arith) ht) in
    (
      e,
      (
        λ z.
            eq_of_order (take n s) (take n t) (take-NoNul n s (IsString-NoNul s m p hs))
              (take-NoNul n t (IsString-NoNul t m q ht)) (sym e ∙ z),
        λ same. e ∙ subst (λ u. order (take n s) u ≡ pos 0) same (order_self (take n s)),
      ),
    )
