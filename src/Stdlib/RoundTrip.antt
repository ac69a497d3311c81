-- ===== src/Stdlib/RoundTrip.antt =====
-- Numbers that `vsprintf` of libc/stdio.c prints and `atoi` of libc/stdlib.c reads.
use alpha_os.Prelude.{
  ℕ, ◌-◌, ◌%◌, ◌^◌, ◌≤◌, ◌<◌, ◌≡◌, ◌≢◌, refl, ap, ◌∙◌, true, false, some, [], ◌∷◌, codes, arith,
  ltb, ◌==◌, Bool-cases, inl, inr, length, take-eq_self, append-nil,
}
use alpha_os.CString.{◌>>=◌}
use alpha_os.CString.Spec.{Text}
use alpha_os.Digits.Laws.{worth, digits, digits-worth, digits-AllBelow, length-digits, length-map}
use alpha_os.Stdio.{word, decimal_digit, limit, vsprintf}
use alpha_os.Stdio.Spec.{decimal_text, int_text, piece, expand}
use alpha_os.Stdio.Expand.{expand-piece, vsprintf-expand}
use alpha_os.Stdlib.{opposite, atoi}
use alpha_os.Stdlib.Numeral.{atoi-digits, atoi-minus}

pub length-decimal_text : (value : ℕ) → length (decimal_text value) ≤ 32
length-decimal_text value =
    omega (arith, length-map decimal_digit (digits 32 10 value []), length-digits 32 10 value [])

-- The digits of a number below 2 ^ 32 are read as that number.
pub digits-number :
    (value : ℕ) → value < 2 ^ 32 → worth 10 0 (digits 32 10 value []) % 2 ^ 32 ≡ value
digits-number value h =
    let e = digits-worth 10 (omega arith) 32 value [] (omega arith) in rw e (omega arith)

expand-int :
    (value : ℕ) (t : Text)
    → value < 2 ^ 32
    → int_text value ≡ some t
    → expand (codes "%d") (word value ∷ []) ≡ some t
unfolding expand
expand-int value t h e =
    let small : ltb value (2 ^ 32) ≡ true = ground arith in
    let p : piece b'd' (word value ∷ []) ≡ some (t, []) = rw (small, e) refl in
    expand-piece b'%' b'd' [] (word value ∷ []) [] t refl p ∙ ap some (append-nil t)

-- What `vsprintf` prints for `%d`, `atoi` reads as the same number: every `int` but -2 ^ 31, as its
-- word.
pub atoi-vsprintf :
    (value : ℕ)
    → value < 2 ^ 32
    → value ≢ 2 ^ 31
    → (vsprintf (codes "%d") (word value ∷ []) >>= λ s. some (atoi s)) ≡ some value
atoi-vsprintf value h not_least = elim (Bool-cases (ltb value (2 ^ 31))) [
  | inl positive ↦
      let t : Text = decimal_text value in
      let printed =
        vsprintf-expand (codes "%d") (word value ∷ []) t
          (expand-int value t h (rw positive refl)) in
      rw (printed, take-eq_self limit t (omega (arith, length-decimal_text value)))
        (ap some (
          atoi-digits (digits 32 10 value []) (digits-AllBelow 10 (omega arith) 32 value [] tt)
          ∙ digits-number value h))
  | inr negative ↦
      let n : ℕ = 2 ^ 32 - value in
      let t : Text = b'-' ∷ decimal_text n in
      let other : (value == 2 ^ 31) ≡ false = ground arith in
      let printed =
        vsprintf-expand (codes "%d") (word value ∷ []) t
          (expand-int value t h (rw (negative, other) refl)) in
      rw (printed, take-eq_self limit t (omega (arith, length-decimal_text n)))
        (ap some (
          atoi-minus (digits 32 10 n []) (digits-AllBelow 10 (omega arith) 32 n [] tt)
          ∙ ap opposite (digits-number n (ground arith))
          ∙ ground arith))
]
