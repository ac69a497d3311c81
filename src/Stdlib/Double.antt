-- ===== src/Stdlib/Double.antt =====
-- The numbers that `atof` of libc/stdlib.c reads in the decimal texts of integers.
use alpha_os.Prelude.{
  ℕ, suc, ◌+◌, ◌-◌, ◌*◌, ◌^◌, ◌≤◌, ◌<◌, ◌≡◌, refl, ap, ◌∙◌, true, false, ◌&&◌, ◌||◌, List, [], ◌∷◌,
  map, arith, leb, ◌==◌,
}
use alpha_os.Prelude.Int.{ℤ, pos, negsuc, pos_part, neg_part}
use alpha_os.CString.Spec.{Text}
use alpha_os.Digits.Laws.{AllBelow, worth, digits, digits-worth, digits-AllBelow}
use alpha_os.Stdio.{decimal_digit}
use alpha_os.Stdlib.{skip_blanks}
use alpha_os.Stdlib.Integer.{number_text}
use alpha_os.Stdlib.Float.{
  Double, IsExact, whole_loop, read_point, read_double, read_signed_double, atof,
}

-- Digits in front make a number no smaller.
worth-le : (n : ℕ) (ds : List ℕ) → n ≤ worth 10 n ds
worth-le n [] = omega arith
worth-le n (d ∷ ds) = omega (arith, worth-le (n * 10 + d) ds)

module _ (d : Double) (exact : IsExact d) where
  open d use {Value, of_int, add, mul}

  whole_loop-digits :
      (ds : List ℕ) (n : ℕ)
      → AllBelow 10 ds
      → worth 10 n ds ≤ 2 ^ 53
      → whole_loop d (map decimal_digit ds) (of_int (pos n)) ≡ (of_int (pos (worth 10 n ds)), [])
  unfolding whole_loop
  whole_loop-digits [] n below h = refl
  whole_loop-digits (c ∷ ds) n (small, below) h =
      let is_digit : (leb b'0' (b'0' + c) && leb (b'0' + c) b'9') ≡ true = ground arith in
      let value : b'0' + c - b'0' ≡ c = omega arith in
      let fits : n * 10 + c ≤ 2 ^ 53 = omega (arith, worth-le (n * 10 + c) ds) in
      rw (is_digit, value, exact.muls n 10 (omega arith), exact.adds (n * 10) c fits)
        (whole_loop-digits ds (n * 10 + c) below h)

  read_double-number :
      (n : ℕ) → n < 2 ^ 32 → read_double d (map decimal_digit (digits 32 10 n [])) ≡ of_int (pos n)
  unfolding read_point
  read_double-number n h =
      let ds : List ℕ = digits 32 10 n [] in
      let value : worth 10 0 ds ≡ n = digits-worth 10 (omega arith) 32 n [] (omega arith) in
      rw
        (whole_loop-digits ds 0 (digits-AllBelow 10 (omega arith) 32 n [] tt)
          (omega (arith, value)))
        (ap (λ k. of_int (pos k)) value)

  -- Digits are neither blanks nor signs.
  atof-digits :
      (ds : List ℕ)
      → AllBelow 10 ds
      → atof d (map decimal_digit ds) ≡ mul (read_double d (map decimal_digit ds)) (of_int (pos 1))
  unfolding atof read_signed_double skip_blanks
  atof-digits [] below = refl
  atof-digits (n ∷ ds) (small, below) =
      let c : ℕ = b'0' + n in
      let shown : ((c == b' ') || (c == 9) || (c == 10)) ≡ false = ground arith in
      let not_minus : (c == b'-') ≡ false = ground arith in
      let not_plus : (c == b'+') ≡ false = ground arith in rw (shown, not_minus, not_plus) refl

  atof-minus : (s : Text) → atof d (b'-' ∷ s) ≡ mul (read_double d s) (of_int (negsuc 0))
  unfolding atof read_signed_double skip_blanks
  atof-minus s = refl

  -- `atof` reads the decimal text of an integer between -2 ^ 32 and 2 ^ 32 as that integer, where the
  -- operations on integers of at most 53 bits are exact.
  pub atof-number_text :
      (z : ℤ) → pos_part z + neg_part z < 2 ^ 32 → atof d (number_text z) ≡ of_int z
  atof-number_text (pos n) h =
      atof-digits (digits 32 10 n []) (digits-AllBelow 10 (omega arith) 32 n [] tt)
      ∙ rw (read_double-number n (omega arith), exact.muls n 1 (omega arith))
          (ap (λ k. of_int (pos k)) (omega arith))
  atof-number_text (negsuc n) h =
      atof-minus (map decimal_digit (digits 32 10 (suc n) []))
      ∙ rw
          (
            read_double-number (suc n) (omega arith),
            exact.opposes (suc n) (omega arith) (omega arith),
          )
          (ap (λ k. of_int (negsuc k)) (omega arith))
