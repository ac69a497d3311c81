-- ===== src/Stdlib/Numeral.antt =====
-- What `atoi` of libc/stdlib.c reads in the decimal digits of a number.
use alpha_os.Prelude.{
  ℕ, ◌+◌, ◌-◌, ◌*◌, ◌%◌, ◌^◌, ◌≡◌, refl, ap, true, false, ◌&&◌, ◌||◌, List, [], ◌∷◌, map, arith,
  leb, ◌==◌,
}
use alpha_os.CString.Spec.{Text}
use alpha_os.Digits.Laws.{AllBelow, worth}
use alpha_os.Stdio.{decimal_digit}
use alpha_os.Stdlib.{opposite, skip_blanks, read_digits, read_signed, atoi}

-- The digits are read as the number that they are worth, modulo 2 ^ 32.
read_digits-worth :
    (ds : List ℕ) (n : ℕ)
    → AllBelow 10 ds
    → read_digits (map decimal_digit ds) (n % 2 ^ 32) ≡ worth 10 n ds % 2 ^ 32
unfolding read_digits
read_digits-worth [] n below = refl
read_digits-worth (d ∷ ds) n (small, below) =
    let is_digit : (leb b'0' (b'0' + d) && leb (b'0' + d) b'9') ≡ true = ground arith in
    let step : (n % 2 ^ 32 * 10 + (b'0' + d - b'0')) % 2 ^ 32 ≡ (n * 10 + d) % 2 ^ 32 =
      omega arith in
    rw (is_digit, step) (read_digits-worth ds (n * 10 + d) below)

skip_blanks-shown :
    (c : ℕ) (s : Text)
    → ((c == b' ') || (c == 9) || (c == 10)) ≡ false
    → skip_blanks (c ∷ s) ≡ c ∷ s
unfolding skip_blanks
skip_blanks-shown c s h = rw h refl

pub atoi-digits :
    (ds : List ℕ) → AllBelow 10 ds → atoi (map decimal_digit ds) ≡ worth 10 0 ds % 2 ^ 32
unfolding atoi read_signed skip_blanks
atoi-digits [] below = refl
atoi-digits (d ∷ ds) (small, below) =
    let c : ℕ = b'0' + d in
    let shown : ((c == b' ') || (c == 9) || (c == 10)) ≡ false = ground arith in
    let not_minus : (c == b'-') ≡ false = ground arith in
    let not_plus : (c == b'+') ≡ false = ground arith in
    rw (shown, not_minus, not_plus) (read_digits-worth (d ∷ ds) 0 (small, below))

pub atoi-minus :
    (ds : List ℕ)
    → AllBelow 10 ds
    → atoi (b'-' ∷ map decimal_digit ds) ≡ opposite (worth 10 0 ds % 2 ^ 32)
unfolding atoi read_signed skip_blanks
atoi-minus ds below = ap opposite (read_digits-worth ds 0 below)
