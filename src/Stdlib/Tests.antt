-- ===== src/Stdlib/Tests.antt =====
-- Numbers of libc/stdlib.c.
use alpha_os.Prelude.{◌-◌, ◌^◌, ◌≡◌, refl, some, [], ◌∷◌, codes, arith}
use alpha_os.Prelude.Int.{ℤ, negsuc, ◌+ℤ◌, ◌*ℤ◌}
use alpha_os.Stdlib.Float.{Double, IsExact, atof}
use alpha_os.Stdlib.Integer.{number_text}
use alpha_os.Stdlib.Double.{atof-number_text}
use alpha_os.Bytes.{Memory}
use alpha_os.CString.{◌>>=◌}
use alpha_os.CString.Spec.{IsString}
use alpha_os.Digits.Laws.{digits}
use alpha_os.Stdio.{word, vsprintf}
use alpha_os.Stdlib.{skip_blanks, read_digits, read_signed, atoi, rand, itoa}
use alpha_os.Stdlib.Itoa.{numeral, itoa_lem}
use alpha_os.Stdlib.RoundTrip.{atoi-vsprintf}

atoi-vsprintf_example :
    (vsprintf (codes "%d") (word (2 ^ 32 - 120) ∷ []) >>= λ s. some (atoi s)) ≡ some (2 ^ 32 - 120)
atoi-vsprintf_example = atoi-vsprintf (2 ^ 32 - 120) (omega arith) λ e. absurd (omega arith)

atoi-blanks : atoi (codes " \t-42x") ≡ 2 ^ 32 - 42
unfolding atoi skip_blanks read_signed read_digits
atoi-blanks = refl

-- The first numbers for the seed 1.
rand-first : (rand 1).0 ≡ 16838
unfolding rand
rand-first = refl

itoa_example :
    (m' : Memory) × (itoa (2 ^ 32 - 255) 0x1000 16 (λ a. 0) ≡ some (0x1000, m'))
    × IsString m' 0x1000 (numeral 16 (2 ^ 32 - 255))
itoa_example = itoa_lem (2 ^ 32 - 255) 0x1000 16 (λ a. 0) (omega arith) (omega arith) (omega arith)

numeral-hexadecimal : numeral 16 (2 ^ 32 - 255) ≡ codes "-ff"
unfolding digits
numeral-hexadecimal = refl

-- Integers in the place of the floating-point numbers.
abbrev integers : Double
integers = record {
  Value = ℤ;
  of_int = λ z. z;
  add = λ a b. a +ℤ b;
  mul = λ a b. a *ℤ b;
  div = λ a b. a;
}

exact_integers : IsExact integers
unfolding ◌+ℤ◌ ◌*ℤ◌
exact_integers = record {
  adds = λ a b h. ground arith;
  muls = λ a b h. ground arith;
  opposes = λ a pos le. ground arith;
}

atof-number_text_example : atof integers (number_text (negsuc 41)) ≡ negsuc 41
atof-number_text_example = atof-number_text integers exact_integers (negsuc 41) (omega arith)
