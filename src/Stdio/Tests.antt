-- ===== src/Stdio/Tests.antt =====
-- Formats of libc/stdio.c on concrete sample.
use alpha_os.Prelude.{List, ◌-◌, ◌^◌, ◌≡◌, refl, some, [], ◌∷◌, codes, arith, take}
use alpha_os.CString.{◌>>=◌}
use alpha_os.CString.Spec.{Text}
use alpha_os.Digits.Laws.{digits}
use alpha_os.Stdio.{Arg, word, text, limit, vsprintf, snprintf, hex_digit}
use alpha_os.Stdio.Spec.{expand}
use alpha_os.Stdio.Bounds.{Fits, vsprintf-Fits}
use alpha_os.Stdio.Expand.{vsprintf-expand, snprintf-expand}

abbrev format : Text
format = codes "%s has %u of %d: %x%%"

abbrev sample : List Arg
sample = text (codes "heap") ∷ word 12 ∷ word (2 ^ 32 - 7) ∷ word 255 ∷ []

vsprintf-Fits_example : Fits (vsprintf format sample)
vsprintf-Fits_example = vsprintf-Fits format sample

expand-format : expand format sample ≡ some (codes "heap has 12 of -7: ff%")
unfolding expand digits hex_digit
expand-format = refl

vsprintf-expand_example :
    vsprintf format sample ≡ some (take limit (codes "heap has 12 of -7: ff%"))
vsprintf-expand_example =
    vsprintf-expand format sample (codes "heap has 12 of -7: ff%") expand-format

snprintf-expand_example :
    (snprintf 30 10 format sample >>= λ o. some o.1)
    ≡ some (take (10 - 1) (codes "heap has 12 of -7: ff%"))
snprintf-expand_example =
    snprintf-expand 30 10 format sample (codes "heap has 12 of -7: ff%") (omega arith) (omega arith)
      (omega arith) expand-format
