-- ===== src/Stdlib/Integer.antt =====
-- The decimal text of an integer.
use alpha_os.Prelude.{suc, ◌∷◌}
use alpha_os.Prelude.Int.{ℤ, pos, negsuc}
use alpha_os.CString.Spec.{Text}
use alpha_os.Stdio.Spec.{decimal_text}

abbrev pub number_text : ℤ → Text
number_text (pos n) = decimal_text n
number_text (negsuc n) = b'-' ∷ decimal_text (suc n)
