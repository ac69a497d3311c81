-- ===== src/Stdio/Hosted.antt =====
-- `vprintf` and `printf` of libc/stdio.c where they are built with TEST_MODE: `vprintf` calls `printf`,
-- and the linker gives it the `printf` of the same file.
use alpha_os.Prelude.{
  ℕ, zero, suc, ◌≡◌, refl, Option, none, some, List, [], ◌∷◌, length, Option-cases, inl, inr, codes,
}
use alpha_os.CString.{◌>>=◌}
use alpha_os.CString.Spec.{Text}
use alpha_os.Stdio.{Arg, text, c_string, vsprintf}

-- `none` says that the fuel has run out.
unfoldable pub hosted_vprintf : (fuel : ℕ) (format : Text) → List Arg → Option ℕ
hosted_vprintf zero format args = none
hosted_vprintf (suc f) format args = vsprintf format args >>= λ buffer.
    hosted_vprintf f (codes "%s") (text (c_string buffer) ∷ []) >>= λ n. some (length buffer)

unfoldable pub hosted_printf : (fuel : ℕ) (format : Text) → List Arg → Option ℕ
hosted_printf fuel format args = hosted_vprintf fuel format args

hosted_vprintf-none :
    (fuel : ℕ) (format : Text) (args : List Arg) → hosted_vprintf fuel format args ≡ none
unfolding hosted_vprintf
hosted_vprintf-none zero format args = refl
hosted_vprintf-none (suc f) format args = elim (Option-cases (vsprintf format args)) [
  | inl fault ↦ rw fault refl
  | inr (buffer, written) ↦
      rw (written, hosted_vprintf-none f (codes "%s") (text (c_string buffer) ∷ [])) refl
]

-- In TEST_MODE no fuel is enough for a call of `printf`: the calls never come to an end.
pub hosted_printf-none :
    (fuel : ℕ) (format : Text) (args : List Arg) → hosted_printf fuel format args ≡ none
unfolding hosted_printf
hosted_printf-none fuel format args = hosted_vprintf-none fuel format args
