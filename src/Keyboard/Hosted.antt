-- ===== src/Keyboard/Hosted.antt =====
-- The keyboard driver of kernel/keyboard.c where it is built with TEST_MODE: it reads the host's
-- standard input. The host's functions are a parameter.
use alpha_os.Prelude.{
  ℕ, zero, suc, ◌+◌, ◌-◌, ◌%◌, ◌^◌, ◌≡◌, ◌&&◌, ◌||◌, not, Option, none, some, List, [], ◌∷◌, ◌++◌,
  codes, ltb, leb, ◌==◌, if◌then◌else◌, length, take,
}
use alpha_os.CString.{◌>>=◌}
use alpha_os.CString.Spec.{Text}
use alpha_os.Stdio.Hosted.{hosted_printf}

-- The host's `getchar` (`none` is EOF), `fputc(c, stdout)` and `fflush(stdout)`.
pub record Terminal : Type 1 where
  pub State : Type 0
  pub getchar : State → Option ℕ × State
  pub fputc : ℕ → State → State
  pub fflush : State → State

-- What their documentation says of the bytes still to be read, and of those written.
pub record Obeys (t : Terminal) : Type 0 where
  pub pending : t.State → List ℕ
  pub output : t.State → Text
  pub next :
      (s : t.State) (c : ℕ) (cs : List ℕ)
      → pending s ≡ c ∷ cs
      → ((t.getchar s).0 ≡ some c)
        × (pending (t.getchar s).1 ≡ cs)
        × (output (t.getchar s).1 ≡ output s)
  pub at_end :
      (s : t.State) → pending s ≡ [] → ((t.getchar s).0 ≡ none) × (pending (t.getchar s).1 ≡ [])
  pub writes :
      (c : ℕ) (s : t.State)
      → (pending (t.fputc c s) ≡ pending s) × (output (t.fputc c s) ≡ output s ++ c ∷ [])
  pub flushes :
      (s : t.State) → (pending (t.fflush s) ≡ pending s) × (output (t.fflush s) ≡ output s)

module _ (t : Terminal) where
  open t use {State, getchar, fputc, fflush}

  -- `while (pos < buffer_size - 1) ..`. EOF becomes the `char` -1, which is no key of the three kinds.
  unfoldable pub hosted_loop : (fuel limit : ℕ) (line : Text) → State → Option (Text × State)
  hosted_loop zero limit line s = none
  hosted_loop (suc f) limit line s =
      let (c, s1) = getchar s in
      if not (ltb (length line) limit) then some (line, s) else elim c [
        | none ↦ hosted_loop f limit line s1
        | some k ↦
            let ignored = hosted_loop f limit line s1 in
            let shown = hosted_loop f limit (line ++ k ∷ []) (fflush (fputc k s1)) in
            let erased = hosted_printf f (codes "\u{8} \u{8}") [] >>= λ n.
            hosted_loop f limit (take (length line - 1) line) (fflush s1) in
            if (k == 10) || (k == 13)
            then some (line, s1)
            else if (k == 8) || (k == 127)
            then (if ltb 0 (length line) then erased else ignored)
            else if leb 32 k && leb k 126
            then shown
            else ignored
      ]

  unfoldable pub hosted_get_line : (fuel buffer_size : ℕ) → State → Option (ℕ × Text × State)
  hosted_get_line fuel buffer_size s =
      hosted_loop fuel ((buffer_size + 2 ^ 32 - 1) % 2 ^ 32) [] s >>= λ (line, s1).
      some (length line, line, fputc 10 s1)
