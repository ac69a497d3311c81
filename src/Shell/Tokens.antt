-- ===== src/Shell/Tokens.antt =====
-- The words of a command line: the token loop of `shell_process_command` in kernel/shell.c.
use alpha_os.Prelude.{
  ℕ, zero, suc, ◌+◌, ◌-◌, ◌≤◌, ◌<◌, ◌≡◌, refl, sym, ap, ◌∙◌, Option, none, some, List, [], ◌∷◌,
  ◌++◌, arith, ltb, Bool-cases, inl, inr, length, length-append, take, append_assoc, append-nil,
}
use alpha_os.CString.Spec.{Text}
use alpha_os.Strtok.Spec.{Saved, next_text}
use alpha_os.Strtok.Words.{Yields, words, words_of, rounds, next_text-words, next_text-rounds}
use alpha_os.Shell.{max_args, max_command_length}
use alpha_os.Shell.Dispatch.{blanks, argument_loop, arguments}

-- The words that are still taken, behind those that have been.
abbrev taken : List Text → List Text → List Text
taken argv ws = argv ++ take (max_args - length argv) ws

taken-next :
    (argv : List Text) (t : Text) (ts : List Text)
    → length argv < max_args
    → taken (argv ++ t ∷ []) ts ≡ taken argv (t ∷ ts)
taken-next argv t ts h =
    let e : max_args - length argv ≡ suc (max_args - length (argv ++ t ∷ [])) =
      omega (arith, length-append {0} argv (t ∷ [])) in
    rw e (append_assoc argv (t ∷ []) (take (max_args - length (argv ++ t ∷ [])) ts))

taken-full : (argv ws : List Text) → length argv ≡ max_args → taken argv ws ≡ argv
taken-full argv ws h = let e : max_args - length argv ≡ 0 = omega arith in rw e (append-nil argv)

take-nil : (n : ℕ) → take {A = Text} n [] ≡ []
take-nil zero = refl
take-nil (suc n) = refl

taken-nil : (argv : List Text) → taken argv [] ≡ argv
taken-nil argv = ap (λ l. argv ++ l) (take-nil (max_args - length argv)) ∙ append-nil argv

argument_loop_lem :
    (fuel : ℕ) (ws : List Text) (token : Option Text) (saved : Saved) (argv : List Text)
    → Yields blanks ws (token, saved)
    → rounds token saved < fuel
    → length argv ≤ max_args
    → (saved' : Saved) × (argument_loop fuel token saved argv ≡ some (taken argv ws, saved'))
unfolding argument_loop
argument_loop_lem zero ws token saved argv y lt le = absurd (omega arith)
argument_loop_lem (suc f) ws none saved argv y lt le =
    (saved, rw y.0 (ap (λ l. some (l, saved)) (sym (taken-nil argv))))
argument_loop_lem (suc f) ws (some t) saved argv y lt le =
    elim (Bool-cases (ltb (length argv) max_args)) [
      | inl room ↦
          let (saved', e) =
            argument_loop_lem f (words_of blanks saved) (next_text blanks saved).0
              (next_text blanks saved).1 (argv ++ t ∷ []) (next_text-words blanks saved)
              (omega (arith, next_text-rounds blanks saved))
              (ground (arith, length-append {0} argv (t ∷ []))) in
          (
            saved',
            rw (y, room)
                (e
                  ∙ ap (λ l. some (l, saved'))
                      (taken-next argv t (words_of blanks saved) (ground arith))),
          )
      | inr full ↦ (
        saved,
        rw (y, full)
            (ap (λ l. some (l, saved))
              (sym (taken-full argv (t ∷ words_of blanks saved) (ground arith)))),
      )
    ]

-- The token loop of `shell_process_command` ends on every line, and `argv` then has the first 32 of
-- the maximal pieces without blanks that the line's first 511 bytes have.
pub arguments-words :
    (command : Text)
    → (saved : Saved) × (arguments command
        ≡ some (take max_args (words blanks (take (max_command_length - 1) command)), saved))
unfolding arguments words_of
arguments-words command =
    let cmd_copy : Text = take (max_command_length - 1) command in
    argument_loop_lem (length cmd_copy + 2) (words blanks cmd_copy)
      (next_text blanks (some cmd_copy)).0 (next_text blanks (some cmd_copy)).1 []
      (next_text-words blanks (some cmd_copy))
      (omega (arith, next_text-rounds blanks (some cmd_copy))) (omega arith)
