-- ===== src/Shell/Steady.antt =====
-- A property of the system that the steps of kernel/shell.c keep is kept by every command line and by
-- the loop of `shell_run`.
use alpha_os.Prelude.{
  ℕ, ◌-◌, ◌^◌, length, Bool-cases, inl, inr, ◌≡◌, refl, Option, none, some, List, [], ◌∷◌, codes,
  ltb, bytes_eq, if◌then◌else◌,
}
use alpha_os.CString.{◌>>=◌}
use alpha_os.CString.Spec.{Text}
use alpha_os.Shell.History.{shell_add_to_history}
use alpha_os.Shell.{
  World, Handler, Command, Output, display, read_line, find_command, max_command_length,
}
use alpha_os.Shell.Frame.{
  Stable, After, After-none, After-some, After-then, After-bind, After-result_of, After-if,
}
use alpha_os.Shell.Frame.Commands.{run_handler-After}
use alpha_os.Shell.Users.{
  is_password, become_root, become_user, enter_root, cmd_root_shell, cmd_exit_root, cmd_su,
}
use alpha_os.Shell.Prompt.{shell_print_prompt, shell_print_enhanced_prompt}
use alpha_os.Shell.Dispatch.{
  run_handler, arguments, remember, not_found, execute, shell_process_command, shell_round,
}

-- The worlds that the loop of `shell_run` goes through, from a first one on.
pub data Runs (w : World) : World → Type 0 where
  start : Runs w w
  round : {w1 w2 : World} → Runs w w1 → shell_round w1 ≡ some w2 → Runs w w2

-- What noting a line leaves.
pub remember-After :
    (P : World → Type 0) (command : Text) (w : World)
    → P w
    → ((slots : ℕ → Text) (count : ℕ)
        → P (record w {
          shell = record w.shell { command_history = slots; history_count = count };
        }))
    → After P (remember command w)
unfolding shell_add_to_history
remember-After P command w h more = elim (Bool-cases (ltb 0 (length command))) [
  | inr nothing ↦ rw nothing (After-some P w h)
  | inl line ↦ elim (Bool-cases (ltb w.shell.history_count (2 ^ 31 - 1))) [
    | inl room ↦ rw (line, room) (After-some P _ (more _ _))
    | inr over ↦ rw (line, over) (After-none P)
  ]
]

-- The other steps of a command line: a line is read, the user changes, a line is remembered.
pub record Steady (P : World → Type 0) : Type 0 where
  pub stable : Stable P
  pub reads :
      (size : ℕ) (w : World) (n : ℕ) (t : Text) (w1 : World)
      → P w
      → read_line size w ≡ some (n, t, w1)
      → P w1
  pub roots : (w : World) → P w → P (become_root w)
  pub users : (w : World) → P w → P (become_user w)
  pub remembers :
      (slots : ℕ → Text) (count : ℕ) (w : World)
      → P w
      → P (record w { shell = record w.shell { command_history = slots; history_count = count } })

module _ (P : World → Type 0) (steady : Steady P) where
  displays : (os : List Output) (w : World) → P w → After P (display os w)
  displays = steady.stable.displays

  read_line-After :
      (size : ℕ) (w : World) (f : ℕ → Text → World → Option World)
      → P w
      → ((n : ℕ) (t : Text) (w1 : World) → P w1 → After P (f n t w1))
      → After P (read_line size w >>= λ (n, t, w1). f n t w1)
  read_line-After size w f h next =
      After-result_of P (read_line size w) _
        λ r e. next r.0 r.1 r.2 (steady.reads size w r.0 r.1 r.2 h e)

  enter_root-After : (password : Text) (w : World) → P w → After P (enter_root password w)
  unfolding enter_root
  enter_root-After password w h =
      After-if P (is_password password) _ _ (displays _ (become_root w) (steady.roots w h))
        (displays _ w h)

  cmd_root_shell-After : (w : World) → P w → After P (cmd_root_shell w)
  unfolding cmd_root_shell
  cmd_root_shell-After w h = After-if P w.shell.is_root _ _ (displays _ w h) (
      After-then P _ _ (displays _ w h) λ w1 h1.
        read_line-After 64 w1 (λ n t w2. enter_root t w2) h1 λ n t w2 h2. enter_root-After t w2 h2)

  cmd_exit_root-After : (w : World) → P w → After P (cmd_exit_root w)
  unfolding cmd_exit_root
  cmd_exit_root-After w h =
      After-if P w.shell.is_root _ _ (displays _ (become_user w) (steady.users w h))
        (displays _ w h)

  cmd_su-After : (argv : List Text) (w : World) → P w → After P (cmd_su argv w)
  unfolding cmd_su
  cmd_su-After [] w h = displays _ w h
  cmd_su-After (c ∷ []) w h = displays _ w h
  cmd_su-After (c ∷ user ∷ argv) w h =
      After-if P (bytes_eq user (codes "root")) _ _ (cmd_root_shell-After w h) (
        After-if P (bytes_eq user (codes "user")) _ _
          (After-if P w.shell.is_root _ _ (cmd_exit_root-After w h) (displays _ w h))
          (displays _ w h))

  handler-After :
      (handler : Handler) (argv : List Text) (w : World)
      → P w
      → After P (run_handler handler argv w)
  handler-After Handler.su argv w h = unfold run_handler in cmd_su-After argv w h
  handler-After Handler.root_shell argv w h = unfold run_handler in cmd_root_shell-After w h
  handler-After Handler.exit_root argv w h = unfold run_handler in cmd_exit_root-After w h
  handler-After other argv w h = run_handler-After steady.stable other argv w refl h

  execute-After : (argv : List Text) (w : World) → P w → After P (execute argv w)
  unfolding execute
  execute-After [] w h = After-some P w h
  execute-After (name ∷ argv) w h = go (find_command name w.shell.commands)
    where
      go :
          (o : Option (Option Command))
          → After P (elim o [
            | none ↦ none
            | some none ↦ display (not_found name) w
            | some (some c) ↦ run_handler c.handler (name ∷ argv) w
          ])
      go none = After-none P
      go (some none) = displays _ w h
      go (some (some c)) = handler-After c.handler (name ∷ argv) w h

  pub shell_process_command-After :
      (command : Text) (w : World) → P w → After P (shell_process_command command w)
  unfolding shell_process_command
  shell_process_command-After command w h =
      After-then P (remember command w) _
        (remember-After P command w h λ slots count. steady.remembers slots count w h)
        λ w1 h1.
          After-bind P (arguments command) _
            λ a. execute-After a.0 _ (steady.stable.saves a.1 w1 h1)

  shell_round-After : (w : World) → P w → After P (shell_round w)
  unfolding shell_round shell_print_prompt shell_print_enhanced_prompt
  shell_round-After w h = After-then P _ _ (displays _ w h) λ w1 h1.
      read_line-After max_command_length w1
        (λ n t w2. if ltb 0 n then shell_process_command t w2 else some w2) h1
        λ n t w2 h2.
          After-if P (ltb 0 n) _ _ (shell_process_command-After t w2 h2) (After-some P w2 h2)

  pub After-result : {w' : World} (o : Option World) → After P o → o ≡ some w' → P w'
  After-result o h e = unfold After in rw e at h

  pub Runs-keep : (w w' : World) → P w → Runs w w' → P w'
  Runs-keep w w' h start = h
  Runs-keep w w' h (round {w1} {w2} before e) =
      After-result (shell_round w1) (shell_round-After w1 (Runs-keep w w1 h before)) e
