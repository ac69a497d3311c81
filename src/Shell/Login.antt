-- ===== src/Shell/Login.antt =====
-- Who becomes root in kernel/shell.c: the commands `root`, `su` and `exit`.
use alpha_os.Prelude.{
  ℕ, ◌+◌, ◌≡◌, refl, true, false, ◌⊎◌, inl, inr, Option, none, some, List, [], ◌∷◌, codes, bytes_eq,
  eq_of_bytes_eq, length, Bool-cases,
}
use alpha_os.CString.{◌>>=◌}
use alpha_os.CString.Spec.{Text}
use alpha_os.Console.{Console}
use alpha_os.Keyboard.{Typed, keyboard_get_line}
use alpha_os.Shell.{
  World, Handler, Command, Output, show, display, read_line, find_command, keep_saved,
}
use alpha_os.Shell.Users.{
  is_password, become_user, password_outputs, enter_root, cmd_root_shell, cmd_exit_root, cmd_su,
}
use alpha_os.Shell.Dispatch.{
  run_handler, arguments, remember, not_found, execute, shell_process_command,
}
use alpha_os.Shell.Steady.{remember-After}
use alpha_os.Shell.Frame.{After, Stable, After-none, After-some, After-bind, After-if}
use alpha_os.Shell.Frame.Commands.{run_handler-After}

-- The keyboard of a world gives one of the two passwords, "root" or "admin", as the next line of at most
-- 63 bytes.
pub record GivenPassword (w : World) : Type 0 where
  pub screen : Console
  pub len : ℕ
  pub typed : Typed
  pub reads :
      keyboard_get_line (257 + length w.readings) 64 w.keyboard screen w.readings
      ≡ some (len, typed)
  pub right : (typed.line ≡ codes "root") ⊎ (typed.line ≡ codes "admin")

-- What `is_password` accepts.
right_line :
    (line : Text) → is_password line ≡ true → (line ≡ codes "root") ⊎ (line ≡ codes "admin")
right_line line h = elim (Bool-cases (bytes_eq line (codes "root"))) [
  | inl first ↦ inl (eq_of_bytes_eq line (codes "root") first)
  | inr other ↦ inr (eq_of_bytes_eq line (codes "admin") (rw other at h))
]

-- The user has no rights, or has given the password.
abbrev Rightly : World → World → Type 0
Rightly w w' = (w'.shell.is_root ≡ false) ⊎ GivenPassword w

-- A world in which nobody is root, and which has the keyboard of `w`.
abbrev Plain : World → World → Type 0
Plain w w' = (w'.shell.is_root ≡ false) × (w'.keyboard ≡ w.keyboard) × (w'.readings ≡ w.readings)

pub After-display :
    (P : World → Type 0)
    → ((w : World) (s : Console) → P w → P (record w { console = s }))
    → (os : List Output) (w : World) → P w
    → After P (display os w)
unfolding display After
After-display P keep os w h = go (show os w.console)
  where
    go : (o : Option Console) → After P (o >>= λ s. some (record w { console = s }))
    go none = tt
    go (some s) = keep w s h

Plain-Stable : (w : World) → Stable (Plain w)
Plain-Stable w = record {
  displays = After-display (Plain w) (λ w1 s h. h);
  clears = λ w1 h. h;
  dirs = λ d w1 k h. h;
  saves = λ d w1 h. h;
  ticks = λ d w1 h. h;
  names = λ d w1 h. h;
  creates = λ name d w1 k h. h;
  deletes = λ name w1 h. h;
}

Rightly-display :
    (w : World) (os : List Output) (w1 : World) → Rightly w w1 → After (Rightly w) (display os w1)
Rightly-display w = After-display (Rightly w) λ w1 s h. h

After-map :
    (P Q : World → Type 0) (o : Option World) → ((w : World) → P w → Q w) → After P o → After Q o
unfolding After
After-map P Q none f h = tt
After-map P Q (some w) f h = f w h

After-seq :
    (P Q : World → Type 0) (o : Option World) (f : World → Option World)
    → After P o
    → ((w : World) → P w → After Q (f w))
    → After Q (o >>= f)
unfolding After
After-seq P Q none f h next = tt
After-seq P Q (some w) f h next = next w h

-- Asking for the password, with the keyboard as it was before the command.
asked-Rightly :
    (w w1 : World)
    → Plain w w1
    → After (Rightly w) (read_line 64 w1 >>= λ (n, password, w2). enter_root password w2)
unfolding read_line enter_root
asked-Rightly w w1 (user, same_keyboard, same_readings) =
    go (keyboard_get_line (257 + length w1.readings) 64 w1.keyboard w1.console w1.readings) refl
  where
    reads :
        (n : ℕ) (t : Typed)
        → keyboard_get_line (257 + length w1.readings) 64 w1.keyboard w1.console w1.readings
          ≡ some (n, t)
        → keyboard_get_line (257 + length w.readings) 64 w.keyboard w1.console w.readings
          ≡ some (n, t)
    reads n t e = rw (same_keyboard, same_readings) at e

    go :
        (o : Option (ℕ × Typed))
        → keyboard_get_line (257 + length w1.readings) 64 w1.keyboard w1.console w1.readings ≡ o
        → After (Rightly w) (
            (o >>= λ (n, t). some (
              n,
              t.line,
              record w1 { console = t.console; keyboard = t.keyboard; readings = t.readings },
            ))
            >>= λ (n, password, w2). enter_root password w2)
    go none e = After-none (Rightly w)
    go (some (n, t)) e = elim (Bool-cases (is_password t.line)) [
      | inl right ↦
          After-if (Rightly w) (is_password t.line) _ _
            (Rightly-display w _ _ (
              inr (record {
                screen = w1.console;
                len = n;
                typed = t;
                reads = reads n t e;
                right = right_line t.line right;
              })))
            (Rightly-display w _ _ (inl user))
      | inr wrong ↦ rw wrong (Rightly-display w _ _ (inl user))
    ]

cmd_root_shell-Rightly : (w w1 : World) → Plain w w1 → After (Rightly w) (cmd_root_shell w1)
unfolding cmd_root_shell
cmd_root_shell-Rightly w w1 h =
    After-if (Rightly w) w1.shell.is_root _ _ (Rightly-display w _ w1 (inl h.0)) (
      After-seq (Plain w) (Rightly w) (display password_outputs w1) _
        ((Plain-Stable w).displays password_outputs w1 h) λ w2 h2. asked-Rightly w w2 h2)

cmd_exit_root-Rightly : (w w1 : World) → Plain w w1 → After (Rightly w) (cmd_exit_root w1)
unfolding cmd_exit_root
cmd_exit_root-Rightly w w1 h =
    After-if (Rightly w) w1.shell.is_root _ _ (Rightly-display w _ (become_user w1) (inl refl))
      (Rightly-display w _ w1 (inl h.0))

cmd_su-Rightly : (argv : List Text) (w w1 : World) → Plain w w1 → After (Rightly w) (cmd_su argv w1)
unfolding cmd_su
cmd_su-Rightly [] w w1 h = Rightly-display w _ w1 (inl h.0)
cmd_su-Rightly (c ∷ []) w w1 h = Rightly-display w _ w1 (inl h.0)
cmd_su-Rightly (c ∷ user ∷ argv) w w1 h =
    After-if (Rightly w) (bytes_eq user (codes "root")) _ _ (cmd_root_shell-Rightly w w1 h) (
      After-if (Rightly w) (bytes_eq user (codes "user")) _ _
        (After-if (Rightly w) w1.shell.is_root _ _ (cmd_exit_root-Rightly w w1 h)
          (Rightly-display w _ w1 (inl h.0)))
        (Rightly-display w _ w1 (inl h.0)))

handler-Rightly :
    (handler : Handler) (argv : List Text) (w w1 : World)
    → Plain w w1
    → After (Rightly w) (run_handler handler argv w1)
handler-Rightly Handler.su argv w w1 h = unfold run_handler in cmd_su-Rightly argv w w1 h
handler-Rightly Handler.root_shell argv w w1 h = unfold run_handler in cmd_root_shell-Rightly w w1 h
handler-Rightly Handler.exit_root argv w w1 h = unfold run_handler in cmd_exit_root-Rightly w w1 h
handler-Rightly other argv w w1 h =
    After-map (Plain w) (Rightly w) (run_handler other argv w1) (λ w2 p. inl p.0)
      (run_handler-After (Plain-Stable w) other argv w1 refl h)

execute-Rightly :
    (argv : List Text) (w w1 : World) → Plain w w1 → After (Rightly w) (execute argv w1)
unfolding execute
execute-Rightly [] w w1 h = After-some (Rightly w) w1 (inl h.0)
execute-Rightly (name ∷ argv) w w1 h = go (find_command name w1.shell.commands)
  where
    go :
        (o : Option (Option Command))
        → After (Rightly w) (elim o [
          | none ↦ none
          | some none ↦ display (not_found name) w1
          | some (some c) ↦ run_handler c.handler (name ∷ argv) w1
        ])
    go none = After-none (Rightly w)
    go (some none) = Rightly-display w _ w1 (inl h.0)
    go (some (some c)) = handler-Rightly c.handler (name ∷ argv) w w1 h

-- A command line makes a user root only where the keyboard then gives a right password: where nobody
-- was root before a line, the line has a defined result and somebody is root after it, the next line that the keyboard gives, as the
-- readings go on, is "root" or "admin".
pub shell_process_command-GivenPassword :
    (command : Text) (w w' : World)
    → w.shell.is_root ≡ false
    → shell_process_command command w ≡ some w'
    → w'.shell.is_root ≡ true
    → GivenPassword w
unfolding After
shell_process_command-GivenPassword command w w' user e root = go (rw e at after)
  where
    after : After (Rightly w) (shell_process_command command w)
    after =
        unfold shell_process_command in
        After-seq (Plain w) (Rightly w) (remember command w) _
          (remember-After (Plain w) command w (user, refl, refl) λ slots count. (user, refl, refl))
          λ w1 h.
            After-bind (Rightly w) (arguments command) _
              λ a. execute-Rightly a.0 w (keep_saved a.1 w1) h

    go : After (Rightly w) (some w') → GivenPassword w
    go (inl still) = absurd (cc)
    go (inr given) = given
