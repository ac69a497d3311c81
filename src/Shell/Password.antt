-- ===== src/Shell/Password.antt =====
-- The command `root` of kernel/shell.c with the keys that are typed.
use alpha_os.Prelude.{
  ℕ, ◌+◌, ◌≡◌, refl, sym, ap, ◌∙◌, Bool, true, false, Option, none, some, List, [], ◌∷◌, ◌&&◌,
  arith, length, Bool-cases, Option-cases, inl, inr,
}
use alpha_os.CString.Spec.{Text}
use alpha_os.Console.{Console, VgaColor, console_set_color, console_write}
use alpha_os.Keyboard.{Typed, keyboard_get_line}
use alpha_os.Keyboard.Queue.{IsRing}
use alpha_os.Keyboard.Line.{edit, coming, typed_of, measured, keyboard_get_line_lem}
use alpha_os.Keyboard.Return.{length-coming}
use alpha_os.Stdio.{vsprintf, vsprintf_loop, vprintf, c_string}
use alpha_os.Shell.{World, Output, paint, print, show, display, read_line}
use alpha_os.Shell.Users.{
  is_password, become_root, password_outputs, activated_outputs, denied_outputs, enter_root,
  cmd_root_shell,
}

abbrev pub has_text : Option Text → Bool
has_text none = false
has_text (some t) = true

-- Whether every format has a meaning.
abbrev pub sound : List Output → Bool
sound [] = true
sound (paint fg ∷ os) = sound os
sound (print format args ∷ os) = has_text (vsprintf format args) && sound os

show-sound :
    (os : List Output) (s : Console) → sound os ≡ true → (s' : Console) × (show os s ≡ some s')
unfolding show vprintf
show-sound [] s h = (s, refl)
show-sound (paint fg ∷ os) s h = show-sound os (console_set_color s fg VgaColor.black) h
show-sound (print format args ∷ os) s h = elim (Option-cases (vsprintf format args)) [
  | inl bad ↦ absurd (nothing (rw bad at h))
  | inr (out, good) ↦
      let (s', e) = show-sound os (console_write s (c_string out)) (rw good at h) in (s', rw good e)
]
  where
    nothing : ¬ (false ≡ true)
    nothing e = cc

pub display-sound :
    (os : List Output) (w : World)
    → sound os ≡ true
    → (s : Console) × (display os w ≡ some (record w { console = s }))
unfolding display
display-sound os w h = let (s, e) = show-sound os w.console h in (s, rw e refl)

enter_root-returns :
    (password : Text) (w : World)
    → w.shell.is_root ≡ false
    → (w' : World) × (enter_root password w ≡ some w')
      × (w'.shell.is_root ≡ is_password password)
      × (w'.keyboard ≡ w.keyboard)
      × (w'.readings ≡ w.readings)
unfolding enter_root vsprintf vsprintf_loop
enter_root-returns password w user = elim (Bool-cases (is_password password)) [
  | inl right ↦
      let (s, e) = display-sound activated_outputs (become_root w) refl in
      (record (become_root w) { console = s }, rw right e, sym right, refl, refl)
  | inr wrong ↦
      let (s, e) = display-sound denied_outputs w refl in
      (record w { console = s }, rw wrong e, user ∙ sym wrong, refl, refl)
]

cmd_root_shell-asks :
    (w w1 w2 : World) (n : ℕ) (password : Text)
    → w.shell.is_root ≡ false
    → display password_outputs w ≡ some w1
    → read_line 64 w1 ≡ some (n, password, w2)
    → cmd_root_shell w ≡ enter_root password w2
unfolding cmd_root_shell
cmd_root_shell-asks w w1 w2 n password user shown read = rw (shown, read, user) refl

-- Where a user who is not root enters `root`, and the keys that wait and come make a line of at most
-- 63 bytes, from a ring with its indices in range, the command returns; the user is root then exactly
-- where that line is a password, and the keys behind the line are left.
pub cmd_root_shell_lem :
    (w : World) (password : Text) (left : List ℕ)
    → w.shell.is_root ≡ false
    → IsRing w.keyboard
    → edit 63 (coming w.keyboard w.readings) [] ≡ some (password, left)
    → (w' : World) × (cmd_root_shell w ≡ some w')
      × (w'.shell.is_root ≡ is_password password)
      × (coming w'.keyboard w'.readings ≡ left)
unfolding vsprintf vsprintf_loop
cmd_root_shell_lem w password left user ring line =
    let (s, shown) = display-sound password_outputs w refl in
    let got =
      keyboard_get_line_lem (257 + length w.readings) 64 w.keyboard s w.readings ring
        (length-coming w.keyboard w.readings) (omega arith) (omega arith) in
    go s shown (keyboard_get_line (257 + length w.readings) 64 w.keyboard s w.readings) refl
      (got ∙ ap measured line)
  where
    go :
        (s : Console)
        → display password_outputs w ≡ some (record w { console = s })
        → (o : Option (ℕ × Typed))
        → keyboard_get_line (257 + length w.readings) 64 w.keyboard s w.readings ≡ o
        → typed_of o ≡ measured (some (password, left))
        → (w' : World) × (cmd_root_shell w ≡ some w')
          × (w'.shell.is_root ≡ is_password password)
          × (coming w'.keyboard w'.readings ≡ left)
    go s shown none e same = absurd (cc)
    go s shown (some (n, t)) e same =
        let w2 : World = record w {
          console = t.console;
          keyboard = t.keyboard;
          readings = t.readings;
        } in
        let read : read_line 64 (record w { console = s }) ≡ some (n, t.line, w2) =
          unfold read_line in rw e refl in
        let same_line : t.line ≡ password = cc in
        let rest : coming t.keyboard t.readings ≡ left = cc in
        let (w', entered, root, keys, readings) = enter_root-returns t.line w2 user in
        (
          w',
          cmd_root_shell-asks w (record w { console = s }) w2 n t.line user shown read ∙ entered,
          root ∙ ap is_password same_line,
          ap (λ k. coming k w'.readings) keys ∙ ap (coming t.keyboard) readings ∙ rest,
        )
