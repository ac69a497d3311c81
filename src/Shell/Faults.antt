-- ===== src/Shell/Faults.antt =====
-- Where the formats of kernel/shell.c and the conversions of libc/stdio.c do not agree: `history` and
-- `ls`.
use alpha_os.Prelude.{
  ℕ, suc, ◌+◌, ◌-◌, ◌%◌, ◌<◌, ◌≡◌, refl, ap, ◌∙◌, false, ◌==◌, none, some, List, [], ◌∷◌, ◌++◌,
  codes, arith, if◌then◌else◌, ltb, Option-cases, inl, inr,
}
use alpha_os.CString.Spec.{Text}
use alpha_os.Strtok.Spec.{has}
use alpha_os.FilePath.{slash}
use alpha_os.Console.{Console, VgaColor, console_set_color, console_write}
use alpha_os.Stdio.{
  Arg, word, text, vsprintf, vsprintf_loop, convert, put_string, vprintf, c_string,
}
use alpha_os.Shell.{World, Shell, Output, show, display, paint, print, history_size}
use alpha_os.Shell.History.{shell_get_history_count}
use alpha_os.Shell.Listing.{simple_line}
use alpha_os.Shell.Recall.{shell_get_history-present, history_outputs-next}
use alpha_os.Shell.Numbers.{history_outputs, history_start, history_header, cmd_history}

-- `%3d` takes no argument, so `%s` takes the number.
history_format : (n : ℕ) (l : Text) → vsprintf (codes "%3d  %s\n") (word n ∷ text l ∷ []) ≡ none
unfolding vsprintf vsprintf_loop convert put_string
history_format n l = refl

-- `%-20s` is printed as it stands.
simple_format : (args : List Arg) → vsprintf (codes "%-20s") args ≡ some (codes "%-20s")
unfolding vsprintf vsprintf_loop convert
simple_format args = refl

-- A listing without `-l` has the same screen for any two names that both have a slash, or both have
-- none: the name is not printed.
pub simple_line-nameless :
    (name other : Text) (count : ℕ) (w : World)
    → has slash name ≡ has slash other
    → simple_line name count w ≡ simple_line other count w
unfolding simple_line display show vprintf
simple_line-nameless name other count w same =
    rw (simple_format (text name ∷ []), simple_format (text other ∷ []), same) refl

-- Outputs with a faulty one among them have no result.
show-fault :
    (os rest : List Output) (format : Text) (args : List Arg) (s : Console)
    → vsprintf format args ≡ none
    → show (os ++ print format args ∷ rest) s ≡ none
unfolding show vprintf
show-fault [] rest format args s fault = rw fault refl
show-fault (paint fg ∷ os) rest format args s fault =
    show-fault os rest format args (console_set_color s fg VgaColor.black) fault
show-fault (print f a ∷ os) rest format args s fault = elim (Option-cases (vsprintf f a)) [
  | inl bad ↦ rw bad refl
  | inr (out, good) ↦
      rw good (show-fault os rest format args (console_write s (c_string out)) fault)
]

display-fault : (os : List Output) (w : World) → show os w.console ≡ none → display os w ≡ none
unfolding display
display-fault os w e = rw e refl

-- With a line in the history, `history` has no defined behaviour: its format makes `vsprintf` take the
-- line's number for the address of a string.
pub cmd_history-fault : (w : World) → 0 < w.shell.history_count → cmd_history w ≡ none
unfolding cmd_history shell_get_history_count
cmd_history-fault w some_lines =
    let s : Shell = w.shell in
    let count : ℕ = if ltb s.history_count history_size then s.history_count else history_size in
    let more : (count == 0) ≡ false = ground arith in
    let k : count ≡ suc (count - 1) = ground arith in
    let i : ℕ = (history_start s + 0) % history_size in
    let first =
      history_outputs-next s (history_start s) (count - 1) 0 (s.command_history i)
        (shell_get_history-present s i (omega arith) (ground arith)) in
    rw more (
      display-fault (history_header ++ history_outputs s (history_start s) count 0) w (
        ap (λ os. show (history_header ++ os) w.console)
          (ap (λ n. history_outputs s (history_start s) n 0) k ∙ first)
        ∙ show-fault history_header (history_outputs s (history_start s) (count - 1) 1) _ _
            w.console (history_format (history_start s + 0 + 1) (s.command_history i))))
