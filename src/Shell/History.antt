-- ===== src/Shell/History.antt =====
-- The command history and the current directory of kernel/shell.c.
use alpha_os.Prelude.{
  ℕ, ◌+◌, ◌-◌, ◌%◌, ◌^◌, not, Option, none, some, ltb, ◌==◌, ◌&&◌, if◌then◌else◌, length, take,
}
use alpha_os.CString.Spec.{Text}
use alpha_os.Shell.{Shell, max_command_length, max_path_length, history_size}

abbrev pub shell_get_current_dir : Shell → Text
shell_get_current_dir s = s.current_dir

unfoldable pub shell_set_current_dir : Shell → Text → Shell
shell_set_current_dir s dir = record s { current_dir = take (max_path_length - 1) dir }

-- The slot `i` of an array gets a text.
abbrev pub put_slot : (ℕ → Text) → ℕ → Text → ℕ → Text
put_slot slots i s j = if j == i then s else slots j

-- `history_count` is an `int`, and never negative: none says that `history_count++` overflows it.
unfoldable pub shell_add_to_history : Shell → (command : Text) → Option Shell
shell_add_to_history s command =
    if not (ltb 0 (length command))
    then some s
    else if ltb s.history_count (2 ^ 31 - 1)
    then some (record s {
      command_history =
          put_slot s.command_history (s.history_count % history_size)
            (take (max_command_length - 1) command);
      history_count = s.history_count + 1;
    })
    else none

-- `index` is not negative.
unfoldable pub shell_get_history : Shell → (index : ℕ) → Option Text
shell_get_history s index =
    if ltb index history_size && ltb index s.history_count
    then some (s.command_history index)
    else none

unfoldable pub shell_get_history_count : Shell → ℕ
shell_get_history_count s =
    if ltb s.history_count history_size then s.history_count else history_size
