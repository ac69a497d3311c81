-- ===== src/Shell.antt =====
-- The state and the shared steps of the shell, kernel/shell.c with include/kernel/shell.h.
-- A `World` has the static variables of the shell and the states of the parts that it calls, the
-- readings that the keyboard's port has still to give, and `system_uptime` of kernel/system.c. An
-- array of characters is its text, and `argv[0 .. argc)` a list of texts. `none` says that a call has
-- no defined behaviour, or waits for a key that never comes.
pub mod History
pub mod Prompt
pub mod Screens
pub mod Users
pub mod Listing
pub mod Files
pub mod Numbers
pub mod Dispatch
pub mod Boot
pub mod Frame
pub mod Tokens
pub mod Recall
pub mod Faults
pub mod Texts
pub mod Touch
pub mod Remove
pub mod Directories
pub mod Register
pub mod Startup
pub mod Ready
pub mod Login
pub mod Password
pub mod Safety
pub mod Steady
pub mod Invariant
pub mod Calc
pub mod CalcText
pub mod Worlds
pub mod Tests
pub mod FileTests
use alpha_os.Prelude.{
  ℕ, zero, suc, ◌+◌, Bool, true, false, Option, none, some, List, [], ◌∷◌, codes, if◌then◌else◌,
  bytes_eq, length, take,
}
use alpha_os.Prelude.Int.{ℤ}
use alpha_os.CString.{◌>>=◌}
use alpha_os.CString.Spec.{Text}
use alpha_os.Strtok.Spec.{Saved}
use alpha_os.Heap.{State}
use alpha_os.Fs.{Filesystem}
use alpha_os.Console.{Console, VgaColor, console_set_color}
use alpha_os.Keyboard.{Keyboard, Reading, Typed, keyboard_get_line}
use alpha_os.Stdio.{Arg, text, null, printf}

-- SHELL_MAX_COMMAND_LENGTH, SHELL_MAX_ARGS, SHELL_HISTORY_SIZE, SHELL_MAX_PATH_LENGTH
abbrev pub max_command_length : ℕ
max_command_length = 512

abbrev pub max_args : ℕ
max_args = 32

abbrev pub history_size : ℕ
history_size = 50

abbrev pub max_path_length : ℕ
max_path_length = 512

-- MAX_COMMANDS
abbrev pub max_commands : ℕ
max_commands = 64

-- What a `command_handler_t` points to.
pub data Handler : Type 0 where
  help : Handler
  ls : Handler
  cd : Handler
  cat : Handler
  echo : Handler
  mkdir : Handler
  touch : Handler
  rm : Handler
  clear : Handler
  pwd : Handler
  stat : Handler
  mem : Handler
  history : Handler
  tree : Handler
  info : Handler
  whoami : Handler
  hostname : Handler
  uptime : Handler
  calc : Handler
  date : Handler
  banner : Handler
  su : Handler
  root_shell : Handler
  exit_root : Handler

-- `shell_command_t`; a text is `none` where `strdup` found no memory and gave a null pointer.
pub record Command : Type 0 where
  pub name : Option Text
  pub handler : Handler
  pub help_text : Option Text
  pub usage : Option Text

-- The static variables of the shell; `commands` is `commands[0 .. num_commands)`.
pub record Shell : Type 0 where
  pub commands : List Command
  pub current_dir : Text
  pub command_history : ℕ → Text
  pub history_count : ℕ
  pub username : Text
  pub hostname : Text
  pub is_root : Bool

pub record World : Type 0 where
  pub shell : Shell
  pub fs : Filesystem
  pub heap : State
  pub console : Console
  pub keyboard : Keyboard
  pub readings : List Reading
  pub system_uptime : ℕ
  pub saved_str : Saved

abbrev pub initial_shell : Shell
initial_shell = record {
  commands = [];
  current_dir = codes "/";
  command_history = λ i. [];
  history_count = 0;
  username = codes "user";
  hostname = codes "alphaos";
  is_root = false;
}

-- The calls `console_set_color(.., VGA_COLOR_BLACK)`, `printf` and `console_clear` that most commands
-- are made of.
pub data Output : Type 0 where
  paint : VgaColor → Output
  print : Text → List Arg → Output

-- The calls, one after the other.
unfoldable pub show : List Output → Console → Option Console
show [] s = some s
show (paint fg ∷ os) s = show os (console_set_color s fg VgaColor.black)
show (print format args ∷ os) s = printf s format args >>= λ (n, s'). show os s'

unfoldable pub display : List Output → World → Option World
display os w = show os w.console >>= λ s. some (record w { console = s })

-- A line without arguments.
abbrev pub line : Text → Output
line format = print format []

abbrev pub grey : Output
grey = paint VgaColor.light_grey

-- A call of `fs_normalize_path` or `strtok` leaves its `saved_str`.
abbrev pub keep_saved : Saved → World → World
keep_saved saved w = record w { saved_str = saved }

abbrev pub set_dir : Text → World → World
set_dir dir w = record w { shell = record w.shell { current_dir = dir } }

-- A text, or a null pointer.
abbrev pub text_or_null : Option Text → Arg
text_or_null none = null
text_or_null (some s) = text s

-- The loop over `commands` with `strcmp(name, commands[i].name)`; none where a name is null.
unfoldable pub find_command : Text → List Command → Option (Option Command)
find_command name [] = some none
find_command name (c ∷ cs) =
    let rest = find_command name cs in
    elim c.name [ none ↦ none | some n ↦ if bytes_eq name n then some (some c) else rest ]

-- `keyboard_get_line` on the world's keyboard. The ring holds at most 255 keys, and each reading gives
-- one more at most, which bounds the rounds.
unfoldable pub read_line : (buffer_size : ℕ) → World → Option (ℕ × Text × World)
read_line buffer_size w =
    keyboard_get_line (257 + length w.readings) buffer_size w.keyboard w.console w.readings
    >>= λ (n, t).
        some (
          n,
          t.line,
          record w { console = t.console; keyboard = t.keyboard; readings = t.readings },
        )
