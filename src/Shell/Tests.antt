-- ===== src/Shell/Tests.antt =====
-- The shell of kernel/shell.c on concrete worlds, key presses and command lines.
use alpha_os.Prelude.{◌-◌, ◌%◌, ◌≡◌, refl, Option, none, some, [], ◌∷◌, ◌++◌, codes, take, arith}
use alpha_os.Strtok.Spec.{Saved, next_text, skip, has, after, token_of}
use alpha_os.Strtok.Words.{words}
use alpha_os.Heap.{malloc, align, put, memory_init}
use alpha_os.Console.{console_write}
use alpha_os.Keyboard.{
  key_at, keyboard_get_line, line_loop, wait_key, edit_key, push_key, keyboard_available,
  keyboard_read, keyboard_poll, keyboard_init,
}
use alpha_os.Stdio.{vprintf, vsprintf, vsprintf_loop, snprintf, convert, put_string, put_text}
use alpha_os.Fs.{fs_create_file, fs_write_file, find_entry, fs_file_exists, write_new, fill_last}
use alpha_os.Fs.Init.{fs_init}
use alpha_os.FilePath.{
  fs_get_absolute_path, fs_normalize_path, component_loop, step, render, rebuild,
}
use alpha_os.Shell.Prompt.{shell_print_prompt, shell_print_enhanced_prompt}
use alpha_os.Shell.Files.{cmd_touch, finish}
use alpha_os.Bytes.{poke}
use alpha_os.Prelude.Lists.{bytes_eq}
use alpha_os.Keyboard.Line.{coming}
use alpha_os.Shell.{
  find_command, display, show, read_line, World, Shell, Handler, Command, initial_shell, max_args,
  max_command_length, history_size,
}
use alpha_os.Shell.History.{shell_get_history, shell_add_to_history, shell_get_history_count}
use alpha_os.Shell.Listing.{simple_line}
use alpha_os.Shell.Screens.{cmd_banner, cmd_echo}
use alpha_os.Shell.Numbers.{cmd_history}
use alpha_os.Shell.Users.{enter_root, cmd_root_shell, is_password}
use alpha_os.Shell.Dispatch.{
  shell_round, shell_register_command, strdup, argument_loop, execute, run_handler, arguments,
  blanks, shell_process_command,
}
use alpha_os.Shell.Boot.{system_init, shell_init, register_all, kernel_main}
use alpha_os.Shell.Tokens.{arguments-words}
use alpha_os.Shell.Worlds.{first_console, first_world, touch_world}
use alpha_os.Shell.Recall.{entered, shell_get_history-entered}
use alpha_os.Shell.Faults.{simple_line-nameless, cmd_history-fault}
use alpha_os.Shell.Texts.{joined, cmd_echo-joined}
use alpha_os.Shell.Password.{cmd_root_shell_lem}
use alpha_os.Shell.Login.{GivenPassword, shell_process_command-GivenPassword}
use alpha_os.Shell.Safety.{WellFormed}
use alpha_os.Prelude.{map}
use alpha_os.Shell.{keep_saved}
use alpha_os.Shell.Dispatch.{remember}
use alpha_os.Shell.Boot.{BuiltIn, built_ins}
use alpha_os.Shell.Register.{registered}
use alpha_os.Shell.Ready.{kernel_main_lem, dispatch}
use alpha_os.Shell.Steady.{Runs}
use alpha_os.Shell.Invariant.{shell_process_command-WellFormed}
use alpha_os.Shell.Startup.{kernel_main-WellFormed}

-- A shell with one command.
abbrev root_command : Command
root_command = record {
  name = some (codes "root");
  handler = Handler.root_shell;
  help_text = none;
  usage = none;
}

abbrev root_world : World
root_world = record first_world { shell = record initial_shell { commands = root_command ∷ [] } }

abbrev world_of : Option World → World
world_of none = first_world
world_of (some w) = w

arguments_example :
    (saved : Saved) × (arguments (codes "echo a  b\n")
      ≡ some (
        take max_args (words blanks (take (max_command_length - 1) (codes "echo a  b\n"))),
        saved,
      ))
arguments_example = arguments-words (codes "echo a  b\n")

shell_get_history-entered_example :
    (s : Shell) × (entered (codes "ls" ∷ [] ∷ codes "pwd" ∷ []) initial_shell ≡ some s)
    × (shell_get_history_count s ≡ 2)
    × (shell_get_history s (1 % history_size) ≡ some (codes "pwd"))
shell_get_history-entered_example =
    shell_get_history-entered (codes "ls" ∷ [] ∷ codes "pwd" ∷ []) 1 (omega arith) (omega arith)
      (omega arith)

simple_line_example : simple_line (codes "a") 0 first_world ≡ simple_line (codes "b") 0 first_world
unfolding has
simple_line_example = simple_line-nameless (codes "a") (codes "b") 0 first_world refl

-- A shell with one line in its history.
abbrev used_world : World
used_world = record first_world {
  shell = record initial_shell { history_count = 1; command_history = λ i. codes "history" };
}

cmd_history_example : cmd_history used_world ≡ none
cmd_history_example = cmd_history-fault used_world (omega arith)

cmd_echo_example :
    cmd_echo (codes "echo" ∷ codes "a" ∷ codes "b" ∷ []) first_world
    ≡ some (record first_world {
      console = console_write first_console (joined (codes "a" ∷ codes "b" ∷ []) ++ 10 ∷ []);
    })
cmd_echo_example = cmd_echo-joined (codes "echo") (codes "a" ∷ codes "b" ∷ []) first_world (
  (λ e. absurd (omega arith), tt),
  omega arith,
  ((λ e. absurd (omega arith), tt), omega arith, tt),
)

-- The world after the line `root`, with the password typed.
abbrev after_root : World
after_root = world_of (shell_process_command (codes "root") root_world)

cmd_root_shell_example :
    (w' : World) × (cmd_root_shell root_world ≡ some w')
    × (w'.shell.is_root ≡ is_password (codes "root"))
    × (coming w'.keyboard w'.readings ≡ [])
unfolding key_at
cmd_root_shell_example =
    cmd_root_shell_lem root_world (codes "root") [] refl (omega arith, omega arith) refl

GivenPassword_example : GivenPassword root_world
unfolding shell_process_command arguments argument_loop next_text skip has after token_of execute
    find_command shell_add_to_history bytes_eq run_handler cmd_root_shell display show vprintf
    vsprintf vsprintf_loop read_line keyboard_get_line line_loop wait_key edit_key key_at push_key
    keyboard_available keyboard_read keyboard_poll enter_root poke
GivenPassword_example =
    shell_process_command-GivenPassword (codes "root") root_world after_root refl refl refl

-- The world after the start, and after a round of the loop, in which a file is made.
abbrev started : World
started = world_of (kernel_main touch_world)

abbrev after_round : World
after_round = world_of (shell_round started)

kernel_main_example : WellFormed after_round
unfolding kernel_main system_init shell_init register_all shell_register_command strdup malloc align
    put memory_init display show vprintf vsprintf vsprintf_loop cmd_banner shell_round
    shell_print_prompt shell_print_enhanced_prompt read_line keyboard_get_line line_loop wait_key
    edit_key key_at push_key keyboard_available keyboard_read keyboard_poll keyboard_init poke
    shell_process_command arguments argument_loop next_text skip has after token_of execute
    find_command shell_add_to_history bytes_eq run_handler cmd_touch finish fs_init fs_create_file
    fs_write_file find_entry fs_file_exists write_new fill_last fs_get_absolute_path
    fs_normalize_path component_loop step render rebuild snprintf convert put_string put_text
kernel_main_example =
    kernel_main-WellFormed touch_world started after_round refl refl refl
      (Runs.round {w1 = started} {w2 = after_round} Runs.start refl)

shell_process_command-WellFormed_example : WellFormed after_root
unfolding shell_process_command arguments argument_loop next_text skip has after token_of execute
    find_command shell_add_to_history bytes_eq run_handler cmd_root_shell display show vprintf
    vsprintf vsprintf_loop read_line keyboard_get_line line_loop wait_key edit_key key_at push_key
    keyboard_available keyboard_read keyboard_poll enter_root poke
shell_process_command-WellFormed_example =
    shell_process_command-WellFormed (codes "root") root_world after_root
      (record {
        agrees = refl;
        table = omega arith;
        distinct = λ q. omega arith;
        rooted = refl;
        on_screen = (omega arith, omega arith);
        ring = (omega arith, omega arith);
      })
      refl

kernel_main-returns_example :
    (w' : World) × (kernel_main first_world ≡ some w')
    × (w'.shell.commands ≡ map registered built_ins)
kernel_main-returns_example = kernel_main_lem first_world refl (omega arith) (omega arith) refl

-- `date` is the twentieth command.
abbrev date_command : BuiltIn
date_command = record {
  name = codes "date";
  handler = Handler.date;
  help_text = codes "Show current date/time";
  usage = codes "date";
}

-- The world in which the line `date` is remembered after that round.
abbrev noted : World
noted = world_of (remember (codes "date") after_round)

dispatch_example :
    shell_process_command (codes "date") after_round
    ≡ run_handler Handler.date (codes "date" ∷ []) (keep_saved none noted)
unfolding kernel_main system_init shell_init register_all shell_register_command strdup malloc align
    put memory_init display show vprintf vsprintf vsprintf_loop cmd_banner shell_round
    shell_print_prompt shell_print_enhanced_prompt read_line keyboard_get_line line_loop wait_key
    edit_key key_at push_key keyboard_available keyboard_read keyboard_poll keyboard_init poke
    shell_process_command arguments argument_loop next_text skip has after token_of execute
    find_command shell_add_to_history bytes_eq run_handler cmd_touch finish fs_init fs_create_file
    fs_write_file find_entry fs_file_exists write_new fill_last fs_get_absolute_path
    fs_normalize_path component_loop step render rebuild snprintf convert put_string put_text
dispatch_example =
    dispatch touch_world started after_round noted 19 date_command (codes "date") [] none refl
      (omega arith) (omega arith) refl refl
      (Runs.round {w1 = started} {w2 = after_round} Runs.start refl) refl refl refl
