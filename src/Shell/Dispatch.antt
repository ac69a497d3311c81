-- ===== src/Shell/Dispatch.antt =====
-- The commands of kernel/shell.c: how they are registered and how a line is carried out.
use alpha_os.Prelude.{
  ℕ, zero, suc, ◌+◌, ◌-◌, Option, none, some, List, [], ◌∷◌, ◌++◌, codes, ltb, ◌==◌, if◌then◌else◌,
  length, take,
}
use alpha_os.CString.{◌>>=◌}
use alpha_os.CString.Spec.{Text}
use alpha_os.Strtok.Spec.{Saved, next_text}
use alpha_os.Heap.{State, malloc}
use alpha_os.Fs.{write_bytes}
use alpha_os.Console.{VgaColor}
use alpha_os.Stdio.{text}
use alpha_os.Shell.{
  World, Handler, Output, paint, print, line, grey, display, keep_saved, find_command, read_line,
  max_commands, max_args, max_command_length,
}
use alpha_os.Shell.History.{shell_add_to_history}
use alpha_os.Shell.Prompt.{shell_print_prompt}
use alpha_os.Shell.Screens.{cmd_banner, cmd_help, cmd_tree, cmd_clear, cmd_echo, cmd_pwd}
use alpha_os.Shell.Users.{cmd_root_shell, cmd_exit_root, cmd_su, cmd_whoami, cmd_hostname}
use alpha_os.Shell.Listing.{cmd_ls}
use alpha_os.Shell.Files.{cmd_cd, cmd_cat, cmd_mkdir, cmd_touch, cmd_rm}
use alpha_os.Shell.Numbers.{
  cmd_stat, cmd_mem, cmd_info, cmd_history, cmd_uptime, cmd_date, cmd_calc, heap_fuel,
}

-- `handler(argc, argv)`
unfoldable pub run_handler : Handler → (argv : List Text) → World → Option World
run_handler Handler.help argv w = cmd_help argv w
run_handler Handler.ls argv w = cmd_ls argv w
run_handler Handler.cd argv w = cmd_cd argv w
run_handler Handler.cat argv w = cmd_cat argv w
run_handler Handler.echo argv w = cmd_echo argv w
run_handler Handler.mkdir argv w = cmd_mkdir argv w
run_handler Handler.touch argv w = cmd_touch argv w
run_handler Handler.rm argv w = cmd_rm argv w
run_handler Handler.clear argv w = cmd_clear w
run_handler Handler.pwd argv w = cmd_pwd w
run_handler Handler.stat argv w = cmd_stat w
run_handler Handler.mem argv w = cmd_mem w
run_handler Handler.history argv w = cmd_history w
run_handler Handler.tree argv w = cmd_tree w
run_handler Handler.info argv w = cmd_info w
run_handler Handler.whoami argv w = cmd_whoami w
run_handler Handler.hostname argv w = cmd_hostname argv w
run_handler Handler.uptime argv w = cmd_uptime w
run_handler Handler.calc argv w = cmd_calc argv w
run_handler Handler.date argv w = cmd_date w
run_handler Handler.banner argv w = cmd_banner w
run_handler Handler.su argv w = cmd_su argv w
run_handler Handler.root_shell argv w = cmd_root_shell w
run_handler Handler.exit_root argv w = cmd_exit_root w

-- `strdup`: a copy on the heap, or a null pointer.
unfoldable pub strdup : Text → State → Option (Option Text × State)
strdup s h = malloc heap_fuel (length s + 1) h >>= λ (dup, h').
    if dup == 0
    then some (none, h')
    else some (some s, record h' { bytes = write_bytes h'.bytes dup (s ++ 0 ∷ []) })

unfoldable pub shell_register_command :
    (name : Text) → Handler → (help_text usage : Text) → World → Option World
shell_register_command name handler help_text usage w =
    let duplicated : Option World = do
      (name', h1) ← strdup name w.heap
      (help', h2) ← strdup help_text h1
      (usage', h3) ← strdup usage h2
      some (record w {
        heap = h3;
        shell = record w.shell {
          commands =
              w.shell.commands
              ++ record { name = name'; handler = handler; help_text = help'; usage = usage' } ∷ [];
        };
      })
    in if ltb (length w.shell.commands) max_commands
      then duplicated
      else display (line (codes "Error: Maximum number of commands reached\n") ∷ []) w

-- The delimiters of `shell_process_command`.
abbrev pub blanks : Text
blanks = codes " \t\n"

-- `while (token != NULL && argc < SHELL_MAX_ARGS) ..`; a token takes a byte, so the text's length and
-- 2 rounds more are enough.
unfoldable pub argument_loop :
    (fuel : ℕ) (token : Option Text) → Saved → (argv : List Text) → Option (List Text × Saved)
argument_loop zero token saved argv = none
argument_loop (suc f) none saved argv = some (argv, saved)
argument_loop (suc f) (some t) saved argv =
    let (next, saved') = next_text blanks saved in
    let rest = argument_loop f next saved' (argv ++ t ∷ []) in
    if ltb (length argv) max_args then rest else some (argv, saved)

-- `argv[0 .. argc)` for a line.
unfoldable pub arguments : (command : Text) → Option (List Text × Saved)
arguments command =
    let cmd_copy : Text = take (max_command_length - 1) command in
    let (token, saved) = next_text blanks (some cmd_copy) in
    argument_loop (length cmd_copy + 2) token saved []

abbrev pub not_found : Text → List Output
not_found name =
    paint VgaColor.light_red
    ∷ print (codes "alphaos: command not found: %s\n") (text name ∷ [])
    ∷ grey
    ∷ line (codes "Type 'help' for a list of available commands\n")
    ∷ []

-- The loop over the commands, and what follows it.
unfoldable pub execute : (argv : List Text) → World → Option World
execute [] w = some w
execute (name ∷ argv) w = elim (find_command name w.shell.commands) [
  | none ↦ none
  | some none ↦ display (not_found name) w
  | some (some c) ↦ run_handler c.handler (name ∷ argv) w
]

abbrev pub remember : Text → World → Option World
remember command w = shell_add_to_history w.shell command >>= λ s. some (record w { shell = s })

unfoldable pub shell_process_command : (command : Text) → World → Option World
shell_process_command command w = do
  w1 ← remember command w
  (argv, saved) ← arguments command
  execute argv (keep_saved saved w1)

-- A round of the loop of `shell_run`.
unfoldable pub shell_round : World → Option World
shell_round w = do
  w1 ← shell_print_prompt w
  (len, command, w2) ← read_line max_command_length w1
  if ltb 0 len then shell_process_command command w2 else some w2
