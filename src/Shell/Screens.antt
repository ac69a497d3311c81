-- ===== src/Shell/Screens.antt =====
-- The commands of kernel/shell.c that show texts: `banner`, `help`, `tree`, `clear`, `echo` and `pwd`.
use alpha_os.Prelude.{Option, none, some, List, [], ◌∷◌, ◌++◌, codes}
use alpha_os.CString.Spec.{Text}
use alpha_os.Console.{VgaColor, console_clear}
use alpha_os.Stdio.{text}
use alpha_os.Shell.{
  World, Command, Output, paint, print, line, grey, display, text_or_null, find_command,
}

abbrev pub banner_outputs : List Output
banner_outputs =
    paint VgaColor.light_cyan
    ∷ line (codes "    _    _       _             ___  ____  \n")
    ∷ line (codes "   / \\  | |_ __ | |__   __ _  / _ \\/ ___| \n")
    ∷ line (codes "  / _ \\ | | '_ \\| '_ \\ / _` || | | \\___ \\ \n")
    ∷ line (codes " / ___ \\| | |_) | | | | (_| || |_| |___) |\n")
    ∷ line (codes "/_/   \\_\\_| .__/|_| |_|\\__,_| \\___/|____/ \n")
    ∷ line (codes "          |_|                            \n")
    ∷ grey
    ∷ line (codes "Alpha Operating System - Advanced Learning Platform\n")
    ∷ line (codes "Version 1.0 | Built with passion for education | 2025\n\n")
    ∷ []

unfoldable pub cmd_banner : World → Option World
cmd_banner w = display banner_outputs w

-- The list of the commands, in groups. `%-12s` is no conversion of `vsprintf`.
abbrev pub help_outputs : List Output
help_outputs =
    paint VgaColor.light_brown
    ∷ line (codes "Alpha OS Shell Commands\n")
    ∷ line (codes "=======================\n")
    ∷ grey
    ∷ line (codes "\nFile System Commands:\n")
    ∷ print (codes "  %-12s - %s\n")
        (text (codes "ls") ∷ text (codes "List directory contents") ∷ [])
    ∷ print (codes "  %-12s - %s\n")
        (text (codes "cd") ∷ text (codes "Change directory (supports .. for parent)") ∷ [])
    ∷ print (codes "  %-12s - %s\n")
        (text (codes "pwd") ∷ text (codes "Print working directory") ∷ [])
    ∷ print (codes "  %-12s - %s\n") (text (codes "mkdir") ∷ text (codes "Create directory") ∷ [])
    ∷ print (codes "  %-12s - %s\n") (text (codes "touch") ∷ text (codes "Create file") ∷ [])
    ∷ print (codes "  %-12s - %s\n")
        (text (codes "cat") ∷ text (codes "Display file contents") ∷ [])
    ∷ print (codes "  %-12s - %s\n")
        (text (codes "rm") ∷ text (codes "Remove file or directory") ∷ [])
    ∷ print (codes "  %-12s - %s\n") (text (codes "tree") ∷ text (codes "Show directory tree") ∷ [])
    ∷ line (codes "\nSystem Commands:\n")
    ∷ print (codes "  %-12s - %s\n") (text (codes "clear") ∷ text (codes "Clear screen") ∷ [])
    ∷ print (codes "  %-12s - %s\n")
        (text (codes "info") ∷ text (codes "Show system information") ∷ [])
    ∷ print (codes "  %-12s - %s\n")
        (text (codes "stat") ∷ text (codes "File system statistics") ∷ [])
    ∷ print (codes "  %-12s - %s\n") (text (codes "mem") ∷ text (codes "Memory statistics") ∷ [])
    ∷ print (codes "  %-12s - %s\n") (text (codes "uptime") ∷ text (codes "System uptime") ∷ [])
    ∷ print (codes "  %-12s - %s\n") (text (codes "date") ∷ text (codes "Current date/time") ∷ [])
    ∷ line (codes "\nUser Management:\n")
    ∷ print (codes "  %-12s - %s\n") (text (codes "whoami") ∷ text (codes "Current user") ∷ [])
    ∷ print (codes "  %-12s - %s\n") (text (codes "su") ∷ text (codes "Switch user") ∷ [])
    ∷ print (codes "  %-12s - %s\n") (text (codes "root") ∷ text (codes "Enter root shell") ∷ [])
    ∷ print (codes "  %-12s - %s\n") (text (codes "exit") ∷ text (codes "Exit root shell") ∷ [])
    ∷ line (codes "\nUtility Commands:\n")
    ∷ print (codes "  %-12s - %s\n") (text (codes "echo") ∷ text (codes "Display text") ∷ [])
    ∷ print (codes "  %-12s - %s\n") (text (codes "calc") ∷ text (codes "Simple calculator") ∷ [])
    ∷ print (codes "  %-12s - %s\n") (text (codes "history") ∷ text (codes "Command history") ∷ [])
    ∷ print (codes "  %-12s - %s\n") (text (codes "hostname") ∷ text (codes "System hostname") ∷ [])
    ∷ print (codes "  %-12s - %s\n")
        (text (codes "banner") ∷ text (codes "Display Alpha OS banner") ∷ [])
    ∷ print (codes "  %-12s - %s\n") (text (codes "help") ∷ text (codes "This help message") ∷ [])
    ∷ line (codes "\nTip: Use 'help <command>' for detailed information about a command\n")
    ∷ []

abbrev pub command_outputs : Command → List Output
command_outputs c =
    paint VgaColor.light_brown
    ∷ print (codes "Command: %s\n") (text_or_null c.name ∷ [])
    ∷ grey
    ∷ print (codes "Description: %s\n") (text_or_null c.help_text ∷ [])
    ∷ print (codes "Usage: %s\n") (text_or_null c.usage ∷ [])
    ∷ []

unfoldable pub cmd_help : (argv : List Text) → World → Option World
cmd_help [] w = display help_outputs w
cmd_help (cmd ∷ []) w = display help_outputs w
cmd_help (cmd ∷ name ∷ argv) w = elim (find_command name w.shell.commands) [
  | none ↦ none
  | some none ↦ display (print (codes "Unknown command: %s\n") (text name ∷ []) ∷ []) w
  | some (some c) ↦ display (command_outputs c) w
]

abbrev pub tree_outputs : List Output
tree_outputs =
    line (codes "Directory tree feature coming soon!\n")
    ∷ line (codes "Use 'ls' to list directory contents for now.\n")
    ∷ []

unfoldable pub cmd_tree : World → Option World
cmd_tree w = display tree_outputs w

unfoldable pub cmd_clear : World → Option World
cmd_clear w = some (record w { console = console_clear w.console })

-- The arguments, with a space behind each but the last.
unfoldable pub echo_outputs : List Text → List Output
echo_outputs [] = []
echo_outputs (a ∷ []) = print (codes "%s") (text a ∷ []) ∷ []
echo_outputs (a ∷ b ∷ argv) =
    print (codes "%s") (text a ∷ []) ∷ line (codes " ") ∷ echo_outputs (b ∷ argv)

unfoldable pub cmd_echo : (argv : List Text) → World → Option World
cmd_echo [] w = display (line (codes "\n") ∷ []) w
cmd_echo (cmd ∷ argv) w = display (echo_outputs argv ++ line (codes "\n") ∷ []) w

unfoldable pub cmd_pwd : World → Option World
cmd_pwd w =
    display
      (paint VgaColor.light_blue ∷ print (codes "%s\n") (text w.shell.current_dir ∷ []) ∷ grey ∷ [])
      w
