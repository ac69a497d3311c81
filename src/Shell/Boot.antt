-- ===== src/Shell/Boot.antt =====
-- `shell_init` of kernel/shell.c, and kernel/system.c and kernel/main.c, which bring the system up.
use alpha_os.Prelude.{Option, some, List, [], ◌∷◌, codes}
use alpha_os.CString.{◌>>=◌}
use alpha_os.CString.Spec.{Text}
use alpha_os.Heap.{memory_init}
use alpha_os.Fs.Init.{fs_init}
use alpha_os.Console.{VgaColor, console_init}
use alpha_os.Keyboard.{keyboard_init}
use alpha_os.Shell.{World, Handler, Output, paint, line, grey, display}
use alpha_os.Shell.Screens.{cmd_banner}
use alpha_os.Shell.Dispatch.{shell_register_command}

-- The arguments of a call of `shell_register_command`.
pub record BuiltIn : Type 0 where
  pub name : Text
  pub handler : Handler
  pub help_text : Text
  pub usage : Text

abbrev built_in : Text → Handler → Text → Text → BuiltIn
built_in name handler help_text usage = record {
  name = name;
  handler = handler;
  help_text = help_text;
  usage = usage;
}

abbrev pub built_ins : List BuiltIn
built_ins =
    built_in (codes "help") Handler.help (codes "Display help information") (codes "help [command]")
    ∷ built_in (codes "ls") Handler.ls (codes "List directory contents")
        (codes "ls [-l] [directory]")
    ∷ built_in (codes "cd") Handler.cd (codes "Change directory") (codes "cd <directory>")
    ∷ built_in (codes "cat") Handler.cat (codes "Display file contents") (codes "cat <filename>")
    ∷ built_in (codes "echo") Handler.echo (codes "Display a line of text") (codes "echo <text>")
    ∷ built_in (codes "mkdir") Handler.mkdir (codes "Create a directory")
        (codes "mkdir <directory>")
    ∷ built_in (codes "touch") Handler.touch (codes "Create a file") (codes "touch <filename>")
    ∷ built_in (codes "rm") Handler.rm (codes "Remove a file or directory") (codes "rm <filename>")
    ∷ built_in (codes "clear") Handler.clear (codes "Clear the screen") (codes "clear")
    ∷ built_in (codes "pwd") Handler.pwd (codes "Print working directory") (codes "pwd")
    ∷ built_in (codes "stat") Handler.stat (codes "Display file system statistics") (codes "stat")
    ∷ built_in (codes "mem") Handler.mem (codes "Display memory statistics") (codes "mem")
    ∷ built_in (codes "history") Handler.history (codes "Show command history") (codes "history")
    ∷ built_in (codes "tree") Handler.tree (codes "Show directory tree") (codes "tree [directory]")
    ∷ built_in (codes "info") Handler.info (codes "Show system information") (codes "info")
    ∷ built_in (codes "whoami") Handler.whoami (codes "Display current user") (codes "whoami")
    ∷ built_in (codes "hostname") Handler.hostname (codes "Display or set hostname")
        (codes "hostname [name]")
    ∷ built_in (codes "uptime") Handler.uptime (codes "Show system uptime") (codes "uptime")
    ∷ built_in (codes "calc") Handler.calc (codes "Simple calculator") (codes "calc <expression>")
    ∷ built_in (codes "date") Handler.date (codes "Show current date/time") (codes "date")
    ∷ built_in (codes "banner") Handler.banner (codes "Display Alpha OS banner") (codes "banner")
    ∷ built_in (codes "su") Handler.su (codes "Switch user") (codes "su [username]")
    ∷ built_in (codes "root") Handler.root_shell (codes "Enter root shell") (codes "root")
    ∷ built_in (codes "exit") Handler.exit_root (codes "Exit root shell") (codes "exit")
    ∷ []

unfoldable pub register_all : List BuiltIn → World → Option World
register_all [] w = some w
register_all (b ∷ bs) w =
    shell_register_command b.name b.handler b.help_text b.usage w >>= λ w1. register_all bs w1

abbrev pub ready_outputs : List Output
ready_outputs =
    paint VgaColor.light_green
    ∷ line (codes "Alpha Shell v2.0 initialized\n")
    ∷ grey
    ∷ line (codes "Type 'help' for available commands or 'info' for system information\n")
    ∷ line (codes "Type 'root' to enter root shell\n")
    ∷ []

unfoldable pub shell_init : World → Option World
shell_init w = do w1 ← register_all built_ins w; w2 ← cmd_banner w1; display ready_outputs w2

unfoldable pub system_init : World → Option World
system_init w =
    display (line (codes "System components initialized\n") ∷ []) (record w { system_uptime = 0 })

abbrev pub welcome_outputs : List Output
welcome_outputs =
    paint VgaColor.light_cyan
    ∷ line (codes "Alpha OS - Advanced Learning Platform\n")
    ∷ grey
    ∷ line (codes "Version 1.0.0 | AlphaKernel | Build 2025\n")
    ∷ line (codes "Built with standard GCC for educational purposes\n\n")
    ∷ []

-- "[OK]", and what is initialised.
abbrev pub ok_outputs : Text → List Output
ok_outputs what = paint VgaColor.light_green ∷ line (codes "[OK] ") ∷ grey ∷ line what ∷ []

abbrev pub start_outputs : List Output
start_outputs =
    line (codes "\n")
    ∷ paint VgaColor.light_brown
    ∷ line
        (codes "Welcome to Alpha OS 2025! Type 'help' for commands or 'root' for admin access.\n")
    ∷ grey
    ∷ line (codes "\n")
    ∷ []

-- `kernel_main` up to its call of `shell_run`, which never returns.
unfoldable pub kernel_main : World → Option World
kernel_main w = do
  w1 ← system_init (record w {
    console = console_init w.console;
    heap = memory_init w.heap;
    keyboard = keyboard_init w.keyboard;
  })
  w2 ← display welcome_outputs w1
  w3 ← display (ok_outputs (codes "Initializing Alpha File System...\n")) w2
  w4 ←
      display (ok_outputs (codes "Initializing Alpha Shell...\n"))
        (record w3 { fs = fs_init w3.fs })
  w5 ← shell_init w4
  display start_outputs w5
