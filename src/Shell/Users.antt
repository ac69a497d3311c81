-- ===== src/Shell/Users.antt =====
-- The users of kernel/shell.c: `root`, `exit`, `su`, `whoami` and `hostname`.
use alpha_os.Prelude.{
  Bool, true, false, ◌||◌, Option, List, [], ◌∷◌, ◌++◌, codes, if◌then◌else◌, bytes_eq, take,
}
use alpha_os.CString.{◌>>=◌}
use alpha_os.CString.Spec.{Text}
use alpha_os.Console.{VgaColor}
use alpha_os.Stdio.{text}
use alpha_os.Shell.{World, Output, paint, print, line, grey, display, read_line}

abbrev pub is_password : Text → Bool
is_password password = bytes_eq password (codes "root") || bytes_eq password (codes "admin")

-- `is_root`, `username` and `current_dir` are set together.
abbrev pub become_root : World → World
become_root w = record w {
  shell = record w.shell { is_root = true; username = codes "root"; current_dir = codes "/root" };
}

abbrev pub become_user : World → World
become_user w = record w {
  shell = record w.shell {
    is_root = false;
    username = codes "user";
    current_dir = codes "/home/user";
  };
}

abbrev pub already_outputs : List Output
already_outputs = paint VgaColor.light_brown ∷ line (codes "Already in root shell\n") ∷ grey ∷ []

abbrev pub password_outputs : List Output
password_outputs =
    paint VgaColor.light_red
    ∷ line (codes "Entering root shell...\n")
    ∷ line (codes "Password: ")
    ∷ grey
    ∷ []

abbrev pub activated_outputs : List Output
activated_outputs =
    paint VgaColor.light_red
    ∷ line (codes "\n*** ROOT SHELL ACTIVATED ***\n")
    ∷ line (codes "You now have administrative privileges.\n")
    ∷ line (codes "Type 'exit' to return to user shell.\n")
    ∷ grey
    ∷ []

abbrev pub denied_outputs : List Output
denied_outputs =
    paint VgaColor.light_red ∷ line (codes "\nAccess denied. Incorrect password.\n") ∷ grey ∷ []

-- What follows the password.
unfoldable pub enter_root : (password : Text) → World → Option World
enter_root password w =
    if is_password password
    then display activated_outputs (become_root w)
    else display denied_outputs w

unfoldable pub cmd_root_shell : World → Option World
cmd_root_shell w =
    let asked : Option World = display password_outputs w >>= λ w1.
    read_line 64 w1 >>= λ (n, password, w2). enter_root password w2 in
    if w.shell.is_root then display already_outputs w else asked

unfoldable pub cmd_exit_root : World → Option World
cmd_exit_root w =
    if w.shell.is_root
    then display
        (paint VgaColor.light_green
          ∷ line (codes "Exited root shell. Returned to user mode.\n")
          ∷ grey
          ∷ [])
        (become_user w)
    else display (line (codes "Not in root shell\n") ∷ []) w

abbrev pub users_line : Output
users_line = line (codes "Available users: root, user\n")

unfoldable pub cmd_su : (argv : List Text) → World → Option World
cmd_su [] w = display (line (codes "Usage: su [username]\n") ∷ users_line ∷ []) w
cmd_su (cmd ∷ []) w = display (line (codes "Usage: su [username]\n") ∷ users_line ∷ []) w
cmd_su (cmd ∷ user ∷ argv) w =
    if bytes_eq user (codes "root")
    then cmd_root_shell w
    else if bytes_eq user (codes "user")
    then (if w.shell.is_root
        then cmd_exit_root w
        else display (line (codes "Already user\n") ∷ []) w)
    else display (print (codes "Unknown user: %s\n") (text user ∷ []) ∷ users_line ∷ []) w

unfoldable pub cmd_whoami : World → Option World
cmd_whoami w =
    display
      (paint (if w.shell.is_root then VgaColor.light_red else VgaColor.light_green)
        ∷ print (codes "%s") (text w.shell.username ∷ [])
        ∷ ((if w.shell.is_root then line (codes " (root privileges)") ∷ [] else [])
            ++ line (codes "\n") ∷ grey ∷ []))
      w

-- `hostname` has 32 bytes.
abbrev pub set_hostname : Text → World → World
set_hostname name w = record w { shell = record w.shell { hostname = take 31 name } }

unfoldable pub cmd_hostname : (argv : List Text) → World → Option World
cmd_hostname [] w =
    display
      (paint VgaColor.light_cyan ∷ print (codes "%s\n") (text w.shell.hostname ∷ []) ∷ grey ∷ []) w
cmd_hostname (cmd ∷ []) w =
    display
      (paint VgaColor.light_cyan ∷ print (codes "%s\n") (text w.shell.hostname ∷ []) ∷ grey ∷ []) w
cmd_hostname (cmd ∷ name ∷ argv) w =
    if w.shell.is_root
    then display
        (paint VgaColor.light_green
          ∷ print (codes "Hostname set to: %s\n") (text (take 31 name) ∷ [])
          ∷ grey
          ∷ [])
        (set_hostname name w)
    else display
        (paint VgaColor.light_red
          ∷ line (codes "Permission denied: Only root can change hostname\n")
          ∷ grey
          ∷ [])
        w
