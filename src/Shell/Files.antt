-- ===== src/Shell/Files.antt =====
-- The commands of kernel/shell.c on files: `cd`, `cat`, `mkdir`, `touch` and `rm`.
use alpha_os.Prelude.{
  ℕ, ◌-◌, Bool, false, ◌&&◌, not, Option, some, List, [], ◌∷◌, codes, ltb, ◌==◌, if◌then◌else◌,
  length, get_or,
}
use alpha_os.Prelude.Int.{ℤ, pos, negsuc}
use alpha_os.CString.{◌>>=◌}
use alpha_os.CString.Spec.{Text}
use alpha_os.FilePath.{fs_get_absolute_path}
use alpha_os.Fs.{
  Filesystem, max_file_size, add_slash, fs_change_directory, fs_read_file, fs_create_file,
  fs_delete_file,
}
use alpha_os.Console.{VgaColor}
use alpha_os.Stdio.{text, c_string}
use alpha_os.Shell.{
  World, Output, paint, print, line, grey, display, keep_saved, set_dir, max_path_length,
}

-- Whether a code is 0.
abbrev pub is_zero : ℤ → Bool
is_zero (pos n) = n == 0
is_zero (negsuc n) = false

-- A line in a colour, with the argument that the user typed.
abbrev pub report : VgaColor → Text → Text → List Output
report fg format name = paint fg ∷ print format (text name ∷ []) ∷ grey ∷ []

unfoldable pub cmd_cd : (argv : List Text) → World → Option World
cmd_cd [] w = some (set_dir (if w.shell.is_root then codes "/root" else codes "/home/user") w)
cmd_cd (cmd ∷ []) w =
    some (set_dir (if w.shell.is_root then codes "/root" else codes "/home/user") w)
cmd_cd (cmd ∷ dir ∷ argv) w =
    fs_change_directory w.fs dir w.shell.current_dir max_path_length w.saved_str
    >>= λ (code, current_dir, saved).
        let w1 = set_dir current_dir (keep_saved saved w) in
        if is_zero code
        then some w1
        else display (report VgaColor.light_red (codes "cd: %s: No such directory\n") dir) w1

-- What `cat` prints for the bytes that were read.
abbrev pub cat_outputs : List ℕ → List Output
cat_outputs bytes =
    print (codes "%s") (text (c_string bytes) ∷ [])
    ∷ (if ltb 0 (length bytes) && not (get_or bytes (length bytes - 1) 0 == 10)
        then line (codes "\n") ∷ []
        else [])

-- What `cat` does with the result of `fs_read_file`.
unfoldable pub show_file : (name : Text) → ℤ × List ℕ → World → Option World
show_file name (negsuc n, bytes) w =
    display (report VgaColor.light_red (codes "cat: %s: No such file or directory\n") name) w
show_file name (pos n, bytes) w = display (cat_outputs bytes) w

unfoldable pub cmd_cat : (argv : List Text) → World → Option World
cmd_cat [] w = display (line (codes "Usage: cat <filename>\n") ∷ []) w
cmd_cat (cmd ∷ []) w = display (line (codes "Usage: cat <filename>\n") ∷ []) w
cmd_cat (cmd ∷ name ∷ argv) w = fs_get_absolute_path name w.shell.current_dir >>= λ (path, saved).
    show_file name (fs_read_file w.fs path (max_file_size - 1)) (keep_saved saved w)

abbrev pub set_fs : Filesystem → World → World
set_fs fs w = record w { fs = fs }

-- The result of a call on the table, and what is printed for it.
unfoldable pub finish : (bad good : Text) (name : Text) → ℤ × Filesystem → World → Option World
finish bad good name (code, fs) w =
    if is_zero code
    then display (report VgaColor.light_green good name) (set_fs fs w)
    else display (report VgaColor.light_red bad name) (set_fs fs w)

-- "Ensure path ends with '/'": `path` has 128 bytes, as in `add_slash`.
unfoldable pub cmd_mkdir : (argv : List Text) → World → Option World
cmd_mkdir [] w = display (line (codes "Usage: mkdir <directory>\n") ∷ []) w
cmd_mkdir (cmd ∷ []) w = display (line (codes "Usage: mkdir <directory>\n") ∷ []) w
cmd_mkdir (cmd ∷ name ∷ argv) w = fs_get_absolute_path name w.shell.current_dir >>= λ (path, saved).
    finish (codes "mkdir: cannot create directory '%s'\n")
      (codes "Directory '%s' created successfully\n") name (fs_create_file w.fs (add_slash path) 1)
      (keep_saved saved w)

unfoldable pub cmd_touch : (argv : List Text) → World → Option World
cmd_touch [] w = display (line (codes "Usage: touch <filename>\n") ∷ []) w
cmd_touch (cmd ∷ []) w = display (line (codes "Usage: touch <filename>\n") ∷ []) w
cmd_touch (cmd ∷ name ∷ argv) w = fs_get_absolute_path name w.shell.current_dir >>= λ (path, saved).
    finish (codes "touch: cannot create file '%s'\n") (codes "File '%s' created successfully\n")
      name (fs_create_file w.fs path 0) (keep_saved saved w)

unfoldable pub cmd_rm : (argv : List Text) → World → Option World
cmd_rm [] w = display (line (codes "Usage: rm <filename>\n") ∷ []) w
cmd_rm (cmd ∷ []) w = display (line (codes "Usage: rm <filename>\n") ∷ []) w
cmd_rm (cmd ∷ name ∷ argv) w = fs_get_absolute_path name w.shell.current_dir >>= λ (path, saved).
    finish (codes "rm: cannot remove '%s': No such file or directory\n")
      (codes "'%s' removed successfully\n") name (fs_delete_file w.fs path) (keep_saved saved w)
