-- ===== src/Shell/Listing.antt =====
-- The command `ls` of kernel/shell.c, and `fs_get_permissions_string` of kernel/fs.c.
use alpha_os.Prelude.{
  ℕ, zero, suc, ◌+◌, ◌*◌, ◌/◌, ◌%◌, Bool, true, false, Option, none, some, List, [], ◌∷◌, codes,
  ◌==◌, if◌then◌else◌, bytes_eq, length,
}
use alpha_os.CString.{◌>>=◌}
use alpha_os.CString.Spec.{Text}
use alpha_os.Strtok.Spec.{has, next_text}
use alpha_os.FilePath.{slash, max_filename_length, fs_normalize_path, fs_get_absolute_path}
use alpha_os.Fs.{Filesystem, Entry, max_files, find_entry, fs_list_directory, fs_file_size}
use alpha_os.Console.{VgaColor}
use alpha_os.Stdio.{Arg, word, text, snprintf}
use alpha_os.Shell.{World, paint, print, line, grey, display, keep_saved}

abbrev pub letter_or_dash : Bool → ℕ → Arg
letter_or_dash set c = word (if set then c else b'-')

-- Whether the bit of a value 2 ^ i is set in `p`.
abbrev pub bit : (p power : ℕ) → Bool
bit p power = p / power % 2 == 1

-- Nine characters: the type, and eight of the nine bits.
unfoldable pub permission_args : Entry → List Arg
permission_args e =
    letter_or_dash (if e.is_directory == 0 then false else true) b'd'
    ∷ letter_or_dash (bit e.permissions 0o400) b'r'
    ∷ letter_or_dash (bit e.permissions 0o200) b'w'
    ∷ letter_or_dash (bit e.permissions 0o100) b'x'
    ∷ letter_or_dash (bit e.permissions 0o040) b'r'
    ∷ letter_or_dash (bit e.permissions 0o020) b'w'
    ∷ letter_or_dash (bit e.permissions 0o010) b'x'
    ∷ letter_or_dash (bit e.permissions 0o004) b'r'
    ∷ letter_or_dash (bit e.permissions 0o002) b'w'
    ∷ []

-- The text in `perms`, of `size` bytes.
unfoldable pub fs_get_permissions_string : Filesystem → Text → (size : ℕ) → Option Text
fs_get_permissions_string fs name size = elim (find_entry name fs.entries) [
  | none ↦ some (codes "---------")
  | some (i, e) ↦
      snprintf size size (codes "%c%c%c%c%c%c%c%c%c") (permission_args e) >>= λ (n, perms).
      some perms
]

-- A directory has a slash, and its colour: `strstr(line, "/")`.
abbrev pub line_color : Text → VgaColor
line_color name = if has slash name then VgaColor.light_blue else VgaColor.light_grey

abbrev pub line_feed : Text
line_feed = 10 ∷ []

-- The body of the loop of `ls -l`; `fs_normalize_path` replaces the `saved_str` of the loop. The format
-- has no conversion `%8zu`, so the last `%s` takes the size, which is no pointer. A path that has no
-- room in `full_path` is written over its end.
unfoldable pub detailed_line : (absolute_path name : Text) → World → Option World
detailed_line absolute_path name w = do
  (n, full_path) ←
      snprintf max_filename_length max_filename_length (codes "%s/%s")
        (text absolute_path ∷ text name ∷ [])
  (normalized, saved) ← fs_normalize_path full_path
  perms ← fs_get_permissions_string w.fs normalized 16
  display
      (paint (line_color name)
        ∷ print (codes "%s %8zu %s\n")
            (text perms ∷ word (fs_file_size w.fs normalized) ∷ text name ∷ [])
        ∷ [])
      (keep_saved saved w)

-- `while (line != NULL) ..`, with `name` for `line`.
unfoldable pub detailed_loop :
    (fuel : ℕ) (absolute_path : Text) (name : Option Text) → World → Option World
detailed_loop zero absolute_path name w = none
detailed_loop (suc f) absolute_path none w = some w
detailed_loop (suc f) absolute_path (some name) w = detailed_line absolute_path name w >>= λ w1.
    let (next, saved) = next_text line_feed w1.saved_str in
    detailed_loop f absolute_path next (keep_saved saved w1)

-- `%-20s` is no conversion of `vsprintf`, which prints these five bytes.
unfoldable pub simple_line : (name : Text) (count : ℕ) → World → Option World
simple_line name count w =
    display
      (paint (line_color name)
        ∷ print (codes "%-20s") (text name ∷ [])
        ∷ (if (count + 1) % 4 == 0 then line (codes "\n") ∷ [] else []))
      w

unfoldable pub simple_loop : (fuel : ℕ) (name : Option Text) (count : ℕ) → World → Option World
simple_loop zero name count w = none
simple_loop (suc f) none count w =
    if count % 4 == 0 then some w else display (line (codes "\n") ∷ []) w
simple_loop (suc f) (some name) count w = simple_line name count w >>= λ w1.
    let (next, saved) = next_text line_feed w1.saved_str in
    simple_loop f next (count + 1) (keep_saved saved w1)

-- The loop over the arguments: `detailed` and `dir`.
unfoldable pub ls_arguments : List Text → (detailed : Bool) (dir : Text) → Bool × Text
ls_arguments [] detailed dir = (detailed, dir)
ls_arguments (a ∷ argv) detailed dir =
    if bytes_eq a (codes "-l") then ls_arguments argv true dir else ls_arguments argv detailed a

-- What `ls` does with a listing that is not empty. Each round takes a name of at least one byte, so
-- one round more than there are bytes, and one for the end, are enough.
unfoldable pub show_listing : (detailed : Bool) (absolute_path buffer : Text) → World → Option World
show_listing detailed absolute_path buffer w =
    let (name, saved) = next_text line_feed (some buffer) in
    let w1 = keep_saved saved w in
    let fuel : ℕ = length buffer + 2 in
    let long : Option World =
      display (print (codes "total files in %s:\n") (text absolute_path ∷ []) ∷ []) w1 >>= λ w2.
      detailed_loop fuel absolute_path name w2 in
    let short : Option World = simple_loop fuel name 0 w1 in
    (if detailed then long else short) >>= λ w2. display (grey ∷ []) w2

-- The result of `fs_list_directory` is never negative.
unfoldable pub list_files : (detailed : Bool) (dir : Text) → World → Option World
list_files detailed dir w = do
  (absolute_path, saved) ← fs_get_absolute_path dir w.shell.current_dir
  (result, buffer, saved') ← fs_list_directory w.fs absolute_path (max_files * max_filename_length)
  let w1 = keep_saved saved' w
  elim buffer [
    | [] ↦ display (line (codes "Directory is empty\n") ∷ []) w1
    | c ∷ rest ↦ show_listing detailed absolute_path (c ∷ rest) w1
  ]

unfoldable pub cmd_ls : (argv : List Text) → World → Option World
cmd_ls [] w = list_files false w.shell.current_dir w
cmd_ls (cmd ∷ argv) w =
    let (detailed, dir) = ls_arguments argv false w.shell.current_dir in list_files detailed dir w
