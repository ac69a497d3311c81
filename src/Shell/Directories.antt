-- ===== src/Shell/Directories.antt =====
-- The commands `mkdir` and `cd` of kernel/shell.c and the table of files.
use alpha_os.Prelude.{
  ℕ, ◌≤◌, ◌<◌, ◌≡◌, ◌∙◌, refl, true, false, some, List, [], ◌∷◌, ◌++◌, codes, arith, length, ltb,
  take, take-eq_self, length-append, bytes_eq, bytes_eq_refl, Bool-cases, inl, inr,
}
use alpha_os.CString.Spec.{Text}
use alpha_os.Strtok.Spec.{Saved}
use alpha_os.FilePath.{slash, dot, dot_dot, ends_with_slash, fs_get_absolute_path}
use alpha_os.Fs.{Filesystem, add_slash, fs_file_exists, fs_create_file}
use alpha_os.Fs.Create.{
  creatable, fs_create_file_lem, fs_create_file-refused, fs_file_exists-lookup,
}
use alpha_os.Fs.Directory.{fs_change_directory-entered}
use alpha_os.Console.{Console}
use alpha_os.Stdio.{text}
use alpha_os.Stdio.Spec.{expand}
use alpha_os.Shell.{World, keep_saved, set_dir, max_path_length}
use alpha_os.Shell.Files.{cmd_mkdir, cmd_cd}
use alpha_os.Shell.Touch.{finish-returns}

expand-made :
    (name : Text)
    → expand (codes "Directory '%s' created successfully\n") (text name ∷ [])
      ≡ some (codes "Directory '" ++ (name ++ codes "' created successfully\n"))
unfolding expand
expand-made name = refl

expand-not_made :
    (name : Text)
    → expand (codes "mkdir: cannot create directory '%s'\n") (text name ∷ [])
      ≡ some (codes "mkdir: cannot create directory '" ++ (name ++ codes "'\n"))
unfolding expand
expand-not_made name = refl

-- `mkdir` returns, with the table that `fs_create_file` leaves.
cmd_mkdir-returns :
    (cmd name path : Text) (argv : List Text) (saved : Saved) (w : World)
    → fs_get_absolute_path name w.shell.current_dir ≡ some (path, saved)
    → (s : Console) × (cmd_mkdir (cmd ∷ name ∷ argv) w
        ≡ some (record w {
          console = s;
          fs = (fs_create_file w.fs (add_slash path) 1).1;
          saved_str = saved;
        }))
unfolding cmd_mkdir
cmd_mkdir-returns cmd name path argv saved w e =
    let made = fs_create_file w.fs (add_slash path) 1 in
    let (s, done) =
      finish-returns (codes "mkdir: cannot create directory '%s'\n")
        (codes "Directory '%s' created successfully\n") name _ _ made.0 made.1 (keep_saved saved w)
        (expand-not_made name) (expand-made name) in
    (s, rw e done)

-- Where a slash is added.
add_slash-added :
    (p : Text)
    → 0 < length p
    → ends_with_slash p ≡ false
    → length p ≤ 126
    → add_slash p ≡ p ++ (slash ∷ [])
unfolding add_slash
add_slash-added p some_bytes open_end short =
    let room : ltb (length p) 127 ≡ true = ground arith in
    let present : ltb 0 (length p) ≡ true = ground arith in rw (room, present, open_end) refl

-- A file that is created where there is room is there, whether it was there before or not.
exists-fs_create_file :
    (fs : Filesystem) (name : Text) (is_directory : ℕ)
    → length fs.entries < 256
    → length name ≤ 127
    → fs_file_exists (fs_create_file fs name is_directory).1 name ≡ true
exists-fs_create_file fs name d room short = elim (Bool-cases (fs_file_exists fs name)) [
  | inl there ↦
      let declined : creatable fs name ≡ false = rw there (ground arith) in
      rw (fs_create_file-refused fs name d declined) there
  | inr missing ↦
      let fits : ltb (length fs.entries) 256 ≡ true = ground arith in
      let allowed : creatable fs name ≡ true = rw (missing, fits) refl in
      fs_file_exists-lookup (fs_create_file fs name d).1 name
      ∙ rw (fs_create_file_lem fs name d name short, allowed, bytes_eq_refl name) refl
]

-- `cd` to a directory that is in the table.
cmd_cd-entered :
    (cmd name path : Text) (argv : List Text) (saved : Saved) (w : World)
    → bytes_eq name dot ≡ false
    → bytes_eq name dot_dot ≡ false
    → fs_get_absolute_path name w.shell.current_dir ≡ some (path, saved)
    → fs_file_exists w.fs (add_slash path) ≡ true
    → cmd_cd (cmd ∷ name ∷ argv) w ≡ some (set_dir (take 511 (add_slash path)) (keep_saved saved w))
unfolding cmd_cd
cmd_cd-entered cmd name path argv saved w not_here not_up e there =
    rw
      (
        fs_change_directory-entered w.fs name w.shell.current_dir path max_path_length w.saved_str
            saved not_up not_here e,
        there,
      )
      refl

-- `mkdir` and then `cd`, both with a name other than `.` and `..` of which `fs_get_absolute_path` makes
-- (as it does not where its buffer is too small) a path of 1 to 126 bytes with no slash at its end,
-- return where the table has room, and the current directory is that path with a slash.
pub cmd_cd-cmd_mkdir :
    (cmd cmd' name path : Text) (argv argv' : List Text) (saved : Saved) (w : World)
    → bytes_eq name dot ≡ false
    → bytes_eq name dot_dot ≡ false
    → fs_get_absolute_path name w.shell.current_dir ≡ some (path, saved)
    → 0 < length path
    → ends_with_slash path ≡ false
    → length path ≤ 126
    → length w.fs.entries < 256
    → (w1 : World) × (w2 : World) × (cmd_mkdir (cmd ∷ name ∷ argv) w ≡ some w1)
      × (cmd_cd (cmd' ∷ name ∷ argv') w1 ≡ some w2)
      × (w2.shell.current_dir ≡ path ++ (slash ∷ []))
      × (w2.fs ≡ w1.fs)
cmd_cd-cmd_mkdir cmd cmd' name path argv argv' saved w not_here not_up e some_bytes open_end short
      room =
    let dir : Text = add_slash path in
    let added : dir ≡ path ++ (slash ∷ []) = add_slash-added path some_bytes open_end short in
    let fits : length dir ≤ 127 = rw added (omega (arith, length-append {0} path (slash ∷ []))) in
    let (s, made) = cmd_mkdir-returns cmd name path argv saved w e in
    let w1 : World = record w {
      console = s;
      fs = (fs_create_file w.fs dir 1).1;
      saved_str = saved;
    } in
    (
      w1,
      set_dir (take 511 dir) (keep_saved saved w1),
      made,
      cmd_cd-entered cmd' name path argv' saved w1 not_here not_up e
          (exists-fs_create_file w.fs dir 1 room fits),
      take-eq_self 511 dir (omega arith) ∙ added,
      refl,
    )
