-- ===== src/Shell/Touch.antt =====
-- The command `touch` of kernel/shell.c and the table of files.
use alpha_os.Prelude.{
  ◌≤◌, ◌≡◌, refl, ◌&&◌, some, List, [], ◌∷◌, ◌++◌, codes, if◌then◌else◌, length, take, bytes_eq,
  Bool-cases, inl, inr,
}
use alpha_os.Prelude.Int.{ℤ}
use alpha_os.CString.Spec.{Text}
use alpha_os.Strtok.Spec.{Saved}
use alpha_os.FilePath.{fs_get_absolute_path}
use alpha_os.Fs.{Filesystem, tick, new_entry, fs_create_file}
use alpha_os.Fs.Lookup.{lookup}
use alpha_os.Fs.Create.{creatable, fs_create_file_lem}
use alpha_os.Console.{Console, VgaColor, console_set_color, console_write}
use alpha_os.Stdio.{text, limit, vsprintf, vprintf, c_string}
use alpha_os.Stdio.Spec.{expand}
use alpha_os.Stdio.Expand.{vsprintf-expand}
use alpha_os.Shell.{World, show, display, keep_saved}
use alpha_os.Shell.Files.{is_zero, report, set_fs, finish, cmd_touch}

display-report :
    (fg : VgaColor) (format name out : Text) (w : World)
    → vsprintf format (text name ∷ []) ≡ some out
    → (s : Console) × (display (report fg format name) w ≡ some (record w { console = s }))
unfolding display show vprintf
display-report fg format name out w e = (
  console_set_color (console_write (console_set_color w.console fg VgaColor.black) (c_string out))
      VgaColor.light_grey VgaColor.black,
  rw e refl,
)

-- A result is reported, and the table is the one that the call left.
pub finish-returns :
    (bad good name r_bad r_good : Text) (code : ℤ) (fs : Filesystem) (w : World)
    → expand bad (text name ∷ []) ≡ some r_bad
    → expand good (text name ∷ []) ≡ some r_good
    → (s : Console) × (finish bad good name (code, fs) w ≡ some (record w { console = s; fs = fs }))
unfolding finish
finish-returns bad good name r_bad r_good code fs w e_bad e_good =
    elim (Bool-cases (is_zero code)) [
      | inl done ↦
          let (s, e) =
            display-report VgaColor.light_green good name (take limit r_good) (set_fs fs w)
              (vsprintf-expand good (text name ∷ []) r_good e_good) in
          (s, rw done e)
      | inr refused ↦
          let (s, e) =
            display-report VgaColor.light_red bad name (take limit r_bad) (set_fs fs w)
              (vsprintf-expand bad (text name ∷ []) r_bad e_bad) in
          (s, rw refused e)
    ]

expand-created :
    (name : Text)
    → expand (codes "File '%s' created successfully\n") (text name ∷ [])
      ≡ some (codes "File '" ++ (name ++ codes "' created successfully\n"))
unfolding expand
expand-created name = refl

expand-refused :
    (name : Text)
    → expand (codes "touch: cannot create file '%s'\n") (text name ∷ [])
      ≡ some (codes "touch: cannot create file '" ++ (name ++ codes "'\n"))
unfolding expand
expand-refused name = refl

-- `touch` returns, with the table that `fs_create_file` leaves.
pub cmd_touch-returns :
    (cmd name path : Text) (argv : List Text) (saved : Saved) (w : World)
    → fs_get_absolute_path name w.shell.current_dir ≡ some (path, saved)
    → (s : Console) × (cmd_touch (cmd ∷ name ∷ argv) w
        ≡ some (record w { console = s; fs = (fs_create_file w.fs path 0).1; saved_str = saved }))
unfolding cmd_touch
cmd_touch-returns cmd name path argv saved w e =
    let made = fs_create_file w.fs path 0 in
    let (s, done) =
      finish-returns (codes "touch: cannot create file '%s'\n")
        (codes "File '%s' created successfully\n") name _ _ made.0 made.1 (keep_saved saved w)
        (expand-refused name) (expand-created name) in
    (s, rw e done)

-- `touch` with a name of which `fs_get_absolute_path` makes a path of at most 127 bytes returns. Where the table has
-- room and no file of that path, the path has a new entry afterwards; every other lookup gives what it
-- gave before, and the shell's own state is as before.
pub cmd_touch_lem :
    (cmd name path q : Text) (argv : List Text) (saved : Saved) (w : World)
    → fs_get_absolute_path name w.shell.current_dir ≡ some (path, saved)
    → length path ≤ 127
    → (w' : World) × (cmd_touch (cmd ∷ name ∷ argv) w ≡ some w')
      × (lookup q w'.fs.entries ≡ (
          if creatable w.fs path && bytes_eq path q
          then some (new_entry w.fs path 0 (tick w.fs.system_time))
          else lookup q w.fs.entries))
      × (w'.shell ≡ w.shell)
cmd_touch_lem cmd name path q argv saved w e short =
    let (s, done) = cmd_touch-returns cmd name path argv saved w e in
    (
      record w { console = s; fs = (fs_create_file w.fs path 0).1; saved_str = saved },
      done,
      fs_create_file_lem w.fs path 0 q short,
      refl,
    )
