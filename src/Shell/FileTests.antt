-- ===== src/Shell/FileTests.antt =====
-- The commands of kernel/shell.c on files and numbers, on concrete worlds.
use alpha_os.Prelude.{inl, ◌≡◌, refl, none, some, [], ◌∷◌, ◌++◌, codes, take, arith}
use alpha_os.Strtok.Spec.{next_text, skip, has, after, token_of}
use alpha_os.Fs.{tick, new_entry, fs_read_file, find_entry, read_bytes}
use alpha_os.CString.Spec.{Text}
use alpha_os.Prelude.{not}
use alpha_os.FilePath.{
  root, slash, fs_get_absolute_path, fs_normalize_path, component_loop, step, render, rebuild,
}
use alpha_os.Stdio.{snprintf, vsprintf, vsprintf_loop, convert, put_string, put_text}
use alpha_os.Shell.Files.{cmd_cat, cmd_touch, cmd_rm, cmd_mkdir, cmd_cd}
use alpha_os.Fs.Lookup.{lookup}
use alpha_os.Fs.Create.{creatable}
use alpha_os.Shell.Touch.{cmd_touch_lem}
use alpha_os.Console.{console_write}
use alpha_os.Prelude.Lists.{bytes_eq}
use alpha_os.Prelude.{if◌then◌else◌, ◌&&◌}
use alpha_os.Shell.{World, initial_shell}
use alpha_os.Prelude.Int.{pos, negsuc}
use alpha_os.Shell.Numbers.{cmd_calc}
use alpha_os.Stdlib.Integer.{number_text}
use alpha_os.Shell.CalcText.{result_text, result_screen, cmd_calc_lem}
use alpha_os.Digits.Laws.{digits}
use alpha_os.Shell.Texts.{final_feed, cmd_cat-cut}
use alpha_os.Shell.Safety.{WellFormed}
use alpha_os.Shell.Worlds.{first_console, first_world, file_world}
use alpha_os.Shell.Remove.{cmd_rm_lem, cmd_rm-cmd_touch, cmd_rm-keeps}
use alpha_os.Shell.Directories.{cmd_cd-cmd_mkdir}

cmd_cat_example :
    cmd_cat (codes "cat" ∷ codes "/a" ∷ []) file_world
    ≡ some (record file_world {
      console = console_write first_console (take 1023 (codes "AB") ++ final_feed (codes "AB"));
      saved_str = none;
    })
unfolding fs_get_absolute_path fs_normalize_path component_loop step render rebuild next_text skip
    has after token_of bytes_eq fs_read_file find_entry read_bytes
cmd_cat_example =
    cmd_cat-cut (codes "cat") (codes "/a") (codes "/a") [] none 2 (codes "AB") file_world refl refl
      (λ e. absurd (omega arith), (λ e. absurd (omega arith), tt))

cmd_touch_example :
    (w' : World) × (cmd_touch (codes "touch" ∷ codes "/b" ∷ []) file_world ≡ some w')
    × (lookup (codes "/b") w'.fs.entries ≡ (
        if creatable file_world.fs (codes "/b") && bytes_eq (codes "/b") (codes "/b")
        then some (new_entry file_world.fs (codes "/b") 0 (tick 0))
        else lookup (codes "/b") file_world.fs.entries))
    × (w'.shell ≡ initial_shell)
unfolding fs_get_absolute_path fs_normalize_path component_loop step render rebuild next_text skip
    has after token_of bytes_eq
cmd_touch_example =
    cmd_touch_lem (codes "touch") (codes "/b") (codes "/b") (codes "/b") [] none file_world refl
      (omega arith)

cmd_calc_example :
    cmd_calc
      (codes "calc" ∷ number_text (negsuc 6) ∷ codes "/" ∷ number_text (pos 2) ∷ [])
      first_world
    ≡ some (record first_world {
      console = result_screen (result_text 47 (negsuc 6) (pos 2) (negsuc 2)) first_console;
    })
cmd_calc_example =
    cmd_calc_lem (codes "calc") 47 [] [] (negsuc 6) (pos 2) (negsuc 2) first_world
      (omega arith, omega arith) (omega arith, omega arith) refl (omega arith, omega arith)

result_text-quotient : result_text 47 (negsuc 6) (pos 2) (negsuc 2) ≡ codes "-7 / 2 = -3\n"
unfolding digits
result_text-quotient = refl

-- The table of `file_world` has one file.
file_world-WellFormed : WellFormed file_world
file_world-WellFormed = record {
  agrees = refl;
  table = omega arith;
  distinct = λ q. ground arith;
  rooted = refl;
  on_screen = (omega arith, omega arith);
  ring = (omega arith, omega arith);
}

cmd_rm_example :
    (w' : World) × (cmd_rm (codes "rm" ∷ codes "/a" ∷ []) file_world ≡ some w')
    × (lookup (codes "/a") w'.fs.entries ≡ (
        if bytes_eq (codes "/a") (codes "/a") && not (bytes_eq (codes "/a") root)
        then none
        else lookup (codes "/a") file_world.fs.entries))
    × (w'.shell ≡ file_world.shell)
unfolding fs_get_absolute_path fs_normalize_path component_loop step render rebuild next_text skip
    has after token_of bytes_eq
cmd_rm_example =
    cmd_rm_lem (codes "rm") (codes "/a") (codes "/a") (codes "/a") [] none file_world
      file_world-WellFormed refl

cmd_rm-cmd_touch_example :
    (w1 : World) × (w2 : World) × (cmd_touch (codes "touch" ∷ codes "b" ∷ []) file_world ≡ some w1)
    × (cmd_rm (codes "rm" ∷ codes "b" ∷ []) w1 ≡ some w2)
    × ((q : Text) → lookup q w2.fs.entries ≡ lookup q file_world.fs.entries)
unfolding fs_get_absolute_path fs_normalize_path component_loop step render rebuild next_text skip
    has after token_of bytes_eq snprintf vsprintf vsprintf_loop convert put_string put_text
cmd_rm-cmd_touch_example =
    cmd_rm-cmd_touch (codes "touch") (codes "rm") (codes "b") (codes "/b") [] [] none file_world
      file_world-WellFormed refl refl refl

cmd_rm-keeps_example :
    (w' : World) × (cmd_rm (codes "rm" ∷ codes "/d/" ∷ []) file_world ≡ some w')
    × (lookup (codes "/d/") w'.fs.entries ≡ lookup (codes "/d/") file_world.fs.entries)
cmd_rm-keeps_example =
    cmd_rm-keeps (codes "rm") (codes "/d/") (codes "/d/") [] file_world file_world-WellFormed refl
      (inl refl)

cmd_cd-cmd_mkdir_example :
    (w1 : World) × (w2 : World) × (cmd_mkdir (codes "mkdir" ∷ codes "d" ∷ []) file_world ≡ some w1)
    × (cmd_cd (codes "cd" ∷ codes "d" ∷ []) w1 ≡ some w2)
    × (w2.shell.current_dir ≡ codes "/d" ++ (slash ∷ []))
    × (w2.fs ≡ w1.fs)
unfolding fs_get_absolute_path fs_normalize_path component_loop step render rebuild next_text skip
    has after token_of bytes_eq snprintf vsprintf vsprintf_loop convert put_string put_text
cmd_cd-cmd_mkdir_example =
    cmd_cd-cmd_mkdir (codes "mkdir") (codes "cd") (codes "d") (codes "/d") [] [] none file_world
      refl refl refl (omega arith) refl (omega arith) (omega arith)
