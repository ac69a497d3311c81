-- ===== src/Shell/Startup.antt =====
-- The system is well-formed from the start: `kernel_main` of kernel/main.c.
use alpha_os.Prelude.{◌≡◌, refl, some, List, [], ◌∷◌, arith, ltb, length}
use alpha_os.Prelude.Lists.{bytes_eq}
use alpha_os.CString.Spec.{Text}
use alpha_os.Console.{console_init, console_clear}
use alpha_os.Keyboard.{keyboard_init}
use alpha_os.Fs.{
  Filesystem, find_entry, fs_file_exists, fs_create_file, fs_write_file, write_new, fill_last,
}
use alpha_os.Fs.Init.{fs_init}
use alpha_os.Fs.Distinct.{fs_init-Distinct}
use alpha_os.Shell.{World, Handler, initial_shell}
use alpha_os.Shell.Screens.{cmd_banner}
use alpha_os.Shell.Dispatch.{strdup, shell_register_command}
use alpha_os.Shell.Boot.{BuiltIn, built_ins, register_all, shell_init, system_init, kernel_main}
use alpha_os.Shell.Frame.{After, After-some, After-then, After-bind, After-if}
use alpha_os.Shell.Safety.{WellFormed, display-WellFormed}
use alpha_os.Shell.Steady.{Runs, After-result}
use alpha_os.Shell.Invariant.{WellFormed-Steady, Runs-WellFormed}

length-fs_init : (fs : Filesystem) → length (fs_init fs).entries ≡ 17
unfolding fs_init fs_create_file fs_write_file find_entry fs_file_exists write_new fill_last
    bytes_eq
length-fs_init fs = refl

register-WellFormed :
    (name : Text) (handler : Handler) (help_text usage : Text) (w : World)
    → WellFormed w
    → After WellFormed (shell_register_command name handler help_text usage w)
unfolding shell_register_command
register-WellFormed name handler help_text usage w h =
    After-if WellFormed (ltb (length w.shell.commands) 64) _ _
      (After-bind WellFormed (strdup name w.heap) _ λ r1.
        After-bind WellFormed (strdup help_text r1.1) _ λ r2.
          After-bind WellFormed (strdup usage r2.1) _ λ r3. After-some WellFormed _ (record {
            agrees = h.agrees;
            table = h.table;
            distinct = h.distinct;
            rooted = h.rooted;
            on_screen = h.on_screen;
            ring = h.ring;
          }))
      (display-WellFormed _ w h)

register_all-WellFormed :
    (bs : List BuiltIn) (w : World) → WellFormed w → After WellFormed (register_all bs w)
unfolding register_all
register_all-WellFormed [] w h = After-some WellFormed w h
register_all-WellFormed (b ∷ bs) w h =
    After-then WellFormed _ _ (register-WellFormed b.name b.handler b.help_text b.usage w h)
      λ w1 h1. register_all-WellFormed bs w1 h1

shell_init-WellFormed : (w : World) → WellFormed w → After WellFormed (shell_init w)
unfolding shell_init cmd_banner
shell_init-WellFormed w h =
    After-then WellFormed _ _ (register_all-WellFormed built_ins w h) λ w1 h1.
      After-then WellFormed _ _ (display-WellFormed _ w1 h1) λ w2 h2. display-WellFormed _ w2 h2

-- The file system has nothing in it before `fs_init`.
kernel_main-After :
    (w : World) → w.shell ≡ initial_shell → w.fs.entries ≡ [] → After WellFormed (kernel_main w)
unfolding kernel_main system_init console_init console_clear keyboard_init
kernel_main-After w new empty =
    After-then WellFormed _ _
      (display-WellFormed _ _ (record {
        agrees = rw new refl;
        table = rw empty (omega arith);
        distinct = λ q. rw empty (omega arith);
        rooted = rw new refl;
        on_screen = (omega arith, omega arith);
        ring = (omega arith, omega arith);
      }))
      λ w1 h1. After-then WellFormed _ _ (display-WellFormed _ w1 h1) λ w2 h2.
        After-then WellFormed _ _ (display-WellFormed _ w2 h2) λ w3 h3.
          After-then WellFormed _ _
            (display-WellFormed _ (record w3 { fs = fs_init w3.fs })
              (record {
                agrees = h3.agrees;
                table = omega (arith, length-fs_init w3.fs);
                distinct = fs_init-Distinct w3.fs;
                rooted = h3.rooted;
                on_screen = h3.on_screen;
                ring = h3.ring;
              }))
            λ w4 h4.
              After-then WellFormed _ _ (shell_init-WellFormed w4 h4)
                λ w5 h5. display-WellFormed _ w5 h5

-- From the static variables as they are at first, with no file, each world that the loop of `shell_run`
-- reaches after `kernel_main` has brought the system up, by rounds that each have a defined result, is
-- well-formed: the name of the user agrees
-- with the rights, the table has 256 files at most and no two of one name, the current directory
-- begins with a slash, the cursor is on the screen, and the indices of the keyboard's ring are in range.
pub kernel_main-WellFormed :
    (w w1 w2 : World)
    → w.shell ≡ initial_shell
    → w.fs.entries ≡ []
    → kernel_main w ≡ some w1
    → Runs w1 w2
    → WellFormed w2
kernel_main-WellFormed w w1 w2 new empty up runs =
    Runs-WellFormed w1 w2
      (After-result WellFormed WellFormed-Steady (kernel_main w) (kernel_main-After w new empty) up)
      runs
