-- ===== src/Shell/Safety.antt =====
-- What stays true of the system while the shell of kernel/shell.c runs.
use alpha_os.Prelude.{
  ℕ, ◌≤◌, ◌≡◌, Option, none, some, List, [], ◌∷◌, codes, if◌then◌else◌, arith, inl, inr,
  Option-cases, length, length-append, length-take, ltb, ◌-◌, take, set, drop, bytes_eq,
}
use alpha_os.Prelude.Int.{ℤ, pos, negsuc}
use alpha_os.CString.{◌>>=◌}
use alpha_os.CString.Spec.{Text}
use alpha_os.Console.{Console, VgaColor, console_set_color, console_write, console_clear}
use alpha_os.Console.Cursor.{OnScreen, console_write-OnScreen}
use alpha_os.Keyboard.Queue.{IsRing}
use alpha_os.Fs.{
  Entry, Filesystem, tick, new_entry, find_entry, swap_out, fs_create_file, fs_delete_file,
}
use alpha_os.FilePath.{root}
use alpha_os.FilePath.Rooted.{Rooted}
use alpha_os.Fs.Lookup.{Distinct}
use alpha_os.Fs.Distinct.{fs_create_file-Distinct, fs_delete_file-Distinct}
use alpha_os.Stdio.{vsprintf, vprintf, c_string}
use alpha_os.Shell.{World, Shell, Output, paint, print, show, display}
use alpha_os.Shell.Frame.{After, Stable}

abbrev ScreenAfter : Option Console → Type 0
ScreenAfter none = Unit {0}
ScreenAfter (some s) = OnScreen s

show-OnScreen : (os : List Output) (s : Console) → OnScreen s → ScreenAfter (show os s)
unfolding show console_set_color vprintf
show-OnScreen [] s h = h
show-OnScreen (paint fg ∷ os) s h = show-OnScreen os (console_set_color s fg VgaColor.black) h
show-OnScreen (print format args ∷ os) s h = elim (Option-cases (vsprintf format args)) [
  | inl fault ↦ rw fault tt
  | inr (out, printed) ↦ rw printed (
      show-OnScreen os (console_write s (c_string out)) (console_write-OnScreen s (c_string out) h))
]

-- Whether `username` says who the user is.
abbrev pub Agrees : Shell → Type 0
Agrees s = s.username ≡ (if s.is_root then codes "root" else codes "user")

-- What is true of the system at all times: the user's name agrees with the rights, the table of files
-- does not overflow and has no two entries of one name, the current directory begins with a slash, the cursor is on the screen, and the indices of the keyboard's ring are in range.
pub record WellFormed (w : World) : Type 0 where
  pub agrees : Agrees w.shell
  pub table : length w.fs.entries ≤ 256
  pub distinct : Distinct w.fs.entries
  pub rooted : Rooted w.shell.current_dir
  pub on_screen : OnScreen w.console
  pub ring : IsRing w.keyboard

-- Output changes the screen alone.
pub display-WellFormed :
    (os : List Output) (w : World) → WellFormed w → After WellFormed (display os w)
unfolding display After
display-WellFormed os w h = go (show os w.console) (show-OnScreen os w.console h.on_screen)
  where
    go :
        (o : Option Console)
        → ScreenAfter o
        → After WellFormed (o >>= λ s. some (record w { console = s }))
    go none s = tt
    go (some s) on_screen = record {
      agrees = h.agrees;
      table = h.table;
      distinct = h.distinct;
      rooted = h.rooted;
      on_screen = on_screen;
      ring = h.ring;
    }

length-fs_create_file :
    (fs : Filesystem) (name : Text) (d : ℕ)
    → length fs.entries ≤ 256
    → length (fs_create_file fs name d).1.entries ≤ 256
unfolding fs_create_file
length-fs_create_file fs name d h =
    ground (arith, length-append {0} fs.entries (new_entry fs name d (tick fs.system_time) ∷ []))

length-swap_out : (es : List Entry) (i : ℕ) → length es ≤ 256 → length (swap_out es i) ≤ 256
unfolding swap_out
length-swap_out es i h = go (drop (length es - 1) es)
  where
    go :
        (ends : List Entry)
        → length (elim ends [
          | [] ↦ es
          | last ∷ none_more ↦
              if ltb i (length es - 1)
              then take (length es - 1) (set es i last)
              else take (length es - 1) es
        ])
          ≤ 256
    go [] = h
    go (last ∷ more) =
        ground (
          arith,
          length-take {0} (length es - 1) (set es i last),
          length-take {0} (length es - 1) es,
        )

length-fs_delete_file :
    (fs : Filesystem) (name : Text)
    → length fs.entries ≤ 256
    → length (fs_delete_file fs name).1.entries ≤ 256
unfolding fs_delete_file
length-fs_delete_file fs name h = go (find_entry name fs.entries)
  where
    go :
        (o : Option (ℕ × Entry))
        → (let r : ℤ × Filesystem = elim o [
          | none ↦ (negsuc 0, fs)
          | some (i, e) ↦
              if bytes_eq name root
              then (negsuc 1, fs)
              else (pos 0, record fs { entries = swap_out fs.entries i })
        ] in
            length r.1.entries ≤ 256)
    go none = h
    go (some (i, e)) = ground (arith, length-swap_out fs.entries i h)

-- The cursor's part of `console_clear`.
console_clear-OnScreen : (s : Console) → OnScreen (console_clear s)
unfolding console_clear
console_clear-OnScreen s = (omega arith, omega arith)

pub WellFormed-Stable : Stable WellFormed
WellFormed-Stable = record {
  displays = display-WellFormed;
  clears = λ w h. record {
    agrees = h.agrees;
    table = h.table;
    distinct = h.distinct;
    rooted = h.rooted;
    on_screen = console_clear-OnScreen w.console;
    ring = h.ring;
  };
  dirs = λ d w k h. record {
    agrees = h.agrees;
    table = h.table;
    distinct = h.distinct;
    rooted = k h.rooted;
    on_screen = h.on_screen;
    ring = h.ring;
  };
  saves = λ d w h. record {
    agrees = h.agrees;
    table = h.table;
    distinct = h.distinct;
    rooted = h.rooted;
    on_screen = h.on_screen;
    ring = h.ring;
  };
  ticks = λ d w h. record {
    agrees = h.agrees;
    table = h.table;
    distinct = h.distinct;
    rooted = h.rooted;
    on_screen = h.on_screen;
    ring = h.ring;
  };
  names = λ d w h. record {
    agrees = h.agrees;
    table = h.table;
    distinct = h.distinct;
    rooted = h.rooted;
    on_screen = h.on_screen;
    ring = h.ring;
  };
  creates = λ name d w k h. record {
    agrees = h.agrees;
    table = length-fs_create_file w.fs name d h.table;
    distinct = fs_create_file-Distinct w.fs name d (k h.rooted) h.distinct;
    rooted = h.rooted;
    on_screen = h.on_screen;
    ring = h.ring;
  };
  deletes = λ name w h. record {
    agrees = h.agrees;
    table = length-fs_delete_file w.fs name h.table;
    distinct = fs_delete_file-Distinct w.fs name h.distinct;
    rooted = h.rooted;
    on_screen = h.on_screen;
    ring = h.ring;
  };
}
