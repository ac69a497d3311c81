-- ===== src/Shell/Invariant.antt =====
-- The system's invariant through the commands of kernel/shell.c and the loop of `shell_run`.
use mathlib.Core.Path.{subst}
use alpha_os.Prelude.{ℕ, ◌+◌, ◌≡◌, refl, Option, none, some, length}
use alpha_os.CString.{◌>>=◌}
use alpha_os.CString.Spec.{Text}
use alpha_os.Keyboard.{Typed, keyboard_get_line}
use alpha_os.Keyboard.Keep.{SettledAfter, keyboard_get_line-Settled}
use alpha_os.Shell.{World, read_line}
use alpha_os.Shell.Dispatch.{shell_process_command}
use alpha_os.Shell.Safety.{WellFormed, WellFormed-Stable}
use alpha_os.Shell.Steady.{Runs, Steady, shell_process_command-After, After-result, Runs-keep}

read_line-WellFormed :
    (size : ℕ) (w : World) (n : ℕ) (t : Text) (w1 : World)
    → WellFormed w
    → read_line size w ≡ some (n, t, w1)
    → WellFormed w1
unfolding read_line
read_line-WellFormed size w n t w1 h e =
    go (keyboard_get_line (257 + length w.readings) size w.keyboard w.console w.readings)
      (keyboard_get_line-Settled (257 + length w.readings) size w.keyboard w.console w.readings
        h.on_screen h.ring)
      e
  where
    go :
        (o : Option (ℕ × Typed))
        → SettledAfter o
        → ◌>>=◌ {B = ℕ × Text × World} o (λ (n, t). some (
          n,
          t.line,
          record w { console = t.console; keyboard = t.keyboard; readings = t.readings },
        ))
          ≡ some (n, t, w1)
        → WellFormed w1
    go none settled e = absurd (cc)
    go (some (m, u)) settled e =
        let got : ◌≡◌ {A = World}
            (record w { console = u.console; keyboard = u.keyboard; readings = u.readings }) w1 =
          cc in
        subst WellFormed got (record {
          agrees = h.agrees;
          table = h.table;
          distinct = h.distinct;
          rooted = h.rooted;
          on_screen = settled.0;
          ring = settled.1;
        })

pub WellFormed-Steady : Steady WellFormed
WellFormed-Steady = record {
  stable = WellFormed-Stable;
  reads = read_line-WellFormed;
  roots = λ w h. record {
    agrees = refl;
    table = h.table;
    distinct = h.distinct;
    rooted = refl;
    on_screen = h.on_screen;
    ring = h.ring;
  };
  users = λ w h. record {
    agrees = refl;
    table = h.table;
    distinct = h.distinct;
    rooted = refl;
    on_screen = h.on_screen;
    ring = h.ring;
  };
  remembers = λ slots count w h. record {
    agrees = h.agrees;
    table = h.table;
    distinct = h.distinct;
    rooted = h.rooted;
    on_screen = h.on_screen;
    ring = h.ring;
  };
}

-- A command line, whatever it says, takes a well-formed system to a well-formed one, if it returns.
pub shell_process_command-WellFormed :
    (command : Text) (w w' : World)
    → WellFormed w
    → shell_process_command command w ≡ some w'
    → WellFormed w'
shell_process_command-WellFormed command w w' h e =
    After-result WellFormed WellFormed-Steady (shell_process_command command w)
      (shell_process_command-After WellFormed WellFormed-Steady command w h) e

-- Each world that the loop of `shell_run` reaches from a well-formed one, by rounds that have a defined
-- result, is well-formed: the name of
-- the user agrees with the rights, the table has 256 files at most and no two of one name, the current
-- directory begins with a slash, the cursor is on the screen, and the indices of the keyboard's ring
-- are in range.
pub Runs-WellFormed : (w w' : World) → WellFormed w → Runs w w' → WellFormed w'
Runs-WellFormed w w' h runs = Runs-keep WellFormed WellFormed-Steady w w' h runs
