-- ===== src/Shell/Ready.antt =====
-- `kernel_main` of kernel/main.c brings the system up, and the commands of kernel/shell.c are there
-- from then on.
use mathlib.Core.Path.{subst}
use alpha_os.Prelude.{
  ℕ, zero, suc, ◌+◌, ◌^◌, ◌<◌, ◌≡◌, refl, ap, ◌∙◌, Option, none, some, List, [], ◌∷◌, ◌++◌, map,
  arith, length, get_elem?, codes,
}
use alpha_os.Prelude.Lists.{bytes_eq}
use alpha_os.CString.{◌>>=◌}
use alpha_os.CString.Spec.{Text}
use alpha_os.Strtok.Spec.{Saved}
use alpha_os.Stdio.{vsprintf, vsprintf_loop}
use alpha_os.Console.{console_init}
use alpha_os.Keyboard.{Typed, keyboard_init, keyboard_get_line}
use alpha_os.Heap.{heap_size, memory_init}
use alpha_os.Heap.Laws.{memory_init-IsHeap}
use alpha_os.Fs.Init.{fs_init}
use alpha_os.Shell.{World, Command, initial_shell, keep_saved, read_line, find_command, line}
use alpha_os.Shell.Screens.{cmd_banner, banner_outputs}
use alpha_os.Shell.Dispatch.{run_handler, arguments, remember, execute, shell_process_command}
use alpha_os.Shell.Boot.{
  BuiltIn, built_ins, register_all, ready_outputs, shell_init, system_init, welcome_outputs,
  ok_outputs, start_outputs, kernel_main,
}
use alpha_os.Shell.Login.{After-display}
use alpha_os.Shell.Password.{display-sound}
use alpha_os.Shell.Register.{registered, register_all_lem}
use alpha_os.Shell.Steady.{Runs, Steady, remember-After, After-result, Runs-keep}

-- A world whose shell has the built-in commands.
abbrev pub Ready : World → Type 0
Ready w = w.shell.commands ≡ map registered built_ins

shell_init-returns :
    (w : World)
    → (w1 : World) × (register_all built_ins w ≡ some w1)
      × (w1.shell.commands ≡ map registered built_ins)
    → (w' : World) × (shell_init w ≡ some w') × Ready w'
unfolding shell_init cmd_banner vsprintf vsprintf_loop
shell_init-returns w (w1, done, known) =
    let (s2, shown) = display-sound banner_outputs w1 refl in
    let (s3, ready) = display-sound ready_outputs (record w1 { console = s2 }) refl in
    (record w1 { console = s3 }, rw (done, shown) ready, known)

-- `kernel_main` brings the system up: where the heap's array lies at an address that is not null and
-- ends below 2 ^ 32, and the static variables have their first values, it returns from all that stands
-- before the call of `shell_run`, and each of the 24 built-in commands is in the table of commands,
-- with its texts, in their order.
pub kernel_main_lem :
    (w : World)
    → w.shell ≡ initial_shell
    → 0 < w.heap.heap
    → w.heap.heap + heap_size < 2 ^ 32
    → w.heap.total_memory ≡ heap_size
    → (w' : World) × (kernel_main w ≡ some w') × (w'.shell.commands ≡ map registered built_ins)
unfolding kernel_main system_init vsprintf vsprintf_loop
kernel_main_lem w new ne range total =
    let w0 : World = record w {
      console = console_init w.console;
      heap = memory_init w.heap;
      keyboard = keyboard_init w.keyboard;
      system_uptime = 0;
    } in
    let (s1, e1) = display-sound (line (codes "System components initialized\n") ∷ []) w0 refl in
    let w1 : World = record w0 { console = s1 } in
    let (s2, e2) = display-sound welcome_outputs w1 refl in
    let w2 : World = record w1 { console = s2 } in
    let (s3, e3) =
      display-sound (ok_outputs (codes "Initializing Alpha File System...\n")) w2 refl in
    let w3 : World = record w2 { console = s3; fs = fs_init w2.fs } in
    let (s4, e4) = display-sound (ok_outputs (codes "Initializing Alpha Shell...\n")) w3 refl in
    let w4 : World = record w3 { console = s4 } in
    let empty : w4.shell.commands ≡ [] = rw new refl in
    let heap = memory_init-IsHeap w.heap ne range total in
    let (w5', e5', known') =
      register_all_lem built_ins w4 _ heap (rw empty (omega arith)) (omega arith) (omega arith) in
    let (w5, e5, known) =
      shell_init-returns w4 (w5', e5', known' ∙ ap (λ cs. cs ++ map registered built_ins) empty) in
    let (s6, e6) = display-sound start_outputs w5 refl in
    (record w5 { console = s6 }, rw (e1, e2, e3, e4, e5) e6, known)

read_line-Ready :
    (size : ℕ) (w : World) (n : ℕ) (t : Text) (w1 : World)
    → Ready w
    → read_line size w ≡ some (n, t, w1)
    → Ready w1
unfolding read_line
read_line-Ready size w n t w1 h e =
    go (keyboard_get_line (257 + length w.readings) size w.keyboard w.console w.readings) e
  where
    go :
        (o : Option (ℕ × Typed))
        → ◌>>=◌ {B = ℕ × Text × World} o (λ (n, t). some (
          n,
          t.line,
          record w { console = t.console; keyboard = t.keyboard; readings = t.readings },
        ))
          ≡ some (n, t, w1)
        → Ready w1
    go none e = absurd (cc)
    go (some (m, u)) e =
        let got : ◌≡◌ {A = World}
            (record w { console = u.console; keyboard = u.keyboard; readings = u.readings }) w1 =
          cc in
        subst Ready got h

-- No step of the shell changes the table of commands.
Ready-Steady : Steady Ready
Ready-Steady = record {
  stable = record {
    displays = After-display Ready (λ w s h. h);
    clears = λ w h. h;
    dirs = λ d w k h. h;
    saves = λ d w h. h;
    ticks = λ d w h. h;
    names = λ d w h. h;
    creates = λ name d w k h. h;
    deletes = λ name w h. h;
  };
  reads = read_line-Ready;
  roots = λ w h. h;
  users = λ w h. h;
  remembers = λ slots count w h. h;
}

-- Each built-in command is found under its name.
AllFound : List BuiltIn → Type 0
AllFound [] = Unit {0}
AllFound (b ∷ bs) =
    (find_command b.name (map registered built_ins) ≡ some (some (registered b))) × AllFound bs

all_found : AllFound built_ins
unfolding AllFound find_command bytes_eq
all_found = (
  refl,
  (
    refl,
    (
      refl,
      (
        refl,
        (
          refl,
          (
            refl,
            (
              refl,
              (
                refl,
                (
                  refl,
                  (
                    refl,
                    (
                      refl,
                      (
                        refl,
                        (
                          refl,
                          (
                            refl,
                            (
                              refl,
                              (
                                refl,
                                (refl, (refl, (refl, (refl, (refl, (refl, (refl, (refl, tt)))))))),
                              ),
                            ),
                          ),
                        ),
                      ),
                    ),
                  ),
                ),
              ),
            ),
          ),
        ),
      ),
    ),
  ),
)

found_at :
    (bs : List BuiltIn) (i : ℕ) (b : BuiltIn)
    → AllFound bs
    → get_elem? bs i ≡ some b
    → find_command b.name (map registered built_ins) ≡ some (some (registered b))
unfolding AllFound
found_at [] i b h e = absurd (cc)
found_at (c ∷ bs) zero b (here, h) e =
    let same : c ≡ b = cc in
    subst (λ d. find_command d.name (map registered built_ins) ≡ some (some (registered d))) same
      here
found_at (c ∷ bs) (suc i) b (here, h) e = found_at bs i b h e

execute-found :
    (name : Text) (argv : List Text) (c : Command) (w : World)
    → find_command name w.shell.commands ≡ some (some c)
    → execute (name ∷ argv) w ≡ run_handler c.handler (name ∷ argv) w
unfolding execute
execute-found name argv c w e = rw (execute, e) refl

-- With the heap's array at an address that is not null and ends below 2 ^ 32, and the static variables
-- as they are at first: after `kernel_main`, and any rounds of the loop of `shell_run` that have a
-- defined result, a line whose words are the name of a built-in command and arguments is added to
-- the history, if its count allows for one more, and then runs that command's own handler on these
-- words.
pub dispatch :
    (w w1 w2 w3 : World) (i : ℕ) (b : BuiltIn) (command : Text) (argv : List Text) (saved : Saved)
    → w.shell ≡ initial_shell
    → 0 < w.heap.heap
    → w.heap.heap + heap_size < 2 ^ 32
    → w.heap.total_memory ≡ heap_size
    → kernel_main w ≡ some w1
    → Runs w1 w2
    → get_elem? built_ins i ≡ some b
    → arguments command ≡ some (b.name ∷ argv, saved)
    → remember command w2 ≡ some w3
    → shell_process_command command w2 ≡ run_handler b.handler (b.name ∷ argv) (keep_saved saved w3)
unfolding shell_process_command
dispatch w w1 w2 w3 i b command argv saved new ne range total up runs built words noted =
    let (w', up', known) = kernel_main_lem w new ne range total in
    let same : w' ≡ w1 = cc in
    let ready : Ready w2 = Runs-keep Ready Ready-Steady w1 w2 (subst Ready same known) runs in
    let ready3 : Ready w3 =
      After-result Ready Ready-Steady (remember command w2)
        (remember-After Ready command w2 ready λ slots count. ready) noted in
    let found : find_command b.name w3.shell.commands ≡ some (some (registered b)) =
      rw ready3 (found_at built_ins i b all_found built) in
    rw (noted, words) (execute-found b.name argv (registered b) (keep_saved saved w3) found)
