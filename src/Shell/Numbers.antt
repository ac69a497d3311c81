-- ===== src/Shell/Numbers.antt =====
-- The commands of kernel/shell.c that show numbers, and `calc`.
-- `vsprintf` has no conversions `%zu`, `%3d` and `%.1f`: it prints them with the `%` and takes no
-- argument for them. The floating-point arguments, which come last, are left out.
use alpha_os.Prelude.{
  ℕ, zero, suc, ◌+◌, ◌-◌, ◌*◌, ◌/◌, ◌%◌, ◌^◌, Bool, ◌&&◌, Option, none, some, List, [], ◌∷◌, ◌++◌,
  codes, ltb, ◌==◌, if◌then◌else◌, get_or,
}
use alpha_os.CString.{◌>>=◌}
use alpha_os.CString.Spec.{Text}
use alpha_os.Heap.{memory_get_stats, memory_check_integrity}
use alpha_os.Fs.{fs_get_stats}
use alpha_os.Console.{VgaColor}
use alpha_os.Stdio.{word, text}
use alpha_os.Stdlib.{atoi, is_negative, magnitude, opposite}
use alpha_os.Shell.{World, Shell, Output, paint, print, line, grey, display, history_size}
use alpha_os.Shell.History.{shell_get_history, shell_get_history_count}

abbrev pub stat_outputs : (total_files total_size free_size : ℕ) → List Output
stat_outputs total_files total_size free_size =
    let total : ℕ = (total_size + free_size) % 2 ^ 32 in
    paint VgaColor.light_brown
    ∷ line (codes "Alpha OS File System Statistics\n")
    ∷ line (codes "===============================\n")
    ∷ grey
    ∷ print (codes "Total files:     %u\n") (word total_files ∷ [])
    ∷ print (codes "Used space:      %u bytes (%u KB)\n")
        (word total_size ∷ word (total_size / 1024) ∷ [])
    ∷ print (codes "Free space:      %u bytes (%u KB)\n")
        (word free_size ∷ word (free_size / 1024) ∷ [])
    ∷ print (codes "Total capacity:  %u bytes (%u KB)\n") (word total ∷ word (total / 1024) ∷ [])
    ∷ print (codes "Usage:           %.1f%%\n") ([])
    ∷ []

unfoldable pub cmd_stat : World → Option World
cmd_stat w =
    let (total_files, total_size, free_size) = fs_get_stats w.fs in
    display (stat_outputs total_files total_size free_size) w

-- More than 65536 rounds are enough for the blocks of the heap.
abbrev pub heap_fuel : ℕ
heap_fuel = 65537

abbrev pub mem_outputs : (total used free : ℕ) (sound : Bool) → List Output
mem_outputs total used free sound =
    paint VgaColor.light_brown
    ∷ line (codes "Alpha OS Memory Statistics\n")
    ∷ line (codes "==========================\n")
    ∷ grey
    ∷ print (codes "Total memory:    %zu bytes (%zu KB)\n") (word total ∷ word (total / 1024) ∷ [])
    ∷ print (codes "Used memory:     %zu bytes (%zu KB)\n") (word used ∷ word (used / 1024) ∷ [])
    ∷ print (codes "Free memory:     %zu bytes (%zu KB)\n") (word free ∷ word (free / 1024) ∷ [])
    ∷ print (codes "Usage:           %.1f%%\n") ([])
    ∷ print (codes "Heap integrity:  %s\n")
        (text (if sound then codes "OK" else codes "CORRUPTED") ∷ [])
    ∷ []

unfoldable pub cmd_mem : World → Option World
cmd_mem w =
    let (total, used, free) = memory_get_stats w.heap in
    memory_check_integrity heap_fuel w.heap >>= λ sound.
    display (mem_outputs total used free sound) w

abbrev pub info_outputs : (total_mem free_mem total_files total_size : ℕ) → Shell → List Output
info_outputs total_mem free_mem total_files total_size s =
    paint VgaColor.light_cyan
    ∷ line (codes "Alpha OS System Information\n")
    ∷ line (codes "===========================\n")
    ∷ grey
    ∷ line (codes "OS Name:         Alpha OS\n")
    ∷ line (codes "Version:         1.0.0\n")
    ∷ line (codes "Kernel:          AlphaKernel\n")
    ∷ line (codes "Shell:           AlphaShell v2.0\n")
    ∷ line (codes "Architecture:    x86 (32-bit)\n")
    ∷ line (codes "Compiler:        GCC\n")
    ∷ line (codes "Build Date:      2025\n")
    ∷ line (codes "Features:        File System, Memory Management, Shell\n")
    ∷ print (codes "Memory:          %zu KB total, %zu KB free\n")
        (word (total_mem / 1024) ∷ word (free_mem / 1024) ∷ [])
    ∷ print (codes "File System:     %u files, %u KB used\n")
        (word total_files ∷ word (total_size / 1024) ∷ [])
    ∷ print (codes "Current User:    %s") (text s.username ∷ [])
    ∷ ((if s.is_root then paint VgaColor.light_red ∷ line (codes " (ROOT)") ∷ grey ∷ [] else [])
        ++ line (codes "\n") ∷ [])

unfoldable pub cmd_info : World → Option World
cmd_info w =
    let (total_mem, used_mem, free_mem) = memory_get_stats w.heap in
    let (total_files, total_size, free_size) = fs_get_stats w.fs in
    display (info_outputs total_mem free_mem total_files total_size w.shell) w

abbrev pub history_header : List Output
history_header =
    paint VgaColor.light_brown
    ∷ line (codes "Command History\n")
    ∷ line (codes "===============\n")
    ∷ grey
    ∷ []

-- `if (cmd) printf(..);`
abbrev pub history_line : ℕ → Option Text → List Output → List Output
history_line n none rest = rest
history_line n (some cmd) rest = print (codes "%3d  %s\n") (word n ∷ text cmd ∷ []) ∷ rest

-- `for (int i = 0; i < count; i++) ..` with `k` rounds left.
unfoldable pub history_outputs : Shell → (start k i : ℕ) → List Output
history_outputs s start zero i = []
history_outputs s start (suc k) i =
    let rest = history_outputs s start k (i + 1) in
    history_line (start + i + 1) (shell_get_history s ((start + i) % history_size)) rest

abbrev pub history_start : Shell → ℕ
history_start s = if ltb history_size s.history_count then s.history_count - history_size else 0

unfoldable pub cmd_history : World → Option World
cmd_history w =
    let count = shell_get_history_count w.shell in
    if count == 0
    then display (history_header ++ line (codes "No commands in history\n") ∷ []) w
    else display (history_header ++ history_outputs w.shell (history_start w.shell) count 0) w

-- The count, and the world in which it has gone up.
abbrev pub system_get_uptime : World → ℕ × World
system_get_uptime w =
    let uptime : ℕ = (w.system_uptime + 1) % 2 ^ 32 in (uptime, record w { system_uptime = uptime })

unfoldable pub cmd_uptime : World → Option World
cmd_uptime w =
    let (uptime, w1) = system_get_uptime w in
    display (print (codes "System uptime: %u ticks\n") (word uptime ∷ []) ∷ []) w1

unfoldable pub cmd_date : World → Option World
cmd_date w =
    let (time, w1) = system_get_uptime w in
    display
      (print (codes "System time: %u ticks since boot\n") (word time ∷ [])
        ∷ line (codes "Build year: 2025\n")
        ∷ line (codes "Note: Real-time clock not implemented yet\n")
        ∷ [])
      w1

abbrev pub calc_usage : List Output
calc_usage =
    line (codes "Usage: calc <expression>\n")
    ∷ line (codes "Examples:\n")
    ∷ line (codes "  calc 2 + 3\n")
    ∷ line (codes "  calc 10 - 4\n")
    ∷ line (codes "  calc 6 * 7\n")
    ∷ line (codes "  calc 15 / 3\n")
    ∷ []

-- A `char` as an `int`.
abbrev pub promoted : ℕ → ℕ
promoted c = if ltb c 128 then c else c + 2 ^ 32 - 256

-- `a / b`, which rounds towards zero.
abbrev pub divide : (a b : ℕ) → ℕ
divide a b =
    let q : ℕ = magnitude a / magnitude b in
    if is_negative a
    then (if is_negative b then q else opposite q)
    else if is_negative b
    then opposite q
    else q

-- What the `switch` leaves: a result, or the outputs of an error. -2 ^ 31 / -1 does not fit an `int`,
-- and the division traps.
unfoldable pub calculate : (op a b : ℕ) → Option (Option ℕ × List Output)
calculate op a b =
    if op == b'+'
    then some (some ((a + b) % 2 ^ 32), [])
    else if op == b'-'
    then some (some ((a + opposite b) % 2 ^ 32), [])
    else if op == b'*'
    then some (some (a * b % 2 ^ 32), [])
    else if op == b'/'
    then (if b == 0
        then some (none, line (codes "Error: Division by zero\n") ∷ [])
        else if (a == 2 ^ 31) && (b == 2 ^ 32 - 1)
        then none
        else some (some (divide a b), []))
    else some (none, print (codes "Error: Unknown operator '%c'\n") (word (promoted op) ∷ []) ∷ [])

-- The outputs for a result, and those for an error.
abbrev pub result_outputs : (op a b : ℕ) → Option ℕ × List Output → List Output
result_outputs op a b (none, errors) = errors
result_outputs op a b (some result, errors) =
    paint VgaColor.light_green
    ∷ print (codes "%d %c %d = %d\n") (word a ∷ word (promoted op) ∷ word b ∷ word result ∷ [])
    ∷ grey
    ∷ []

unfoldable pub cmd_calc : (argv : List Text) → World → Option World
cmd_calc (cmd ∷ first ∷ op ∷ second ∷ argv) w =
    let a = atoi first in
    let b = atoi second in
    calculate (get_or op 0 0) a b >>= λ r. display (result_outputs (get_or op 0 0) a b r) w
cmd_calc (cmd ∷ first ∷ op ∷ []) w =
    display (line (codes "Invalid expression. Use: calc <num1> <op> <num2>\n") ∷ []) w
cmd_calc (cmd ∷ first ∷ []) w =
    display (line (codes "Invalid expression. Use: calc <num1> <op> <num2>\n") ∷ []) w
cmd_calc (cmd ∷ []) w = display calc_usage w
cmd_calc [] w = display calc_usage w
