-- ===== src/System/Tests.antt =====
-- Busy waits of kernel/system.c.
use alpha_os.Prelude.{◌*◌, ◌%◌, ◌^◌, ◌≡◌, refl, some, arith}
use alpha_os.System.{delay_loop, system_delay, system_delay_lem}

-- A wait of 4294968 milliseconds has 704 rounds, fewer than a wait of one millisecond.
system_delay_example : system_delay 705 4294968 ≡ some (4294968 * 1000 % 2 ^ 32)
system_delay_example = system_delay_lem 4294968 705 (omega arith)

delay-short : system_delay 3 0 ≡ some 0
unfolding system_delay delay_loop
delay-short = refl
