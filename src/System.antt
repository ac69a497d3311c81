-- ===== src/System.antt =====
-- The busy wait of kernel/system.c, and the calls of libc/stdlib.c that halt the processor.
pub mod Tests
use alpha_os.Prelude.{
  ℕ, zero, suc, ◌+◌, ◌-◌, ◌*◌, ◌%◌, ◌^◌, ◌≤◌, ◌<◌, ◌≡◌, refl, ap, ◌∙◌, true, false, Option, none,
  some, arith, ltb, if◌then◌else◌, Bool-cases, inl, inr,
}

-- `for (volatile uint32_t i = 0; i < ms * 1000; i++) {}`, with the rounds counted.
unfoldable pub delay_loop : (fuel limit i rounds : ℕ) → Option ℕ
delay_loop zero limit i rounds = none
delay_loop (suc f) limit i rounds =
    let rest = delay_loop f limit ((i + 1) % 2 ^ 32) (rounds + 1) in
    if ltb i limit then rest else some rounds

-- The rounds of the loop, for `ms` milliseconds, a `uint32_t`.
unfoldable pub system_delay : (fuel ms : ℕ) → Option ℕ
system_delay fuel ms = delay_loop fuel (ms * 1000 % 2 ^ 32) 0 0

delay_loop_lem :
    (fuel limit i rounds : ℕ)
    → limit < 2 ^ 32
    → i ≤ limit
    → limit - i < fuel
    → delay_loop fuel limit i rounds ≡ some (rounds + (limit - i))
unfolding delay_loop
delay_loop_lem zero limit i rounds small le lt = absurd (omega arith)
delay_loop_lem (suc f) limit i rounds small le lt = elim (Bool-cases (ltb i limit)) [
  | inl more ↦
      let below : i < limit = ground arith in
      let next : (i + 1) % 2 ^ 32 ≡ i + 1 = omega arith in
      rw (more, next)
        (delay_loop_lem f limit (i + 1) (rounds + 1) small (omega arith) (omega arith)
          ∙ ap some (omega arith))
  | inr done ↦ rw done (ap some (ground arith))
]

-- `system_delay` ends for every number of milliseconds, after as many rounds as 1000 times that number
-- modulo 2 ^ 32.
pub system_delay_lem :
    (ms fuel : ℕ) → ms * 1000 % 2 ^ 32 < fuel → system_delay fuel ms ≡ some (ms * 1000 % 2 ^ 32)
unfolding system_delay
system_delay_lem ms fuel lt =
    delay_loop_lem fuel (ms * 1000 % 2 ^ 32) 0 0 (omega arith) (omega arith) (omega arith)
    ∙ ap some (omega arith)

-- `while (1) hlt;`: `none` says that the fuel has run out.
unfoldable pub system_halt : (fuel : ℕ) → Option ℕ
system_halt zero = none
system_halt (suc f) = system_halt f

unfoldable pub exit : (fuel status : ℕ) → Option ℕ
exit fuel status = system_halt fuel

unfoldable pub abort : (fuel : ℕ) → Option ℕ
abort fuel = system_halt fuel

system_halt-none : (fuel : ℕ) → system_halt fuel ≡ none
unfolding system_halt
system_halt-none zero = refl
system_halt-none (suc f) = system_halt-none f

-- Neither `exit` nor `abort` returns.
exit-none : (fuel status : ℕ) → exit fuel status ≡ none
unfolding exit
exit-none fuel status = system_halt-none fuel

abort-none : (fuel : ℕ) → abort fuel ≡ none
unfolding abort
abort-none fuel = system_halt-none fuel
