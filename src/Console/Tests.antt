-- ===== src/Console/Tests.antt =====
-- Output of kernel/console.c at the start and at the end of the screen.
use alpha_os.Prelude.{◌+◌, ◌≡◌, refl, ltb, ◌==◌, if◌then◌else◌, arith, codes}
use alpha_os.Console.{
  vga_entry, Console, console_putchar, console_write, console_clear, console_get_cursor,
}
use alpha_os.Console.Scroll.{console_clear-buffer}
use alpha_os.Console.Cursor.{
  OnScreen, console_write-OnScreen, console_write-outside, Advanced, console_putchar-plain,
  console_putchar-scrolls,
}

abbrev at_home : Console
at_home = record { row = 0; column = 0; color = 7; buffer = λ a. 0 }

abbrev at_end : Console
at_end = record { row = 24; column = 79; color = 7; buffer = λ a. a }

console_write-OnScreen_example : OnScreen (console_write at_end (codes "x\n\ty"))
console_write-OnScreen_example =
    console_write-OnScreen at_end (codes "x\n\ty") (omega arith, omega arith)

console_write-outside_example : (console_write at_end (codes "x\n\ty")).buffer 2000 ≡ 2000
console_write-outside_example =
    console_write-outside at_end (codes "x\n\ty") 2000 (omega arith, omega arith) (omega arith)

console_putchar-plain_example : Advanced at_home 65 (console_putchar at_home 65)
console_putchar-plain_example =
    console_putchar-plain at_home 65 (omega arith, omega arith)
      ((λ e. omega arith), (λ e. omega arith), (λ e. omega arith), (λ e. omega arith)) (omega arith)

console_putchar-scrolls_example :
    (console_get_cursor (console_putchar at_end 65) ≡ (24, 0))
    × ((console_putchar at_end 65).buffer 3
        ≡ (if ltb 1919 3 then vga_entry 32 7 else if 3 == 1919 then vga_entry 65 7 else 3 + 80))
console_putchar-scrolls_example =
    console_putchar-scrolls at_end 65 3 (omega arith, omega arith)
      ((λ e. omega arith), (λ e. omega arith), (λ e. omega arith), (λ e. omega arith)) refl
      (omega arith)

console_clear_example :
    (console_clear at_end).buffer 5
    ≡ (if ltb 5 2000 then vga_entry 32 at_end.color else at_end.buffer 5)
console_clear_example = console_clear-buffer at_end 5
