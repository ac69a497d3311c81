-- ===== src/Console/Cursor.antt =====
-- The cursor of console.c stays on the screen, and what a character does to the screen.
use mathlib.Core.Path.{◌∙◌}
use alpha_os.Prelude.{
  ℕ, ◌+◌, ◌-◌, ◌*◌, ◌≤◌, ◌<◌, ◌≡◌, ◌≢◌, refl, List, [], ◌∷◌, arith, ltb, not, ◌==◌, if◌then◌else◌,
}
use alpha_os.Bytes.{poke}
use alpha_os.Console.{
  vga_entry, Console, console_scroll, next_row, put_cell, console_putchar, console_write,
  console_get_cursor,
}
use alpha_os.Console.Scroll.{console_scroll-buffer}

-- The cursor is on the screen.
abbrev pub OnScreen : Console → Type 0
OnScreen s = (s.row < 25) × (s.column < 80)

pub next_row-OnScreen : (s : Console) → OnScreen s → OnScreen (next_row s)
unfolding next_row console_scroll
next_row-OnScreen s (hr, hc) = ground arith

pub console_putchar-OnScreen : (s : Console) (c : ℕ) → OnScreen s → OnScreen (console_putchar s c)
unfolding console_putchar next_row console_scroll
console_putchar-OnScreen s c (hr, hc) = ground arith

-- A cursor on the screen is on the screen after any text.
pub console_write-OnScreen :
    (s : Console) (cs : List ℕ) → OnScreen s → OnScreen (console_write s cs)
unfolding console_write
console_write-OnScreen s [] h = h
console_write-OnScreen s (c ∷ cs) h =
    console_write-OnScreen (console_putchar s c) cs (console_putchar-OnScreen s c h)

-- What a line feed leaves in a cell: the screen scrolls when the cursor stood in the last row.
pub next_row-buffer :
    (s : Console) (i : ℕ)
    → (next_row s).buffer i ≡ (
        if not (s.row == 24)
        then s.buffer i
        else if ltb i 1920
        then s.buffer (i + 80)
        else if ltb i 2000
        then vga_entry 32 s.color
        else s.buffer i)
unfolding next_row
next_row-buffer s i = ground (arith, console_scroll-buffer (record s { row = s.row + 1 }) i)

next_row-cursor : (s : Console) → s.row ≡ 24 → console_get_cursor (next_row s) ≡ (24, s.column)
unfolding next_row console_scroll
next_row-cursor s h = ground arith

-- Nothing behind the screen is written.
pub next_row-outside : (s : Console) (i : ℕ) → 2000 ≤ i → (next_row s).buffer i ≡ s.buffer i
next_row-outside s i hi = ground (arith, next_row-buffer s i)

pub put_cell-outside :
    (s : Console) (c i : ℕ) → OnScreen s → 2000 ≤ i → (put_cell s c).buffer i ≡ s.buffer i
unfolding poke
put_cell-outside s c i (hr, hc) hi = ground arith

pub console_putchar-outside :
    (s : Console) (c i : ℕ) → OnScreen s → 2000 ≤ i → (console_putchar s c).buffer i ≡ s.buffer i
unfolding console_putchar
console_putchar-outside s c i (hr, hc) hi = ground (
  arith,
  next_row-outside (record s { column = 0 }) i hi,
  next_row-outside (record (put_cell s c) { column = 0 }) i hi,
  put_cell-outside s c i (hr, hc) hi,
  put_cell-outside (record s { column = s.column - 1 }) 32 i (omega arith, omega arith) hi,
)

-- With the cursor on the screen, no text changes a cell behind the 2000 of the screen.
pub console_write-outside :
    (s : Console) (cs : List ℕ) (i : ℕ)
    → OnScreen s
    → 2000 ≤ i
    → (console_write s cs).buffer i ≡ s.buffer i
unfolding console_write
console_write-outside s [] i h hi = refl
console_write-outside s (c ∷ cs) i h hi =
    console_write-outside (console_putchar s c) cs i (console_putchar-OnScreen s c h) hi
    ∙ console_putchar-outside s c i h hi

-- A character that is no line feed, return, tab or backspace.
abbrev pub IsPlain : ℕ → Type 0
IsPlain c = (c ≢ 8) × (c ≢ 9) × (c ≢ 10) × (c ≢ 13)

console_putchar-branch :
    (s : Console) (c : ℕ)
    → IsPlain c
    → console_putchar s c ≡ (
        if s.column + 1 == 80
        then next_row (record (put_cell s c) { column = 0 })
        else record (put_cell s c) { column = s.column + 1 })
unfolding console_putchar
console_putchar-branch s c (h8, h9, h10, h13) = ground arith

-- What the console is after a plain character that does not scroll the screen.
pub record Advanced (s : Console) (c : ℕ) (t : Console) : Type 0 where
  pub onward : t.row * 80 + t.column ≡ s.row * 80 + s.column + 1
  pub cells :
      (i : ℕ)
      → t.buffer i ≡ (if i == s.row * 80 + s.column then vga_entry c s.color else s.buffer i)

-- With the cursor on the screen and not in its last cell, a plain character goes to the cell at the
-- cursor, no other cell changes, and the cursor goes to the next cell in reading order.
pub console_putchar-plain :
    (s : Console) (c : ℕ)
    → OnScreen s
    → IsPlain c
    → s.row * 80 + s.column < 1999
    → Advanced s c (console_putchar s c)
unfolding next_row poke
console_putchar-plain s c (hr, hc) plain h =
    rw (console_putchar-branch s c plain)
      record { onward = ground arith; cells = λ i. ground arith }

-- With the cursor in the last cell, a plain character moves the screen up by a row: the character
-- stands at the end of the row before the last, the last row is blank, every other cell has what was
-- a row below it, and the cursor is at the start of the last row.
pub console_putchar-scrolls :
    (s : Console) (c i : ℕ)
    → OnScreen s
    → IsPlain c
    → s.row * 80 + s.column ≡ 1999
    → i < 2000
    → (console_get_cursor (console_putchar s c) ≡ (24, 0))
      × ((console_putchar s c).buffer i ≡ (
          if ltb 1919 i
          then vga_entry 32 s.color
          else if i == 1919
          then vga_entry c s.color
          else s.buffer (i + 80)))
unfolding poke
console_putchar-scrolls s c i (hr, hc) plain h hi =
    let column : s.column ≡ 79 = omega arith in
    let row : s.row ≡ 24 = omega arith in
    let t : Console = record (put_cell s c) { column = 0 } in
    let last : console_putchar s c ≡ next_row t = console_putchar-branch s c plain ∙ ground arith in
    rw last (next_row-cursor t row, next_row-buffer t i ∙ ground arith)
