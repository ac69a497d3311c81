-- ===== src/Console.antt =====
-- The text console of kernel/console.c (kernel mode) with include/kernel/console.h.
-- `buffer` is the video memory behind `console_buffer`, in cells of 16 bits: the cell at the row y and
-- the column x has the index y * 80 + x. A `char` is its byte.
pub mod Scroll
pub mod Cursor
pub mod Tests
use alpha_os.Prelude.{
  ℕ, zero, suc, ◌+◌, ◌-◌, ◌*◌, ◌/◌, ◌%◌, ◌^◌, Bool, true, false, ◌&&◌, not, List, [], ◌∷◌, ltb,
  ◌==◌, if◌then◌else◌,
}
use alpha_os.Bytes.{Memory, poke}

-- `enum vga_color`
pub data VgaColor : Type 0 where
  black : VgaColor
  blue : VgaColor
  green : VgaColor
  cyan : VgaColor
  red : VgaColor
  magenta : VgaColor
  brown : VgaColor
  light_grey : VgaColor
  dark_grey : VgaColor
  light_blue : VgaColor
  light_green : VgaColor
  light_cyan : VgaColor
  light_red : VgaColor
  light_magenta : VgaColor
  light_brown : VgaColor
  white : VgaColor

abbrev pub color_code : VgaColor → ℕ
color_code black = 0
color_code blue = 1
color_code green = 2
color_code cyan = 3
color_code red = 4
color_code magenta = 5
color_code brown = 6
color_code light_grey = 7
color_code dark_grey = 8
color_code light_blue = 9
color_code light_green = 10
color_code light_cyan = 11
color_code light_red = 12
color_code light_magenta = 13
color_code light_brown = 14
color_code white = 15

abbrev pub vga_width : ℕ
vga_width = 80

abbrev pub vga_height : ℕ
vga_height = 25

-- The static variables of the console.
pub record Console : Type 0 where
  pub row : ℕ
  pub column : ℕ
  pub color : ℕ
  pub buffer : Memory

-- The two bytes do not overlap, so `|` is a sum.
abbrev pub vga_entry : (c color : ℕ) → ℕ
vga_entry c color = (c % 2 ^ 8 + color % 2 ^ 8 * 2 ^ 8) % 2 ^ 16

-- A colour has four bits, so `|` is a sum.
abbrev pub vga_entry_color : (fg bg : VgaColor) → ℕ
vga_entry_color fg bg = (color_code fg + color_code bg * 2 ^ 4) % 2 ^ 8

-- `n` columns of the row `y` from `x` on get the value.
unfoldable pub blank_columns : Memory → (y x v n : ℕ) → Memory
blank_columns b y x v zero = b
blank_columns b y x v (suc n) = blank_columns (poke b (y * vga_width + x) v) y (x + 1) v n

-- `n` rows from `y` on get the value.
unfoldable pub blank_rows : Memory → (y v n : ℕ) → Memory
blank_rows b y v zero = b
blank_rows b y v (suc n) = blank_rows (blank_columns b y 0 v vga_width) (y + 1) v n

unfoldable pub console_clear : Console → Console
unfolding blank_rows
console_clear s = record s {
  row = 0;
  column = 0;
  buffer = blank_rows s.buffer 0 (vga_entry 32 s.color) vga_height;
}

unfoldable pub console_init : Console → Console
unfolding console_clear
console_init s =
    console_clear
      (record s { row = 0; column = 0; color = vga_entry_color VgaColor.light_grey VgaColor.black })

unfoldable pub console_set_color : Console → (fg bg : VgaColor) → Console
console_set_color s fg bg = record s { color = vga_entry_color fg bg }

-- `n` columns of the row `y` from `x` on take the cell below.
unfoldable pub scroll_columns : Memory → (y x n : ℕ) → Memory
scroll_columns b y x zero = b
scroll_columns b y x (suc n) =
    scroll_columns (poke b (y * vga_width + x) (b ((y + 1) * vga_width + x))) y (x + 1) n

-- `n` rows from `y` on take the row below.
unfoldable pub scroll_rows : Memory → (y n : ℕ) → Memory
scroll_rows b y zero = b
scroll_rows b y (suc n) = scroll_rows (scroll_columns b y 0 vga_width) (y + 1) n

unfoldable pub console_scroll : Console → Console
unfolding scroll_rows blank_columns
console_scroll s = record s {
  buffer =
      blank_columns (scroll_rows s.buffer 0 (vga_height - 1)) (vga_height - 1) 0
        (vga_entry 32 s.color) vga_width;
}

-- `if (++console_row == VGA_HEIGHT) ..`, with which four branches end.
unfoldable pub next_row : Console → Console
unfolding console_scroll
next_row s =
    if s.row + 1 == vga_height
    then record (console_scroll (record s { row = s.row + 1 })) { row = vga_height - 1 }
    else record s { row = s.row + 1 }

-- The cell at the cursor gets the character.
abbrev pub put_cell : Console → ℕ → Console
put_cell s c = record s {
  buffer = poke s.buffer (s.row * vga_width + s.column) (vga_entry c s.color);
}

unfoldable pub console_putchar : Console → ℕ → Console
unfolding next_row
console_putchar s c =
    if c == 10
    then next_row (record s { column = 0 })
    else if c == 13
    then record s { column = 0 }
    else if c == 9
    then (let column = (s.column + 4) / 4 * 4 in
        if ltb column vga_width
        then record s { column = column }
        else next_row (record s { column = 0 }))
    else if c == 8
    then if ltb 0 s.column then put_cell (record s { column = s.column - 1 }) 32 else s
    else if s.column + 1 == vga_width
    then next_row (record (put_cell s c) { column = 0 })
    else record (put_cell s c) { column = s.column + 1 }

-- The bytes are those of the text, before its terminator.
unfoldable pub console_write : Console → List ℕ → Console
console_write s [] = s
console_write s (c ∷ cs) = console_write (console_putchar s c) cs

-- The bytes are `data[0 .. size)`.
unfoldable pub console_write_size : Console → List ℕ → Console
console_write_size s [] = s
console_write_size s (c ∷ cs) = console_write_size (console_putchar s c) cs

abbrev pub console_get_cursor : Console → ℕ × ℕ
console_get_cursor s = (s.row, s.column)

unfoldable pub console_set_cursor : Console → (row col : ℕ) → Console
console_set_cursor s row col =
    if ltb row vga_height && ltb col vga_width then record s { row = row; column = col } else s
