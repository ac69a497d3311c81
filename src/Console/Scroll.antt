-- ===== src/Console/Scroll.antt =====
-- What the loops of console.c that fill and that scroll the video memory leave in each cell.
use mathlib.Core.Path.{◌∙◌, ap}
use alpha_os.Prelude.{
  ℕ, zero, suc, ◌+◌, ◌*◌, ◌≤◌, ◌≡◌, Bool, ◌&&◌, arith, ltb, ◌==◌, Bool-cases, inl, inr, leb,
  if◌then◌else◌,
}
use alpha_os.Bytes.{Memory, poke}
use alpha_os.Console.{
  vga_entry, Console, blank_columns, blank_rows, scroll_columns, scroll_rows, console_scroll,
  console_clear,
}

-- Whether an index is in a range.
abbrev pub inside : (first last i : ℕ) → Bool
inside first last i = leb first i && ltb i last

pub blank_columns_lem :
    (b : Memory) (y x v n i : ℕ)
    → blank_columns b y x v n i ≡ (if inside (y * 80 + x) (y * 80 + x + n) i then v else b i)
unfolding blank_columns poke
blank_columns_lem b y x v zero i = ground arith
blank_columns_lem b y x v (suc n) i =
    ground (arith, blank_columns_lem (poke b (y * 80 + x) v) y (x + 1) v n i)

pub blank_rows_lem :
    (b : Memory) (y v n i : ℕ)
    → blank_rows b y v n i ≡ (if inside (y * 80) ((y + n) * 80) i then v else b i)
unfolding blank_rows
blank_rows_lem b y v zero i = ground arith
blank_rows_lem b y v (suc n) i =
    ground (
      arith,
      blank_rows_lem (blank_columns b y 0 v 80) (y + 1) v n i,
      blank_columns_lem b y 0 v 80 i,
    )

pub scroll_columns_lem :
    (b : Memory) (y x n i : ℕ)
    → x + n ≤ 80
    → scroll_columns b y x n i
      ≡ (if inside (y * 80 + x) (y * 80 + x + n) i then b (i + 80) else b i)
unfolding scroll_columns poke
scroll_columns_lem b y x zero i h = ground arith
scroll_columns_lem b y x (suc n) i h =
    let next : Memory = poke b (y * 80 + x) (b ((y + 1) * 80 + x)) in
    scroll_columns_lem next y (x + 1) n i (omega arith) ∙ cases
  where
    cases :
        (if inside (y * 80 + (x + 1)) (y * 80 + (x + 1) + n) i
          then poke b (y * 80 + x) (b ((y + 1) * 80 + x)) (i + 80)
          else poke b (y * 80 + x) (b ((y + 1) * 80 + x)) i)
        ≡ (if inside (y * 80 + x) (y * 80 + x + suc n) i then b (i + 80) else b i)
    cases = elim (Bool-cases (i == y * 80 + x)) [
      | inl here ↦
          let e : b ((y + 1) * 80 + x) ≡ b (i + 80) = ap b (ground arith) in ground (arith, e)
      | inr there ↦ ground arith
    ]

pub scroll_rows_lem :
    (b : Memory) (y n i : ℕ)
    → scroll_rows b y n i ≡ (if inside (y * 80) ((y + n) * 80) i then b (i + 80) else b i)
unfolding scroll_rows
scroll_rows_lem b y zero i = ground arith
scroll_rows_lem b y (suc n) i = ground (
  arith,
  scroll_rows_lem (scroll_columns b y 0 80) (y + 1) n i,
  scroll_columns_lem b y 0 80 i (omega arith),
  scroll_columns_lem b y 0 80 (i + 80) (omega arith),
)

-- Scrolling moves the screen up by a row, blanks the last one, and keeps the rest of the memory.
pub console_scroll-buffer :
    (s : Console) (i : ℕ)
    → (console_scroll s).buffer i ≡ (
        if ltb i 1920
        then s.buffer (i + 80)
        else if ltb i 2000
        then vga_entry 32 s.color
        else s.buffer i)
unfolding console_scroll
console_scroll-buffer s i = ground (
  arith,
  blank_columns_lem (scroll_rows s.buffer 0 24) 24 0 (vga_entry 32 s.color) 80 i,
  scroll_rows_lem s.buffer 0 24 i,
)

-- Clearing blanks the screen, keeps the rest of the memory and brings the cursor home.
pub console_clear-buffer :
    (s : Console) (i : ℕ)
    → (console_clear s).buffer i ≡ (if ltb i 2000 then vga_entry 32 s.color else s.buffer i)
unfolding console_clear
console_clear-buffer s i = ground (arith, blank_rows_lem s.buffer 0 (vga_entry 32 s.color) 25 i)
