-- ===== src/Digits.antt =====
-- The loop that libc/stdio.c has for the digits of a number, from the last one on, and what a list of
-- digits is worth.
pub mod Laws
use alpha_os.Prelude.{
  ℕ, zero, suc, ◌+◌, ◌*◌, ◌/◌, ◌%◌, ◌≡◌, Option, none, some, List, [], ◌∷◌, ◌==◌, if◌then◌else◌,
}
use alpha_os.CString.Spec.{Text}

-- `do { temp[temp_pos++] = digit(value % base); value /= base; } while (value > 0);` with the last of
-- `temp` first, which is the order in which it is read back. `fuel` is the room in `temp`.
unfoldable pub digit_loop : (fuel base : ℕ) (digit : ℕ → ℕ) (value : ℕ) (temp : Text) → Option Text
digit_loop zero base digit value temp = none
digit_loop (suc f) base digit value temp =
    let rest = digit_loop f base digit (value / base) (digit (value % base) ∷ temp) in
    if value / base == 0 then some (digit (value % base) ∷ temp) else rest
