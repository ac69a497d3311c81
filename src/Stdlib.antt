-- ===== src/Stdlib.antt =====
-- The numeric functions of libc/stdlib.c in kernel mode, less the floating-point `atof` and the
-- halting `exit` and `abort`.
-- An `int`, a `long` or an `unsigned int` is its word of 32 bits. Where a signed sum or product
-- overflows, which C leaves undefined, it wraps around, as the processor's does. A C string is the
-- bytes before its terminator.
pub mod Numeral
pub mod RoundTrip
pub mod Table
pub mod Reverse
pub mod Back
pub mod Itoa
pub mod Float
pub mod Integer
pub mod Double
pub mod Tests
use alpha_os.Prelude.{
  ℕ, zero, suc, ◌+◌, ◌-◌, ◌*◌, ◌/◌, ◌%◌, ◌^◌, Bool, true, false, ◌&&◌, ◌||◌, Option, none, some, [],
  ◌∷◌, codes, ltb, leb, ◌==◌, if◌then◌else◌, get_or,
}
use alpha_os.Bytes.{Ptr, Memory, poke}
use alpha_os.CString.{◌>>=◌}
use alpha_os.CString.Spec.{Text}

-- The sign of a word, the magnitude that it has as a signed number, and the word of its opposite.
abbrev pub is_negative : ℕ → Bool
is_negative value = leb (2 ^ 31) value

abbrev pub magnitude : ℕ → ℕ
magnitude value = if is_negative value then 2 ^ 32 - value else value

abbrev pub opposite : ℕ → ℕ
opposite value = (2 ^ 32 - value) % 2 ^ 32

-- `while (*nptr == ' ' || ..) nptr++;`
unfoldable pub skip_blanks : Text → Text
skip_blanks [] = []
skip_blanks (c ∷ s) =
    let rest = skip_blanks s in if (c == b' ') || (c == 9) || (c == 10) then rest else c ∷ s

-- `while (*nptr >= '0' && *nptr <= '9') ..`; a `char` of 128 or more is negative, and no digit.
unfoldable pub read_digits : (nptr : Text) (result : ℕ) → ℕ
read_digits [] result = result
read_digits (c ∷ s) result =
    let rest = read_digits s ((result * 10 + (c - b'0')) % 2 ^ 32) in
    if leb b'0' c && leb c b'9' then rest else result

-- What follows the blanks: a sign, if there is one, and the digits.
unfoldable pub read_signed : Text → ℕ
read_signed [] = 0
read_signed (c ∷ s) =
    if c == b'-'
    then opposite (read_digits s 0)
    else if c == b'+'
    then read_digits s 0
    else read_digits (c ∷ s) 0

unfoldable pub atoi : Text → ℕ
atoi nptr = read_signed (skip_blanks nptr)

unfoldable pub atol : Text → ℕ
atol nptr = read_signed (skip_blanks nptr)

-- The result, and the new `next`.
unfoldable pub rand : (next : ℕ) → ℕ × ℕ
rand next = let next' : ℕ = (next * 1103515245 + 12345) % 2 ^ 32 in (next' / 65536 % 32768, next')

abbrev pub srand : (next seed : ℕ) → ℕ
srand next seed = seed

unfoldable pub abs : ℕ → ℕ
abs j = if is_negative j then opposite j else j

unfoldable pub labs : ℕ → ℕ
labs j = if is_negative j then opposite j else j

-- The string of 71 characters that is indexed with 35 and more, or less.
abbrev pub digit_table : Text
digit_table = codes "zyxwvutsrqponmlkjihgfedcba9876543210123456789abcdefghijklmnopqrstuvwxyz"

-- `value / base` rounds towards zero.
abbrev pub quotient : (value base : ℕ) → ℕ
quotient value base = if is_negative value then opposite (magnitude value / base) else value / base

-- The character at `35 + (tmp_value - value * base)`.
abbrev pub digit_of : (tmp_value value base : ℕ) → ℕ
digit_of tmp_value value base =
    get_or digit_table ((35 + tmp_value + (2 ^ 32 - value * base % 2 ^ 32)) % 2 ^ 32) 0

-- `do .. while (value);`: the last `tmp_value`, `ptr` and the memory.
unfoldable pub itoa_loop : (fuel value base : ℕ) (ptr : Ptr) → Memory → Option (ℕ × Ptr × Memory)
itoa_loop zero value base ptr m = none
itoa_loop (suc f) value base ptr m =
    let value' : ℕ = quotient value base in
    let m' = poke m ptr (digit_of value value' base) in
    let rest = itoa_loop f value' base (ptr + 1) m' in
    if value' == 0 then some (value, ptr + 1, m') else rest

-- `while (ptr1 < ptr) ..`, which exchanges the bytes at both ends.
unfoldable pub reverse_loop : (fuel : ℕ) (ptr1 ptr : Ptr) → Memory → Option Memory
reverse_loop zero ptr1 ptr m = none
reverse_loop (suc f) ptr1 ptr m =
    let rest = reverse_loop f (ptr1 + 1) (ptr - 1) (poke (poke m ptr (m ptr1)) ptr1 (m ptr)) in
    if ltb ptr1 ptr then rest else some m

-- `if (tmp_value < 0) *ptr++ = '-';`
abbrev pub put_sign : (tmp_value : ℕ) (ptr : Ptr) → Memory → Ptr × Memory
put_sign tmp_value ptr m = if is_negative tmp_value then (ptr + 1, poke m ptr b'-') else (ptr, m)

-- A number has at most 32 digits, and with a sign there are at most 33 bytes to reverse.
unfoldable pub itoa : (value : ℕ) (str : Ptr) (base : ℕ) → Memory → Option (Ptr × Memory)
itoa value str base m =
    if ltb base 2 || ltb 36 base
    then some (str, poke m str 0)
    else (itoa_loop 32 value base str m >>= λ (tmp_value, ptr, m1).
        let (ptr', m2) = put_sign tmp_value ptr m1 in
        reverse_loop 32 str (ptr' - 1) (poke m2 ptr' 0) >>= λ m3. some (str, m3))

-- `itoa` for a `long`, which has 32 bits as well.
unfoldable pub ltoa : (value : ℕ) (str : Ptr) (base : ℕ) → Memory → Option (Ptr × Memory)
ltoa value str base m = itoa value str base m
