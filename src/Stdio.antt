-- ===== src/Stdio.antt =====
-- Formatted output: libc/stdio.c in kernel mode.
-- An `int` or `unsigned int` argument is its word of 32 bits, so a negative number is 2 ^ 31 or more.
-- A format and a string are the bytes before their terminators, and what stands in `buffer[0 ..
-- written)` is a list of bytes, `written` its length. `none` says that the call has no defined
-- behaviour: an argument is missing or of another type, or the format ends with a `%`.
pub mod Bounds
pub mod Spec
pub mod Pieces
pub mod Expand
pub mod Hosted
pub mod Tests
use alpha_os.Prelude.{
  ℕ, zero, suc, ◌+◌, ◌-◌, ◌*◌, ◌/◌, ◌%◌, ◌^◌, Bool, true, false, ◌&&◌, ◌||◌, not, Option, none,
  some, List, [], ◌∷◌, ◌++◌, codes, ltb, leb, ◌==◌, if◌then◌else◌, length, take, get_or,
}
use alpha_os.CString.{◌>>=◌}
use alpha_os.CString.Spec.{Text}
use alpha_os.Digits.{digit_loop}
use alpha_os.Console.{Console, console_putchar, console_write}

-- An argument behind the format; `null` is a null pointer for a string.
pub data Arg : Type 0 where
  word : ℕ → Arg
  text : Text → Arg
  null : Arg

-- The room in `buffer`, without the terminator.
abbrev pub limit : ℕ
limit = 1023

-- `while (*s && written < 1023) buffer[written++] = *s++;`, which the digits take as well.
unfoldable pub put_text : Text → (out : Text) → Text
put_text [] out = out
put_text (c ∷ s) out =
    let rest = put_text s (out ++ c ∷ []) in if ltb (length out) limit then rest else out

abbrev pub decimal_digit : ℕ → ℕ
decimal_digit d = b'0' + d

unfoldable pub hex_digit : (format : ℕ) → ℕ → ℕ
hex_digit format d =
    get_or (if format == b'x' then codes "0123456789abcdef" else codes "0123456789ABCDEF") d 0

-- The digits of a value that is not negative; the value -2 ^ 31, which `-value` leaves negative, makes
-- one round, with the negative remainder -8.
unfoldable pub decimal : (value : ℕ) → Option Text
decimal value =
    if ltb value (2 ^ 31)
    then digit_loop 32 10 decimal_digit value []
    else some ((b'0' - (2 ^ 32 - value) % 10) ∷ [])

-- `case 'd'` and `case 'i'`
unfoldable pub put_int : (value : ℕ) (out : Text) → Option Text
put_int value out =
    if ltb value (2 ^ 31)
    then (decimal value >>= λ temp. some (put_text temp out))
    else (decimal ((2 ^ 32 - value) % 2 ^ 32) >>= λ temp. some (put_text temp (out ++ b'-' ∷ [])))

-- What is printed for a string.
abbrev pub shown : Arg → Option Text
shown (word v) = none
shown (text s) = some s
shown null = some (codes "(null)")

unfoldable pub put_string : List Arg → (out : Text) → Option (Text × List Arg)
put_string [] out = none
put_string (a ∷ args) out = shown a >>= λ s. some (put_text s out, args)

-- The cases that take a word: `c`, `d`, `i`, `u`, `x` and `X`.
unfoldable pub put_word : (format value : ℕ) (out : Text) → Option Text
put_word format value out =
    if format == b'c'
    then some (out ++ value % 2 ^ 8 ∷ [])
    else if (format == b'd') || (format == b'i')
    then put_int value out
    else if format == b'u'
    then (digit_loop 32 10 decimal_digit value [] >>= λ temp. some (put_text temp out))
    else (digit_loop 32 16 (hex_digit format) value [] >>= λ temp. some (put_text temp out))

abbrev pub takes_word : ℕ → Bool
takes_word format =
    (format == b'c')
    || (format == b'd')
    || (format == b'i')
    || (format == b'u')
    || (format == b'x')
    || (format == b'X')

unfoldable pub put_next_word : (format : ℕ) → List Arg → (out : Text) → Option (Text × List Arg)
put_next_word format [] out = none
put_next_word format (text s ∷ args) out = none
put_next_word format (null ∷ args) out = none
put_next_word format (word v ∷ args) out = put_word format v out >>= λ out'. some (out', args)

-- `switch (*format)`
unfoldable pub convert : (format : ℕ) → List Arg → (out : Text) → Option (Text × List Arg)
convert format args out =
    if takes_word format
    then put_next_word format args out
    else if format == b's'
    then put_string args out
    else if format == b'%'
    then some (out ++ b'%' ∷ [], args)
    else if ltb (length out + 1) limit
    then some (out ++ b'%' ∷ format ∷ [], args)
    else some (out ++ b'%' ∷ [], args)

unfoldable pub vsprintf_loop : (format : Text) → List Arg → (out : Text) → Option Text
vsprintf_loop [] args out = some out
vsprintf_loop (c ∷ []) args out =
    if not (ltb (length out) limit)
    then some out
    else if not (c == b'%')
    then some (out ++ c ∷ [])
    else none
vsprintf_loop (c ∷ d ∷ format) args out =
    let plain = vsprintf_loop (d ∷ format) args (out ++ c ∷ []) in
    let converted : Option Text = elim (convert d args out) [
      | none ↦ none
      | some (out', args') ↦ vsprintf_loop format args' out'
    ] in
    if not (ltb (length out) limit) then some out else if not (c == b'%') then plain else converted

-- The text in the buffer, whose length is the result. Each of the variadic functions passes its
-- arguments on.
unfoldable pub vsprintf : (format : Text) → List Arg → Option Text
vsprintf format args = vsprintf_loop format args []

abbrev pub sprintf : (format : Text) → List Arg → Option Text
sprintf format args = vsprintf format args

-- The result, and the text that is left after the truncation; `size` is below 2 ^ 31. The text is
-- written before `size` is looked at, so none says as well that `buffer`, of `room` bytes, is too small
-- for the whole of it.
unfoldable pub snprintf : (room size : ℕ) (format : Text) → List Arg → Option (ℕ × Text)
snprintf room size format args = do
  out ← vsprintf format args
  if ltb (length out) room
      then (if leb size (length out) && ltb 0 size
          then some (size - 1, take (size - 1) out)
          else some (length out, out))
      else none

-- The bytes before the first terminator, which a `%c` may have put into the buffer.
unfoldable pub c_string : List ℕ → Text
c_string [] = []
c_string (c ∷ s) = let rest = c_string s in if c == 0 then [] else c ∷ rest

unfoldable pub vprintf : Console → (format : Text) → List Arg → Option (ℕ × Console)
vprintf s format args =
    vsprintf format args >>= λ buffer. some (length buffer, console_write s (c_string buffer))

abbrev pub printf : Console → (format : Text) → List Arg → Option (ℕ × Console)
printf s format args = vprintf s format args

unfoldable pub putchar : Console → (c : ℕ) → ℕ × Console
putchar s c = (c, console_putchar s (c % 2 ^ 8))

unfoldable pub puts : Console → Text → ℕ × Console
puts s str = (0, console_putchar (console_write s str) 10)

-- The stub of kernel mode, which reads nothing and returns a null pointer.
abbrev pub fgets : (size : ℕ) → Option Text
fgets size = none
