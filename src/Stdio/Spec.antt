-- ===== src/Stdio/Spec.antt =====
-- What a format stands for, with no bound on the text: the contract of `vsprintf` of libc/stdio.c.
use alpha_os.Prelude.{
  ℕ, ◌-◌, ◌%◌, ◌^◌, ◌||◌, Option, none, some, List, [], ◌∷◌, ◌++◌, map, ltb, ◌==◌, if◌then◌else◌,
}
use alpha_os.CString.{◌>>=◌}
use alpha_os.CString.Spec.{Text}
use alpha_os.Digits.Laws.{digits}
use alpha_os.Stdio.{Arg, word, text, null, shown, takes_word, decimal_digit, hex_digit}

-- The digits of a word.
abbrev pub decimal_text : ℕ → Text
decimal_text value = map decimal_digit (digits 32 10 value [])

-- A signed number, the smallest one excepted.
abbrev pub int_text : ℕ → Option Text
int_text value =
    if ltb value (2 ^ 31)
    then some (decimal_text value)
    else if value == 2 ^ 31
    then none
    else some (b'-' ∷ decimal_text (2 ^ 32 - value))

abbrev pub word_text : (format value : ℕ) → Option Text
word_text format value =
    if format == b'c'
    then some (value % 2 ^ 8 ∷ [])
    else if (format == b'd') || (format == b'i')
    then int_text value
    else if format == b'u'
    then some (decimal_text value)
    else some (map (hex_digit format) (digits 32 16 value []))

-- What a `%` and the byte behind it stand for, and the arguments that are left. An argument is a word
-- of 32 bits.
abbrev pub piece : (format : ℕ) → List Arg → Option (Text × List Arg)
piece format [] =
    if takes_word format || (format == b's')
    then none
    else if format == b'%'
    then some (b'%' ∷ [], [])
    else some (b'%' ∷ format ∷ [], [])
piece format (a ∷ args) =
    if takes_word format
    then elim a [
      | word v ↦ if ltb v (2 ^ 32) then (word_text format v >>= λ t. some (t, args)) else none
      | text s ↦ none
      | null ↦ none
    ]
    else if format == b's'
    then (shown a >>= λ t. some (t, args))
    else if format == b'%'
    then some (b'%' ∷ [], a ∷ args)
    else some (b'%' ∷ format ∷ [], a ∷ args)

-- The text of a format; none where it has no meaning.
unfoldable pub expand : (format : Text) → List Arg → Option Text
expand [] args = some []
expand (c ∷ []) args = if c == b'%' then none else some (c ∷ [])
expand (c ∷ d ∷ format) args =
    let plain = expand (d ∷ format) args in
    let converted : Option Text = elim (piece d args) [
      | none ↦ none
      | some (t, args') ↦ expand format args' >>= λ r. some (t ++ r)
    ] in
    if c == b'%' then converted else (plain >>= λ r. some (c ∷ r))
