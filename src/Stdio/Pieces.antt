-- ===== src/Stdio/Pieces.antt =====
-- The conversions of `vsprintf` in libc/stdio.c against the pieces of text that they stand for.
use alpha_os.Prelude.{
  ℕ, ◌+◌, ◌-◌, ◌%◌, ◌^◌, ◌<◌, ◌≡◌, refl, ap, ◌∙◌, sym, true, false, ◌||◌, Option, none, some, List,
  [], ◌∷◌, ◌++◌, map, arith, codes, ltb, ◌==◌, Bool-cases, inl, inr, if◌then◌else◌, length,
  length-append, take, take-eq_self, take-append, append_assoc,
}
use alpha_os.CString.{◌>>=◌}
use alpha_os.CString.Spec.{Text}
use alpha_os.Digits.Laws.{digits, digit_loop-digits}
use alpha_os.Stdio.{
  Arg, word, text, null, takes_word, limit, put_int, put_string, put_word, put_next_word, convert,
  decimal, decimal_digit, hex_digit,
}
use alpha_os.Stdio.Bounds.{put_text-take}
use alpha_os.Stdio.Spec.{decimal_text, int_text, word_text, piece}

decimal-text : (value : ℕ) → value < 2 ^ 31 → decimal value ≡ some (decimal_text value)
unfolding decimal
decimal-text value h =
    let small : ltb value (2 ^ 31) ≡ true = ground arith in
    rw small
      (digit_loop-digits 10 (omega arith) 32 value decimal_digit [] (omega arith) (omega arith))

-- A piece is put behind `out`, as far as there is room.
abbrev Puts : (out : Text) → Option Text → Option Text → Type 0
Puts out none r = Unit {0}
Puts out (some t) r = r ≡ some (take limit (out ++ t))

put_int-Puts :
    (value : ℕ) (out : Text)
    → length out < limit
    → value < 2 ^ 32
    → Puts out (int_text value) (put_int value out)
unfolding put_int
put_int-Puts value out h w = elim (Bool-cases (ltb value (2 ^ 31))) [
  | inl positive ↦
      rw (positive, decimal-text value (ground arith))
        (ap some (put_text-take (decimal_text value) out (omega arith)))
  | inr negative ↦ elim (Bool-cases (value == 2 ^ 31)) [
    | inl smallest ↦ rw (negative, smallest) tt
    | inr other ↦
        let e : (2 ^ 32 - value) % 2 ^ 32 ≡ 2 ^ 32 - value = ground arith in
        let t : Text = decimal_text (2 ^ 32 - value) in
        rw (negative, other, e, decimal-text (2 ^ 32 - value) (ground arith))
          (ap some (
            put_text-take t (out ++ b'-' ∷ []) (omega (arith, length-append {0} out (b'-' ∷ [])))
            ∙ ap (take limit) (append_assoc out (b'-' ∷ []) t)))
  ]
]

pub put_one : (out : Text) (c : ℕ) → length out < limit → out ++ c ∷ [] ≡ take limit (out ++ c ∷ [])
put_one out c h =
    sym (take-eq_self limit (out ++ c ∷ []) (omega (arith, length-append {0} out (c ∷ []))))

put_word-Puts :
    (format value : ℕ) (out : Text)
    → length out < limit
    → value < 2 ^ 32
    → takes_word format ≡ true
    → Puts out (word_text format value) (put_word format value out)
unfolding put_word
put_word-Puts format value out h w takes = elim (Bool-cases (format == b'c')) [
  | inl is_c ↦ rw is_c (ap some (put_one out (value % 2 ^ 8) h))
  | inr not_c ↦ elim (Bool-cases ((format == b'd') || (format == b'i'))) [
    | inl is_int ↦ rw (not_c, is_int) (put_int-Puts value out h w)
    | inr not_int ↦ elim (Bool-cases (format == b'u')) [
      | inl is_u ↦
          rw
            (
              not_c,
              not_int,
              is_u,
              digit_loop-digits 10 (omega arith) 32 value decimal_digit [] (omega arith)
                  (omega arith),
            )
            (ap some (put_text-take (decimal_text value) out (omega arith)))
      | inr not_u ↦
          rw
            (
              not_c,
              not_int,
              not_u,
              digit_loop-digits 16 (omega arith) 32 value (hex_digit format) [] (omega arith)
                  (omega arith),
            )
            (ap some
              (put_text-take (map (hex_digit format) (digits 32 16 value [])) out (omega arith)))
    ]
  ]
]

abbrev pub PutsWith : (out : Text) → Option (Text × List Arg) → Option (Text × List Arg) → Type 0
PutsWith out none r = Unit {0}
PutsWith out (some (t, args)) r = r ≡ some (take limit (out ++ t), args)

put_two :
    (out : Text) (c d : ℕ)
    → length out < limit
    → (if ltb (length out + 1) limit then out ++ c ∷ d ∷ [] else out ++ c ∷ [])
      ≡ take limit (out ++ c ∷ d ∷ [])
put_two out c d h = elim (Bool-cases (ltb (length out + 1) limit)) [
  | inl room ↦ rw room (
      sym (
        take-eq_self limit (out ++ c ∷ d ∷ [])
          (ground (arith, length-append {0} out (c ∷ d ∷ [])))))
  | inr full ↦
      let e : limit ≡ length (out ++ c ∷ []) = ground (arith, length-append {0} out (c ∷ [])) in
      rw full (
        sym (
          ap (take limit) (sym (append_assoc out (c ∷ []) (d ∷ [])))
          ∙ ap (λ n. take n ((out ++ c ∷ []) ++ d ∷ [])) e
          ∙ take-append (out ++ c ∷ []) (d ∷ [])))
]

-- A `%` and a byte that is no conversion, or a second `%`.
convert-other :
    (format : ℕ) (args : List Arg) (out : Text)
    → length out < limit
    → takes_word format ≡ false
    → (format == b's') ≡ false
    → PutsWith out
        (if format == b'%' then some (b'%' ∷ [], args) else some (b'%' ∷ format ∷ [], args))
        (convert format args out)
unfolding convert
convert-other format args out h not_word not_string = elim (Bool-cases (format == b'%')) [
  | inl percent ↦ rw (not_word, not_string, percent) (ap (λ o. some (o, args)) (put_one out b'%' h))
  | inr other ↦
      rw (not_word, not_string, other) (pull ∙ ap (λ o. some (o, args)) (put_two out b'%' format h))
]
  where
    pull :
        ◌≡◌ {A = Option (Text × List Arg)}
          (if ltb (length out + 1) limit
            then some (out ++ b'%' ∷ format ∷ [], args)
            else some (out ++ b'%' ∷ [], args))
          (some (
            if ltb (length out + 1) limit then out ++ b'%' ∷ format ∷ [] else out ++ b'%' ∷ [],
            args,
          ))
    pull = ground arith

put_next_word-PutsWith :
    (format : ℕ) (args : List Arg) (out : Text)
    → length out < limit
    → takes_word format ≡ true
    → PutsWith out (piece format args) (put_next_word format args out)
unfolding put_next_word
put_next_word-PutsWith format [] out h takes = rw takes tt
put_next_word-PutsWith format (text s ∷ args) out h takes = rw takes tt
put_next_word-PutsWith format (null ∷ args) out h takes = rw takes tt
put_next_word-PutsWith format (word v ∷ args) out h takes = elim (Bool-cases (ltb v (2 ^ 32))) [
  | inr wide ↦ rw (takes, wide) tt
  | inl small ↦
      rw (takes, small)
        (go (word_text format v) (put_word format v out)
          (put_word-Puts format v out h (ground arith) takes))
]
  where
    go :
        (t r : Option Text)
        → Puts out t r
        → PutsWith out (t >>= λ x. some (x, args)) (r >>= λ x. some (x, args))
    go none r p = tt
    go (some t) none p = absurd (cc)
    go (some t) (some r) p = ap (λ o. o >>= λ x. some (x, args)) p

put_string-PutsWith :
    (format : ℕ) (args : List Arg) (out : Text)
    → length out < limit
    → takes_word format ≡ false
    → (format == b's') ≡ true
    → PutsWith out (piece format args) (put_string args out)
unfolding put_string
put_string-PutsWith format [] out h not_word string = rw (not_word, string) tt
put_string-PutsWith format (word v ∷ args) out h not_word string = rw (not_word, string) tt
put_string-PutsWith format (text s ∷ args) out h not_word string =
    rw (not_word, string) (ap (λ o. some (o, args)) (put_text-take s out (omega arith)))
put_string-PutsWith format (null ∷ args) out h not_word string =
    rw (not_word, string)
      (ap (λ o. some (o, args)) (put_text-take (codes "(null)") out (omega arith)))

convert-word :
    (format : ℕ) (args : List Arg) (out : Text)
    → takes_word format ≡ true
    → convert format args out ≡ put_next_word format args out
unfolding convert
convert-word format args out takes = rw takes refl

convert-string :
    (format : ℕ) (args : List Arg) (out : Text)
    → takes_word format ≡ false
    → (format == b's') ≡ true
    → convert format args out ≡ put_string args out
unfolding convert
convert-string format args out not_word string = rw (not_word, string) refl

piece-other :
    (format : ℕ) (args : List Arg)
    → takes_word format ≡ false
    → (format == b's') ≡ false
    → piece format args
      ≡ (if format == b'%' then some (b'%' ∷ [], args) else some (b'%' ∷ format ∷ [], args))
piece-other format [] not_word not_string = rw (not_word, not_string) refl
piece-other format (a ∷ args) not_word not_string = rw (not_word, not_string) refl

pub convert-PutsWith :
    (format : ℕ) (args : List Arg) (out : Text)
    → length out < limit
    → PutsWith out (piece format args) (convert format args out)
convert-PutsWith format args out h = elim (Bool-cases (takes_word format)) [
  | inl takes ↦
      rw (convert-word format args out takes) (put_next_word-PutsWith format args out h takes)
  | inr not_word ↦ elim (Bool-cases (format == b's')) [
    | inl string ↦
        rw (convert-string format args out not_word string)
          (put_string-PutsWith format args out h not_word string)
    | inr not_string ↦
        rw (piece-other format args not_word not_string)
          (convert-other format args out h not_word not_string)
  ]
]
