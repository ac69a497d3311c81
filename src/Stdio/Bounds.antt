-- ===== src/Stdio/Bounds.antt =====
-- `vsprintf` of libc/stdio.c writes at most 1023 bytes and the terminator.
use alpha_os.Prelude.{
  ℕ, ◌-◌, ◌%◌, ◌^◌, ◌≤◌, ◌<◌, ◌≡◌, refl, ap, ◌∙◌, sym, true, false, Option, none, some, List, [],
  ◌∷◌, ◌++◌, arith, ltb, ◌==◌, Bool-cases, Option-cases, inl, inr, length, length-append,
  length-take, take, take-eq_self, take-append, append-nil, append_assoc,
}
use alpha_os.CString.{◌>>=◌}
use alpha_os.CString.Spec.{Text}
use alpha_os.Digits.{digit_loop}
use alpha_os.Stdio.{
  Arg, word, text, null, shown, takes_word, limit, put_text, put_int, put_string, put_word,
  put_next_word, convert, vsprintf_loop, vsprintf, decimal, decimal_digit, hex_digit,
}

-- What is put behind `out` is cut where the room ends.
pub put_text-take : (s out : Text) → length out ≤ limit → put_text s out ≡ take limit (out ++ s)
unfolding put_text
put_text-take [] out h = sym (ap (take limit) (append-nil out) ∙ take-eq_self limit out h)
put_text-take (c ∷ s) out h = elim (Bool-cases (ltb (length out) limit)) [
  | inl room ↦ rw room (
      put_text-take s (out ++ c ∷ []) (ground (arith, length-append out (c ∷ [])))
      ∙ ap (take limit) (append_assoc out (c ∷ []) s))
  | inr full ↦
      let e : limit ≡ length out = ground arith in
      rw full (sym (ap (λ n. take n (out ++ c ∷ s)) e ∙ take-append out (c ∷ s)))
]

pub length-put_text : (s out : Text) → length out ≤ limit → length (put_text s out) ≤ limit
length-put_text s out h = rw (put_text-take s out h) (omega (arith, length-take limit (out ++ s)))

-- A text that is returned fits.
abbrev pub Fits : Option Text → Type 0
Fits none = Unit
Fits (some out) = length out ≤ limit

abbrev pub FitsWith : Option (Text × List Arg) → Type 0
FitsWith none = Unit
FitsWith (some (out, args)) = length out ≤ limit

put_text-Fits :
    (temp : Option Text) (out : Text)
    → length out ≤ limit
    → Fits (temp >>= λ t. some (put_text t out))
put_text-Fits none out h = tt
put_text-Fits (some t) out h = length-put_text t out h

length-snoc : (out : Text) (c : ℕ) → length out < limit → length (out ++ c ∷ []) ≤ limit
length-snoc out c h = omega (arith, length-append {0} out (c ∷ []))

put_int-Fits : (value : ℕ) (out : Text) → length out < limit → Fits (put_int value out)
unfolding put_int
put_int-Fits value out h = elim (Bool-cases (ltb value (2 ^ 31))) [
  | inl positive ↦ rw positive (put_text-Fits (decimal value) out (omega arith))
  | inr negative ↦ rw negative (
      put_text-Fits (decimal ((2 ^ 32 - value) % 2 ^ 32)) (out ++ b'-' ∷ [])
        (length-snoc out b'-' h))
]

put_word-Fits :
    (format value : ℕ) (out : Text) → length out < limit → Fits (put_word format value out)
unfolding put_word
put_word-Fits format value out h = ground (
  arith,
  length-snoc out (value % 2 ^ 8) h,
  put_int-Fits value out h,
  put_text-Fits (digit_loop 32 10 decimal_digit value []) out (omega arith),
  put_text-Fits (digit_loop 32 16 (hex_digit format) value []) out (omega arith),
)

put_next_word-FitsWith :
    (format : ℕ) (args : List Arg) (out : Text)
    → length out < limit
    → FitsWith (put_next_word format args out)
unfolding put_next_word
put_next_word-FitsWith format [] out h = tt
put_next_word-FitsWith format (text s ∷ args) out h = tt
put_next_word-FitsWith format (null ∷ args) out h = tt
put_next_word-FitsWith format (word v ∷ args) out h =
    go (put_word format v out) (put_word-Fits format v out h)
  where
    go : (o : Option Text) → Fits o → FitsWith (o >>= λ out'. some (out', args))
    go none f = tt
    go (some out') f = f

put_string-FitsWith :
    (args : List Arg) (out : Text) → length out < limit → FitsWith (put_string args out)
unfolding put_string
put_string-FitsWith [] out h = tt
put_string-FitsWith (a ∷ args) out h = go (shown a)
  where
    go : (o : Option Text) → FitsWith (o >>= λ s. some (put_text s out, args))
    go none = tt
    go (some s) = length-put_text s out (omega arith)

convert-FitsWith :
    (format : ℕ) (args : List Arg) (out : Text)
    → length out < limit
    → FitsWith (convert format args out)
unfolding convert
convert-FitsWith format args out h = elim (Bool-cases (takes_word format)) [
  | inl takes ↦ rw takes (put_next_word-FitsWith format args out h)
  | inr other ↦ rw other (elim (Bool-cases (format == b's')) [
    | inl string ↦ rw string (put_string-FitsWith args out h)
    | inr not_string ↦
        rw not_string
          (ground (arith, length-snoc out b'%' h, length-append out (b'%' ∷ format ∷ [])))
  ])
]

vsprintf_loop_last-Fits :
    (c : ℕ) (args : List Arg) (out : Text)
    → length out ≤ limit
    → Fits (vsprintf_loop (c ∷ []) args out)
unfolding vsprintf_loop
vsprintf_loop_last-Fits c args out h = ground (arith, length-snoc out c)

module _ (c d : ℕ) (format : Text) (args : List Arg) (out : Text) where
  pub vsprintf_loop-full :
      ltb (length out) limit ≡ false → vsprintf_loop (c ∷ d ∷ format) args out ≡ some out
  unfolding vsprintf_loop
  vsprintf_loop-full full = rw full refl

  module _ (room : ltb (length out) limit ≡ true) where
    pub vsprintf_loop-plain :
        (c == b'%') ≡ false
        → vsprintf_loop (c ∷ d ∷ format) args out ≡ vsprintf_loop (d ∷ format) args (out ++ c ∷ [])
    unfolding vsprintf_loop
    vsprintf_loop-plain plain = rw (room, plain) refl

    pub vsprintf_loop-convert :
        (c == b'%') ≡ true
        → (out' : Text) (args' : List Arg) → convert d args out ≡ some (out', args')
        → vsprintf_loop (c ∷ d ∷ format) args out ≡ vsprintf_loop format args' out'
    unfolding vsprintf_loop
    vsprintf_loop-convert percent out' args' done = rw (room, percent, done) refl

    pub vsprintf_loop-fault :
        (c == b'%') ≡ true
        → convert d args out ≡ none
        → vsprintf_loop (c ∷ d ∷ format) args out ≡ none
    unfolding vsprintf_loop
    vsprintf_loop-fault percent fault = rw (room, percent, fault) refl

pub vsprintf_loop-Fits :
    (format : Text) (args : List Arg) (out : Text)
    → length out ≤ limit
    → Fits (vsprintf_loop format args out)
vsprintf_loop-Fits [] args out h = unfold vsprintf_loop in h
vsprintf_loop-Fits (c ∷ []) args out h = vsprintf_loop_last-Fits c args out h
vsprintf_loop-Fits (c ∷ d ∷ format) args out h = elim (Bool-cases (ltb (length out) limit)) [
  | inr full ↦ rw (vsprintf_loop-full c d format args out full) h
  | inl room ↦ elim (Bool-cases (c == b'%')) [
    | inr plain ↦
        rw (vsprintf_loop-plain c d format args out room plain)
          (vsprintf_loop-Fits (d ∷ format) args (out ++ c ∷ []) (length-snoc out c (ground arith)))
    | inl percent ↦ elim (Option-cases (convert d args out)) [
      | inl fault ↦ rw (vsprintf_loop-fault c d format args out room percent fault) tt
      | inr ((out', args'), done) ↦
          rw (vsprintf_loop-convert c d format args out room percent out' args' done) (
            vsprintf_loop-Fits format args' out'
              (rw done at (convert-FitsWith d args out (ground arith))))
    ]
  ]
]

-- Whatever the format and the arguments, where the call has a defined behaviour, `vsprintf` writes at
-- most 1023 bytes before the terminator, which is what the buffer of `vprintf` has room for.
pub vsprintf-Fits : (format : Text) (args : List Arg) → Fits (vsprintf format args)
unfolding vsprintf
vsprintf-Fits format args = vsprintf_loop-Fits format args [] (omega arith)
