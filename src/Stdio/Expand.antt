-- ===== src/Stdio/Expand.antt =====
-- `vsprintf` and `snprintf` of libc/stdio.c leave the text of their format, up to their bounds.
use alpha_os.Prelude.{
  ℕ, zero, suc, ◌-◌, ◌≤◌, ◌<◌, ◌≡◌, refl, ap, ◌∙◌, sym, true, false, Option, none, some, List, [],
  ◌∷◌, ◌++◌, arith, codes, ltb, leb, ◌&&◌, ◌==◌, Bool-cases, Option-cases, inl, inr, length,
  length-append, length-take, take, take-eq_self, take-take-append, take-append, append-nil,
  append_assoc,
}
use alpha_os.CString.{◌>>=◌}
use alpha_os.CString.Spec.{Text}
use alpha_os.Stdio.{Arg, text, limit, convert, vsprintf_loop, vsprintf, snprintf}
use alpha_os.Stdio.Bounds.{vsprintf_loop-full, vsprintf_loop-plain, vsprintf_loop-convert}
use alpha_os.Stdio.Spec.{piece, expand}
use alpha_os.Stdio.Pieces.{put_one, convert-PutsWith}

full-take :
    (out r : Text)
    → length out ≤ limit
    → ltb (length out) limit ≡ false
    → out ≡ take limit (out ++ r)
full-take out r h full =
    let e : limit ≡ length out = ground arith in
    sym (ap (λ n. take n (out ++ r)) e ∙ take-append out r)

vsprintf_loop_last :
    (c : ℕ) (args : List Arg) (out r : Text)
    → length out ≤ limit
    → expand (c ∷ []) args ≡ some r
    → vsprintf_loop (c ∷ []) args out ≡ some (take limit (out ++ r))
unfolding vsprintf_loop expand
vsprintf_loop_last c args out r h e = elim (Bool-cases (ltb (length out) limit)) [
  | inr full ↦ rw full (ap some (full-take out r h full))
  | inl room ↦ elim (Bool-cases (c == b'%')) [
    | inl percent ↦ absurd (none-≢ (rw percent at e))
    | inr plain ↦
        let r_eq : some (c ∷ []) ≡ some r = rw plain at e in
        let s : c ∷ [] ≡ r = cc in
        rw (room, plain)
          (ap some (put_one out c (ground arith) ∙ ap (λ x. take limit (out ++ x)) s))
  ]
]
  where
    none-≢ : {x : Text} → ¬ (none ≡ some x)
    none-≢ e = cc

expand-plain :
    (c d : ℕ) (format : Text) (args : List Arg)
    → (c == b'%') ≡ false
    → expand (c ∷ d ∷ format) args ≡ (expand (d ∷ format) args >>= λ r. some (c ∷ r))
unfolding expand
expand-plain c d format args plain = rw plain refl

pub expand-piece :
    (c d : ℕ) (format : Text) (args args' : List Arg) (t : Text)
    → (c == b'%') ≡ true
    → piece d args ≡ some (t, args')
    → expand (c ∷ d ∷ format) args ≡ (expand format args' >>= λ r. some (t ++ r))
unfolding expand
expand-piece c d format args args' t percent p = rw (percent, p) refl

expand-fault :
    (c d : ℕ) (format : Text) (args : List Arg)
    → (c == b'%') ≡ true
    → piece d args ≡ none
    → expand (c ∷ d ∷ format) args ≡ none
unfolding expand
expand-fault c d format args percent p = rw (percent, p) refl

-- What a text with a prefix comes from.
prefixed :
    (o : Option Text) (t r : Text)
    → (o >>= λ r'. some (t ++ r')) ≡ some r
    → (r' : Text) × (o ≡ some r') × (r ≡ t ++ r')
prefixed none t r e = absurd (cc)
prefixed (some r') t r e = (r', refl, cc)

pub vsprintf_loop-expand :
    (format : Text) (args : List Arg) (out r : Text)
    → length out ≤ limit
    → expand format args ≡ some r
    → vsprintf_loop format args out ≡ some (take limit (out ++ r))
vsprintf_loop-expand [] args out r h e =
    unfold vsprintf_loop expand in
    let s : [] ≡ r = cc in
    ap some (
      sym (take-eq_self limit out h)
      ∙ ap (take limit) (sym (append-nil out) ∙ ap (λ x. out ++ x) s))
vsprintf_loop-expand (c ∷ []) args out r h e = vsprintf_loop_last c args out r h e
vsprintf_loop-expand (c ∷ d ∷ format) args out r h e = elim (Bool-cases (ltb (length out) limit)) [
  | inr full ↦ rw (vsprintf_loop-full c d format args out full) (ap some (full-take out r h full))
  | inl room ↦ elim (Bool-cases (c == b'%')) [
    | inr plain ↦
        let has_room : length out < limit = ground arith in
        let (r', e', s) =
          prefixed (expand (d ∷ format) args) (c ∷ []) r
            (sym (expand-plain c d format args plain) ∙ e) in
        vsprintf_loop-plain c d format args out room plain
        ∙ vsprintf_loop-expand (d ∷ format) args (out ++ c ∷ []) r'
            (omega (arith, length-append {0} out (c ∷ []), has_room)) e'
        ∙ ap (λ x. some (take limit x)) (append_assoc out (c ∷ []) r' ∙ ap (λ x. out ++ x) (sym s))
    | inl percent ↦ elim (Option-cases (piece d args)) [
      | inl fault ↦ absurd (none-≢ (sym (expand-fault c d format args percent fault) ∙ e))
      | inr ((t, args'), p) ↦
          let (r', e', s) =
            prefixed (expand format args') t r
              (sym (expand-piece c d format args args' t percent p) ∙ e) in
          let done : convert d args out ≡ some (take limit (out ++ t), args') =
            rw p at (convert-PutsWith d args out (ground arith)) in
          vsprintf_loop-convert c d format args out room percent (take limit (out ++ t)) args' done
          ∙ vsprintf_loop-expand format args' (take limit (out ++ t)) r'
              (omega (arith, length-take {0} limit (out ++ t))) e'
          ∙ ap some (
              take-take-append limit (out ++ t) r'
              ∙ ap (take limit) (append_assoc out t r' ∙ ap (λ x. out ++ x) (sym s)))
    ]
  ]
]
  where
    none-≢ : {x : Text} → ¬ (none ≡ some x)
    none-≢ e = cc

-- Where a format has a text for its arguments, `vsprintf` returns, and leaves the first 1023 bytes of
-- that text in the buffer.
pub vsprintf-expand :
    (format : Text) (args : List Arg) (r : Text)
    → expand format args ≡ some r
    → vsprintf format args ≡ some (take limit r)
unfolding vsprintf
vsprintf-expand format args r e = vsprintf_loop-expand format args [] r (omega arith) e

take-take : (m n : ℕ) (s : Text) → m ≤ n → take m (take n s) ≡ take m s
take-take zero n s h = refl
take-take (suc m) zero s h = absurd (omega arith)
take-take (suc m) (suc n) [] h = refl
take-take (suc m) (suc n) (c ∷ s) h = ap (λ t. c ∷ t) (take-take m n s (omega arith))

-- Where a format has a text for its arguments, and the buffer has room for all of that text, or for
-- 1024 bytes, `snprintf` leaves as much of it as a size of 1 to 1024 bytes allows.
pub snprintf-expand :
    (room size : ℕ) (format : Text) (args : List Arg) (r : Text)
    → 0 < size
    → size ≤ 1024
    → length (take limit r) < room
    → expand format args ≡ some r
    → (snprintf room size format args >>= λ o. some o.1) ≡ some (take (size - 1) r)
unfolding snprintf
snprintf-expand room size format args r pos small fits e =
    let all : ltb (length (take limit r)) room ≡ true = ground arith in
    rw (vsprintf-expand format args r e, all)
      (elim (Bool-cases (leb size (length (take limit r)) && ltb 0 size)) [
        | inl cut ↦ rw cut (ap some (take-take (size - 1) limit r (omega arith)))
        | inr whole ↦ rw whole (
            ap some (
              sym (take-eq_self (size - 1) (take limit r) (ground arith))
              ∙ take-take (size - 1) limit r (omega arith)))
      ])

-- A text, a slash and a text.
expand-path : (a b : Text) → expand (codes "%s/%s") (text a ∷ text b ∷ []) ≡ some (a ++ (b'/' ∷ b))
unfolding expand
expand-path a b = ap (λ t. some (a ++ (b'/' ∷ t))) (append-nil b)

-- Where all of a path fits into the buffer, it is left there.
pub snprintf-path :
    (a b : Text) (size : ℕ)
    → size ≤ 1023
    → length (a ++ (b'/' ∷ b)) < size
    → snprintf size size (codes "%s/%s") (text a ∷ text b ∷ [])
      ≡ some (length (a ++ (b'/' ∷ b)), a ++ (b'/' ∷ b))
unfolding snprintf
snprintf-path a b size small fits =
    let path : Text = a ++ (b'/' ∷ b) in
    let all : ltb (length path) size ≡ true = ground arith in
    let kept : leb size (length path) ≡ false = ground arith in
    rw
      (
        vsprintf-expand (codes "%s/%s") (text a ∷ text b ∷ []) path (expand-path a b),
        take-eq_self limit path (omega arith),
        all,
        kept,
      )
      refl

not_below : (m n : ℕ) → n ≤ m → ltb m n ≡ false
not_below m n h = ground (arith, h)

-- A path that does not fit is written over the end of the buffer.
pub snprintf-overruns :
    (a b : Text) (size : ℕ)
    → size ≤ 1023
    → size ≤ length (a ++ (b'/' ∷ b))
    → snprintf size size (codes "%s/%s") (text a ∷ text b ∷ []) ≡ none
unfolding snprintf
snprintf-overruns a b size small long =
    let path : Text = a ++ (b'/' ∷ b) in
    let reach : size ≤ length (take limit path) = omega (arith, length-take {0} limit path) in
    let over : ltb (length (take limit path)) size ≡ false = not_below _ size reach in
    rw (vsprintf-expand (codes "%s/%s") (text a ∷ text b ∷ []) path (expand-path a b), over) refl
