-- ===== src/Keyboard/HostedLine.antt =====
-- The line that `keyboard_get_line` of kernel/keyboard.c reads where it is built with TEST_MODE.
use mathlib.Core.Path.{sym}
use alpha_os.Prelude.{
  ℕ, zero, suc, ◌+◌, ◌-◌, ◌%◌, ◌^◌, ◌<◌, ◌≡◌, ◌≢◌, refl, ap, ◌∙◌, true, false, ◌&&◌, ◌||◌, Option,
  none, some, List, [], ◌∷◌, ◌++◌, arith, ltb, leb, ◌==◌, length, append-nil, append_assoc,
  Bool-cases, inl, inr,
}
use alpha_os.CString.Spec.{Text}
use alpha_os.Strtok.Spec.{has}
use alpha_os.Console.{Console}
use alpha_os.Keyboard.{Keyboard, Reading, Typed, keyboard_get_line}
use alpha_os.Keyboard.Queue.{IsRing}
use alpha_os.Keyboard.Return.{length-coming, keyboard_get_line-returns}
use alpha_os.Keyboard.Line.{coming, edit, measured, keyboard_get_line_lem}
use alpha_os.Keyboard.Hosted.{Terminal, Obeys, hosted_loop, hosted_get_line}

-- No key deletes.
abbrev pub NoErase : List ℕ → Type 0
NoErase [] = Unit {0}
NoErase (k ∷ ks) = (k ≢ 8) × (k ≢ 127) × NoErase ks

measured-some :
    (o : Option (Text × List ℕ)) (len : ℕ) (line : Text) (left : List ℕ)
    → some (len, line, left) ≡ measured o
    → (length line ≡ len) × (o ≡ some (line, left))
measured-some none len line left e = absurd (cc)
measured-some (some (text, cs)) len line left e =
    let same : text ≡ line = cc in (ap length (sym same) ∙ cc, cc)

module _ (t : Terminal) (host : Obeys t) where
  open t use {State, getchar, fputc, fflush}
  open host use {pending, output, next, at_end, writes, flushes}

  loop-full :
      (f limit : ℕ) (line : Text) (s : State)
      → ltb (length line) limit ≡ false
      → hosted_loop t (suc f) limit line s ≡ some (line, s)
  unfolding hosted_loop
  loop-full f limit line s full = rw full refl

  loop-ends :
      (f limit : ℕ) (line : Text) (s : State) (k : ℕ)
      → ltb (length line) limit ≡ true
      → (getchar s).0 ≡ some k
      → ((k == 10) || (k == 13)) ≡ true
      → hosted_loop t (suc f) limit line s ≡ some (line, (getchar s).1)
  unfolding hosted_loop
  loop-ends f limit line s k room got ends = rw (room, got, ends) refl

  loop-shows :
      (f limit : ℕ) (line : Text) (s : State) (k : ℕ)
      → ltb (length line) limit ≡ true
      → (getchar s).0 ≡ some k
      → ((k == 10) || (k == 13)) ≡ false
      → ((k == 8) || (k == 127)) ≡ false
      → (leb 32 k && leb k 126) ≡ true
      → hosted_loop t (suc f) limit line s
        ≡ hosted_loop t f limit (line ++ k ∷ []) (fflush (fputc k (getchar s).1))
  unfolding hosted_loop
  loop-shows f limit line s k room got more kept shown = rw (room, got, more, kept, shown) refl

  loop-ignores :
      (f limit : ℕ) (line : Text) (s : State) (k : ℕ)
      → ltb (length line) limit ≡ true
      → (getchar s).0 ≡ some k
      → ((k == 10) || (k == 13)) ≡ false
      → ((k == 8) || (k == 127)) ≡ false
      → (leb 32 k && leb k 126) ≡ false
      → hosted_loop t (suc f) limit line s ≡ hosted_loop t f limit line (getchar s).1
  unfolding hosted_loop
  loop-ignores f limit line s k room got more kept hidden = rw (room, got, more, kept, hidden) refl

  loop-eof :
      (f limit : ℕ) (line : Text) (s : State)
      → ltb (length line) limit ≡ true
      → (getchar s).0 ≡ none
      → hosted_loop t (suc f) limit line s ≡ hosted_loop t f limit line (getchar s).1
  unfolding hosted_loop
  loop-eof f limit line s room got = rw (room, got) refl

  -- At the end of the input the loop reads on for ever.
  loop-spins :
      (fuel limit : ℕ) (line : Text) (s : State)
      → ltb (length line) limit ≡ true
      → pending s ≡ []
      → hosted_loop t fuel limit line s ≡ none
  loop-spins zero limit line s room nothing = unfold hosted_loop in refl
  loop-spins (suc f) limit line s room nothing =
      let (eof, still) = at_end s nothing in
      loop-eof f limit line s room eof ∙ loop-spins f limit line (getchar s).1 room still

  -- What the loop leaves, where `out` stands on the screen before the line.
  Reads : (fuel limit : ℕ) (line : Text) → State → (r : Text) (left : List ℕ) (out : Text) → Type 0
  Reads fuel limit line s r left out =
      (s' : State) × (hosted_loop t fuel limit line s ≡ some (r, s'))
      × (pending s' ≡ left)
      × (output s' ≡ out ++ r)

  -- The line as it stands, where the specification stops as well.
  stops :
      (fuel limit : ℕ) (line r : Text) (left rest : List ℕ) (out : Text) (s s' : State)
      → hosted_loop t fuel limit line s ≡ some (line, s')
      → pending s' ≡ rest
      → output s' ≡ out ++ line
      → ◌≡◌ {A = Option (Text × List ℕ)} (some (line, rest)) (some (r, left))
      → Reads fuel limit line s r left out
  unfolding Reads
  stops fuel limit line r left rest out s s' done p o e =
      let same : line ≡ r = cc in
      let same_rest : rest ≡ left = cc in
      (s', done ∙ ap (λ l. some (l, s')) same, p ∙ same_rest, o ∙ ap (λ l. out ++ l) same)

  -- A round that goes on.
  goes_on :
      (fuel fuel' limit : ℕ) (line line' r : Text) (left : List ℕ) (out : Text) (s s1 : State)
      → hosted_loop t fuel limit line s ≡ hosted_loop t fuel' limit line' s1
      → Reads fuel' limit line' s1 r left out
      → Reads fuel limit line s r left out
  unfolding Reads
  goes_on fuel fuel' limit line line' r left out s s1 step (s', done, p, o) =
      (s', step ∙ done, p, o)

  loop-edit :
      (keys : List ℕ) (fuel limit : ℕ) (line r : Text) (left : List ℕ) (out : Text) (s : State)
      → pending s ≡ keys
      → output s ≡ out ++ line
      → length keys < fuel
      → NoErase keys
      → edit limit keys line ≡ some (r, left)
      → Reads fuel limit line s r left out
  loop-edit keys zero limit line r left out s p o lt ok e = absurd (omega arith)
  loop-edit [] (suc f) limit line r left out s p o lt ok e =
      elim (Bool-cases (ltb (length line) limit)) [
        | inl room ↦
            let no : ◌≡◌ {A = Option (Text × List ℕ)} none (some (r, left)) = rw room at e in
            absurd (cc)
        | inr full ↦
            stops (suc f) limit line r left [] out s s (loop-full f limit line s full) p o
              (rw full at e)
      ]
  loop-edit (k ∷ keys) (suc f) limit line r left out s p o lt (not_back, not_del, ok) e =
      let (got, p1, o1) = next s k keys p in
      let s1 : State = (getchar s).1 in
      let not_8 : (k == 8) ≡ false = ground arith in
      let kept : ((k == 8) || (k == 127)) ≡ false = ground arith in
      elim (Bool-cases (ltb (length line) limit)) [
        | inr full ↦
            stops (suc f) limit line r left (k ∷ keys) out s s (loop-full f limit line s full) p o
              (rw full at e)
        | inl room ↦ elim (Bool-cases ((k == 10) || (k == 13))) [
          | inl ends ↦
              stops (suc f) limit line r left keys out s s1
                (loop-ends f limit line s k room got ends) p1 (o1 ∙ o) (rw (room, ends) at e)
          | inr more ↦ elim (Bool-cases (leb 32 k && leb k 126)) [
            | inl shown ↦
                let s2 : State = fflush (fputc k s1) in
                let written = writes k s1 in
                let flushed = flushes (fputc k s1) in
                goes_on (suc f) f limit line (line ++ k ∷ []) r left out s s2
                  (loop-shows f limit line s k room got more kept shown)
                  (loop-edit keys f limit (line ++ k ∷ []) r left out s2
                    (flushed.0 ∙ written.0 ∙ p1)
                    (flushed.1
                      ∙ written.1
                      ∙ ap (λ u. u ++ k ∷ []) (o1 ∙ o)
                      ∙ append_assoc out line (k ∷ []))
                    (omega arith) ok (rw (room, more, not_8, shown) at e))
            | inr hidden ↦
                goes_on (suc f) f limit line line r left out s s1
                  (loop-ignores f limit line s k room got more kept hidden)
                  (loop-edit keys f limit line r left out s1 p1 (o1 ∙ o) (omega arith) ok
                    (rw (room, more, not_8, hidden) at e))
          ]
        ]
      ]

  -- Where it is built with TEST_MODE, `keyboard_get_line` reads the line that the editor makes of the
  -- keys, with no backspace and no DEL among them, for a host that does what is documented; it
  -- leaves the other keys, and shows the line and a line feed.
  pub hosted_get_line-edit :
      (keys : List ℕ) (fuel buffer_size : ℕ) (r : Text) (left : List ℕ) (s : State)
      → pending s ≡ keys
      → length keys < fuel
      → 0 < buffer_size
      → buffer_size < 2 ^ 32
      → NoErase keys
      → edit (buffer_size - 1) keys [] ≡ some (r, left)
      → (s' : State) × (hosted_get_line t fuel buffer_size s ≡ some (length r, r, s'))
        × (pending s' ≡ left)
        × (output s' ≡ output s ++ (r ++ 10 ∷ []))
  unfolding hosted_get_line Reads
  hosted_get_line-edit keys fuel size r left s p lt pos small ok e =
      let limit : (size + 2 ^ 32 - 1) % 2 ^ 32 ≡ size - 1 = omega arith in
      let (s1, done, p1, o1) =
        loop-edit keys fuel (size - 1) [] r left (output s) s p (sym (append-nil (output s))) lt ok
          e in
      let written = writes 10 s1 in
      (
        fputc 10 s1,
        rw (limit, done) refl,
        written.0 ∙ p1,
        written.1 ∙ ap (λ u. u ++ 10 ∷ []) o1 ∙ append_assoc (output s) r (10 ∷ []),
      )

  -- `keyboard_get_line` of TEST_MODE against the kernel's: where the host, which does what is
  -- documented, is to read the bytes that are the kernel's keys to come, a line feed among them and no
  -- backspace or DEL, both return, with the same line and the same length, and leave the same keys
  -- unread; the host's screen then has the line and a line feed. The kernel's ring has its indices in
  -- range, and the buffer has 1 byte or more, and fewer than 2 ^ 32.
  pub hosted_get_line-kernel :
      (k : Keyboard) (c : Console) (rs : List Reading) (fuel buffer_size : ℕ) (s : State)
      → IsRing k
      → pending s ≡ coming k rs
      → length (coming k rs) < fuel
      → 0 < buffer_size
      → buffer_size < 2 ^ 32
      → NoErase (coming k rs)
      → has 10 (coming k rs) ≡ true
      → (len : ℕ) × (u : Typed) × (s' : State) × (keyboard_get_line
            (257 + length rs)
            buffer_size
            k
            c
            rs
          ≡ some (len, u))
        × (hosted_get_line t fuel buffer_size s ≡ some (len, u.line, s'))
        × (pending s' ≡ coming u.keyboard u.readings)
        × (output s' ≡ output s ++ (u.line ++ 10 ∷ []))
  hosted_get_line-kernel k c rs fuel size s ring p lt pos small ok feed =
      let ((len, u), returned) = keyboard_get_line-returns size k c rs ring pos small feed in
      let reads =
        keyboard_get_line_lem (257 + length rs) size k c rs ring (length-coming k rs) pos small in
      let (r, made) =
        measured-some (edit (size - 1) (coming k rs) []) len u.line (coming u.keyboard u.readings)
          (rw returned at reads) in
      let (s', hosted, p', o') =
        hosted_get_line-edit (coming k rs) fuel size u.line (coming u.keyboard u.readings) s p lt
          pos small ok made in
      (len, u, s', returned, hosted ∙ ap (λ n. some (n, u.line, s')) r, p', o')

  -- At the end of the input, `keyboard_get_line` of TEST_MODE never returns: no fuel is enough, for a
  -- buffer of 2 bytes or more.
  pub hosted_get_line-eof :
      (fuel buffer_size : ℕ) (s : State)
      → 1 < buffer_size
      → buffer_size < 2 ^ 32
      → pending s ≡ []
      → hosted_get_line t fuel buffer_size s ≡ none
  unfolding hosted_get_line
  hosted_get_line-eof fuel size s big small nothing =
      let limit : (size + 2 ^ 32 - 1) % 2 ^ 32 ≡ size - 1 = omega arith in
      let room : ltb 0 (size - 1) ≡ true = ground arith in
      rw (limit, loop-spins fuel (size - 1) [] s room nothing) refl
