-- ===== src/Keyboard/Tests.antt =====
-- Keys that are typed at the driver of kernel/keyboard.c.
use alpha_os.Prelude.{
  some, ℕ, ◌+◌, refl, ◌-◌, ◌≡◌, ltb, if◌then◌else◌, arith, List, [], ◌∷◌, ◌++◌, length,
}
use alpha_os.Prelude.{none, codes}
use alpha_os.CString.Spec.{Text}
use alpha_os.Keyboard.Hosted.{Terminal, Obeys, hosted_get_line}
use alpha_os.Keyboard.HostedLine.{hosted_get_line-edit, hosted_get_line-kernel, hosted_get_line-eof}
use alpha_os.Console.{Console}
use alpha_os.Keyboard.{
  Typed, Keyboard, Reading, keyboard_read, keyboard_poll, keyboard_get_line, key_at,
}
use alpha_os.Keyboard.Queue.{pending, decoded, taken, keyboard_poll_lem, keyboard_read_lem}
use alpha_os.Strtok.Spec.{has}
use alpha_os.Keyboard.Return.{keyboard_get_line-returns}
use alpha_os.Keyboard.Line.{coming, edit, typed_of, measured, keyboard_get_line_lem}

-- One key waits, at the end of the ring.
abbrev one_key : Keyboard
one_key = record { buffer = λ a. 97; head = 0; tail = 255 }

abbrev screen : Console
screen = record { row = 0; column = 0; color = 7; buffer = λ a. 0 }

-- The key B, a reading without a key, and the return key.
abbrev typing : List Reading
typing = (1, 48) ∷ (0, 0) ∷ (1, 28) ∷ []

keyboard_poll_example : pending (keyboard_poll one_key (1, 48)) ≡ (
    if ltb (length (pending one_key)) 255
    then pending one_key ++ decoded (1, 48)
    else pending one_key)
keyboard_poll_example = keyboard_poll_lem one_key (1, 48) (omega arith, omega arith)

keyboard_read_example :
    ((keyboard_read one_key).0, pending (keyboard_read one_key).1) ≡ taken (pending one_key)
keyboard_read_example = keyboard_read_lem one_key (omega arith, omega arith)

keyboard_get_line_example :
    typed_of (keyboard_get_line 10 64 one_key screen typing)
    ≡ measured (edit (64 - 1) (coming one_key typing) [])
unfolding key_at
keyboard_get_line_example =
    keyboard_get_line_lem 10 64 one_key screen typing (omega arith, omega arith) (omega arith)
      (omega arith) (omega arith)

keyboard_get_line-returns_example :
    (r : ℕ × Typed) × (keyboard_get_line (257 + length typing) 64 one_key screen typing ≡ some r)
unfolding key_at has
keyboard_get_line-returns_example =
    keyboard_get_line-returns 64 one_key screen typing (omega arith, omega arith) (omega arith)
      (omega arith) refl

-- A host with a list of bytes to read and the text that has been written.
abbrev listed_host : Terminal
listed_host = record {
  State = List ℕ × Text;
  getchar = λ s. elim s.0 [ [] ↦ (none, s) | c ∷ cs ↦ (some c, (cs, s.1)) ];
  fputc = λ c s. (s.0, s.1 ++ c ∷ []);
  fflush = λ s. s;
}

first_read :
    (bytes : List ℕ) (text : Text) (c : ℕ) (cs : List ℕ)
    → bytes ≡ c ∷ cs
    → ((listed_host.getchar (bytes, text)).0 ≡ some c)
      × ((listed_host.getchar (bytes, text)).1.0 ≡ cs)
      × ((listed_host.getchar (bytes, text)).1.1 ≡ text)
first_read [] text c cs e = absurd (cc)
first_read (b ∷ bs) text c cs e = (cc, cc, refl)

end_read :
    (bytes : List ℕ) (text : Text)
    → bytes ≡ []
    → ((listed_host.getchar (bytes, text)).0 ≡ none)
      × ((listed_host.getchar (bytes, text)).1.0 ≡ [])
end_read [] text e = (refl, refl)
end_read (b ∷ bs) text e = absurd (cc)

abbrev listed_laws : Obeys listed_host
listed_laws = record {
  pending = λ s. s.0;
  output = λ s. s.1;
  next = λ s c cs e. first_read s.0 s.1 c cs e;
  at_end = λ s e. end_read s.0 s.1 e;
  writes = λ c s. (refl, refl);
  flushes = λ s. (refl, refl);
}

-- The bytes of `hi`, a line feed and a `!`.
abbrev waiting : List ℕ
waiting = codes "hi\n!"

hosted_get_line-edit_example :
    (s' : List ℕ × Text) × (hosted_get_line listed_host 10 64 (waiting, [])
      ≡ some (length (codes "hi"), codes "hi", s'))
    × (s'.0 ≡ codes "!")
    × (s'.1 ≡ [] ++ (codes "hi" ++ 10 ∷ []))
hosted_get_line-edit_example =
    hosted_get_line-edit listed_host listed_laws waiting 10 64 (codes "hi") (codes "!")
      (waiting, []) refl (omega arith) (omega arith) (omega arith)
      ((
        λ e. absurd (omega arith),
        λ e. absurd (omega arith),
        (
          λ e. absurd (omega arith),
          λ e. absurd (omega arith),
          (
            λ e. absurd (omega arith),
            λ e. absurd (omega arith),
            (λ e. absurd (omega arith), λ e. absurd (omega arith), tt),
          ),
        ),
      ))
      refl

-- The key B behind the one that waits, and the return key.
hosted_get_line-kernel_example :
    (len : ℕ) × (u : Typed) × (s' : List ℕ × Text) × (keyboard_get_line
        (257 + length typing)
        64
        one_key
        screen
        typing
      ≡ some (len, u))
    × (hosted_get_line listed_host 10 64 (codes "ab\n", []) ≡ some (len, u.line, s'))
    × (s'.0 ≡ coming u.keyboard u.readings)
    × (s'.1 ≡ [] ++ (u.line ++ 10 ∷ []))
unfolding key_at has
hosted_get_line-kernel_example =
    hosted_get_line-kernel listed_host listed_laws one_key screen typing 10 64 (codes "ab\n", [])
      (omega arith, omega arith) refl (omega arith) (omega arith) (omega arith)
      ((
        λ e. absurd (omega arith),
        λ e. absurd (omega arith),
        (
          λ e. absurd (omega arith),
          λ e. absurd (omega arith),
          (λ e. absurd (omega arith), λ e. absurd (omega arith), tt),
        ),
      ))
      refl

hosted_get_line-eof_example : hosted_get_line listed_host 1000 64 ([], []) ≡ none
hosted_get_line-eof_example =
    hosted_get_line-eof listed_host listed_laws 1000 64 ([], []) (omega arith) (omega arith) refl
