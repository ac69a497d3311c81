-- ===== src/Keyboard/Keep.antt =====
-- What reading a line leaves well-formed: `keyboard_get_line` of kernel/keyboard.c.
use alpha_os.Prelude.{
  ℕ, zero, suc, ◌+◌, ◌-◌, ◌%◌, ◌^◌, Option, none, some, List, [], ◌∷◌, arith, ltb, length, inl, inr,
  Bool-cases, Option-cases,
}
use alpha_os.CString.{◌>>=◌}
use alpha_os.CString.Spec.{Text}
use alpha_os.Console.{Console, console_putchar}
use alpha_os.Console.Cursor.{OnScreen, console_putchar-OnScreen}
use alpha_os.Keyboard.{
  Keyboard, Reading, Typed, keyboard_available, keyboard_read, keyboard_poll, wait_key, edit_key,
  line_loop, keyboard_get_line,
}
use alpha_os.Keyboard.Queue.{IsRing, keyboard_read-IsRing, keyboard_poll-IsRing}

abbrev EditedOnScreen : Option (Text × Console) → Type 0
EditedOnScreen none = Unit {0}
EditedOnScreen (some (line, s)) = OnScreen s

edit_key-OnScreen :
    (c : ℕ) (text : Text) (s : Console) → OnScreen s → EditedOnScreen (edit_key c text s)
unfolding edit_key
edit_key-OnScreen c text s h =
    let back = console_putchar-OnScreen s 8 h in
    let blank = console_putchar-OnScreen (console_putchar s 8) 32 back in
    ground (
      arith,
      console_putchar-OnScreen s c h,
      console_putchar-OnScreen (console_putchar (console_putchar s 8) 32) 8 blank,
    )

abbrev WaitedRing : Option (Keyboard × List Reading) → Type 0
WaitedRing none = Unit {0}
WaitedRing (some (k, rs)) = IsRing k

wait_key-IsRing : (k : Keyboard) (rs : List Reading) → IsRing k → WaitedRing (wait_key k rs)
unfolding wait_key
wait_key-IsRing k [] h = elim (Bool-cases (keyboard_available k)) [
  | inl ready ↦ rw ready h
  | inr not_ready ↦ rw not_ready tt
]
wait_key-IsRing k (r ∷ rs) h = elim (Bool-cases (keyboard_available k)) [
  | inl ready ↦ rw ready h
  | inr not_ready ↦
      rw not_ready (wait_key-IsRing (keyboard_poll k r) rs (keyboard_poll-IsRing k r h))
]

-- The cursor and the ring of what is typed are in range.
abbrev pub Settled : Option Typed → Type 0
Settled none = Unit {0}
Settled (some t) = OnScreen t.console × IsRing t.keyboard

line_loop-Settled :
    (fuel limit : ℕ) (t : Typed)
    → OnScreen t.console
    → IsRing t.keyboard
    → Settled (line_loop fuel limit t)
unfolding line_loop
line_loop-Settled zero limit t screen ring = tt
line_loop-Settled (suc fuel) limit t screen ring = elim (Bool-cases (ltb (length t.line) limit)) [
  | inr full ↦ rw full (screen, ring)
  | inl room ↦ elim (Option-cases (wait_key t.keyboard t.readings)) [
    | inl ended ↦ rw (room, ended) tt
    | inr ((k, rs), found) ↦
        let ring' =
          keyboard_read-IsRing k (rw found at (wait_key-IsRing t.keyboard t.readings ring)) in
        elim (Option-cases (edit_key (keyboard_read k).0 t.line t.console)) [
          | inl ends ↦ rw (room, found, ends) (screen, ring')
          | inr ((line, s), goes) ↦
              rw (room, found, goes)
                (line_loop-Settled fuel limit
                  (record {
                    line = line;
                    keyboard = (keyboard_read k).1;
                    console = s;
                    readings = rs;
                  })
                  (rw goes at (edit_key-OnScreen (keyboard_read k).0 t.line t.console screen))
                  ring')
        ]
  ]
]

abbrev pub SettledAfter : Option (ℕ × Typed) → Type 0
SettledAfter none = Unit {0}
SettledAfter (some (n, t)) = OnScreen t.console × IsRing t.keyboard

-- Reading a line leaves the cursor on the screen and the indices of the ring in range.
pub keyboard_get_line-Settled :
    (fuel size : ℕ) (k : Keyboard) (s : Console) (rs : List Reading)
    → OnScreen s
    → IsRing k
    → SettledAfter (keyboard_get_line fuel size k s rs)
unfolding keyboard_get_line
keyboard_get_line-Settled fuel size k s rs screen ring =
    go (line_loop fuel ((size + 2 ^ 32 - 1) % 2 ^ 32) _) (
      line_loop-Settled fuel ((size + 2 ^ 32 - 1) % 2 ^ 32)
        (record { line = []; keyboard = k; console = s; readings = rs }) screen ring)
  where
    go :
        (o : Option Typed)
        → Settled o
        → SettledAfter
            (o >>= λ t. some (length t.line, record t { console = console_putchar t.console 10 }))
    go none h = tt
    go (some t) h = (console_putchar-OnScreen t.console 10 h.0, h.1)
