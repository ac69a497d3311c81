-- ===== src/Keyboard.antt =====
-- The keyboard driver of kernel/keyboard.c (kernel mode).
-- What `inb` reads is an argument: a reading is the status byte and, where its lowest bit is set, the
-- scancode. `keyboard_get_line` takes the list of the readings that its polls get. The text in
-- `buffer[0 .. pos)` is a list, and `pos` its length.
pub mod Queue
pub mod Line
pub mod Keep
pub mod Return
pub mod Hosted
pub mod HostedLine
pub mod Tests
use alpha_os.Prelude.{
  ℕ, zero, suc, ◌+◌, ◌-◌, ◌*◌, ◌/◌, ◌%◌, ◌^◌, Bool, true, false, ◌&&◌, ◌||◌, not, Option, none,
  some, List, [], ◌∷◌, ◌++◌, codes, ltb, leb, ◌==◌, if◌then◌else◌, length, get_or, take,
}
use alpha_os.Bytes.{Memory, poke}
use alpha_os.CString.{◌>>=◌}
use alpha_os.CString.Spec.{Text}
use alpha_os.Console.{Console, console_putchar}

-- The static variables of the driver.
pub record Keyboard : Type 0 where
  pub buffer : Memory
  pub head : ℕ
  pub tail : ℕ

abbrev pub Reading : Type 0
Reading = ℕ × ℕ

-- `keyboard_us`; the elements that the table does not give are 0.
abbrev pub keyboard_us : List ℕ
keyboard_us =
    0 ∷ 27 ∷ codes "1234567890-=\u{8}"
    ++ codes "\tqwertyuiop[]\n"
    ++ 0 ∷ codes "asdfghjkl;'`"
    ++ 0 ∷ codes "\\zxcvbnm,./"
    ++ 0 ∷ codes "*"
    ++ 0 ∷ codes " "
    ++ 0 ∷ 0 ∷ 0 ∷ 0 ∷ 0 ∷ 0 ∷ 0 ∷ 0 ∷ 0 ∷ 0 ∷ 0 ∷ 0 ∷ 0 ∷ 0 ∷ 0 ∷ 0 ∷ codes "-"
    ++ 0 ∷ 0 ∷ 0 ∷ codes "+"

unfoldable pub key_at : ℕ → ℕ
key_at scancode = get_or keyboard_us scancode 0

unfoldable pub keyboard_init : Keyboard → Keyboard
keyboard_init k = record k { head = 0; tail = 0 }

unfoldable pub keyboard_available : Keyboard → Bool
keyboard_available k = not (k.head == k.tail)

unfoldable pub keyboard_read : Keyboard → ℕ × Keyboard
keyboard_read k =
    if k.head == k.tail then (0, k) else (k.buffer k.tail, record k { tail = (k.tail + 1) % 256 })

unfoldable pub keyboard_clear_buffer : Keyboard → Keyboard
keyboard_clear_buffer k = record k { head = k.tail }

-- A key goes into the buffer, where there is room.
unfoldable pub push_key : Keyboard → ℕ → Keyboard
push_key k c =
    if (k.head + 1) % 256 == k.tail
    then k
    else record k { buffer = poke k.buffer k.head c; head = (k.head + 1) % 256 }

-- The scancode counts where the output buffer is full, a key is pressed, and the table has it.
unfoldable pub keyboard_poll : Keyboard → Reading → Keyboard
keyboard_poll k (status, scancode) =
    if status % 2 == 0
    then k
    else if not (scancode / 128 % 2 == 0)
    then k
    else if key_at scancode == 0
    then k
    else push_key k (key_at scancode)

-- `while (!keyboard_available()) keyboard_poll();`: none where the readings end before a key.
unfoldable pub wait_key : Keyboard → List Reading → Option (Keyboard × List Reading)
wait_key k [] = if keyboard_available k then some (k, []) else none
wait_key k (r ∷ rs) =
    let rest = wait_key (keyboard_poll k r) rs in
    if keyboard_available k then some (k, r ∷ rs) else rest

-- What a key does to the line and to the screen; none at the line's end.
unfoldable pub edit_key : ℕ → Text → Console → Option (Text × Console)
edit_key c text s =
    if (c == 10) || (c == 13)
    then none
    else if c == 8
    then if ltb 0 (length text)
      then some (
        take (length text - 1) text,
        console_putchar (console_putchar (console_putchar s 8) 32) 8,
      )
      else some (text, s)
    else if leb 32 c && leb c 126
    then some (text ++ (c ∷ []), console_putchar s c)
    else some (text, s)

-- What `keyboard_get_line` leaves: the line, the driver, the screen and the readings to come.
pub record Typed : Type 0 where
  pub line : Text
  pub keyboard : Keyboard
  pub console : Console
  pub readings : List Reading

-- `while (pos < buffer_size - 1) ..`; each round takes a key, so one round more than there are keys
-- is enough fuel (Keyboard.Line).
unfoldable pub line_loop : (fuel limit : ℕ) → Typed → Option Typed
line_loop zero limit t = none
line_loop (suc fuel) limit t =
    if not (ltb (length t.line) limit) then some t else elim (wait_key t.keyboard t.readings) [
      | none ↦ none
      | some (k, rs) ↦
          let (c, k') = keyboard_read k in
          elim (edit_key c t.line t.console) [
            | none ↦ some (record t { keyboard = k'; readings = rs })
            | some (line, console) ↦
                line_loop fuel limit
                  (record { line = line; keyboard = k'; console = console; readings = rs })
          ]
    ]

-- The result is `pos`.
unfoldable pub keyboard_get_line :
    (fuel buffer_size : ℕ) → Keyboard → Console → List Reading → Option (ℕ × Typed)
keyboard_get_line fuel buffer_size k s rs =
    line_loop fuel ((buffer_size + 2 ^ 32 - 1) % 2 ^ 32)
      (record { line = []; keyboard = k; console = s; readings = rs })
    >>= λ t. some (length t.line, record t { console = console_putchar t.console 10 })
