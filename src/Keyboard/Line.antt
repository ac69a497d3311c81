-- ===== src/Keyboard/Line.antt =====
-- `keyboard_get_line` as an editor of a line over the keys that are typed.
use alpha_os.Prelude.{
  ℕ, zero, suc, ◌+◌, ◌-◌, ◌%◌, ◌≤◌, ◌<◌, ◌≡◌, refl, ap, ◌∙◌, sym, Bool, true, false, Option, none,
  some, List, [], ◌∷◌, ◌++◌, ◌^◌, arith, ltb, leb, ◌==◌, ◌||◌, ◌&&◌, not, if◌then◌else◌, length,
  length-append, length-take, take, inl, inr, Bool-cases, Option-cases, append-nil,
}
use alpha_os.CString.Spec.{Text}
use alpha_os.Console.{Console}
use alpha_os.Keyboard.{
  Keyboard, Reading, Typed, keyboard_available, keyboard_read, keyboard_poll, wait_key, edit_key,
  line_loop, keyboard_get_line,
}
use alpha_os.Keyboard.Queue.{
  IsRing, window, read_first, pending, decoded, keyboard_read-IsRing, keyboard_poll_lem,
  keyboard_poll-IsRing,
}

-- The keys of the readings.
abbrev pub keys : List Reading → List ℕ
keys [] = []
keys (r ∷ rs) = decoded r ++ keys rs

-- The line after a key; none where the key ends it.
abbrev pub edited : ℕ → Text → Option Text
edited c text =
    if (c == 10) || (c == 13)
    then none
    else if c == 8
    then some (take (length text - 1) text)
    else if leb 32 c && leb c 126
    then some (text ++ (c ∷ []))
    else some text

-- The line that the keys give, and the keys that are left; none where they do not end it.
abbrev pub edit : (limit : ℕ) → List ℕ → Text → Option (Text × List ℕ)
edit limit [] text = if ltb (length text) limit then none else some (text, [])
edit limit (c ∷ cs) text =
    if not (ltb (length text) limit)
    then some (text, c ∷ cs)
    else elim (edited c text) [ none ↦ some (text, cs) | some line ↦ edit limit cs line ]

-- All keys that are to come, those in the buffer first.
abbrev pub coming : Keyboard → List Reading → List ℕ
coming k rs = pending k ++ keys rs

abbrev pub ComingAfter : Option (Keyboard × List Reading) → List ℕ → Type 0
ComingAfter none cs = cs ≡ []
ComingAfter (some (k, rs)) cs = IsRing k × (coming k rs ≡ cs) × (keyboard_available k ≡ true)

pending-nil : (k : Keyboard) → IsRing k → keyboard_available k ≡ false → pending k ≡ []
unfolding keyboard_available
pending-nil k (hh, ht) not_ready = ap (window k.buffer k.tail) {y = 0} (ground arith)

-- Waiting loses no key, and ends without one only where none is to come.
wait_key_lem :
    (k : Keyboard) (rs : List Reading) → IsRing k → ComingAfter (wait_key k rs) (coming k rs)
unfolding wait_key
wait_key_lem k [] h = elim (Bool-cases (keyboard_available k)) [
  | inl ready ↦ rw ready (h, refl, ready)
  | inr not_ready ↦ rw (not_ready, append-nil (pending k)) (pending-nil k h not_ready)
]
wait_key_lem k (r ∷ rs) h = elim (Bool-cases (keyboard_available k)) [
  | inl ready ↦ rw ready (h, refl, ready)
  | inr not_ready ↦
      let empty = pending-nil k h not_ready in
      let polled : pending (keyboard_poll k r) ≡ decoded r =
        rw empty at (keyboard_poll_lem k r h) in
      let rest = wait_key_lem (keyboard_poll k r) rs (keyboard_poll-IsRing k r h) in
      rw (not_ready, empty, sym polled) rest
]

edit_key-edited :
    (c : ℕ) (text : Text) (s : Console)
    → edited c text ≡ elim (edit_key c text s) [ none ↦ none | some (line, t) ↦ some line ]
unfolding edit_key
edit_key-edited c text s = ground arith

edit-full :
    (limit : ℕ) (cs : List ℕ) (text : Text)
    → ltb (length text) limit ≡ false
    → edit limit cs text ≡ some (text, cs)
edit-full limit [] text h = rw h refl
edit-full limit (c ∷ cs) text h = rw h refl

edit-next :
    (limit c : ℕ) (cs : List ℕ) (text : Text)
    → ltb (length text) limit ≡ true
    → edit limit (c ∷ cs) text
      ≡ elim (edited c text) [ none ↦ some (text, cs) | some line ↦ edit limit cs line ]
edit-next limit c cs text h = rw h refl

edit-nil : (limit : ℕ) (text : Text) → ltb (length text) limit ≡ true → edit limit [] text ≡ none
edit-nil limit text h = rw h refl

-- The line and the keys that are left.
abbrev pub result_of : Option Typed → Option (Text × List ℕ)
result_of none = none
result_of (some t) = some (t.line, coming t.keyboard t.readings)

-- With more fuel than keys to come, the loop is the editor.
line_loop_lem :
    (fuel limit : ℕ) (t : Typed)
    → IsRing t.keyboard
    → length (coming t.keyboard t.readings) < fuel
    → result_of (line_loop fuel limit t) ≡ edit limit (coming t.keyboard t.readings) t.line
unfolding line_loop
line_loop_lem zero limit t ring enough = absurd (omega arith)
line_loop_lem (suc fuel) limit t ring enough = elim (Bool-cases (ltb (length t.line) limit)) [
  | inr full ↦ rw (full, edit-full limit (coming t.keyboard t.readings) t.line full) refl
  | inl room ↦ elim (Option-cases (wait_key t.keyboard t.readings)) [
    | inl ended ↦
        let nothing : coming t.keyboard t.readings ≡ [] =
          rw ended at (wait_key_lem t.keyboard t.readings ring) in
        rw (room, ended, nothing, edit-nil limit t.line room) refl
    | inr ((k, rs), found) ↦
        let (ring', same, ready) = rw found at (wait_key_lem t.keyboard t.readings ring) in
        let c : ℕ = (keyboard_read k).0 in
        let k' : Keyboard = (keyboard_read k).1 in
        let first : coming t.keyboard t.readings ≡ c ∷ coming k' rs =
          sym same ∙ ap (λ cs. cs ++ keys rs) (read_first k ring' ready) in
        elim (Option-cases (edit_key c t.line t.console)) [
          | inl ends ↦
              let stops : edited c t.line ≡ none =
                rw ends at (edit_key-edited c t.line t.console) in
              rw (room, found, ends, first, edit-next limit c (coming k' rs) t.line room, stops)
                refl
          | inr ((line, console), goes) ↦
              let typed : edited c t.line ≡ some line =
                rw goes at (edit_key-edited c t.line t.console) in
              let fewer : length (c ∷ coming k' rs) < suc fuel = rw first at enough in
              let next : Typed = record {
                line = line;
                keyboard = k';
                console = console;
                readings = rs;
              } in
              rw (room, found, goes, first, edit-next limit c (coming k' rs) t.line room, typed)
                (line_loop_lem fuel limit next (keyboard_read-IsRing k ring') (omega arith))
        ]
  ]
]

-- Whether a line has room in the buffer.
abbrev pub fits : ℕ → Option (Text × List ℕ) → Bool
fits limit none = true
fits limit (some (text, cs)) = leb (length text) limit

edited-fits :
    (limit c : ℕ) (text line : Text)
    → length text < limit
    → edited c text ≡ some line
    → length line ≤ limit
edited-fits limit c text line h e =
    ground (arith, length-append {0} text (c ∷ []), length-take {0} (length text - 1) text)

pub edit-fits :
    (limit : ℕ) (cs : List ℕ) (text : Text)
    → length text ≤ limit
    → fits limit (edit limit cs text) ≡ true
edit-fits limit [] text h = ground arith
edit-fits limit (c ∷ cs) text h = elim (Bool-cases (ltb (length text) limit)) [
  | inr full ↦ rw full (ground arith)
  | inl room ↦ elim (Option-cases (edited c text)) [
    | inl ends ↦ rw (room, ends) (ground arith)
    | inr (line, goes) ↦
        rw (room, goes)
          (edit-fits limit cs line (edited-fits limit c text line (ground arith) goes))
  ]
]

-- What the call returns: the result, the line and the keys that are left.
abbrev pub typed_of : Option (ℕ × Typed) → Option (ℕ × Text × List ℕ)
typed_of none = none
typed_of (some (n, t)) = some (n, t.line, coming t.keyboard t.readings)

abbrev pub measured : Option (Text × List ℕ) → Option (ℕ × Text × List ℕ)
measured none = none
measured (some (text, cs)) = some (length text, text, cs)

-- With more fuel than keys to come, from a ring with its indices in range and with a buffer that is
-- not empty, `keyboard_get_line` returns exactly where the keys that wait and those of the readings
-- end a line or fill the buffer but for its terminator, with the line that the editor makes of them
-- and its length, and leaves the other keys.
pub keyboard_get_line_lem :
    (fuel buffer_size : ℕ) (k : Keyboard) (s : Console) (rs : List Reading)
    → IsRing k
    → length (coming k rs) < fuel
    → 0 < buffer_size
    → buffer_size < 2 ^ 32
    → typed_of (keyboard_get_line fuel buffer_size k s rs)
      ≡ measured (edit (buffer_size - 1) (coming k rs) [])
unfolding keyboard_get_line
keyboard_get_line_lem fuel n k s rs ring enough some_room bound =
    let size : (n + 2 ^ 32 - 1) % 2 ^ 32 ≡ n - 1 = omega arith in
    let start : Typed = record { line = []; keyboard = k; console = s; readings = rs } in
    let loop = line_loop_lem fuel (n - 1) start ring enough in
    rw size (elim (Option-cases (line_loop fuel (n - 1) start)) [
      | inl ended ↦ rw ended (ap measured (rw ended at loop))
      | inr (t, ended) ↦ rw ended (ap measured (rw ended at loop))
    ])
