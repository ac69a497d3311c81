-- ===== src/Keyboard/Return.antt =====
-- A line is read to its end: the return key is enough.
use alpha_os.Prelude.{
  ℕ, ◌+◌, ◌-◌, ◌^◌, ◌≤◌, ◌<◌, ◌≡◌, refl, true, false, ◌==◌, Option, none, some, List, [], ◌∷◌,
  arith, ltb, length, length-append, inl, inr, Bool-cases, Option-cases,
}
use alpha_os.CString.Spec.{Text}
use alpha_os.Strtok.Spec.{has}
use alpha_os.Console.{Console}
use alpha_os.Keyboard.{Keyboard, Reading, Typed, keyboard_get_line}
use alpha_os.Keyboard.Queue.{IsRing, used, length-window, decoded, pending}
use alpha_os.Keyboard.Line.{keys, edited, edit, coming, typed_of, measured, keyboard_get_line_lem}

-- The ring has 255 keys at most, and each reading brings one at most.
length-decoded : (r : Reading) → length (decoded r) ≤ 1
length-decoded (status, scancode) = ground arith

length-keys : (rs : List Reading) → length (keys rs) ≤ length rs
length-keys [] = omega arith
length-keys (r ∷ rs) =
    omega (arith, length-append {0} (decoded r) (keys rs), length-decoded r, length-keys rs)

pub length-coming : (k : Keyboard) (rs : List Reading) → length (coming k rs) < 257 + length rs
length-coming k rs = omega (
  arith,
  length-append {0} (pending k) (keys rs),
  length-window k.buffer k.tail (used k),
  length-keys rs,
)

edited-return : (c : ℕ) (text line : Text) → edited c text ≡ some line → (c == 10) ≡ false
edited-return c text line e = elim (Bool-cases (c == 10)) [
  | inl hit ↦ absurd (nothing (rw hit at e))
  | inr miss ↦ miss
]
  where
    nothing : {l : Text} → ¬ (none ≡ some l)
    nothing e = cc

-- Keys with a line feed among them end a line, if they do not fill the buffer before.
edit-returns :
    (limit : ℕ) (cs : List ℕ) (text : Text)
    → has 10 cs ≡ true
    → (r : Text × List ℕ) × (edit limit cs text ≡ some r)
unfolding has
edit-returns limit [] text h = absurd (cc)
edit-returns limit (c ∷ cs) text h = elim (Bool-cases (ltb (length text) limit)) [
  | inr full ↦ ((text, c ∷ cs), rw full refl)
  | inl room ↦ elim (Option-cases (edited c text)) [
    | inl ends ↦ ((text, cs), rw (room, ends) refl)
    | inr (line, goes) ↦
        let later : has 10 cs ≡ true = rw (edited-return c text line goes) at h in
        let (r, e) = edit-returns limit cs line later in (r, rw (room, goes) e)
  ]
]

-- From a ring with its indices in range, and where a line feed is among the keys that wait or come with
-- the readings, `keyboard_get_line` returns: 257 rounds and one for each reading are enough. The buffer
-- is not empty, and smaller than 2 ^ 32 bytes.
pub keyboard_get_line-returns :
    (buffer_size : ℕ) (k : Keyboard) (s : Console) (rs : List Reading)
    → IsRing k
    → 0 < buffer_size
    → buffer_size < 2 ^ 32
    → has 10 (coming k rs) ≡ true
    → (r : ℕ × Typed) × (keyboard_get_line (257 + length rs) buffer_size k s rs ≡ some r)
keyboard_get_line-returns n k s rs ring room bound line_feed =
    let (r, e) = edit-returns (n - 1) (coming k rs) [] line_feed in
    let same =
      keyboard_get_line_lem (257 + length rs) n k s rs ring (length-coming k rs) room bound in
    go (keyboard_get_line (257 + length rs) n k s rs) r (rw e at same)
  where
    go :
        (o : Option (ℕ × Typed)) (r : Text × List ℕ)
        → typed_of o ≡ measured (some r)
        → (x : ℕ × Typed) × (o ≡ some x)
    go none r same = absurd (cc)
    go (some x) r same = (x, refl)
