-- ===== src/Keyboard/Queue.antt =====
-- The ring buffer of keyboard.c as a queue of at most 255 characters.
use alpha_os.Prelude.{
  ℕ, zero, suc, ◌+◌, ◌-◌, ◌%◌, ◌≤◌, ◌<◌, ◌≡◌, refl, ap, ◌∙◌, true, false, List, [], ◌∷◌, ◌++◌,
  arith, ltb, ◌==◌, if◌then◌else◌, length, inl, inr, Bool-cases, append-nil, not, ◌/◌, ◌||◌,
}
use alpha_os.Bytes.{Memory, poke}
use alpha_os.Keyboard.{
  Keyboard, Reading, key_at, keyboard_available, keyboard_read, push_key, keyboard_poll,
  keyboard_clear_buffer,
}

-- `n` characters of the ring from `t` on.
abbrev pub window : Memory → (t n : ℕ) → List ℕ
window b t zero = []
window b t (suc n) = b t ∷ window b ((t + 1) % 256) n

abbrev pub used : Keyboard → ℕ
used k = (k.head + 256 - k.tail) % 256

-- The characters that wait to be read, the first of them first.
abbrev pub pending : Keyboard → List ℕ
pending k = window k.buffer k.tail (used k)

abbrev pub IsRing : Keyboard → Type 0
IsRing k = (k.head < 256) × (k.tail < 256)

pub length-window : (b : Memory) (t n : ℕ) → length (window b t n) ≡ n
length-window b t zero = refl
length-window b t (suc n) = ap suc (length-window b ((t + 1) % 256) n)

window-snoc :
    (b : Memory) (t n : ℕ) → t < 256 → window b t (suc n) ≡ window b t n ++ (b ((t + n) % 256) ∷ [])
window-snoc b t zero h = ap (λ i. b i ∷ []) (omega arith)
window-snoc b t (suc n) h =
    ap (λ cs. b t ∷ cs)
      (window-snoc b ((t + 1) % 256) n (omega arith)
        ∙ ap (λ i. window b ((t + 1) % 256) n ++ (b i ∷ [])) (omega arith))

-- A write behind the window keeps it.
window-poke :
    (b : Memory) (h t n v : ℕ)
    → h < 256
    → t < 256
    → n ≤ (h + 256 - t) % 256
    → window (poke b h v) t n ≡ window b t n
unfolding poke
window-poke b h t zero v hh ht hn = refl
window-poke b h t (suc n) v hh ht hn =
    ground (arith, window-poke b h ((t + 1) % 256) n v hh (omega arith) (omega arith))

poke_self : (b : Memory) (h v i : ℕ) → i ≡ h → poke b h v i ≡ v
unfolding poke
poke_self b h v i e = ground arith

pub push_key-IsRing : (k : Keyboard) (c : ℕ) → IsRing k → IsRing (push_key k c)
unfolding push_key
push_key-IsRing k c (hh, ht) = ground arith

push_key-full : (k : Keyboard) (c : ℕ) → IsRing k → used k ≡ 255 → push_key k c ≡ k
unfolding push_key
push_key-full k c (hh, ht) full = ground arith

push_key-stored :
    (k : Keyboard) (c : ℕ)
    → IsRing k
    → used k < 255
    → pending (push_key k c) ≡ pending k ++ (c ∷ [])
unfolding push_key
push_key-stored k c (hh, ht) room =
    let next : push_key k c
        ≡ record k { buffer = poke k.buffer k.head c; head = (k.head + 1) % 256 } =
      ground arith in
    rw next (
      ap (window (poke k.buffer k.head c) k.tail) {y = suc (used k)} (omega arith)
      ∙ window-snoc (poke k.buffer k.head c) k.tail (used k) ht
      ∙ ap (λ cs. cs ++ (poke k.buffer k.head c ((k.tail + used k) % 256) ∷ []))
          (window-poke k.buffer k.head k.tail (used k) c hh ht (omega arith))
      ∙ ap (λ v. pending k ++ (v ∷ []))
          (poke_self k.buffer k.head c ((k.tail + used k) % 256) (omega arith)))

pub push_key_lem :
    (k : Keyboard) (c : ℕ)
    → IsRing k
    → pending (push_key k c)
      ≡ (if ltb (length (pending k)) 255 then pending k ++ (c ∷ []) else pending k)
push_key_lem k c h = elim (Bool-cases (ltb (used k) 255)) [
  | inl room ↦
      let stored = push_key-stored k c h (ground arith) in
      rw (length-window k.buffer k.tail (used k), room) stored
  | inr full ↦
      let same = push_key-full k c h (ground arith) in
      rw (length-window k.buffer k.tail (used k), full) (ap pending same)
]

-- The first of the characters, or 0 where there is none, and the others.
unfoldable pub taken : List ℕ → ℕ × List ℕ
taken [] = (0, [])
taken (c ∷ cs) = (c, cs)

-- A read of a ring with its indices in range takes the first of the characters that wait and leaves
-- the others, and gives 0 where none waits.
pub keyboard_read_lem :
    (k : Keyboard)
    → IsRing k
    → ((keyboard_read k).0, pending (keyboard_read k).1) ≡ taken (pending k)
unfolding keyboard_read taken
keyboard_read_lem k (hh, ht) = elim (Bool-cases (k.head == k.tail)) [
  | inl empty ↦ let none_left : used k ≡ 0 = ground arith in rw (empty, none_left) refl
  | inr some_left ↦
      let more : used k ≡ suc ((k.head + 256 - (k.tail + 1) % 256) % 256) = ground arith in
      rw (some_left, more) refl
]

pub keyboard_read-IsRing : (k : Keyboard) → IsRing k → IsRing (keyboard_read k).1
unfolding keyboard_read
keyboard_read-IsRing k (hh, ht) = ground arith

pub keyboard_available_lem :
    (k : Keyboard) → IsRing k → keyboard_available k ≡ not (length (pending k) == 0)
unfolding keyboard_available
keyboard_available_lem k (hh, ht) = rw (length-window k.buffer k.tail (used k)) (ground arith)

-- Where a character is available, a read splits the queue.
pub read_first :
    (k : Keyboard)
    → IsRing k
    → keyboard_available k ≡ true
    → pending k ≡ (keyboard_read k).0 ∷ pending (keyboard_read k).1
unfolding keyboard_read keyboard_available
read_first k (hh, ht) h =
    let some_left : (k.head == k.tail) ≡ false = ground arith in
    let more : used k ≡ suc ((k.head + 256 - (k.tail + 1) % 256) % 256) = ground arith in
    rw (some_left, more) refl

-- The characters that a reading brings: at most one.
abbrev pub decoded : Reading → List ℕ
decoded (status, scancode) =
    if (status % 2 == 0) || not (scancode / 128 % 2 == 0) || (key_at scancode == 0)
    then []
    else key_at scancode ∷ []

pub keyboard_poll-IsRing : (k : Keyboard) (r : Reading) → IsRing k → IsRing (keyboard_poll k r)
unfolding keyboard_poll
keyboard_poll-IsRing k (status, scancode) h = ground (arith, push_key-IsRing k (key_at scancode) h)

-- A poll of a ring with its indices in range appends the character that the reading brings, if any,
-- to the queue, where fewer than 255 wait, and else leaves the queue as it is.
pub keyboard_poll_lem :
    (k : Keyboard) (r : Reading)
    → IsRing k
    → pending (keyboard_poll k r)
      ≡ (if ltb (length (pending k)) 255 then pending k ++ decoded r else pending k)
unfolding keyboard_poll
keyboard_poll_lem k (status, scancode) h =
    elim (Bool-cases
      ((status % 2 == 0) || not (scancode / 128 % 2 == 0) || (key_at scancode == 0))) [
        | inl nothing ↦
            let same : keyboard_poll k (status, scancode) ≡ k = ground arith in
            rw (same, nothing, append-nil (pending k)) (ground arith)
        | inr key ↦
            let pushed : keyboard_poll k (status, scancode) ≡ push_key k (key_at scancode) =
              ground arith in
            rw (pushed, key) (push_key_lem k (key_at scancode) h)
      ]

pub keyboard_clear_buffer_lem : (k : Keyboard) → IsRing k → pending (keyboard_clear_buffer k) ≡ []
unfolding keyboard_clear_buffer
keyboard_clear_buffer_lem k (hh, ht) = ap (window k.buffer k.tail) {y = 0} (omega arith)
