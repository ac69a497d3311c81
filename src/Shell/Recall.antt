-- ===== src/Shell/Recall.antt =====
-- The command history of kernel/shell.c against the list of the lines that were entered.
use mathlib.Core.Path.{subst}
use alpha_os.Prelude.{
  ℕ, zero, suc, ◌+◌, ◌-◌, ◌%◌, ◌≤◌, ◌<◌, ◌≡◌, refl, sym, ap, ◌∙◌, true, false, ◌&&◌, some, Option,
  ◌^◌, List, [], ◌∷◌, ◌++◌, codes, ltb, ◌==◌, arith, inl, inr, Bool-cases, if◌then◌else◌, length,
  append-nil, append_assoc, length-append, take, get_or,
}
use alpha_os.CString.{◌>>=◌}
use alpha_os.CString.Spec.{Text}
use alpha_os.Stdio.{word, text}
use alpha_os.Shell.{Shell, Output, print, initial_shell, max_command_length, history_size}
use alpha_os.Shell.History.{
  put_slot, shell_add_to_history, shell_get_history, shell_get_history_count,
}
use alpha_os.Shell.Numbers.{history_outputs}

-- The lines that are kept: those that are not empty, cut to 511 bytes.
abbrev pub kept : List Text → List Text
kept [] = []
kept (l ∷ ls) =
    let rest = kept ls in if ltb 0 (length l) then take (max_command_length - 1) l ∷ rest else rest

-- A shell after lines have been entered.
abbrev pub entered : List Text → Shell → Option Shell
entered [] s = some s
entered (l ∷ ls) s = shell_add_to_history s l >>= λ s1. entered ls s1

module _ {ℓ} {A : Type ℓ} (d : A) where
  get_or-append_left :
      (xs ys : List A) (i : ℕ) → i < length xs → get_or (xs ++ ys) i d ≡ get_or xs i d
  get_or-append_left [] ys i h = absurd (omega arith)
  get_or-append_left (x ∷ xs) ys zero h = refl
  get_or-append_left (x ∷ xs) ys (suc i) h = get_or-append_left xs ys i (omega arith)

  get_or-append_last : (xs : List A) (y : A) → get_or (xs ++ y ∷ []) (length xs) d ≡ y
  get_or-append_last [] y = refl
  get_or-append_last (x ∷ xs) y = get_or-append_last xs y

-- The array has the last 50 of the lines, each in its slot.
record Holds (s : Shell) (ls : List Text) : Type 0 where
  counted : s.history_count ≡ length ls
  slots :
      (i : ℕ)
      → i < length ls
      → length ls ≤ i + history_size
      → s.command_history (i % history_size) ≡ get_or ls i []

-- The array after one more line.
put-Holds :
    (s : Shell) (l : Text) (ls : List Text)
    → Holds s ls
    → Holds
        (record s {
          command_history = put_slot s.command_history (s.history_count % history_size) l;
          history_count = s.history_count + 1;
        })
        (ls ++ l ∷ [])
put-Holds s l ls h = record {
  counted = omega (arith, h.counted, longer);
  slots = λ i below recent. elim (Bool-cases (i == length ls)) [
    | inl last ↦
        let e : i ≡ length ls = ground arith in
        let hit : (i % 50 == s.history_count % 50) ≡ true = ground (arith, h.counted) in
        rw hit (sym (ap (λ j. get_or (ls ++ l ∷ []) j []) e ∙ get_or-append_last [] ls l))
    | inr before ↦
        let older : i < length ls = ground (arith, longer) in
        let miss : (i % 50 == s.history_count % 50) ≡ false = ground (arith, h.counted, longer) in
        rw miss (
          h.slots i older (omega (arith, longer)) ∙ sym (get_or-append_left [] ls (l ∷ []) i older))
  ];
}
  where
    longer : length (ls ++ l ∷ []) ≡ length ls + 1
    longer = omega (arith, length-append {0} ls (l ∷ []))

shell_add_to_history-kept :
    (s : Shell) (l : Text) (ls : List Text)
    → ltb 0 (length l) ≡ true
    → s.history_count < 2 ^ 31 - 1
    → Holds s ls
    → (s' : Shell) × (shell_add_to_history s l ≡ some s')
      × Holds s' (ls ++ take (max_command_length - 1) l ∷ [])
unfolding shell_add_to_history
shell_add_to_history-kept s l ls some_text room h =
    let more : ltb s.history_count (2 ^ 31 - 1) ≡ true = ground arith in
    (_, rw (some_text, more) refl, put-Holds s (take (max_command_length - 1) l) ls h)

shell_add_to_history-empty :
    (s : Shell) (l : Text) → ltb 0 (length l) ≡ false → shell_add_to_history s l ≡ some s
unfolding shell_add_to_history
shell_add_to_history-empty s l no_text = rw no_text refl

-- Lines are noted, and the array has them.
abbrev Noted : (new all : List Text) → Shell → Type 0
Noted new all s = (s' : Shell) × (entered new s ≡ some s') × Holds s' all

entered-next :
    (l cut : Text) (new ls : List Text) (s s1 : Shell)
    → shell_add_to_history s l ≡ some s1
    → Noted new ((ls ++ cut ∷ []) ++ kept new) s1
    → Noted (l ∷ new) (ls ++ cut ∷ kept new) s
entered-next l cut new ls s s1 noted (s', done, held) =
    (s', rw noted done, subst (Holds s') (append_assoc ls (cut ∷ []) (kept new)) held)

entered-Holds :
    (new ls : List Text) (s : Shell)
    → length ls + length (kept new) < 2 ^ 31
    → Holds s ls
    → Noted new (ls ++ kept new) s
entered-Holds [] ls s room h = (s, refl, rw append-nil h)
entered-Holds (l ∷ new) ls s room h = elim (Bool-cases (ltb 0 (length l))) [
  | inr no_text ↦
      let room' : length ls + length (kept new) < 2 ^ 31 = rw no_text at room in
      let (s', done, held) = entered-Holds new ls s room' h in
      let r : Noted (l ∷ new) (ls ++ kept new) s =
        (s', rw (shell_add_to_history-empty s l no_text) done, held) in
      rw no_text r
  | inl some_text ↦
      let cut : Text = take (max_command_length - 1) l in
      let room' : length ls + suc (length (kept new)) < 2 ^ 31 = rw some_text at room in
      let (s1, noted, h1) =
        shell_add_to_history-kept s l ls some_text (omega (arith, h.counted, room')) h in
      let r : Noted (l ∷ new) (ls ++ cut ∷ kept new) s = entered-next l cut new ls s s1 noted (
        entered-Holds new (ls ++ cut ∷ []) s1
          (omega (arith, room', length-append {0} ls (cut ∷ []))) h1) in
      rw some_text r
]

pub shell_get_history-present :
    (s : Shell) (i : ℕ)
    → i < history_size
    → i < s.history_count
    → shell_get_history s i ≡ some (s.command_history i)
unfolding shell_get_history
shell_get_history-present s i fits counted =
    let present : (ltb i 50 && ltb i s.history_count) ≡ true = ground arith in rw present refl

abbrev pub numbered_line : ℕ → Text → Output
numbered_line n l = print (codes "%3d  %s\n") (word (n + 1) ∷ text l ∷ [])

pub history_outputs-next :
    (s : Shell) (start k i : ℕ) (l : Text)
    → shell_get_history s ((start + i) % history_size) ≡ some l
    → history_outputs s start (suc k) i
      ≡ numbered_line (start + i) l ∷ history_outputs s start k (i + 1)
unfolding history_outputs
history_outputs-next s start k i l e = rw e refl

-- Lines that are entered into a new shell are noted, as long as fewer than 2 ^ 31 of them are not
-- empty: the count is that of these lines, and at most 50, and `shell_get_history` has each of the
-- last 50 of them, cut to 511 bytes, at its number, counted from 0, modulo 50.
pub shell_get_history-entered :
    (ls : List Text) (i : ℕ)
    → length (kept ls) < 2 ^ 31
    → i < length (kept ls)
    → length (kept ls) ≤ i + history_size
    → (s : Shell) × (entered ls initial_shell ≡ some s)
      × (shell_get_history_count s
          ≡ (if ltb (length (kept ls)) history_size then length (kept ls) else history_size))
      × (shell_get_history s (i % history_size) ≡ some (get_or (kept ls) i []))
unfolding shell_get_history_count
shell_get_history-entered ls i room below recent =
    let (s, done, h) =
      entered-Holds ls [] initial_shell (omega arith)
        (record { counted = refl; slots = λ i below recent. absurd (omega arith) }) in
    (
      s,
      done,
      ap (λ n. if ltb n history_size then n else history_size) h.counted,
      shell_get_history-present s (i % 50) (omega arith) (omega (arith, h.counted))
          ∙ ap some (h.slots i below recent),
    )
