-- ===== src/FilePath/Normal.antt =====
-- What `fs_normalize_path` of kernel/fs.c writes: normal paths.
use alpha_os.Prelude.{
  ℕ, suc, ◌+◌, ◌≤◌, ◌<◌, ◌≡◌, refl, false, List, [], ◌∷◌, ◌++◌, arith, ltb, Bool-cases, inl, inr,
  bytes_eq, length,
}
use alpha_os.CString.Spec.{Text}
use alpha_os.Strtok.Spec.{has}
use alpha_os.Strtok.Words.{add_word, words_from, words}
use alpha_os.FilePath.{Components, slash, root, dot, dot_dot, max_path_depth, step}
use alpha_os.FilePath.Resolve.{resolve}
use alpha_os.FilePath.Render.{AllComponents, weight}

-- Every word is a piece without a slash that is not empty.
abbrev pub AllWords : List Text → Type 0
AllWords [] = Unit {0}
AllWords (w ∷ ws) = (has slash w ≡ false) × (0 < length w) × AllWords ws

add_word-AllWords :
    (w : Text) (ws : List Text) → has slash w ≡ false → AllWords ws → AllWords (add_word w ws)
add_word-AllWords [] ws clean ok = ok
add_word-AllWords (c ∷ w) ws clean ok = (clean, omega arith, ok)

has-append :
    (cur : Text) (c : ℕ)
    → has slash cur ≡ false
    → has c root ≡ false
    → has slash (cur ++ c ∷ []) ≡ false
unfolding has
has-append [] c clean miss = ground arith
has-append (x ∷ cur) c clean miss = ground (arith, has-append cur c)

words_from-AllWords : (cur s : Text) → has slash cur ≡ false → AllWords (words_from root cur s)
unfolding words_from
words_from-AllWords cur [] clean = add_word-AllWords cur [] clean tt
words_from-AllWords cur (c ∷ s) clean = elim (Bool-cases (has c root)) [
  | inl cut ↦ rw cut (
      add_word-AllWords cur (words_from root [] s) clean
        (words_from-AllWords [] s (unfold has in refl)))
  | inr more ↦ rw more (words_from-AllWords (cur ++ c ∷ []) s (has-append cur c clean more))
]

pub words-AllWords : (s : Text) → AllWords (words root s)
unfolding words
words-AllWords s = words_from-AllWords [] s (unfold has in refl)

-- One word keeps the components normal, and adds at most itself to their weight.
step-AllComponents :
    (cs : Components) (t : Text)
    → has slash t ≡ false
    → 0 < length t
    → AllComponents cs
    → AllComponents (step cs t)
unfolding step
step-AllComponents cs t clean pos ok = elim (Bool-cases (bytes_eq t dot)) [
  | inl is_dot ↦ rw is_dot ok
  | inr not_dot ↦ elim (Bool-cases (bytes_eq t dot_dot)) [
    | inl up ↦ rw (not_dot, up) (parent cs ok)
    | inr down ↦
        rw (not_dot, down)
          (record { no_slash = clean; not_empty = pos; not_dot = not_dot; not_dot_dot = down }, ok)
  ]
]
  where
    parent :
        (cs : Components) → AllComponents cs → AllComponents (elim cs [ [] ↦ [] | c ∷ rest ↦ rest ])
    parent [] ok = tt
    parent (c ∷ cs) ok = ok.1

step-size :
    (cs : Components) (t : Text)
    → (length (step cs t) ≤ suc (length cs)) × (weight (step cs t) ≤ suc (length t) + weight cs)
unfolding step
step-size [] t = ground arith
step-size (c ∷ cs) t = ground arith

pub resolve-AllComponents :
    (cs : Components) (ws : List Text)
    → AllWords ws
    → AllComponents cs
    → AllComponents (resolve cs ws)
unfolding resolve
resolve-AllComponents cs [] words ok = ok
resolve-AllComponents cs (t ∷ ws) (clean, pos, words) ok =
    elim (Bool-cases (ltb (length cs) max_path_depth)) [
      | inl room ↦
          rw room
            (resolve-AllComponents (step cs t) ws words (step-AllComponents cs t clean pos ok))
      | inr full ↦ rw full ok
    ]

pub resolve-size :
    (cs : Components) (ws : List Text)
    → length cs ≤ max_path_depth
    → (length (resolve cs ws) ≤ max_path_depth) × (weight (resolve cs ws) ≤ weight cs + weight ws)
unfolding resolve
resolve-size cs [] le = (le, omega arith)
resolve-size cs (t ∷ ws) le = elim (Bool-cases (ltb (length cs) max_path_depth)) [
  | inl room ↦
      let (short, light) = step-size cs t in
      let below : length cs < max_path_depth = ground arith in
      let (short', light') = resolve-size (step cs t) ws (omega arith) in
      rw room (short', omega arith)
  | inr full ↦ rw full (le, omega arith)
]
