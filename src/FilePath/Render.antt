-- ===== src/FilePath/Render.antt =====
-- Words of texts that are put together with slashes, as the paths of kernel/fs.c are.
use mathlib.Core.Path.{subst, ◌∙◌}
use mathlib.Core.List.{append-nil, append_assoc}
use alpha_os.Prelude.{
  ℕ, suc, ◌+◌, ◌≤◌, ◌<◌, ◌≡◌, refl, ap, true, false, List, [], ◌∷◌, ◌++◌, arith, Bool-cases, inl,
  inr, bytes_eq, length, length-append,
}
use alpha_os.CString.Spec.{Text}
use alpha_os.Strtok.Spec.{has}
use alpha_os.Strtok.Words.{add_word, words_from, words}
use alpha_os.FilePath.{Components, slash, root, dot, dot_dot, rebuild, render}

add_word-append : (w : Text) (xs ys : List Text) → add_word w (xs ++ ys) ≡ add_word w xs ++ ys
add_word-append [] xs ys = refl
add_word-append (c ∷ w) xs ys = refl

module _ (ds : Text) where
  -- A piece with no delimiter is read whole.
  words_from-piece :
      (cur w : Text)
      → ((c : ℕ) → has c w ≡ true → has c ds ≡ false)
      → words_from ds cur w ≡ add_word (cur ++ w) []
  unfolding words_from has
  words_from-piece cur [] clean = rw append-nil
  words_from-piece cur (c ∷ w) clean =
      let here : has c ds ≡ false = clean c (ground arith) in
      rw here (
        words_from-piece (cur ++ c ∷ []) w (λ x h. clean x (ground arith))
        ∙ ap (λ u. add_word u []) (append_assoc cur (c ∷ []) w))

  -- The words on the two sides of a delimiter.
  words_from-append :
      (cur s : Text) (d : ℕ) (t : Text)
      → has d ds ≡ true
      → words_from ds cur (s ++ (d ∷ t)) ≡ words_from ds cur s ++ words ds t
  unfolding words_from words
  words_from-append cur [] d t hit = rw hit (add_word-append cur [] (words_from ds [] t))
  words_from-append cur (c ∷ s) d t hit = elim (Bool-cases (has c ds)) [
    | inl cut ↦ rw cut (
        ap (add_word cur) (words_from-append [] s d t hit)
        ∙ add_word-append cur (words_from ds [] s) (words_from ds [] t))
    | inr more ↦ rw more (words_from-append (cur ++ c ∷ []) s d t hit)
  ]

-- What `fs_normalize_path` keeps: a piece with no slash that is not empty, `.` or `..`.
pub record IsComponent (c : Text) : Type 0 where
  pub no_slash : has slash c ≡ false
  pub not_empty : 0 < length c
  pub not_dot : bytes_eq c dot ≡ false
  pub not_dot_dot : bytes_eq c dot_dot ≡ false

abbrev pub AllComponents : Components → Type 0
AllComponents [] = Unit {0}
AllComponents (c ∷ cs) = IsComponent c × AllComponents cs

-- The other end first.
abbrev pub reversed : Components → List Text
reversed [] = []
reversed (c ∷ cs) = reversed cs ++ (c ∷ [])

slash_in_root : (c : ℕ) → has c root ≡ true → c ≡ slash
unfolding has
slash_in_root c h = ground arith

no_delimiter : (w : Text) → has slash w ≡ false → (c : ℕ) → has c w ≡ true → has c root ≡ false
no_delimiter w clean c h = elim (Bool-cases (has c root)) [
  | inl hit ↦ let same : c ≡ slash = slash_in_root c hit in cc (subst (λ x. has x w ≡ true) same h)
  | inr miss ↦ miss
]

add_word_of_nonempty : (w : Text) (ws : List Text) → 0 < length w → add_word w ws ≡ w ∷ ws
add_word_of_nonempty [] ws h = absurd (omega arith)
add_word_of_nonempty (c ∷ w) ws h = refl

-- A component is one word.
pub words_of_component : (c : Text) → has slash c ≡ false → 0 < length c → words root c ≡ c ∷ []
unfolding words
words_of_component c clean pos =
    words_from-piece root [] c (no_delimiter c clean) ∙ add_word_of_nonempty c [] pos

slash-hit : has slash root ≡ true
unfolding has
slash-hit = refl

-- The words of two texts that are joined by a slash.
pub words-append : (s t : Text) → words root (s ++ (slash ∷ t)) ≡ words root s ++ words root t
unfolding words
words-append s t = words_from-append root [] s slash t slash-hit

-- The words of a rebuilt path are its components, the first one first.
pub words-rebuild : (cs : Components) → AllComponents cs → words root (rebuild cs) ≡ reversed cs
unfolding rebuild
words-rebuild [] ok = unfold words words_from in refl
words-rebuild (c ∷ cs) ok =
    words-append (rebuild cs) c
    ∙ (ap (λ l. l ++ words root c) (words-rebuild cs ok.1)
        ∙ ap (λ l. reversed cs ++ l) (words_of_component c ok.0.no_slash ok.0.not_empty))

pub words-render : (cs : Components) → AllComponents cs → words root (render cs) ≡ reversed cs
unfolding render
words-render [] ok = unfold words words_from has in refl
words-render (c ∷ cs) ok = words-rebuild (c ∷ cs) ok

-- Components with the slash in front of each.
abbrev pub weight : List Text → ℕ
weight [] = 0
weight (c ∷ cs) = suc (length c) + weight cs

pub length-rebuild : (cs : Components) → length (rebuild cs) ≡ weight cs
unfolding rebuild
length-rebuild [] = refl
length-rebuild (c ∷ cs) =
    omega (arith, length-append {0} (rebuild cs) (slash ∷ c), length-rebuild cs)

add_word-weight : (w : Text) (ws : List Text) → weight (add_word w ws) ≤ suc (length w) + weight ws
add_word-weight [] ws = omega arith
add_word-weight (c ∷ w) ws = omega arith

add_word-bound :
    (w : Text) (ws : List Text) (n : ℕ)
    → weight ws ≤ 0 + n + 1
    → weight (add_word w ws) ≤ length w + suc n + 1
add_word-bound [] ws n le = omega arith
add_word-bound (c ∷ w) ws n le = omega arith

-- The words take no more room than the text and one slash.
pub words_from-weight : (ds cur s : Text) → weight (words_from ds cur s) ≤ length cur + length s + 1
unfolding words_from
words_from-weight ds cur [] = omega (arith, add_word-weight cur [])
words_from-weight ds cur (c ∷ s) = elim (Bool-cases (has c ds)) [
  | inl cut ↦
      rw cut (add_word-bound cur (words_from ds [] s) (length s) (words_from-weight ds [] s))
  | inr more ↦
      rw more
        (omega (arith, words_from-weight ds (cur ++ c ∷ []) s, length-append {0} cur (c ∷ [])))
]
