-- ===== src/Strtok/Words.antt =====
-- The words of a text: what the `strtok` loops of kernel/fs.c and kernel/shell.c go through.
use alpha_os.Prelude.{
  ℕ, suc, ◌+◌, ◌≤◌, ◌<◌, length, ◌≡◌, refl, ap, ◌∙◌, false, Option, none, some, List, [], ◌∷◌, ◌++◌,
  arith, Bool-cases, inl, inr, if◌then◌else◌,
}
use mathlib.Core.Path.{subst}
use mathlib.Core.List.{append-nil, append_assoc}
use alpha_os.CString.Spec.{Text}
use alpha_os.Strtok.Spec.{Saved, cut, has, skip, token_of, after, next_text}

-- Puts a word in front of others, unless it is empty.
abbrev pub add_word : Text → List Text → List Text
add_word [] ws = ws
add_word (c ∷ w) ws = (c ∷ w) ∷ ws

-- The maximal pieces without a delimiter, `cur` being the piece that has been read so far.
unfoldable pub words_from : Text → Text → Text → List Text
words_from ds cur [] = add_word cur []
words_from ds cur (c ∷ s) =
    let cut_here = add_word cur (words_from ds [] s) in
    let go_on = words_from ds (cur ++ c ∷ []) s in if has c ds then cut_here else go_on

unfoldable pub words : Text → Text → List Text
unfolding words_from
words ds s = words_from ds [] s

unfoldable pub words_of : Text → Saved → List Text
unfolding words
words_of ds none = []
words_of ds (some s) = words ds s

words_from-token :
    (ds cur s : Text)
    → words_from ds cur s ≡ add_word (cur ++ token_of ds s) (words_of ds (after ds s))
unfolding words_of token_of after
words_from-token ds cur [] = rw append-nil
words_from-token ds cur (c ∷ s) = elim (Bool-cases (has c ds)) [
  | inl hit ↦ rw (hit, append-nil)
  | inr miss ↦ rw miss (
      words_from-token ds (cur ++ c ∷ []) s
      ∙ ap (λ u. add_word u (words_of ds (after ds s))) (append_assoc cur (c ∷ []) (token_of ds s)))
]

words-skip : (ds s : Text) → words ds (skip ds s) ≡ words ds s
unfolding words skip
words-skip ds [] = refl
words-skip ds (c ∷ s) = elim (Bool-cases (has c ds)) [
  | inl hit ↦ rw hit (words-skip ds s)
  | inr miss ↦ ground arith
]

-- What is left after skipping begins with no delimiter.
skip-head : (ds s : Text) (c : ℕ) (u : Text) → skip ds s ≡ c ∷ u → has c ds ≡ false
unfolding skip
skip-head ds [] c u e = cc
skip-head ds (x ∷ s) c u e = elim (Bool-cases (has x ds)) [
  | inl hit ↦ skip-head ds s c u (rw hit at e)
  | inr miss ↦ ground arith
]

-- A result of `strtok` on a text whose words are `ws`.
abbrev pub Yields : Text → List Text → Option Text × Saved → Type 0
Yields ds ws (none, rest) = (ws ≡ []) × (rest ≡ none)
Yields ds ws (some w, rest) = ws ≡ w ∷ words_of ds rest

cut-Yields :
    (ds u : Text)
    → ((c : ℕ) (v : Text) → u ≡ c ∷ v → has c ds ≡ false)
    → Yields ds (words ds u) (cut ds u)
unfolding words token_of
cut-Yields ds [] head = (refl, refl)
cut-Yields ds (c ∷ v) head =
    let miss : has c ds ≡ false = head c v refl in words_from-token ds [] (c ∷ v) ∙ rw miss refl

-- `strtok` yields the words of its text one after the other: the first word and, in `saved_str`,
-- a text whose words are the others; or null and a null `saved_str` if there is no word.
pub next_text-words : (ds : Text) (t : Saved) → Yields ds (words_of ds t) (next_text ds t)
unfolding words_of next_text
next_text-words ds none = (refl, refl)
next_text-words ds (some s) =
    let y : Yields ds (words ds (skip ds s)) (cut ds (skip ds s)) =
      cut-Yields ds (skip ds s) (skip-head ds s) in
    subst (λ ws. Yields ds ws (cut ds (skip ds s))) (words-skip ds s) y

-- The bytes from `saved_str` on, with the terminator.
abbrev pub saved_size : Saved → ℕ
saved_size none = 0
saved_size (some s) = suc (length s)

-- Each token takes at least one byte.
after-size : (ds s : Text) → saved_size (after ds s) ≤ length s
unfolding after
after-size ds [] = omega arith
after-size ds (c ∷ s) = ground (arith, after-size ds s)

skip-size : (ds s : Text) → length (skip ds s) ≤ length s
unfolding skip
skip-size ds [] = omega arith
skip-size ds (c ∷ s) = ground (arith, skip-size ds s)

cut-size : (ds u : Text) → saved_size (cut ds u).1 ≤ length u
cut-size ds [] = omega arith
cut-size ds (c ∷ u) = after-size ds (c ∷ u)

-- The rounds that are left, at most.
abbrev pub rounds : Option Text → Saved → ℕ
rounds none saved = 0
rounds (some t) saved = saved_size saved + 1

pub next_text-rounds :
    (ds : Text) (saved : Saved)
    → rounds (next_text ds saved).0 (next_text ds saved).1 < saved_size saved + 1
unfolding next_text
next_text-rounds ds none = omega arith
next_text-rounds ds (some s) = go (skip ds s) (skip-size ds s)
  where
    go : (u : Text) → length u ≤ length s → rounds (cut ds u).0 (cut ds u).1 < suc (length s) + 1
    go [] le = omega arith
    go (c ∷ u) le = omega (arith, after-size ds (c ∷ u))
