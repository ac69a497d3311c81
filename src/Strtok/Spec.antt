-- ===== src/Strtok/Spec.antt =====
-- `strtok` on texts: what a call yields, and what it leaves for the next call.
use alpha_os.Prelude.{ℕ, Bool, false, ◌||◌, Option, none, some, [], ◌∷◌, ◌==◌, if◌then◌else◌}
use alpha_os.CString.Spec.{Text}

-- Whether the text has the byte.
unfoldable pub has : ℕ → Text → Bool
has c [] = false
has c (x ∷ s) = (x == c) || has c s

-- What `saved_str` points to; `none` is the null pointer.
abbrev pub Saved : Type 0
Saved = Option Text

-- The longest suffix that begins with no delimiter.
unfoldable pub skip : Text → Text → Text
skip ds [] = []
skip ds (c ∷ s) = let rest = skip ds s in if has c ds then rest else c ∷ s

-- The bytes before the first delimiter, and what follows that delimiter, if there is one.
unfoldable pub token_of : Text → Text → Text
token_of ds [] = []
token_of ds (c ∷ s) = if has c ds then [] else c ∷ token_of ds s

unfoldable pub after : Text → Text → Saved
after ds [] = none
after ds (c ∷ s) = let rest = after ds s in if has c ds then some s else rest

-- A call of `strtok` that goes on with `saved`: the token, if any, and the new `saved`.
abbrev pub cut : Text → Text → Option Text × Saved
cut ds [] = (none, none)
cut ds (c ∷ s) = (some (token_of ds (c ∷ s)), after ds (c ∷ s))

unfoldable pub next_text : Text → Saved → Option Text × Saved
next_text ds none = (none, none)
next_text ds (some s) = cut ds (skip ds s)
