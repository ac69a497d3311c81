-- ===== src/Strtok/Refine.antt =====
-- `strtok` of libc/string.c over the byte memory does on pointers what `next_text` does on texts.
use mathlib.Core.Path.{subst, sym}
use alpha_os.Prelude.{
  ℕ, ◌+◌, ◌≤◌, ◌<◌, ◌≡◌, ◌≢◌, refl, ◌⊎◌, true, false, Option, none, some, [], ◌∷◌, arith, ◌==◌,
  Bool-cases, inl, inr, if◌then◌else◌, length,
}
use alpha_os.Bytes.{Ptr, null, Memory, poke}
use alpha_os.CString.Spec.{Text, IsString, IsString-frame}
use alpha_os.Strtok.{Outcome, scan_loop, cut_token, next_token, strtok}
use alpha_os.Strtok.Spec.{Saved, cut, has, skip, token_of, after, next_text}
use alpha_os.Strtok.Scan.{skip_loop_lem, token_loop_lem}

-- `saved_str` is null, or points to what is left.
abbrev pub SavedAt : Memory → Ptr → Saved → Type 0
SavedAt m p none = p ≡ null
SavedAt m p (some r) = IsString m p r × (0 < p)

-- A pointer result that is null, or points to the token.
abbrev pub TokenAt : Memory → Ptr → Option Text → Type 0
TokenAt m p none = p ≡ null
TokenAt m p (some t) = IsString m p t × (0 < p)

-- The string at `p` is one token, or a delimiter at `e` ends it and `r` follows.
abbrev Ends : Text → Memory → Ptr → Ptr → Text → Type 0
Ends ds m p e s =
    ((after ds s ≡ none) × (m e ≡ 0) × IsString m p (token_of ds s))
    ⊎ ((r : Text) × (after ds s ≡ some r)
        × (m e ≢ 0)
        × IsString (poke m e 0) p (token_of ds s)
        × IsString (poke m e 0) (e + 1) r
        × (e ≤ p + length s))

Ends_lem :
    (ds s : Text) (m : Memory) (p e : Ptr)
    → IsString m p s
    → e ≡ p + length (token_of ds s)
    → Ends ds m p e s
unfolding after token_of poke
Ends_lem ds [] m p e h eq = inl (refl, ground arith, ground arith)
Ends_lem ds (c ∷ s) m p e h eq = elim (Bool-cases (has c ds)) [
  | inl hit ↦
      let here : e ≡ p = ground (arith, eq) in
      let tail : IsString (poke m e 0) (e + 1) s =
        IsString-frame s m (poke m e 0) (e + 1) (subst (λ a. IsString m (a + 1) s) (sym here) h.2)
          λ a lo hi. ground arith in
      rw hit (inr (s, refl, ground arith, ground arith, tail, omega arith))
  | inr miss ↦
      let behind : e ≡ p + 1 + length (token_of ds s) = ground (arith, eq) in
      elim (Ends_lem ds s m (p + 1) e h.2 behind) [
        | inl (last, zero_at, str) ↦ rw miss (inl (last, zero_at, (h.0, h.1, str)))
        | inr (r, more, ne, str, tail, le) ↦
            rw miss (inr (r, more, ne, (ground arith, h.1, str), tail, omega arith))
      ]
]

length-skip : (ds s : Text) → length (skip ds s) ≤ length s
unfolding skip
length-skip ds [] = omega arith
length-skip ds (c ∷ s) = ground (arith, length-skip ds s)

-- The text that a saved pointer stands for.
abbrev pub saved_text : Saved → Text
saved_text none = []
saved_text (some s) = s

-- The delimiters are `ds`, at the address `q`; `fuel` is above their number.
module _ (ds : Text) (q : Ptr) (fuel : ℕ) (m : Memory) (delims : IsString m q ds) (ne_null : 0 < q)
    (enough : length ds < fuel) where
  cut_token_lem :
      (s : Text) (p : Ptr)
      → IsString m p s
      → 0 < p
      → length s < fuel
      → (saved' : Ptr) × (m' : Memory) × (cut_token fuel p q m ≡ some (p, saved', m'))
        × IsString m' p (token_of ds s)
        × SavedAt m' saved' (after ds s)
        × ((a : Ptr) → (a < p) ⊎ (p + length s < a) → m' a ≡ m a)
  unfolding cut_token poke
  cut_token_lem s p h pos lt =
      let e : Ptr = p + length (token_of ds s) in
      let scan = token_loop_lem ds q fuel m delims ne_null enough s fuel p h lt in
      elim (Ends_lem ds s m p e h refl) [
        | inl (last, zero_at, str) ↦
            (null, m, ground (arith, scan), str, rw last refl, λ a away. refl)
        | inr (r, more, ne, str, tail, le) ↦ (
          e + 1,
          poke m e 0,
          ground (arith, scan),
          str,
          rw more (tail, omega arith),
          λ a away. ground arith,
        )
      ]

  -- The result of `strtok` on a string, by what `next_text` yields on the text of that string.
  abbrev pub Result : (p : Ptr) (s : Text) → Option Outcome → Option Text × Saved → Type 0
  Result p s r yields =
      (start : Ptr) × (saved' : Ptr) × (m' : Memory) × (r ≡ some (start, saved', m'))
      × TokenAt m' start yields.0
      × SavedAt m' saved' yields.1
      × ((a : Ptr) → (a < p) ⊎ (p + length s < a) → m' a ≡ m a)

  next_token_lem :
      (s : Text) (p : Ptr)
      → IsString m p s
      → 0 < p
      → length s < fuel
      → Result p s (next_token fuel p q m) (next_text ds (some s))
  unfolding next_token next_text
  next_token_lem s p h pos lt =
      let (p', scan, str, len) = skip_loop_lem ds q fuel m delims ne_null enough s fuel p h lt in
      go (skip ds s) p' scan str len (length-skip ds s)
    where
      go :
          (u : Text) (p' : Ptr)
          → scan_loop fuel fuel true p q m ≡ some p'
          → IsString m p' u
          → p' + length u ≡ p + length s
          → length u ≤ length s
          → Result p s (next_token fuel p q m) (cut ds u)
      go [] p' scan str len le = (null, null, m, ground (arith, scan), refl, refl, λ a away. refl)
      go (c ∷ u) p' scan str len le =
          let (saved', m', e, token, rest, same) =
            cut_token_lem (c ∷ u) p' str (ground arith) (omega arith) in
          (
            p',
            saved',
            m',
            ground (arith, scan),
            (token, ground arith),
            rest,
            λ a away. same a (ground arith),
          )

  -- A call of `strtok`, with a new string or with null to go on with the last one, ends, returns a
  -- pointer to the next token of the text that it scans (or null if there is none), keeps in
  -- `saved_str` a pointer to what follows the token (or null), and writes only inside that string.
  pub strtok_lem :
      (str saved : Ptr) (text : Saved)
      → SavedAt m (if str == null then saved else str) text
      → length (saved_text text) < fuel
      → Result
          (if str == null then saved else str)
          (saved_text text)
          (strtok fuel str q saved m)
          (next_text ds text)
  unfolding strtok next_text
  strtok_lem str saved none at lt = (null, null, m, ground arith, refl, refl, λ a away. refl)
  strtok_lem str saved (some s) (h, pos) lt =
      let from : Ptr = if str == null then saved else str in
      let (start, saved', m', e, token, rest, same) = next_token_lem s from h pos lt in
      let going : (from == null) ≡ false = ground arith in
      (start, saved', m', rw going e, token, rest, same)
