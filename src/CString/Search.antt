-- ===== src/CString/Search.antt =====
-- `strstr` of libc/string.c finds the first place where a text occurs.
use mathlib.Core.Path.{subst, sym}
use alpha_os.Prelude.{
  ℕ, zero, suc, ◌+◌, ◌<◌, ◌≡◌, refl, ap, ◌∙◌, Bool, true, false, ◌&&◌, Option, none, some, [], ◌∷◌,
  arith, ◌==◌, if◌then◌else◌, length, drop, Bool-cases, Option-cases, inl, inr,
}
use alpha_os.Bytes.{Ptr, null, Memory}
use alpha_os.CString.{match_here, strstr_loop, strstr}
use alpha_os.CString.Spec.{Text, IsString}

-- Whether a text begins with `needle`.
abbrev pub starts : (needle s : Text) → Bool
starts [] s = true
starts (d ∷ needle) [] = false
starts (d ∷ needle) (c ∷ s) = (c == d) && starts needle s

-- The first offset at which `needle` stands in a text.
abbrev pub offset_of : (needle s : Text) → Option ℕ
offset_of needle [] = if starts needle [] then some 0 else none
offset_of needle (c ∷ s) =
    if starts needle (c ∷ s)
    then some 0
    else elim (offset_of needle s) [ none ↦ none | some i ↦ some (i + 1) ]

match_here_lem :
    (s needle : Text) (fuel : ℕ) (h n : Ptr) (m : Memory)
    → IsString m h s
    → IsString m n needle
    → length s < fuel
    → match_here fuel h n m ≡ some (starts needle s)
unfolding match_here
match_here_lem s needle zero h n m hs hn lt = absurd (omega arith)
match_here_lem [] [] (suc f) h n m hs hn lt = ground arith
match_here_lem [] (d ∷ needle) (suc f) h n m hs hn lt = ground arith
match_here_lem (c ∷ s) [] (suc f) h n m hs hn lt = ground arith
match_here_lem (c ∷ s) (d ∷ needle) (suc f) h n m (is_c, ne_c, hs) (is_d, ne_d, hn) lt =
    ground (arith, match_here_lem s needle f (h + 1) (n + 1) m hs hn (omega arith))

-- The address at an offset, or a null pointer.
abbrev pub place : Ptr → Option ℕ → Ptr
place h none = null
place h (some i) = h + i

chosen :
    (here : Bool) (h : Ptr) (later : Option ℕ)
    → ◌≡◌ {A = Option Ptr} (if here then some h else some (place (h + 1) later)) (
        some
          (place h (if here then some 0 else elim later [ none ↦ none | some i ↦ some (i + 1) ])))
chosen true h later = ap some (omega arith)
chosen false h none = refl
chosen false h (some i) = ap some (omega arith)

strstr_loop_lem :
    (s : Text) (d : ℕ) (needle : Text) (fuel : ℕ) (h n : Ptr) (m : Memory)
    → IsString m h s
    → IsString m n (d ∷ needle)
    → length s < fuel
    → strstr_loop fuel h n m ≡ some (place h (offset_of (d ∷ needle) s))
unfolding strstr_loop
strstr_loop_lem s d needle zero h n m hs hn lt = absurd (omega arith)
strstr_loop_lem [] d needle (suc f) h n m hs hn lt = ground arith
strstr_loop_lem (c ∷ s) d needle (suc f) h n m (is_c, ne_c, hs) hn lt =
    let more : (m h == 0) ≡ false = ground arith in
    let found = match_here_lem (c ∷ s) (d ∷ needle) (suc f) h n m (is_c, ne_c, hs) hn lt in
    let rest = strstr_loop_lem s d needle f (h + 1) n m hs hn (omega arith) in
    rw (more, found, rest) (chosen (starts (d ∷ needle) (c ∷ s)) h (offset_of (d ∷ needle) s))

-- `strstr` of two terminated strings ends, with more fuel than the first has bytes: it gives the address
-- of the first occurrence of the second in the first, or a null pointer where there is none.
pub strstr_lem :
    (s needle : Text) (fuel : ℕ) (h n : Ptr) (m : Memory)
    → IsString m h s
    → IsString m n needle
    → length s < fuel
    → strstr fuel h n m ≡ some (place h (offset_of needle s))
unfolding strstr
strstr_lem [] [] fuel h n m hs hn lt = rw hn (ap some (omega arith))
strstr_lem (c ∷ s) [] fuel h n m hs hn lt = rw hn (ap some (omega arith))
strstr_lem s (d ∷ needle) fuel h n m hs hn lt =
    let given : (m n == 0) ≡ false = ground arith in
    rw given (strstr_loop_lem s d needle fuel h n m hs hn lt)

-- `i` is the first place in a text where the needle stands.
abbrev First : (needle s : Text) → ℕ → Type 0
First needle s i =
    (starts needle (drop i s) ≡ true) × ((j : ℕ) → j < i → starts needle (drop j s) ≡ false)

First-suc :
    (needle : Text) (c : ℕ) (s : Text) (i : ℕ)
    → starts needle (c ∷ s) ≡ false
    → First needle s i
    → First needle (c ∷ s) (suc i)
First-suc needle c s i miss (here, before) = (here, earlier)
  where
    earlier : (j : ℕ) → j < suc i → starts needle (drop j (c ∷ s)) ≡ false
    earlier zero lt = miss
    earlier (suc j) lt = before j (omega arith)

-- What is found is the first occurrence, and where nothing is found there is none.
offset_of-First : (needle s : Text) (i : ℕ) → offset_of needle s ≡ some i → First needle s i
offset_of-First needle [] i e = elim (Bool-cases (starts needle [])) [
  | inl here ↦
      let found : ◌≡◌ {A = Option ℕ} (some 0) (some i) = rw here at e in
      let zero_at : 0 ≡ i = cc in
      subst (First needle []) zero_at (here, λ j lt. absurd (omega arith))
  | inr miss ↦ let nothing : ◌≡◌ {A = Option ℕ} none (some i) = rw miss at e in absurd (cc)
]
offset_of-First needle (c ∷ s) i e = elim (Bool-cases (starts needle (c ∷ s))) [
  | inl here ↦
      let found : ◌≡◌ {A = Option ℕ} (some 0) (some i) = rw here at e in
      let zero_at : 0 ≡ i = cc in
      subst (First needle (c ∷ s)) zero_at (here, λ j lt. absurd (omega arith))
  | inr miss ↦ elim (Option-cases (offset_of needle s)) [
    | inl nowhere ↦
        let nothing : ◌≡◌ {A = Option ℕ} none (some i) = rw (miss, nowhere) at e in absurd (cc)
    | inr (k, later) ↦
        let found : ◌≡◌ {A = Option ℕ} (some (k + 1)) (some i) = rw (miss, later) at e in
        let next : k + 1 ≡ i = cc in
        let same : suc k ≡ i = omega (arith, next) in
        subst (First needle (c ∷ s)) same
          (First-suc needle c s k miss (offset_of-First needle s k later))
  ]
]

-- Where `strstr` finds the second string in the first, it stands there, and at no earlier place.
pub strstr-First :
    (s needle : Text) (fuel i : ℕ) (h n : Ptr) (m : Memory)
    → IsString m h s
    → IsString m n needle
    → length s < fuel
    → 0 < h
    → strstr fuel h n m ≡ some (h + i)
    → First needle s i
strstr-First s needle fuel i h n m hs hn lt ne e = elim (Option-cases (offset_of needle s)) [
  | inl nowhere ↦
      let found : ◌≡◌ {A = Option Ptr} (some null) (some (h + i)) =
        sym (rw nowhere at (strstr_lem s needle fuel h n m hs hn lt)) ∙ e in
      let same : 0 ≡ h + i = cc in absurd (omega arith)
  | inr (k, place_of) ↦
      let found : ◌≡◌ {A = Option Ptr} (some (h + k)) (some (h + i)) =
        sym (rw place_of at (strstr_lem s needle fuel h n m hs hn lt)) ∙ e in
      let sums : h + k ≡ h + i = cc in
      let same : k ≡ i = omega arith in
      subst (First needle s) same (offset_of-First needle s k place_of)
]
