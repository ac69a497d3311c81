-- ===== src/Fs/Lookup.antt =====
-- The table of entries of kernel/fs.c as a finite map from names.
use mathlib.Core.Path.{◌∙◌, subst}
use alpha_os.Prelude.{
  ℕ, ◌+◌, ◌≤◌, ◌≡◌, refl, ap, true, Option, none, some, List, [], ◌∷◌, ◌++◌, arith, Bool-cases,
  Option-cases, inl, inr, if◌then◌else◌, bytes_eq, length,
}
use alpha_os.CString.Spec.{Text}
use alpha_os.Fs.{Entry, find_entry}

-- The first entry with a name.
abbrev pub lookup : Text → List Entry → Option Entry
lookup name [] = none
lookup name (e ∷ es) = if bytes_eq e.filename name then some e else lookup name es

-- How many entries have a name.
abbrev pub count : Text → List Entry → ℕ
count name [] = 0
count name (e ∷ es) = (if bytes_eq e.filename name then 1 else 0) + count name es

-- No two entries have the same name.
abbrev pub Distinct : List Entry → Type 0
Distinct es = (name : Text) → count name es ≤ 1

abbrev pub or_else : Option Entry → Option Entry → Option Entry
or_else none o = o
or_else (some e) o = some e

pub or_else-none : (o : Option Entry) → or_else o none ≡ o
or_else-none none = refl
or_else-none (some e) = refl

pub count-append :
    (name : Text) (xs ys : List Entry) → count name (xs ++ ys) ≡ count name xs + count name ys
count-append name [] ys = omega arith
count-append name (x ∷ xs) ys = omega (arith, count-append name xs ys)

pub lookup-append :
    (name : Text) (xs ys : List Entry)
    → lookup name (xs ++ ys) ≡ or_else (lookup name xs) (lookup name ys)
lookup-append name [] ys = refl
lookup-append name (x ∷ xs) ys = ground (arith, lookup-append name xs ys)

pub lookup_of_count : (name : Text) (es : List Entry) → count name es ≡ 0 → lookup name es ≡ none
lookup_of_count name [] h = refl
lookup_of_count name (e ∷ es) h = ground (arith, lookup_of_count name es)

pub count_of_lookup : (name : Text) (es : List Entry) → lookup name es ≡ none → count name es ≡ 0
count_of_lookup name [] h = refl
count_of_lookup name (e ∷ es) h = ground (arith, count_of_lookup name es)

-- `find_entry` finds an entry exactly where `lookup` does.
pub find_entry-lookup :
    (name : Text) (es : List Entry)
    → lookup name es ≡ elim (find_entry name es) [ none ↦ none | some (i, e) ↦ some e ]
unfolding find_entry
find_entry-lookup name [] = refl
find_entry-lookup name (e ∷ es) = ground (arith, find_entry-lookup name es)

-- What stands before and behind the entry that is found.
pub record Found (name : Text) (es : List Entry) (i : ℕ) (e : Entry) : Type 0 where
  pub front : List Entry
  pub back : List Entry
  pub split : es ≡ front ++ (e ∷ back)
  pub index : length front ≡ i
  pub named : bytes_eq e.filename name ≡ true
  pub first : lookup name front ≡ none

entry_or : Entry → Option (ℕ × Entry) → ℕ × Entry
entry_or d none = (0, d)
entry_or d (some r) = r

pub find_entry-Found :
    (name : Text) (es : List Entry) (i : ℕ) (e : Entry)
    → find_entry name es ≡ some (i, e)
    → Found name es i e
unfolding find_entry entry_or
find_entry-Found name [] i e h = absurd (cc)
find_entry-Found name (x ∷ es) i e h = elim (Bool-cases (bytes_eq x.filename name)) [
  | inl hit ↦
      let here : ◌≡◌ {A = Option (ℕ × Entry)} (some (0, x)) (some (i, e)) = rw hit at h in
      let same : ◌≡◌ {A = ℕ × Entry} (0, x) (i, e) = ap (entry_or x) here in
      let same_e : x ≡ e = ap (λ r. r.1) same in
      record {
        front = [];
        back = es;
        split = ap (λ y. y ∷ es) same_e;
        index = ap (λ r. r.0) same;
        named = subst (λ y. bytes_eq y.filename name ≡ true) same_e hit;
        first = refl;
      }
  | inr miss ↦ elim (Option-cases (find_entry name es)) [
    | inl nowhere ↦
        let there : ◌≡◌ {A = Option (ℕ × Entry)} none (some (i, e)) = rw (miss, nowhere) at h in
        absurd (cc)
    | inr ((j, f), eq) ↦
        let there : ◌≡◌ {A = Option (ℕ × Entry)} (some (j + 1, f)) (some (i, e)) =
          rw (miss, eq) at h in
        let same : ◌≡◌ {A = ℕ × Entry} (j + 1, f) (i, e) = ap (entry_or f) there in
        let same_e : f ≡ e = ap (λ r. r.1) same in
        let same_i : j + 1 ≡ i = ap (λ r. r.0) same in
        let rest = find_entry-Found name es j f eq in
        record {
          front = x ∷ rest.front;
          back = rest.back;
          split = ap (λ ys. x ∷ ys) (rest.split ∙ ap (λ y. rest.front ++ (y ∷ rest.back)) same_e);
          index = omega (arith, rest.index);
          named = subst (λ y. bytes_eq y.filename name ≡ true) same_e rest.named;
          first = rw miss rest.first;
        }
  ]
]
