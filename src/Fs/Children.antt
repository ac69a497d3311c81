-- ===== src/Fs/Children.antt =====
-- Direct children by their names, and what the loop of `fs_list_directory` of kernel/fs.c takes for one.
use mathlib.Core.Path.{sym, ◌∙◌}
use alpha_os.Prelude.{
  ℕ, ◌+◌, ◌≡◌, refl, ap, true, false, ◌&&◌, not, Option, none, some, List, [], ◌∷◌, ◌++◌, arith,
  append_assoc, Bool-cases, inl, inr, if◌then◌else◌, ltb, ◌==◌, eq_of_bytes_eq, length, take, drop,
}
use alpha_os.Prelude.Lists.{bytes_eq}
use alpha_os.CString.Spec.{Text}
use alpha_os.Strtok.Spec.{has}
use alpha_os.FilePath.{slash}
use alpha_os.Fs.{Entry, is_child, listed}

-- What follows a first text.
abbrev rest_of : (first name : Text) → Option Text
rest_of [] name = some name
rest_of (d ∷ ds) [] = none
rest_of (d ∷ ds) (c ∷ cs) = if c == d then rest_of ds cs else none

-- A name of one component: not empty, and without a slash.
abbrev one_component : Text → Option Text
one_component [] = none
one_component (c ∷ cs) = if has slash (c ∷ cs) then none else some (c ∷ cs)

-- The component that a name has behind a directory's, where it has exactly one.
abbrev pub child_name : (dirname name : Text) → Option Text
child_name dirname name = elim (rest_of dirname name) [ none ↦ none | some r ↦ one_component r ]

-- The line for an entry: where it is a child its component, and a slash for a directory.
abbrev pub child_line : (dirname : Text) → Entry → Text
child_line dirname e = elim (child_name dirname e.filename) [
  | none ↦ []
  | some name ↦ name ++ ((if e.is_directory == 0 then [] else slash ∷ []) ++ 10 ∷ [])
]

-- The lines of the children, in the order of the table.
abbrev pub child_lines : (dirname : Text) → List Entry → Text
child_lines dirname [] = []
child_lines dirname (e ∷ es) = child_line dirname e ++ child_lines dirname es

-- Two bytes and a name for each child.
abbrev pub child_bytes : (dirname : Text) → List Entry → ℕ
child_bytes dirname [] = 0
child_bytes dirname (e ∷ es) =
    elim (child_name dirname e.filename) [ none ↦ 0 | some name ↦ length name + 2 ]
    + child_bytes dirname es

rest_of_lem :
    (first name : Text)
    → rest_of first name ≡ (
        if bytes_eq (take (length first) name) (take (length first) first)
        then some (drop (length first) name)
        else none)
unfolding bytes_eq
rest_of_lem [] name = refl
rest_of_lem (d ∷ ds) [] = refl
rest_of_lem (d ∷ ds) (c ∷ cs) = elim (Bool-cases (c == d)) [
  | inl same ↦ rw same (rest_of_lem ds cs)
  | inr other ↦ rw other refl
]

drop_all : (s : Text) → drop (length s) s ≡ []
drop_all [] = refl
drop_all (c ∷ s) = drop_all s

-- A text with a byte behind a first one is not that one.
not_itself :
    (dirname name : Text)
    → ltb 0 (length (drop (length dirname) name)) ≡ true
    → bytes_eq name dirname ≡ false
not_itself dirname name more = elim (Bool-cases (bytes_eq name dirname)) [
  | inr other ↦ other
  | inl same ↦
      let e : drop (length dirname) name ≡ [] =
        ap (drop (length dirname)) (eq_of_bytes_eq name dirname same) ∙ drop_all dirname in
      let none_left : length (drop (length dirname) name) ≡ 0 = ap length e in
      absurd (ground (arith, none_left, more))
]

one_component_lem :
    (r : Text) → one_component r ≡ (if not (has slash r) && ltb 0 (length r) then some r else none)
unfolding has
one_component_lem [] = refl
one_component_lem (c ∷ cs) =
    let more : ltb 0 (length (c ∷ cs)) ≡ true = ground arith in
    elim (Bool-cases (has slash (c ∷ cs))) [
      | inl inner ↦ rw inner refl
      | inr plain ↦ rw (plain, more) refl
    ]

-- The test of the code is true exactly for the children.
pub is_child-child_name :
    (dirname name : Text)
    → child_name dirname name
      ≡ (if is_child dirname name then some (drop (length dirname) name) else none)
unfolding is_child
is_child-child_name dirname name =
    let rest : Text = drop (length dirname) name in
    rw (child_name, rest_of_lem dirname name)
      (elim (Bool-cases (bytes_eq (take (length dirname) name) (take (length dirname) dirname))) [
        | inr elsewhere ↦ rw elsewhere (elim (Bool-cases (bytes_eq name dirname)) [
          | inl same ↦ rw same refl
          | inr other ↦ rw other refl
        ])
        | inl inside ↦
            rw (inside, one_component_lem rest)
              (elim (Bool-cases (ltb 0 (length rest))) [
                | inl more ↦ rw (more, not_itself dirname name more) refl
                | inr nothing ↦ rw nothing (elim (Bool-cases (bytes_eq name dirname)) [
                  | inl same ↦
                      rw same (elim (Bool-cases (has slash rest)) [
                        | inl h ↦ rw h refl
                        | inr h ↦ rw h refl
                      ])
                  | inr other ↦
                      rw other (elim (Bool-cases (has slash rest)) [
                        | inl h ↦ rw h refl
                        | inr h ↦ rw h refl
                      ])
                ])
              ])
      ])

pub child_line-child :
    (dirname : Text) (e : Entry)
    → is_child dirname e.filename ≡ true
    → (child_line dirname e ≡ listed dirname e ++ 10 ∷ [])
unfolding listed
child_line-child dirname e child =
    let name : Text = drop (length dirname) e.filename in
    let found : child_name dirname e.filename ≡ some name =
      is_child-child_name dirname e.filename ∙ rw child refl in
    rw (child_line, found)
      (sym (append_assoc name (if e.is_directory == 0 then [] else slash ∷ []) (10 ∷ [])))

pub child_line-other :
    (dirname : Text) (e : Entry) → is_child dirname e.filename ≡ false → child_line dirname e ≡ []
child_line-other dirname e other =
    let no_name : child_name dirname e.filename ≡ none =
      is_child-child_name dirname e.filename ∙ rw other refl in
    rw (child_line, no_name) refl
