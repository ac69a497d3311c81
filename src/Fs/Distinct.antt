-- ===== src/Fs/Distinct.antt =====
-- No two entries of the table of kernel/fs.c have one name: `fs_create_file`, `fs_delete_file` and
-- `fs_init`.
use mathlib.Core.Path.{sym, ◌∙◌}
use alpha_os.Prelude.{
  ℕ, ◌≤◌, ◌≡◌, refl, ap, Bool, true, false, ◌&&◌, none, some, List, [], ◌∷◌, ◌++◌, arith,
  Bool-cases, Option, Option-cases, inl, inr, length, take-eq_self, eq_of_bytes_eq,
}
use alpha_os.Prelude.Lists.{bytes_eq}
use alpha_os.CString.Spec.{Text}
use alpha_os.FilePath.{root}
use alpha_os.Fs.{
  Entry, Filesystem, tick, find_entry, new_entry, swap_out, fs_file_exists, fs_create_file,
  fs_delete_file, fs_write_file, write_new, fill_last,
}
use alpha_os.Fs.Lookup.{lookup, count, Distinct, count-append, count_of_lookup, find_entry-Found}
use alpha_os.Fs.Create.{creatable, lookup_of_exists, fs_create_file-refused, fs_create_file-made}
use alpha_os.Fs.Delete.{
  snoc-cases, swap_out-last, swap_out-inner, fs_delete_file-missing, fs_delete_file-present,
}
use alpha_os.Fs.Init.{fs_init}

-- A file whose name is not cut gets a name of its own.
pub fs_create_file-Distinct :
    (fs : Filesystem) (name : Text) (is_directory : ℕ)
    → length name ≤ 127
    → Distinct fs.entries
    → Distinct (fs_create_file fs name is_directory).1.entries
fs_create_file-Distinct fs name d short h q = elim (Bool-cases (creatable fs name)) [
  | inr declined ↦ rw (fs_create_file-refused fs name d declined) (h q)
  | inl allowed ↦
      let fresh : count name fs.entries ≡ 0 =
        count_of_lookup name fs.entries (lookup_of_exists fs name (ground arith)) in
      let entry : Entry = new_entry fs name d (tick fs.system_time) in
      rw
        (
          fs_create_file-made fs name d allowed,
          count-append q fs.entries (entry ∷ []),
          take-eq_self 127 name short,
        )
        (elim (Bool-cases (bytes_eq name q)) [
          | inl same ↦
              let none_yet : count q fs.entries ≡ 0 = rw (eq_of_bytes_eq name q same) at fresh in
              rw (same, none_yet) (omega arith)
          | inr other ↦ rw other (omega (arith, h q))
        ])
]

-- `swap_out` leaves no name more entries than it had.
count-swap_out :
    (name q : Text) (es : List Entry) (i : ℕ) (e : Entry)
    → find_entry name es ≡ some (i, e)
    → count q (swap_out es i) ≤ count q es
count-swap_out name q es i e h =
    let found = find_entry-Found name es i e h in
    elim (snoc-cases found.back) [
      | inl at_end ↦
          let split : es ≡ found.front ++ (e ∷ []) =
            found.split ∙ ap (λ b. found.front ++ (e ∷ b)) at_end in
          rw (split, sym found.index, swap_out-last found.front e)
            (omega (arith, count-append q found.front (e ∷ [])))
      | inr (mid, last, inside) ↦
          let split : es ≡ found.front ++ (e ∷ (mid ++ (last ∷ []))) =
            found.split ∙ ap (λ b. found.front ++ (e ∷ b)) inside in
          rw (split, sym found.index, swap_out-inner found.front mid e last)
            (omega (
              arith,
              count-append q found.front (last ∷ mid),
              count-append q found.front (e ∷ (mid ++ (last ∷ []))),
              count-append q mid (last ∷ []),
            ))
    ]

pub fs_delete_file-Distinct :
    (fs : Filesystem) (name : Text)
    → Distinct fs.entries
    → Distinct (fs_delete_file fs name).1.entries
fs_delete_file-Distinct fs name h q = elim (Option-cases (find_entry name fs.entries)) [
  | inl nowhere ↦ rw (fs_delete_file-missing fs name nowhere) (h q)
  | inr ((i, e), found) ↦
      let fewer = count-swap_out name q fs.entries i e found in
      rw (fs_delete_file-present fs name i e found) (elim (Bool-cases (bytes_eq name root)) [
        | inl at_root ↦ rw at_root (h q)
        | inr inner ↦ rw inner (omega (arith, fewer, h q))
      ])
]

is_none : Option Entry → Bool
is_none none = true
is_none (some e) = false

-- A test for a table that is written out.
all_fresh : List Entry → Bool
unfolding is_none
all_fresh [] = true
all_fresh (e ∷ es) = is_none (lookup e.filename es) && all_fresh es

none_of : (o : Option Entry) → is_none o ≡ true → o ≡ none
unfolding is_none
none_of none h = refl
none_of (some e) h = absurd (cc)

Distinct-all_fresh : (es : List Entry) → all_fresh es ≡ true → Distinct es
unfolding all_fresh
Distinct-all_fresh [] h q = omega arith
Distinct-all_fresh (e ∷ es) h q =
    let rest : count q es ≤ 1 = Distinct-all_fresh es (ground (arith, h)) q in
    let fresh : count e.filename es ≡ 0 =
      count_of_lookup e.filename es (none_of _ (ground (arith, h))) in
    elim (Bool-cases (bytes_eq e.filename q)) [
      | inl same ↦
          let none_left : count q es ≡ 0 = rw (eq_of_bytes_eq e.filename q same) at fresh in
          rw (same, none_left) (omega arith)
      | inr other ↦ rw other (omega (arith, rest))
    ]

pub fs_init-Distinct : (fs : Filesystem) → Distinct (fs_init fs).entries
unfolding all_fresh is_none fs_init fs_create_file fs_write_file find_entry fs_file_exists write_new
    fill_last bytes_eq
fs_init-Distinct fs = Distinct-all_fresh (fs_init fs).entries refl
