-- ===== src/Fs/Unlisted.antt =====
-- Entries that `fs_list_directory` of kernel/fs.c never lists: those whose names end with a slash, as
-- the names of the directories that `mkdir` makes do.
use mathlib.Core.Path.{sym, ◌∙◌}
use alpha_os.Prelude.{
  ℕ, zero, suc, ◌+◌, ◌-◌, ◌≤◌, ◌<◌, ◌≡◌, refl, ap, true, false, Option, none, some, List, [], ◌∷◌,
  ◌++◌, arith, Bool-cases, inl, inr, ltb, ◌==◌, length, take, drop, get_or, take-eq_self,
}
use alpha_os.CString.{◌>>=◌}
use alpha_os.CString.Spec.{Text}
use alpha_os.Strtok.Spec.{Saved, has}
use alpha_os.FilePath.{slash, ends_with_slash, fs_normalize_path}
use alpha_os.Fs.{
  Entry, Filesystem, tick, new_entry, fs_create_file, add_slash, is_child, listed, list_loop,
  fs_list_directory,
}
use alpha_os.Fs.Create.{creatable, fs_create_file-refused, fs_create_file-made}

has_at : (s : Text) (i : ℕ) → (get_or s i 0 == slash) ≡ true → has slash s ≡ true
unfolding has
has_at [] i h = absurd (ground (arith, h))
has_at (c ∷ s) zero h = rw h refl
has_at (c ∷ s) (suc i) h = ground (arith, has_at s i h)

get_or-drop : (n : ℕ) (s : Text) (i : ℕ) → get_or (drop n s) i 0 ≡ get_or s (n + i) 0
get_or-drop zero s i = ap (λ k. get_or s k 0) (omega arith)
get_or-drop (suc n) [] i = refl
get_or-drop (suc n) (c ∷ s) i =
    let e : suc n + i ≡ suc (n + i) = omega arith in
    get_or-drop n s i ∙ sym (ap (λ k. get_or (c ∷ s) k 0) e)

length-drop : (n : ℕ) (s : Text) → length (drop n s) ≡ length s - n
length-drop zero s = omega arith
length-drop (suc n) [] = omega arith
length-drop (suc n) (c ∷ s) = omega (arith, length-drop n s)

-- Such a name is no direct child of any directory: behind the directory's name stands nothing, or a text
-- with a slash.
not_child : (dirname name : Text) → ends_with_slash name ≡ true → is_child dirname name ≡ false
unfolding is_child
not_child dirname name ends =
    let n : ℕ = length dirname in
    elim (Bool-cases (ltb 0 (length (drop n name)))) [
      | inr nothing ↦ rw nothing (ground arith)
      | inl more ↦
          let inside : n < length name = ground (arith, length-drop n name) in
          let same : n + (length name - 1 - n) ≡ length name - 1 = omega arith in
          let last : (get_or (drop n name) (length name - 1 - n) 0 == slash) ≡ true =
            rw (get_or-drop n name (length name - 1 - n), same) ends in
          rw (has_at (drop n name) (length name - 1 - n) last) (ground arith)
    ]

list_loop-append :
    (dirname : Text) (size : ℕ) (es : List Entry) (e : Entry) (buffer : Text)
    → is_child dirname e.filename ≡ false
    → list_loop dirname size (es ++ (e ∷ [])) buffer ≡ list_loop dirname size es buffer
unfolding list_loop
list_loop-append dirname size [] e buffer h = rw h refl
list_loop-append dirname size (f ∷ es) e buffer h =
    let skip = list_loop-append dirname size es e buffer h in
    let add = list_loop-append dirname size es e (buffer ++ (listed dirname f ++ (10 ∷ []))) h in
    rw (skip, add) refl

list-entries :
    (fs fs' : Filesystem) (dirname : Text) (size : ℕ)
    → ((path : Text)
        → list_loop (add_slash path) size fs'.entries []
          ≡ list_loop (add_slash path) size fs.entries [])
    → fs_list_directory fs' dirname size ≡ fs_list_directory fs dirname size
unfolding fs_list_directory
list-entries fs fs' dirname size same = go (fs_normalize_path dirname)
  where
    go :
        (o : Option (Text × Saved))
        → ◌≡◌ {A = Option (ℕ × Text × Saved)}
            (o >>= λ (normalized, saved).
              let buffer = list_loop (add_slash normalized) size fs'.entries [] in
              some (length buffer, take (length buffer - 1) buffer, saved))
            (o >>= λ (normalized, saved).
              let buffer = list_loop (add_slash normalized) size fs.entries [] in
              some (length buffer, take (length buffer - 1) buffer, saved))
    go none = refl
    go (some (normalized, saved)) = rw (same normalized) refl

-- A file whose name ends with a slash changes no listing when it is created: `fs_list_directory` gives
-- the same for every directory before and after, for names of at most 127 bytes.
pub fs_list_directory-created :
    (fs : Filesystem) (name : Text) (is_directory : ℕ) (dirname : Text) (size : ℕ)
    → length name ≤ 127
    → ends_with_slash name ≡ true
    → fs_list_directory (fs_create_file fs name is_directory).1 dirname size
      ≡ fs_list_directory fs dirname size
fs_list_directory-created fs name d dirname size short ends =
    elim (Bool-cases (creatable fs name)) [
      | inr declined ↦
          ap (λ r. fs_list_directory r.1 dirname size) (fs_create_file-refused fs name d declined)
      | inl allowed ↦
          let e : Entry = new_entry fs name d (tick fs.system_time) in
          let named : e.filename ≡ name = take-eq_self 127 name short in
          ap (λ r. fs_list_directory r.1 dirname size) (fs_create_file-made fs name d allowed)
          ∙ list-entries fs
              (record fs { entries = fs.entries ++ (e ∷ []); system_time = tick fs.system_time })
              dirname size
              (λ path.
                list_loop-append (add_slash path) size fs.entries e []
                  (rw named (not_child (add_slash path) name ends)))
    ]
