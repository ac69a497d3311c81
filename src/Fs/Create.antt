-- ===== src/Fs/Create.antt =====
-- `fs_create_file` of kernel/fs.c, on the table as a finite map.
use mathlib.Core.Path.{◌∙◌}
use alpha_os.Prelude.{
  bytes_eq_refl, ℕ, ◌≤◌, ◌≡◌, refl, ap, Bool, true, false, ◌&&◌, not, none, some, [], ◌∷◌, ◌++◌,
  arith, ltb, Bool-cases, Option-cases, inl, inr, if◌then◌else◌, bytes_eq, length, take,
  take-eq_self, eq_of_bytes_eq,
}
use alpha_os.Prelude.Int.{pos, negsuc}
use alpha_os.CString.Spec.{Text}
use alpha_os.Fs.{Entry, Filesystem, tick, find_entry, fs_file_exists, new_entry, fs_create_file}
use alpha_os.Fs.Lookup.{lookup, or_else, or_else-none, lookup-append, find_entry-lookup}

-- A file exists where the map has its name.
pub fs_file_exists-lookup :
    (fs : Filesystem) (name : Text)
    → fs_file_exists fs name ≡ elim (lookup name fs.entries) [ none ↦ false | some e ↦ true ]
unfolding fs_file_exists
fs_file_exists-lookup fs name = direct fs name ∙ elim (Option-cases (find_entry name fs.entries)) [
  | inl nowhere ↦ rw (find_entry-lookup name fs.entries, nowhere) refl
  | inr (r, found) ↦ rw (find_entry-lookup name fs.entries, found) refl
]
  where
    direct :
        (fs : Filesystem) (name : Text)
        → fs_file_exists fs name
          ≡ elim (find_entry name fs.entries) [ none ↦ false | some r ↦ true ]
    direct fs name = refl

-- Whether a file can be created.
abbrev pub creatable : Filesystem → Text → Bool
creatable fs name = ltb (length fs.entries) 256 && not (fs_file_exists fs name)

pub lookup_of_exists :
    (fs : Filesystem) (name : Text) → fs_file_exists fs name ≡ false → lookup name fs.entries ≡ none
lookup_of_exists fs name h = elim (Option-cases (lookup name fs.entries)) [
  | inl nowhere ↦ nowhere
  | inr (e, found) ↦
      let exists : fs_file_exists fs name ≡ true = rw found at (fs_file_exists-lookup fs name) in
      absurd (cc)
]

pub fs_create_file-refused :
    (fs : Filesystem) (name : Text) (is_directory : ℕ)
    → creatable fs name ≡ false
    → fs_create_file fs name is_directory
      ≡ (if ltb (length fs.entries) 256 then negsuc 1 else negsuc 0, fs)
unfolding fs_create_file
fs_create_file-refused fs name d declined = ground arith

pub fs_create_file-made :
    (fs : Filesystem) (name : Text) (is_directory : ℕ)
    → creatable fs name ≡ true
    → fs_create_file fs name is_directory ≡ (
      pos 0,
      record fs {
        entries = fs.entries ++ (new_entry fs name is_directory (tick fs.system_time) ∷ []);
        system_time = tick fs.system_time;
      },
    )
unfolding fs_create_file
fs_create_file-made fs name d allowed = ground arith

added :
    (fs : Filesystem) (name : Text) (is_directory : ℕ) (q : Text)
    → length name ≤ 127
    → lookup name fs.entries ≡ none
    → or_else (lookup q fs.entries) (
        if bytes_eq (take 127 name) q
        then some (new_entry fs name is_directory (tick fs.system_time))
        else none)
      ≡ (if bytes_eq name q
          then some (new_entry fs name is_directory (tick fs.system_time))
          else lookup q fs.entries)
added fs name d q short fresh =
    rw (take-eq_self 127 name short) (elim (Bool-cases (bytes_eq name q)) [
      | inl same ↦
          let nowhere : lookup q fs.entries ≡ none = rw (eq_of_bytes_eq name q same) at fresh in
          rw (same, nowhere) refl
      | inr other ↦ rw other (or_else-none (lookup q fs.entries))
    ])

-- `fs_create_file` of a name of at most 127 bytes: where the table has room and no file of that name,
-- the name has the new entry afterwards; every other lookup gives what it gave before.
pub fs_create_file_lem :
    (fs : Filesystem) (name : Text) (is_directory : ℕ) (q : Text)
    → length name ≤ 127
    → lookup q (fs_create_file fs name is_directory).1.entries ≡ (
        if creatable fs name && bytes_eq name q
        then some (new_entry fs name is_directory (tick fs.system_time))
        else lookup q fs.entries)
unfolding fs_create_file
fs_create_file_lem fs name d q short = elim (Bool-cases (creatable fs name)) [
  | inr declined ↦
      rw declined (ap (λ r. lookup q r.1.entries) (fs_create_file-refused fs name d declined))
  | inl allowed ↦
      let made = ap (λ r. lookup q r.1.entries) (fs_create_file-made fs name d allowed) in
      let fresh = lookup_of_exists fs name (ground arith) in
      let entry = new_entry fs name d (tick fs.system_time) in
      rw allowed (made ∙ lookup-append q fs.entries (entry ∷ []) ∙ added fs name d q short fresh)
]

-- Two new files, with names of at most 127 bytes, that are created one after the other have the same
-- `data_offset`: the mark `data_used`, which `fs_create_file` does not move.
pub fs_create_file-shared :
    (fs : Filesystem) (a b : Text)
    → length a ≤ 127
    → length b ≤ 127
    → creatable fs a ≡ true
    → creatable (fs_create_file fs a 0).1 b ≡ true
    → (ea : Entry) × (eb : Entry) × (lookup a
          (fs_create_file (fs_create_file fs a 0).1 b 0).1.entries
        ≡ some ea)
      × (lookup b (fs_create_file (fs_create_file fs a 0).1 b 0).1.entries ≡ some eb)
      × (ea.data_offset ≡ fs.data_used)
      × (eb.data_offset ≡ fs.data_used)
fs_create_file-shared fs a b short_a short_b allowed allowed' =
    let fs1 : Filesystem = (fs_create_file fs a 0).1 in
    let ea : Entry = new_entry fs a 0 (tick fs.system_time) in
    let eb : Entry = new_entry fs1 b 0 (tick fs1.system_time) in
    let first : lookup a fs1.entries ≡ some ea =
      fs_create_file_lem fs a 0 a short_a ∙ rw (allowed, bytes_eq_refl a) refl in
    let fresh : lookup b fs1.entries ≡ none = lookup_of_exists fs1 b (ground arith) in
    let other : bytes_eq b a ≡ false = elim (Bool-cases (bytes_eq b a)) [
      | inl same ↦
          let clash : lookup a fs1.entries ≡ none = rw (eq_of_bytes_eq b a same) at fresh in
          absurd (cc)
      | inr differ ↦ differ
    ] in
    (
      ea,
      eb,
      fs_create_file_lem fs1 b 0 a short_b ∙ rw (allowed', other) first,
      fs_create_file_lem fs1 b 0 b short_b ∙ rw (allowed', bytes_eq_refl b) refl,
      refl,
      ap (λ r. r.1.data_used) (fs_create_file-made fs a 0 allowed),
    )
