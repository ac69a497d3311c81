-- ===== src/Fs/Tests.antt =====
-- Calls of kernel/fs.c on a table with two entries.
use mathlib.Core.Path.{subst}
use alpha_os.Prelude.{
  ℕ, ◌≤◌, ◌≡◌, refl, ◌&&◌, not, if◌then◌else◌, arith, codes, [], ◌∷◌, min, take, some, none,
  Bool-cases, inl, inr,
}
use alpha_os.Prelude.Lists.{bytes_eq, eq_of_bytes_eq}
use alpha_os.Prelude.Int.{pos}
use alpha_os.CString.Spec.{Text}
use alpha_os.FilePath.{root}
use alpha_os.Prelude.{length, ◌-◌}
use alpha_os.Strtok.Spec.{next_text, skip, has, after, token_of}
use alpha_os.FilePath.{fs_normalize_path, component_loop, step, render}
use alpha_os.Fs.{add_slash, fs_list_directory}
use alpha_os.Fs.Children.{child_lines}
use alpha_os.Fs.Listing.{fs_list_directory-fits}
use alpha_os.Fs.Unlisted.{fs_list_directory-created}
use alpha_os.Fs.{
  Entry, Filesystem, tick, find_entry, fs_file_exists, new_entry, fs_create_file, fs_write_file,
  fs_read_file, fs_delete_file,
}
use alpha_os.Fs.Lookup.{lookup, count, Distinct}
use alpha_os.Fs.Create.{creatable, fs_create_file_lem, fs_create_file-shared}
use alpha_os.Fs.Delete.{fs_delete_file_lem}
use alpha_os.Fs.Contents.{fs_read_file-fs_write_file, fs_write_file-others}

abbrev entry : Text → (size offset : ℕ) → Entry
entry name size offset = record {
  filename = name;
  size = size;
  data_offset = offset;
  is_directory = 0;
  created_time = 0;
  modified_time = 0;
  permissions = 0;
  parent_index = 0;
}

abbrev table : Filesystem
table = record {
  entries = entry (codes "/a") 3 0 ∷ entry (codes "/b") 2 3 ∷ [];
  data_bytes = λ a. a;
  data_used = 5;
  current_path = codes "/";
  system_time = 0;
}

table-Distinct : Distinct table.entries
unfolding bytes_eq
table-Distinct name = elim (Bool-cases (bytes_eq (codes "/a") name)) [
  | inl a ↦
      let same = eq_of_bytes_eq (codes "/a") name a in
      subst (λ n. count n table.entries ≤ 1) same (omega arith)
  | inr other ↦ ground arith
]

fs_create_file_example : lookup (codes "/a") (fs_create_file table (codes "/c") 0).1.entries ≡ (
    if creatable table (codes "/c") && bytes_eq (codes "/c") (codes "/a")
    then some (new_entry table (codes "/c") 0 (tick table.system_time))
    else lookup (codes "/a") table.entries)
fs_create_file_example = fs_create_file_lem table (codes "/c") 0 (codes "/a") (omega arith)

fs_delete_file_example : lookup (codes "/b") (fs_delete_file table (codes "/a")).1.entries ≡ (
    if bytes_eq (codes "/a") (codes "/b") && not (bytes_eq (codes "/a") root)
    then none
    else lookup (codes "/b") table.entries)
fs_delete_file_example = fs_delete_file_lem table (codes "/a") (codes "/b") table-Distinct

fs_read_file_example :
    fs_read_file (fs_write_file table (codes "/c") (codes "text")).1 (codes "/c") 100
    ≡ (pos (min 100 4), take (min 100 4) (codes "text"))
unfolding fs_file_exists find_entry bytes_eq
fs_read_file_example =
    fs_read_file-fs_write_file table (codes "/c") (codes "text") 100 refl (omega arith)
      (omega arith, omega arith)

fs_write_file-others_example :
    fs_read_file (fs_write_file table (codes "/c") (codes "text")).1 (codes "/b") 100
    ≡ fs_read_file table (codes "/b") 100
unfolding fs_file_exists find_entry bytes_eq
fs_write_file-others_example =
    fs_write_file-others table (codes "/c") (codes "/b") (codes "text") 100 (entry (codes "/b") 2 3)
      refl (omega arith, omega arith) refl (omega arith)

fs_create_file-shared_example :
    (ea : Entry) × (eb : Entry) × (lookup
        (codes "/c")
        (fs_create_file (fs_create_file table (codes "/c") 0).1 (codes "/d") 0).1.entries
      ≡ some ea)
    × (lookup
          (codes "/d")
          (fs_create_file (fs_create_file table (codes "/c") 0).1 (codes "/d") 0).1.entries
        ≡ some eb)
    × (ea.data_offset ≡ 5)
    × (eb.data_offset ≡ 5)
unfolding fs_create_file fs_file_exists find_entry bytes_eq
fs_create_file-shared_example =
    fs_create_file-shared table (codes "/c") (codes "/d") (omega arith) (omega arith) refl refl

fs_list_directory-fits_example :
    (k : ℕ) × (text : Text) × (fs_list_directory table (codes "/") 4
      ≡ some (length text, take (length text - 1) text, none))
    × (text ≡ child_lines (add_slash (codes "/")) (take k table.entries))
    × (length text ≤ 4)
unfolding fs_normalize_path component_loop step render next_text skip has after token_of
fs_list_directory-fits_example = fs_list_directory-fits table (codes "/") (codes "/") 4 none refl

fs_list_directory-created_example :
    fs_list_directory (fs_create_file table (codes "/d/") 1).1 (codes "/") 100
    ≡ fs_list_directory table (codes "/") 100
fs_list_directory-created_example =
    fs_list_directory-created table (codes "/d/") 1 (codes "/") 100 (omega arith) refl
