-- ===== src/Fs.antt =====
-- The file system of kernel/fs.c with include/kernel/fs.h.
-- `entries` is `filesystem.entries[0 .. num_entries)`, so `num_entries` is its length: the slots
-- behind are never read before `fs_create_file` has filled them. A file name is its text, `strncpy`
-- into the 128 bytes of a name is `take 127` (CString.Write), and `strcmp(..) == 0` is `bytes_eq`
-- (CString.Compare). `data` gives the bytes of `filesystem.data`; the array that a caller passes is
-- the list of its bytes. The static `system_time` is a field.
pub mod Init
pub mod Lookup
pub mod Create
pub mod Delete
pub mod Distinct
pub mod Directory
pub mod Children
pub mod Listing
pub mod Unlisted
pub mod Data
pub mod Contents
pub mod Tests
use alpha_os.Prelude.{
  ℕ, zero, suc, ◌+◌, ◌-◌, ◌*◌, ◌%◌, ◌^◌, Bool, true, false, ◌&&◌, ◌||◌, not, Option, none, some,
  List, [], ◌∷◌, ◌++◌, codes, ltb, ◌==◌, if◌then◌else◌, bytes_eq, length, take, drop, get_or, set,
  min,
}
use alpha_os.Prelude.Int.{ℤ, pos, negsuc}
use alpha_os.Bytes.{Memory, poke}
use alpha_os.CString.{◌>>=◌}
use alpha_os.CString.Spec.{Text}
use alpha_os.Strtok.Spec.{Saved, has}
use alpha_os.FilePath.{
  max_filename_length, slash, root, dot, dot_dot, ends_with_slash, fs_normalize_path,
  fs_get_absolute_path, fs_get_parent_directory,
}

abbrev pub max_files : ℕ
max_files = 256

abbrev pub max_file_size : ℕ
max_file_size = 16384

abbrev pub total_data_size : ℕ
total_data_size = max_files * max_file_size

-- `fs_entry_t`
pub record Entry : Type 0 where
  pub filename : Text
  pub size : ℕ
  pub data_offset : ℕ
  pub is_directory : ℕ
  pub created_time : ℕ
  pub modified_time : ℕ
  pub permissions : ℕ
  pub parent_index : ℕ

-- `filesystem_t`, and `system_time`
pub record Filesystem : Type 0 where
  pub entries : List Entry
  pub data_bytes : Memory
  pub data_used : ℕ
  pub current_path : Text
  pub system_time : ℕ

-- `++system_time`, a `uint32_t`
abbrev pub tick : ℕ → ℕ
tick t = (t + 1) % 2 ^ 32

-- The first entry with the name, and its index: the loop that most functions begin with.
unfoldable pub find_entry : Text → List Entry → Option (ℕ × Entry)
find_entry name [] = none
find_entry name (e ∷ es) =
    let rest = find_entry name es in
    if bytes_eq e.filename name
    then some (0, e)
    else elim rest [ none ↦ none | some (i, f) ↦ some (i + 1, f) ]

unfoldable pub fs_file_exists : Filesystem → Text → Bool
fs_file_exists fs name = elim (find_entry name fs.entries) [ none ↦ false | some r ↦ true ]

unfoldable pub fs_file_size : Filesystem → Text → ℕ
fs_file_size fs name = elim (find_entry name fs.entries) [ none ↦ 0 | some (i, e) ↦ e.size ]

-- The entry that `fs_create_file` fills; `now` is the time that `get_time` returns.
abbrev pub new_entry : Filesystem → Text → ℕ → ℕ → Entry
new_entry fs name is_directory now = record {
  filename = take (max_filename_length - 1) name;
  size = 0;
  data_offset = fs.data_used;
  is_directory = is_directory;
  created_time = now;
  modified_time = now;
  permissions = 0o755;
  parent_index = 0;
}

unfoldable pub fs_create_file : Filesystem → Text → (is_directory : ℕ) → ℤ × Filesystem
fs_create_file fs name is_directory =
    if not (ltb (length fs.entries) max_files)
    then (negsuc 0, fs)
    else if fs_file_exists fs name
    then (negsuc 1, fs)
    else (
      pos 0,
      record fs {
        entries = fs.entries ++ new_entry fs name is_directory (tick fs.system_time) ∷ [];
        system_time = tick fs.system_time;
      },
    )

-- `memcpy(filesystem.data + offset, data, size)`
unfoldable pub write_bytes : Memory → ℕ → List ℕ → Memory
write_bytes m offset [] = m
write_bytes m offset (b ∷ bs) = write_bytes (poke m offset b) (offset + 1) bs

-- `memcpy(buffer, filesystem.data + offset, n)`
unfoldable pub read_bytes : Memory → ℕ → ℕ → List ℕ
read_bytes m offset zero = []
read_bytes m offset (suc n) = m offset ∷ read_bytes m (offset + 1) n

-- "Update existing file", at the index `i`.
unfoldable pub update_file : Filesystem → ℕ → Entry → List ℕ → ℤ × Filesystem
update_file fs i e bytes = if not (e.is_directory == 0) then (negsuc 2, fs) else (
  pos 0,
  record fs {
    entries =
        set fs.entries i (record e { size = length bytes; modified_time = tick fs.system_time });
    data_bytes = write_bytes fs.data_bytes e.data_offset bytes;
    system_time = tick fs.system_time;
  },
)

-- The entry at the index `num_entries - 1`, filled in after its creation.
unfoldable pub fill_last : List Entry → (size offset now : ℕ) → List Entry
fill_last [] size offset now = []
fill_last (e ∷ []) size offset now =
    record e { size = size; data_offset = offset; modified_time = now } ∷ []
fill_last (e ∷ f ∷ es) size offset now = e ∷ fill_last (f ∷ es) size offset now

-- "File doesn't exist, create it"
unfoldable pub write_new : Filesystem → Text → List ℕ → ℤ × Filesystem
write_new fs name bytes =
    let (code, fs') = fs_create_file fs name 0 in
    elim code [
      | negsuc n ↦ (negsuc 3, fs')
      | pos n ↦ (
        pos 0,
        record fs' {
          entries = fill_last fs'.entries (length bytes) fs'.data_used (tick fs'.system_time);
          data_bytes = write_bytes fs'.data_bytes fs'.data_used bytes;
          data_used = (fs'.data_used + length bytes) % 2 ^ 32;
          system_time = tick fs'.system_time;
        },
      )
    ]

-- `size` is the length of `bytes`.
unfoldable pub fs_write_file : Filesystem → Text → List ℕ → ℤ × Filesystem
fs_write_file fs name bytes =
    if ltb max_file_size (length bytes)
    then (negsuc 0, fs)
    else if ltb total_data_size ((fs.data_used + length bytes) % 2 ^ 32)
    then (negsuc 1, fs)
    else elim (find_entry name fs.entries) [
      | some (i, e) ↦ update_file fs i e bytes
      | none ↦ write_new fs name bytes
    ]

-- The code, and the bytes that are copied into the buffer: as many as a code that is not negative.
unfoldable pub fs_read_file : Filesystem → Text → (buffer_size : ℕ) → ℤ × List ℕ
fs_read_file fs name buffer_size = elim (find_entry name fs.entries) [
  | none ↦ (negsuc 1, [])
  | some (i, e) ↦
      if not (e.is_directory == 0)
      then (negsuc 0, [])
      else (let n : ℕ = if ltb buffer_size e.size then buffer_size else e.size in
          (pos n, read_bytes fs.data_bytes e.data_offset n))
]

-- The last of the entries takes the place of the one at the index `i`, and the list gets shorter.
unfoldable pub swap_out : List Entry → ℕ → List Entry
swap_out es i =
    let n : ℕ = length es in
    elim (drop (n - 1) es) [
      | [] ↦ es
      | last ∷ none_more ↦ if ltb i (n - 1) then take (n - 1) (set es i last) else take (n - 1) es
    ]

unfoldable pub fs_delete_file : Filesystem → Text → ℤ × Filesystem
fs_delete_file fs name = elim (find_entry name fs.entries) [
  | none ↦ (negsuc 0, fs)
  | some (i, e) ↦
      if bytes_eq name root
      then (negsuc 1, fs)
      else (pos 0, record fs { entries = swap_out fs.entries i })
]

-- A slash is added to a path that does not end with one, if the buffer of 128 bytes has room.
unfoldable pub add_slash : Text → Text
add_slash p =
    if ltb 0 (length p) && not (ends_with_slash p) && ltb (length p) (max_filename_length - 1)
    then p ++ (slash ∷ [])
    else p

-- Whether an entry's name is that of a direct child of the directory (which ends with a slash).
unfoldable pub is_child : (dirname filename : Text) → Bool
is_child dirname filename =
    not (bytes_eq filename dirname)
    && bytes_eq (take (length dirname) filename) (take (length dirname) dirname)
    && not (has slash (drop (length dirname) filename))
    && ltb 0 (length (drop (length dirname) filename))

-- What the listing has for an entry: the rest of its name, and a slash for a directory.
unfoldable pub listed : Text → Entry → Text
listed dirname e =
    drop (length dirname) e.filename ++ (if e.is_directory == 0 then [] else slash ∷ [])

-- The loop over the entries; `buffer` is the text that stands in `buffer[0 .. offset)`.
unfoldable pub list_loop : (dirname : Text) (buffer_size : ℕ) → List Entry → (buffer : Text) → Text
list_loop dirname buffer_size [] buffer = buffer
list_loop dirname buffer_size (e ∷ es) buffer =
    let name_len : ℕ = length (drop (length dirname) e.filename) in
    let skip = list_loop dirname buffer_size es buffer in
    let add = list_loop dirname buffer_size es (buffer ++ (listed dirname e ++ (10 ∷ []))) in
    if not (is_child dirname e.filename)
    then skip
    else if ltb buffer_size (length buffer + name_len + 2)
    then buffer
    else add

-- The code, and the text in the buffer: the last line feed makes place for the terminator.
unfoldable pub fs_list_directory :
    Filesystem → (dirname : Text) (buffer_size : ℕ) → Option (ℕ × Text × Saved)
fs_list_directory fs dirname buffer_size = do
  (normalized, saved) ← fs_normalize_path dirname
  let buffer = list_loop (add_slash normalized) buffer_size fs.entries []
  some (length buffer, take (length buffer - 1) buffer, saved)

-- The code, the new current directory, and `saved_str` of `strtok` where it was replaced.
unfoldable pub fs_change_directory :
    Filesystem → (dirname current_dir : Text) (dir_size : ℕ) → Saved → Option (ℤ × Text × Saved)
fs_change_directory fs dirname current_dir dir_size saved =
    if bytes_eq dirname dot_dot
    then some (pos 0, fs_get_parent_directory current_dir dir_size, saved)
    else if bytes_eq dirname dot
    then some (pos 0, current_dir, saved)
    else (fs_get_absolute_path dirname current_dir >>= λ (path, saved').
        if fs_file_exists fs (add_slash path)
        then some (pos 0, take (dir_size - 1) (add_slash path), saved')
        else some (negsuc 0, current_dir, saved'))

-- `num_entries`, `data_used` and what is left of the data; a null pointer takes none of them.
unfoldable pub fs_get_stats : Filesystem → ℕ × ℕ × ℕ
fs_get_stats fs =
    (length fs.entries, fs.data_used, (total_data_size + 2 ^ 32 - fs.data_used) % 2 ^ 32)

unfoldable pub fs_get_file_type_string : Filesystem → Text → Text
fs_get_file_type_string fs name = elim (find_entry name fs.entries) [
  | none ↦ codes "unknown"
  | some (i, e) ↦ if e.is_directory == 0 then codes "file" else codes "directory"
]
