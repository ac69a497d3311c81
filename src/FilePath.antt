-- ===== src/FilePath.antt =====
-- The path functions of kernel/fs.c (`fs_normalize_path` to `fs_get_directory`) on texts.
-- A C string is its text, `strncpy` into a buffer of n + 1 bytes is `take n` (CString.Write), a
-- test by `strcmp` is `bytes_eq` (CString.Compare), and `strtok` is `next_text` (Strtok.Refine).
-- The static `saved_str` of `strtok` is a result, since every call replaces it.
pub mod Resolve
pub mod Render
pub mod Normal
pub mod Canonical
pub mod Absolute
pub mod Rooted
pub mod Ends
pub mod Tests
use alpha_os.Prelude.{
  ℕ, zero, suc, ◌+◌, ◌-◌, Bool, true, false, ◌&&◌, Option, none, some, List, [], ◌∷◌, ◌++◌, codes,
  ltb, ◌==◌, if◌then◌else◌, bytes_eq, length, take, drop, get_or,
}
use alpha_os.CString.{◌>>=◌}
use alpha_os.CString.Spec.{Text}
use alpha_os.CString.Scan.{last_index}
use alpha_os.Strtok.Spec.{Saved, next_text}
use alpha_os.Stdio.{text, snprintf}

-- FS_MAX_FILENAME_LENGTH
abbrev pub max_filename_length : ℕ
max_filename_length = 128

-- FS_MAX_PATH_DEPTH
abbrev pub max_path_depth : ℕ
max_path_depth = 32

abbrev pub slash : ℕ
slash = b'/'

abbrev pub root : Text
root = slash ∷ []

abbrev pub dot : Text
dot = b'.' ∷ []

abbrev pub dot_dot : Text
dot_dot = b'.' ∷ b'.' ∷ []

-- `components[0 .. component_count)`, the last one first.
abbrev pub Components : Type 0
Components = List Text

-- What one token does to the components.
unfoldable pub step : Components → Text → Components
step cs t =
    if bytes_eq t dot
    then cs
    else if bytes_eq t dot_dot
    then elim cs [ [] ↦ [] | c ∷ rest ↦ rest ]
    else t ∷ cs

-- The loop over the tokens, with `token` in hand. Fuel above the text's length is enough.
unfoldable pub component_loop :
    (fuel : ℕ) → Option Text → Saved → Components → Option (Components × Saved)
component_loop zero token saved cs = none
component_loop (suc f) none saved cs = some (cs, saved)
component_loop (suc f) (some t) saved cs =
    let (next, saved') = next_text root saved in
    let rest = component_loop f next saved' (step cs t) in
    if ltb (length cs) max_path_depth then rest else some (cs, saved)

-- A slash and a component for each, the last of the list first.
unfoldable pub rebuild : Components → Text
rebuild [] = []
rebuild (c ∷ cs) = rebuild cs ++ (slash ∷ c)

unfoldable pub render : Components → Text
unfolding rebuild
render [] = root
render (c ∷ cs) = rebuild (c ∷ cs)

unfoldable pub fs_normalize_path : Text → Option (Text × Saved)
fs_normalize_path path = do
  let temp = take (max_filename_length - 1) path
  let (token, saved) = next_text root (some temp)
  (cs, saved') ← component_loop (length temp + 2) token saved []
  some (render cs, saved')

-- `relative_path[0]` is the terminator where the path is empty. none says that `snprintf` writes behind
-- the 128 bytes of `temp`.
unfoldable pub fs_get_absolute_path : (relative_path current_dir : Text) → Option (Text × Saved)
fs_get_absolute_path relative_path current_dir =
    if get_or relative_path 0 0 == slash
    then fs_normalize_path relative_path
    else (snprintf max_filename_length max_filename_length (codes "%s/%s")
          (text current_dir ∷ text relative_path ∷ [])
        >>= λ (n, temp). fs_normalize_path temp)

-- Whether a text ends with a slash: `text[len - 1] == '/'`.
abbrev pub ends_with_slash : Text → Bool
ends_with_slash s = get_or s (length s - 1) 0 == slash

-- `if (len > 1 && temp[len - 1] == '/') temp[len - 1] = '\0';`
unfoldable pub drop_slash : Text → Text
drop_slash s = if ltb 1 (length s) && ends_with_slash s then take (length s - 1) s else s

-- The text that is written to `parent_dir`; the function always returns 0.
unfoldable pub fs_get_parent_directory : (current_dir : Text) (dir_size : ℕ) → Text
unfolding drop_slash
fs_get_parent_directory current_dir dir_size =
    let temp : Text = drop_slash (take (max_filename_length - 1) current_dir) in
    if bytes_eq current_dir root then root else elim (last_index slash temp) [
      | none ↦ root
      | some i ↦ if i == 0 then root else take (dir_size - 1) (take i temp)
    ]

unfoldable pub fs_get_filename : Text → Text
fs_get_filename path = elim (last_index slash path) [ none ↦ path | some i ↦ drop (i + 1) path ]

-- The text that is written to `directory`, of `size` bytes (not 0).
unfoldable pub fs_get_directory : (path : Text) (size : ℕ) → Text
fs_get_directory path size = elim (last_index slash path) [
  | none ↦ dot
  | some i ↦ if i == 0 then root else (if ltb i size then take i path else take (size - 1) path)
]
