-- ===== src/FilePath/Tests.antt =====
-- Paths of kernel/fs.c that are normalised.
use alpha_os.Prelude.{
  ltb, if◌then◌else◌, ◌+◌, ◌-◌, ◌≤◌, ◌<◌, ◌≡◌, refl, arith, codes, length, some, none, [],
  replicate,
}
use alpha_os.Prelude.Lists.{bytes_eq}
use alpha_os.CString.Spec.{Text}
use alpha_os.Strtok.Spec.{Saved, next_text, skip, has, after, token_of}
use alpha_os.Strtok.Words.{words}
use alpha_os.FilePath.{
  Components, root, max_path_depth, max_filename_length, render, component_loop, step,
  fs_normalize_path, fs_get_absolute_path,
}
use alpha_os.FilePath.Resolve.{resolve}
use alpha_os.FilePath.Render.{AllComponents}
use alpha_os.FilePath.Canonical.{
  fs_normalize_path-normal, fs_normalize_path-fits, fs_normalize_path_idem,
  fs_normalize_path-overflows,
}
use alpha_os.FilePath.Absolute.{fs_get_absolute_path-relative}

fs_normalize_path-normal_example :
    (cs : Components) × (saved : Saved) × (fs_normalize_path (codes "/home/./user/../x")
      ≡ some (render cs, saved))
    × AllComponents cs
    × (length cs ≤ max_path_depth)
fs_normalize_path-normal_example = fs_normalize_path-normal (codes "/home/./user/../x")

fs_normalize_path-fits_example : length (codes "/x") < max_filename_length
unfolding fs_normalize_path component_loop next_text skip has after step bytes_eq token_of render
fs_normalize_path-fits_example =
    fs_normalize_path-fits (codes "/home/../x") (codes "/x") none refl refl

fs_normalize_path_idem_example :
    (saved' : Saved) × (fs_normalize_path (codes "/x") ≡ some (codes "/x", saved'))
unfolding fs_normalize_path component_loop next_text skip has after step bytes_eq token_of render
fs_normalize_path_idem_example =
    fs_normalize_path_idem (codes "/home/../x") (codes "/x") none refl refl

fs_get_absolute_path-relative_example :
    (saved : Saved) × (fs_get_absolute_path (codes "../bin") (codes "/home/user") ≡ (
      if ltb (length (codes "/home/user") + length (codes "../bin")) (max_filename_length - 1)
      then some (
        render
            (resolve (resolve [] (words root (codes "/home/user"))) (words root (codes "../bin"))),
        saved,
      )
      else none))
fs_get_absolute_path-relative_example =
    fs_get_absolute_path-relative (codes "../bin") (codes "/home/user") (λ e. omega arith)

abbrev long_name : Text
long_name = replicate 130 97

fs_normalize_path-overflows_example :
    (r : Text) × (saved : Saved) × (fs_normalize_path long_name ≡ some (r, saved))
    × (length r ≡ max_filename_length)
unfolding fs_normalize_path component_loop next_text skip has after step bytes_eq token_of render
fs_normalize_path-overflows_example =
    fs_normalize_path-overflows long_name
      (record { no_slash = refl; not_empty = omega arith; not_dot = refl; not_dot_dot = refl })
      (omega arith)
