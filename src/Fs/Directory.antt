-- ===== src/Fs/Directory.antt =====
-- The directory that `fs_change_directory` of kernel/fs.c leaves, and the slash that it adds.
use mathlib.Core.Path.{subst}
use alpha_os.Prelude.{
  ℕ, ◌-◌, ◌≤◌, ◌<◌, ◌≡◌, refl, Option, true, false, ◌&&◌, not, none, some, [], ◌∷◌, arith,
  Bool-cases, Option-cases, inl, inr, if◌then◌else◌, ltb, length, length-append, take, bytes_eq,
}
use alpha_os.Prelude.Int.{ℤ, pos, negsuc}
use alpha_os.CString.Spec.{Text}
use alpha_os.Strtok.Spec.{Saved}
use alpha_os.FilePath.{
  slash, dot, dot_dot, ends_with_slash, fs_get_absolute_path, fs_get_parent_directory,
}
use alpha_os.FilePath.Rooted.{
  Rooted, append-Rooted, take-Rooted, fs_get_absolute_path-Rooted, fs_get_parent_directory-Rooted,
}
use alpha_os.Fs.{Filesystem, add_slash, fs_file_exists, fs_change_directory}

pub length-add_slash : (p : Text) → length p ≤ 127 → length (add_slash p) ≤ 127
unfolding add_slash
length-add_slash p h = ground (arith, length-append {0} p (slash ∷ []))

add_slash-Rooted : (p : Text) → Rooted p → Rooted (add_slash p)
unfolding add_slash
add_slash-Rooted p h =
    elim (Bool-cases (ltb 0 (length p) && not (ends_with_slash p) && ltb (length p) 127)) [
      | inl added ↦ rw added (append-Rooted p (slash ∷ []) h)
      | inr whole ↦ rw whole h
    ]

-- The last steps of `fs_change_directory`, for a path that has been resolved.
abbrev entered : Filesystem → (current_dir : Text) (dir_size : ℕ) → Text × Saved → ℤ × Text × Saved
entered fs current_dir dir_size (path, saved) =
    if fs_file_exists fs (add_slash path)
    then (pos 0, take (dir_size - 1) (add_slash path), saved)
    else (negsuc 0, current_dir, saved)

pub fs_change_directory-entered :
    (fs : Filesystem) (dirname current_dir path : Text) (dir_size : ℕ) (saved saved' : Saved)
    → bytes_eq dirname dot_dot ≡ false
    → bytes_eq dirname dot ≡ false
    → fs_get_absolute_path dirname current_dir ≡ some (path, saved')
    → fs_change_directory fs dirname current_dir dir_size saved
      ≡ some (entered fs current_dir dir_size (path, saved'))
unfolding fs_change_directory
fs_change_directory-entered fs dirname cur path dir_size saved saved' not_up not_here e =
    rw (not_up, not_here, e)
      (elim (Bool-cases (fs_file_exists fs (add_slash path))) [
        | inl there ↦ rw there refl
        | inr missing ↦ rw missing refl
      ])

fs_change_directory-up :
    (fs : Filesystem) (dirname current_dir : Text) (dir_size : ℕ) (saved : Saved)
    → bytes_eq dirname dot_dot ≡ true
    → fs_change_directory fs dirname current_dir dir_size saved
      ≡ some (pos 0, fs_get_parent_directory current_dir dir_size, saved)
unfolding fs_change_directory
fs_change_directory-up fs dirname cur dir_size saved up = rw up refl

fs_change_directory-here :
    (fs : Filesystem) (dirname current_dir : Text) (dir_size : ℕ) (saved : Saved)
    → bytes_eq dirname dot_dot ≡ false
    → bytes_eq dirname dot ≡ true
    → fs_change_directory fs dirname current_dir dir_size saved ≡ some (pos 0, current_dir, saved)
unfolding fs_change_directory
fs_change_directory-here fs dirname cur dir_size saved not_up here = rw (not_up, here) refl

fs_change_directory-lost :
    (fs : Filesystem) (dirname current_dir : Text) (dir_size : ℕ) (saved : Saved)
    → bytes_eq dirname dot_dot ≡ false
    → bytes_eq dirname dot ≡ false
    → fs_get_absolute_path dirname current_dir ≡ none
    → fs_change_directory fs dirname current_dir dir_size saved ≡ none
unfolding fs_change_directory
fs_change_directory-lost fs dirname cur dir_size saved not_up not_here e =
    rw (not_up, not_here, e) refl

entered-Rooted :
    (fs : Filesystem) (current_dir path : Text) (dir_size : ℕ) (saved : Saved)
    → 1 < dir_size
    → Rooted current_dir
    → Rooted path
    → Rooted (entered fs current_dir dir_size (path, saved)).1
entered-Rooted fs cur path size saved big h h' =
    elim (Bool-cases (fs_file_exists fs (add_slash path))) [
      | inl there ↦
          rw there
            (take-Rooted (size - 1) (add_slash path) (omega arith) (add_slash-Rooted path h'))
      | inr missing ↦ rw missing h
    ]

result-Rooted :
    (a r : ℤ × Text × Saved) (o : Option (ℤ × Text × Saved))
    → o ≡ some a
    → o ≡ some r
    → Rooted a.1
    → Rooted r.1
result-Rooted a r o e e' h = let same : a ≡ r = cc in subst (λ x. Rooted x.1) same h

-- The current directory stays a path that begins with a slash.
pub fs_change_directory-Rooted :
    (fs : Filesystem) (dirname current_dir : Text) (dir_size : ℕ) (saved : Saved)
    (r : ℤ × Text × Saved)
    → 1 < dir_size
    → Rooted current_dir
    → fs_change_directory fs dirname current_dir dir_size saved ≡ some r
    → Rooted r.1
fs_change_directory-Rooted fs dirname cur size saved r big h e =
    elim (Bool-cases (bytes_eq dirname dot_dot)) [
      | inl up ↦
          result-Rooted _ r _ (fs_change_directory-up fs dirname cur size saved up) e
            (fs_get_parent_directory-Rooted cur size big h)
      | inr not_up ↦ elim (Bool-cases (bytes_eq dirname dot)) [
        | inl here ↦
            result-Rooted _ r _ (fs_change_directory-here fs dirname cur size saved not_up here) e h
        | inr not_here ↦ elim (Option-cases (fs_get_absolute_path dirname cur)) [
          | inl lost ↦
              let l = fs_change_directory-lost fs dirname cur size saved not_up not_here lost in
              absurd (cc)
          | inr ((path, saved'), found) ↦
              let h' = (fs_get_absolute_path-Rooted dirname cur path saved' h found).0 in
              result-Rooted _ r _
                (fs_change_directory-entered fs dirname cur path size saved saved' not_up not_here
                  found)
                e (entered-Rooted fs cur path size saved' big h h')
        ]
      ]
    ]
