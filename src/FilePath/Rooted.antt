-- ===== src/FilePath/Rooted.antt =====
-- Paths that begin with a slash: `fs_get_absolute_path` and `fs_get_parent_directory` of kernel/fs.c.
use mathlib.Core.Path.{subst, ◌∙◌}
use alpha_os.Prelude.{
  ℕ, zero, suc, ◌-◌, ◌≤◌, ◌<◌, ◌≡◌, refl, ◌==◌, some, [], ◌∷◌, ◌++◌, arith, Bool-cases,
  Option-cases, inl, inr, length, take, get_or, bytes_eq,
}
use alpha_os.CString.Spec.{Text}
use alpha_os.CString.Scan.{last_index}
use alpha_os.Strtok.Spec.{Saved}
use alpha_os.FilePath.{
  Components, slash, root, rebuild, render, fs_normalize_path, fs_get_absolute_path, drop_slash,
  fs_get_parent_directory,
}
use alpha_os.FilePath.Absolute.{fs_get_absolute_path-source}
use alpha_os.FilePath.Canonical.{fs_normalize_path-normal, fs_normalize_path-fits, take-head}

abbrev pub Rooted : Text → Type 0
Rooted path = get_or path 0 0 ≡ slash

pub append-Rooted : (a b : Text) → Rooted a → Rooted (a ++ b)
append-Rooted [] b h = absurd (omega arith)
append-Rooted (c ∷ a) b h = h

pub take-Rooted : (n : ℕ) (s : Text) → 0 < n → Rooted s → Rooted (take n s)
take-Rooted zero s pos h = absurd (omega arith)
take-Rooted (suc n) s pos h = take-head n s ∙ h

rebuild-Rooted : (c : Text) (cs : Components) → Rooted (rebuild (c ∷ cs))
unfolding rebuild
rebuild-Rooted c [] = refl
rebuild-Rooted c (d ∷ cs) = append-Rooted (rebuild (d ∷ cs)) (slash ∷ c) (rebuild-Rooted d cs)

render-Rooted : (cs : Components) → Rooted (render cs)
unfolding render
render-Rooted [] = refl
render-Rooted (c ∷ cs) = rebuild-Rooted c cs

normal-Rooted :
    (path r : Text) (saved : Saved) → fs_normalize_path path ≡ some (r, saved) → Rooted r
normal-Rooted path r saved e =
    let (cs, saved', e', ok, short) = fs_normalize_path-normal path in
    let same : render cs ≡ r = cc in subst Rooted same (render-Rooted cs)

-- What a name stands for in a directory whose path begins with a slash: a path that begins with one as
-- well, and fits into 128 bytes with its terminator.
pub fs_get_absolute_path-Rooted :
    (name dir r : Text) (saved : Saved)
    → Rooted dir
    → fs_get_absolute_path name dir ≡ some (r, saved)
    → Rooted r × (length r ≤ 127)
fs_get_absolute_path-Rooted name dir r saved h e =
    let (q, e', from) = fs_get_absolute_path-source name dir r saved e in
    let head : Rooted q = elim from [
      | inl absolute ↦ absolute
      | inr joined ↦ rw joined (append-Rooted dir (slash ∷ name) h)
    ] in
    (normal-Rooted q r saved e', omega (arith, fs_normalize_path-fits q r saved head e'))

drop_slash-Rooted : (s : Text) → Rooted s → Rooted (drop_slash s)
unfolding drop_slash
drop_slash-Rooted s h = ground (arith, take-Rooted (length s - 1) s)

pub fs_get_parent_directory-Rooted :
    (dir : Text) (size : ℕ) → 1 < size → Rooted dir → Rooted (fs_get_parent_directory dir size)
unfolding fs_get_parent_directory
fs_get_parent_directory-Rooted dir size big h =
    let temp : Text = drop_slash (take 127 dir) in
    let rooted : Rooted temp =
      drop_slash-Rooted (take 127 dir) (take-Rooted 127 dir (omega arith) h) in
    elim (Bool-cases (bytes_eq dir root)) [
      | inl at_root ↦ rw at_root refl
      | inr inner ↦ rw inner (elim (Option-cases (last_index slash temp)) [
        | inl no_slash ↦ rw no_slash refl
        | inr (i, at) ↦ rw at (elim (Bool-cases (i == 0)) [
          | inl first ↦ rw first refl
          | inr later ↦ rw later (
              take-Rooted (size - 1) (take i temp) (omega arith)
                (take-Rooted i temp (ground arith) rooted))
        ])
      ])
    ]
