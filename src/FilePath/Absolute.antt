-- ===== src/FilePath/Absolute.antt =====
-- What `fs_get_absolute_path` of kernel/fs.c normalises, and where it has a defined result.
use mathlib.Core.Path.{◌∙◌}
use alpha_os.Prelude.{
  ◌+◌, ◌≤◌, ◌<◌, ◌≡◌, ◌≢◌, ◌⊎◌, ◌-◌, ap, take, take-eq_self, refl, true, false, ◌==◌, none, some,
  [], ◌∷◌, ◌++◌, arith, if◌then◌else◌, Bool-cases, inl, inr, ltb, length, length-append, get_or,
}
use alpha_os.CString.Spec.{Text}
use alpha_os.Strtok.Spec.{Saved}
use alpha_os.Strtok.Words.{words}
use alpha_os.Stdio.Expand.{snprintf-path, snprintf-overruns}
use alpha_os.FilePath.{
  slash, root, max_filename_length, render, fs_normalize_path, fs_get_absolute_path,
}
use alpha_os.FilePath.Resolve.{resolve, fs_normalize_path-resolve}
use alpha_os.FilePath.Render.{words-append}
use alpha_os.FilePath.Canonical.{fs_normalize_path-normal, resolve-append}

-- A name that needs no more than the 128 bytes of `temp`: it begins with a slash, or the directory, a
-- slash, the name and a terminator fit.
abbrev pub Fits : Text → Text → Type 0
Fits name dir = (get_or name 0 0 ≡ slash) ⊎ (length dir + length name < 127)

absolute-whole :
    (name dir : Text)
    → (get_or name 0 0 == slash) ≡ true
    → fs_get_absolute_path name dir ≡ fs_normalize_path name
unfolding fs_get_absolute_path
absolute-whole name dir absolute = rw absolute refl

pub absolute-joined :
    (name dir : Text)
    → (get_or name 0 0 == slash) ≡ false
    → length dir + length name < 127
    → fs_get_absolute_path name dir ≡ fs_normalize_path (dir ++ (slash ∷ name))
unfolding fs_get_absolute_path
absolute-joined name dir relative short =
    rw
      (
        relative,
        snprintf-path dir name 128 (omega arith)
            (omega (arith, length-append {0} dir (slash ∷ name))),
      )
      refl

absolute-overruns :
    (name dir : Text)
    → (get_or name 0 0 == slash) ≡ false
    → 127 ≤ length dir + length name
    → fs_get_absolute_path name dir ≡ none
unfolding fs_get_absolute_path
absolute-overruns name dir relative long =
    rw
      (
        relative,
        snprintf-overruns dir name 128 (omega arith)
            (omega (arith, length-append {0} dir (slash ∷ name))),
      )
      refl

-- A result is the normal path of the name, or of the name behind the directory.
pub fs_get_absolute_path-source :
    (name dir r : Text) (saved : Saved)
    → fs_get_absolute_path name dir ≡ some (r, saved)
    → (q : Text) × (fs_normalize_path q ≡ some (r, saved))
      × ((get_or q 0 0 ≡ slash) ⊎ (q ≡ dir ++ (slash ∷ name)))
fs_get_absolute_path-source name dir r saved e = elim (Bool-cases (get_or name 0 0 == slash)) [
  | inl absolute ↦ (name, rw (absolute-whole name dir absolute) at e, inl (ground arith))
  | inr relative ↦ elim (Bool-cases (ltb (length dir + length name) 127)) [
    | inl short ↦ (
      dir ++ (slash ∷ name),
      rw (absolute-joined name dir relative (ground arith)) at e,
      inr refl,
    )
    | inr long ↦ let over = absolute-overruns name dir relative (ground arith) in absurd (cc)
  ]
]

-- A name that fits stands for some path.
pub fs_get_absolute_path-total :
    (name dir : Text)
    → Fits name dir
    → (r : Text) × (saved : Saved) × (fs_get_absolute_path name dir ≡ some (r, saved))
fs_get_absolute_path-total name dir fits = elim (Bool-cases (get_or name 0 0 == slash)) [
  | inl absolute ↦
      let (cs, saved, e, ok, short) = fs_normalize_path-normal name in
      (render cs, saved, absolute-whole name dir absolute ∙ e)
  | inr relative ↦
      let (cs, saved, e, ok, short) = fs_normalize_path-normal (dir ++ (slash ∷ name)) in
      let room : length dir + length name < 127 = elim fits [
        | inl head ↦ absurd (ground (arith, head))
        | inr room ↦ room
      ] in
      (render cs, saved, absolute-joined name dir relative room ∙ e)
]

-- A name that does not begin with a slash has a result exactly where the directory, a slash, the name
-- and a terminator fit into 128 bytes, and where they do it is resolved against the current
-- directory: the walk along its words starts from the components of that directory. Where they do
-- not, the text is written over the end of `temp`.
pub fs_get_absolute_path-relative :
    (rel cur : Text)
    → get_or rel 0 0 ≢ slash
    → (saved : Saved) × (fs_get_absolute_path rel cur ≡ (
        if ltb (length cur + length rel) (max_filename_length - 1)
        then some (render (resolve (resolve [] (words root cur)) (words root rel)), saved)
        else none))
fs_get_absolute_path-relative rel cur ne =
    let relative : (get_or rel 0 0 == slash) ≡ false = ground arith in
    let joined : Text = cur ++ (slash ∷ rel) in
    let (saved, e) = fs_normalize_path-resolve joined in
    (
      saved,
      elim (Bool-cases (ltb (length cur + length rel) (max_filename_length - 1))) [
        | inl short ↦
            let whole : take (max_filename_length - 1) joined ≡ joined =
              take-eq_self 127 joined
                (omega (arith, fits short, length-append {0} cur (slash ∷ rel))) in
            let split : resolve [] (words root (take (max_filename_length - 1) joined))
                ≡ resolve (resolve [] (words root cur)) (words root rel) =
              rw (whole, words-append cur rel)
                (resolve-append [] (words root cur) (words root rel)) in
            rw short (
              absolute-joined rel cur relative (fits short)
              ∙ e
              ∙ ap (λ l. some (render l, saved)) split)
        | inr long ↦ rw long (absolute-overruns rel cur relative (ground arith))
      ],
    )
  where
    fits :
        ltb (length cur + length rel) (max_filename_length - 1) ≡ true
        → length cur + length rel < 127
    fits short = ground (arith, short)
