-- ===== src/FilePath/Canonical.antt =====
-- The contract of `fs_normalize_path` of kernel/fs.c.
use mathlib.Core.Path.{subst, sym, ◌∙◌}
use alpha_os.Prelude.{
  ℕ, suc, ◌-◌, ◌≤◌, ◌<◌, ◌≡◌, refl, ap, true, false, some, List, [], ◌∷◌, ◌++◌, arith, ltb,
  Bool-cases, inl, inr, length, length-take, take, take-eq_self, get_or,
}
use alpha_os.CString.Spec.{Text}
use alpha_os.Strtok.Spec.{Saved, has}
use alpha_os.Strtok.Words.{words_from, words}
use alpha_os.FilePath.{
  Components, slash, root, max_path_depth, max_filename_length, step, rebuild, render,
  fs_normalize_path,
}
use alpha_os.FilePath.Resolve.{resolve, fs_normalize_path-resolve}
use alpha_os.FilePath.Render.{
  IsComponent, AllComponents, reversed, weight, words-render, length-rebuild, words_from-weight,
  words_of_component,
}
use alpha_os.FilePath.Normal.{resolve-AllComponents, resolve-size, words-AllWords}

step_of_component : (cs : Components) (c : Text) → IsComponent c → step cs c ≡ c ∷ cs
unfolding step
step_of_component cs c ok = rw (ok.not_dot, ok.not_dot_dot) refl

resolve_when_full :
    (cs : Components) (ws : List Text) → ltb (length cs) max_path_depth ≡ false → resolve cs ws ≡ cs
unfolding resolve
resolve_when_full cs [] full = refl
resolve_when_full cs (w ∷ ws) full = rw full refl

-- Words that follow others are resolved from where the others lead.
pub resolve-append :
    (cs : Components) (xs ys : List Text) → resolve cs (xs ++ ys) ≡ resolve (resolve cs xs) ys
unfolding resolve
resolve-append cs [] ys = refl
resolve-append cs (x ∷ xs) ys = elim (Bool-cases (ltb (length cs) max_path_depth)) [
  | inl room ↦ rw room (resolve-append (step cs x) xs ys)
  | inr full ↦ rw full (sym (resolve_when_full cs ys full))
]

-- Components that fit resolve to themselves.
resolve-reversed :
    (cs : Components)
    → AllComponents cs
    → length cs ≤ max_path_depth
    → resolve [] (reversed cs) ≡ cs
unfolding resolve
resolve-reversed [] ok le = refl
resolve-reversed (c ∷ cs) ok le =
    let before = resolve-reversed cs ok.1 (omega arith) in
    let room : ltb (length cs) max_path_depth ≡ true = ground arith in
    resolve-append [] (reversed cs) (c ∷ [])
    ∙ (ap (λ l. resolve l (c ∷ [])) before ∙ rw (room, step_of_component cs c ok.0) refl)

-- Every text has a normal path: `fs_normalize_path` ends, and what it writes is the slash alone or
-- a slash and a component for each of at most 32 components, none of which is empty, `.` or `..`
-- or holds a slash.
pub fs_normalize_path-normal :
    (path : Text)
    → (cs : Components) × (saved : Saved) × (fs_normalize_path path ≡ some (render cs, saved))
      × AllComponents cs
      × (length cs ≤ max_path_depth)
fs_normalize_path-normal path =
    let ws : List Text = words root (take (max_filename_length - 1) path) in
    let (saved, e) = fs_normalize_path-resolve path in
    (
      resolve [] ws,
      saved,
      e,
      resolve-AllComponents [] ws (words-AllWords _) tt,
      (resolve-size [] ws (omega arith)).0,
    )

words-weight : (s : Text) → get_or s 0 0 ≡ slash → weight (words root s) ≤ length s
unfolding words words_from has
words-weight [] h = omega arith
words-weight (c ∷ s) h =
    let hit : c ≡ slash = h in rw hit (omega (arith, words_from-weight root [] s))

length-render-le : (cs : Components) (n : ℕ) → 0 < n → weight cs ≤ n → length (render cs) ≤ n
unfolding render
length-render-le [] n pos le = omega arith
length-render-le (c ∷ cs) n pos le = omega (arith, length-rebuild (c ∷ cs))

pub take-head : (n : ℕ) (s : Text) → get_or (take (suc n) s) 0 0 ≡ get_or s 0 0
take-head n [] = refl
take-head n (c ∷ s) = refl

-- The normal path of a text that begins with a slash fits, with its terminator, into the 128 bytes
-- of the buffers.
pub fs_normalize_path-fits :
    (path r : Text) (saved : Saved)
    → get_or path 0 0 ≡ slash
    → fs_normalize_path path ≡ some (r, saved)
    → length r < max_filename_length
fs_normalize_path-fits path r saved head h =
    let temp : Text = take (max_filename_length - 1) path in
    let (saved', e) = fs_normalize_path-resolve path in
    let same : r ≡ render (resolve [] (words root temp)) = cc in
    let light = (resolve-size [] (words root temp) (omega arith)).1 in
    let few = words-weight temp (take-head 126 path ∙ head) in
    rw same (
      omega (
        arith,
        length-render-le (resolve [] (words root temp)) 127 (omega arith)
            (omega (arith, length-take {0} 127 path)),
      ))

-- A normal path that is short enough is its own normal path.
normalize-render :
    (cs : Components)
    → AllComponents cs
    → length cs ≤ max_path_depth
    → length (render cs) < max_filename_length
    → (saved : Saved) × (fs_normalize_path (render cs) ≡ some (render cs, saved))
normalize-render cs ok short fits =
    let (saved, e) = fs_normalize_path-resolve (render cs) in
    let whole : take (max_filename_length - 1) (render cs) ≡ render cs =
      take-eq_self 127 (render cs) (omega arith) in
    let back : resolve [] (words root (take (max_filename_length - 1) (render cs))) ≡ cs =
      rw (whole, words-render cs ok) (resolve-reversed cs ok short) in
    (saved, e ∙ ap (λ l. some (render l, saved)) back)

-- Normalising is idempotent: the normal path of a text that begins with a slash is its own normal
-- path.
pub fs_normalize_path_idem :
    (path r : Text) (saved : Saved)
    → get_or path 0 0 ≡ slash
    → fs_normalize_path path ≡ some (r, saved)
    → (saved' : Saved) × (fs_normalize_path r ≡ some (r, saved'))
fs_normalize_path_idem path r saved head h =
    let (cs, saved', e, ok, short) = fs_normalize_path-normal path in
    let same : render cs ≡ r = cc in
    let fits = fs_normalize_path-fits path (render cs) saved' head e in
    let (last, e') = normalize-render cs ok short fits in
    (last, subst (λ q. fs_normalize_path q ≡ some (q, last)) same e')

-- A text of 127 bytes or more without a slash does not fit: its normal path has 128 bytes, and one
-- more is the terminator.
pub fs_normalize_path-overflows :
    (path : Text)
    → IsComponent (take 127 path)
    → 127 ≤ length path
    → (r : Text) × (saved : Saved) × (fs_normalize_path path ≡ some (r, saved))
      × (length r ≡ max_filename_length)
unfolding render rebuild
fs_normalize_path-overflows path ok long =
    let c : Text = take 127 path in
    let (saved, e) = fs_normalize_path-resolve path in
    let one : resolve [] (words root c) ≡ c ∷ [] =
      rw (words_of_component c ok.no_slash ok.not_empty)
        (resolve-reversed (c ∷ []) (ok, tt) (omega arith)) in
    (
      render (c ∷ []),
      saved,
      e ∙ ap (λ l. some (render l, saved)) one,
      omega (arith, length-take {0} 127 path),
    )
