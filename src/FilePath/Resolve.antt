-- ===== src/FilePath/Resolve.antt =====
-- The token loop of `fs_normalize_path` (kernel/fs.c) against a plain walk along the words.
use alpha_os.Prelude.{
  ℕ, zero, suc, ◌+◌, ◌-◌, ◌<◌, ◌≡◌, refl, Option, none, some, List, [], ◌∷◌, arith, ltb, Bool-cases,
  inl, inr, if◌then◌else◌, length, take,
}
use alpha_os.CString.Spec.{Text}
use alpha_os.Strtok.Spec.{Saved, next_text}
use alpha_os.Strtok.Words.{Yields, words, words_of, rounds, next_text-words, next_text-rounds}
use alpha_os.FilePath.{
  Components, root, max_path_depth, max_filename_length, step, component_loop, render,
  fs_normalize_path,
}

-- The components that the words lead to; the walk stops where the array is full.
unfoldable pub resolve : Components → List Text → Components
resolve cs [] = cs
resolve cs (t ∷ ts) =
    let rest = resolve (step cs t) ts in if ltb (length cs) max_path_depth then rest else cs

-- The token in hand and `saved_str` make up the words `ws`.
component_loop_lem :
    (fuel : ℕ) (ws : List Text) (token : Option Text) (saved : Saved) (cs : Components)
    → Yields root ws (token, saved)
    → rounds token saved < fuel
    → (saved' : Saved) × (component_loop fuel token saved cs ≡ some (resolve cs ws, saved'))
unfolding component_loop resolve
component_loop_lem zero ws token saved cs y lt = absurd (omega arith)
component_loop_lem (suc f) ws none saved cs y lt = (saved, rw y.0 refl)
component_loop_lem (suc f) ws (some t) saved cs y lt =
    let (saved', e) =
      component_loop_lem f (words_of root saved) (next_text root saved).0 (next_text root saved).1
        (step cs t) (next_text-words root saved) (omega (arith, next_text-rounds root saved)) in
    elim (Bool-cases (ltb (length cs) max_path_depth)) [
      | inl room ↦ (saved', rw (y, room) e)
      | inr full ↦ (saved, rw (y, full) refl)
    ]

-- `fs_normalize_path` ends on every text, and what it writes is the path of the components that
-- the words of the first 127 bytes lead to.
pub fs_normalize_path-resolve :
    (path : Text)
    → (saved : Saved) × (fs_normalize_path path
        ≡ some (render (resolve [] (words root (take (max_filename_length - 1) path))), saved))
unfolding fs_normalize_path words_of
fs_normalize_path-resolve path =
    let temp : Text = take (max_filename_length - 1) path in
    let (saved, e) =
      component_loop_lem (length temp + 2) (words root temp) (next_text root (some temp)).0
        (next_text root (some temp)).1 [] (next_text-words root (some temp))
        (omega (arith, next_text-rounds root (some temp))) in
    (saved, rw e refl)
