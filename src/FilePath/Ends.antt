-- ===== src/FilePath/Ends.antt =====
-- Where a slash stands at the end of what `fs_get_absolute_path` of kernel/fs.c leaves.
use mathlib.Core.Path.{subst, ◌∙◌}
use alpha_os.Prelude.{
  ℕ, zero, suc, ◌+◌, ◌-◌, ◌≡◌, ◌⊎◌, refl, ap, false, ◌==◌, some, [], ◌∷◌, ◌++◌, arith, inl, inr,
  length, length-append, get_or,
}
use alpha_os.CString.Spec.{Text}
use alpha_os.Strtok.Spec.{Saved, has}
use alpha_os.FilePath.{
  Components, slash, root, rebuild, render, ends_with_slash, fs_normalize_path,
  fs_get_absolute_path,
}
use alpha_os.FilePath.Render.{IsComponent, AllComponents}
use alpha_os.FilePath.Absolute.{fs_get_absolute_path-source}
use alpha_os.FilePath.Canonical.{fs_normalize_path-normal}

get_or-append : (a b : Text) (i : ℕ) → get_or (a ++ b) (length a + i) 0 ≡ get_or b i 0
get_or-append [] b i = ap (λ k. get_or b k 0) (omega arith)
get_or-append (c ∷ a) b i =
    let e : suc (length a) + i ≡ suc (length a + i) = omega arith in
    ap (λ k. get_or (c ∷ (a ++ b)) k 0) e ∙ get_or-append a b i

no_slash_at : (c : Text) (i : ℕ) → has slash c ≡ false → (get_or c i 0 == slash) ≡ false
unfolding has
no_slash_at [] i h = refl
no_slash_at (x ∷ c) zero h = ground (arith, h)
no_slash_at (x ∷ c) (suc i) h = no_slash_at c i (ground (arith, h))

component-ends : (a c : Text) → IsComponent c → ends_with_slash (a ++ (slash ∷ c)) ≡ false
component-ends a c ok =
    let n : length (a ++ (slash ∷ c)) - 1 ≡ length a + suc (length c - 1) =
      omega (arith, length-append {0} a (slash ∷ c), ok.not_empty) in
    let last : get_or (a ++ (slash ∷ c)) (length (a ++ (slash ∷ c)) - 1) 0
        ≡ get_or c (length c - 1) 0 =
      ap (λ k. get_or (a ++ (slash ∷ c)) k 0) n
      ∙ get_or-append a (slash ∷ c) (suc (length c - 1)) in
    rw last (no_slash_at c (length c - 1) ok.no_slash)

render-ends :
    (cs : Components)
    → AllComponents cs
    → (render cs ≡ root) ⊎ (ends_with_slash (render cs) ≡ false)
unfolding render rebuild
render-ends [] ok = inl refl
render-ends (c ∷ cs) ok = inr (component-ends (rebuild cs) c ok.0)

normal-ends :
    (path r : Text) (saved : Saved)
    → fs_normalize_path path ≡ some (r, saved)
    → (r ≡ root) ⊎ (ends_with_slash r ≡ false)
normal-ends path r saved e =
    let (cs, saved', e', ok, short) = fs_normalize_path-normal path in
    let same : render cs ≡ r = cc in
    subst (λ t. (t ≡ root) ⊎ (ends_with_slash t ≡ false)) same (render-ends cs ok)

-- What a name stands for ends with no slash, unless it is the root.
pub fs_get_absolute_path-ends :
    (name dir r : Text) (saved : Saved)
    → fs_get_absolute_path name dir ≡ some (r, saved)
    → (r ≡ root) ⊎ (ends_with_slash r ≡ false)
fs_get_absolute_path-ends name dir r saved e =
    let (q, e', from) = fs_get_absolute_path-source name dir r saved e in normal-ends q r saved e'
