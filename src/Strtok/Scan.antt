-- ===== src/Strtok/Scan.antt =====
-- The two scans of `strtok` (libc/string.c) on a terminated string.
use alpha_os.Prelude.{
  ℕ, zero, suc, ◌+◌, ◌<◌, ◌≡◌, ◌≢◌, refl, true, false, not, some, [], ◌∷◌, arith, ◌==◌, Bool-cases,
  inl, inr, length,
}
use alpha_os.Bytes.{Ptr, null, Memory}
use alpha_os.CString.Spec.{Text, IsString}
use alpha_os.CString.Scan.{index, pointer, strchr_lem}
use alpha_os.Strtok.{at_delimiter, scan_loop}
use alpha_os.Strtok.Spec.{has, skip, token_of}

pointer-has :
    (q : Ptr) (c : ℕ) (ds : Text) → 0 < q → (pointer q (index c ds) == null) ≡ not (has c ds)
unfolding has
pointer-has q c [] pos = ground arith
pointer-has q c (x ∷ ds) pos = ground (arith, pointer-has q c ds)

-- The delimiters `ds`, at the address `q`, are read with fuel `g`.
module _ (ds : Text) (q : Ptr) (g : ℕ) (m : Memory) (delims : IsString m q ds) (ne_null : 0 < q)
    (enough : length ds < g) where
  at_delimiter_lem : (p : Ptr) → m p ≢ 0 → at_delimiter g p q m ≡ some (has (m p) ds)
  unfolding at_delimiter
  at_delimiter_lem p ne =
      rw (strchr_lem ds g q (m p) m delims ne enough)
        (ground (arith, pointer-has q (m p) ds ne_null))

  -- Skipping leaves the string at the place where the plain function does.
  pub skip_loop_lem :
      (s : Text) (fuel : ℕ) (p : Ptr)
      → IsString m p s
      → length s < fuel
      → (p' : Ptr) × (scan_loop fuel g true p q m ≡ some p')
        × IsString m p' (skip ds s)
        × (p' + length (skip ds s) ≡ p + length s)
  unfolding scan_loop skip
  skip_loop_lem s zero p h lt = absurd (omega arith)
  skip_loop_lem [] (suc f) p h lt = (p, ground arith, h, refl)
  skip_loop_lem (c ∷ s) (suc f) p h lt =
      let test = at_delimiter_lem p (ground arith) in
      elim (Bool-cases (has c ds)) [
        | inl hit ↦
            let (p', e, str, len) = skip_loop_lem s f (p + 1) h.2 (omega arith) in
            (p', ground (arith, test), rw hit str, rw hit (omega arith))
        | inr miss ↦ (p, ground (arith, test), rw miss h, rw miss refl)
      ]

  -- The end of a token is behind as many bytes as the token has.
  pub token_loop_lem :
      (s : Text) (fuel : ℕ) (p : Ptr)
      → IsString m p s
      → length s < fuel
      → scan_loop fuel g false p q m ≡ some (p + length (token_of ds s))
  unfolding scan_loop token_of
  token_loop_lem s zero p h lt = absurd (omega arith)
  token_loop_lem [] (suc f) p h lt = ground arith
  token_loop_lem (c ∷ s) (suc f) p h lt =
      let test = at_delimiter_lem p (ground arith) in
      elim (Bool-cases (has c ds)) [
        | inl hit ↦ ground (arith, test)
        | inr miss ↦ ground (arith, test, token_loop_lem s f (p + 1) h.2)
      ]
