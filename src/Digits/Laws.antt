-- ===== src/Digits/Laws.antt =====
-- A number has the digits that are written, and no others: they are worth the number, and the first
-- is 0 for the number 0 alone.
use native.Mathlib.Nat.{pow-zero, mod-lt, div-add-mod', div-lt_iff_lt-mul, pow-suc}
use alpha_os.Prelude.{
  ℕ, zero, suc, ◌+◌, ◌*◌, ◌/◌, ◌%◌, ◌^◌, ◌≤◌, ◌<◌, ◌≡◌, refl, ap, ◌∙◌, true, some, List, [], ◌∷◌,
  map, arith, ◌==◌, Bool-cases, length, inl, inr, if◌then◌else◌,
}
use alpha_os.Digits.{digit_loop}

-- What digits are worth behind a number `n`.
abbrev pub worth : (base n : ℕ) → List ℕ → ℕ
worth base n [] = n
worth base n (d ∷ ds) = worth base (n * base + d) ds

abbrev pub AllBelow : ℕ → List ℕ → Type 0
AllBelow base [] = Unit {0}
AllBelow base (d ∷ ds) = (d < base) × AllBelow base ds

-- The digits as numbers, in the order in which they are written.
unfoldable pub digits : (fuel base value : ℕ) → List ℕ → List ℕ
digits zero base value ds = ds
digits (suc f) base value ds =
    let rest = digits f base (value / base) (value % base ∷ ds) in
    if value / base == 0 then value % base ∷ ds else rest

pub length-digits :
    (fuel base value : ℕ) (ds : List ℕ) → length (digits fuel base value ds) ≤ fuel + length ds
unfolding digits
length-digits zero base value ds = omega arith
length-digits (suc f) base value ds =
    ground (arith, length-digits f base (value / base) (value % base ∷ ds))

digits-longer : (f base value : ℕ) (ds : List ℕ) → length ds ≤ length (digits f base value ds)
unfolding digits
digits-longer zero base value ds = omega arith
digits-longer (suc f) base value ds =
    ground (arith, digits-longer f base (value / base) (value % base ∷ ds))

pub digits-nonempty : (f base value : ℕ) (ds : List ℕ) → 0 < length (digits (suc f) base value ds)
unfolding digits
digits-nonempty f base value ds =
    ground (arith, digits-longer f base (value / base) (value % base ∷ ds))

pub length-map : (f : ℕ → ℕ) (ds : List ℕ) → length (map f ds) ≡ length ds
length-map f [] = refl
length-map f (d ∷ ds) = ap suc (length-map f ds)

abbrev pub leading : List ℕ → ℕ
leading [] = 0
leading (d ∷ ds) = d

module _ (base : ℕ) (two : 1 < base) where
  pub shorter : (f value : ℕ) → value < base ^ suc f → value / base < base ^ f
  shorter f value h =
      (div-lt_iff_lt-mul {k = base} {x = value} {y = base ^ f} (omega arith)).1
        (omega (arith, pow-suc base f))

  lone_digit : (value : ℕ) → (value / base == 0) ≡ true → value % base ≡ value
  lone_digit value last =
      let none_left : value / base ≡ 0 = ground arith in
      let whole : 0 * base + value % base ≡ value = rw none_left at (div-add-mod' value base) in
      omega (arith, whole)

  pub digits-worth :
      (fuel value : ℕ) (ds : List ℕ)
      → value < base ^ fuel
      → worth base 0 (digits fuel base value ds) ≡ worth base value ds
  unfolding digits
  digits-worth zero value ds h =
      let nothing : value ≡ 0 = omega (arith, pow-zero base) in rw nothing refl
  digits-worth (suc f) value ds h = elim (Bool-cases (value / base == 0)) [
    | inl last ↦
        let e : 0 * base + value % base ≡ value = omega (arith, lone_digit value last) in
        rw last (ap (λ n. worth base n ds) e)
    | inr more ↦ rw more (
        digits-worth f (value / base) (value % base ∷ ds) (shorter f value h)
        ∙ ap (λ n. worth base n ds) (div-add-mod' value base))
  ]

  pub digits-AllBelow :
      (fuel value : ℕ) (ds : List ℕ) → AllBelow base ds → AllBelow base (digits fuel base value ds)
  unfolding digits
  digits-AllBelow zero value ds h = h
  digits-AllBelow (suc f) value ds h =
      let below = mod-lt value {m = base} (omega arith) in
      elim (Bool-cases (value / base == 0)) [
        | inl last ↦ rw last (below, h)
        | inr more ↦ rw more (digits-AllBelow f (value / base) (value % base ∷ ds) (below, h))
      ]

  pub leading-digits :
      (fuel value : ℕ) (ds : List ℕ)
      → value < base ^ fuel
      → 0 < value
      → 0 < leading (digits fuel base value ds)
  unfolding digits
  leading-digits zero value ds h pos = absurd (omega (arith, pow-zero base))
  leading-digits (suc f) value ds h pos = elim (Bool-cases (value / base == 0)) [
    | inl last ↦ rw last (omega (arith, lone_digit value last))
    | inr more ↦
        rw more
          (leading-digits f (value / base) (value % base ∷ ds) (shorter f value h) (ground arith))
  ]

  -- The loop ends within the room that the number needs, with its digits.
  pub digit_loop-digits :
      (fuel value : ℕ) (digit : ℕ → ℕ) (ds : List ℕ)
      → value < base ^ fuel
      → 0 < fuel
      → digit_loop fuel base digit value (map digit ds)
        ≡ some (map digit (digits fuel base value ds))
  unfolding digits digit_loop
  digit_loop-digits zero value digit ds h pos = absurd (omega arith)
  digit_loop-digits (suc zero) value digit ds h pos =
      let last : (value / base == 0) ≡ true = ground (arith, shorter 0 value h, pow-zero base) in
      rw last refl
  digit_loop-digits (suc (suc f)) value digit ds h pos = elim (Bool-cases (value / base == 0)) [
    | inl last ↦ rw last refl
    | inr more ↦ rw more (
        digit_loop-digits (suc f) (value / base) digit (value % base ∷ ds) (shorter (suc f) value h)
          (omega arith))
  ]
