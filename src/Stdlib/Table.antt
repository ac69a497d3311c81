-- ===== src/Stdlib/Table.antt =====
-- The characters that `itoa` of libc/stdlib.c takes from its table, and the quotients of its loop.
use native.Mathlib.Nat.{div-add-mod', mod-lt, add-mul, div-le_self}
use alpha_os.Prelude.{
  ℕ, zero, suc, ◌+◌, ◌-◌, ◌*◌, ◌/◌, ◌%◌, ◌^◌, ◌≤◌, ◌<◌, ◌≡◌, ◌≢◌, refl, sym, ap, ◌∙◌, Bool, true,
  false, ◌&&◌, not, arith, ◌==◌, codes, get_or, Bool-cases, inl, inr,
}
use alpha_os.Stdlib.{is_negative, magnitude, opposite, quotient, digit_of, digit_table}

-- The digits of the bases up to 36.
abbrev pub letter : ℕ → ℕ
letter d = get_or (codes "0123456789abcdefghijklmnopqrstuvwxyz") d 0

all_below : ℕ → (ℕ → Bool) → Bool
all_below zero f = true
all_below (suc n) f = let rest = all_below n f in f n && rest

all_below-lt : (n : ℕ) (f : ℕ → Bool) (d : ℕ) → all_below n f ≡ true → d < n → f d ≡ true
unfolding all_below
all_below-lt zero f d h lt = absurd (omega arith)
all_below-lt (suc n) f d h lt = elim (Bool-cases (d == n)) [
  | inl last ↦ let e : d ≡ n = ground arith in ap f e ∙ first (f n) (all_below n f) h
  | inr before ↦ all_below-lt n f d (second (f n) (all_below n f) h) (ground arith)
]
  where
    first : (a b : Bool) → (a && b) ≡ true → a ≡ true
    first true b e = refl
    first false b e = e

    second : (a b : Bool) → (a && b) ≡ true → b ≡ true
    second true b e = e
    second false b e = absurd (cc)

check : (f : ℕ → Bool) (d : ℕ) → all_below 36 f ≡ true → d < 36 → f d ≡ true
check f d h lt = all_below-lt 36 f d h lt

table-up : (d : ℕ) → d < 36 → get_or digit_table (35 + d) 0 ≡ letter d
unfolding all_below
table-up d h =
    let e : (get_or digit_table (35 + d) 0 == letter d) ≡ true =
      check (λ x. get_or digit_table (35 + x) 0 == letter x) d refl h in
    ground arith

table-down : (d : ℕ) → d < 36 → get_or digit_table (35 - d) 0 ≡ letter d
unfolding all_below
table-down d h =
    let e : (get_or digit_table (35 - d) 0 == letter d) ≡ true =
      check (λ x. get_or digit_table (35 - x) 0 == letter x) d refl h in
    ground arith

pub letter-nonzero : (d : ℕ) → d < 36 → letter d ≢ 0
unfolding all_below
letter-nonzero d h =
    let e : not (letter d == 0) ≡ true = check (λ x. not (letter x == 0)) d refl h in
    λ z. ground arith

index-up :
    (v q r : ℕ)
    → q + r ≡ v
    → v < 2 ^ 31
    → r < 36
    → (35 + v + (2 ^ 32 - q % 2 ^ 32)) % 2 ^ 32 ≡ 35 + r
index-up v q r e small digit = omega arith

index-down :
    (v x p r : ℕ)
    → p + r ≡ 2 ^ 32 - v
    → 2 ^ 31 ≤ v
    → v < 2 ^ 32
    → x % 2 ^ 32 ≡ (2 ^ 32 - p) % 2 ^ 32
    → r < 36
    → (35 + v + (2 ^ 32 - x % 2 ^ 32)) % 2 ^ 32 ≡ 35 - r
index-down v x p r e large small same digit = rw same (omega arith)

-- The product with the opposite is the opposite of the product.
opposite-mul :
    (q b p : ℕ)
    → q * b ≡ p
    → p ≤ 2 ^ 31
    → q ≤ 2 ^ 31
    → 0 < b
    → (opposite q * b) % 2 ^ 32 ≡ (2 ^ 32 - p) % 2 ^ 32
opposite-mul q b p e small few pos = elim (Bool-cases (q == 0)) [
  | inl zero_q ↦
      let z : q ≡ 0 = ground arith in
      let nothing : 0 * b ≡ p = rw z at e in
      let o : opposite q ≡ 0 = ap opposite z in rw o (omega (arith, nothing))
  | inr more ↦
      let o : opposite q ≡ 2 ^ 32 - q = ground arith in
      let whole : 2 ^ 32 - q + q ≡ 2 ^ 32 = omega arith in
      let sum : (2 ^ 32 - q) * b + q * b ≡ 2 ^ 32 * b =
        sym (add-mul (2 ^ 32 - q) q b) ∙ ap (λ n. n * b) whole in
      rw o (omega (arith, sum, e))
]

module _ (base : ℕ) (two : 1 < base) (top : base ≤ 36) where
  -- One round takes the last digit of the magnitude.
  pub digit_of-letter :
      (value : ℕ)
      → value < 2 ^ 32
      → digit_of value (quotient value base) base ≡ letter (magnitude value % base)
  digit_of-letter value h = elim (Bool-cases (is_negative value)) [
    | inl neg ↦
        let m : ℕ = 2 ^ 32 - value in
        let r : m % base < 36 = omega (arith, mod-lt m {m = base} (omega arith)) in
        let e = div-add-mod' m base in
        let i : (35 + value + (2 ^ 32 - (opposite (m / base) * base) % 2 ^ 32)) % 2 ^ 32
            ≡ 35 - m % base =
          index-down value (opposite (m / base) * base) (m / base * base) (m % base) e
            (ground arith) h
            (opposite-mul (m / base) base (m / base * base) refl (ground (arith, e))
              (ground (arith, div-le_self m base)) (omega arith))
            r in
        rw (neg, i) (table-down (m % base) r)
    | inr pos ↦
        let r : value % base < 36 = omega (arith, mod-lt value {m = base} (omega arith)) in
        let i : (35 + value + (2 ^ 32 - (value / base * base) % 2 ^ 32)) % 2 ^ 32
            ≡ 35 + value % base =
          index-up value (value / base * base) (value % base) (div-add-mod' value base)
            (ground arith) r in
        rw (pos, i) (table-up (value % base) r)
  ]
