-- ===== src/Shell/Calc.antt =====
-- `cmd_calc` of kernel/shell.c in the integers: what the `switch` leaves for two operands.
use alpha_os.Prelude.{
  ℕ, zero, suc, ◌+◌, ◌-◌, ◌*◌, ◌/◌, ◌%◌, ◌^◌, ◌≤◌, ◌<◌, ◌≡◌, ◌≢◌, ap, ◌∙◌, sym, false, Option, none,
  some, [], arith, ◌==◌, ◌&&◌, List, if◌then◌else◌, Bool-cases, inl, inr,
}
use mathlib.Core.Path.{subst}
use alpha_os.Prelude.Int.{ℤ, pos, negsuc, pos_part, neg_part, ◌+ℤ◌, ◌-ℤ◌, ◌*ℤ◌}
use alpha_os.Stdlib.{opposite}
use alpha_os.Shell.{Output}
use alpha_os.Shell.Numbers.{divide, calculate}

-- The word of 32 bits that stands for an integer.
abbrev pub to_word : ℤ → ℕ
to_word (pos n) = n % 2 ^ 32
to_word (negsuc n) = 2 ^ 32 - 1 - n % 2 ^ 32

-- What an `int` holds.
abbrev pub IsInt : ℤ → Type 0
IsInt z = (pos_part z < 2 ^ 31) × (neg_part z ≤ 2 ^ 31)

abbrev minus : ℕ → ℤ
minus zero = pos 0
minus (suc n) = negsuc n

-- The quotient rounded towards zero.
abbrev quotient_ℤ : ℤ → ℤ → ℤ
quotient_ℤ (pos a) (pos b) = pos (a / b)
quotient_ℤ (pos a) (negsuc b) = minus (a / suc b)
quotient_ℤ (negsuc a) (pos b) = minus (suc a / b)
quotient_ℤ (negsuc a) (negsuc b) = pos (suc a / suc b)

abbrev divided : ℤ → ℤ → Option ℤ
divided x (pos zero) = none
divided x (pos (suc b)) = some (quotient_ℤ x (pos (suc b)))
divided x (negsuc b) = some (quotient_ℤ x (negsuc b))

-- The integer that an expression stands for; none for a division by zero and for another operator.
abbrev pub value_of : (op : ℕ) (x y : ℤ) → Option ℤ
value_of op x y =
    if op == b'+'
    then some (x +ℤ y)
    else if op == b'-'
    then some (x -ℤ y)
    else if op == b'*'
    then some (x *ℤ y)
    else if op == b'/'
    then divided x y
    else none

-- Products with the words of negative numbers.
mul_complement : (a b : ℕ) → b < 2 ^ 32 → a * (2 ^ 32 - 1 - b) + a * suc b ≡ a * 2 ^ 32
mul_complement a b h =
    let c : ℕ = 2 ^ 32 - 1 - b in
    let e : c + suc b ≡ 2 ^ 32 = omega arith in
    let d : a * c + a * suc b ≡ a * (c + suc b) = grind arith in d ∙ ap (λ n. a * n) e

complement_mul : (a b : ℕ) → a < 2 ^ 32 → (2 ^ 32 - 1 - a) * b + suc a * b ≡ 2 ^ 32 * b
complement_mul a b h =
    let c : ℕ = 2 ^ 32 - 1 - a in
    let e : c + suc a ≡ 2 ^ 32 = omega arith in
    let d : c * b + suc a * b ≡ (c + suc a) * b = grind arith in d ∙ ap (λ n. n * b) e

product_word :
    (x y : ℤ)
    → IsInt x
    → IsInt y
    → IsInt (x *ℤ y)
    → to_word x * to_word y % 2 ^ 32 ≡ to_word (x *ℤ y)
unfolding ◌*ℤ◌
product_word (pos a) (pos b) hx hy h = ground arith
product_word (pos a) (negsuc b) hx hy h =
    let e : a % 2 ^ 32 ≡ a = omega arith in
    let f : b % 2 ^ 32 ≡ b = omega arith in rw (e, f) (ground (arith, mul_complement a b))
product_word (negsuc a) (pos b) hx hy h =
    let e : a % 2 ^ 32 ≡ a = omega arith in
    let f : b % 2 ^ 32 ≡ b = omega arith in rw (e, f) (ground (arith, complement_mul a b))
product_word (negsuc a) (negsuc b) hx hy h =
    let e : a % 2 ^ 32 ≡ a = omega arith in
    let f : b % 2 ^ 32 ≡ b = omega arith in
    rw (e, f) (ground (arith, mul_complement (2 ^ 32 - 1 - a) b, complement_mul a (suc b)))

module _ (x y : ℤ) (hx : IsInt x) (hy : IsInt y) where
  sum_word : IsInt (x +ℤ y) → (to_word x + to_word y) % 2 ^ 32 ≡ to_word (x +ℤ y)
  unfolding ◌+ℤ◌
  sum_word h = ground arith

  difference_word : IsInt (x -ℤ y) → (to_word x + opposite (to_word y)) % 2 ^ 32 ≡ to_word (x -ℤ y)
  unfolding ◌-ℤ◌
  difference_word h = ground arith

  quotient_word :
      y ≢ pos 0 → IsInt (quotient_ℤ x y) → divide (to_word x) (to_word y) ≡ to_word (quotient_ℤ x y)
  quotient_word h k = ground arith

word_zero : (y : ℤ) → IsInt y → y ≢ pos 0 → (to_word y == 0) ≡ false
word_zero y h k = ground arith

no_trap :
    (x y : ℤ)
    → IsInt x
    → IsInt y
    → y ≢ pos 0
    → IsInt (quotient_ℤ x y)
    → ((to_word x == 2 ^ 31) && (to_word y == 2 ^ 32 - 1)) ≡ false
no_trap x y hx hy k h = ground arith

divided-some : (x y z : ℤ) → divided x y ≡ some z → (y ≢ pos 0) × (quotient_ℤ x y ≡ z)
divided-some x (pos zero) z e = absurd (cc)
divided-some x (pos (suc b)) z e = (λ k. absurd (cc), cc)
divided-some x (negsuc b) z e = (λ k. absurd (cc), cc)

abbrev switched : ℕ → Option (Option ℕ × List Output)
switched n = some (some n, [])

-- The branch of an operator whose value is `u`.
branch :
    (u z : ℤ) (n : ℕ)
    → some u ≡ some z
    → IsInt z
    → (IsInt u → n ≡ to_word u)
    → switched n ≡ switched (to_word z)
branch u z n e hz f = let v : u ≡ z = cc in ap switched (f (subst IsInt (sym v) hz) ∙ ap to_word v)

-- The branch of a division.
calculate-divided :
    (x y z : ℤ)
    → IsInt x
    → IsInt y
    → divided x y ≡ some z
    → IsInt z
    → calculate b'/' (to_word x) (to_word y) ≡ some (some (to_word z), [])
unfolding calculate
calculate-divided x y z hx hy e hz =
    let (k, v) = divided-some x y z e in
    let hq : IsInt (quotient_ℤ x y) = subst IsInt (sym v) hz in
    rw (word_zero y hy k, no_trap x y hx hy k hq)
      (branch (quotient_ℤ x y) z _ (ap some v) hz (quotient_word x y hx hy k))

-- Where an operator gives two integers a value that an `int` holds, `calculate` gives its word.
pub calculate_lem :
    (op : ℕ) (x y z : ℤ)
    → IsInt x
    → IsInt y
    → value_of op x y ≡ some z
    → IsInt z
    → calculate op (to_word x) (to_word y) ≡ some (some (to_word z), [])
unfolding calculate
calculate_lem op x y z hx hy e hz = elim (Bool-cases (op == b'+')) [
  | inl plus ↦ rw plus (branch (x +ℤ y) z _ (rw plus at e) hz (sum_word x y hx hy))
  | inr not_plus ↦ elim (Bool-cases (op == b'-')) [
    | inl dash ↦
        rw (not_plus, dash)
          (branch (x -ℤ y) z _ (rw (not_plus, dash) at e) hz (difference_word x y hx hy))
    | inr not_dash ↦ elim (Bool-cases (op == b'*')) [
      | inl star ↦
          rw (not_plus, not_dash, star)
            (branch (x *ℤ y) z _ (rw (not_plus, not_dash, star) at e) hz (product_word x y hx hy))
      | inr not_star ↦ elim (Bool-cases (op == b'/')) [
        | inl stroke ↦
            let s : op ≡ b'/' = ground arith in
            rw s (calculate-divided x y z hx hy (rw (not_plus, not_dash, not_star, stroke) at e) hz)
        | inr other ↦
            let impossible : none ≡ some z = rw (not_plus, not_dash, not_star, other) at e in
            absurd (cc)
      ]
    ]
  ]
]
