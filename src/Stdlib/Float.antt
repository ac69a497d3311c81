-- ===== src/Stdlib/Float.antt =====
-- `atof` of libc/stdlib.c, over what the processor's floating-point numbers give: the type `double` and
-- its operations are a parameter.
use alpha_os.Prelude.{ℕ, ◌+◌, ◌-◌, ◌*◌, ◌^◌, ◌≤◌, ◌<◌, ◌≡◌, ◌&&◌, [], ◌∷◌, leb, ◌==◌, if◌then◌else◌}
use alpha_os.Prelude.Int.{ℤ, pos, negsuc}
use alpha_os.CString.Spec.{Text}
use alpha_os.Stdlib.{skip_blanks}

-- `of_int` is the conversion of an integer.
pub record Double : Type 1 where
  pub Value : Type 0
  pub of_int : ℤ → Value
  pub add : Value → Value → Value
  pub mul : Value → Value → Value
  pub div : Value → Value → Value

-- IEEE 754: an operation on integers is exact where its result is an integer of at most 53 bits. (A zero
-- has no opposite among the integers.)
pub record IsExact (d : Double) : Type 0 where
  pub adds :
      (a b : ℕ)
      → a + b ≤ 2 ^ 53
      → d.add (d.of_int (pos a)) (d.of_int (pos b)) ≡ d.of_int (pos (a + b))
  pub muls :
      (a b : ℕ)
      → a * b ≤ 2 ^ 53
      → d.mul (d.of_int (pos a)) (d.of_int (pos b)) ≡ d.of_int (pos (a * b))
  pub opposes :
      (a : ℕ)
      → 0 < a
      → a ≤ 2 ^ 53
      → d.mul (d.of_int (pos a)) (d.of_int (negsuc 0)) ≡ d.of_int (negsuc (a - 1))

module _ (d : Double) where
  open d use {Value, of_int, add, mul, div}

  -- `while (*nptr >= '0' && *nptr <= '9') ..` before the point: the result, and what `nptr` points to.
  unfoldable pub whole_loop : (nptr : Text) (result : Value) → Value × Text
  whole_loop [] result = (result, [])
  whole_loop (c ∷ s) result =
      let rest = whole_loop s (add (mul result (of_int (pos 10))) (of_int (pos (c - b'0')))) in
      if leb b'0' c && leb c b'9' then rest else (result, c ∷ s)

  -- The loop behind the point.
  unfoldable pub fraction_loop : (nptr : Text) (result fraction : Value) → Value
  fraction_loop [] result fraction = result
  fraction_loop (c ∷ s) result fraction =
      let fraction' : Value = div fraction (of_int (pos 10)) in
      let rest = fraction_loop s (add result (mul (of_int (pos (c - b'0'))) fraction')) fraction' in
      if leb b'0' c && leb c b'9' then rest else result

  -- `if (*nptr == '.') ..`
  unfoldable pub read_point : Value × Text → Value
  read_point (result, []) = result
  read_point (result, c ∷ s) = if c == b'.' then fraction_loop s result (of_int (pos 1)) else result

  -- What follows the sign.
  abbrev pub read_double : Text → Value
  read_double nptr = read_point (whole_loop nptr (of_int (pos 0)))

  -- What follows the blanks; an end there leaves 0.0 and the sign 1.
  unfoldable pub read_signed_double : Text → Value
  read_signed_double [] = mul (read_double []) (of_int (pos 1))
  read_signed_double (c ∷ s) =
      if c == b'-'
      then mul (read_double s) (of_int (negsuc 0))
      else if c == b'+'
      then mul (read_double s) (of_int (pos 1))
      else mul (read_double (c ∷ s)) (of_int (pos 1))

  unfoldable pub atof : (nptr : Text) → Value
  atof nptr = read_signed_double (skip_blanks nptr)
