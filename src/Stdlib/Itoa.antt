-- ===== src/Stdlib/Itoa.antt =====
-- The string that `itoa` of libc/stdlib.c leaves.
use native.Mathlib.Nat.{pow-zero, mod-lt, div-le_of_le-mul, pow-le-pow_left}
use alpha_os.Prelude.{
  ℕ, zero, suc, ◌+◌, ◌-◌, ◌/◌, ◌%◌, ◌^◌, ◌≤◌, ◌<◌, ◌≡◌, inl, inr, refl, sym, ap, ◌∙◌, Bool, true,
  false, ◌||◌, Option, some, List, [], ◌∷◌, ◌++◌, map, arith, ltb, ◌==◌, Bool-cases, if◌then◌else◌,
  length,
}
use mathlib.Core.Path.{subst}
use alpha_os.CString.{◌>>=◌}
use alpha_os.CString.Spec.{Text, IsString}
use alpha_os.Bytes.{Ptr, Memory, poke}
use alpha_os.Digits.Laws.{digits, length-digits, length-map, digits-nonempty, shorter}
use alpha_os.Stdlib.{
  is_negative, magnitude, quotient, digit_of, itoa_loop, reverse_loop, put_sign, itoa,
}
use alpha_os.Stdlib.Table.{letter, letter-nonzero, digit_of-letter}
use alpha_os.Stdlib.Back.{Back, Back-poke, close_string}

-- The numeral of a signed number.
abbrev pub numeral : (base value : ℕ) → Text
numeral base value =
    (if is_negative value then b'-' ∷ [] else [])
    ++ map letter (digits 32 base (magnitude value) [])

module _ (base : ℕ) (two : 1 < base) (top : base ≤ 36) where
  half : (value : ℕ) → value < 2 ^ 32 → magnitude value / base ≤ 2 ^ 30
  half value h = div-le_of_le-mul base {m = magnitude value} {n = 2 ^ 30} (ground arith)

  quotient-zero :
      (value : ℕ) → value < 2 ^ 32 → (quotient value base == 0) ≡ (magnitude value / base == 0)
  quotient-zero value h = ground (arith, half value h)

  quotient-sign :
      (value : ℕ)
      → value < 2 ^ 32
      → (magnitude value / base == 0) ≡ false
      → is_negative (quotient value base) ≡ is_negative value
  quotient-sign value h more = ground (arith, half value h)

  quotient-magnitude :
      (value : ℕ) → value < 2 ^ 32 → magnitude (quotient value base) ≡ magnitude value / base
  quotient-magnitude value h = ground (arith, half value h)

  quotient-word : (value : ℕ) → value < 2 ^ 32 → quotient value base < 2 ^ 32
  quotient-word value h = ground (arith, half value h)

  put_digit : (value : ℕ) (ptr : Ptr) → Memory → Memory
  put_digit value ptr m = poke m ptr (digit_of value (quotient value base) base)

  itoa_loop-last :
      (f value : ℕ) (ptr : Ptr) (m : Memory)
      → (quotient value base == 0) ≡ true
      → itoa_loop (suc f) value base ptr m ≡ some (value, ptr + 1, put_digit value ptr m)
  unfolding itoa_loop put_digit
  itoa_loop-last f value ptr m last = rw last refl

  itoa_loop-next :
      (f value : ℕ) (ptr : Ptr) (m : Memory)
      → (quotient value base == 0) ≡ false
      → itoa_loop (suc f) value base ptr m
        ≡ itoa_loop f (quotient value base) base (ptr + 1) (put_digit value ptr m)
  unfolding itoa_loop put_digit
  itoa_loop-next f value ptr m more = rw more refl

  -- What the loop over the digits leaves.
  record Written (str : Ptr) (value : ℕ) (all : List ℕ) (o : Option (ℕ × Ptr × Memory))
      : Type 0 where
    tmp_value : ℕ
    ptr : Ptr
    memory : Memory
    result : o ≡ some (tmp_value, ptr, memory)
    sign : is_negative tmp_value ≡ is_negative value
    end : ptr ≡ str + length all
    back : Back memory ptr (map letter all)

  positive : (f q : ℕ) → q < base ^ f → (q == 0) ≡ false → 0 < f
  positive zero q h more = absurd (ground (arith, pow-zero base))
  positive (suc f) q h more = omega arith

  itoa_loop_lem :
      (fuel value : ℕ) (str ptr : Ptr) (m : Memory) (ds : List ℕ)
      → value < 2 ^ 32
      → magnitude value < base ^ fuel
      → 0 < fuel
      → ptr ≡ str + length ds
      → Back m ptr (map letter ds)
      → Written str value (digits fuel base (magnitude value) ds) (itoa_loop fuel value base ptr m)
  unfolding digits
  itoa_loop_lem zero value str ptr m ds h fits pos at back = absurd (omega arith)
  itoa_loop_lem (suc f) value str ptr m ds h fits pos at back =
      let d : ℕ = magnitude value % base in
      let digit : d < 36 = omega (arith, mod-lt (magnitude value) {m = base} (omega arith)) in
      let put : put_digit value ptr m ≡ poke m ptr (letter d) =
        unfold put_digit in ap (poke m ptr) (digit_of-letter base two top value h) in
      let back' : Back (put_digit value ptr m) (ptr + 1) (map letter (d ∷ ds)) =
        subst (λ n. Back n (ptr + 1) (map letter (d ∷ ds))) (sym put)
          (Back-poke m ptr (letter d) (map letter ds) (letter-nonzero d digit) back) in
      elim (Bool-cases (magnitude value / base == 0)) [
        | inl last ↦ rw last (record {
          tmp_value = value;
          ptr = ptr + 1;
          memory = put_digit value ptr m;
          result = itoa_loop-last f value ptr m (quotient-zero value h ∙ last);
          sign = refl;
          end = omega (arith, at);
          back = back';
        })
        | inr more ↦
            let left : magnitude value / base < base ^ f =
              shorter base two f (magnitude value) fits in
            let some_left : 0 < f = positive f (magnitude value / base) left more in
            let w : Written str (quotient value base)
                (digits f base (magnitude value / base) (d ∷ ds))
                (itoa_loop f (quotient value base) base (ptr + 1) (put_digit value ptr m)) =
              subst
                (λ n.
                  Written str (quotient value base) (digits f base n (d ∷ ds))
                    (itoa_loop f (quotient value base) base (ptr + 1) (put_digit value ptr m)))
                (quotient-magnitude value h)
                (itoa_loop_lem f (quotient value base) str (ptr + 1) (put_digit value ptr m)
                  (d ∷ ds) (quotient-word value h)
                  (subst (λ n. n < base ^ f) (sym (quotient-magnitude value h)) left) some_left
                  (omega (arith, at)) back') in
            rw more (record {
              tmp_value = w.tmp_value;
              ptr = w.ptr;
              memory = w.memory;
              result = itoa_loop-next f value ptr m (quotient-zero value h ∙ more) ∙ w.result;
              sign = w.sign ∙ quotient-sign value h more;
              end = w.end;
              back = w.back;
            })
      ]

itoa-steps :
    (value str base : ℕ) (m m1 : Memory) (last ptr : ℕ)
    → (ltb base 2 || ltb 36 base) ≡ false
    → itoa_loop 32 value base str m ≡ some (last, ptr, m1)
    → itoa value str base m ≡ (
        reverse_loop 32 str
          ((put_sign last ptr m1).0 - 1)
          (poke (put_sign last ptr m1).1 (put_sign last ptr m1).0 0)
        >>= λ m3. some (str, m3))
unfolding itoa
itoa-steps value str base m m1 last ptr ok e = rw (ok, e) refl

-- For every `int` (as its word) and every base from 2 to 36, `itoa` returns its argument `str`, and
-- leaves there the string of the number: a minus sign where it is negative, and the digits of its
-- magnitude in the base, in lower case.
pub itoa_lem :
    (value : ℕ) (str : Ptr) (base : ℕ) (m : Memory)
    → value < 2 ^ 32
    → 1 < base
    → base ≤ 36
    → (m' : Memory) × (itoa value str base m ≡ some (str, m'))
      × IsString m' str (numeral base value)
itoa_lem value str base m h two top = elim (Bool-cases (is_negative value)) [
  | inl neg ↦
      let (m', e, string) =
        close_string (poke w.memory w.ptr b'-') str (w.ptr + 1) (b'-' ∷ map letter all)
          (omega (arith, w.end, same_length)) (omega arith) (omega (arith, same_length, short))
          (Back-poke w.memory w.ptr b'-' (map letter all) (λ z. absurd (omega arith)) w.back) in
      let sign : is_negative w.tmp_value ≡ true = w.sign ∙ neg in
      (m', steps ∙ rw (sign, e) refl, subst (λ t. IsString m' str t) (sym (signed neg)) string)
  | inr pos ↦
      let (m', e, string) =
        close_string w.memory str w.ptr (map letter all) (omega (arith, w.end, same_length))
          (omega (arith, same_length, digits-nonempty 31 base (magnitude value) []))
          (omega (arith, same_length, short)) w.back in
      let sign : is_negative w.tmp_value ≡ false = w.sign ∙ pos in
      (m', steps ∙ rw (sign, e) refl, subst (λ t. IsString m' str t) (sym (signed pos)) string)
]
  where
    all : List ℕ
    all = digits 32 base (magnitude value) []

    signed :
        {b : Bool}
        → is_negative value ≡ b
        → numeral base value ≡ (if b then b'-' ∷ [] else []) ++ map letter all
    signed e = ap (λ b. (if b then b'-' ∷ [] else []) ++ map letter all) e

    fits : magnitude value < base ^ 32
    fits = ground (arith, pow-le-pow_left {n = 2} {m = base} two 32)

    w : Written base two top str value all (itoa_loop 32 value base str m)
    w = itoa_loop_lem base two top 32 value str str m [] h fits (omega arith) (omega arith) tt

    same_length : length (map letter all) ≡ length all
    same_length = length-map letter all

    short : length all ≤ 32
    short = omega (arith, length-digits 32 base (magnitude value) [])

    steps : itoa value str base m ≡ (
        reverse_loop 32 str
          ((put_sign w.tmp_value w.ptr w.memory).0 - 1)
          (poke (put_sign w.tmp_value w.ptr w.memory).1 (put_sign w.tmp_value w.ptr w.memory).0 0)
        >>= λ m3. some (str, m3))
    steps = itoa-steps value str base m w.memory w.tmp_value w.ptr (ground arith) w.result
