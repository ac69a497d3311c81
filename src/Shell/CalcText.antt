-- ===== src/Shell/CalcText.antt =====
-- `cmd_calc` of kernel/shell.c from the texts of its arguments to the text on the screen.
use alpha_os.Prelude.{
  ℕ, suc, ◌-◌, ◌%◌, ◌^◌, ◌≤◌, ◌<◌, ◌≡◌, ◌≢◌, refl, ap, ◌∙◌, true, false, some, List, [], ◌∷◌, ◌++◌,
  codes, map, arith, ltb, ◌==◌, length, length-append, take-eq_self,
}
use alpha_os.Prelude.Int.{ℤ, pos, negsuc, pos_part, neg_part}
use alpha_os.CString.Spec.{Text}
use alpha_os.Digits.Laws.{digits, digits-AllBelow}
use alpha_os.Stdio.{Arg, word, decimal_digit, limit, vprintf}
use alpha_os.Stdio.Spec.{int_text, expand}
use alpha_os.Stdio.Expand.{vsprintf-expand}
use alpha_os.Stdlib.{opposite, atoi}
use alpha_os.Stdlib.Integer.{number_text}
use alpha_os.Stdlib.Numeral.{atoi-digits, atoi-minus}
use alpha_os.Stdlib.RoundTrip.{digits-number, length-decimal_text}
use alpha_os.Console.{Console, VgaColor, console_set_color, console_write}
use alpha_os.Shell.{World, paint, print, grey, show, display}
use alpha_os.Shell.Numbers.{promoted, cmd_calc}
use alpha_os.Shell.Texts.{NoZero, c_string-NoZero}
use alpha_os.Shell.Calc.{to_word, IsInt, value_of, calculate_lem}

-- An `int` other than -2 ^ 31.
abbrev pub IsShown : ℤ → Type 0
IsShown z = (pos_part z < 2 ^ 31) × (neg_part z < 2 ^ 31)

atoi-number_text : (z : ℤ) → IsShown z → atoi (number_text z) ≡ to_word z
atoi-number_text (pos n) h =
    atoi-digits (digits 32 10 n []) (digits-AllBelow 10 (omega arith) 32 n [] tt)
    ∙ digits-number n (omega arith)
    ∙ omega arith
atoi-number_text (negsuc n) h =
    atoi-minus (digits 32 10 (suc n) []) (digits-AllBelow 10 (omega arith) 32 (suc n) [] tt)
    ∙ ap opposite (digits-number (suc n) (omega arith))
    ∙ omega arith

int_text-number_text : (z : ℤ) → IsShown z → int_text (to_word z) ≡ some (number_text z)
int_text-number_text (pos n) h =
    let e : n % 2 ^ 32 ≡ n = omega arith in
    let s : ltb n (2 ^ 31) ≡ true = ground arith in rw (e, s) refl
int_text-number_text (negsuc n) h =
    let e : n % 2 ^ 32 ≡ n = omega arith in
    let s : ltb (2 ^ 32 - 1 - n) (2 ^ 31) ≡ false = ground arith in
    let d : (2 ^ 32 - 1 - n == 2 ^ 31) ≡ false = ground arith in
    let b : 2 ^ 32 - (2 ^ 32 - 1 - n) ≡ suc n = omega arith in rw (e, s, d, b) refl

word_small : (z : ℤ) → ltb (to_word z) (2 ^ 32) ≡ true
word_small z = ground arith

promoted_byte : (op : ℕ) → op < 256 → promoted op % 2 ^ 8 ≡ op
promoted_byte op h = ground arith

-- The line that `calc` shows.
abbrev pub result_text : (op : ℕ) (x y z : ℤ) → Text
result_text op x y z =
    number_text x
    ++ (b' ' ∷ op ∷ b' ' ∷ (number_text y ++ (codes " = " ++ (number_text z ++ 10 ∷ []))))

expand-result :
    (op : ℕ) (x y z : ℤ)
    → op < 256
    → IsShown x
    → IsShown y
    → IsShown z
    → expand
        (codes "%d %c %d = %d\n")
        (word (to_word x) ∷ word (promoted op) ∷ word (to_word y) ∷ word (to_word z) ∷ [])
      ≡ some (result_text op x y z)
unfolding expand
expand-result op x y z small hx hy hz =
    let c : ltb (promoted op) (2 ^ 32) ≡ true = ground arith in
    rw
      (
        word_small x,
        int_text-number_text x hx,
        c,
        promoted_byte op small,
        word_small y,
        int_text-number_text y hy,
        word_small z,
        int_text-number_text z hz,
      )
      refl

digits-NoZero : (ds : List ℕ) → NoZero (map decimal_digit ds)
digits-NoZero [] = tt
digits-NoZero (d ∷ ds) = (λ e. absurd (omega arith), digits-NoZero ds)

number_text-NoZero : (z : ℤ) → NoZero (number_text z)
number_text-NoZero (pos n) = digits-NoZero (digits 32 10 n [])
number_text-NoZero (negsuc n) = (λ e. absurd (omega arith), digits-NoZero (digits 32 10 (suc n) []))

pub append-NoZero : (a b : Text) → NoZero a → NoZero b → NoZero (a ++ b)
append-NoZero [] b ha hb = hb
append-NoZero (c ∷ a) b (shown, ha) hb = (shown, append-NoZero a b ha hb)

result_text-NoZero : (op : ℕ) (x y z : ℤ) → op ≢ 0 → NoZero (result_text op x y z)
result_text-NoZero op x y z h =
    let space : ◌≢◌ {A = ℕ} b' ' 0 = λ e. absurd (omega arith) in
    let sign : ◌≢◌ {A = ℕ} b'=' 0 = λ e. absurd (omega arith) in
    let feed : NoZero (number_text z ++ 10 ∷ []) =
      append-NoZero (number_text z) (10 ∷ []) (number_text-NoZero z)
        (λ e. absurd (omega arith), tt) in
    let rest : NoZero (number_text y ++ (codes " = " ++ (number_text z ++ 10 ∷ []))) =
      append-NoZero (number_text y) _ (number_text-NoZero y) (space, (sign, (space, feed))) in
    append-NoZero (number_text x) _ (number_text-NoZero x) (space, (h, (space, rest)))

length-number_text : (z : ℤ) → length (number_text z) ≤ 33
length-number_text (pos n) = omega (arith, length-decimal_text n)
length-number_text (negsuc n) = omega (arith, length-decimal_text (suc n))

length-result_text : (op : ℕ) (x y z : ℤ) → length (result_text op x y z) ≤ limit
length-result_text op x y z =
    let c : Text = number_text z ++ 10 ∷ [] in
    let b : Text = number_text y ++ (codes " = " ++ c) in
    omega (
      arith,
      length-append {0} (number_text x) (b' ' ∷ op ∷ b' ' ∷ b),
      length-append {0} (number_text y) (codes " = " ++ c),
      length-append {0} (number_text z) (10 ∷ []),
      length-number_text x,
      length-number_text y,
      length-number_text z,
    )

-- The screen after the result in light green.
abbrev pub result_screen : Text → Console → Console
result_screen t s =
    console_set_color (console_write (console_set_color s VgaColor.light_green VgaColor.black) t)
      VgaColor.light_grey VgaColor.black

-- The three outputs for a format whose text is known.
show-painted :
    (format : Text) (args : List Arg) (t : Text) (s : Console)
    → expand format args ≡ some t
    → NoZero t
    → length t ≤ limit
    → show (paint VgaColor.light_green ∷ print format args ∷ grey ∷ []) s ≡ some (result_screen t s)
unfolding show vprintf
show-painted format args t s e no_zero fits =
    rw (vsprintf-expand format args t e, take-eq_self limit t fits, c_string-NoZero t no_zero) refl

-- An operator of `value_of` is a byte, and no terminator.
operator : (op : ℕ) (x y z : ℤ) → value_of op x y ≡ some z → (op < 256) × (op ≢ 0)
operator op x y z e = (ground arith, λ h. absurd (ground arith))

-- `calc` on the decimal texts of two integers and one of the characters `+`, `-`, `*` and `/` returns,
-- and writes both numbers, the operator and the result of the operation on integers (a quotient is
-- rounded towards zero) in light green, where the divisor is not 0 and all three numbers lie strictly
-- between -2 ^ 31 and 2 ^ 31. Nothing but the screen changes.
pub cmd_calc_lem :
    (cmd : Text) (op : ℕ) (more : Text) (argv : List Text) (x y z : ℤ) (w : World)
    → IsShown x
    → IsShown y
    → value_of op x y ≡ some z
    → IsShown z
    → cmd_calc (cmd ∷ number_text x ∷ (op ∷ more) ∷ number_text y ∷ argv) w
      ≡ some (record w { console = result_screen (result_text op x y z) w.console })
unfolding cmd_calc display
cmd_calc_lem cmd op more argv x y z w hx hy e hz =
    let (small, shown) = operator op x y z e in
    let int : (u : ℤ) → IsShown u → IsInt u = λ u h. (h.0, omega arith) in
    rw
      (
        atoi-number_text x hx,
        atoi-number_text y hy,
        calculate_lem op x y z (int x hx) (int y hy) e (int z hz),
        show-painted _ _ (result_text op x y z) w.console (expand-result op x y z small hx hy hz)
            (result_text-NoZero op x y z shown) (length-result_text op x y z),
      )
      refl
