-- ===== src/Strtok/Tests.antt =====
-- A call of `strtok` of libc/string.c.
use alpha_os.Prelude.{◌-◌, refl, ltb, if◌then◌else◌, arith, codes, get_or, some}
use alpha_os.Bytes.{Memory}
use alpha_os.CString.Spec.{IsString}
use alpha_os.Strtok.{strtok}
use alpha_os.Strtok.Spec.{next_text}
use alpha_os.Strtok.Refine.{SavedAt, Result, strtok_lem}

-- A space at the address 50, and `a b` at the address 100.
abbrev strings : Memory
strings a = if ltb a 100 then get_or (codes " ") (a - 50) 0 else get_or (codes "a b") (a - 100) 0

space-IsString : IsString strings 50 (codes " ")
space-IsString = (refl, (λ e. omega arith), refl)

words-SavedAt : SavedAt strings 100 (some (codes "a b"))
words-SavedAt = (
  (refl, (λ e. omega arith), (refl, (λ e. omega arith), (refl, (λ e. omega arith), refl))),
  omega arith,
)

strtok_example :
    Result
      (codes " ")
      50
      10
      strings
      space-IsString
      (omega arith)
      (omega arith)
      100
      (codes "a b")
      (strtok 10 100 50 0 strings)
      (next_text (codes " ") (some (codes "a b")))
strtok_example =
    strtok_lem (codes " ") 50 10 strings space-IsString (omega arith) (omega arith) 100 0
      (some (codes "a b")) words-SavedAt (omega arith)
