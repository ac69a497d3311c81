-- ===== src/CString/Tests.antt =====
-- Runs of the string operations of libc/string.c on two strings in a memory.
use alpha_os.Prelude.{
  ◌+◌, ◌-◌, ◌<◌, ◌≡◌, refl, ◌⊎◌, ◌↔◌, inl, inr, ltb, if◌then◌else◌, arith, codes, get_or, length,
  take, some, ◌++◌,
}
use alpha_os.Prelude.Int.{pos}
use alpha_os.Bytes.{Ptr, Memory, poke}
use alpha_os.CString.{strlen, strcpy, strncpy, strcat, strcmp, strncmp, strchr, strrchr}
use alpha_os.CString.{strstr}
use alpha_os.CString.Search.{place, offset_of, strstr_lem}
use alpha_os.CString.Spec.{Text, IsString}
use alpha_os.CString.Scan.{strlen_lem, index, last_index, pointer, strchr_lem, strrchr_lem}
use alpha_os.CString.Compare.{order, strcmp_lem, strncmp_lem}
use alpha_os.CString.Write.{Wrote, strcpy_lem, strcat_lem, strncpy_terminated}

-- `bin` at the address 50, and `bib` at the address 100.
abbrev strings : Memory
strings a = if ltb a 100 then get_or (codes "bin") (a - 50) 0 else get_or (codes "bib") (a - 100) 0

abbrev bin : Text
bin = codes "bin"

abbrev bib : Text
bib = codes "bib"

bin-IsString : IsString strings 50 bin
bin-IsString =
    (refl, (λ e. omega arith), (refl, (λ e. omega arith), (refl, (λ e. omega arith), refl)))

bib-IsString : IsString strings 100 bib
bib-IsString =
    (refl, (λ e. omega arith), (refl, (λ e. omega arith), (refl, (λ e. omega arith), refl)))

strlen_example : strlen 10 50 strings ≡ some (length bin)
strlen_example = strlen_lem bin 10 50 strings bin-IsString (omega arith)

strchr_example : strchr 10 100 98 strings ≡ some (pointer 100 (index 98 bib))
strchr_example = strchr_lem bib 10 100 98 strings bib-IsString (λ e. omega arith) (omega arith)

strrchr_example : strrchr 10 100 98 strings ≡ some (pointer 100 (last_index 98 bib))
strrchr_example = strrchr_lem bib 10 100 98 strings bib-IsString (λ e. omega arith) (omega arith)

strcmp_example :
    (strcmp 10 50 100 strings ≡ some (order bin bib)) × ((order bin bib ≡ pos 0) ↔ (bin ≡ bib))
strcmp_example = strcmp_lem bin bib 10 50 100 strings bin-IsString bib-IsString (omega arith)

strncmp_example :
    (strncmp 50 100 2 strings ≡ order (take 2 bin) (take 2 bib))
    × ((strncmp 50 100 2 strings ≡ pos 0) ↔ (take 2 bin ≡ take 2 bib))
strncmp_example = strncmp_lem bin bib 2 50 100 strings bin-IsString bib-IsString

strcpy_example :
    (m' : Memory) × (strcpy 10 200 100 strings ≡ some (200, m')) × Wrote strings 200 bib m'
strcpy_example = strcpy_lem bib 10 200 100 strings bib-IsString (inr (omega arith)) (omega arith)

strcat_example :
    (m' : Memory) × (strcat 10 50 100 strings ≡ some (50, m'))
    × IsString m' 50 (bin ++ bib)
    × ((a : Ptr) → (a < 50 + length bin) ⊎ (50 + length bin + length bib < a) → m' a ≡ strings a)
strcat_example =
    strcat_lem bin bib 10 50 100 strings bin-IsString bib-IsString (inl (omega arith)) (omega arith)
      (omega arith)

strncpy_example :
    let m' = poke (strncpy 200 100 2 strings).1 (200 + 2) 0 in
    IsString m' 200 (take 2 bib) × ((a : Ptr) → (a < 200) ⊎ (200 + 2 < a) → m' a ≡ strings a)
strncpy_example = strncpy_terminated bib 2 200 100 strings bib-IsString (inr (omega arith))

-- `ib` stands at the offset 1 in `bib`.
strstr_example : strstr 10 100 101 strings ≡ some (place 100 (offset_of (codes "ib") bib))
strstr_example =
    strstr_lem bib (codes "ib") 10 100 101 strings bib-IsString bib-IsString.2 (omega arith)
