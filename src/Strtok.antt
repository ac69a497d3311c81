-- ===== src/Strtok.antt =====
-- `strtok`, `split_string` and `trim` of libc/string.c.
-- The static `saved_str` of `strtok` is an argument and a result. Each `while` that runs up to a
-- terminator takes fuel, and `none` says that the fuel ran out.
pub mod Spec
pub mod Scan
pub mod Refine
pub mod Words
pub mod Tests
use alpha_os.Prelude.{
  ℕ, zero, suc, ◌+◌, ◌-◌, Bool, true, false, ◌&&◌, ◌||◌, not, Option, none, some, List, [], ◌∷◌,
  ◌++◌, ltb, ◌==◌, if◌then◌else◌,
}
use alpha_os.Bytes.{Ptr, null, Memory, poke}
use alpha_os.CString.{◌>>=◌, strchr, strlen}

-- Whether the byte at `p` is one of the delimiters: `strchr(delim, *p) != NULL`.
at_delimiter : (fuel : ℕ) (p delim : Ptr) → Memory → Option Bool
at_delimiter fuel p delim m = do found ← strchr fuel delim (m p) m; some (not (found == null))

-- `while (*p != '\0' && strchr(delim, *p) != NULL) p++;` for `wanted` true, and with `== NULL` for
-- `wanted` false. `g` is the fuel of each `strchr`.
pub scan_loop : (fuel g : ℕ) (wanted : Bool) (p delim : Ptr) → Memory → Option Ptr
unfolding at_delimiter
scan_loop zero g wanted p delim m = none
scan_loop (suc f) g wanted p delim m =
    let rest = scan_loop f g wanted (p + 1) delim m in
    if m p == 0
    then some p
    else (at_delimiter g p delim m >>= λ d. if (if wanted then d else not d) then rest else some p)

-- The token, or null; the new `saved_str`; the new memory.
abbrev pub Outcome : Type 0
Outcome = Ptr × Ptr × Memory

-- From "Find the end of the token" on.
pub cut_token : (fuel : ℕ) (start delim : Ptr) → Memory → Option Outcome
unfolding scan_loop
cut_token fuel start delim m = do
  end ← scan_loop fuel fuel false start delim m
  if m end == 0 then some (start, null, m) else some (start, end + 1, poke m end 0)

-- From "Skip leading delimiters" on.
pub next_token : (fuel : ℕ) (saved delim : Ptr) → Memory → Option Outcome
unfolding scan_loop cut_token
next_token fuel saved delim m = do
  start ← scan_loop fuel fuel true saved delim m
  if m start == 0 then some (null, null, m) else cut_token fuel start delim m

unfoldable pub strtok : (fuel : ℕ) (str delim saved : Ptr) → Memory → Option Outcome
unfolding next_token
strtok fuel str delim saved m =
    let saved' : Ptr = if str == null then saved else str in
    if saved' == null then some (null, saved', m) else next_token fuel saved' delim m

-- The loop of `split_string`, with `token` in hand and `tokens` found: `fuel` bounds the tokens.
split_loop :
    (fuel g : ℕ) (delim : Ptr) (max_tokens count : ℕ) (tokens : List Ptr) (token saved : Ptr)
    → Memory
    → Option (ℕ × List Ptr × Ptr × Memory)
split_loop zero g delim max_tokens count tokens token saved m = none
split_loop (suc f) g delim max_tokens count tokens token saved m =
    let rest =
      (strtok g null delim saved m >>= λ (next, saved', m').
      split_loop f g delim max_tokens (count + 1) (tokens ++ token ∷ []) next saved' m') in
    if not (token == null) && ltb count max_tokens then rest else some (count, tokens, saved, m)

-- `max_tokens` is not negative; the result is the count, the array `tokens` as far as it is filled,
-- `saved_str` and the memory.
unfoldable pub split_string :
    (fuel : ℕ) (str delim saved : Ptr) (max_tokens : ℕ)
    → Memory
    → Option (ℕ × List Ptr × Ptr × Memory)
unfolding split_loop
split_string fuel str delim saved max_tokens m = do
  (token, saved', m') ← strtok fuel str delim saved m
  split_loop fuel fuel delim max_tokens 0 [] token saved' m'

-- A byte that `trim` drops: a space, tab, line feed or carriage return.
unfoldable pub is_blank : ℕ → Bool
is_blank c = c == 32 || c == 9 || c == 10 || c == 13

trim_front : (fuel : ℕ) (str : Ptr) → Memory → Option Ptr
trim_front zero str m = none
trim_front (suc f) str m =
    let rest = trim_front f (str + 1) m in if is_blank (m str) then rest else some str

trim_back : (fuel : ℕ) (str end : Ptr) → Memory → Option Ptr
trim_back zero str end m = none
trim_back (suc f) str end m =
    let rest = trim_back f str (end - 1) m in
    if ltb str end && is_blank (m end) then rest else some end

-- From "Trim trailing space" on.
trim_tail : (fuel : ℕ) (str : Ptr) → Memory → Option (Ptr × Memory)
unfolding trim_back
trim_tail fuel str m = do
  len ← strlen fuel str m
  end ← trim_back fuel str (str + len - 1) m
  some (str, poke m (end + 1) 0)

unfoldable pub trim : (fuel : ℕ) (str : Ptr) → Memory → Option (Ptr × Memory)
unfolding trim_front trim_tail is_blank
trim fuel str m = do
  front ← trim_front fuel str m
  if m front == 0 then some (front, m) else trim_tail fuel front m
