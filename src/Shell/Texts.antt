-- ===== src/Shell/Texts.antt =====
-- What `echo` and `cat` of kernel/shell.c put on the screen.
use alpha_os.Prelude.{
  ℕ, zero, suc, ◌-◌, ◌≤◌, ◌≡◌, ◌≢◌, refl, sym, ap, ◌∙◌, Bool, false, ◌&&◌, not, ◌==◌, some, List,
  [], ◌∷◌, ◌++◌, codes, arith, if◌then◌else◌, length, take, take-eq_self, append-nil, append_assoc,
  ltb, get_or, Bool-cases, inl, inr,
}
use alpha_os.CString.Spec.{Text}
use alpha_os.Console.{Console, console_putchar, console_write}
use alpha_os.Stdio.{text, limit, vsprintf, vsprintf_loop, vprintf, c_string}
use alpha_os.Stdio.Expand.{vsprintf-expand, expand-piece}
use alpha_os.Stdio.Spec.{expand}
use alpha_os.Prelude.Int.{pos}
use alpha_os.Strtok.Spec.{Saved}
use alpha_os.FilePath.{fs_get_absolute_path}
use alpha_os.Fs.{fs_read_file}
use alpha_os.Shell.{World, Output, print, line, show, display, keep_saved}
use alpha_os.Shell.Screens.{echo_outputs, cmd_echo}
use alpha_os.Shell.Files.{cat_outputs, show_file, cmd_cat}

-- No byte is a terminator.
abbrev pub NoZero : Text → Type 0
NoZero [] = Unit {0}
NoZero (c ∷ s) = (c ≢ 0) × NoZero s

pub c_string-NoZero : (s : Text) → NoZero s → c_string s ≡ s
unfolding c_string
c_string-NoZero [] h = refl
c_string-NoZero (c ∷ s) (shown, h) =
    let more : (c == 0) ≡ false = ground arith in rw more (ap (λ t. c ∷ t) (c_string-NoZero s h))

take-NoZero : (n : ℕ) (s : Text) → NoZero s → NoZero (take n s)
take-NoZero zero s h = tt
take-NoZero (suc n) [] h = tt
take-NoZero (suc n) (c ∷ s) (shown, h) = (shown, take-NoZero n s h)

vsprintf-text : (s : Text) → vsprintf (codes "%s") (text s ∷ []) ≡ some (take limit s)
vsprintf-text s = vsprintf-expand (codes "%s") (text s ∷ []) s (
    expand-piece b'%' b's' [] (text s ∷ []) [] s refl refl
    ∙ unfold expand in ap some (append-nil s))

console_write-append :
    (s : Console) (a b : Text) → console_write (console_write s a) b ≡ console_write s (a ++ b)
unfolding console_write
console_write-append s [] b = refl
console_write-append s (c ∷ a) b = console_write-append (console_putchar s c) a b

-- A text that is printed, and what follows it.
show-text :
    (t : Text) (os : List Output) (s : Console)
    → NoZero t
    → show (print (codes "%s") (text t ∷ []) ∷ os) s ≡ show os (console_write s (take limit t))
unfolding show vprintf
show-text t os s h =
    rw (vsprintf-text t) (
      ap (λ u. show os (console_write s u))
        (c_string-NoZero (take limit t) (take-NoZero limit t h)))

show-feed : (s : Console) → show (line (codes "\n") ∷ []) s ≡ some (console_write s (10 ∷ []))
unfolding show vprintf vsprintf vsprintf_loop c_string
show-feed s = refl

show-nothing : (s : Console) → show [] s ≡ some s
unfolding show
show-nothing s = refl

-- Each argument fits the buffer of `printf`.
abbrev pub Printable : List Text → Type 0
Printable [] = Unit {0}
Printable (a ∷ argv) = NoZero a × (length a ≤ 1023) × Printable argv

-- The arguments with a space between two of them.
abbrev pub joined : List Text → Text
joined [] = []
joined (a ∷ []) = a
joined (a ∷ b ∷ argv) = a ++ (32 ∷ joined (b ∷ argv))

show-space :
    (os : List Output) (s : Console)
    → show (line (codes " ") ∷ os) s ≡ show os (console_write s (32 ∷ []))
unfolding show vprintf vsprintf vsprintf_loop c_string
show-space os s = refl

show-echo_outputs :
    (argv : List Text) (s : Console)
    → Printable argv
    → show (echo_outputs argv ++ line (codes "\n") ∷ []) s
      ≡ some (console_write s (joined argv ++ 10 ∷ []))
unfolding echo_outputs
show-echo_outputs [] s h = show-feed s
show-echo_outputs (a ∷ []) s (shown, fits, h) =
    show-text a _ s shown
    ∙ ap (λ t. show (line (codes "\n") ∷ []) (console_write s t)) (take-eq_self limit a fits)
    ∙ show-feed (console_write s a)
    ∙ ap some (console_write-append s a (10 ∷ []))
show-echo_outputs (a ∷ b ∷ argv) s (shown, fits, h) =
    let rest : List Output = echo_outputs (b ∷ argv) ++ line (codes "\n") ∷ [] in
    let tail : Text = joined (b ∷ argv) ++ 10 ∷ [] in
    show-text a (line (codes " ") ∷ rest) s shown
    ∙ ap (λ t. show (line (codes " ") ∷ rest) (console_write s t)) (take-eq_self limit a fits)
    ∙ show-space rest (console_write s a)
    ∙ show-echo_outputs (b ∷ argv) (console_write (console_write s a) (32 ∷ [])) h
    ∙ ap some (
        console_write-append (console_write s a) (32 ∷ []) tail
        ∙ console_write-append s a (32 ∷ tail)
        ∙ ap (console_write s) (sym (append_assoc a (32 ∷ joined (b ∷ argv)) (10 ∷ []))))

-- `echo` returns, and writes its arguments with a space between two of them, and a line feed, where no
-- argument has a terminator or more than 1023 bytes. Nothing but the screen changes.
pub cmd_echo-joined :
    (cmd : Text) (argv : List Text) (w : World)
    → Printable argv
    → cmd_echo (cmd ∷ argv) w
      ≡ some (record w { console = console_write w.console (joined argv ++ 10 ∷ []) })
unfolding cmd_echo display
cmd_echo-joined cmd argv w h = rw (show-echo_outputs argv w.console h) refl

-- The line feed that `cat` adds.
abbrev pub final_feed : List ℕ → Text
final_feed bytes =
    if ltb 0 (length bytes) && not (get_or bytes (length bytes - 1) 0 == 10) then 10 ∷ [] else []

show-cat_outputs :
    (bytes : List ℕ) (s : Console)
    → NoZero bytes
    → show (cat_outputs bytes) s ≡ some (console_write s (take limit bytes ++ final_feed bytes))
show-cat_outputs bytes s h =
    let ends : Bool = ltb 0 (length bytes) && not (get_or bytes (length bytes - 1) 0 == 10) in
    let shown : Text = take limit bytes in
    rw (c_string-NoZero bytes h) (
      show-text bytes (if ends then line (codes "\n") ∷ [] else []) s h ∙ elim (Bool-cases ends) [
        | inl open_line ↦
            rw open_line
              (show-feed (console_write s shown) ∙ ap some (console_write-append s shown (10 ∷ [])))
        | inr closed ↦ rw (closed, append-nil shown) (show-nothing (console_write s shown))
      ])

cmd_cat-found :
    (cmd name path : Text) (argv : List Text) (saved : Saved) (n : ℕ) (bytes : List ℕ) (w : World)
    → fs_get_absolute_path name w.shell.current_dir ≡ some (path, saved)
    → fs_read_file w.fs path 16383 ≡ (pos n, bytes)
    → cmd_cat (cmd ∷ name ∷ argv) w ≡ display (cat_outputs bytes) (keep_saved saved w)
unfolding cmd_cat show_file
cmd_cat-found cmd name path argv saved n bytes w found read = rw found (rw read refl)

-- `cat` on a name of which `fs_get_absolute_path` makes (as it does not where its buffer is too small)
-- the path of a file that is read: it returns, on a stack with room for its buffer of 16384 bytes, and
-- writes the first 1023 of the file's bytes (none of them 0), and a line feed where the last of all
-- the bytes is none.
pub cmd_cat-cut :
    (cmd name path : Text) (argv : List Text) (saved : Saved) (n : ℕ) (bytes : List ℕ) (w : World)
    → fs_get_absolute_path name w.shell.current_dir ≡ some (path, saved)
    → fs_read_file w.fs path 16383 ≡ (pos n, bytes)
    → NoZero bytes
    → cmd_cat (cmd ∷ name ∷ argv) w
      ≡ some (record w {
        console = console_write w.console (take 1023 bytes ++ final_feed bytes);
        saved_str = saved;
      })
unfolding display
cmd_cat-cut cmd name path argv saved n bytes w found read h =
    cmd_cat-found cmd name path argv saved n bytes w found read
    ∙ rw (show-cat_outputs bytes w.console h) refl
