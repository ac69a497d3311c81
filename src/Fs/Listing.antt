-- ===== src/Fs/Listing.antt =====
-- What `fs_list_directory` of kernel/fs.c lists.
use mathlib.Core.Path.{sym, ◌∙◌}
use alpha_os.Prelude.{
  ℕ, suc, ◌+◌, ◌-◌, ◌≤◌, ◌≡◌, refl, ap, some, List, [], ◌∷◌, ◌++◌, arith, append-nil, append_assoc,
  Bool-cases, inl, inr, if◌then◌else◌, ltb, ◌==◌, length, length-append, take, drop,
}
use alpha_os.CString.Spec.{Text}
use alpha_os.Strtok.Spec.{Saved}
use alpha_os.FilePath.{slash, fs_normalize_path}
use alpha_os.Fs.Children.{child_lines, child_line-child, child_line-other}
use alpha_os.Fs.{Entry, Filesystem, add_slash, is_child, listed, list_loop, fs_list_directory}

-- What the loop adds, line by line.
abbrev loop_lines : (dirname : Text) → List Entry → Text
loop_lines dirname [] = []
loop_lines dirname (e ∷ es) =
    if is_child dirname e.filename
    then listed dirname e ++ (10 ∷ loop_lines dirname es)
    else loop_lines dirname es

-- The bytes that the loop wants for them.
abbrev loop_bytes : (dirname : Text) → List Entry → ℕ
loop_bytes dirname [] = 0
loop_bytes dirname (e ∷ es) =
    (if is_child dirname e.filename then length (drop (length dirname) e.filename) + 2 else 0)
    + loop_bytes dirname es

lines-children : (dirname : Text) (es : List Entry) → loop_lines dirname es ≡ child_lines dirname es
lines-children dirname [] = refl
lines-children dirname (e ∷ es) = elim (Bool-cases (is_child dirname e.filename)) [
  | inl child ↦
      rw (child, child_line-child dirname e child, lines-children dirname es)
        (sym (append_assoc (listed dirname e) (10 ∷ []) (child_lines dirname es)))
  | inr other ↦ rw (other, child_line-other dirname e other) (lines-children dirname es)
]

length-listed :
    (dirname : Text) (e : Entry)
    → length (listed dirname e ++ (10 ∷ [])) ≤ length (drop (length dirname) e.filename) + 2
unfolding listed
length-listed dirname e =
    let name : Text = drop (length dirname) e.filename in
    let mark : Text = if e.is_directory == 0 then [] else slash ∷ [] in
    let short : length mark ≤ 1 = ground arith in
    omega (arith, length-append {0} (name ++ mark) (10 ∷ []), length-append {0} name mark)

-- The loop lists the children among the first entries, and stays within the buffer.
list_loop-lines :
    (dirname : Text) (size : ℕ) (es : List Entry) (buffer : Text)
    → length buffer ≤ size
    → (k : ℕ) × (list_loop dirname size es buffer ≡ buffer ++ loop_lines dirname (take k es))
      × (length (list_loop dirname size es buffer) ≤ size)
unfolding list_loop
list_loop-lines dirname size [] buffer h = (0, sym (append-nil buffer), h)
list_loop-lines dirname size (e ∷ es) buffer h = elim (Bool-cases (is_child dirname e.filename)) [
  | inr other ↦
      let (k, lines, fits) = list_loop-lines dirname size es buffer h in
      (suc k, rw other lines, rw other fits)
  | inl child ↦
      let name_len : ℕ = length (drop (length dirname) e.filename) in
      let text : Text = listed dirname e ++ (10 ∷ []) in
      elim (Bool-cases (ltb size (length buffer + name_len + 2))) [
        | inl full ↦ (0, rw (child, full) (sym (append-nil buffer)), rw (child, full) h)
        | inr room ↦
            let more : length (buffer ++ text) ≤ size =
              ground (arith, length-append {0} buffer text, length-listed dirname e) in
            let (k, lines, fits) = list_loop-lines dirname size es (buffer ++ text) more in
            let rest : Text = loop_lines dirname (take k es) in
            (
              suc k,
              rw (child, room)
                  (lines
                    ∙ append_assoc buffer text rest
                    ∙ ap (λ u. buffer ++ u) (append_assoc (listed dirname e) (10 ∷ []) rest)),
              rw (child, room) fits,
            )
      ]
]

-- `fs_list_directory` writes no more than the buffer has: what it counts is at most the buffer's size,
-- and its text is that of the lines of the children among the first entries of the table, less
-- the last line feed, where the name of the directory has a normal path.
pub fs_list_directory-fits :
    (fs : Filesystem) (dirname path : Text) (size : ℕ) (saved : Saved)
    → fs_normalize_path dirname ≡ some (path, saved)
    → (k : ℕ) × (text : Text) × (fs_list_directory fs dirname size
        ≡ some (length text, take (length text - 1) text, saved))
      × (text ≡ child_lines (add_slash path) (take k fs.entries))
      × (length text ≤ size)
unfolding fs_list_directory
fs_list_directory-fits fs dirname path size saved e =
    let dir : Text = add_slash path in
    let (k, lines, fits) = list_loop-lines dir size fs.entries [] (omega arith) in
    (
      k,
      list_loop dir size fs.entries [],
      rw e refl,
      lines ∙ lines-children dir (take k fs.entries),
      fits,
    )
