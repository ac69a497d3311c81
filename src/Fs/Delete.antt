-- ===== src/Fs/Delete.antt =====
-- `fs_delete_file` of kernel/fs.c, on the table as a finite map.
use mathlib.Core.Path.{sym, subst, ◌∙◌}
use alpha_os.Prelude.{
  append_assoc, ℕ, ◌+◌, ◌-◌, ◌≤◌, ◌≡◌, ◌⊎◌, refl, ap, Bool, true, false, ◌&&◌, not, Option, none,
  some, List, [], ◌∷◌, ◌++◌, arith, ltb, Bool-cases, Option-cases, inl, inr, if◌then◌else◌,
  bytes_eq, length, length-append, take, drop, set, take-append, drop-append, eq_of_bytes_eq,
}
use alpha_os.Prelude.Int.{pos, negsuc}
use alpha_os.CString.Spec.{Text}
use alpha_os.FilePath.{root}
use alpha_os.Fs.{Entry, Filesystem, find_entry, swap_out, fs_delete_file}
use alpha_os.Fs.Lookup.{
  lookup, or_else, or_else-none, count, Distinct, count-append, lookup-append, lookup_of_count,
  find_entry-lookup, find_entry-Found,
}

module _ {ℓ} {A : Type ℓ} where
  -- A list is empty or has a last element.
  pub snoc-cases :
      (xs : List A) → (xs ≡ []) ⊎ ((init : List A) × (last : A) × (xs ≡ init ++ (last ∷ [])))
  snoc-cases [] = inl refl
  snoc-cases (x ∷ xs) = elim (snoc-cases xs) [
    | inl e ↦ inr ([], x, ap (λ ys. x ∷ ys) e)
    | inr (init, last, e) ↦ inr (x ∷ init, last, ap (λ ys. x ∷ ys) e)
  ]

  set-append :
      (xs : List A) (y : A) (ys : List A) (v : A)
      → set (xs ++ (y ∷ ys)) (length xs) v ≡ xs ++ (v ∷ ys)
  set-append [] y ys v = refl
  set-append (x ∷ xs) y ys v = ap (λ zs. x ∷ zs) (set-append xs y ys v)

-- The deletion with what it reads of the table's end written out.
abbrev swap_with : List Entry → (i n : ℕ) → List Entry → List Entry
swap_with es i n [] = es
swap_with es i n (last ∷ none_more) = if ltb i n then take n (set es i last) else take n es

swap_out-swap_with :
    (es : List Entry) (i : ℕ)
    → swap_out es i ≡ swap_with es i (length es - 1) (drop (length es - 1) es)
unfolding swap_out
swap_out-swap_with es i = go (drop (length es - 1) es)
  where
    go :
        (ends : List Entry)
        → ◌≡◌ {A = List Entry}
            (elim ends [
              | [] ↦ es
              | last ∷ none_more ↦
                  if ltb i (length es - 1)
                  then take (length es - 1) (set es i last)
                  else take (length es - 1) es
            ])
            (swap_with es i (length es - 1) ends)
    go [] = refl
    go (x ∷ xs) = refl

swap_out-snoc :
    (es init : List Entry) (last : Entry) (i : ℕ)
    → es ≡ init ++ (last ∷ [])
    → swap_out es i
      ≡ (if ltb i (length init) then take (length init) (set es i last) else take (length init) es)
swap_out-snoc es init last i split =
    let n : length es - 1 ≡ length init =
      ap (λ l. length l - 1) split ∙ omega (arith, length-append init (last ∷ [])) in
    let ends : drop (length init) es ≡ last ∷ [] =
      ap (drop (length init)) split ∙ drop-append init (last ∷ []) in
    swap_out-swap_with es i
    ∙ ap (λ k. swap_with es i k (drop k es)) n
    ∙ ap (swap_with es i (length init)) ends

pub swap_out-last :
    (front : List Entry) (e : Entry) → swap_out (front ++ (e ∷ [])) (length front) ≡ front
swap_out-last front e =
    let same : ltb (length front) (length front) ≡ false = ground arith in
    swap_out-snoc (front ++ (e ∷ [])) front e (length front) refl
    ∙ rw same (take-append front (e ∷ []))

pub swap_out-inner :
    (front mid : List Entry) (e last : Entry)
    → swap_out (front ++ (e ∷ (mid ++ (last ∷ [])))) (length front) ≡ front ++ (last ∷ mid)
swap_out-inner front mid e last =
    let es : List Entry = front ++ (e ∷ (mid ++ (last ∷ []))) in
    let init : List Entry = front ++ (e ∷ mid) in
    let before : ltb (length front) (length init) ≡ true =
      ground (arith, length-append front (e ∷ mid)) in
    let lengths : length init ≡ length (front ++ (last ∷ mid)) =
      length-append front (e ∷ mid) ∙ sym (length-append front (last ∷ mid)) in
    swap_out-snoc es init last (length front) (sym (append_assoc front (e ∷ mid) (last ∷ [])))
    ∙ rw before (
        ap (take (length init)) (
          set-append front e (mid ++ (last ∷ [])) last
          ∙ sym (append_assoc front (last ∷ mid) (last ∷ [])))
        ∙ ap (λ k. take k ((front ++ (last ∷ mid)) ++ (last ∷ []))) lengths
        ∙ take-append (front ++ (last ∷ mid)) (last ∷ []))

-- The two tables, with what the lookups of their parts give.
swapped :
    (hit hit_last : Bool) (e last : Entry) (front mid : Option Entry)
    → (hit ≡ true → (front ≡ none) × (mid ≡ none) × (hit_last ≡ false))
    → (hit_last ≡ true → mid ≡ none)
    → or_else front (if hit_last then some last else mid) ≡ (
        if hit
        then none
        else or_else front
            (if hit then some e else or_else mid (if hit_last then some last else none)))
swapped true hit_last e last front mid alone last_alone =
    let (no_front, no_mid, not_last) = alone refl in rw (no_front, no_mid, not_last) refl
swapped false true e last front mid alone last_alone = rw (last_alone refl) refl
swapped false false e last (some x) mid alone last_alone = refl
swapped false false e last none none alone last_alone = refl
swapped false false e last none (some x) alone last_alone = refl

-- The last entry in the place of a deleted one: the other names keep their entries.
lookup-swapped :
    (name q : Text) (front mid : List Entry) (e last : Entry)
    → Distinct (front ++ (e ∷ (mid ++ (last ∷ []))))
    → bytes_eq e.filename name ≡ true
    → lookup q (front ++ (last ∷ mid))
      ≡ (if bytes_eq name q then none else lookup q (front ++ (e ∷ (mid ++ (last ∷ [])))))
lookup-swapped name q front mid e last distinct named =
    let hit : bytes_eq e.filename q ≡ bytes_eq name q =
      ap (λ n. bytes_eq n q) (eq_of_bytes_eq e.filename name named) in
    let before : count q front
          + ((if bytes_eq e.filename q then 1 else 0)
              + (count q mid + (if bytes_eq last.filename q then 1 else 0)))
        ≤ 1 =
      omega (
        arith,
        distinct q,
        count-append q front (e ∷ (mid ++ (last ∷ []))),
        count-append q mid (last ∷ []),
      ) in
    let total : count q front
          + ((if bytes_eq name q then 1 else 0)
              + (count q mid + (if bytes_eq last.filename q then 1 else 0)))
        ≤ 1 =
      rw hit at before in
    rw
      (
        lookup-append q front (last ∷ mid),
        lookup-append q front (e ∷ (mid ++ (last ∷ []))),
        lookup-append q mid (last ∷ []),
        hit,
      )
      (swapped (bytes_eq name q) (bytes_eq last.filename q) e last (lookup q front) (lookup q mid)
        (λ h. (
          lookup_of_count q front (ground arith),
          lookup_of_count q mid (ground arith),
          ground arith,
        ))
        (λ h. lookup_of_count q mid (ground arith)))

lookup-dropped :
    (name q : Text) (front : List Entry) (e : Entry)
    → Distinct (front ++ (e ∷ []))
    → bytes_eq e.filename name ≡ true
    → lookup q front ≡ (if bytes_eq name q then none else lookup q (front ++ (e ∷ [])))
lookup-dropped name q front e distinct named =
    let hit : bytes_eq e.filename q ≡ bytes_eq name q =
      ap (λ n. bytes_eq n q) (eq_of_bytes_eq e.filename name named) in
    let before : count q front + (if bytes_eq e.filename q then 1 else 0) ≤ 1 =
      omega (arith, distinct q, count-append q front (e ∷ [])) in
    let total : count q front + (if bytes_eq name q then 1 else 0) ≤ 1 = rw hit at before in
    rw (lookup-append q front (e ∷ []), hit)
      (elim (Bool-cases (bytes_eq name q)) [
        | inl h ↦ rw h (lookup_of_count q front (ground arith))
        | inr h ↦ rw h (sym (or_else-none (lookup q front)))
      ])

-- Where a name is found, `swap_out` removes it from the map and keeps the others.
lookup-swap_out :
    (name q : Text) (es : List Entry) (i : ℕ) (e : Entry)
    → Distinct es
    → find_entry name es ≡ some (i, e)
    → lookup q (swap_out es i) ≡ (if bytes_eq name q then none else lookup q es)
lookup-swap_out name q es i e distinct h =
    let found = find_entry-Found name es i e h in
    elim (snoc-cases found.back) [
      | inl at_end ↦
          let split : es ≡ found.front ++ (e ∷ []) =
            found.split ∙ ap (λ b. found.front ++ (e ∷ b)) at_end in
          rw (split, sym found.index, swap_out-last found.front e)
            (lookup-dropped name q found.front e (subst Distinct split distinct) found.named)
      | inr (mid, last, inside) ↦
          let split : es ≡ found.front ++ (e ∷ (mid ++ (last ∷ []))) =
            found.split ∙ ap (λ b. found.front ++ (e ∷ b)) inside in
          rw (split, sym found.index, swap_out-inner found.front mid e last)
            (lookup-swapped name q found.front mid e last (subst Distinct split distinct)
              found.named)
    ]

pub fs_delete_file-missing :
    (fs : Filesystem) (name : Text)
    → find_entry name fs.entries ≡ none
    → fs_delete_file fs name ≡ (negsuc 0, fs)
unfolding fs_delete_file
fs_delete_file-missing fs name h = ground (arith, h)

pub fs_delete_file-present :
    (fs : Filesystem) (name : Text) (i : ℕ) (e : Entry)
    → find_entry name fs.entries ≡ some (i, e)
    → fs_delete_file fs name ≡ (
        if bytes_eq name root
        then (negsuc 1, fs)
        else (pos 0, record fs { entries = swap_out fs.entries i }))
unfolding fs_delete_file
fs_delete_file-present fs name i e h = ground (arith, h)

-- In a table without two entries of one name, `fs_delete_file` makes lookups of the name fail, unless
-- it is the root's, and leaves the result of every other lookup as it was.
pub fs_delete_file_lem :
    (fs : Filesystem) (name q : Text)
    → Distinct fs.entries
    → lookup q (fs_delete_file fs name).1.entries
      ≡ (if bytes_eq name q && not (bytes_eq name root) then none else lookup q fs.entries)
fs_delete_file_lem fs name q distinct = elim (Option-cases (find_entry name fs.entries)) [
  | inl nowhere ↦
      let free : lookup name fs.entries ≡ none =
        rw nowhere at (find_entry-lookup name fs.entries) in
      ap (λ r. lookup q r.1.entries) (fs_delete_file-missing fs name nowhere)
      ∙ elim (Bool-cases (bytes_eq name q)) [
        | inl same ↦
            let free_q : lookup q fs.entries ≡ none = rw (eq_of_bytes_eq name q same) at free in
            rw free_q (ground arith)
        | inr other ↦ rw other refl
      ]
  | inr ((i, e), found) ↦
      let removed = lookup-swap_out name q fs.entries i e distinct found in
      ap (λ r. lookup q r.1.entries) (fs_delete_file-present fs name i e found)
      ∙ elim (Bool-cases (bytes_eq name root)) [
        | inl at_root ↦ rw at_root (ground arith)
        | inr inner ↦ rw inner (removed ∙ ground arith)
      ]
]
