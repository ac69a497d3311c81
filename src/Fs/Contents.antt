-- ===== src/Fs/Contents.antt =====
-- `fs_write_file` and `fs_read_file` of kernel/fs.c: what is written to a new file is read back.
use mathlib.Core.Path.{sym, ◌∙◌}
use alpha_os.Prelude.{
  ℕ, ◌+◌, ◌%◌, ◌^◌, ◌≤◌, ◌<◌, ◌≡◌, refl, ap, true, false, not, Option, none, some, List, [], ◌∷◌,
  ◌++◌, arith, ltb, ◌==◌, min, Option-cases, inl, inr, if◌then◌else◌, bytes_eq_refl, length, take,
  take-eq_self,
}
use alpha_os.Prelude.Int.{ℤ, pos, negsuc}
use alpha_os.Bytes.{Memory}
use alpha_os.CString.Spec.{Text}
use alpha_os.Fs.{
  Entry, Filesystem, tick, find_entry, fs_file_exists, new_entry, fs_create_file, fill_last,
  write_bytes, read_bytes, write_new, fs_write_file, fs_read_file,
}
use alpha_os.Fs.Lookup.{lookup, lookup-append, find_entry-lookup}
use alpha_os.Fs.Create.{creatable, lookup_of_exists, fs_create_file-made}
use alpha_os.Fs.Data.{read_bytes-write_bytes, read_bytes-frame, write_bytes-below}

fill_last-snoc :
    (es : List Entry) (e : Entry) (size offset now : ℕ)
    → fill_last (es ++ (e ∷ [])) size offset now
      ≡ es ++ (record e { size = size; data_offset = offset; modified_time = now } ∷ [])
unfolding fill_last
fill_last-snoc [] e size offset now = refl
fill_last-snoc (x ∷ []) e size offset now = refl
fill_last-snoc (x ∷ y ∷ es) e size offset now =
    ap (λ l. x ∷ l) (fill_last-snoc (y ∷ es) e size offset now)

-- The read takes what it needs from the entry.
abbrev pub read_entry : Memory → ℕ → Option Entry → ℤ × List ℕ
read_entry m n none = (negsuc 1, [])
read_entry m n (some e) =
    if not (e.is_directory == 0)
    then (negsuc 0, [])
    else (pos (min n e.size), read_bytes m e.data_offset (min n e.size))

read_entry-found :
    (m : Memory) (n : ℕ) (o : Option (ℕ × Entry))
    → ◌≡◌ {A = ℤ × List ℕ}
        (elim o [
          | none ↦ (negsuc 1, [])
          | some (i, e) ↦ if not (e.is_directory == 0) then (negsuc 0, []) else (
            pos (if ltb n e.size then n else e.size),
            read_bytes m e.data_offset (if ltb n e.size then n else e.size),
          )
        ])
        (read_entry m n (elim o [ none ↦ none | some (i, e) ↦ some e ]))
read_entry-found m n none = refl
read_entry-found m n (some (i, e)) =
    let smaller : (if ltb n e.size then n else e.size) ≡ min n e.size = ground arith in
    rw smaller refl

pub fs_read_file-lookup :
    (fs : Filesystem) (name : Text) (n : ℕ)
    → fs_read_file fs name n ≡ read_entry fs.data_bytes n (lookup name fs.entries)
unfolding fs_read_file
fs_read_file-lookup fs name n =
    rw (find_entry-lookup name fs.entries)
      (read_entry-found fs.data_bytes n (find_entry name fs.entries))

find_none :
    (fs : Filesystem) (name : Text)
    → fs_file_exists fs name ≡ false
    → find_entry name fs.entries ≡ none
find_none fs name h = elim (Option-cases (find_entry name fs.entries)) [
  | inl nowhere ↦ nowhere
  | inr ((i, e), found) ↦
      let there : lookup name fs.entries ≡ some e =
        rw found at (find_entry-lookup name fs.entries) in
      let nowhere = lookup_of_exists fs name h in absurd (cc)
]

-- The entry of a file that a write has made.
abbrev pub written : Filesystem → Text → List ℕ → Entry
written fs name bytes = record (new_entry fs name 0 (tick fs.system_time)) {
  size = length bytes;
  data_offset = fs.data_used;
  modified_time = tick (tick fs.system_time);
}

-- The bytes have room in a file and in the data.
abbrev pub HasRoom : Filesystem → List ℕ → Type 0
HasRoom fs bytes = (length bytes ≤ 16384) × (fs.data_used + length bytes ≤ 4194304)

-- What follows the creation of a file in a write.
abbrev fill_new : List ℕ → ℤ × Filesystem → ℤ × Filesystem
fill_new bytes (negsuc n, fs) = (negsuc 3, fs)
fill_new bytes (pos n, fs) = (
  pos 0,
  record fs {
    entries = fill_last fs.entries (length bytes) fs.data_used (tick fs.system_time);
    data_bytes = write_bytes fs.data_bytes fs.data_used bytes;
    data_used = (fs.data_used + length bytes) % 2 ^ 32;
    system_time = tick fs.system_time;
  },
)

write_new-fill_new :
    (fs : Filesystem) (name : Text) (bytes : List ℕ)
    → write_new fs name bytes ≡ fill_new bytes (fs_create_file fs name 0)
unfolding write_new
write_new-fill_new fs name bytes = go (fs_create_file fs name 0)
  where
    go :
        (r : ℤ × Filesystem)
        → ◌≡◌ {A = ℤ × Filesystem}
            (elim r.0 [
              | negsuc n ↦ (negsuc 3, r.1)
              | pos n ↦ (
                pos 0,
                record r.1 {
                  entries =
                      fill_last r.1.entries (length bytes) r.1.data_used (tick r.1.system_time);
                  data_bytes = write_bytes r.1.data_bytes r.1.data_used bytes;
                  data_used = (r.1.data_used + length bytes) % 2 ^ 32;
                  system_time = tick r.1.system_time;
                },
              )
            ])
            (fill_new bytes r)
    go (negsuc n, fs') = refl
    go (pos n, fs') = refl

fs_write_file-write_new :
    (fs : Filesystem) (name : Text) (bytes : List ℕ)
    → fs_file_exists fs name ≡ false
    → HasRoom fs bytes
    → fs_write_file fs name bytes ≡ write_new fs name bytes
unfolding fs_write_file
fs_write_file-write_new fs name bytes fresh (small, room) = ground (arith, find_none fs name fresh)

-- A write to a name that is new appends its entry, and its bytes to the data in use.
pub fs_write_file-new :
    (fs : Filesystem) (name : Text) (bytes : List ℕ)
    → creatable fs name ≡ true
    → HasRoom fs bytes
    → fs_write_file fs name bytes ≡ (
      pos 0,
      record fs {
        entries = fs.entries ++ (written fs name bytes ∷ []);
        data_bytes = write_bytes fs.data_bytes fs.data_used bytes;
        data_used = fs.data_used + length bytes;
        system_time = tick (tick fs.system_time);
      },
    )
fs_write_file-new fs name bytes allowed (small, room) =
    let used : (fs.data_used + length bytes) % 2 ^ 32 ≡ fs.data_used + length bytes = omega arith in
    let entry = new_entry fs name 0 (tick fs.system_time) in
    let filled =
      fill_last-snoc fs.entries entry (length bytes) fs.data_used (tick (tick fs.system_time)) in
    fs_write_file-write_new fs name bytes (ground arith) (small, room)
    ∙ write_new-fill_new fs name bytes
    ∙ ap (fill_new bytes) (fs_create_file-made fs name 0 allowed)
    ∙ rw (used, filled) refl

lookup-written :
    (fs : Filesystem) (name : Text) (bytes : List ℕ)
    → lookup name fs.entries ≡ none
    → length name ≤ 127
    → lookup name (fs.entries ++ (written fs name bytes ∷ [])) ≡ some (written fs name bytes)
lookup-written fs name bytes fresh short =
    lookup-append name fs.entries (written fs name bytes ∷ [])
    ∙ rw (fresh, take-eq_self 127 name short, bytes_eq_refl name) refl

-- Bytes that are written to a name of at most 127 bytes that is new, with room in the table, in a file
-- and in the data, are read back from it, up to the size of the buffer, and the code is their number.
pub fs_read_file-fs_write_file :
    (fs : Filesystem) (name : Text) (bytes : List ℕ) (n : ℕ)
    → creatable fs name ≡ true
    → length name ≤ 127
    → HasRoom fs bytes
    → fs_read_file (fs_write_file fs name bytes).1 name n
      ≡ (pos (min n (length bytes)), take (min n (length bytes)) bytes)
fs_read_file-fs_write_file fs name bytes n allowed short room =
    let fresh = lookup_of_exists fs name (ground arith) in
    let back =
      read_bytes-write_bytes fs.data_bytes fs.data_used bytes (min n (length bytes))
        (omega arith) in
    rw (fs_write_file-new fs name bytes allowed room) (
      fs_read_file-lookup _ name n
      ∙ ap (read_entry (write_bytes fs.data_bytes fs.data_used bytes) n)
          (lookup-written fs name bytes fresh short)
      ∙ ap (λ bs. (pos (min n (length bytes)), bs)) back)

lookup-others :
    (fs : Filesystem) (name q : Text) (bytes : List ℕ) (e : Entry)
    → lookup q fs.entries ≡ some e
    → lookup q (fs.entries ++ (written fs name bytes ∷ [])) ≡ some e
lookup-others fs name q bytes e there =
    lookup-append q fs.entries (written fs name bytes ∷ []) ∙ rw there refl

read_entry-frame :
    (m m' : Memory) (n : ℕ) (e : Entry)
    → ((a : ℕ) → a < e.data_offset + e.size → m a ≡ m' a)
    → read_entry m n (some e) ≡ read_entry m' n (some e)
read_entry-frame m m' n e h =
    rw (read_bytes-frame m m' e.data_offset (min n e.size) λ a low high. h a (omega arith)) refl

-- A write to a new name, with room in the table, in a file and in the data, keeps what is read from
-- every other file whose bytes lie below the mark `data_used`.
pub fs_write_file-others :
    (fs : Filesystem) (name q : Text) (bytes : List ℕ) (n : ℕ) (e : Entry)
    → creatable fs name ≡ true
    → HasRoom fs bytes
    → lookup q fs.entries ≡ some e
    → e.data_offset + e.size ≤ fs.data_used
    → fs_read_file (fs_write_file fs name bytes).1 q n ≡ fs_read_file fs q n
fs_write_file-others fs name q bytes n e allowed room there below =
    let after : Memory = write_bytes fs.data_bytes fs.data_used bytes in
    rw (fs_write_file-new fs name bytes allowed room) (
      fs_read_file-lookup _ q n
      ∙ ap (read_entry after n) (lookup-others fs name q bytes e there)
      ∙ read_entry-frame after fs.data_bytes n e
          (λ a h. write_bytes-below fs.data_bytes fs.data_used bytes a (omega arith))
      ∙ ap (read_entry fs.data_bytes n) (sym there)
      ∙ sym (fs_read_file-lookup fs q n))
