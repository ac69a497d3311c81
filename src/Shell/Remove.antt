-- ===== src/Shell/Remove.antt =====
-- The command `rm` of kernel/shell.c and the table of files.
use alpha_os.Prelude.{
  ◌≡◌, ◌⊎◌, ◌∙◌, refl, true, false, ◌&&◌, not, some, none, List, [], ◌∷◌, ◌++◌, codes, arith,
  if◌then◌else◌, bytes_eq, bytes_eq_refl, eq_of_bytes_eq, Bool-cases, inl, inr,
}
use alpha_os.CString.Spec.{Text}
use alpha_os.Strtok.Spec.{Saved}
use alpha_os.FilePath.{root, ends_with_slash, fs_get_absolute_path}
use alpha_os.FilePath.Rooted.{fs_get_absolute_path-Rooted}
use alpha_os.FilePath.Ends.{fs_get_absolute_path-ends}
use alpha_os.FilePath.Absolute.{Fits, fs_get_absolute_path-total}
use alpha_os.Fs.{fs_create_file, fs_delete_file}
use alpha_os.Fs.Lookup.{lookup}
use alpha_os.Fs.Create.{fs_create_file_lem}
use alpha_os.Fs.Delete.{fs_delete_file_lem}
use alpha_os.Fs.Distinct.{fs_create_file-Distinct}
use alpha_os.Console.{Console}
use alpha_os.Stdio.{text}
use alpha_os.Stdio.Spec.{expand}
use alpha_os.Shell.{World, keep_saved}
use alpha_os.Shell.Files.{cmd_touch, cmd_rm}
use alpha_os.Shell.Safety.{WellFormed}
use alpha_os.Shell.Touch.{finish-returns, cmd_touch-returns}

expand-removed :
    (name : Text)
    → expand (codes "'%s' removed successfully\n") (text name ∷ [])
      ≡ some (codes "'" ++ (name ++ codes "' removed successfully\n"))
unfolding expand
expand-removed name = refl

expand-not_removed :
    (name : Text)
    → expand (codes "rm: cannot remove '%s': No such file or directory\n") (text name ∷ [])
      ≡ some (codes "rm: cannot remove '" ++ (name ++ codes "': No such file or directory\n"))
unfolding expand
expand-not_removed name = refl

-- `rm` returns, with the table that `fs_delete_file` leaves.
cmd_rm-returns :
    (cmd name path : Text) (argv : List Text) (saved : Saved) (w : World)
    → fs_get_absolute_path name w.shell.current_dir ≡ some (path, saved)
    → (s : Console) × (cmd_rm (cmd ∷ name ∷ argv) w
        ≡ some (record w { console = s; fs = (fs_delete_file w.fs path).1; saved_str = saved }))
unfolding cmd_rm
cmd_rm-returns cmd name path argv saved w e =
    let left = fs_delete_file w.fs path in
    let (s, done) =
      finish-returns (codes "rm: cannot remove '%s': No such file or directory\n")
        (codes "'%s' removed successfully\n") name _ _ left.0 left.1 (keep_saved saved w)
        (expand-not_removed name) (expand-removed name) in
    (s, rw e done)

-- In a well-formed system `rm` with a name always returns, and removes the file of the path that the
-- name stands for, the root excepted: lookups of that path fail afterwards, every other lookup gives
-- what it gave before, and the shell's own state is as before.
pub cmd_rm_lem :
    (cmd name path q : Text) (argv : List Text) (saved : Saved) (w : World)
    → WellFormed w
    → fs_get_absolute_path name w.shell.current_dir ≡ some (path, saved)
    → (w' : World) × (cmd_rm (cmd ∷ name ∷ argv) w ≡ some w')
      × (lookup q w'.fs.entries
          ≡ (if bytes_eq path q && not (bytes_eq path root) then none else lookup q w.fs.entries))
      × (w'.shell ≡ w.shell)
cmd_rm_lem cmd name path q argv saved w h e =
    let (s, done) = cmd_rm-returns cmd name path argv saved w e in
    (
      record w { console = s; fs = (fs_delete_file w.fs path).1; saved_str = saved },
      done,
      fs_delete_file_lem w.fs path q h.distinct,
      refl,
    )

-- In a well-formed system, `touch` and then `rm` with one name both return, and leave every lookup with
-- the result that it had before, where `fs_get_absolute_path` makes a path of the name (which it
-- does not where its buffer is too small), and the path is not the root and no file's.
pub cmd_rm-cmd_touch :
    (cmd cmd' name path : Text) (argv argv' : List Text) (saved : Saved) (w : World)
    → WellFormed w
    → fs_get_absolute_path name w.shell.current_dir ≡ some (path, saved)
    → lookup path w.fs.entries ≡ none
    → bytes_eq path root ≡ false
    → (w1 : World) × (w2 : World) × (cmd_touch (cmd ∷ name ∷ argv) w ≡ some w1)
      × (cmd_rm (cmd' ∷ name ∷ argv') w1 ≡ some w2)
      × ((q : Text) → lookup q w2.fs.entries ≡ lookup q w.fs.entries)
cmd_rm-cmd_touch cmd cmd' name path argv argv' saved w h e fresh not_root =
    let short = (fs_get_absolute_path-Rooted name w.shell.current_dir path saved h.rooted e).1 in
    let (s, touched) = cmd_touch-returns cmd name path argv saved w e in
    let w1 : World = record w {
      console = s;
      fs = (fs_create_file w.fs path 0).1;
      saved_str = saved;
    } in
    let (s', removed) = cmd_rm-returns cmd' name path argv' saved w1 e in
    (
      w1,
      record w1 { console = s'; fs = (fs_delete_file w1.fs path).1 },
      touched,
      removed,
      λ q.
          fs_delete_file_lem w1.fs path q (fs_create_file-Distinct w.fs path 0 short h.distinct)
          ∙ rw not_root (
              rw (fs_create_file_lem w.fs path 0 q short) (elim (Bool-cases (bytes_eq path q)) [
                | inl same ↦
                    let gone : lookup q w.fs.entries ≡ none =
                      rw (eq_of_bytes_eq path q same) at fresh in
                    rw (same, gone) refl
                | inr other ↦ rw other (ground arith)
              ])),
    )

-- A path that `rm` is given is not one with a slash at its end, unless it is the root's.
not_removed :
    (path q : Text)
    → (path ≡ root) ⊎ (ends_with_slash path ≡ false)
    → ends_with_slash q ≡ true
    → (bytes_eq path q && not (bytes_eq path root)) ≡ false
not_removed path q (inl at_root) ends = rw (at_root, bytes_eq_refl root) (ground arith)
not_removed path q (inr no_slash) ends = elim (Bool-cases (bytes_eq path q)) [
  | inl same ↦
      let clash : ends_with_slash q ≡ false = rw (eq_of_bytes_eq path q same) at no_slash in
      absurd (cc)
  | inr other ↦ rw other refl
]

-- No name makes `rm` remove an entry whose name ends with a slash, as those that `mkdir` makes do: in
-- a well-formed system, with a name that begins with a slash or fits into 128 bytes behind the
-- current directory and a slash, `rm` returns, and the lookup of such an entry gives what it gave
-- before.
pub cmd_rm-keeps :
    (cmd name q : Text) (argv : List Text) (w : World)
    → WellFormed w
    → ends_with_slash q ≡ true
    → Fits name w.shell.current_dir
    → (w' : World) × (cmd_rm (cmd ∷ name ∷ argv) w ≡ some w')
      × (lookup q w'.fs.entries ≡ lookup q w.fs.entries)
cmd_rm-keeps cmd name q argv w h ends fits =
    let (path, saved, e) = fs_get_absolute_path-total name w.shell.current_dir fits in
    let (w', removed, looked, shell) = cmd_rm_lem cmd name path q argv saved w h e in
    let kept =
      not_removed path q (fs_get_absolute_path-ends name w.shell.current_dir path saved e) ends in
    (w', removed, looked ∙ rw kept refl)
