-- ===== src/Shell/Frame/Commands.antt =====
-- A property of the system that the steps of the commands of kernel/shell.c keep is kept by each
-- command that is not about the user's rights.
use alpha_os.Prelude.{
  ℕ, zero, suc, ◌+◌, ◌-◌, ◌*◌, ◌%◌, ◌^◌, ◌==◌, ◌≡◌, refl, if◌then◌else◌, arith, Bool, true, false,
  Option, none, some, List, [], ◌∷◌, codes,
}
use alpha_os.Prelude.Int.{ℤ, pos, negsuc}
use alpha_os.CString.Spec.{Text}
use alpha_os.Strtok.Spec.{next_text}
use alpha_os.FilePath.{max_filename_length, fs_normalize_path, fs_get_absolute_path}
use alpha_os.Fs.{
  Filesystem, max_files, fs_list_directory, fs_change_directory, max_file_size, add_slash,
  fs_read_file,
}
use alpha_os.Stdio.{text, snprintf}
use alpha_os.Heap.{memory_check_integrity}
use alpha_os.Shell.{
  World, Handler, Command, Output, print, line, display, keep_saved, set_dir, find_command,
  max_path_length,
}
use alpha_os.Shell.Screens.{
  command_outputs, cmd_banner, cmd_help, cmd_tree, cmd_clear, cmd_echo, cmd_pwd,
}
use alpha_os.Shell.Users.{set_hostname, cmd_whoami, cmd_hostname}
use alpha_os.Shell.Listing.{
  fs_get_permissions_string, line_feed, detailed_line, detailed_loop, simple_line, simple_loop,
  show_listing, list_files, cmd_ls,
}
use alpha_os.Shell.Files.{
  is_zero, show_file, set_fs, finish, cmd_cd, cmd_cat, cmd_mkdir, cmd_touch, cmd_rm,
}
use alpha_os.Shell.Dispatch.{run_handler}
use alpha_os.Shell.Numbers.{
  cmd_stat, cmd_mem, cmd_info, cmd_history, cmd_uptime, cmd_date, cmd_calc, heap_fuel,
}
use alpha_os.Shell.Frame.{
  After, Stable, After-none, After-some, After-then, After-bind, After-result_of, After-if,
}
use alpha_os.FilePath.Rooted.{Rooted, fs_get_absolute_path-Rooted}
use alpha_os.Fs.Directory.{length-add_slash, fs_change_directory-Rooted}

-- The two home directories.
home-Rooted : (is_root : Bool) → Rooted (if is_root then codes "/root" else codes "/home/user")
home-Rooted true = refl
home-Rooted false = refl

module _ {P : World → Type 0} (stable : Stable P) where
  pub cmd_help-After : (argv : List Text) (w : World) → P w → After P (cmd_help argv w)
  unfolding cmd_help
  cmd_help-After [] w h = stable.displays _ w h
  cmd_help-After (c ∷ []) w h = stable.displays _ w h
  cmd_help-After (c ∷ name ∷ argv) w h = go (find_command name w.shell.commands)
    where
      go :
          (o : Option (Option Command))
          → After P (elim o [
            | none ↦ none
            | some none ↦ display (print (codes "Unknown command: %s\n") (text name ∷ []) ∷ []) w
            | some (some c) ↦ display (command_outputs c) w
          ])
      go none = After-none P
      go (some none) = stable.displays _ w h
      go (some (some c)) = stable.displays _ w h

  pub cmd_echo-After : (argv : List Text) (w : World) → P w → After P (cmd_echo argv w)
  unfolding cmd_echo
  cmd_echo-After [] w h = stable.displays _ w h
  cmd_echo-After (c ∷ argv) w h = stable.displays _ w h

  pub cmd_hostname-After : (argv : List Text) (w : World) → P w → After P (cmd_hostname argv w)
  unfolding cmd_hostname
  cmd_hostname-After [] w h = stable.displays _ w h
  cmd_hostname-After (c ∷ []) w h = stable.displays _ w h
  cmd_hostname-After (c ∷ name ∷ argv) w h =
      After-if P w.shell.is_root _ _
        (stable.displays _ (set_hostname name w) (stable.names name w h)) (stable.displays _ w h)

  pub cmd_cd-After : (argv : List Text) (w : World) → P w → After P (cmd_cd argv w)
  unfolding cmd_cd
  cmd_cd-After [] w h = After-some P _ (stable.dirs _ w (λ k. home-Rooted w.shell.is_root) h)
  cmd_cd-After (c ∷ []) w h = After-some P _ (stable.dirs _ w (λ k. home-Rooted w.shell.is_root) h)
  cmd_cd-After (c ∷ dir ∷ argv) w h =
      After-result_of P
        (fs_change_directory w.fs dir w.shell.current_dir max_path_length w.saved_str) _
        λ r e.
          let rooted = λ (k : Rooted w.shell.current_dir).
            fs_change_directory-Rooted w.fs dir w.shell.current_dir max_path_length w.saved_str r
              (omega arith) k e in
          let moved = stable.dirs r.1 (keep_saved r.2 w) rooted (stable.saves r.2 w h) in
          After-if P (is_zero r.0) _ _ (After-some P _ moved)
            (stable.displays _ (set_dir r.1 (keep_saved r.2 w)) moved)

  finish-After :
      (bad good name : Text) (r : ℤ × Filesystem) (w : World)
      → P (set_fs r.1 w)
      → After P (finish bad good name r w)
  unfolding finish
  finish-After bad good name (code, fs) w h =
      After-if P (is_zero code) _ _ (stable.displays _ (set_fs fs w) h)
        (stable.displays _ (set_fs fs w) h)

  pub cmd_mkdir-After : (argv : List Text) (w : World) → P w → After P (cmd_mkdir argv w)
  unfolding cmd_mkdir
  cmd_mkdir-After [] w h = stable.displays _ w h
  cmd_mkdir-After (c ∷ []) w h = stable.displays _ w h
  cmd_mkdir-After (c ∷ name ∷ argv) w h =
      After-result_of P (fs_get_absolute_path name w.shell.current_dir) _ λ r e.
        finish-After _ _ name _ (keep_saved r.1 w) (
          stable.creates (add_slash r.0) 1 (keep_saved r.1 w)
            (λ k.
              length-add_slash r.0
                (fs_get_absolute_path-Rooted name w.shell.current_dir r.0 r.1 k e).1)
            (stable.saves r.1 w h))

  pub cmd_touch-After : (argv : List Text) (w : World) → P w → After P (cmd_touch argv w)
  unfolding cmd_touch
  cmd_touch-After [] w h = stable.displays _ w h
  cmd_touch-After (c ∷ []) w h = stable.displays _ w h
  cmd_touch-After (c ∷ name ∷ argv) w h =
      After-result_of P (fs_get_absolute_path name w.shell.current_dir) _ λ r e.
        finish-After _ _ name _ (keep_saved r.1 w) (
          stable.creates r.0 0 (keep_saved r.1 w)
            (λ k. (fs_get_absolute_path-Rooted name w.shell.current_dir r.0 r.1 k e).1)
            (stable.saves r.1 w h))

  pub cmd_rm-After : (argv : List Text) (w : World) → P w → After P (cmd_rm argv w)
  unfolding cmd_rm
  cmd_rm-After [] w h = stable.displays _ w h
  cmd_rm-After (c ∷ []) w h = stable.displays _ w h
  cmd_rm-After (c ∷ name ∷ argv) w h =
      After-bind P (fs_get_absolute_path name w.shell.current_dir) _ λ r.
        finish-After _ _ name _ (keep_saved r.1 w)
          (stable.deletes r.0 (keep_saved r.1 w) (stable.saves r.1 w h))

  show_file-After : (name : Text) (r : ℤ × List ℕ) (w : World) → P w → After P (show_file name r w)
  unfolding show_file
  show_file-After name (negsuc n, bytes) w h = stable.displays _ w h
  show_file-After name (pos n, bytes) w h = stable.displays _ w h

  pub cmd_cat-After : (argv : List Text) (w : World) → P w → After P (cmd_cat argv w)
  unfolding cmd_cat
  cmd_cat-After [] w h = stable.displays _ w h
  cmd_cat-After (c ∷ []) w h = stable.displays _ w h
  cmd_cat-After (c ∷ name ∷ argv) w h =
      After-bind P (fs_get_absolute_path name w.shell.current_dir) _ λ r.
        show_file-After name (fs_read_file w.fs r.0 (max_file_size - 1)) (keep_saved r.1 w)
          (stable.saves r.1 w h)

  pub detailed_loop-After :
      (fuel : ℕ) (path : Text) (name : Option Text) (w : World)
      → P w
      → After P (detailed_loop fuel path name w)
  unfolding detailed_loop detailed_line
  detailed_loop-After zero path name w h = After-none P
  detailed_loop-After (suc f) path none w h = After-some P w h
  detailed_loop-After (suc f) path (some name) w h =
      After-then P (detailed_line path name w) _
        (After-bind P
          (snprintf max_filename_length max_filename_length (codes "%s/%s")
            (text path ∷ text name ∷ []))
          _
          λ r. After-bind P (fs_normalize_path r.1) _ λ q.
            After-bind P (fs_get_permissions_string w.fs q.0 16) _
              λ perms. stable.displays _ (keep_saved q.1 w) (stable.saves q.1 w h))
        λ w1 h1.
          detailed_loop-After f path (next_text line_feed w1.saved_str).0 _ (stable.saves _ w1 h1)

  pub simple_loop-After :
      (fuel : ℕ) (name : Option Text) (count : ℕ) (w : World)
      → P w
      → After P (simple_loop fuel name count w)
  unfolding simple_loop simple_line
  simple_loop-After zero name count w h = After-none P
  simple_loop-After (suc f) none count w h =
      After-if P (count % 4 == 0) _ _ (After-some P w h) (stable.displays _ w h)
  simple_loop-After (suc f) (some name) count w h =
      After-then P (simple_line name count w) _ (stable.displays _ w h) λ w1 h1.
        simple_loop-After f (next_text line_feed w1.saved_str).0 (count + 1) _
          (stable.saves _ w1 h1)

  show_listing-After :
      (detailed : Bool) (path buffer : Text) (w : World)
      → P w
      → After P (show_listing detailed path buffer w)
  unfolding show_listing
  show_listing-After detailed path buffer w h =
      let start = stable.saves (next_text line_feed (some buffer)).1 w h in
      After-then P _ _
        (After-if P detailed _ _
          (After-then P _ _ (stable.displays _ _ start) λ w2 h2. detailed_loop-After _ path _ w2 h2)
          (simple_loop-After _ _ 0 _ start))
        λ w2 h2. stable.displays _ w2 h2

  list_files-After :
      (detailed : Bool) (dir : Text) (w : World) → P w → After P (list_files detailed dir w)
  unfolding list_files
  list_files-After detailed dir w h =
      After-bind P (fs_get_absolute_path dir w.shell.current_dir) _ λ r.
        After-bind P (fs_list_directory w.fs r.0 (max_files * max_filename_length)) _
          λ q. go r.0 (keep_saved q.2 w) (stable.saves q.2 w h) q.1
    where
      go :
          (path : Text) (w1 : World)
          → P w1
          → (buffer : Text)
          → After P (elim buffer [
            | [] ↦ display (line (codes "Directory is empty\n") ∷ []) w1
            | c ∷ rest ↦ show_listing detailed path (c ∷ rest) w1
          ])
      go path w1 h1 [] = stable.displays _ w1 h1
      go path w1 h1 (c ∷ rest) = show_listing-After detailed path (c ∷ rest) w1 h1

  pub cmd_ls-After : (argv : List Text) (w : World) → P w → After P (cmd_ls argv w)
  unfolding cmd_ls
  cmd_ls-After [] w h = list_files-After false w.shell.current_dir w h
  cmd_ls-After (c ∷ argv) w h = list_files-After _ _ w h

  pub cmd_history-After : (w : World) → P w → After P (cmd_history w)
  unfolding cmd_history
  cmd_history-After w h = After-if P _ _ _ (stable.displays _ w h) (stable.displays _ w h)

  pub cmd_calc-After : (argv : List Text) (w : World) → P w → After P (cmd_calc argv w)
  unfolding cmd_calc
  cmd_calc-After [] w h = stable.displays _ w h
  cmd_calc-After (c ∷ []) w h = stable.displays _ w h
  cmd_calc-After (c ∷ a ∷ []) w h = stable.displays _ w h
  cmd_calc-After (c ∷ a ∷ op ∷ []) w h = stable.displays _ w h
  cmd_calc-After (c ∷ a ∷ op ∷ b ∷ argv) w h =
      After-bind P _ _ λ (r : Option ℕ × List Output). stable.displays _ w h

-- The commands that are about the user's rights.
abbrev pub is_login : Handler → Bool
is_login Handler.su = true
is_login Handler.root_shell = true
is_login Handler.exit_root = true
is_login other = false

-- Every other command keeps a property that its steps keep.
pub run_handler-After :
    {P : World → Type 0}
    → Stable P
    → (handler : Handler) (argv : List Text) (w : World) → is_login handler ≡ false
    → P w
    → After P (run_handler handler argv w)
unfolding run_handler cmd_pwd cmd_stat cmd_mem cmd_tree cmd_info cmd_whoami cmd_uptime cmd_date
    cmd_banner cmd_clear
run_handler-After {P} stable Handler.help argv w r h = cmd_help-After stable argv w h
run_handler-After {P} stable Handler.ls argv w r h = cmd_ls-After stable argv w h
run_handler-After {P} stable Handler.cd argv w r h = cmd_cd-After stable argv w h
run_handler-After {P} stable Handler.cat argv w r h = cmd_cat-After stable argv w h
run_handler-After {P} stable Handler.echo argv w r h = cmd_echo-After stable argv w h
run_handler-After {P} stable Handler.mkdir argv w r h = cmd_mkdir-After stable argv w h
run_handler-After {P} stable Handler.touch argv w r h = cmd_touch-After stable argv w h
run_handler-After {P} stable Handler.rm argv w r h = cmd_rm-After stable argv w h
run_handler-After {P} stable Handler.clear argv w r h = After-some P _ (stable.clears w h)
run_handler-After {P} stable Handler.pwd argv w r h = stable.displays _ w h
run_handler-After {P} stable Handler.stat argv w r h = stable.displays _ w h
run_handler-After {P} stable Handler.mem argv w r h =
    After-bind P (memory_check_integrity heap_fuel w.heap) _ λ sound. stable.displays _ w h
run_handler-After {P} stable Handler.history argv w r h = cmd_history-After stable w h
run_handler-After {P} stable Handler.tree argv w r h = stable.displays _ w h
run_handler-After {P} stable Handler.info argv w r h = stable.displays _ w h
run_handler-After {P} stable Handler.whoami argv w r h = stable.displays _ w h
run_handler-After {P} stable Handler.hostname argv w r h = cmd_hostname-After stable argv w h
run_handler-After {P} stable Handler.uptime argv w r h =
    stable.displays _ _ (stable.ticks ((w.system_uptime + 1) % 2 ^ 32) w h)
run_handler-After {P} stable Handler.calc argv w r h = cmd_calc-After stable argv w h
run_handler-After {P} stable Handler.date argv w r h =
    stable.displays _ _ (stable.ticks ((w.system_uptime + 1) % 2 ^ 32) w h)
run_handler-After {P} stable Handler.banner argv w r h = stable.displays _ w h
run_handler-After {P} stable Handler.su argv w r h = absurd (cc)
run_handler-After {P} stable Handler.root_shell argv w r h = absurd (cc)
run_handler-After {P} stable Handler.exit_root argv w r h = absurd (cc)
