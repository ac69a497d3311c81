-- ===== src/Shell/Frame.antt =====
-- What the commands of kernel/shell.c leave as it is: the steps that they are made of, and what has to
-- be shown for a property of the system to be kept by them.
pub mod Commands
use alpha_os.Prelude.{
  ℕ, zero, suc, ◌+◌, ◌-◌, ◌*◌, ◌%◌, ◌^◌, ◌==◌, ◌≡◌, ◌≤◌, refl, length, Bool, true, false, Option,
  none, some, List, [], ◌∷◌, codes, if◌then◌else◌,
}
use alpha_os.Prelude.Int.{ℤ, pos, negsuc}
use alpha_os.CString.{◌>>=◌}
use alpha_os.CString.Spec.{Text}
use alpha_os.Strtok.Spec.{Saved, next_text}
use alpha_os.FilePath.Rooted.{Rooted}
use alpha_os.FilePath.{max_filename_length, fs_normalize_path, fs_get_absolute_path}
use alpha_os.Fs.{
  Filesystem, max_files, fs_list_directory, fs_change_directory, max_file_size, add_slash,
  fs_create_file, fs_delete_file, fs_read_file,
}
use alpha_os.Console.{console_clear}
use alpha_os.Stdio.{text, snprintf}
use alpha_os.Heap.{memory_check_integrity}
use alpha_os.Shell.{
  World, Handler, Command, Output, print, line, display, keep_saved, set_dir, find_command,
  max_path_length,
}
use alpha_os.Shell.Screens.{
  command_outputs, cmd_banner, cmd_help, cmd_tree, cmd_clear, cmd_echo, cmd_pwd,
}
use alpha_os.Shell.Users.{set_hostname, cmd_whoami, cmd_hostname}
use alpha_os.Shell.Listing.{
  fs_get_permissions_string, line_feed, detailed_line, detailed_loop, simple_line, simple_loop,
  show_listing, list_files, cmd_ls,
}
use alpha_os.Shell.Files.{
  is_zero, show_file, set_fs, finish, cmd_cd, cmd_cat, cmd_mkdir, cmd_touch, cmd_rm,
}
use alpha_os.Shell.Dispatch.{run_handler}
use alpha_os.Shell.Numbers.{
  cmd_stat, cmd_mem, cmd_info, cmd_history, cmd_uptime, cmd_date, cmd_calc, heap_fuel,
}

-- A property of the world that a call returns, if it does.
unfoldable pub After : (World → Type 0) → Option World → Type 0
After P none = Unit {0}
After P (some w) = P w

-- The steps that the commands are made of keep the property. As long as the current directory begins
-- with a slash, a new one does, and a new file's name has at most 127 bytes.
pub record Stable (P : World → Type 0) : Type 0 where
  pub displays : (os : List Output) (w : World) → P w → After P (display os w)
  pub clears : (w : World) → P w → P (record w { console = console_clear w.console })
  pub dirs :
      (dir : Text) (w : World) → (Rooted w.shell.current_dir → Rooted dir) → P w → P (set_dir dir w)
  pub saves : (saved : Saved) (w : World) → P w → P (keep_saved saved w)
  pub ticks : (n : ℕ) (w : World) → P w → P (record w { system_uptime = n })
  pub names : (name : Text) (w : World) → P w → P (set_hostname name w)
  pub creates :
      (name : Text) (d : ℕ) (w : World)
      → (Rooted w.shell.current_dir → length name ≤ 127)
      → P w
      → P (set_fs (fs_create_file w.fs name d).1 w)
  pub deletes : (name : Text) (w : World) → P w → P (set_fs (fs_delete_file w.fs name).1 w)

module _ (P : World → Type 0) where
  pub After-none : After P none
  unfolding After
  After-none = tt

  pub After-some : (w : World) → P w → After P (some w)
  unfolding After
  After-some w h = h

  pub After-then :
      (o : Option World) (f : World → Option World)
      → After P o
      → ((w : World) → P w → After P (f w))
      → After P (o >>= f)
  unfolding After
  After-then none f h next = tt
  After-then (some w) f h next = next w h

  pub After-bind {ℓ} :
      {A : Type ℓ} (o : Option A) (f : A → Option World)
      → ((a : A) → After P (f a))
      → After P (o >>= f)
  unfolding After
  After-bind none f h = tt
  After-bind (some a) f h = h a

  -- With the result of the first call at hand.
  pub After-result_of {ℓ} :
      {A : Type ℓ} (o : Option A) (f : A → Option World)
      → ((a : A) → o ≡ some a → After P (f a))
      → After P (o >>= f)
  unfolding After
  After-result_of none f h = tt
  After-result_of (some a) f h = h a refl

  pub After-if :
      (b : Bool) (x y : Option World) → After P x → After P y → After P (if b then x else y)
  unfolding After
  After-if true x y hx hy = hx
  After-if false x y hx hy = hy
