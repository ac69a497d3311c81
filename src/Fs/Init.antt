-- ===== src/Fs/Init.antt =====
-- `fs_init` of kernel/fs.c: the directories and files that the system starts with.
use alpha_os.Prelude.{List, [], ◌∷◌, codes}
use alpha_os.CString.Spec.{Text}
use alpha_os.Fs.{Filesystem, fs_create_file, fs_write_file}

abbrev welcome_text : Text
welcome_text =
    codes
      "Welcome to Alpha OS 2025!\n\nAlpha OS is a modern, lightweight operating system with:\n- Advanced file system with directory navigation\n- Enhanced shell with command history and root access\n- Memory management\n- Colorful interface with Linux-style prompts\n- Root shell functionality\n\nType 'help' for available commands.\nType 'root' to enter root shell (password: root or admin).\nType 'info' for system information.\n"

abbrev readme_text : Text
readme_text =
    codes
      "Alpha OS File System 2025\n=========================\n\nFeatures:\n- Linux-like directory structure\n- Parent directory navigation with 'cd ..'\n- File permissions\n- Path normalization\n- Root shell access\n- Linux-style colored prompts\n\nCommands:\n- ls [-l] [path]  : List files (with -l for detailed view)\n- cd <path>       : Change directory (supports .. and absolute paths)\n- pwd             : Print working directory\n- mkdir <path>    : Create directory\n- touch <file>    : Create file\n- cat <file>      : Display file contents\n- rm <file>       : Remove file\n- root            : Enter root shell\n- exit            : Exit root shell\n- su <user>       : Switch user\n"

abbrev version_text : Text
version_text =
    codes
      "Alpha OS v1.0\nBuild: 2025.01\nKernel: AlphaKernel\nShell: AlphaShell v2.0\nFeatures: Root Access, Enhanced Security\n"

abbrev motd_text : Text
motd_text =
    codes
      "Welcome to Alpha OS 2025!\nA modern operating system for learning and development.\nType 'root' for administrative access.\n"

abbrev passwd_text : Text
passwd_text =
    codes
      "# Alpha OS User Database 2025\nroot:x:0:0:root:/root:/bin/sh\nuser:x:1000:1000:user:/home/user:/bin/sh\n"

abbrev shadow_text : Text
shadow_text =
    codes
      "# Alpha OS Shadow File 2025\nroot:$1$root$encrypted:0:0:99999:7:::\nuser:$1$user$encrypted:0:0:99999:7:::\n"

-- `memset(&filesystem, 0, ..)` and the first path; `system_time` is no part of `filesystem`.
abbrev cleared : Filesystem → Filesystem
cleared fs = record {
  entries = [];
  data_bytes = λ a. 0;
  data_used = 0;
  current_path = codes "/";
  system_time = fs.system_time;
}

make_directories : List Text → Filesystem → Filesystem
make_directories [] fs = fs
make_directories (d ∷ ds) fs = make_directories ds (fs_create_file fs d 1).1

abbrev directories : List Text
directories =
    codes "/"
    ∷ codes "/bin"
    ∷ codes "/home"
    ∷ codes "/etc"
    ∷ codes "/tmp"
    ∷ codes "/usr"
    ∷ codes "/var"
    ∷ codes "/dev"
    ∷ codes "/proc"
    ∷ codes "/root"
    ∷ codes "/home/user"
    ∷ []

-- The codes that the calls return are dropped, as in the source.
unfoldable pub fs_init : Filesystem → Filesystem
unfolding make_directories
fs_init fs =
    let made = make_directories directories (cleared fs) in
    let fs1 = (fs_write_file made (codes "/welcome.txt") welcome_text).1 in
    let fs2 = (fs_write_file fs1 (codes "/readme.txt") readme_text).1 in
    let fs3 = (fs_write_file fs2 (codes "/etc/version") version_text).1 in
    let fs4 = (fs_write_file fs3 (codes "/etc/motd") motd_text).1 in
    let fs5 = (fs_write_file fs4 (codes "/etc/passwd") passwd_text).1 in
    (fs_write_file fs5 (codes "/etc/shadow") shadow_text).1
