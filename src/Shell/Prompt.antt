-- ===== src/Shell/Prompt.antt =====
-- The prompt of kernel/shell.c.
use alpha_os.Prelude.{◌-◌, Option, List, [], ◌∷◌, codes, ltb, if◌then◌else◌, length, drop}
use alpha_os.CString.Spec.{Text}
use alpha_os.Console.{VgaColor}
use alpha_os.Stdio.{text}
use alpha_os.Shell.{World, Shell, Output, paint, print, line, grey, display}

-- `short_dir`, the last 17 bytes of a long directory name.
abbrev pub short_dir : Text → Text
short_dir dir = if ltb 20 (length dir) then drop (length dir - 17) dir else dir

abbrev pub prompt_outputs : Shell → List Output
prompt_outputs s =
    paint (if s.is_root then VgaColor.light_red else VgaColor.light_green)
    ∷ print (codes "%s") (text s.username ∷ [])
    ∷ paint VgaColor.white
    ∷ line (codes "@")
    ∷ paint VgaColor.light_cyan
    ∷ print (codes "%s") (text s.hostname ∷ [])
    ∷ paint VgaColor.white
    ∷ line (codes ":")
    ∷ paint VgaColor.light_blue
    ∷ print (codes "%s") (text (short_dir s.current_dir) ∷ [])
    ∷ paint VgaColor.white
    ∷ paint (if s.is_root then VgaColor.light_red else VgaColor.light_green)
    ∷ line (if s.is_root then codes "# " else codes "$ ")
    ∷ grey
    ∷ []

unfoldable pub shell_print_enhanced_prompt : World → Option World
shell_print_enhanced_prompt w = display (prompt_outputs w.shell) w

unfoldable pub shell_print_prompt : World → Option World
unfolding shell_print_enhanced_prompt
shell_print_prompt w = shell_print_enhanced_prompt w
