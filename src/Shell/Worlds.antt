-- ===== src/Shell/Worlds.antt =====
-- Concrete worlds for the tests of kernel/shell.c.
use alpha_os.Prelude.{◌*◌, none, List, [], ◌∷◌, codes}
use alpha_os.Heap.{State}
use alpha_os.Fs.{Filesystem}
use alpha_os.Console.{Console}
use alpha_os.Keyboard.{Keyboard, Reading}
use alpha_os.Shell.{World, initial_shell}

abbrev pub first_console : Console
first_console = record { row = 0; column = 0; color = 7; buffer = λ a. 0 }

abbrev pub first_keyboard : Keyboard
first_keyboard = record { buffer = λ a. 0; head = 0; tail = 0 }

abbrev pub first_heap : State
first_heap = record {
  heap = 0x100000;
  headers = λ p. record { magic = 0; size = 0; is_free = 0; next = 0 };
  bytes = λ a. 0;
  heap_start = 0;
  total_memory = 1024 * 1024;
  free_memory = 0;
}

abbrev pub first_table : Filesystem
first_table = record {
  entries = [];
  data_bytes = λ a. 0;
  data_used = 0;
  current_path = [];
  system_time = 0;
}

-- The keys r, o, o, t and return.
abbrev pub typing_root : List Reading
typing_root = (1, 19) ∷ (1, 24) ∷ (1, 24) ∷ (1, 20) ∷ (1, 28) ∷ []

abbrev pub first_world : World
first_world = record {
  shell = initial_shell;
  fs = first_table;
  heap = first_heap;
  console = first_console;
  keyboard = first_keyboard;
  readings = typing_root;
  system_uptime = 0;
  saved_str = none;
}

-- A table with a file of two bytes.
abbrev pub file_world : World
file_world = record first_world {
  fs = record first_table {
    entries =
        record {
          filename = codes "/a";
          size = 2;
          data_offset = 65;
          is_directory = 0;
          created_time = 0;
          modified_time = 0;
          permissions = 0o755;
          parent_index = 0;
        }
        ∷ [];
    data_bytes = λ a. a;
  };
}

-- The keys of `touch a` and return.
abbrev pub typing_touch : List Reading
typing_touch = (1, 20) ∷ (1, 24) ∷ (1, 22) ∷ (1, 46) ∷ (1, 35) ∷ (1, 57) ∷ (1, 30) ∷ (1, 28) ∷ []

abbrev pub touch_world : World
touch_world = record first_world { readings = typing_touch }
