-- ===== src/Shell/Register.antt =====
-- The commands that `shell_init` of kernel/shell.c registers, with their texts on the heap of
-- kernel/memory.c.
use mathlib.Core.Path.{sym}
use alpha_os.Prelude.{
  ℕ, ◌+◌, ◌^◌, ◌≤◌, ◌<◌, ◌≡◌, refl, ◌∙◌, some, List, [], ◌∷◌, ◌++◌, map, arith, length,
  length-append, true, false, append_assoc, append-nil, ltb, ◌==◌,
}
use alpha_os.CString.Spec.{Text}
use alpha_os.Fs.{write_bytes}
use alpha_os.Heap.{State, header_size, align}
use alpha_os.Heap.Blocks.{Block, allocate}
use alpha_os.Heap.Tiles.{IsHeap}
use alpha_os.Heap.Supply.{room, malloc-room}
use alpha_os.Shell.{World, Command}
use alpha_os.Shell.Numbers.{heap_fuel}
use alpha_os.Shell.Dispatch.{strdup, shell_register_command}
use alpha_os.Shell.Boot.{BuiltIn, register_all}

-- The heap after a call that has taken at most `cost` bytes of its room.
record Took (h : State) (bs : List Block) (cost : ℕ) (h' : State) : Type 0 where
  pub blocks : List Block
  pub is_heap : IsHeap h' blocks
  pub left : room bs ≤ room blocks + cost

Took-trans :
    (h h1 h2 : State) (bs : List Block) (c d : ℕ)
    → (t : Took h bs c h1) → Took h1 t.blocks d h2
    → Took h bs (c + d) h2
Took-trans h h1 h2 bs c d t u = record {
  blocks = u.blocks;
  is_heap = u.is_heap;
  left = omega (arith, t.left, u.left);
}

abbrev strdup_cost : Text → ℕ
strdup_cost s = length s + 41

strdup_lem :
    (s : Text) (h : State) (bs : List Block)
    → IsHeap h bs
    → length s < 2 ^ 30
    → strdup_cost s ≤ room bs
    → (h' : State) × (strdup s h ≡ some (some s, h')) × Took h bs (strdup_cost s) h'
unfolding strdup
strdup_lem s h bs is small fits =
    let (got, kept) =
      malloc-room is heap_fuel (length s + 1) (omega arith) (omega arith) (omega arith)
        (omega arith) in
    let dup : ℕ = got.block_at + header_size in
    let ne_null : (dup == 0) ≡ false = ground arith in
    let h1 : State = got.after in
    let heap = got.is_heap in
    (
      record h1 { bytes = write_bytes h1.bytes dup (s ++ 0 ∷ []) },
      rw (got.returns, ne_null) refl,
      record {
        blocks = allocate (align (length s + 1)) bs;
        is_heap = record {
          start = heap.start;
          ne_null = heap.ne_null;
          in_range = heap.in_range;
          tiles = heap.tiles;
          aligned = heap.aligned;
          total = heap.total;
          accounted = heap.accounted;
        };
        left = omega (arith, kept);
      },
    )

-- What the table of commands has for the arguments of a call.
abbrev pub registered : BuiltIn → Command
registered b = record {
  name = some b.name;
  handler = b.handler;
  help_text = some b.help_text;
  usage = some b.usage;
}

abbrev pub cost : BuiltIn → ℕ
cost b = strdup_cost b.name + (strdup_cost b.help_text + strdup_cost b.usage)

abbrev add_command : Command → State → World → World
add_command c h w = record w {
  heap = h;
  shell = record w.shell { commands = w.shell.commands ++ c ∷ [] };
}

shell_register_command-added :
    (b : BuiltIn) (w : World) (bs : List Block)
    → IsHeap w.heap bs
    → length w.shell.commands < 64
    → cost b < 2 ^ 30
    → cost b ≤ room bs
    → (h : State) × (shell_register_command b.name b.handler b.help_text b.usage w
        ≡ some (add_command (registered b) h w))
      × Took w.heap bs (cost b) h
unfolding shell_register_command
shell_register_command-added b w bs is free small fits =
    let (h1, e1, t1) = strdup_lem b.name w.heap bs is (omega arith) (omega arith) in
    let (h2, e2, t2) =
      strdup_lem b.help_text h1 t1.blocks t1.is_heap (omega arith) (omega (arith, t1.left)) in
    let (h3, e3, t3) =
      strdup_lem b.usage h2 t2.blocks t2.is_heap (omega arith) (omega (arith, t1.left, t2.left)) in
    let place : ltb (length w.shell.commands) 64 ≡ true = ground arith in
    (
      h3,
      rw (place, e1, e2, e3) refl,
      Took-trans w.heap h1 h3 bs _ _ t1 (Took-trans h1 h2 h3 t1.blocks _ _ t2 t3),
    )

abbrev pub total_cost : List BuiltIn → ℕ
total_cost [] = 0
total_cost (b ∷ bs) = cost b + total_cost bs

register_all-next :
    (b : BuiltIn) (bs : List BuiltIn) (w w1 : World)
    → shell_register_command b.name b.handler b.help_text b.usage w ≡ some w1
    → register_all (b ∷ bs) w ≡ register_all bs w1
unfolding register_all
register_all-next b bs w w1 e = rw e refl

-- Where the table has places and the heap has room, every command of a list is registered.
pub register_all_lem :
    (bs : List BuiltIn) (w : World) (blocks : List Block)
    → IsHeap w.heap blocks
    → length w.shell.commands + length bs ≤ 64
    → total_cost bs < 2 ^ 30
    → total_cost bs ≤ room blocks
    → (w' : World) × (register_all bs w ≡ some w')
      × (w'.shell.commands ≡ w.shell.commands ++ map registered bs)
register_all_lem [] w blocks is places small fits =
    (w, unfold register_all in refl, sym (append-nil w.shell.commands))
register_all_lem (b ∷ bs) w blocks is places small fits =
    let (h, added, took) =
      shell_register_command-added b w blocks is (omega arith) (omega arith) (omega arith) in
    let w1 : World = add_command (registered b) h w in
    let (w', rest, known) =
      register_all_lem bs w1 took.blocks took.is_heap
        (omega (arith, length-append {0} w.shell.commands (registered b ∷ []))) (omega arith)
        (omega (arith, took.left)) in
    (
      w',
      register_all-next b bs w w1 added ∙ rest,
      known ∙ append_assoc w.shell.commands (registered b ∷ []) (map registered bs),
    )
