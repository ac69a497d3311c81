-- ===== src/Lib.antt =====
-- AlphaOS: the heap, the C library, the file system, the console, the keyboard and the shell.
--
-- The program is a small 32-bit kernel. kernel/memory.c hands out blocks of one static array,
-- libc/string.c has the memory and string functions that everything else calls, kernel/fs.c keeps a
-- table of named files over one array of bytes, and finds its way through paths with `strtok`,
-- kernel/console.c writes to the text screen, and kernel/keyboard.c fills a ring buffer from the
-- keyboard's port and reads lines from it, which it echoes to the console. libc/stdio.c formats text
-- for the console, and libc/stdlib.c reads and writes numbers. kernel/shell.c splits the lines into
-- words and runs its commands, which call all the others; kernel/main.c brings the parts up in order.
--
-- Prelude: shared names, lists and integers over the native numbers.
-- Bytes: the byte memory, and `memcpy` to `memchr` of libc/string.c. A pointer is a number.
--   Bytes/Copy and Bytes/Compare are about what they leave and decide.
-- CString: `strlen` to `strstr` of libc/string.c, on terminated strings in that memory.
--   CString/Spec says what text a string stands for; Scan, Compare, Write and Search are about the
--   functions.
-- Strtok: `strtok`, `split_string` and `trim` of libc/string.c; the static pointer `saved_str` is an
--   argument and a result. Strtok/Spec has `strtok` on texts, Refine relates the two, and Words says
--   which words the calls yield.
-- Digits: the loop that gives a number's digits, which libc/stdio.c has three times.
-- Stdio: `vsprintf` and the functions around it, in libc/stdio.c. Stdio/Spec says what a format stands
--   for, Pieces and Expand are about `vsprintf` against it, and Bounds about the buffer; Hosted has
--   the calls between `printf` and `vprintf` in TEST_MODE.
-- Stdlib: `atoi` to `ltoa` of libc/stdlib.c; RoundTrip is about numbers that are
--   printed and read, and Table, Reverse, Back and Itoa about the string that `itoa` leaves. Float has
--   `atof`, over a type `double` whose operations are a parameter, and Double is about it.
-- System: `system_delay` of kernel/system.c, and the calls that halt.
-- Heap: the allocator of kernel/memory.c. A state has the header at each address, the bytes, and the
--   static variables. Heap/Blocks is the abstract view, a list of blocks with first fit, cutting and
--   merging; Heap/Tiles says when a state stands for such a list; Find, Carve, Merge and Release
--   are about the loops and steps, Laws, Live, Undo and Realloc about the calls, Supply about the room
--   that is left, and Misuse about calls outside the contract.
-- FilePath: the path functions of kernel/fs.c, on texts; Resolve, Render, Normal and Canonical are
--   about normalising, Absolute about `fs_get_absolute_path` and the room in its buffer, Rooted and Ends
--   about where a path has its first and last slash.
-- Fs: the table of files of kernel/fs.c, on names that are texts. Fs/Lookup reads the table as a map
--   from names to entries; Create, Delete, Data and Contents are about the calls, Distinct about
--   names that occur once, Directory about the change of directory, Children says
--   what a directory's children are, Listing and Unlisted are about what is listed; Init is the table that the system starts with.
-- Console: kernel/console.c in kernel mode, over the cells of the video memory; Scroll is about
--   its loops, Cursor about characters.
-- Keyboard: kernel/keyboard.c in kernel mode. What the port reads give is an argument, since port
--   access is assembly; Queue is about the ring buffer, Line, Keep and Return about reading a line.
--   Hosted is the `keyboard_get_line` of TEST_MODE, over the host's functions as a parameter, and
--   HostedLine is about it.
-- Shell: kernel/shell.c. A world has the states of all the parts. History, Prompt, Screens, Users,
--   Listing, Files and Numbers have the commands, Dispatch the way from a line to its command, and Boot
--   `shell_init`, kernel/system.c and kernel/main.c. Tokens and Recall are about words and history,
--   Frame, Frame/Commands and Steady about what the commands leave alone, Safety, Invariant and Startup
--   about what is true at all times, Register and Ready about the commands that are there after the
--   start, Login and Password about the rights, Texts, Touch, Remove and Directories about the commands
--   on files, Calc and CalcText about `calc`, and Faults about formats that `vsprintf` does not know.
-- The Tests modules run the calls on concrete states; Shell/Worlds has some for Shell/FileTests.
--
-- Bounds: words have 32 bits, and sums that may wrap round are reduced. A loop with a counter recurs
-- on the rounds left. A loop along a string takes fuel, and more than the string's length is enough; a
-- walk along the heap's headers takes fuel, and more than 65536 is enough, since each block takes a
-- header of 16 bytes out of 1 MB; the loop over the words of a path is given the text's length plus 2;
-- reading a line takes fuel, and more than the number of keys that come is enough: the shell gives it
-- 257 rounds and one for each reading. The digits of a word in base 2 or more are 32 at most. The
-- loops over words and lines of a text are given the text's length plus 2. The busy wait ends with more
-- fuel than it has rounds; the loops that halt end with none. In the shell, in `vsprintf`, `snprintf`
-- and `fs_get_absolute_path`, a result `none` stands for a call without a defined behaviour, or for a
-- wait without end.
--
-- Not modelled: the floating-point arguments of `%.1f`, which `vsprintf` never takes; the port accesses
-- and the interrupt flag; under TEST_MODE all but the reading of a line and the calls of `printf`, since
-- the rest only passes calls on to the host; the boot code; and the size of the stack, which is taken
-- to be large enough. Where `snprintf` writes behind its buffer, as it does for a long path, the
-- result is `none`; the texts that `strncpy` leaves are cut to their buffers.
pub mod Prelude
pub mod Bytes
pub mod CString
pub mod Strtok
pub mod Digits
pub mod Stdio
pub mod Stdlib
pub mod System
pub mod Heap
pub mod FilePath
pub mod Fs
pub mod Console
pub mod Keyboard
pub mod Shell
