-- ===== src/Lib.antt =====
-- LunariaOS: the kernel's memory, console, keyboard, file system, shell and library, and the heap and
-- the editor of its programs.
--
-- The program is a kernel for 32-bit x86 with a few user programs. This library models the parts
-- that keep state, each as a record, and each C function as a function on it:
--
--   Terminal   src/kernel/wm.c (term_*): a text terminal of 80 by 25 cells and its caret.
--   Wm         src/kernel/wm.c (wm_*): ten terminals, the one on show, and the VGA text buffer.
--   Console    src/kernel/syscall.c: the console system calls, over Wm and Terminal.
--   Keyboard   src/drivers/keyboard.c: the interrupt's ring of scancodes and the decoder.
--   Frames     src/kernel/memory.c: the E820 table, the bitmap of frames, memory_init.
--   Vm         src/kernel/memory.c: paging, address spaces, demand paging, the program break. It
--              takes its frames from Frames.
--   Fs         src/drivers/fs.c: the directory and the files of LUNFS1 on an ATA disk: lookup, reading
--              and deletion. Fs.Update has fs_write, fs_mkdir and fs_append, Fs.Handles and
--              Fs.FdWrite the calls on open files, Fs.Listing fs_mount and part of fs_ls_buf.
--   Str        src/lib/string.h: memory functions, itoa and atoi, strlen, strncpy.
--   Vga        src/drivers/vga.c: the boot screen, which prints before there are terminals.
--   Gdt        src/kernel/gdt.c: segment descriptors.
--   Idt        src/kernel/idt.c: interrupt gates and the dispatch to Pit and Keyboard.
--   Pit        src/drivers/pit.c: the tick counter and pit_sleep.
--   Shell      src/kernel/shell.c: the words of a line, redirection, the table of commands. Shell.Args
--              has the arguments of a program and the header of a flat one, Shell.Prompt the line
--              editor, over Wm, and Shell.Commands what a line does, over Fs and Terminal.
--   Heap       src/home/lib/libc.c: malloc, free, calloc, realloc, strdup, over the break that Vm keeps.
--              Heap.Blocks has the free list as a list of blocks, which the headers stand for.
--   Calendar   src/home/lib/libc.c: localtime and gmtime; Calendar.Format has
--              strftime, and Calendar.Year the Gregorian calendar.
--   Number     src/home/lib/libc.c: strtoull, strtoll, strtoul, strtol, over lists of bytes.
--   Editor     src/home/edit.c: the text editor, with its command line and its files in Fs.
--   Base       shared: numbers, tests, lists, byte arrays, bit operations as arithmetic.
--
-- A model's function has the name of the C function. A function that changes a static or a device
-- takes the record and returns it, with the C result beside it; an Option or a Boolean stands for
-- 0 and -1. A loop's body and a block that a proof speaks of are functions of their own, named for
-- what they do, and the comment there says which loop it is.
--
-- Bytes and words are native numbers. Where C arithmetic can wrap, `% 2 ^ 32` (for a byte
-- `% 2 ^ 8`) stands in the definition; the `int` coordinates of a terminal never become negative,
-- so they are numbers, and a terminal's number, which a caller chooses, is an integer. Memory is a
-- function from the index: words of 32 bits for physical memory in Vm, bytes elsewhere.
--
-- Loops with a counter are recursion on the number of rounds left. These run on fuel:
--   kbd_flush and the ring: `flush_loop` has 256 rounds, one for every place of the ring.
--   memory_init: `protect` has a round for each byte of the bitmap and one more; it goes by pages.
--   map_range: `map_loop` has 2 ^ 20 + 1 rounds, more than there are pages; its `none` is the loop
--              that does not end.
--   fs_read: `read_loop` has a round for each sector of the file, size / 512 + 1.
--   fs_ls_buf: `ls_sectors` has a round for each sector of the directory, size / 512 + 1.
--   fs_read_fd: `fd_loop` has a round for each sector that n bytes can touch, n / 512 + 2.
--   itoa: ten rounds, the digits of a 32-bit number; atoi and strlen take their fuel as an argument.
--   strftime: a number is read back from the 16 bytes of `tmp`; a word has at most ten digits and a sign.
--   malloc, morecore, free: a round for each free block and one more, two for malloc, which then searches
--              at most twice.
--   scroll_fix: a round more than the larger of `top` and the length of the text.
--   fs_write: `write_fuel` has 23 rounds, one for each parent of a path of at most 22 bytes.
--
-- Not modelled: the busy wait of kbd_getc (an empty ring is the answer `none`), port I/O (the disk
-- is an array of sectors with a set of faulty ones), TLB and control registers, and the parts
-- that have no file here: most listings, the dispatcher of system calls, most str functions of the
-- string library, the rest of the C library, and the other user programs. Programs are taken not to
-- write over the headers of the heap (the memset of calloc is the one that does so in the model). The editor's messages are data and its screen is left out; the
-- start of a program by the shell is left out but for its arguments and the header of its image.
-- A failed fs_read into the buffer of a handle that is being opened leaves that buffer as it was here;
-- no handle owns its bytes then.
-- thirdparty/tinycc is a copy of another project. The boot code is assembly; the table of memory
-- areas that it leaves and the end of the kernel's image are arguments of memory_init.
pub mod Base
pub mod Terminal
pub mod Wm
pub mod Keyboard
pub mod Frames
pub mod Vm
pub mod Fs
pub mod Console
pub mod Str
pub mod Vga
pub mod Gdt
pub mod Pit
pub mod Idt
pub mod Heap
pub mod Editor
pub mod Shell
pub mod Calendar
pub mod Number
