-- ===== src/Lib.antt =====
-- SafaOS: a model of the parts of its kernel that carry logic of their own, with their theorems.
--
-- The kernel hands out physical frames (kernel/src/memory), turns scan codes of the keyboard into
-- characters (kernel/src/drivers/keyboard, kernel/src/drivers/keymapper.rs), keeps files in
-- memory behind paths and drives (kernel/src/drivers/vfs), and runs processes in a ring, each
-- with a table of resources (kernel/src/threading). A path goes from a call through the current
-- directory of the process to a drive, and from there through the inodes of its file system.
--
-- - Prelude has lists, results, bits and 64-bit words that the other files share.
-- - Memory has `align_up`, `align_down` and `translate` of memory/mod.rs in Align; the
--   `RegionAllocator` of memory/frame_allocator.rs, whose bitmap is a list of bytes, in
--   FrameAllocator; the page tables of memory/paging.rs in Paging, with ranges of pages in
--   Paging/Pages; `copy_to_userspace` in Userspace; memory/buddy_allocator.rs in Buddy,
--   memory/page_allocator.rs in PageAllocator, and the bindings of memory/sorcery.rs in Bindings.
-- - Keyboard has the state of drivers/keyboard/mod.rs with the handler of set1.rs, the key codes
--   and scan codes of keys.rs in Keys, and the table and `map_key` of drivers/keymapper.rs in
--   Keymap.
-- - Vfs has errors and outcomes in Types; `reslove_path` and `reslove_path_uncreated` of
--   drivers/vfs/mod.rs over an interface `InodeTree` in Path; the inodes, descriptors and calls
--   of drivers/vfs/ramfs.rs in RamFs; the drives of `VFS`, each with a file system in memory, of
--   devices or of processes, in Mounts; entries of directories and their iterator in Listing; the
--   inodes of devicefs.rs and procfs.rs in DeviceFs and ProcFs.
-- - Threading has the table of threading/resources.rs in Resources, processes in Processes, the
--   list of utils/alloc.rs with its cursor in LinkedList and its nodes, in a store, in
--   LinkedList/Nodes, the scheduler of threading/mod.rs, which uses the list, in Scheduler, and the
--   calls of threading/expose.rs in Expose. The pages of a process are in DataSegment
--   (`extend_data_by`) and Areas (`alloc_map` and the arguments).
-- - Terminal has the colours of utils/display.rs in Rgb, the buffer of drivers/framebuffer.rs in
--   Pixels, `FrameBufferTTY` of terminal/framebuffer.rs in Screen, `PageString` of utils/alloc.rs
--   in Text, and `TTY` of terminal/mod.rs with its device of devices/tty.rs over the interface
--   `TtyInterface` in Tty.
-- - Utils has the statuses of utils/errors.rs in Errors, the parser of utils/ansi.rs in Ansi, the
--   reader and loader of utils/elf.rs in Elf, and utils/ustar.rs in Ustar.
--
-- An operation that changes an object takes it and returns the changed one. A panic is an outcome
-- (`panic`, or `none` where a function cannot fail otherwise). Words are natural numbers below
-- 2 ^ 64 with the wrap-around written out. An inode lives in its file system for ever, so a shared
-- pointer to it is its index. A physical memory is a record of 512 words for each page, with the
-- frame allocator: a page table is named by its physical address, as in the direct map that the
-- kernel reads it through, and the root of the current space, which the processor holds, is an
-- argument. A file is the list of its bytes; a table of an ELF file is a slice that may run past
-- its end, and the visit of an entry there is an outcome. Where the screen or its buffer moves, an
-- overflow of a word is a panic. The heap is a memory of block headers by address.
--
-- Loops on fuel: `follow` goes from an inode along hard links, which lead to lower indices, with
-- one step more than the index; `rotate` has as many steps as there are processes, one of which
-- is waiting; the range of pages has as many as there are between its ends; `extend_up_to` as many as
-- pages are missing below the new break; `find_best` and `coalesce` one for each byte of the
-- heap, whose blocks are not empty, and `coalesce_while` one more; `spilt_block` and
-- `double_up_to` one for each bit of a word; `climb` goes up the parents, which have lower pids,
-- with one step more than the first; `find_node` has a step for each node of the list;
-- `write_items` has two more than the text has characters, of which each item takes one, unless
-- the parser stands still.
--
-- Not modelled: reads and writes of devices, the calls of the file systems on the resources of a
-- process, system calls, and the code of the processor. The test of UTF-8, the font, the decimal
-- digits of a number, and what the file systems of devices and of processes look into are arguments.
-- Locks are not modelled: an operation under a lock is one step.
pub mod Prelude
pub mod Memory
pub mod Keyboard
pub mod Vfs
pub mod Threading
pub mod Terminal
pub mod Utils
