-- ===== src/Lib.antt =====
-- The kernel of a small Unix for x86 with a priority scheduler, and theorems on it.
--
-- Parts and how they interact. The process table (proc.c) holds the processes; its scheduler gives
-- each processor the runnable process of least priority value, and the clock interrupt (trap.c)
-- charges run time and makes processes yield. Every other part puts processes to sleep and wakes
-- them through the table's channels. The log (log.c) lies between the file system and the disk: it
-- makes the block writes of one transaction atomic under crashes. A pipe (pipe.c) is a ring buffer
-- of 512 bytes between processes. The table of open files (file.c) counts the references to pipes
-- and inodes, and cuts a write into pieces that a transaction has room for. The page allocator
-- (kalloc.c) gives out the pages of memory. The buffer cache (bio.c) keeps the blocks in use in
-- memory, each once. fs.c keeps files, directories and path names in the blocks of the disk,
-- through the buffer cache and the log. syscall.c fetches the arguments of system calls. string.c
-- moves, copies and compares bytes. grep.c is a user program with a matcher of regular
-- expressions.
--
-- Files and what they model:
-- - Proc: proc.c, proc.h, pstat.h and the clock branch of trap.c. The table is a function from slot
--   numbers; pointers to slots, pages, files and inodes are numbers, `none` for null; `int` and
--   `uint` are 32-bit patterns. Types has `struct proc` and the table; Sched has `scheduler`, `sched`
--   and `yield`; Signals has `sleep`, `wakeup1`, `kill`, `setpriority`, `getstats` and the clock;
--   Life and Calls have `allocproc`, `fork`, `exit` and `wait`, over a record `Services` of what they
--   call in other files. Step is the relation of the locked sections in any interleaving, and Reach
--   what they reach from boot. Inv is the invariant and its preservation; Pick, Effects, Lifecycle,
--   Adoption and Waiting state what each call does, Safety what holds of every table that is reached,
--   and Pids counts the pids that were given.
-- - Log: log.c. The state is `struct log`, the cache that `bread` reads and the disk. A crash is a
--   number of block writes, `power`, after which none reaches the disk. View says what a disk with a
--   log means; Frames what copying blocks leaves alone; Atomic is recovery, commit and the two crashes;
--   Space and Budget are the reservation of log blocks by `begin_op`.
-- - Pipe: pipe.c. A call is run up to where it sleeps or returns. Queue relates the ring buffer with
--   its wrapping counters to a list; Write and Read treat the two loops; Stream is the relation of
--   runs by any processes; Order is its invariant and Delivery what it promises.
-- - File: file.c. The table of open files with their reference counts (Refs relates the counts to
--   the references held) and the loop of `filewrite` over a record `Callees` (Write), which OnDisk
--   fills with the calls of fs.c.
-- - Kalloc: kalloc.c. The free list is threaded through the first word of each page; Owners relates
--   it to who owns which page, Range treats `freerange`.
-- - Bio: bio.c. The cache is the list of its buffers in order of use, a buffer known by its place in
--   `bcache.buf`; Once counts how often a block is in it.
-- - Fs: fs.c. A disk is the bytes of its blocks and which of them the transaction has logged; one
--   device, its superblock a parameter. Blocks has `balloc` and `bfree`, and Alloc what they do to
--   the free map; Inode has `bmap`, `itrunc` and `iupdate`; Slots is the notion of a file: 140 places
--   for its blocks and one for the block of their numbers. Io has `readi` and `writei`, Reading and
--   Writing relate them to reads and writes of the file's bytes; Truncating treats `itrunc`, Stored
--   the inode on the disk. Icache is the table of inodes (`iget`, `ilock`, `iput`), treated in Entries
--   and Putting; Dirs has `dirlookup` and `dirlink`, Names the comparison
--   of names, Looking the search and Linking the entry that is added; Paths has `skipelem` and `namex`, a path being the list of its
--   characters, Elements and Walk what they do with it.
-- - Syscall: the arguments of system calls, syscall.c, read from the memory of the process; Bounds
--   says where what is fetched lies.
-- - Spinlock: `pushcli` and `popcli` of spinlock.c, and Nesting, nested calls of them.
-- - Strings: string.c, on a memory of bytes.
-- - Grep: the matcher of grep.c, and in Regex what an expression means.
-- - Common: lists on native numbers, arrays as functions, C tests, 32-bit words and the outcome of
--   code that may panic.
--
-- Bounds. What Reach reaches are the runs in which the counter of pids, `nextpid`, stays below the
-- greatest `int`: fewer than 2^31 - 1 pids are given, since beyond that `nextpid++` overflows; Pids has
-- the runs without that bound, and relates the two. The `int` counters
-- of `balloc` are plain numbers, as on a disk of fewer than 2^31 blocks. The loops over the table run `NPROC` = 64 times and those over open files `NOFILE` = 16
-- times, as in the source. The loops of the log run over `n` entries. `filewrite` has one pass for
-- each byte and `freerange` one for each page below its end, which is enough since each pass
-- writes at least a byte or frees a page. The loops of `readi` and `writei` have one pass for each
-- byte asked for, the search of a directory one for each byte of it, and `namex` one for each
-- character of the path and one more, which is enough for the same reason. The remaining loops are
-- by recursion on a list or on the number of bytes that are asked for.
--
-- Not modelled: the machine context of `swtch` and the trap entry code, device drivers, boot, page
-- tables and the memory of processes (vm.c), loading of programs (exec.c), the console, the shell,
-- the calls of sysfile.c, the boot image tools and the other user programs; of fs.c, the reading
-- of the superblock and waiting for the lock of an inode. `copyout`, page allocation and the calls
-- that proc.c and file.c make in other files are parameters of the definitions that use them.
-- Locks are not state: a locked section is one step. A sleeper on a pipe that `kill` wakes
-- still counts as asleep in Pipe.Stream. Of the log, that `log_write` marks the buffer dirty is not
-- state, and `reboot` keeps the start and size that `initlog` reads from the superblock.
pub mod Common
pub mod Proc
pub mod Log
pub mod Fs
pub mod Spinlock
pub mod Strings
pub mod Syscall
pub mod Bio
pub mod Grep
pub mod File
pub mod Kalloc
pub mod Pipe
