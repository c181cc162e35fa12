-- ===== src/Lib.antt =====
-- A verification library for xv6-core, the xv6 kernel of OS-LAB1 with the laboratory's additions: the
-- semaphores and the dining philosophers, flpf, get_parent_pid, and the console's editing keys, history
-- and completion.
--
-- The parts of the program and the modules that model them:
--   * Args: xv6-core/syscall.c, from fetchint to argstr. User memory is a function from addresses to
--     bytes, an int its 32 bits.
--   * Bcache: xv6-core/bio.c, with iderw of xv6-core/memide.c. The links of the list are two tables, next and
--     prev, over the 30 buffers and the head, which is node 30.
--   * Console: xv6-core/console.c. Console.Defs has the state `input` with the history and save_command
--     and search; Console.Keys has consoleintr, key by key, consoleread and consolewrite. Strings stand
--     without their NUL. `none` is an access outside of an array of the kernel.
--   * Dinner: xv6-core/philosopher.c and philosophers.c, five processes interleaved at their semaphore
--     calls, on the semaphores of Semaphore.
--   * Dir: directories and path names of xv6-core/fs.c. Dir.Defs has dirlookup and dirlink, Dir.PathNames
--     skipelem and namex. A path is the list of its bytes.
--   * Factor: flpf of xv6-core/proc.c.
--   * Files: xv6-core/file.c up to fileclose, and the descriptors of xv6-core/sysfile.c: sys_dup,
--     sys_close and sys_pipe, with the files of pipealloc in xv6-core/pipe.c. A file is its index.
--   * Fs: xv6-core/fs.c. Fs.Defs has the bitmap with balloc and bfree, Fs.Inode the inodes with bmap, readi,
--     writei, itrunc and iupdate. A disk is its superblock and a function from block numbers to blocks, as
--     bread gives them inside of a transaction; `none` is a panic.
--   * Icache: the table of inodes in memory of xv6-core/fs.c, from iinit to iunlockput, with ialloc.
--   * Log: xv6-core/log.c. Log.Defs has commit and recovery on a disk with a cache of dirty blocks, and a
--     count of the writes after which the machine stops; Log.Reserve has begin_op, log_write and end_op.
--   * Locks: xv6-core/spinlock.c and xv6-core/sleeplock.c.
--   * Pages: xv6-core/kalloc.c. The free list is a list of addresses.
--   * Pipe: xv6-core/pipe.c. One call is one step: it returns, fails or sleeps with what is left to do.
--   * Proc: the process table of xv6-core/proc.c, with fork and userinit in Proc.Birth and the other calls in
--     Proc.Steps. Every function is one step under ptable.lock, and a process is its index in the table.
--   * Regex: the matcher of xv6-core/grep.c.
--   * Semaphore: the six semaphores of xv6-core/proc.c and their calls in xv6-core/sysproc.c.
--   * Strings: xv6-core/string.c, on a memory of bytes.
--   * Vm: walkpgdir and mappages of xv6-core/vm.c. A page table entry is its address with its flags, and a
--     page of entries stands at an address of the kernel.
--   * Prelude: names of the libraries, tests on numbers, C arrays as lists, C integers.
--
-- How the parts interact. The log, the pipes and the semaphores run under a spin lock, which Locks shows to
-- exclude other processors, so a call up to its sleep is one step of their models. Dinner runs the
-- semaphores. What Proc does with the open files of a process is a list of references; the counts behind
-- them are in Files. Console gives a woken reader the bytes that it has committed.
--
-- Fs sees blocks through the cache of Bcache and writes them through Log. Icache keeps the inodes on
-- which Fs works, and calls itrunc and iupdate when the last pointer to an inode without links is given up.
--
-- Machine integers. Counters of type uint wrap at 2 ^ 32 where they are written out with `add_uint`; the
-- indices of the process table, of files and of blocks are naturals below their bounds. flpf is stated for
-- arguments that are not negative.
--
-- Loops. The loops over tables are recursion on the number of slots left. flpf runs on 2 * n + 1 rounds,
-- which is enough, since each round lowers 2 * n - i. The erasing loop of the console runs on the length of
-- the line. strlen runs on fuel that bounds the address range. readi and writei run on one round for each
-- byte, which is enough, since a round moves at least one; the walks of bget on 31 rounds, one more than
-- there are buffers; namex on one round more than the path has bytes; balloc on size / 4096 + 1
-- blocks of the bitmap; mappages on the number of pages of the range.
--
-- Not modelled: the rest of virtual memory, exec, traps, the disk driver,
-- the shell and the user library, and device and start-up code. In the modelled parts, the
-- saved registers, the call stacks of locks, and what is printed by user programs.
pub mod Args
pub mod Bcache
pub mod Console
pub mod Dinner
pub mod Dir
pub mod Factor
pub mod Files
pub mod Fs
pub mod Icache
pub mod Locks
pub mod Log
pub mod Pages
pub mod Pipe
pub mod Prelude
pub mod Proc
pub mod Regex
pub mod Semaphore
pub mod Strings
pub mod Vm
