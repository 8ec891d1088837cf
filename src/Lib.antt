-- ===== src/Lib.antt =====
-- A small Unix-like kernel (kernel/) for x86 with threads, and its user library (user/). Processes and
-- threads are entries of one table under one spin lock; they share files through a table of reference
-- counts, pages through one allocator, and bytes through pipes, the console and the block cache. User
-- threads lock with mutexes that sleep in the kernel by setpark, park and unpark.
--
-- Base holds the helpers that the others share: tests, lists by native indexes, and `Outcome`, which tells
-- a return from a panic, from a read outside the object, and from waiting for another CPU.
--
-- Files and code:
--   Spinlock  kernel/spinlock.c: acquire, release, holding, pushcli, popcli. A run of acquire that finds
--             the lock taken by another CPU is `spin`. Exclusion is about many CPUs.
--   Kalloc    kernel/kalloc.c: kinit, kfree, kalloc. The free list is the list of its addresses. kinit has
--             fuel for 4097 rounds: there are at most 4096 pages below PHYSTOP.
--   File      kernel/file.c: filealloc, filedup, fileclose over the ways to close a pipe and an inode.
--   Proc      kernel/proc.h and kernel/proc.c: the table, sched, sleep and wakeup; a pointer to a process is
--             its index. Park: setpark, park, unpark. Create: allocproc, fork, clone. Exit: exit, wait, join,
--             kill, yield. Grow: growproc. Scheduler: a round of the scheduler with switchuvm of
--             kernel/vm.c, and forkret. A function that gives up the CPU is modelled up to the switch,
--             and its rest is a function of its own.
--   Pipe      kernel/pipe.c: pipewrite and piperead on the ring, with indexes that wrap at 2^32.
--   PidQueue  user/pidqueue.c: the linked queue on an explicit heap.
--   Mutex     user/mutex.c: a step relation of any number of threads at each access to what they share.
--   Sem       user/semaphore.c and user/condvar.c: a step relation of any number of threads, above the mutex.
--   Ide       kernel/ide.c: the queue of requests to the disk, idestart, ideintr, iderw.
--   Str       kernel/string.c: all functions on a memory of bytes. strlen has fuel.
--   Grep      user/grep.c: match, matchhere and matchstar, and the meaning of an expression.
--   Console   kernel/console.c: consoleintr by characters, consoleread. The loop that kills a line has fuel
--             for all 2^32 values of an index.
--   Syscall   kernel/syscall.c: the checks on arguments, and the dispatch.
--   Bio       kernel/bio.c: the block cache; a request to kernel/ide.c is one step, which fails at the blocks
--             at which the drive reports an error.
--   Fs        kernel/fs.c. Blocks: readsb, bzero, balloc, bfree on a disk of bytes; the loop of balloc has
--             fuel for each block of the map. Contents: bmap, iupdate, itrunc, readi, writei; their loops
--             have fuel for each byte. Icache: iget, idup, ilock, iunlock on the cache of inodes. Put: iput.
--             Dir: namecmp, dirlookup; its loop has fuel for each block of the directory. Path: skipelem.
--   Vm        kernel/vm.c: walkpgdir and mappages on directories and tables in the bytes of memory. Space:
--             setupkvm, inituvm, allocuvm, deallocuvm, freevm, copyuvm, uva2ka, copyout. Load: loaduvm. The
--             loops have fuel for each page that they go over.
--   Shell     user/sh.c: gettoken, peek, the parser and nulterminate. A call of panic is `syntax`; the parser
--             has four units of fuel for each byte of the line.
--   Print     kernel/console.c and user/printf.c: printint, cprintf and printf as the bytes put out. The loop
--             of printint has fuel for each unit of the number.
--   Sysfile   kernel/sysfile.c: argfd, fdalloc, sys_dup, sys_close, sys_pipe, with pipealloc of
--             kernel/pipe.c, on the descriptors of the caller.
--   Ulib      user/ulib.c: strcmp, strchr, atoi and memmove.
--
-- Parameters: the way to find the inodes of the disk for ilock, the functions of devices, copyuvm, copyout, freevm,
-- allocuvm and deallocuvm of kernel/vm.c, what a process does between two switches, the drives with the
-- laws of 28-bit addressing and of writes without an error, the handlers of system calls, and the ways to close a file.
--
-- Not modelled: ialloc, dirlink and namex of the file system, and with them sys_open, sys_link and
-- sys_unlink; the handlers of kernel/sysproc.c, exec, the dispatch of traps, the other drivers and boot;
-- malloc and the functions on threads of user/; runcmd of the shell; tools/mkfs.c; and the user programs,
-- which are input and output or stand on parts that are not there yet.
pub mod Base
pub mod Spinlock
pub mod Kalloc
pub mod File
pub mod Proc
pub mod Pipe
pub mod PidQueue
pub mod Mutex
pub mod Str
pub mod Grep
pub mod Console
pub mod Syscall
pub mod Bio
pub mod Fs
pub mod Ulib
pub mod Sem
pub mod Ide
pub mod Vm
pub mod Shell
pub mod Sysfile
pub mod Print
