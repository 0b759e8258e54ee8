-- ===== src/Lib.antt =====
-- The C programs of this repository: the xv6 kernel of the laboratory (CLab/xv6/kernel), with
-- the team's lottery scheduler (proc_our.c), and the demand-paged table of square roots
-- (CLab/mmap2.c).
--
-- Files and what they model:
-- - Common: the names and lemmas that all parts share; Common/Outcome is code that may call
--   `panic`, Common/Family is arrays as functions of an index.
-- - Proc (proc.h, proc_our.c, sysproc.c): the process table as a list of records, a pointer to a
--   process as its index. Proc/Lifecycle has allocproc, freeproc, wait and sys_setPriority over
--   an interface `Memory` of what they ask of kalloc.c and vm.c; Proc/Fork has fork, exit, sleep,
--   yield and growproc over an interface `Kernel` of what they ask of vm.c, file.c, fs.c and log.c.
--   Proc/Table has all of these as steps of one table. Proc/Pids, Proc/Allocation, Proc/Wait,
--   Proc/Wakeup, Proc/Keep, Proc/ForkPids, Proc/Forked, Proc/Child and Proc/Exit are proofs.
-- - Sched (proc_our.c, `scheduler`): one round of the lottery. What runs between the switch to a
--   process and the switch back, and what interrupts do between the two scans, are parameters.
-- - Lock (spinlock.c, sleeplock.c): acquire and release as single steps of CPUs that interleave.
--   A sleep lock is taken and released by processes that interleave. Sleep locks, the log and the
--   console count the calls of `wakeup`; on a sleep lock the count tells who sleeps.
-- - Log (log.c): the write-ahead log over a disk that loses power after any number of writes.
-- - Pipe (pipe.c): a ring of 512 bytes with 32-bit counters that wrap. What `killed` answers is a
--   parameter of each round of `pipewrite`.
-- - Kalloc (kalloc.c): the list of free pages, linked through the pages.
-- - Fs (fs.c): the free map, byte by byte. Inode (fs.c): the table of inodes in memory, over an
--   interface `Disk` of itrunc, iupdate and the inodes on disk.
-- - File (file.c): open files, over an interface `Io` of what pipe.c, fs.c, log.c and the devices
--   do.
-- - Text (string.c): the routines on bytes and strings.
-- - Console (console.c): the ring of input, the editing of a line, and reads.
-- - Vm (vm.c): page tables of three levels, walk, mappages, uvmunmap and the copies between user and
--   kernel memory, over an interface `Pages`, which Vm/Supply fills with kalloc.c. Vm/Tree has the
--   tables as a tree and the entry that an address is translated by.
-- - Bio (bio.c): the buffer cache as a doubly linked ring; Bio/Ring and
--   Bio/Moves relate the ring to a list.
-- - Path (fs.c): skipelem and namex, over an interface `Dirs` of what they ask of inodes and
--   directories.
-- - Printf (printf.c, CLab/xv6/user/ulib.c): printint and atoi.
-- - Pager (CLab/mmap2.c): the handler of SIGSEGV with its three replacement policies.
-- A part's own file holds its state and operations, the files below it the proofs, and its Tests
-- the theorems at concrete inputs.
--
-- Sections of code under a lock are single steps, except in Lock, where the lock itself is the
-- subject. Integers are natural numbers with the wrap-around of their width written out where the
-- code can reach it. Loops are structural on the rounds left; the clock's search of mmap2.c runs
-- on `cache_slots + 1` rounds, the loop of `freerange` on one more round than memory has pages,
-- the outer loop of `balloc` on two more than the disk has bitmap blocks, that of `filewrite` on
-- one more than there are bytes, the one that kills a line in console.c on one more than the ring
-- has places, each of the two loops of `bget` on one more than there are buffers, that of `namex`
-- on one more than the path has characters, `mappages` one round for each page, and the theorems
-- show that these are enough. `strlen` runs on the fuel that its theorem asks for, more than the
-- length of the string, and `copyin` on more rounds than there are bytes.
--
-- Not modelled: device drivers, start-up and trap code and assembly, system-call glue, exec, user
-- programs, the Rust kernel and its libraries, and the benchmark code of the laboratories.
-- Not modelled either: the rest of fs.c (contents of inodes and directories), umalloc.c, the
-- malloc laboratory, of vm.c the kernel's own page table, uvmalloc, uvmcopy, freewalk and
-- copyinstr, and of proc_our.c userinit and sched, which switches registers.
pub mod Common
pub mod Proc
pub mod Sched
pub mod Pager
pub mod Log
pub mod Pipe
pub mod Lock
pub mod Kalloc
pub mod Text
pub mod Fs
pub mod File
pub mod Inode
pub mod Console
pub mod Vm
pub mod Printf
pub mod Bio
pub mod Path
