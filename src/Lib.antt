-- ===== src/Lib.antt =====
-- Verification of the kernel and user library of xv7, an operating system in C.
--
-- The program's parts. Processes (kernel/proc.c) get pages from the page allocator
-- (kernel/kalloc.c), sleep on channels and talk through pipes (kernel/pipe.c), which they reach by the
-- table of open files (kernel/file.c). The file system (kernel/fs.c) keeps inodes in memory, walks
-- along paths, changes blocks in the buffer cache (kernel/bio.c) and records them in the redo log
-- (kernel/log.c), which makes each system call atomic on the disk. Spin locks (kernel/spinlock.c) guard
-- all of these; kernel/string.c moves bytes for them; kernel/time.c turns the clock's date into
-- seconds, which ulib/time.c prints. Inodes and buffers have sleep locks (kernel/sleeplock.c). The console
-- (kernel/dev/char/console.c) edits lines in its interrupt handler and gives them to readers. Programs
-- print through ulib/ulib.c.
--
-- Which file models which part:
--   Pipe     kernel/pipe.c: pipewrite, piperead, pipeclose, and what pipealloc stores in its page. The
--            record Pipe is `struct pipe`, its counters run modulo 2^32.
--   Log      kernel/log.c, every routine. Log/Cache is the promise of the buffer cache (bread, bwrite of
--            kernel/bio.c) with a disk that stops after a number of writes.
--   Time     kernel/time.c: leapyear, unix_converttime; ulib/time.c: ctime up to its printing.
--   Kalloc   kernel/kalloc.c: kalloc, kfree, freerange.
--   Str      kernel/string.c, every routine, on a memory that is a function.
--   Proc     kernel/proc.c: allocproc, fork, exit, wait, scheduler, yield, sleep, wakeup, kill, each as
--            a function on the process table.
--   Bio      kernel/bio.c: bget, bread, bwrite, brelse, on the list of the buffers in LRU order; `iderw` of
--            kernel/dev/ide.c as its comment promises it.
--   FreeMap  kernel/fs.c: bzero, balloc, bfree, on a device that is a function from blocks to bytes.
--   Bmap     kernel/fs.c: bmap and itrunc, the tree of blocks below an inode.
--   FileData kernel/fs.c: readi and writei, the bytes of a file; the handlers of devices are a parameter.
--   Dir      kernel/fs.c: namecmp, dirlookup, dirlink, on the bytes of a directory.
--   Console  kernel/dev/char/console.c: consoleintr and consoleread, on the ring of struct input_struct.
--   Dinode   kernel/fs.c: ialloc, iupdate, ilock, iunlock, on the bytes of the blocks of inodes.
--   Inode    kernel/fs.c: iget, idup, iput on the table of inodes in memory.
--   PathName kernel/fs.c: skipelem and namex, over a tree of inodes given by its lookup.
--   File     kernel/file.c: filealloc, filedup, fileclose, the loop of filewrite over an inode with
--            `writei` as a parameter; and pipealloc of kernel/pipe.c.
--   Spinlock kernel/spinlock.c: acquire, release, holding, pushcli, popcli.
--   Sleeplock kernel/sleeplock.c, every routine.
--   Ulib     ulib/ulib.c: strcpy, strcmp, strncmp, memcmp, memmove, strcat, on the memory of Str.
--   Format   ulib/ulib.c: snprintf and sprintf, one loop over the format with the store of a byte as its
--            parameter; the variable arguments are a list.
--   Base     names, Boolean tests, arrays as lists.
--
-- Machine integers are natural numbers with their wrap-around written out. A routine that blocks is a
-- function from the state in which it gets the lock to the state in which it gives it up; the other
-- processes come in as steps of a relation between these states. Panics are values.
--
-- Fuel: loops whose end depends on the data run on fuel: `ctime` on one round for each year since 1970
-- and one more, `freerange` on one for each page and one more, `strlen`, `strcmp`, `strcpy` and `namex` on one
-- for each character and one more, `filewrite` on one for each piece of 4096 bytes,
-- a number's digits on 32, control-U on the 128 characters of the ring. Each has done its work by
-- then, so that the fuel is never what ends it.
--
-- Not modelled: devices and the output of the console, assembly, the boot loader, page tables, the
-- switch between stacks, the shell and the small programs, and the locks in the other parts, whose effect
-- is that each operation is one step.
pub mod Base
pub mod Pipe
pub mod Log
pub mod Time
pub mod Kalloc
pub mod Str
pub mod Proc
pub mod File
pub mod Bio
pub mod FreeMap
pub mod Bmap
pub mod FileData
pub mod Dir
pub mod Inode
pub mod PathName
pub mod Dinode
pub mod Console
pub mod Spinlock
pub mod Sleeplock
pub mod Ulib
pub mod Format
