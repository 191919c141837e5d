-- ===== src/Lib.antt =====
-- A verification library for EC440-Projects: a file system on a virtual disk (Project5), storage of
-- threads with copy on write (Project4), threads with join and semaphores (Project3), the threads
-- that came before them (Project 2), and a shell (Project 1). They are separate programs; fs.c
-- calls disk.c, and the others stand alone.
--
-- Prelude passes library names on and holds what the components share: tests on numbers (Tests),
-- lists over native numbers (Lists), the signed int with the conversions of C (Int), arrays as
-- functions with the loops that search them (Arrays), and strings up to the terminator (Text).
--
-- Run models what a piece of C does: it is done with a result, it reads or writes outside an object
-- (a fault, which C leaves undefined), or a loop has used up its fuel. An array of C is a function
-- on numbers, and every access tests the bound first. State is a record that each function takes
-- and returns.
--
-- Disk models Project5/disk.c: make_disk, open_disk, close_disk, block_write and block_read over
-- the files of the host. Which calls of the host fail is a parameter (Os), except that the writes of
-- make_disk succeed; a file is an array of blocks, and an offset in it the number of a block. Disk/Io has the
-- theorems.
--
-- Fs models Project5/fs.c: the super block, the directory, the file descriptors and the allocation
-- table, in memory. Fs/Table has fs_open, fs_close, fs_create, fs_delete, fs_get_filesize, fs_lseek
-- and fs_listfiles; Fs/Data has fs_read, fs_write and fs_truncate over the blocks of the disk. A
-- file is the chain of blocks that the allocation table links (Fs/Chain), and its content is the
-- bytes of that chain (Fs/Content). The invariant (Fs/Invariant) says that the tables fit together.
-- Bytes of an uninitialised buffer are a parameter of fs_read and fs_write. The loop of fs_delete
-- has a fuel of 8193, one more than the disk has blocks, since each round sets one entry to 0 and
-- stops at a 0. The loops that read and write a file of n blocks have a fuel of n + 2: a round for
-- each block, one that finds the end, one that finds too many. Fs/Delete and Fs/Ends treat the
-- fuel.
--
-- Fs/Bytes lays the structs out as bytes, with int of 4 bytes in little-endian order, and Fs/Format
-- has make_fs, mount_fs and umount_fs over blocks of such bytes (Fs/Encode, Fs/Layout, Fs/Pages,
-- Fs/Mount, Fs/Remount, Fs/Fresh). mount_fs writes behind the array fildes: what these writes do is
-- a parameter. Fs/Append, Fs/Extend, Fs/Offsets, Fs/Transfer, Fs/Shorten and Fs/Shortened follow
-- the invariant through the functions that move data, and Fs/History has sequences of calls from
-- make_fs on. Fs/Directory views the directory as a set of names with sizes; Fs/Sizes is about
-- sizes and fs_truncate.
--
-- Tls models Project4/tls.c: the hash table of chains, the storages and pages on a heap with one
-- counter of pointers, and the protection of each page. Tls/Ops has tls_create, tls_write,
-- tls_read, tls_destroy and tls_clone. The calling thread is an argument, as pthread_self gives it.
-- Tls/View says what a thread sees of its storage and counts the slots that point to a page;
-- CopyOnWrite, Isolation and Loop follow the private copy, a byte and a range; Write, Read, Clone,
-- Destroy and Errors treat the calls. The loops run over lists and ranges and need no fuel. The
-- handler of page faults is not modelled: it is entered by a signal.
--
-- Threads models Project3/threads.c: the thread control blocks, the running thread and the
-- semaphores. A call runs up to its return, or up to the longjmp that leaves it; a saved buffer
-- says which setjmp filled it, and the functions named _resumed are the code that runs when that
-- setjmp returns again. Threads/Schedule has the scheduler and init_system, Threads/Ops
-- pthread_create, pthread_exit, pthread_join, lock and unlock, Threads/Sem the semaphores. The
-- search of the scheduler has a fuel of 128, the slots of the table. pthread_exit frees the stack that it runs on and goes on to the scheduler;
-- that use of the stack is not treated as a fault. The assembly of
-- pthread_exit_wrapper and of ec440threads.h is not modelled, and the alarm is a flag: a preemption
-- is a call of the scheduler.
--
-- Threads2 models Project 2/threads.c in the same way: Threads2/Ops has scheduler, init_system,
-- pthread_create, pthread_exit and pthread_self, with a stack that may have been freed.
-- Threads2/Same compares them with Threads by a map that forgets what Project3 added, and
-- Threads2/Exit treats pthread_exit.
--
-- Shell models Project 1: myshell.c (Shell/Parse, over the string functions of Shell/Text) and
-- what main.c does with a line (Shell/Line), in the child of a line without a pipe (Shell/Pipes)
-- and in those of a pipeline (Shell/Stage), which parse their sections themselves. A line is a
-- buffer of 512 bytes and a pointer an offset into it. The loop of parse_input has a fuel of 513,
-- since each round moves to a later delimiter; that of killspaces has 512, since each round looks
-- one place further back. A child is the list of the calls of the system that it makes;
-- Shell/Streams says what these do to its streams. Shell/Cut and Shell/Parsed treat parse_input,
-- Shell/Redirect the redirections, Shell/Names and Shell/Ends killspaces, Shell/Plain and
-- Shell/Wired the commands of a pipeline and Shell/Overflow the array of its pipes. Left out are
-- printCommands, which nothing calls, and what the parent closes and waits for.
--
-- Not modelled: the test programs, and the copy of a system header in Project3/semaphore.h.
pub mod Prelude
pub mod Run
pub mod Disk
pub mod Fs
pub mod Tls
pub mod Threads
pub mod Threads2
pub mod Shell
