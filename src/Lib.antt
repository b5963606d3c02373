-- ===== src/Lib.antt =====
-- Verification of the systems programs of this repository: the JOS kernel with its MLFQ scheduler
-- (tp2-sched), the memory allocator (tp1-malloc) and the file system of fisopfs (tp3-filesystem). The
-- three programs run apart from each other; within the kernel, Kernel stands on Sched and Vm.
--
-- Base: names of the libraries, tests on numbers, lists, and `Returns`, that a computation ends with
-- a result for which a predicate holds.
--
-- Sched models tp2-sched/sched/kern/sched.c, inc/sched.h and, of kern/env.c, env_run and env_switch.
-- State has the data (struct Env, queue_t, the statistics) in a record `Sched`, with the environments
-- as a store by address and 0 for NULL. Queue has queue_push and queue_remove, Priority the moves
-- between queues, boost and downgrade, Run the choice of the next environment: sched_round_robin,
-- sched_MLFQ, sched_halt and sched_yield. A loop over a queue is given one round more than the queue's
-- num_envs says; the theorems show that this is enough for well-formed queues. A run that leaves this
-- code (a switch to an environment, a halt) is a value of the type `Flow`. The value of the timer and
-- the number of the CPU are part of the state. Priority.IsMlfq states when queues are well formed.
--
-- Malloc models tp1-malloc/malloc/malloc.c. State has the headers as stores by address, apart from
-- the bytes of the user, and the variables of the allocator. Search has both searches (FIRST_FIT and
-- BEST_FIT are the two values of `Policy`), Regions splitting and coalescing, Blocks the list of blocks
-- and the check of pointers, Api malloc, calloc and free, Realloc realloc. A loop over regions is given
-- one round more than its block has bytes, a loop over blocks one more than all blocks have bytes; the
-- theorems on an arena show that this is enough. What mmap returns is an argument. Sizes wrap at 2^64
-- where size_t does. Search.Arena states when the blocks and their regions are as the allocator means
-- them. The counters of USE_STATS and the messages on errors are not modelled, nor is munmap beyond
-- the list of blocks.
--
-- Fs models tp3-filesystem/fisopfs/fs.c and fs.h. State has the superblock, both bitmaps, the inodes,
-- and the bytes of the data blocks at one address each; the numbers of an indirect block are kept apart
-- from bytes. Inodes has the search of the bitmaps and the blocks of an inode, Io reading, writing,
-- truncation and access, Dirs the entries of a directory, read from bytes and written to them, Paths
-- the search by path, new_inode and removal. A pointer to an inode is its number, a pointer to a data
-- block the number of the block. Errors are values of `Ret`, which also says where C would leave a
-- string or a buffer. A directory is given one round more than its size. The clock and the ids of the
-- user are part of the state. Serialisation and fiuba_readdir are not modelled.
--
-- Fs.Handlers models the FUSE handlers of tp3-filesystem/fisopfs/fisopfs.c, by name, but readdir, which
-- calls back into FUSE, and init, flush and destroy, which stand on the serialisation.
--
-- Vm models tp2-sched/sched/kern/pmap.c with the macros of inc/mmu.h, inc/types.h and kern/pmap.h. State
-- has the pages, the free list and the contents of pages as words; a pointer to an element of `pages`, to
-- a page directory or to a page table is the number of the page. A function is a step `M` on that state,
-- which may end in a panic. Pages has page_init to page_decref, Tables pgdir_walk, page_lookup,
-- page_remove, page_insert, boot_map_region (as built without TP1_PSE) and mmio_map_region, Access
-- user_mem_check. The loops run over as many pages as their bounds say. Numbers wrap at 2^32 and
-- references at 2^16 where they do in C. The flush of the TLB is not part of the state.
--
-- Kernel models tp2-sched/sched/kern/env.c and kern/syscall.c. State joins the scheduler's state, that of
-- the pages, and the fields of struct Env that neither reads; envs[i] is at address i + 1. A function is a
-- step `K`, which returns, fails with an error, panics or reads what it must not, or leaves for good into
-- the scheduler. Envs has envid2env, env_init, env_alloc, env_free and env_destroy, Memory region_alloc,
-- user_mem_assert and the helpers of the system calls, Syscalls and Ipc the system calls, Dispatch
-- `syscall`. What cons_getc reads is an argument; what the kernel prints is not modelled.
--
-- Kernel.Traps models trap, trap_dispatch and page_fault_handler of tp2-sched/sched/kern/trap.c, by name, on
-- the same state: a trap comes with its frame, the address in CR2 and the counts of the timer, and does not
-- come back. The stores to the exception stack go through the page table, byte by byte (Vm.Store). Other
-- CPUs, with panicstr and the lock, are not modelled, and interrupts are off, as the assertion says.
--
-- Strings models tp2-sched/sched/lib/string.c and printnum of lib/printfmt.c, by name, on a memory of bytes
-- by address: Memory the strings, Bytes the blocks, Numbers strtol and printnum. A loop that looks for a
-- NUL or for the end of a number has fuel; the theorems give it one round more than there are characters.
-- The string instructions stand as loops, by bytes and by words, as the build with ASM has them. A long that
-- passes its greatest value ends strtol without a result.
--
-- Posix has the processes and the calls of the system that the shell makes, as POSIX
-- describes them, since they are not part of the repository: tables of descriptors, pipes, fork, exec. A
-- function gives the list of its outcomes, one for each process that has left it. Which calls fail is an
-- argument, `refuses`. Posix.Runs has the rules for claims on every outcome.
--
-- Shell models lab-shell/shell, by name: State has types.h, createcmd.c and the splitting of utils.c, Parsing
-- parsing.c, Exec exec.c with the rest of utils.c and freecmd.c, Builtin builtin.c, Run runcmd.c, printstatus.c
-- and sh.c. `getenv` and the text of the last status are arguments of the parser. A parse gives a command
-- or stops where the code writes behind an array or reads before the line. parse_line has a step of fuel for
-- each character of the line and one more; the loop of parse_exec takes its fuel from its own line. What
-- waitpid writes and where chdir leads are arguments; what is printed is not modelled, nor is read_line.
--
-- Fork models lab-fork/fork/primes.c, xargs.c and find.c, by name. In Primes an int that overflows ends the
-- run without a result, and a pipe is the list of the numbers that are
-- written to it, so that the closing of descriptors is not modelled; a process of the sieve takes one step of
-- fuel, and there are no more processes than numbers. Xargs stands on Posix. In Find a directory is the list of what
-- readdir gives, with what openat refuses marked in it, and strstr and strcasestr are those of the C locale.
--
-- Not modelled: in the JOS kernel boot, devices, locks, load_icode, formatted output and the rest of the library for user programs; the
-- exercise pingpong.c of lab-fork, print_stats, and the build of sched_yield without
-- MLFQ_SCHED.
pub mod Base
pub mod Sched
pub mod Malloc
pub mod Fs
pub mod Vm
pub mod Kernel
pub mod Strings
pub mod Posix
pub mod Shell
pub mod Fork
