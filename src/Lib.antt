-- ===== src/Lib.antt =====
-- Verification of parts of the Astral kernel (kernel-src/).
--
-- Astral is a Unix-like kernel for x86-64. System calls act on the files, the credentials and the
-- address space of the calling process; drivers and sockets move bytes through ring buffers; sleeping
-- threads and interval timers wait in timer queues; file systems and caches find things in hash
-- tables; and what a process may do is decided by listeners that vote in a scope. The files here model
-- these parts:
--
--   Base        shared names, Boolean tests, lists, words of 64 bits, integers, error numbers, and
--               the memory that a kernel copy touches (mm/usercopy.c, include/kernel/usercopy.h)
--   RingBuffer  lib/ringbuffer.c: the byte queue of pipes, terminals and sockets
--   Auth        sys/auth.c and sys/defaultauth.c: auth_check and the default listeners
--   Cred        sys/cred.c: the calls that change credentials, each through auth_check
--   HashTable   lib/hashtable.c: the chained table under the name caches
--   Timer       sys/timer.c: the one-shot timer with its sorted queue
--   Itimer      sys/itimer.c: the interval timers of a process over the timer of a processor
--   Iovec       io/iovec.c: the iterator over scattered buffers and its copies to and from buffers and
--               ring buffers
--   Semaphore   lib/semaphore.c: the semaphore with its list of sleepers
--   Files       fs/file.c: the descriptor table of a process and the reference counts of files
--   Signals     sys/signal.c: masks, delivery to threads and processes, and the check before a return to
--               user space
--   JobControl  sys/jobctl.c: sessions, process groups and controlling terminals
--   Tty         io/tty.c: the line discipline, over the ring buffer that readers empty and the sessions
--               of job control, and the calls on terminals
--   Pipe        fs/pipefs.c: pipes, over the ring buffer and the iterator
--   Pmm         mm/pmm.c: physical pages, their reference counts and their lists
--   Slab        mm/slab.c: the object caches
--   Heap        mm/alloc.c: alloc, free and realloc over the sizes of the object caches
--   Vmm         mm/vmm.c: the ranges of an address space, with mmap's search and the copy of a fork
--   Time        include/time.h: the arithmetic of times
--   Strings     lib/string.c: the functions on strings
--
-- A struct is a record, and an operation is a function from the state to the state and what is
-- returned. An operation has its source's name, less the prefix of its component where the module
-- says it (ringbuffer_read is RingBuffer.read); a part of a function that a proof needs by itself is
-- a definition of its own and says so. Linked lists are lists from their head on, but for the sleepers
-- of Semaphore and the members of a group in JobControl, whose links are kept as they are; an object's
-- address is a number. Locks and interrupt levels are left out: what an operation does under its lock
-- is one step. semaphore_wait and signal_wait are two, before and after the sleep, a call on a pipe is a
-- pass for each time that it is woken, and pmm_allocpage and pmm_release are two parts each, under the
-- mutex of the lists and outside it.
--
-- Numbers are natural numbers. `size_t`, `uintmax_t` and `long` are 64-bit words whose wrap-around is
-- written out, comparisons of `long`s read the sign bit, and an `int` that can be negative is an
-- integer; `int`s are taken not to overflow. What the allocators, the page mapper and the hardware
-- return is an argument. A failed assertion and a page fault in the kernel are results.
--
-- Loops over lists are structural. The loop of `timercheck` runs on fuel, since it puts repeating
-- entries back into the queue that it empties: one unit for each entry that is due and one more is
-- enough, and `check_and_arm` gives one for each entry of the queue and one more.
--
-- The loops of Iovec run on fuel too: each round but the last moves on by one entry of the array, and
-- the copies are given one unit for each entry and one more.
--
-- The loop of JobControl over a group follows the links on fuel; one unit for each process of the group
-- and one more is enough.
--
-- The functions on strings run on fuel; one unit for each byte and one for the zero is enough.
--
-- The scan of pmm_alloc runs on fuel: one unit for each page from where a section's search starts to the
-- last page of the memory, and one more, is enough, since it stops past the last page.
--
-- Pages, slabs and ranges are in lists without their links. pmm_allocpage takes a page under its mutex and
-- allocates it after it, and pmm_release counts before its mutex and puts the page in its list under it;
-- Pmm/Reach has these parts as steps of any threads. What becomes of the lists when a page is unlinked
-- that is in none, which the code does not test for, is not modelled: the outcome says that it happened.
--
-- Not modelled: device drivers, the processor's tables and start-up, file systems, networking, page
-- tables, the unmapping and the changes of protection in mm/vmm.c, the page cache and the scheduler;
-- where other components allocate, the outcome is an argument. The C library routines that the
-- components call (memcpy, memcmp) are written out where they are used.
pub mod Base
pub mod RingBuffer
pub mod Auth
pub mod Cred
pub mod HashTable
pub mod Timer
pub mod Files
pub mod Semaphore
pub mod Itimer
pub mod Iovec
pub mod Signals
pub mod JobControl
pub mod Tty
pub mod Time
pub mod Strings
pub mod Pipe
pub mod Pmm
pub mod Slab
pub mod Heap
pub mod Vmm
