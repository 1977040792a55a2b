-- ===== src/Lib.antt =====
-- The character drivers of the repository, modelled operation by operation, with the theorems that
-- make them correct.
--
-- The parts and the files that model them:
-- - Scull: the memory device of common_scull/base_scull.c and common_scull/scull.h, which scull,
--   scullc and scullp share. Its data is a list of quantum sets (Scull/Device). Scull/Alloc has
--   `scull_alloc` and `scull_free`, Scull/Follow `scull_follow`, Scull/Trim `scull_trim`, Scull/Write
--   `scull_write`, Scull/Read `scull_read`, Scull/Ioctl `scull_ioctl`. Scull/Invariant says when a
--   device is well formed. Scull/Sharing has any number of processes that read and write one device, each
--   call with copies that succeed or fail on their own,
--   Scull/File the file of bytes that they are to see, Scull/Refinement the proof that they do;
--   Scull/Openings, Scull/LooseFile and Scull/OpenRuns are the same with opens that may empty the
--   device, and Scull/Zeroing what a default of zero does to them; the other files are proofs.
-- - Pipe: the pipe of scull/pipe.c. Pipe/State has the ring and `spacefree`, Pipe/Transfer the copying
--   parts of `scull_p_read` and `scull_p_write`, Pipe/System their waiting loops and wake-ups as a step
--   relation on any number of processes, which also poll, open the pipe anew and release files. They
--   do this by Pipe/Open, which has `scull_p_open`, `scull_p_release` and `scull_p_poll`. The moves of
--   a run say by `Polling` whether processes poll, and whether signals interrupt them there.
--   Pipe/Queue is the bounded queue that readers and writers are to see, Pipe/Refinement the proof
--   that they do while nobody polls, Pipe/Wakes, Pipe/Awake and Pipe/Progress
--   that then no wake-up is missed, and
--   Pipe/Poll what a poll does to them. Pipe/Notify has `scull_p_fasync` and SIGIO.
-- - Access: the devices of scull/access.c that restrict who may open them. Access/Users has the opens
--   and releases of `scull_s`, `scull_u` and `scull_w` and the open of scull/main.c, Access/Sessions
--   their interleavings, Access/Copies the private devices of `scull_c`. They empty their memory
--   device by `scull_trim` of Scull.
-- - Load: the init and exit functions of scull/main.c, scullc/main.c and scullp/main.c (Load/Modules,
--   with what they take and give back in Load/Resources, and the numbers of their cdevs in
--   Load/Numbers) and those of scull/pipe.c (Load/Pipes),
--   scull/access.c (Load/Access) and globalmem/globalmem.c (Load/Memory); Load/Whole puts those of
--   scull/main.c, scull/proc.c, scull/pipe.c and scull/access.c together. The devices that they free
--   are those of Scull, Pipe and Access.
-- - Globalmem: the fixed memory of globalmem/globalmem.c.
-- - Proc: scull/proc.c. Proc/Mem has `proc_read` of /proc/scullmem, which prints the devices of Scull
--   into one buffer, Proc/Seq the iterator of /proc/scullseq and the making of both entries.
-- - Jit: misc_modules/jit.c. Jit/Delay has `jit_current` and `jit_delay`, Jit/Timers the timer and the
--   tasklet with the reads that wait for them, Jit/Files the table, `proc_read`, `jit_init` and
--   `jit_cleanup`. Jit/Decimal is a concrete print for the tests.
-- - Jiq: misc_modules/jiq.c. Jiq/Work has the work items and `jiq_wq`, Jiq/Files the rest.
-- - Print, Rounds and ProcFs are what these share: `sprintf` into a buffer of fixed size, rounds that
--   print a line each until none is left, and the entries under /proc. ProcFs/Table is a concrete
--   directory for the tests.
-- - Sleepy and Completion: the devices of misc_modules/sleepy.c and completion/completion.c, whose
--   readers sleep until somebody writes, as step relations on any number of processes.
-- - Programs: the test programs of misc_progs. Programs/Nbtest has the loop of nbtest.c, Programs/Nonblock
--   its `fcntl` on a pipe of Pipe, Programs/Asyntest asyntest.c on the queue of Pipe/Queue with its
--   signals, Programs/Sculluidtst sculluidtst.c on the device of Scull, Programs/Console setlevel.c and
--   setconsole.c. What other system calls answer is a parameter.
-- - Kernel: what the drivers call, as parameters: `copy_to_user` and `copy_from_user` (the record
--   `Uaccess`), the allocators (`Allocator`), with the laws that the drivers rely on. Examples has
--   concrete ones. Prelude has the lists, slices, tests and families that the parts share.
--
-- Handlers return a `Result`: a number, an error code, or `fault` where the C code would divide by
-- zero, follow a null pointer or leave an array. A C `int` is its 32-bit pattern. A pointer into a
-- buffer is an offset, a pointer to a quantum set its index in the list of its device. `Mem` counts
-- the blocks that a driver asked for and holds. A handler of the memory device holds the semaphore
-- from its start to its end, so it is one function; those of the pipe let others run where they
-- release it, so each is a chain of moves. Loops are recursions on the list or on the rounds left.
-- Only the waits of `jit_delay`, the walk of /proc/scullseq, a program that reads a file to its end and
-- the endless loops of the test programs run on fuel; where they end, the theorems say how much is
-- enough.
--
-- Not modelled: hello/hello.c and misc_progs/hello.c, which print a line, and the scripts (load.sh,
-- unload.sh), which are glue. Nor are the tables of handlers that the modules hand to the kernel, and
-- the opens and releases that only keep a pointer; reads of jit's and jiq's files at the same time,
-- which share one record of data; an open for writing only within a read or a write of others
-- (scull_open takes no semaphore); and the text of the lines under /proc, which is a parameter with
-- the lengths that its format gives. In the interleavings of the pipe somebody always keeps it open:
-- the last release, which frees the buffer, is in Pipe/Users only. Its wait queues are the processes
-- at the points behind which they are woken; those of sleepy and completion appear only as the
-- points where a process may go on, so there a wake-up may come at any time.
pub mod Prelude
pub mod Kernel
pub mod Examples
pub mod Scull
pub mod Pipe
pub mod Programs
pub mod Globalmem
pub mod Access
pub mod Load
pub mod Print
pub mod ProcFs
pub mod Rounds
pub mod Jit
pub mod Jiq
pub mod Proc
pub mod Sleepy
pub mod Completion
