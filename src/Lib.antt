-- ===== src/Lib.antt =====
-- A verification library of the USLOSS kernel of this repository: a course operating system in
-- phases, each linked against the ones before.
--
-- Parts, and the files that model them:
-- * phase1b-archive/phase1b.c, the process table and the scheduler: Phase1b. `process_table`,
--   `running_process`, `next_pid` and `ready_queues` are the fields of Phase1b/State; a `Process *`
--   is the index of its entry, or none for NULL. Queues has the linked lists, Scheduler
--   `dispatcher`, `contextSwitch`, `blockMe`, `unblockProc`, `zap` and `quit`, Spork `spork`, Join
--   `join`, and Startup `phase1_init`, `init_run` and `dumpProcesses`. Table says when the whole table
--   is in order, and has one file for each step of a call: filling an entry, linking it, queueing it,
--   taking it off, giving it back. Blocked, Quit and Table/Unblocking are about `blockMe` and `zap`,
--   the processes that `quit` wakes, and `unblockProc`. Programs and Machine run processes that make the calls one after
--   the other, in any order in which the dispatcher lets them.
-- * phase1a-archive/phase1a.c, the first form of the process table, in which every switch is asked for
--   by hand: Phase1a, in the same manner. Links, Adding and Unlinking are about the lists of
--   children, and Latest, Joining, Sporking and Quitting about the calls.
-- * phase2/phase2.c, mailboxes and the system call vector: Phase2. State has the global data,
--   Waiters the rows of blocked processes, Slots the mail slots and their queues, Lifecycle
--   `MboxCreate`, `MboxRelease` and `phase2_init`, Transfer the four ways to send and receive, and
--   Device the handlers and `waitDevice`. Fifo is the specification of a mailbox, Invariant what
--   holds whenever a process is switched out, Safety and Refinement the theorems, and Unattended a
--   mailbox at which nobody waits.
-- * phase3/phase3.c, semaphores and the system calls on processes: Phase3, whose state contains that
--   of phase 2; it calls the mailboxes through `in_phase2`. Creation and Counting are about the
--   semaphores.
-- * phase4a/phase4a.c, sleeping and the terminals: Phase4, over the state of phase 2 likewise.
--   Mailbox says what one mailbox holds in an undisturbed run; Scanned and Sleepers are about the
--   clock driver, and RoundTrip about a line on its way from the driver of a terminal to its reader.
-- * phase3/phase3_usermode.c and phase4a/phase4_usermode.c, the entry points for user processes:
--   Usermode, over an arbitrary `USLOSS_Syscall`, which Pids and Creation take to be the handler.
-- Base holds the shared helpers, and Kernel what phases 2 to 4 ask of code outside them.
--
-- How it is modelled: a function of the source is a function from a state to a `Run` (Base/Run), the
-- tree of what it does. `done` is a return, `halt` a `USLOSS_Halt`, `fault` undefined behaviour (an
-- index out of bounds, a null pointer, a division by zero), `ask` a question to USLOSS or the C
-- library with any answer, and `call` a call during which other processes run: it hands over the
-- state and is resumed with any answer in any state. `Safe` quantifies over all that the others may
-- do, under an invariant and a stated rely; `Finishes` is the run where they do nothing,
-- and `Calls` says which calls it makes, and `Answered` what a result has to do with the answer of
-- `malloc`. The rely of the process table is that a process goes on only when `running_process` is its entry again.
-- Machine does not assume this: there it follows from the switches themselves. Its processes call
-- `spork`, `join`, `blockMe` and `quit`; `zap` and `unblockProc` are left out, since `unblockProc`,
-- which `quit` calls for a process that zaps, puts a process that is still in its queue there again
-- (Cycles).
--
-- Bounds and fuel: the waiting loop of `MboxSend` runs on fuel, since it may be woken any number of
-- times; two rounds are enough when it is woken only for room or at the release. The loop of
-- `MboxRelease` has eleven rounds for rows of at most ten processes. The walks along the lists of
-- phase 1b have a fuel of 50, or 51 where the end counts, enough for a list of different entries of
-- the table. The loop of `spork` for a PID needs at most three rounds. The endless loops of the
-- drivers, of `init_run` and of `join` have a fuel that bounds their rounds.
--
-- Numbers: an `int` that is only compared and counted is unbounded, where nothing in the source
-- brings it near 2^31; overflows of the clock counters and of a wake-up tick are faults.
-- Arguments of system calls are `int`s already.
--
-- Not modelled: console output; stacks and contexts; the contents of `lines` in `TermBuffer` and the
-- unused fields of `MailSlot` and `struct Process` of phase 2;
-- phase2/donk.c, which is commented out; the test programs. The number of each system call of phase
-- 4 and of the user entry points, and `USLOSS_CLOCK_MS`, are in USLOSS's headers and are parameters.
pub mod Base
pub mod Kernel
pub mod Phase2
pub mod Phase3
pub mod Phase1a
pub mod Phase1b
pub mod Phase4
pub mod Usermode
