-- ===== src/Lib.antt =====
-- Verification of the programs and the library of The Linux Programming Interface in C.
--
-- The repository is a collection of small programs, one directory for a chapter, over a library of
-- helpers in lib/. The parts modelled, and how they use each other:
--   * GetNum: lib/get_num.c and lib/get_num.h. `get_num`, `get_long`, `get_int` are getNum, getLong and
--     getInt; `gn_fail` is gnFail. A call either returns or ends the process with a text (`Checked`).
--     `strtol` stands on Clib, which models the C library's conversion for the C locale, with `long` of
--     64 bits and `int` of 32, and decimal printing.
--   * Command: 27-process-execute/system.c. `reset` is the part behind the wait, `child_attributes` the
--     part of the child before it executes the shell.
--   * Errors: lib/error_functions.c, with the table of lib/ename.c.inc. `err_exit` is errExit and
--     `err_exit_now` is err_exit. The other models name the ends of a process that they use themselves.
--   * Sys: a process is its `errno` and a kernel; a system call is a function on the kernel that replies
--     with a result or an error number. The kernel is a parameter of every model, and what the code
--     relies on of `read`, `write`, `socket`, `close` and so on is a record of named laws
--     (Io/Laws, Sockets/Api), each with an instance in the tests.
--   * Io: ReadLine is lib/read_line.c; Rdwrn is lib/rdwrn.c; Pump is the transfer loop of
--     4-fileio/copy.c, which 57-socket-unix/us_xfr_cl.c, us_xfr_sv.c, 44-ipc-pipe-fifo/simple_pipe.c and
--     60-socket-design/is_echo_sv.c repeat; Copy is `main` of 4-fileio/copy.c; Xfr is
--     57-socket-unix/us_xfr_cl.c (`client`) and us_xfr_sv.c (`server`, for a number of rounds).
--   * Sockets: Unix is lib/unix_sockets.c; Inet is lib/inet_sockets.c without inetAddressStr; Pty is
--     lib/pty_master_open.c, and PtyFork is lib/pty_fork.c on it.
--   * Echo: 60-socket-design/is_echo_sv.c (`echo_server`, for a number of rounds), on Inet and Pump.
--   * Children: 26-process-watch/multi_SIGCHLD.c, as steps of the process and of its children.
--   * Daemon: lib/become_daemon.c, `tidy` from the call of umask() on.
--   * PidFile: lib/create_pid_file.c, on lib/region_locking.c (Regions).
--   * Timers is lib/itimerspec_from_str.c, on the `atoi` of Clib; Terminal is lib/tty_functions.c.
--   * Fifo: 44-ipc-pipe-fifo/fifo_seqnum_server.c, whose loop is run for a number of rounds, with
--     `seqNum` an `int` that wraps around. Client is fifo_seqnum_client.c, whose exit handler does not
--     run where SIGPIPE kills it, or where lib/error_functions.c calls abort() for EF_DUMPCORE.
--   * Program: programs that may end on the way, as code on a process with a result (`Prog`).
--   * Seqnum: 59-socket-internet/is_seqnum_sv.c (`server`, for a number of rounds) and is_seqnum_cl.c
--     (`client`), on ReadLine, GetNum, `atoi` and the sockets of Inet.
--   * Threads: Join is 30-thread-sync/thread_multijoin.c; Incr is the two threads that increment `glob`
--     in 30-thread-sync/thread_incr.c (Racy), 30-thread-sync/thread_incr_mutex.c,
--     53-posix-semaphore/thread_incr_psem.c and 30-experimental/thread_incr_spinlock.c (Locked, for any
--     lock; Locks has a mutex and a semaphore); Prod is 30-thread-sync/prod_condvar.c and Poll
--     30-thread-sync/prod_no_condvar.c. Every access to shared memory and every call on a lock or a
--     condition variable is a step of its own, and any thread may make the next step.
-- Prelude has the lists, tests, integers and C strings that all of these share.
--
-- Bounds and fuel. The loops on system calls run on fuel, and `none` or `out_of_fuel` means that it ran
-- out. One round delivers a byte, takes up an interruption by a signal handler, of which only a bounded
-- number is to come, or takes away a dead child, so the number of these and one more is enough; the
-- theorems say so for every loop. The wait of `system` runs on the interruptions alone. An endless loop
-- of a server is run for a number of rounds, for which the theorems hold whatever it is. Byte counts are
-- natural numbers and stay below the size given by the caller. The counters of the thread programs and
-- of Children are natural numbers too: in the code they are `int`, so the theorems speak of runs whose
-- counts fit one. The arguments of prod_condvar.c and prod_no_condvar.c are taken to be counts, not
-- negative.
--
-- Not modelled: most of what the programs print, what goes to the system log, the creation of threads
-- where nothing is shared yet, calls on locks that fail, signals that kill a process (but for SIGPIPE
-- in Fifo.Client), EF_DUMPCORE in the other programs, and the programs that only demonstrate one
-- system call. The other helpers of lib/ (curr_time.c, print_wait_status.c, signal.c,
-- signal_functions.c) are not modelled.
pub mod Prelude
pub mod Clib
pub mod Command
pub mod Errors
pub mod Fifo
pub mod GetNum
pub mod Sys
pub mod Terminal
pub mod Io
pub mod Children
pub mod Daemon
pub mod Echo
pub mod PidFile
pub mod Program
pub mod Seqnum
pub mod Sockets
pub mod Threads
pub mod Timers
