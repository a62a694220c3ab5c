-- ===== src/Lib.antt =====
-- A model of PennOS in the parts that the program has: the PennFAT file system (src/pennfat), the
-- kernel's scheduler with its process calls (src/scheduler), the system calls on files that join the two
-- (src/scheduler/fat_syscalls.c), the list macros that all of them use (lib/linked_list.h), and the
-- shell (src/shell) with its parser, its jobs and its loop.
--
-- Base holds what both share. A C function is a command (Base/Run.antt): a function of the state
-- that it finds, which returns a value and a state, is a fault (a null pointer, memory outside an
-- array, a failed assertion, a division by zero), or never returns. Base/Returns.antt has the total
-- correctness of commands: `Returns P r` says that the run returns and that P holds of the result.
-- Base/Lists.antt, Base/Int.antt and Base/Tests.antt have lists, signed return codes and tests over the
-- native numbers.
--
-- The file system. Fat/State.antt has the globals `fs` and `global_fd_table` of src/pennfat/fat.c, the
-- blocks of the host file, and the answers of the host (lseek, read, write, time, malloc) as data, so
-- that every error branch can be taken. The names of the functions are those of the source:
--   Fat/Config   fat_utils.c and the sizes that mkfs.c computes
--   Fat/Chain    clear_fat_file, first_empty_block, next_block_num and block offsets
--   Fat/Disk     get_block, write_block, and the 64-byte layout of directory_entry
--   Fat/Names    is_valid_filename, check_filename_charset, strcmp
--   Fat/Dir      the searches of the root directory, write_root_dir_entry, write_new_root_dir_entry
--   Fat/FdTable  the searches of the descriptor table, k_setmode, k_getmode
--   Fat/Open     k_open, k_close
--   Fat/Seek     k_lseek
--   Fat/Read     k_read
--   Fat/Write    k_write
--   Fat/Edit     k_unlink, k_chmod, k_mv
--   Fat/Mount    mount, unmount
-- Numbers of fixed width wrap where the source's do, and offsets are kept below 2^32. `char` is signed.
--
-- The scheduler. Sched/State.antt has the process control blocks, named by their pids, the six queues of
-- `scheduler_t` as lists of pids, and the globals of src/scheduler/scheduler.c. The double `sleep_time`
-- is kept exactly, in units of 2^-55 (Base/Double.antt), with the rounding of each subtraction of 0.1.
--   Sched/Queue   the list macros of lib/linked_list.h on queues, k_remove_from_active_queue
--   Sched/Select  _select_next_queue, _update_blocked_processes, unblock_process, _run_next_process, and
--                 rounds of the loop of run_scheduler
--   Sched/Move    k_add_to_ready_queue, block_process, k_continue_process, k_set_priority, k_sleep
--   Sched/Exit    k_proc_exit, k_stop_process, unblock_parents, reparent_children
--   Sched/Wait    k_waitpid, up to where it returns or suspends its caller
--   Sched/Create  k_proc_create of src/scheduler/kernel.c
--   Sched/Spawn   s_spawn of src/scheduler/sys.c
--   Sched/Own     s_sleep, s_ignore_sigint, s_ignore_sigtstp, s_logout, s_get_errno of sys.c, P_WIFEXITED
--   Sched/Sys     s_kill, s_exit, s_nice, s_waitpid, s_tcsetpid of src/scheduler/sys.c
-- Sched/Queue/Invariant.antt states the invariant of the queues: a queued process is in the queue of its
-- state and priority, so in no other, and once (`Placed`).
--
-- The system calls on files. Calls.antt has the kernel of Fat/State.antt and the scheduler of
-- Sched/State.antt side by side, and s_open, s_read, s_write, s_close, s_unlink, s_chmod and s_mv over
-- both, with the descriptor table of the current process. Calls/Share.antt and Calls/Inherit.antt let
-- another process run between two calls by a change of the current process.
--
-- The lists. Links.antt has the macros on nodes with `prev` and `next` in a store; Links/Segment.antt
-- says when a store represents a sequence (`Represents`). The queues of Sched are such sequences.
--
-- The parser. Shell/Lexer.antt and Shell/Parser.antt have both passes of parse_command. A position in the
-- line is the list of the bytes from there to `end`, a pointer into the copied line is the word that
-- it points to, and the array of argument pointers is a list, which each pass extends or counts.
--
-- The shell. Its state, Shell/Jobs.antt, is the kernel, the list of jobs, the jobs by the numbers that
-- stand for their pointers, and what it has printed: output to standard error is kept as messages, and
-- its effect on descriptor 2 is not modelled. The shell is the current process. A call that suspends it
-- ends a command of the model, which says where the shell waits, and resume_fg or resume_job goes on.
-- A variable that is not initialised has the value `garbage`, an argument; `malloc` is a field or an argument.
--   Shell/Jobs     the job list of src/shell/jobs.c, destroy_job
--   Shell/Control  handle_fg, handle_bg, handle_jobs_commands of jobs.c
--   Shell/Execute  execute_job of command_execution.c, validate_command
--   Shell/Loop     a turn of shell_loop in penn-shell.c, read_command, pennos_signal_handler
--   Errors         u_strerror of src/utils/errno.c
--   Commands       rm, touch, echo, mv, chmod and logout of commands.c, u_perror of errno.c
--   Commands/Process  kill, sleep, nice_pid, busy, zombify and orphanify of commands.c
-- The commands run as the current process over Calls.antt, and what they write goes to their descriptors.
--
-- Fuel. A walk along a chain of blocks has 65537 rounds: block numbers have 16 bits, so a chain
-- without a circle has at most 65536 blocks, and a walk that needs more rounds never ends in the source
-- either. The copying loops of k_read and k_write have one round more than there are bytes to copy, and
-- each round copies a byte at least. The rounds of reap_jobs are an argument; when
-- a child of the shell has ended, one is enough. The passes of the parser have one round for each byte, and the loops
-- over a list one for each node; both are shown to be enough.
--
-- Not modelled: the host system and the thread library (spthread), whose answers are arguments or
-- fields of the state; the text that is logged or printed; the memory of a process control block
-- after it is freed; the other commands of src/shell/commands.c and their choice by execute_command, stress.c; the stand-alone pennfat program;
-- formatted output (s_fprintf_short, k_ls, s_get_process_info).
--
-- Tests has the properties at concrete inputs.
pub mod Base
pub mod Calls
pub mod Commands
pub mod Errors
pub mod Fat
pub mod Links
pub mod Sched
pub mod Shell
pub mod Tests
