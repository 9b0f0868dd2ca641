-- ===== src/Lib.antt =====
-- The programs of a course on advanced programming in the UNIX environment, as models with proofs.
--
-- 310551113_hw4/sdb.cpp is a debugger. `main` reads the options and then loops: a line is split
-- into words (`sdb_parser`) and `middleware` calls a handler. The handlers share one global
-- configuration (the status, the breakpoints, the breakpoint `lid` to be put back) and act on the
-- traced process by ptrace. Here:
--   Sdb.Config: the types, return codes and tables; Sdb.World: the state and the monad of the
--   handlers, with the messages and `checkstatus`; Sdb.Host: the interface of the kernel, of the
--   files and of the disassembler, and the documented effect of the ptrace calls.
--   Sdb.Code: `alterpart` and `alternate`, which exchange bytes of a word; Sdb.Code.Alter and
--   Sdb.Code.Overlay say what they do to the bytes.
--   Sdb.Stops: `resetbreak`, `restoreifbreak`, `setallbreak`, `waitstatus`.
--   Sdb.Control (with Sdb.Control.Elf): `setbreak`, `deletebreak`, `cont`, `si`, `load`, `start`,
--   `run`. Sdb.Inspect (with Sdb.Inspect.Maps): `disasm`, `dump`, `get`, `getregs`, `list`, `set`,
--   `vmmap`. Sdb.Shell: `sdb_parser`, `middleware`, `core`, `arg_parser`,
--   `main` (`debugger`).
--   Sdb.Memory: the invariant that relates memory to the breakpoints, and the handlers against it,
--   with Sdb.Memory.Session for sequences of `setbreak` and `deletebreak`,
--   Sdb.Memory.Begin (with Sdb.Memory.Readied) for `start`, Sdb.Memory.Execution (with
--   Sdb.Memory.Steady) for sequences of `cont` and `si`, and Sdb.Memory.Run for `run`.
--   Sdb.Memory.Live has lines of words as they are typed, as a step relation from `main` on:
--   its children Ready, Commands, Edits, Starts and Lines are the two states and the commands in them,
--   Reached and Begun what is reached. Sdb.Memory.Kept is what the handlers leave alone.
--   Sdb.Inspect.Shown and Sdb.Inspect.Dumped: the bytes that `disasm` and `dump` show.
--   Sdb.Memory.Registers: `set`; Sdb.Memory.Printed: `break` as a line. Sdb.Shell.Loop: how `core` ends, and what it does at the
--   end of the input; Sdb.Shell.Showing: the commands that change nothing but the output.
--   Sdb.Tests: the theorems at concrete states.
-- 310551113_hw1/hw1.cpp lists the open files of all processes. `main` reads the options (`Filter`),
-- then `iterate_proc` reads each process (`iterate_pid`) and widens the columns (`update_maxlen`),
-- and `output` prints the table. Here:
--   Lsof.Filter: the options; Lsof.Files: the readers of single files; Lsof.Process: the files of a
--   process with the pool of inodes; Lsof.Table: the widths, the loop over /proc, the table and
--   `main` (`list_files`). Lsof.Table.Widths, Lsof.Table.Aligned, Lsof.Table.Rows, Lsof.Process.Pool and
--   Lsof.Process.Errors have the proofs, Lsof.Tests the theorems at concrete files.
--   std::regex and the files are parameters; the files do not change during a run, and no name is
--   longer than an `int` can tell.
-- 310551113_hw1/_hw1.cpp is the first version of the lister, which no build makes. `iterateBase` reads
-- each process into a global pool of inodes and skips it when an exception is thrown. Here:
--   Draft.Options: `Filter` and `setFilter`; Draft.Files: the readers of single files; Draft.Process:
--   `getMappedFiles`, `iterateFd`, `iterateProcess`; Draft.Table: `updateMax`, `iterateBase`, `show`
--   and `output`. Draft.Options.Trailing, Draft.Files.Component and Draft.Table.Aligned have the
--   proofs, Draft.Tests the theorems at concrete files.
--   std::regex and the files are parameters; a path is the text it was made of.
-- 310551113_hw2 logs the calls of a program. hw2.cpp builds a command line with LD_PRELOAD, opens
-- the log as file 5 and runs the command by the shell; lib.cpp, loaded into the command, replaces
-- functions of the C library by ones that call it and log the call. Here:
--   Logger.Resolve: the interface of the C library, and how arguments are shown; Logger.Functions: the
--   types of the functions, the state, and the line that is written; Logger.Calls: the
--   replaced functions (`chmod_logged` is `chmod`), with Logger.Calls.Request for sequences of
--   calls; Logger.Buffer: the pieces of utils.hpp that lib.cpp does not use; Logger.Launcher:
--   hw2.cpp. The children of Logger.Resolve and of Logger.Launcher, and Performed, Transparent,
--   Readable, Returned and Run of Logger.Calls, have the proofs, Logger.Tests the theorems at a small C library.
--   A string at a null pointer, or at one that cannot be read, is `none`, and so is the call that asks
--   for it. `creat64` and `open64` of lib.cpp are functions of C++, since its `extern "C"` block does not
--   name them: they are modelled, but are no calls of a program. The C library, the shell and `getopt`
--   are parameters; calls of the C library return, and `dlopen` and `dlsym` are taken to succeed.
-- 310551113_hw3/libmini.c is a small C library over the system calls of libmini64.asm. Here:
--   Mini.Signals: the signal sets, of one word as in libmini.h; Mini.Kernel: the system calls and the
--   state with `errno`; Mini.Calls: the wrappers, with Mini.Calls.Errors on their results;
--   Mini.Strings: `bzero` and `strlen`; Mini.Perror: `perror`, with Mini.Perror.Messages on what it
--   prints; Mini.Handlers: `sigaction` and `signal`; Mini.Tests: the theorems at a small kernel.
--   Mini.Machine is the part of the processor that libmini64.asm uses, one function per instruction,
--   and Mini.Assembly that file, with `open_file` for `open`. Its children: Stack and Buffer have
--   words in memory and the buffer of `setjmp`; Saved, Setjmp and Longjmp follow these two to the
--   return of `longjmp`; Open compares `open` with the wrappers in C, Nanosleep and Sleep compare
--   `sleep` with the function of libmini.c (Mini.Sleep); Tests has the theorems at a small kernel.
--   The kernel, the address of `errno` and the addresses behind the calls are parameters.
-- A `long` is the number of its 64 bits, a text the list of its character codes, a handler a
-- function from the state to a result: it returns, or the debugger exits, throws, or takes a step
-- that C++ leaves undefined. The loop of `core` has no condition, so it is modelled by its rounds; all
-- other loops are recursions on lists or counters. The kernel, the traced program and capstone are
-- parameters; the messages of `perror` are left out.
-- Not modelled: 310551113_hw4/hw4, a binary that the build makes, and the Makefiles, which have no
-- logic.
pub mod Base
pub mod Sdb
pub mod Lsof
pub mod Draft
pub mod Logger
pub mod Mini
