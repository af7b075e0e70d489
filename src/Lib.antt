-- ===== src/Lib.antt =====
-- libmandrews: shared handles and arrays with copy on write, a semaphore and a pool of workers,
-- sockets, a log, preprocessor macros, tests in child processes, and timers.
--
-- The parts and where they are modelled:
--
-- * Shared.h is Shared.antt. A store holds the counts, the copy-on-write flags and the handles by
--   address; each method of `Shared` is a function of its name from a store to an optional store, where
--   `none` is a fault (a null or dangling pointer, a dead handle, a failed assertion). What a handle's
--   `m_dtr` does is not modelled, but each call of it is logged. Its invariant stands in
--   Shared/Invariant, `unref` in Shared/Release, the assignments in Shared/Handles, the constructors
--   and `write` in Shared/Ownership, whole programs in Shared/Lifetime, uses that fault in
--   Shared/Misuse. Shared/Race takes the steps of `unref` and of a copy apart, for handles of one count
--   that several threads copy and release, with what is left in the end in Shared/Race/Settled.
--   Shared/Promise says what the handles promise, with no count and no flag; Shared/Simulation is about
--   each operation and its promise, Shared/Refinement about all of them. Its class `Pointer` is
--   Pointer.antt, over that store.
-- * Array.h is Array.antt, over the store of Shared: the arrays' own fields and the buffers on the
--   heap. The closure `m_dtr` is known by the array that it captured as `this`, which is read when it
--   runs. Array/Elements is about operator[] and the iterators, `+=` stands in Array/Append, the
--   constructor and `+` in Array/Sum, the arrays that outlive what they captured in Array/Orphan.
-- * semaphore.h is Semaphore.antt. Each method holds `mutex_` and is one step; `wait` has no result
--   while the thread sleeps. semaphore.cpp, its test, is SemaphoreTest.antt, as a step relation.
-- * taskmaster.h is TaskMaster.antt: the queue, the semaphore of Semaphore.antt, and a position for
--   each worker and for the owner, with a step for each access of shared state, in any interleaving.
--   Its class `Profiler` is Profiler.antt.
-- * The class Connection of socket.h and socket.cpp is Connection.antt; Socket, TcpSocket and
--   UnixSocket are Socket.antt. What the system calls answer is an argument, one entry for each turn of
--   a loop, so a list that ends before the loop does stands for a call that has not returned yet.
--   Socket/Descriptors is about the descriptors that these objects open and close,
--   Socket/Descriptors/Sharing about a client's.
-- * macro.h is Macro.antt: an argument is a list of tokens, and a use that does not expand is `none`.
--   Its loop macros are Loops.antt: SUBSETS in Loops/Subsets, over sets of bits in Loops/Bits, STEP,
--   FOR and REP in Loops/Steps, and those that run down in Loops/Reverse.
-- * type.h is Types.antt: the masks of types, with bits in Types/Bits and the bases in Types/Ancestry.
--   The macro that registers a type does not compile, so the specialisations of `static_typeid` are an
--   argument; that they hold what the macro is meant to write is a hypothesis in Types/Ancestry.
-- * arguments.h is Arguments.antt: the stored argument lists of a test, as columns; Arguments/Kinds
--   says what is kept of a value, a pointer or a reference. dynamic_ptr.h is Dynamic.antt, and lock.h
--   is Lock.antt, with threads under `with`.
-- * cases.h and cases.hpp are Cases.antt: `Case` with `Flush`, `WaitPid` and `WaitAll`. What `read`,
--   `waitpid` and the clock answer is an argument, one visit of a child after another. The standard gives
--   `++it` after `erase(it)` no meaning, so the first child that is judged ends the call there, as
--   `invalid`. Cases/Run holds `Fork`, `ForkAll` and `TestRun`, as the parent or a child sees them,
--   Cases/Templated `TemplatedCase`, and Cases/Written what CASE expands to. Lemmas on them stand in
--   Cases/Flushing, Cases/Waiting, Cases/Exits, Cases/Overdue, Cases/Forking and Cases/Running; the
--   messages that are printed in Cases/Messages.
-- * testing.h and testing.hpp are Registry.antt: the map of the tests, `Run` and `RunAll` in
--   Registry/Calls, the order of the map in Registry/Order, the call of a `NamedTest`, which forks a
--   case, in Registry/Named, the signal handlers in Registry/Signals, and what TEST and TEST_CASE
--   register in Registry/Declared.
-- * util.h is Util.antt: `parse_arguments` in Util/Parsing, `print_trace` in Util/Trace, where the
--   demangler is an argument, and `SysCall`, `now` and `AUTO` in Util/System.
-- * timing.h and context.h are Timing.antt: `interval_callback` in Timing/Interval, and timers as
--   contexts of `with` in Timing/Timers.
-- * output.h is Output.antt: Output/Channel the map of the channels, Output/Prompt the prompt and the
--   file name, Output/Print the loop that prints a message, with the loop for lines that fit its buffer
--   in Output/Print/Lines and the sizes of its lines in Output/Print/Bounds, Output/Choice a question
--   with its options, Output/Dump the class `Dump` with its flush, Output/Text its text as a string
--   stream, Output/Capture CAPTURE, Output/Null the null streams, Output/Ask the class `Prompt`, and
--   Output/Checks the macros under the flags of the build.
--
-- Prelude passes library names on and holds the lists, totals and tests that the parts share.
--
-- Bounds. A count is a number below 2^64 and wraps; the theorems on handles want fewer than 2^64 of
-- them, those on the semaphore fewer than 2^64 permits, and a pool never has so many tasks queued.
-- `print` runs its loop one round more often than the message has characters, which is enough, as each
-- round but the last takes one. SUBSETS and STEP have a bound on their rounds; Loops/Subsets and
-- Loops/Steps say how many are enough. A signal has a bound on its rounds, of which each handler takes
-- one. All other loops recur on the answers of the system. An `int` that holds the result of `::recv`
-- keeps 32 bits, and so does the argument of `usleep`; times and masks keep 64. A read behind the end of
-- the buffer of `Print` and an overflow of `ms * 1000` are faults, `none`.
--
-- Not modelled. String.h, which is not built. Of cases.h the pipes' set-up; a failed assertion there
-- ends the process. Of macro.h IN, whose type and function are not in the repository. Of Array.h the
-- constructor from N default elements, which cannot be called, and what is made of a list of
-- initialisers, which does not compile; of taskmaster.h the condition variable, which only hurries the
-- loop of `cleanup`; of output.h the locks, the terminal and readline; of socket.h addresses. A
-- worker's `func_` returns; memory order is sequential.
pub mod Arguments
pub mod Array
pub mod Cases
pub mod Connection
pub mod Dynamic
pub mod Lock
pub mod Loops
pub mod Macro
pub mod Output
pub mod Pointer
pub mod Prelude
pub mod Profiler
pub mod Registry
pub mod Semaphore
pub mod SemaphoreTest
pub mod Shared
pub mod Socket
pub mod TaskMaster
pub mod Timing
pub mod Types
pub mod Util
