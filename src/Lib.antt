-- ===== src/Lib.antt =====
-- CPU scheduler simulator: a discrete-time simulation of one CPU under five scheduling policies.
--
-- The parts and how they interact. main (src/core/main.c) reads the command line
-- (src/core/parser.c) and a workload (src/core/process.c), which is an array of processes
-- (include/process.h), configures the state, and runs one algorithm on it or, to compare them, all
-- five, each on the array as it is after a reset. The engine (src/core/scheduler.c) keeps the
-- clock, the running process and the arrivals. Each time unit it completes the running process if
-- its work is done, lets due processes arrive, calls the policy's tick hook, dispatches if the CPU
-- is idle or a preemption was asked for, executes one unit and appends an entry to the log of the
-- CPU (src/core/gantt.c). A policy (src/algorithms/*.c) is a record of hooks that the engine
-- calls; round robin keeps a ready queue (src/utils/queue.c) and the multi-level feedback queue
-- keeps queues of its own. src/core/policy.c names the policies and has one entry point for each.
-- src/core/metrics.c recomputes the metrics and averages them.
--
-- Files.
--   Base       tests, lists, integers and arrays that all modules share.
--   Process    include/process.h and the life cycle functions of src/core/process.c.
--   Queue      src/utils/queue.c; Fifo is its order.
--     Linked, Chain, Refines  its nodes in memory, and how the list stands for them.
--   State      include/scheduler.h: SchedulerState, SchedulerPolicy and the policies' private states.
--   Gantt      the log of src/core/gantt.c.
--     Render   the chart, as the text that is printed.
--     Split, Blocks, Capacity  the log taken apart, the blocks of the chart, and their arrays.
--   Engine     src/core/scheduler.c, one function for each stage with the name it has there;
--              step_simulation and run_simulation compose them in the order of the source.
--     Contract the interface: what the engine's proofs ask of a policy.
--     Sound    the invariant of the processes and of the completion counter.
--     Moves, Stages, Quiet, Dispatch, Redispatch, Progress, Step, Unit, Finish, Run
--              the stages in turn, up to one whole time unit and the loop.
--     Total    the run as a whole; Keeps, Log and Logged: what each unit keeps, and the log; Charted:
--              the log as the chart reads it.
--     Uninterrupted  policies without an arrival and a tick hook.
--     Startup  init_scheduler_state, and arrivals on a sorted array.
--     Reach    the states of a run between two time units, as a step relation.
--     Aside    what only the hooks of a policy write.
--     Range    which numbers of a process fit an int, and when.
--   Policy     src/algorithms/*.c and src/core/policy.c, with the names of the source.
--     Scan     the walk over the array that FCFS, SJF and STCF have in common.
--     Choice, Orders, Selection   which process that walk takes.
--     LeastRuns, ShortestRuns  STCF over a whole run; what it shares with the multi-level policy.
--     ShortestFirst  what the times of a run of SJF are to be; Stages, Dispatch, UnitEnd and Run, which
--              lead a run of the simulation there.
--     LeveledContract, HighestRuns, Allotment  the multi-level policy over a whole run.
--     InTurn   the schedule of FCFS written down without the simulation; Stages, Dispatch,
--              UnitEnd and Run follow a run of the simulation along it; Sorted starts it from an
--              array in any order.
--     Scanning, RoundRobin, MultiLevelContract   the engine's contract for each policy.
--     Levels, MultiLevel, MultiLevelTick, Picked, Rules, Placement, Boost, OwnLevel, Outranks
--              the queues of the multi-level policy, and the order of its choice.
--     Slice, TimeSlice  the time slice of round robin; over a whole run.
--     Runs     the five entry points of src/core/policy.c.
--   Metrics    src/core/metrics.c.
--   Clib       the functions of the C library that the texts are read and written with.
--     Compare, Decimal, Tokens  texts compared, numbers and fields, written and read.
--   Workload   the parsers of src/core/process.c.
--     Shape, RoundTrip, Files  what they leave in the array, and texts read back.
--   Parser     src/core/parser.c: the command line and the configuration of the multi-level policy.
--     Numbers, Options, Reading, Settings  numbers, the options, and the lines of a configuration.
--   Main       src/core/main.c, from the command line to what is shown.
--     Algorithm, Reset, Comparison, Program  a run by name, the comparison mode, the whole.
--   Tests      runs and theorems at concrete inputs.
--
-- How state and operations correspond. The array of processes is a function of the index, and a
-- `Process *` is an index; NULL is `none`. SchedulerState is a record with the nested records of
-- the header, and a function that changes it returns the new one; `int *completed` is passed in
-- and returned. `void *policy_state` is a sum of NULL and the two private states. A hook that
-- would read another policy's state changes nothing. A chain of nodes is a list; Queue/Linked has
-- the nodes of the ready queue at their addresses. A C string is the list of its character codes
-- without the NUL.
--
-- Numbers. The counters that start at 0 and only grow, the priority and the indices are natural
-- numbers; the other `int`s of the state are integers without a bound. Three places have their bounds:
-- the `%d` of sscanf, of which an int keeps the low 32 bits; the sums of the metrics, which are wrapped
-- to 32 bits at every addition, as the compiled code does; and strtol, with a long of 64 bits, and the
-- parser's test against INT_MAX. The wrap-around of the times of a run is not modelled: it takes
-- arrivals or a workload whose bursts and last arrival add up to more than an int holds, and
-- Engine/Range says what of a run stays below. A float of main is the ratio that it is computed from.
--
-- Fuel. The loops of run_simulation and of queue_free, and the loops that empty the queues in
-- mlfq_on_finish, run on fuel, `none` meaning that it ran out. For the first, more than the sum of the
-- remaining times, one more for each process, plus the last arrival, is enough, since each time unit
-- does a unit of work, completes a process or brings the next arrival nearer; for the second, more
-- than the number of entries. The hooks at the end of a run are given the fuel of the run: their queues
-- are empty by then, so any fuel is enough. The arrivals of a time unit are at most the processes that
-- have not arrived, so handle_arrivals needs no fuel of its own.
--
-- Parameters. `qsort` is the C library's: what is relied on is that it rearranges the array,
-- where the work of a workload is counted, that a sum over the array stays what it was, and, for the
-- schedule of FCFS, that no entry compares as greater than a later one. The files
-- are a function from a name to the content, if the file can be opened. getopt_long is represented
-- by the list of options that it returns, call after call. What malloc returns holds unknown
-- processes, and the state on the stack of main unknown values: both are arguments. `strcmp`,
-- `strcasecmp`, `strtok`, `strtol`, `fgets` with its 255 characters, and `sscanf` and `printf` for
-- the formats that the source uses are written out in Clib; no text has a NUL inside. Memory is
-- never short: malloc, realloc and strdup succeed.
--
-- Not modelled: the text of the two tables and of the messages, with their numbers in %.2f; main
-- returns the values that they are printed from. free_args and cleanup_simulation only release
-- memory.
pub mod Base
pub mod Clib
pub mod Process
pub mod Workload
pub mod Parser
pub mod Queue
pub mod State
pub mod Gantt
pub mod Engine
pub mod Policy
pub mod Metrics
pub mod Main
mod Tests
