-- ===== src/Lib.antt =====
-- LoadForge: a hardware stress tester that runs verified workloads in worker processes. This library
-- models the parts that decide what a run may claim: how its state survives a crash, how controller
-- and workers speak, how a worker's end is classified and how a wrong result is isolated.
--
-- Modules:
--   Common      shared helpers; Common.Fallible is core/result.hpp's Result
--   Core        src/core: Crc32 is crc32.cpp, Numbers parse_number.cpp, Units duration.cpp and
--               byte_size.cpp
--   Topology    src/topology: CpuList is cpu_list.cpp, the list of CPUs, and Source is source.cpp, how a
--               file of the kernel answers
--   Resources   src/resources: Decimal, Cgroup, MemoryBudget and OomRecord are the files of those names;
--               the controller asks them what a run may use, and whether the kernel killed for memory
--   Config      src/config/config.cpp: what a size resolves to within the budget
--   Journal     src/controller/journal: the crash journal. Format and Scan are format.cpp, the codec and
--               the scan, Writer is journal.cpp over any storage, FileStorage file_storage.cpp, the
--               storage over a file; the controller appends entries while it runs and a later run
--               replays them
--   Worker      src/worker: Control is control.hpp and control/control.cpp (the commands and their
--               acknowledgements), Frames is frames.cpp, Duty is duty.cpp, Channel is ipc/record.cpp (the
--               frames of a worker's records), Heartbeat the slots of ipc/heartbeat.cpp,
--               Scheduler what scheduler.cpp and control_channel.cpp ask each
--               tick, and the answers of the null workload
--   Platform    src/platform/exit_status.cpp: wait statuses
--   Controller  src/controller: Supervision is supervision.cpp (the fates of workers and the OOM-kill
--               count), Stopping is the escalation of safety.cpp and its calls in orchestration.cpp,
--               Memory its peak of a schedule, Plan the
--               CPUs of a worker, of plan.cpp
--   Isolation   src/verification/isolation.hpp and isolation/ladder.cpp: the ladder of re-runs
--   ErrorRecords src/verification/record.hpp and record/codec.cpp: what a worker reports of a wrong
--               result, with its rules and its codec
--   Telemetry   src/telemetry: sample.hpp (readings and counters) and timeline/bounded_timeline.cpp
--   Mixed       src/workloads/mixed: schedule.cpp, the rules on a schedule of commands; Cycling is
--               cycling.cpp and Rotation mixed.cpp, the makers of schedules, Roster roster.cpp
--   Examples    the theorems at concrete inputs
--
-- A byte is a number below 256, a string is the list of its bytes, a double its 64 bits. Unsigned
-- integers are natural numbers with their wrap-around written out where it can happen. Result is
-- Outcome, with the fault as the error and without its text. The storage of a journal, the re-runner
-- and the W* macros are parameters: records of functions over a state of their own, and for the
-- storage the laws that its interface's comment promises. So are read and write on a worker's pipe:
-- IsPipe and IsSink say that they take bytes from the front of the pipe and add them at its end.
-- The files that the kernel answers are a function from paths, as each is read once. The file operations of
-- a storage are such a parameter too, with the file as IsFile describes it, and the
-- registry of workloads is a function that says what it makes. A time of a heartbeat is not negative, and
-- a load sees the stores made before it in their order: the fences that see to that are not modelled.
--
-- The scan's loop runs on fuel: one round more than there are bytes, since every round that goes on
-- takes at least the eight bytes of a header; Journal.Total shows that it is never used up. The loops of
-- a drain and of a send run on fuel for the same reason: a record takes the bytes of its header from the
-- buffer, and a round of a send that goes on writes a byte; the theorems of Worker.Channel use that.
-- Reading a file takes fuel for its bytes (Journal.FileStorage.Reading), and the footprints of a roster
-- double sixty-four times at most. The directories above a cgroup take fuel for the
-- characters of its path, which begins with a slash. A decimal number is written on fuel for the twenty digits of a uint64_t.
--
-- Not modelled: the system calls, the numerical kernels and their oracles, the event loop
-- around the stop of a worker, the topology readers but for the CPU list, the parsing of a configuration, the
-- reporters and the command line. The region of the heartbeats is modelled by its slots only.
pub mod Common
pub mod Core
pub mod Topology
pub mod Resources
pub mod Config
pub mod Journal
pub mod Worker
pub mod Platform
pub mod Controller
pub mod Isolation
pub mod ErrorRecords
pub mod Telemetry
pub mod Mixed
pub mod Examples
