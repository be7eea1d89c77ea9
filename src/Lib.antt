-- ===== src/Lib.antt =====
-- soc-validation-framework: a host-side library for post-silicon validation.
--
-- The program reads and writes 32-bit registers through the interface `ITransport`
-- (include/soc/transport.hpp). The emulated device (src/emulated_device.cpp) implements it as a
-- behavioural model of a DMA engine and a PCIe link; register values are edited by the accessors that
-- tools/generate_registers.py emits from regmaps/soc.yaml, and travel through `RegisterAccessor`
-- (include/soc/register.hpp).
--
-- Files:
--   Prelude         shared names, Boolean tests, lists over the native numbers
--   Word            `uint32_t` and `uint64_t` arithmetic; digits of a word (Bits, Shift, Fields) and
--                   their recursion equations (Step)
--   Bus             exceptions, the interface `ITransport`, and programs of bus calls that go by the
--                   replies (Program)
--   Device          `EmulatedDevice` (src/emulated_device.cpp): Policy (the policy table), Merge (a
--                   write bit by bit), Access (sequences of accesses), Status, Valid (the invariant),
--                   Write, Dma, Overflow, Block (Read, Write), Decode, Reset, Tests
--   Region          `MappedRegion` and `DeviceHandle` (include/soc/transport.hpp) over an explicit heap:
--                   Owned (who owns which block), Leaks (sequences of operations), Bounds, Tests
--   Protocol        `ProtocolTransport` and the factory (include/soc/transports.hpp,
--                   src/transports.cpp): Account (what is counted and charged), Factory, Tests
--   TxnLog          the transaction log and the logging decorator (src/txn_log.cpp): Trace (what is
--                   logged), Replay (the log drives the device again), Tests; Csv is `WriteCsv`, with a
--                   reader of its files (Digits, Split, Reader, RoundTrip, Tests); Shared has several
--                   decorators on one log (Turns, Tests)
--   Sequencer       `Add`, `Levels` and `RunOne` (src/sequencer.cpp): Keys (the map of pending tests),
--                   Counts, Layers (the `while` loop), Declared, Levels, Order, Schedule, Suite,
--                   RunOne, Tests; Thread is `RunOne` step by step, and Run is `Run`: Trace (order and
--                   bounds of a trace of events), Pool and Drain (the threads of a chunk), Filed (the
--                   results by name), Once (how often a test begins), Chunks, Found, Chunked and Serial
--                   (a level), Needs, Whole (all levels), Results, Answers, Genuine (how the callbacks
--                   of a result's test ended, and where in the run: Steps, Pool, Filed, Levels, Whole),
--                   Chain and InOrder (levels of one test each), Tests
--   Registers       the field accessors that tools/generate_registers.py emits (Fields), the register
--                   map of regmaps/soc.yaml (Map), and the map against the device's policy table
--                   (Mirror); Generator is the generator itself: Bits (`parse_bits`), Surface (the
--                   accessors that are emitted), Tests
--   Python          the register wrappers, `repr` and `add` of python/bindings.cpp: Attributes, Tests;
--                   Session is the objects of a Python program with the references between them: Shape
--                   (which class each has), Alive (what a call meets), Steps (what a program does),
--                   Tests; Bringup is python/examples/dma_bringup.py: Waits (its polling loop), Starts
--                   (its first two tests), Passes, Tests
--   Benchmark       the workload of benchmarks/bench_main.cpp and its two ways to read the fields of a
--                   register: Status (getters as arithmetic), Polling (the workload's transfer), Reads
--                   (the two ways compared), Suite (`BuildSuite`: Built, Pass), Tests
--   Accessor        Read, Write, Modify, WriteOnly (include/soc/register.hpp); Hazard compares the
--                   last two; Tests
--
-- A run on threads is a sequence of steps: a thread reads the counter, calls the setup, the body and
-- the teardown, and reads the counter again, each as one step, and an argument says which thread of the
-- chunk goes next. It stands for every schedule at that grain; what two bodies do to the same world
-- within one call is not split further. Threads that the argument leaves unfinished end when `Run`
-- waits for their futures, five steps being enough for any thread. The trace records when tests begin
-- and end.
--
-- The objects of a Python program are numbered as they are made, so a decorator is younger than what it
-- wraps, and a call through it runs on fuel, one more than its number. Python's references are counts;
-- a step destroys an object only when it has none and no decorator that is alive keeps it. The
-- transports that `make_transport` builds are not among these objects.
--
-- Numbers are natural numbers; an operation that can leave its type's range has its wrap-around
-- written out, and ranges are kept in invariants. A method returns its result, which may be an
-- exception, together with the new state. Loops are structural recursions over the rounds left or over
-- a list, with four exceptions. The `while` loop of `Levels` runs on fuel, which the number of pending
-- tests is enough for, since each round that goes on erases one of them. The loop over the chunks of a
-- level runs on fuel, which the number of its tests is enough for, since a chunk takes more than one.
-- Numbers are printed with fuel for 64 digits, which every word of 64 bits fits. Storage that no key holds
-- reads as 0, as `operator[]` creates it. `std::map` and `std::set` are lists in the order of their
-- keys. `double` is a parameter of Protocol, a type with the operations the code uses and no laws. The
-- clock is a parameter of TxnLog, as is whether a stream opens; durations, deadlines that pass and
-- `std::to_string` are parameters of the sequencer.
--
-- Not modelled: the YAML parser, the lines of text that the generator prints, and its command
-- line; locks; running out of memory or of threads; writes to a file that fail; what pybind11
-- converts and refuses, and the bindings that only register a modelled method under a name; what
-- the benchmark measures in wall-clock time and prints; the scripts, and what the bring-up example
-- prints.
pub mod Prelude
pub mod Word
pub mod Bus
pub mod Device
pub mod Protocol
pub mod TxnLog
pub mod Sequencer
pub mod Region
pub mod Registers
pub mod Accessor
pub mod Python
pub mod Benchmark
