-- ===== src/Lib.antt =====
-- A verification library of T-espresso: a compiler plugin that instruments CUDA kernels (lib/), a
-- device runtime that the instrumented kernels call (support/device-support.cu), a host runtime
-- that drains their records into a file (support/host-support.cu), and a reader of that file
-- (lib/trace-io.h, used by tools/cutracedump.c).
--
-- The parts and the files that model them:
--
-- Record models lib/common.h: the layout of a record, the macros that read and write its bit
-- fields (`record_get_*` and `record_set_*` for RECORD_GET_* and RECORD_SET_*), and the sizes of
-- records and slots. A record is the list of its 64-bit words.
--
-- Device.Warp, Device.Trace and Device.Writemask model what the 32 lanes of a warp compute in
-- `___cuprof_trace` of support/device-support.cu, each intrinsic (`__shfl_up_sync`,
-- `__ballot_sync` and so on) as a function of the values of all lanes, for the configuration in
-- which no CUPROF_*_DISABLE macro is set. Device.Slot models how the leading lane reserves space,
-- waits, commits and requests a flush. Device.Filter models `___cuprof_filter` and
-- `___cuprof_filter_volatile`.
--
-- TraceIo.Types, TraceIo.Deserialize, TraceIo.Header, TraceIo.Reader, TraceIo.Open, TraceIo.Next
-- and TraceIo.File model lib/trace-io.h: its structures, `trace_deserialize`, `header_serialize`,
-- `header_deserialize`, `trace_open`, `trace_next` with the loop of tools/cutracedump.c, and the
-- buffered file with `trace_write_header`. Transport joins the device and the reader: what
-- `trace_deserialize` makes of a record that `___cuprof_trace` stored (Transport.Recovered and
-- Transport.RoundTrip), and to which kernel and instruction it attributes it
-- (Transport.Attribution).
--
-- Host.Slot models `TraceConsumer::consumeSlot` of support/host-support.cu and one round of
-- `consume`. It writes through TraceIo.File. Host.Consumer models the rest of `TraceConsumer`, its
-- constructor, `consume` and its destructor, and `TraceManager`: the number of rounds and what the
-- device does before each of them are arguments. Its theorems take what the device puts into a
-- slot as a stream of bytes (Host.Consumer.Stream), go from one round (Host.Consumer.Round) over
-- several (Host.Consumer.Moved) to the file that a consumer leaves (Host.Consumer.Laws), and to
-- what TraceIo.Open reads of it (Host.Consumer.Reopen). Host.Filename models `traceName`.
-- Host.Interface models the calls by which the instrumented program sets the profiler up:
-- `___cuprof_init`, `___cuprof_term`, `___cuprof_gvsym_set_up` and `___cuprof_kernel_set_up`;
-- `set_up_all` is the calls for the kernels of a program in a row.
--
-- Dump models tools/cutracedump.c: the fields of a line, the line of a record, and `main` with its
-- arguments and how it ends, and of lib/trace-io.h what `header_deserialize` prints (`open_text`)
-- and `trace_close`. What `%s` prints of the memory at names that have no NUL behind them, and
-- whether freeing memory that is not set does harm, are parameters.
--
-- Protocol joins the two runtimes: the leading lanes of many records, the stores of their words
-- and the host, which use one slot at the same time, as a relation of steps in any order. It keeps
-- the slot as words, and the order of allocation as a log beside the state. A flush is one step,
-- taken when the device learns of it, and no word of a record is zero, since the device stores all
-- ones instead.
--
-- Pass.Options models `ParseArgs` of lib/RegisterStandardPasses.cpp, Pass.Kernels models
-- `findKernels` of lib/LocateKCalls.cpp and Pass.Launches the search for configuring and launching
-- calls in it (Pass.Launches.Blocks says which block and which call are meant). Of lib/InstrumentDevice.cpp, Pass.Index models the numbers of CTAs and warps whose
-- computation it builds, Pass.Pointer models `getPointerKind` (Pass.Pointer.Flow says what an
-- address is computed from), Pass.Access what is collected of a kernel with it, Pass.Headers the headers and calls that `instrumentMemAccess` and `instrumentScheduling`
-- add, and Pass.Device `setKernelHeader`, the slot of a CTA and the loop of `runOnModule`, with
-- `isKernelToBeTraced` of lib/PassCommon.h. Pass.Setup models `setupTraceInfo` and
-- `insertFilterVolatile`: what an instrumented kernel computes for a thread, with the filters of
-- Device.Filter that it calls and the arguments of Pass.Options. `setKernelHeader` uses
-- `header_serialize` of TraceIo.Header, as the source does.
--
-- Pass.Symbols models `getSymbolName` of lib/PassCommon.h, and Pass.Host lib/InstrumentHost.cpp:
-- the constructors, destructors, functions and registrations that are added to a host module
-- (Pass.Host.Names and Pass.Host.Registration hold the lemmas, Pass.Host.Constructors what is left
-- of the module), `patchKernelCall` (Pass.Host.Launch), and the start of the program, in which the
-- added functions call Host.Interface (Pass.Host.Start). The order in which the system runs
-- constructors of one priority is left open.
--
-- Base holds the Boolean tests on native numbers, lists with native indices, machine words and
-- little-endian bytes; Bits holds the lemmas on bit fields that the record format and the masks
-- share.
--
-- Machine integers are natural numbers with their wrap written out: `u32`, `sub32`, `shl64` and
-- the like of Base.Words. Text and memory are lists or functions of bytes. An access outside of a
-- buffer, an endless wait and an exception that nothing catches are `none`, or `fault` where there
-- is a null pointer besides.
--
-- Fuel is used in six places. The loop of `findLaunchFor` takes one round for each block, and
-- theorems say when this is enough. The loop of tools/cutracedump.c takes one round more than
-- there are records, and the theorem on it takes this fuel. The loop of `trace_open` over the
-- access data takes the number of its bytes, and the theorem on `trace_open` takes this fuel;
-- every kernel is eight bytes at least. That of `filter_common` is the sum of the lengths of its
-- lists; each round moves past one element of one of them, and the theorem on `findKernels` takes
-- this fuel. That of `getPointerKind` bounds the values that are taken from its stack, and a
-- theorem says how much is enough; its casts have a fuel of their own. The digits of a number are
-- at most one more than the number.
--
-- The operating system is the record `Os` of TraceIo.File: what `write` takes and whether `close`
-- succeeds. Some theorems ask that `write` takes all that it is given, as it does on a local file
-- with space left. For the reader it is the record `Env` of TraceIo.Open: what `read` gives, and
-- what memory is granted.
--
-- Not modelled: the structures that only carry device addresses, CUDA's own calls, the types,
-- casts and declarations of functions that lib/InstrumentHost.cpp and lib/InstrumentDevice.cpp ask
-- of LLVM, and what tools/cutracedump.c writes to its error output. The build files and scripts
-- hold no code of the program.
pub mod Base
pub mod Bits
pub mod Record
pub mod Device
pub mod TraceIo
pub mod Transport
pub mod Host
pub mod Protocol
pub mod Dump
pub mod Pass
