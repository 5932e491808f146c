-- ===== src/Lib.antt =====
-- EpicsTcl: Tcl commands for the channels of EPICS channel access.
--
-- The command `epicschannel name` (CTCLEpicsCommand) makes a command object for a channel
-- (CTCLChannelCommand), which owns the channel (CChannel) and the Tcl variables linked to it
-- (CChannelVariable); a map from names to reference counts and command objects says which channels
-- are known. Channel access calls back when a channel connects, disconnects or changes. A channel
-- converts the new value to text through a converter for its native type, keeps it, and calls its
-- slot, which is the command's markChange: on another thread than the interpreter's this queues a
-- Tcl event, and the event, or markChange itself, sets the linked variables. A script's write to a
-- linked variable is traced, and sets the channel.
--
-- Ca, Tcl: the types and the calls of channel access (cadef.h) and of Tcl and libtclplus that the
--   program uses. These libraries are not modelled: what the program calls is a value, in the order
--   of the calls; what they answer is a parameter of the definition that asks (`Platform`, `Tcl`,
--   `Fresh`, `Answers`, `ConnectionArgs`, element counts, whether malloc delivers). A double is its
--   bits.
-- Converter and its modules: CConversionFactory and the CConverter classes of CChannel.cpp.
-- Channel, Channel.Put: CChannel of CChannel.h and CChannel.cpp, its assignments in Put. Properties:
--   Channel.Lifecycle.Kept, Channel.PutBounds, Channel.Labels.
-- Monitor: CCriticalRegion of CChannel.h, over a parameter for the mutex of pthreads. Monitor.Threads:
--   threads that run members of one channel, interleaved access by access. Monitor.Members: the
--   members of CChannel that hold the monitor throughout, statement by statement. Properties:
--   Monitor.Atomic.
-- Variable: CChannelVariable of CChannelVariable.cpp. Its calls of libtclplus name the variable by the
--   object's address and the name that the program gave; which traces Tcl then fires is not modelled.
-- Command, Command.Set: Get, Set, Updatetime, ListLinks, ValueList, Size, Usage and find of
--   CTCLChannelCommand.cpp. Properties: Command.Replies, Command.Assignments.
-- World, Map: the state that commands share (the live objects by address, m_channelInfo of
--   CTCLEpicsCommand.cpp, the Tcl event queue, the calls made) and its association lists. An access
--   through the address of an object that is gone is the result `dangling`.
-- Registry: operator(), haveChannel and deleteChannel of CTCLEpicsCommand.cpp, the constructor and
--   the destructor of CTCLChannelCommand. Links: Link, Unlink and isLinked. Change: markChange,
--   update, UpdateLinkedVariable and the callbacks StateHandler and UpdateHandler. Dispatch:
--   operator() and Delete of CTCLChannelCommand, and a variable's write trace.
-- System: the steps of the whole, and the worlds that they reach. System.Ledger: its calls of channel
--   access against its live channels. Change.Teardown, System.Teardown: the destruction of a command in
--   two halves, with updates in between. System.Drain: the event loop takes all queued events.
--   System.Steps, System.Ledger.Steps, System.Progress, System.Counts, System.Delivery, System.Errors,
--   System.RoundTrip, System.Linking, System.LinkCounts: properties of the whole.
-- Units: CUnitChannel.cpp, CChannelList.cpp, CLookupVisitor.cpp and CBuildChannelData.cpp, which
--   takes each channel of the list for a CUnitChannel, as its header says. Units.Life: the life of a
--   channel list; Units.Standing: what its channels count for. Properties: Units.Balance.
-- Strings: CStrings.cpp.
-- Package: Epics_Init and pollEpics of CTCLEpicsPackage.cpp; whether Tcl_CreateThread makes the thread
--   is a parameter. Properties: Package.Attached.
-- Trace: CLanguageTraceCallbacks.cpp, the adaptor for C trace functions.
-- Socket: CSocket of CSocket.h and CSocket.cpp, a class of its own beside the commands. Socket.Os:
--   its states and exceptions, and the system calls and network databases, a parameter over an
--   unknown kernel. Socket.Act: a member as an action on the object, the static table of names and
--   the kernel. Socket.Control, Socket.Transfer, Socket.Options, Socket.Service, Socket.Names,
--   Socket.ByteOrder: the members; Socket.Members: all of them as one alphabet. Properties:
--   Socket.Diagram, Socket.Refusals, Socket.Delivery, Socket.Flushing, Socket.Timeouts,
--   Socket.Addresses, with the laws of the calls in records beside them.
-- Errors: CRangeError of RangeError.h and RangeError.cpp, and CStreamIOError of StreamIOError.h and
--   StreamIOError.cpp, over a parameter for their base class. Properties: Errors.Reasons.
-- Prelude: shared tests, lists, texts, integers and the order of strings. Tests: examples.
--
-- Bounds. An `int` that counts the elements of a vector is exact, since vectors are taken to have
-- fewer than 2 ^ 31 elements; the reference count of a known channel stays within `int`; that of a
-- linked variable is an `unsigned int` and wraps. A `Char` stands for a byte, and C strings hold no
-- NUL but where `strncpy` looks for one. Decimal printing runs on fuel `n + 1` for the number n,
-- which has at most that many digits. The loop of Write runs on fuel, one pass for each byte, which is
-- enough since a pass that goes on has written one at least; that of Flush on fuel that its caller
-- gives. Every other recursion is structural. A buffer has fewer than 2 ^ 31 bytes, numbers that
-- sscanf reads fit `int`, an option's `int` is not negative, and the processor is little-endian.
--
-- Not modelled. That two names may mean one Tcl variable, as `x` and `::x` do. The races of the members of CChannel that touch it without the monitor
-- (getAllowedValues, size, the first test of the vector assignments, the first statement of the
-- destructor): each is one step. Several locks at once: a thread of Monitor enters one channel's
-- monitor. A state change that arrives while a destructor waits in doEvents (updates that do are
-- in Change.Teardown). The order of `std::map`, which no result depends on. That ca_pend_event
-- lets callbacks in: System has them come at any time. `deleteChannel` takes the address that the
-- erased map entry held, where C++ leaves the read undefined. CSocket reads pointers that have no
-- value: what such a pointer reads as is a parameter, and so is an uninitialised `int`. The
-- exception classes of the sockets, which are not in the repository, Main.cpp, the tests, the Tk
-- scripts, and the release copy epicstcl-2.3, whose files are the same.
pub mod Prelude
pub mod Ca
pub mod Converter
pub mod Channel
pub mod Map
pub mod Monitor
pub mod Package
pub mod Tcl
pub mod Variable
pub mod Command
pub mod World
pub mod Registry
pub mod Links
pub mod Change
pub mod Dispatch
pub mod Strings
pub mod Units
pub mod Errors
pub mod Socket
pub mod System
pub mod Tests
pub mod Trace
