-- ===== src/Lib.antt =====
-- A model of the core of artdaq, the data acquisition toolkit, with proofs.
--
-- Board readers generate fragments and send them, spread over the event builders, through SHandles;
-- each event builder (and aggregator) receives them through RHandles, groups them into events in
-- its EventStore, and puts the complete events on a queue that an art thread reads. Every process
-- is a Commandable: an external command fires a transition of a state machine, which calls back
-- into the application.
--
--   Base            shared: tests, vectors as lists, the outcomes of calls that may throw
--   ArtdaqCore      the classes Fragment and RawEvent of the package artdaq-core, as parameters
--                   with laws
--   OrderedMap      std::map with unsigned keys
--   FragCounter     artdaq/DAQrate/detail/FragCounter.hh and .cc
--   Commandable     artdaq/Application/Commandable.sm (Machine), Commandable.hh and Commandable.cc
--   Commander       artdaq/ExternalComms/xmlrpc_commander.hh and .cc: the methods and their parameters, and
--                   (Server) the lock and the answers. A thread that arrives with a request takes the lock
--                   or is told "busy"; one event ends the call that has the lock.
--   EventStore      artdaq/DAQrate/EventStore.hh and EventStore.cc
--   SHandles        artdaq/DAQrate/SHandles.hh and SHandles.cc
--   RHandles        artdaq/DAQrate/RHandles.hh and RHandles.cc
--   Protocol        the messages of SHandles in the accounting of RHandles
--   MetricManager   artdaq/DAQrate/MetricManager.hh and .cc: the plugins, as pointers that may be null,
--                   and the two flags. A plugin is what its virtual functions make of it.
--   StatisticsHelper
--                   artdaq/Application/MPI2/StatisticsHelper.hh and .cc; `double` and the class
--                   MonitoredQuantity of artdaq-core are parameters
--   RawEventQueueReader
--                   artdaq/ArtModules/detail/RawEventQueueReader.hh and .cc; (Products) the constructor
--                   and the products of an event
--   Generator       artdaq/Application/CommandableFragmentGenerator.hh and .cc, and (Composite)
--                   CompositeDriver.hh and CompositeDriver_generator.cc
--   Parameters      the lookups of fhicl-cpp, as parameters, and the reading of parameters with an
--                   early return
--   BoardReader     artdaq/Application/MPI2/BoardReaderCore.hh and .cc, BoardReaderApp.hh and .cc
--   EventBuilder    artdaq/Application/MPI2/EventBuilderCore.hh and .cc, EventBuilderApp.hh and .cc
--   Aggregator      artdaq/Application/MPI2/AggregatorCore.hh and .cc, AggregatorApp.hh and .cc: the
--                   parameters, the commands, `process_fragments` of the data logger and of the online
--                   monitor, and the segment of shared memory between the two, as words. What another process
--                   or thread does is an argument: the other side of the segment, the clock, the size
--                   of the latest file. `sendPauseAndResume_` and `getLatestFileSize_` are functions of
--                   what the clients answer and what the directory holds. `report` is left out.
--                   `event_queue_` is the queue of the event store: the two are the same object.
--   GenToArt        tools/genToArt.cc: (Throttled) `ThrottledGenerator`, and `process_data`. What the
--                   factory gives for each name, and the parameters, are arguments.
--   GenericFragmentSimulator
--                   artdaq/DAQdata/GenericFragmentSimulator.hh and GenericFragmentSimulator_generator.cc,
--                   also as a generator of genToArt (Throttling); the random engine is a parameter
--   Tests           the theorems at concrete inputs, and runs
--
-- Correspondence. A method that changes its object takes the record that stands for it and returns
-- the new one. `uint64_t`, `size_t` and `unsigned` are natural numbers, with the wrap-around written
-- out where the code adds or subtracts. A call that can throw, or that can run into undefined
-- behaviour that the code does not exclude, returns an `Outcome`. What the environment decides is an
-- argument: the answer of each attempt to enqueue, of each poll for room, of each MPI call, and what
-- the virtual functions of a derived class do. Loops recur on the collection or on the rounds that
-- the code allows. Some loops of the code have no such bound and end with `out_of_fuel` after a given
-- number of rounds: `find_available`, for which enough rounds are those in which MPI completes a
-- request, `dequeue`, for which enough are those in which the queue answers, `next_from`, for which
-- enough are as many as there are sources, the loops of `process_fragments`, for which enough are those
-- up to the turn that ends them, and the loop on `try_again`, for which enough are those up to an
-- attempt that finds room or a flag set,
-- and the loops of genToArt, for which two polls of a generator and one round more than there are events
-- are enough if each call of a generator gives fragments of all its IDs.
--
-- Threads. The thread of `process_fragments` and the commands share the core. In the event builder a
-- command that waits for the mutex runs the turns of the thread until it has it; each turn carries the
-- flags as the thread reads them. The thread may also return between two commands, which unlocks the
-- mutex: that is an event of a session, and a later command finds the thread at its end. A thread that
-- has not returned takes turns that a command sees only through the mutex, so all of them are taken
-- where it returns. In the aggregator `stop` and `pause` set a flag and wait for the
-- thread to end. In the board reader a command stands between the turns that the thread takes before
-- and after it. A fault in either ends the application: nothing is claimed of what comes after. The
-- threads of the XML-RPC server meet at the lock of the commander only: a call that has it is one step,
-- at the event that ends it, since the other calls do no more than find the lock taken.
--
-- Not modelled: log and trace messages, clock times and sleeps (only the number of rounds counts), the
-- text of statistics reports, the contents of fragments beyond the members that the code reads, and the
-- places where the other components call MetricManager and StatisticsHelper. Of the components, the
-- metric plugins and Perf, which write to files and sockets; NetMonInput and NetMonOutput, which call
-- the serialization of ROOT; the start-up of MPI and the main programs; and the command lines.
mod Base
pub mod ArtdaqCore
pub mod OrderedMap
pub mod FragCounter
pub mod Commandable
pub mod Commander
pub mod EventStore
pub mod SHandles
pub mod RHandles
pub mod Protocol
pub mod Generator
pub mod RawEventQueueReader
pub mod Parameters
pub mod BoardReader
pub mod EventBuilder
pub mod Aggregator
pub mod MetricManager
pub mod StatisticsHelper
pub mod GenToArt
pub mod GenericFragmentSimulator
mod Tests
